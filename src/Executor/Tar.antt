-- ===== src/Executor/Tar.antt =====
-- executor/docker_util.go: the tar streams that go into a container and come back
-- (tarArchiveFromPath, untarFromReader). Their bytes are package archive/tar's.
pub mod Names
pub mod Pack
pub mod Unpack
pub mod Succeeds
pub mod RoundTrip
use flow_agent_x.Prelude.{
  ℕ, Bool, true, false, Option, none, some, List, [], ◌∷◌, ◌++◌, if◌then◌else◌, ◌==◌, length, drop,
  Text, codes, has_prefix,
}
use flow_agent_x.Prelude.Exec.{
  Err, foreign, Result, ok, err, Outcome, ret, panic, hang, Exec, pure, throw, must, modify,
  panic_if_err, recover, ◌>>=◌, ◌>>◌,
}
use flow_agent_x.Util.Template.{replace_all}
use flow_agent_x.Util.Files.{
  Node, leaf, dir, Entries, end, entry, FilePath, path_error, mkdir_all, write_at, Faults,
}

-- A header with what is written behind it: a link has no bytes.
pub record TarFile : Type 0 where
  pub name : Text
  pub is_dir : Bool
  pub bytes : Text

-- What tar.Writer makes of the files, and what tar.Reader finds: the files, each with the bytes that
-- io.Copy reads and its error, and the error that ends them unless it is io.EOF.
pub record TarFormat : Type 0 where
  pub pack : List TarFile → Text
  pub unpack : Text → List (TarFile × Option Err) × Option Err

-- What may fail besides: WriteHeader for a name, Close of a file that was read, and of the writer.
pub record TarFaults : Type 0 where
  pub header : Text → Option Err
  pub close_file : Text → Option Err
  pub close : Option Err

-- tar.ErrWriteTooLong
abbrev pub write_too_long : Err
write_too_long = foreign 21

-- The second function runs unless the first returned an error.
abbrev pub on_nil {ℓ} : {S : Type ℓ} → Exec S (Option Err) → Option Err → Exec S (Option Err)
on_nil next none = next
on_nil next (some e) = pure (some e)

abbrev pub then_next {ℓ} : {S : Type ℓ} → (first next : Exec S (Option Err)) → Exec S (Option Err)
then_next first next = first >>= on_nil next

abbrev pub separator : Bool → ℕ
separator windows = if windows then b'\\' else b'/'

abbrev pub or_here : ℕ → ℕ → Text → Option Text → Option Text
or_here sep c s (some d) = some (c ∷ d)
or_here sep c s none = if c == sep then some [] else none

-- What stands before the last separator.
unfoldable pub up_to_last : ℕ → Text → Option Text
up_to_last sep [] = none
up_to_last sep (c ∷ s) = let rest = up_to_last sep s in or_here sep c s rest

abbrev pub dir_from : ℕ → Option Text → Text
dir_from sep none = codes "."
dir_from sep (some []) = sep ∷ []
dir_from sep (some (c ∷ d)) = c ∷ d

-- filepath.Dir of a clean path, which does not lie in the root of a volume of Windows
unfoldable pub dir_name : ℕ → Text → Text
unfolding up_to_last
dir_name sep path = dir_from sep (up_to_last sep path)

-- strings.TrimPrefix
unfoldable pub trim_prefix : Text → Text → Text
unfolding has_prefix
trim_prefix s p = if has_prefix s p then drop (length p) s else s

-- The name of a file in the archive.
unfoldable pub header_name : Bool → Text → Text → Text
unfolding replace_all trim_prefix
header_name windows root file =
    let name = trim_prefix (replace_all file root []) (separator windows ∷ []) in
    if windows then replace_all name (codes "\\") (codes "/") else name

module _ (windows : Bool) (faults : TarFaults) (root : Text) where
  abbrev pub add_header : Text → Bool → Text → Exec (List TarFile) (Unit {0})
  add_header file is_dir bytes =
      panic_if_err (faults.header (header_name windows root file))
      >> modify (λ files.
        files
        ++ record { name = header_name windows root file; is_dir = is_dir; bytes = bytes } ∷ [])

  -- A link has a header of size 0, but what it leads to is copied. The archive is dropped on an
  -- error, so a header may be added with its bytes.
  unfoldable pub visit_body : Text → Option Node → Exec (List TarFile) (Option Err)
  unfolding header_name
  visit_body file none = throw path_error
  visit_body file (some (dir es)) = add_header file true [] >> pure none
  visit_body file (some (leaf link (err e))) = add_header file false [] >> throw e
  visit_body file (some (leaf false (ok bytes))) =
      add_header file false bytes >> panic_if_err (faults.close_file file) >> pure none
  visit_body file (some (leaf true (ok []))) =
      add_header file false [] >> panic_if_err (faults.close_file file) >> pure none
  visit_body file (some (leaf true (ok (c ∷ bytes)))) =
      add_header file false [] >> throw write_too_long

  -- The function that is given to filepath.Walk.
  unfoldable pub visit : Text → Option Node → Exec (List TarFile) (Option Err)
  unfolding visit_body
  visit file t = recover (λ e. pure (some e)) (visit_body file t)

  -- filepath.Walk below a directory; no path here ends in a separator.
  unfoldable pub walk_entries : Text → Entries → Exec (List TarFile) (Option Err)
  unfolding visit
  walk_entries file end = pure none
  walk_entries file (entry n (leaf link c) es) =
      then_next (visit (file ++ separator windows ∷ n) (some (leaf link c))) (walk_entries file es)
  walk_entries file (entry n (dir cs) es) =
      then_next
        (then_next (visit (file ++ separator windows ∷ n) (some (dir cs)))
          (walk_entries (file ++ separator windows ∷ n) cs))
        (walk_entries file es)

  unfoldable pub walk : Text → Option Node → Exec (List TarFile) (Option Err)
  unfolding walk_entries
  walk path none = visit path none
  walk path (some (leaf link c)) = visit path (some (leaf link c))
  walk path (some (dir es)) = then_next (visit path (some (dir es))) (walk_entries path es)

module _ (format : TarFormat) where
  abbrev pub close_tar : Option Err → Outcome (Option Err) × List TarFile → Outcome (Result Text)
  close_tar (some e) (ret none, files) = ret (err e)
  close_tar none (ret none, files) = ret (ok (format.pack files))
  close_tar c (ret (some e), files) = ret (err e)
  close_tar c (panic e, files) = panic e
  close_tar c (hang, files) = hang

  -- `t` is what stands at the path.
  unfoldable pub tar_archive_from_path :
      Bool → TarFaults → (path : Text) → (t : Option Node) → Outcome (Result Text)
  unfolding dir_name walk
  tar_archive_from_path windows faults path t =
      close_tar faults.close (walk windows faults (dir_name (separator windows) path) path t [])

-- An error of a call that changes the file system is returned.
abbrev pub returned : Option Node → Exec Node (Option Err)
returned none t = (ret (some path_error), t)
returned (some t') t = (ret none, t')

abbrev pub attempt : Option Err → (Node → Option Node) → Exec Node (Option Err)
attempt none f t = returned (f t) t
attempt (some e) f t = (ret (some e), t)

-- A file is opened without O_TRUNC: what it held behind the new bytes stays.
abbrev pub over_front : Text → Text → Text
over_front bytes old = bytes ++ drop (length bytes) old

-- `resolve` is the place of dest + "/" + name for the system.
module _ (faults : Faults) (resolve : FilePath → Text → FilePath) where
  unfoldable pub untar_file : FilePath → TarFile → Option Err → Exec Node (Option Err)
  unfolding mkdir_all write_at
  untar_file dest f failure =
      let target = resolve dest f.name in
      if f.is_dir
      then attempt (faults.touch target) (mkdir_all target)
      else then_next
          (then_next (attempt (faults.touch target) (λ t. write_at target (λ old. old) (some t)))
            (attempt none (λ t. write_at target (over_front f.bytes) (some t))))
          (pure failure)

  unfoldable pub untar_files :
      FilePath → Option Err → List (TarFile × Option Err) → Exec Node (Option Err)
  unfolding untar_file
  untar_files dest last [] = pure last
  untar_files dest last ((f, failure) ∷ fs) =
      let rest = untar_files dest last fs in then_next (untar_file dest f failure) rest

  unfoldable pub untar_from_reader : TarFormat → Text → FilePath → Exec Node (Option Err)
  unfolding untar_files
  untar_from_reader format stream dest =
      let (files, last) = format.unpack stream in untar_files dest last files
