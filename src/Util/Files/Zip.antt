-- ===== src/Util/Files/Zip.antt =====
-- util/files.go: Zip and Unzip. The bytes of a zip file are package archive/zip's.
use flow_agent_x.Prelude.{Bool, true, false, Option, none, some, List, [], ◌∷◌, ◌++◌, Text}
use flow_agent_x.Prelude.Exec.{
  Err, Result, ok, err, Outcome, ret, panic, hang, Exec, pure, throw, must, modify, panic_if_err,
  recover, ◌>>=◌, ◌>>◌,
}
use flow_agent_x.Util.Files.{
  Node, leaf, dir, Entries, end, entry, FilePath, path_error, stat, mkdir_all, write_at, overwrite,
  read_file, Faults, change, parent, join_path,
}

-- The files that the writer has taken, in order.
abbrev pub Archive : Type 0
Archive = List (Text × Text)

-- A file that the reader finds: whether it is a directory, and what reading it gives.
pub record ZipFile : Type 0 where
  pub name : Text
  pub is_dir : Bool
  pub body : Result Text

-- What zip.Writer makes of the files, and zip.OpenReader of bytes.
pub record ZipFormat : Type 0 where
  pub pack : Archive → Text
  pub unpack : Text → Result (List ZipFile)

module _ (faults : Faults) where
  -- A file that cannot be read is skipped.
  unfoldable pub add_file : Text → Result Text → Exec Archive (Unit {0})
  add_file name (err e) = pure tt
  add_file name (ok dat) =
      panic_if_err (faults.zip_entry name) >> modify (λ files. files ++ (name, dat) ∷ [])

  -- addFiles behind its ReadDir
  unfoldable pub add_entries : Text → Text → Entries → Exec Archive (Unit {0})
  unfolding add_file
  add_entries separator base end = pure tt
  add_entries separator base (entry n (leaf link c) es) =
      add_file (base ++ n) c >> add_entries separator base es
  add_entries separator base (entry n (dir cs) es) =
      add_entries separator ((base ++ n) ++ separator) cs >> add_entries separator base es

  -- addFiles on the directory to pack: its ReadDir fails on a file.
  unfoldable pub add_files : Text → Option Node → Exec Archive (Unit {0})
  unfolding add_entries
  add_files separator none = throw path_error
  add_files separator (some (leaf link c)) = throw path_error
  add_files separator (some (dir es)) = add_entries separator [] es

  module _ (format : ZipFormat) where
    -- What is written before a panic is left out: the file is empty then.
    abbrev pub close_zip : FilePath → Outcome (Unit {0}) × Archive → Exec Node (Unit {0})
    close_zip dest (ret x, files) =
        panic_if_err faults.zip_close
        >> change none (λ t. write_at dest (overwrite (format.pack files)) (some t))
    close_zip dest (panic e, files) = throw e
    close_zip dest (hang, files) = λ t. (hang, t)

    unfoldable pub zip_body : (src dest : FilePath) → Text → Exec Node (Option Err)
    unfolding stat write_at add_files
    zip_body src dest separator =
        (change (faults.touch dest) (λ t. write_at dest (overwrite []) (some t))
          >> (λ t. close_zip dest (add_files separator (stat src t) []) t))
        >> pure none

    unfoldable pub zip : (src dest : FilePath) → Text → Exec Node (Option Err)
    unfolding zip_body
    zip src dest separator = recover (λ e. pure (some e)) (zip_body src dest separator)

    -- The loop's body: for a directory, an error of MkdirAll is dropped.
    abbrev pub dropped : Outcome (Unit {0}) × Node → Outcome (Unit {0}) × Node
    dropped (r, t) = (ret tt, t)

    unfoldable pub unzip_plain : FilePath → Result Text → Exec Node (Unit {0})
    unfolding mkdir_all write_at parent
    unzip_plain path body =
        change (faults.touch (parent path)) (mkdir_all (parent path))
        >> change (faults.touch path) (λ t. write_at path (overwrite []) (some t))
        >> (must body >>= λ bytes. change none (λ t. write_at path (overwrite bytes) (some t)))

    unfoldable pub unzip_file : FilePath → ZipFile → Exec Node (Unit {0})
    unfolding unzip_plain join_path
    unzip_file dest f = elim f.is_dir [
      | true ↦ λ t.
          dropped
            (change (faults.touch (join_path dest f.name)) (mkdir_all (join_path dest f.name)) t)
      | false ↦ unzip_plain (join_path dest f.name) f.body
    ]

    unfoldable pub unzip_files : FilePath → List ZipFile → Exec Node (Unit {0})
    unfolding unzip_file
    unzip_files dest [] = pure tt
    unzip_files dest (f ∷ fs) = let rest = unzip_files dest fs in unzip_file dest f >> rest

    unfoldable pub unzip : (src dest : FilePath) → Exec Node (Option Err)
    unfolding read_file unzip_files
    unzip src dest =
        recover (λ e. pure (some e))
          (((λ t. must (read_file src t) t) >>= λ bytes.
              must (format.unpack bytes) >>= unzip_files dest)
            >> pure none)
