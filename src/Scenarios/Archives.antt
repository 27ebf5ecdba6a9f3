-- ===== src/Scenarios/Archives.antt =====
-- util/files.go at concrete inputs.
use flow_agent_x.Prelude.{
  ℕ, zero, suc, ◌≡◌, ◌≢◌, ◌∙◌, ap, refl, arith, inl, ◌<◌, true, false, none, some, Option, [], ◌∷◌,
  ◌++◌, map, append-nil, Text, codes, text_eq,
}
use flow_agent_x.Prelude.Exec.{ok, err, ret, Outcome, Err}
use flow_agent_x.Util.Files.{
  Node, leaf, dir, Entries, end, entry, FilePath, stat, change_at, mkdir_all, write_at, overwrite,
  read_file, Faults, path_error, find_entry,
}
use flow_agent_x.Util.Files.Extract.{Distinct, items_of, prune}
use flow_agent_x.Util.Files.Names.{Named, IsName}
use flow_agent_x.Util.Files.Zip.{ZipFormat, Archive, zip, unzip, add_entries}
use flow_agent_x.Util.Files.Places.{Diverge}
use flow_agent_x.Util.Files.Copy.{copy_dir}
use flow_agent_x.Util.Files.Copy.Whole.{copied, height, copy_dir-copied}
use flow_agent_x.Util.Files.Unpack.{IsQuiet}
use flow_agent_x.Util.Files.RoundTrip.{slash, plain, unzip-zip}

abbrev pub no_faults : Faults
no_faults = record {
  touch = λ p. none;
  zip_entry = λ n. none;
  zip_close = none;
  finish = λ p. none;
  close = λ p. none;
}

pub no_faults-IsQuiet : IsQuiet no_faults
no_faults-IsQuiet = record {
  touch = λ p. refl;
  zip_entry = λ n. refl;
  zip_close = refl;
  finish = λ p. refl;
  close = λ p. refl;
}

-- A format in which 0 stands before a file, 1 before its bytes, and a byte is raised by two.
abbrev shift : Text → Text
shift [] = []
shift (b ∷ s) = suc (suc b) ∷ shift s

abbrev pub pack : Archive → Text
pack [] = []
pack ((name, dat) ∷ files) = 0 ∷ (shift name ++ 1 ∷ (shift dat ++ pack files))

abbrev pub Read : Type 0
Read = Text × Text × Archive

abbrev pub reads : Text → Read
reads [] = ([], [], [])
reads (zero ∷ s) = let (name, dat, files) = reads s in ([], [], (name, dat) ∷ files)
reads (suc zero ∷ s) = let (dat, _, files) = reads s in ([], dat, files)
reads (suc (suc b) ∷ s) = let (bytes, dat, files) = reads s in (b ∷ bytes, dat, files)

reads-shift :
    (bytes s : Text) → reads (shift bytes ++ s) ≡ (bytes ++ (reads s).0, (reads s).1, (reads s).2)
reads-shift [] s = refl
reads-shift (b ∷ bytes) s = ap (λ (r : Read). (b ∷ r.0, r.1, r.2)) (reads-shift bytes s)

reads-pack : (files : Archive) → reads (pack files) ≡ ([], [], files)
reads-pack [] = refl
reads-pack ((name, dat) ∷ files) =
    let back : reads (shift dat ++ pack files) ≡ (dat, [], files) =
      reads-shift dat (pack files)
      ∙ ap (λ (r : Read). (dat ++ r.0, r.1, r.2)) (reads-pack files)
      ∙ ap (λ (x : Text). (x, [], files)) (append-nil dat) in
    let front : reads (shift name ++ 1 ∷ (shift dat ++ pack files)) ≡ (name, dat, files) =
      reads-shift name (1 ∷ (shift dat ++ pack files))
      ∙ ap (λ (r : Read). (name ++ [], r.0, r.2)) back
      ∙ ap (λ (x : Text). (x, dat, files)) (append-nil name) in
    ap (λ (r : Read). ([], [], (r.0, r.1) ∷ r.2)) front

abbrev format : ZipFormat
format = record { pack = pack; unpack = λ s. ok (map plain (reads s).2) }

format_law : (files : Archive) → format.unpack (format.pack files) ≡ ok (map plain files)
format_law files = ap (λ (r : Read). ok (map plain r.2)) (reads-pack files)

-- A directory with a file, an empty directory, and one that holds a file and one that is not to read.
abbrev tree : Entries
tree = entry (codes "a") (leaf false (ok (codes "A"))) (
    entry (codes "e") (dir end) (
      entry (codes "d")
        (dir (
          entry (codes "b") (leaf false (ok (codes "B")))
            (entry (codes "x") (leaf false (err path_error)) end)))
        end))

abbrev first : Node
first = dir (entry (codes "ws") (dir tree) (entry (codes "tmp") (dir end) end))

abbrev zip_path : FilePath
zip_path = codes "tmp" ∷ codes "z" ∷ []

abbrev second : Node
second = dir (
    entry (codes "z")
      (leaf false (ok (pack ((codes "a", codes "A") ∷ (codes "d/b", codes "B") ∷ [])))) end)

tree-Distinct : Distinct tree
unfolding find_entry text_eq
tree-Distinct = (refl, (refl, tt, (refl, (refl, (refl, tt)), tt)))

pub letter-IsName : (c : ℕ) → c ≢ b'/' → c ≢ b'.' → IsName (c ∷ [])
letter-IsName c h k =
    ((h, tt), λ e. cc, λ e. k (let p : c ≡ b'.' = cc in p), λ e. k (let p : c ≡ b'.' = cc in p))

tree-Named : Named tree
tree-Named =
    let a = letter-IsName b'a' (omega arith) (omega arith) in
    let e = letter-IsName b'e' (omega arith) (omega arith) in
    let d = letter-IsName b'd' (omega arith) (omega arith) in
    let b = letter-IsName b'b' (omega arith) (omega arith) in
    let x = letter-IsName b'x' (omega arith) (omega arith) in (a, (e, tt, (d, (b, (x, tt)), tt)))

tree_files : items_of tree ≢ []
unfolding items_of
tree_files e = cc

abbrev zipped : Outcome (Option Err) × Node
zipped = zip no_faults format (codes "ws" ∷ []) zip_path slash first

zipped_bytes : read_file (codes "z" ∷ []) second ≡ read_file zip_path zipped.1
unfolding zip read_file add_entries text_eq
zipped_bytes = refl

first_made :
    (t : Node) × (write_at zip_path (overwrite []) (some first) ≡ some t)
    × (stat (codes "ws" ∷ []) t ≡ some (dir tree))
unfolding write_at stat text_eq
first_made = (_, refl, refl)

second_free :
    (stat (codes "out" ∷ []) second ≡ none)
    × (t : Node) × (mkdir_all (codes "out" ∷ []) second ≡ some t)
unfolding mkdir_all stat text_eq
second_free = (refl, _, refl)

unzip-zip_example :
    (zipped.0 ≡ ret none)
    × (v : Node) × (unzip no_faults format (codes "z" ∷ []) (codes "out" ∷ []) second
        ≡ (ret none, v))
    × (stat (codes "out" ∷ []) v ≡ some (dir (prune tree)))
    × (change_at (codes "out" ∷ []) (λ x. some (dir (prune tree))) (some second) ≡ some v)
unzip-zip_example =
    unzip-zip no_faults no_faults-IsQuiet format format_law tree tree-Distinct tree-Named tree_files
      (codes "ws" ∷ []) zip_path first first_made.0 first_made.1 first_made.2 (codes "z" ∷ [])
      (codes "out" ∷ []) second second_free.1 second_free.0 second_free.2 zipped_bytes

-- A directory with a file and, in a directory, a file and a link.
abbrev sources : Entries
sources = entry (codes "a") (leaf false (ok (codes "A"))) (
    entry (codes "d")
      (dir (
        entry (codes "b") (leaf false (ok (codes "B")))
          (entry (codes "l") (leaf true (ok (codes "A"))) end)))
      end)

abbrev third : Node
third = dir (entry (codes "ws") (dir sources) end)

sources-Distinct : Distinct sources
unfolding find_entry text_eq
sources-Distinct = (refl, (refl, (refl, (refl, tt)), tt))

apart : Diverge (codes "ws" ∷ []) (codes "out" ∷ [])
unfolding text_eq
apart = inl refl

third_free :
    (stat (codes "ws" ∷ []) third ≡ some (dir sources))
    × (stat (codes "out" ∷ []) third ≡ none)
    × (t : Node) × (mkdir_all (codes "out" ∷ []) third ≡ some t)
unfolding mkdir_all stat text_eq
third_free = (refl, refl, _, refl)

shallow : height sources < 2
unfolding height
shallow = omega arith

copy_dir-copied_example :
    (t : Node) × (copy_dir no_faults 2 (codes "ws" ∷ []) (codes "out" ∷ []) third ≡ (ret none, t))
    × (stat (codes "out" ∷ []) t ≡ some (dir (copied sources)))
    × (change_at (codes "out" ∷ []) (λ x. some (dir (copied sources))) (some third) ≡ some t)
copy_dir-copied_example =
    copy_dir-copied no_faults no_faults-IsQuiet 2 (codes "ws" ∷ []) (codes "out" ∷ []) sources third
      third_free.2 apart third_free.0 third_free.1 third_free.3 sources-Distinct
      ((codes "A", refl), (((codes "B", refl), tt), tt)) shallow
