-- ===== src/Util/Files.antt =====
-- util/files.go: the file system that it works on. A path is the list of its components from the
-- root. Modes of files are left out, and no link to a directory is followed.
pub mod Zip
pub mod Slots
pub mod Extract
pub mod Names
pub mod Unpack
pub mod RoundTrip
pub mod Places
pub mod Copy
use flow_agent_x.Prelude.{
  ℕ, Bool, true, false, ◌||◌, Option, none, some, List, [], ◌∷◌, ◌++◌, if◌then◌else◌, ◌==◌, Text,
  codes, text_eq, is_empty,
}
use flow_agent_x.Prelude.Exec.{Err, foreign, Result, ok, err, Outcome, ret, panic, Exec}

-- A leaf is a file or, if marked, a link to one, with what reading it gives.
mutual
  pub data Node : Type 0 where
    leaf : Bool → Result Text → Node
    dir : Entries → Node

  -- The entries of a directory in the order of ioutil.ReadDir.
  pub data Entries : Type 0 where
    end : Entries
    entry : Text → Node → Entries → Entries

abbrev pub FilePath : Type 0
FilePath = List Text

abbrev pub path_error : Err
path_error = foreign 20

unfoldable pub find_entry : Text → Entries → Option Node
find_entry k end = none
find_entry k (entry n t es) = if text_eq n k then some t else find_entry k es

-- A new entry stands behind the old ones.
unfoldable pub set_entry : Text → Node → Entries → Entries
set_entry k t end = entry k t end
set_entry k t (entry n u es) = if text_eq n k then entry n t es else entry n u (set_entry k t es)

-- os.Stat
unfoldable pub stat : FilePath → Node → Option Node
unfolding find_entry
stat [] t = some t
stat (k ∷ p) (leaf link c) = none
stat (k ∷ p) (dir es) = elim (find_entry k es) [ none ↦ none | some t ↦ stat p t ]

abbrev pub in_dir : Text → Entries → Option Node → Option Node
in_dir k es none = none
in_dir k es (some t) = some (dir (set_entry k t es))

-- A change of what stands at a path, if anything does; `none` for an error.
abbrev pub Change : Type 0
Change = Option Node → Option Node

-- A change behind os.MkdirAll of all that leads to its place.
unfoldable pub change_at : FilePath → Change → Change
unfolding find_entry set_entry
change_at [] f s = f s
change_at (k ∷ p) f none = in_dir k end (change_at p f none)
change_at (k ∷ p) f (some (leaf link c)) = none
change_at (k ∷ p) f (some (dir es)) = in_dir k es (change_at p f (find_entry k es))

abbrev pub as_dir : Change
as_dir none = some (dir end)
as_dir (some (leaf link c)) = none
as_dir (some (dir es)) = some (dir es)

-- os.MkdirAll
unfoldable pub mkdir_all : FilePath → Node → Option Node
unfolding change_at
mkdir_all p t = change_at p as_dir (some t)

-- The bytes of a file, from those it had: a file that cannot be read is not written either.
abbrev pub written : (Text → Text) → Change
written f none = some (leaf false (ok (f [])))
written f (some (leaf link (ok old))) = some (leaf link (ok (f old)))
written f (some (leaf link (err e))) = none
written f (some (dir es)) = none

-- os.OpenFile for writing, with O_CREATE, and what is written: the directory has to be there.
unfoldable pub write_at : FilePath → (Text → Text) → Change
unfolding find_entry set_entry
write_at [] f s = written f s
write_at (k ∷ p) f none = none
write_at (k ∷ p) f (some (leaf link c)) = none
write_at (k ∷ p) f (some (dir es)) = in_dir k es (write_at p f (find_entry k es))

-- O_TRUNC
abbrev pub overwrite : Text → Text → Text
overwrite bytes old = bytes

-- ioutil.ReadFile
abbrev pub content : Option Node → Result Text
content none = err path_error
content (some (leaf link c)) = c
content (some (dir es)) = err path_error

unfoldable pub read_file : FilePath → Node → Result Text
unfolding stat
read_file p t = content (stat p t)

-- What may fail besides: an error of Create, OpenFile or MkdirAll at a path, of an entry of a zip
-- file and of its end, of the last calls on a copied file (Sync, Stat, Chmod), and of its Close.
pub record Faults : Type 0 where
  pub touch : FilePath → Option Err
  pub zip_entry : Text → Option Err
  pub zip_close : Option Err
  pub finish : FilePath → Option Err
  pub close : FilePath → Option Err

-- A call that changes the file system at a path.
abbrev pub change : Option Err → (Node → Option Node) → Exec Node (Unit {0})
change (some e) f t = (panic e, t)
change none f t = elim (f t) [ none ↦ (panic path_error, t) | some t' ↦ (ret tt, t') ]

abbrev pub in_first : ℕ → FilePath → FilePath
in_first c [] = (c ∷ []) ∷ []
in_first c (k ∷ ks) = (c ∷ k) ∷ ks

-- The components of a text with separators, the empty ones too.
unfoldable pub components : Text → FilePath
components [] = [] ∷ []
components (c ∷ s) = let rest = components s in if c == b'/' then [] ∷ rest else in_first c rest

unfoldable pub parent : FilePath → FilePath
parent [] = []
parent (k ∷ []) = []
parent (k ∷ j ∷ p) = k ∷ parent (j ∷ p)

-- filepath.Clean of a path, of which the first part is clean.
unfoldable pub clean_onto : FilePath → FilePath → FilePath
unfolding text_eq parent
clean_onto p [] = p
clean_onto p (k ∷ ks) =
    clean_onto
      (if is_empty k || text_eq k (codes ".")
        then p
        else if text_eq k (codes "..")
        then parent p
        else p ++ k ∷ [])
      ks

-- filepath.Join
unfoldable pub join_path : FilePath → Text → FilePath
unfolding components clean_onto
join_path dest name = clean_onto dest (components name)
