-- ===== src/Executor/Tar/Pack.antt =====
-- tarArchiveFromPath where the system refuses nothing.
use flow_agent_x.Prelude.{
  ℕ, ◌≡◌, ◌≢◌, ◌∙◌, sym, ap, refl, Bool, true, false, Option, none, some, List, [], ◌∷◌, ◌++◌,
  append_assoc, append-nil, Text,
}
use flow_agent_x.Prelude.Exec.{Err, ok, err, ret, Exec, bind_returns}
use flow_agent_x.Util.Files.{leaf, dir, Entries, end, entry, FilePath}
use flow_agent_x.Util.Files.Names.{path_text}
use flow_agent_x.Util.Template.Replace.{contains}
use flow_agent_x.Executor.Tar.{
  TarFile, TarFaults, then_next, on_nil, visit_body, visit, walk_entries,
}
use flow_agent_x.Executor.Tar.Names.{header_name-below}

pub then_returns {ℓ} :
    {S : Type ℓ} (first next : Exec S (Option Err)) (s s1 : S)
    → first s ≡ (ret none, s1)
    → then_next first next s ≡ next s1
then_returns first next s s1 h = bind_returns first (on_nil next) s s1 none h

-- Every entry is a directory or a file that can be read.
abbrev pub Packable : Entries → Type 0
Packable end = Unit
Packable (entry n (leaf link c) es) =
    ((link ≡ false) × (bytes : Text) × (c ≡ ok bytes)) × Packable es
Packable (entry n (dir cs) es) = Packable cs × Packable es

-- The text of the root occurs in no path below it.
abbrev pub Alone : Text → FilePath → Entries → Type 0
Alone root base end = Unit
Alone root base (entry n (leaf link c) es) =
    (contains (b'/' ∷ path_text (base ++ n ∷ [])) root ≡ false) × Alone root base es
Alone root base (entry n (dir cs) es) =
    (contains (b'/' ∷ path_text (base ++ n ∷ [])) root ≡ false)
    × Alone root (base ++ n ∷ []) cs
    × Alone root base es

abbrev pub packed : FilePath → Bool → Text → TarFile
packed p is_dir bytes = record { name = path_text p; is_dir = is_dir; bytes = bytes }

-- The files of the archive, each directory in front of what it holds.
unfoldable pub flat : FilePath → Entries → List TarFile
flat base end = []
flat base (entry n (leaf link (ok c)) es) = packed (base ++ n ∷ []) false c ∷ flat base es
flat base (entry n (leaf link (err e)) es) = flat base es
flat base (entry n (dir cs) es) =
    packed (base ++ n ∷ []) true [] ∷ flat (base ++ n ∷ []) cs ++ flat base es

-- The archive of a directory: the directory itself, and all below it.
abbrev pub archive : Text → Entries → List TarFile
archive base es = packed (base ∷ []) true [] ∷ flat (base ∷ []) es

pub longer : (p : FilePath) (n : Text) → p ++ n ∷ [] ≢ []
longer [] n = λ e. cc
longer (k ∷ p) n = λ e. cc

path_text-append :
    (p : FilePath) (n : Text) → p ≢ [] → path_text (p ++ n ∷ []) ≡ path_text p ++ b'/' ∷ n
path_text-append [] n h = absurd (h refl)
path_text-append (k ∷ []) n h = refl
path_text-append (k ∷ j ∷ p) n h =
    ap (λ s. k ++ b'/' ∷ s) (path_text-append (j ∷ p) n (λ e. cc))
    ∙ sym (append_assoc k (b'/' ∷ path_text (j ∷ p)) (b'/' ∷ n))

-- No call of the writer fails.
pub record IsQuietTar (faults : TarFaults) : Type 0 where
  pub header : (n : Text) → faults.header n ≡ none
  pub close_file : (n : Text) → faults.close_file n ≡ none
  pub close : faults.close ≡ none

module _ (faults : TarFaults) (quiet : IsQuietTar faults) (o : ℕ) (rest : Text) where
  abbrev pub file_text : FilePath → Text
  file_text p = (o ∷ rest) ++ b'/' ∷ path_text p

  file_text-append :
      (p : FilePath) (n : Text) → p ≢ [] → file_text p ++ b'/' ∷ n ≡ file_text (p ++ n ∷ [])
  file_text-append p n h =
      append_assoc (o ∷ rest) (b'/' ∷ path_text p) (b'/' ∷ n)
      ∙ ap (λ s. (o ∷ rest) ++ b'/' ∷ s) (sym (path_text-append p n h))

  visit_file :
      (p : FilePath) (bytes : Text) (files : List TarFile)
      → contains (b'/' ∷ path_text p) (o ∷ rest) ≡ false
      → visit false faults (o ∷ rest) (file_text p) (some (leaf false (ok bytes))) files
        ≡ (ret none, files ++ packed p false bytes ∷ [])
  unfolding visit visit_body
  visit_file p bytes files h =
      rw
        (
          header_name-below o rest (path_text p) h,
          quiet.header (path_text p),
          quiet.close_file (file_text p),
        )
        refl

  pub visit_dir :
      (p : FilePath) (es : Entries) (files : List TarFile)
      → contains (b'/' ∷ path_text p) (o ∷ rest) ≡ false
      → visit false faults (o ∷ rest) (file_text p) (some (dir es)) files
        ≡ (ret none, files ++ packed p true [] ∷ [])
  unfolding visit visit_body
  visit_dir p es files h =
      rw (header_name-below o rest (path_text p) h, quiet.header (path_text p)) refl

  -- The walk below a directory adds its files.
  pub walk_entries-flat :
      (base : FilePath) (es : Entries) (files : List TarFile)
      → base ≢ []
      → Packable es
      → Alone (o ∷ rest) base es
      → walk_entries false faults (o ∷ rest) (file_text base) es files
        ≡ (ret none, files ++ flat base es)
  unfolding walk_entries flat
  walk_entries-flat base end files h p a = ap (λ x. (ret none, x)) (sym (append-nil files))
  walk_entries-flat base (entry n (leaf true c) es) files h p a =
      absurd (let e : true ≡ false = p.0.0 in cc)
  walk_entries-flat base (entry n (leaf false (err e)) es) files h p a =
      absurd (let q = p.0.2 in cc)
  walk_entries-flat base (entry n (leaf false (ok c)) es) files h p a =
      let q = base ++ n ∷ [] in
      then_returns
        (visit false faults (o ∷ rest) (file_text base ++ b'/' ∷ n) (some (leaf false (ok c))))
        (walk_entries false faults (o ∷ rest) (file_text base) es) files
        (files ++ packed q false c ∷ [])
        (ap (λ f. visit false faults (o ∷ rest) f (some (leaf false (ok c))) files)
            (file_text-append base n h)
          ∙ visit_file q c files a.0)
      ∙ walk_entries-flat base es (files ++ packed q false c ∷ []) h p.1 a.1
      ∙ ap (λ x. (ret none, x)) (append_assoc files (packed q false c ∷ []) (flat base es))
  walk_entries-flat base (entry n (dir cs) es) files h p a =
      let q = base ++ n ∷ [] in
      let made = files ++ packed q true [] ∷ [] in
      let inside = made ++ flat q cs in
      let file = file_text base ++ b'/' ∷ n in
      let first = visit false faults (o ∷ rest) file (some (dir cs)) in
      let below = walk_entries false faults (o ∷ rest) file cs in
      let e1 : first files ≡ (ret none, made) =
        ap (λ f. visit false faults (o ∷ rest) f (some (dir cs)) files) (file_text-append base n h)
        ∙ visit_dir q cs files a.0 in
      let e2 : below made ≡ (ret none, inside) =
        ap (λ f. walk_entries false faults (o ∷ rest) f cs made) (file_text-append base n h)
        ∙ walk_entries-flat q cs made (longer base n) p.0 a.1 in
      then_returns (then_next first below)
        (walk_entries false faults (o ∷ rest) (file_text base) es) files inside
        (then_returns first below files made e1 ∙ e2)
      ∙ walk_entries-flat base es inside h p.1 a.2
      ∙ ap (λ x. (ret none, x))
          (append_assoc made (flat q cs) (flat base es)
            ∙ append_assoc files (packed q true [] ∷ []) (flat q cs ++ flat base es))
