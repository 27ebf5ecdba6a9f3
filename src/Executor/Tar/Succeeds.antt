-- ===== src/Executor/Tar/Succeeds.antt =====
-- What tarArchiveFromPath needs to succeed.
use flow_agent_x.Prelude.{
  ◌≡◌, ◌≢◌, ap, Bool, refl, true, false, Option, none, some, List, [], ◌∷◌, ◌++◌, Text,
}
use flow_agent_x.Prelude.Exec.{
  Err, Result, ok, err, Outcome, ret, panic, hang, Exec, pure, modify, throw, panic_if_err, recover,
  bind_inv, ◌>>◌,
}
use flow_agent_x.Util.Files.{leaf, dir, Entries, end, entry}
use flow_agent_x.Executor.Tar.{
  TarFile, TarFormat, TarFaults, separator, write_too_long, header_name, dir_name, close_tar,
  then_next, on_nil, visit_body, visit, walk_entries, walk, tar_archive_from_path,
}

-- Every file can be read, and every link leads to an empty file.
abbrev pub CanPack : Entries → Type 0
CanPack end = Unit
CanPack (entry n (leaf false c) es) = ((bytes : Text) × (c ≡ ok bytes)) × CanPack es
CanPack (entry n (leaf true c) es) = (c ≡ ok []) × CanPack es
CanPack (entry n (dir cs) es) = CanPack cs × CanPack es

-- Both parts of a sequence that returned no error have returned none.
then_inv {ℓ} :
    {S : Type ℓ} (first next : Exec S (Option Err)) (s : S)
    → (then_next first next s).0 ≡ ret none
    → ((first s).0 ≡ ret none) × ((next (first s).1).0 ≡ ret none)
then_inv first next s h =
    let (r, e, k) =
      bind_inv first (on_nil next) s none _ (λ i. (h i, (then_next first next s).1)) in
    by_error r e k
  where
    by_error :
        (r : Option Err)
        → (first s).0 ≡ ret r
        → on_nil next r (first s).1 ≡ (ret none, (then_next first next s).1)
        → ((first s).0 ≡ ret none) × ((next (first s).1).0 ≡ ret none)
    by_error none e k = (e, ap (λ q. q.0) k)
    by_error (some x) e k = absurd (let q = ap (λ p. p.0) k in cc)

module _ (windows : Bool) (faults : TarFaults) (root : Text) where
  -- The header is written or refused, and then comes an error.
  thrown :
      (r : Option Err) (g : List TarFile → List TarFile) (e : Err) (files : List TarFile)
      → (recover (λ x. pure (some x)) ((panic_if_err r >> modify g) >> throw e) files).0 ≢ ret none
  thrown none g e files = λ h. cc
  thrown (some x) g e files = λ h. cc

  visit-file :
      (file : Text) (c : Result Text) (files : List TarFile)
      → (visit windows faults root file (some (leaf false c)) files).0 ≡ ret none
      → (bytes : Text) × (c ≡ ok bytes)
  unfolding visit visit_body
  visit-file file (ok bytes) files h = (bytes, refl)
  visit-file file (err e) files h =
      absurd (thrown (faults.header (header_name windows root file)) _ e files h)

  visit-link :
      (file : Text) (c : Result Text) (files : List TarFile)
      → (visit windows faults root file (some (leaf true c)) files).0 ≡ ret none
      → c ≡ ok []
  unfolding visit visit_body
  visit-link file (ok []) files h = refl
  visit-link file (ok (n ∷ c)) files h =
      absurd (thrown (faults.header (header_name windows root file)) _ write_too_long files h)
  visit-link file (err e) files h =
      absurd (thrown (faults.header (header_name windows root file)) _ e files h)

  visit-leaf :
      (link : Bool) (n file : Text) (c : Result Text) (files : List TarFile)
      → (visit windows faults root file (some (leaf link c)) files).0 ≡ ret none
      → CanPack (entry n (leaf link c) end)
  visit-leaf true n file c files h = (visit-link file c files h, tt)
  visit-leaf false n file c files h = (visit-file file c files h, tt)

  with_leaf :
      (link : Bool) (n : Text) (c : Result Text) (es : Entries)
      → CanPack (entry n (leaf link c) end)
      → CanPack es
      → CanPack (entry n (leaf link c) es)
  with_leaf true n c es h k = (h.0, k)
  with_leaf false n c es h k = (h.0, k)

  walk_entries-CanPack :
      (file : Text) (es : Entries) (files : List TarFile)
      → (walk_entries windows faults root file es files).0 ≡ ret none
      → CanPack es
  unfolding walk_entries
  walk_entries-CanPack file end files h = tt
  walk_entries-CanPack file (entry n (leaf link c) es) files h =
      let (h1, h2) =
        then_inv (visit windows faults root (file ++ separator windows ∷ n) (some (leaf link c)))
          (walk_entries windows faults root file es) files h in
      with_leaf link n c es (visit-leaf link n (file ++ separator windows ∷ n) c files h1)
        (walk_entries-CanPack file es _ h2)
  walk_entries-CanPack file (entry n (dir cs) es) files h =
      let below = file ++ separator windows ∷ n in
      let first = visit windows faults root below (some (dir cs)) in
      let inside = walk_entries windows faults root below cs in
      let (h1, h2) =
        then_inv (then_next first inside) (walk_entries windows faults root file es) files h in
      let (h3, h4) = then_inv first inside files h1 in
      (walk_entries-CanPack below cs _ h4, walk_entries-CanPack file es _ h2)

closed :
    (format : TarFormat) (c : Option Err) (r : Outcome (Option Err)) (files : List TarFile)
    (stream : Text)
    → close_tar format c (r, files) ≡ ret (ok stream)
    → r ≡ ret none
closed format none (ret none) files stream h = refl
closed format (some e) (ret none) files stream h = refl
closed format none (ret (some e)) files stream h = absurd (cc)
closed format (some x) (ret (some e)) files stream h = absurd (cc)
closed format none (panic e) files stream h = absurd (cc)
closed format (some x) (panic e) files stream h = absurd (cc)
closed format none hang files stream h = absurd (cc)
closed format (some x) hang files stream h = absurd (cc)

-- A directory is archived without an error only if all of its files can be read and every link in it
-- leads to an empty file, whatever else the system does: what a link leads to is written behind a
-- header without a size, and refused.
pub tar_archive_from_path-CanPack :
    (format : TarFormat) (windows : Bool) (faults : TarFaults) (path stream : Text) (es : Entries)
    → tar_archive_from_path format windows faults path (some (dir es)) ≡ ret (ok stream)
    → CanPack es
unfolding tar_archive_from_path walk
tar_archive_from_path-CanPack format windows faults path stream es h =
    let root = dir_name (separator windows) path in
    let (h1, h2) =
      then_inv (visit windows faults root path (some (dir es)))
        (walk_entries windows faults root path es) [] (closed format faults.close _ _ stream h) in
    walk_entries-CanPack windows faults root path es _ h2
