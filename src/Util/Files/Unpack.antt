-- ===== src/Util/Files/Unpack.antt =====
-- Zip and Unzip where the system refuses nothing.
use flow_agent_x.Prelude.{
  ◌≡◌, ◌≢◌, ◌∙◌, sym, ap, refl, Option, none, some, List, [], ◌∷◌, ◌++◌, map, append-nil, All,
  false, Text,
}
use mathlib.Core.Path.{fun_ext, subst}
use flow_agent_x.Prelude.Exec.{Err, ok, err, ret, seq_returns, ◌>>◌}
use flow_agent_x.Util.Files.{
  Node, leaf, dir, FilePath, Change, change_at, as_dir, mkdir_all, written, write_at, overwrite,
  Faults, change, parent, join_path,
}
use flow_agent_x.Util.Files.Slots.{
  then_change, write_at-change_at, write_at-mkdir, mkdir_below, change_at_mono,
}
use flow_agent_x.Util.Files.Extract.{Item, onto, put, extract, extract_inv}
use flow_agent_x.Util.Files.Names.{path_text, IsBelow, join_path-path_text}
use flow_agent_x.Util.Files.Zip.{ZipFile, ZipFormat, unzip_plain, unzip_file, unzip_files}

-- No call fails but by what stands in the file system.
pub record IsQuiet (faults : Faults) : Type 0 where
  pub touch : (p : FilePath) → faults.touch p ≡ none
  pub zip_entry : (n : Text) → faults.zip_entry n ≡ none
  pub zip_close : faults.zip_close ≡ none
  pub finish : (p : FilePath) → faults.finish p ≡ none
  pub close : (p : FilePath) → faults.close p ≡ none

pub change_returns :
    (e : Option Err) (f : Node → Option Node) (t u : Node)
    → e ≡ none
    → f t ≡ some u
    → change e f t ≡ (ret tt, u)
change_returns none f t u h k = rw (change, k) refl
change_returns (some e) f t u h k = absurd (cc)

parent-append : (p : FilePath) (k : Text) → parent (p ++ k ∷ []) ≡ p
unfolding parent
parent-append [] k = refl
parent-append (j ∷ []) k = refl
parent-append (j ∷ i ∷ p) k = ap (λ q. j ∷ q) (parent-append (i ∷ p) k)

last_of : (p : FilePath) → p ≢ [] → (q : FilePath) × (k : Text) × (p ≡ q ++ k ∷ [])
last_of [] h = absurd (h refl)
last_of (k ∷ []) h = ([], k, refl)
last_of (k ∷ j ∷ p) h = let (q, i, e) = last_of (j ∷ p) (λ e. cc) in (k ∷ q, i, ap (λ r. k ∷ r) e)

emptied :
    (c : Text) (x : Option Node) (u : Node)
    → written (overwrite c) x ≡ some u
    → (v : Node) × (written (overwrite []) x ≡ some v)
emptied c none u h = (_, refl)
emptied c (some (leaf link (ok old))) u h = (_, refl)
emptied c (some (leaf link (err e))) u h = absurd (cc)
emptied c (some (dir es)) u h = absurd (cc)

longer : (d p : FilePath) → p ≢ [] → d ++ p ≢ []
longer [] p h = h
longer (k ∷ d) p h = λ e. cc

filled :
    (c : Text) (x : Option Node)
    → then_change (written (overwrite [])) (write_at [] (overwrite c)) x ≡ written (overwrite c) x
unfolding write_at
filled c none = refl
filled c (some (leaf link (ok old))) = refl
filled c (some (leaf link (err e))) = refl
filled c (some (dir es)) = refl

-- An item as the reader finds it.
abbrev pub file_of : Item → ZipFile
file_of i = record { name = path_text i.0; is_dir = false; body = ok i.1 }

module _ (faults : Faults) (quiet : IsQuiet faults) (format : ZipFormat) where
  unzip_plain_last :
      (p : FilePath) (k c : Text) (t u : Node)
      → put (p ++ k ∷ [], c) (some t) ≡ some u
      → unzip_plain faults format (p ++ k ∷ []) (ok c) t ≡ (ret tt, u)
  unfolding unzip_plain put mkdir_all
  unzip_plain_last p k c t u h =
      let (v, e1) = mkdir_below p k (written (overwrite c)) (some t) u h in
      let (w, e2) =
        change_at_mono (p ++ k ∷ []) (written (overwrite c)) (written (overwrite [])) (some t) u
          (emptied c) h in
      let path = p ++ k ∷ [] in
      let first =
        change_returns (faults.touch (parent path)) (mkdir_all (parent path)) t v
          (quiet.touch (parent path))
          (ap (λ q. change_at q as_dir (some t)) (parent-append p k) ∙ e1) in
      let second =
        change_returns (faults.touch path) (λ x. write_at path (overwrite []) (some x)) v w
          (quiet.touch path) (write_at-mkdir p k (overwrite []) (some t) v e1 ∙ e2) in
      let third =
        change_returns none (λ x. write_at path (overwrite c) (some x)) w u refl
          (ap (λ q. write_at q (overwrite c) (some w)) (sym (append-nil path))
            ∙ write_at-change_at path [] (written (overwrite [])) (overwrite c) (some t) w e2
            ∙ ap (λ (f : Change). change_at path f (some t)) (fun_ext (filled c))
            ∙ h) in
      let make = change (faults.touch (parent path)) (mkdir_all (parent path)) in
      let open' = change (faults.touch path) (λ x. write_at path (overwrite []) (some x)) in
      let fill = change none (λ x. write_at path (overwrite c) (some x)) in
      seq_returns (make >> open') fill t w tt (ret tt, u)
        (seq_returns make open' t v tt (ret tt, w) first second) third

  pub unzip_plain-put :
      (p : FilePath) (c : Text) (t u : Node)
      → p ≢ []
      → put (p, c) (some t) ≡ some u
      → unzip_plain faults format p (ok c) t ≡ (ret tt, u)
  unzip_plain-put p c t u h e =
      let (q, k, r) = last_of p h in
      subst (λ x. unzip_plain faults format x (ok c) t ≡ (ret tt, u)) (sym r)
        (unzip_plain_last q k c t u (ap (λ x. put (x, c) (some t)) (sym r) ∙ e))

  pub unzip_files-extract :
      (dest : FilePath) (is : List Item) (t u : Node)
      → All IsBelow is
      → extract (map (onto dest) is) t ≡ some u
      → unzip_files faults format dest (map file_of is) t ≡ (ret tt, u)
  unfolding unzip_files unzip_file extract
  unzip_files-extract dest [] t u a e = let p : t ≡ u = cc in rw p refl
  unzip_files-extract dest (i ∷ is) t u a e =
      let (v, e1, e2) = extract_inv (onto dest i) (map (onto dest) is) t u e in
      seq_returns (unzip_plain faults format (join_path dest (path_text i.0)) (ok i.1))
        (unzip_files faults format dest (map file_of is)) t v tt (ret tt, u)
        (ap (λ p. unzip_plain faults format p (ok i.1) t) (join_path-path_text dest i a.0)
          ∙ unzip_plain-put (dest ++ i.0) i.1 t v (longer dest i.0 a.0.0) e1)
        (unzip_files-extract dest is v u a.1 e2)
