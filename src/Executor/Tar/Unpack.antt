-- ===== src/Executor/Tar/Unpack.antt =====
-- untarFromReader where the system refuses nothing.
use flow_agent_x.Prelude.{
  ℕ, ◌≡◌, ◌≢◌, ◌∙◌, sym, ap, refl, true, false, Option, none, some, List, [], ◌∷◌, ◌++◌, map,
  append_assoc, append-nil, All, All-append, length, drop, Text,
}
use mathlib.Core.Path.{subst}
use mathlib.Core.List.{map-append}
use flow_agent_x.Prelude.Exec.{Err, ok, err, ret, pure}
use flow_agent_x.Util.Files.{
  Node, leaf, dir, Entries, end, entry, FilePath, find_entry, set_entry, stat, change_at, mkdir_all,
  written, write_at, Faults,
}
use flow_agent_x.Util.Files.Slots.{find_entry-set_entry, set_entry-set_entry}
use flow_agent_x.Util.Files.Extract.{
  Distinct, Apart, Apart-end, joined, joined_assoc, joined-end, set_entry-absent, Apart-joined,
}
use flow_agent_x.Util.Files.Names.{path_text, IsName, Named}
use flow_agent_x.Util.Files.Unpack.{IsQuiet}
use flow_agent_x.Util.Files.Places.{
  At, stat-At, At-then, At_below, mkdir_all-At, write_into, stat_in, At_same, mkdir_in,
}
use flow_agent_x.Executor.Tar.{
  TarFile, returned, attempt, then_next, over_front, untar_file, untar_files,
}
use flow_agent_x.Executor.Tar.Pack.{Packable, packed, flat, longer, then_returns}

-- A file that the reader reads to its end.
abbrev pub whole : TarFile → TarFile × Option Err
whole f = (f, none)

-- The system finds a path of names below a directory.
abbrev pub Resolves : (FilePath → Text → FilePath) → Type 0
Resolves resolve =
    (dest p : FilePath) → p ≢ [] → All IsName p → resolve dest (path_text p) ≡ dest ++ p

attempt_returns :
    (e : Option Err) (f : Node → Option Node) (t t' : Node)
    → e ≡ none
    → f t ≡ some t'
    → attempt e f t ≡ (ret none, t')
attempt_returns none f t t' h k = ap (λ x. returned x t) k
attempt_returns (some e) f t t' h k = absurd (cc)

drop-nil : (s : Text) → drop {A = ℕ} (length s) [] ≡ []
drop-nil [] = refl
drop-nil (c ∷ s) = refl

over_front-nil : (bytes : Text) → over_front bytes [] ≡ bytes
over_front-nil bytes = ap (λ x. bytes ++ x) (drop-nil bytes) ∙ append-nil bytes

module _ (faults : Faults) (quiet : IsQuiet faults) (resolve : FilePath → Text → FilePath)
    (law : Resolves resolve) where
  target :
      (dest base : FilePath) (n : Text)
      → All IsName base
      → IsName n
      → resolve dest (path_text (base ++ n ∷ [])) ≡ (dest ++ base) ++ n ∷ []
  target dest base n a h =
      law dest (base ++ n ∷ []) (longer base n) (All-append IsName base (n ∷ []) a (h, tt))
      ∙ sym (append_assoc dest base (n ∷ []))

  -- A file is unpacked into a directory that does not have its name.
  untar_file-At :
      (dest d q : FilePath) (n bytes : Text) (fs : Entries) (t : Node)
      → resolve dest (path_text q) ≡ d ++ n ∷ []
      → stat d t ≡ some (dir fs)
      → find_entry n fs ≡ none
      → (t' : Node) × (untar_file faults resolve dest (packed q false bytes) none t
          ≡ (ret none, t'))
        × At d (set_entry n (leaf false (ok bytes)) fs) t t'
  unfolding untar_file
  untar_file-At dest d q n bytes fs t r h a =
      let path = d ++ n ∷ [] in
      let (t1, e1, r1) =
        write_into d n (λ old. old) fs t (leaf false (ok [])) h (ap (written (λ old. old)) a) in
      let fs1 = set_entry n (leaf false (ok [])) fs in
      let (t2, e2, r2) =
        write_into d n (over_front bytes) fs1 t1 (leaf false (ok bytes)) (stat-At d fs1 t t1 r1) (
          ap (written (over_front bytes)) (find_entry-set_entry n (leaf false (ok [])) fs)
          ∙ ap (λ x. some (leaf false (ok x))) (over_front-nil bytes)) in
      let open' = attempt (faults.touch path) (λ x. write_at path (λ old. old) (some x)) in
      let fill = attempt none (λ x. write_at path (over_front bytes) (some x)) in
      let opened : open' t ≡ (ret none, t1) =
        attempt_returns (faults.touch path) (λ x. write_at path (λ old. old) (some x)) t t1
          (quiet.touch path) e1 in
      let filled : fill t1 ≡ (ret none, t2) =
        attempt_returns none (λ x. write_at path (over_front bytes) (some x)) t1 t2 refl e2 in
      let done : then_next (then_next open' fill) (pure none) t ≡ (ret none, t2) =
        then_returns (then_next open' fill) (pure none) t t2
          (then_returns open' fill t t1 opened ∙ filled) in
      (
        t2,
        ap
              (λ p.
                then_next
                  (then_next (attempt (faults.touch p) (λ x. write_at p (λ old. old) (some x)))
                    (attempt none (λ x. write_at p (over_front bytes) (some x))))
                  (pure none) t)
              r
            ∙ done,
        At-then d fs1 _ t t1 t2 r1 (
            ap (λ x. change_at d (λ y. some (dir x)) (some t1))
              (sym (set_entry-set_entry n (leaf false (ok [])) (leaf false (ok bytes)) fs))
            ∙ r2),
      )

  -- A directory is made in one that does not have its name.
  untar_dir-At :
      (dest d q : FilePath) (n : Text) (fs : Entries) (t : Node)
      → resolve dest (path_text q) ≡ d ++ n ∷ []
      → stat d t ≡ some (dir fs)
      → find_entry n fs ≡ none
      → (t' : Node) × (untar_file faults resolve dest (packed q true []) none t ≡ (ret none, t'))
        × At (d ++ n ∷ []) end t t'
  unfolding untar_file
  untar_dir-At dest d q n fs t r h a =
      let path = d ++ n ∷ [] in
      let (t0, free) = mkdir_in d n fs t h a in
      (
        t0,
        ap (λ p. attempt (faults.touch p) (mkdir_all p) t) r
            ∙ attempt_returns (faults.touch path) (mkdir_all path) t t0 (quiet.touch path) free,
        sym (mkdir_all-At path t (stat_in d n fs t h ∙ a)) ∙ free,
      )

  -- What the files of a directory make of it.
  abbrev pub Unpacks :
      (dest base : FilePath) (es fs : Entries) (t : Node) (last : Option Err)
      (more : List (TarFile × Option Err))
      → Type 0
  Unpacks dest base es fs t last more =
      (t' : Node) × (untar_files faults resolve dest last (map whole (flat base es) ++ more) t
        ≡ untar_files faults resolve dest last more t')
      × At (dest ++ base) (joined fs es) t t'

  pub untar_files-Unpacks :
      (dest base : FilePath) (es fs : Entries) (t : Node) (last : Option Err)
      (more : List (TarFile × Option Err))
      → All IsName base
      → Named es
      → Packable es
      → Distinct es
      → Apart es fs
      → stat (dest ++ base) t ≡ some (dir fs)
      → Unpacks dest base es fs t last more
  unfolding flat untar_files
  untar_files-Unpacks dest base end fs t last more b n p d a h = (
    t,
    refl,
    subst (λ x. At (dest ++ base) x t t) (sym (joined-end fs)) (At_same (dest ++ base) fs t h),
  )
  untar_files-Unpacks dest base (entry k (leaf true c) es) fs t last more b n p d a h =
      absurd (let e : true ≡ false = p.0.0 in cc)
  untar_files-Unpacks dest base (entry k (leaf false (err e)) es) fs t last more b n p d a h =
      absurd (let q = p.0.2 in cc)
  untar_files-Unpacks dest base (entry k (leaf false (ok c)) es) fs t last more b n p d a h =
      let u = leaf false (ok c) in
      let (t1, e1, r1) =
        untar_file-At dest (dest ++ base) (base ++ k ∷ []) k c fs t (target dest base k b n.0) h
          a.0 in
      let r2 : At (dest ++ base) (joined fs (entry k u end)) t t1 =
        subst (λ x. At (dest ++ base) x t t1) (set_entry-absent k u fs a.0) r1 in
      let (t2, e2, r3) =
        untar_files-Unpacks dest base es (joined fs (entry k u end)) t1 last more b n.1 p.1 d.1
          (Apart-joined es fs k u d.0 a.1) (stat-At (dest ++ base) _ t t1 r2) in
      (
        t2,
        then_returns (untar_file faults resolve dest (packed (base ++ k ∷ []) false c) none)
              (untar_files faults resolve dest last (map whole (flat base es) ++ more)) t t1 e1
            ∙ e2,
        At-then (dest ++ base) (joined fs (entry k u end)) _ t t1 t2 r2
            (subst (λ x. At (dest ++ base) x t1 t2) (joined_assoc fs (entry k u end) es) r3),
      )
  untar_files-Unpacks dest base (entry k (dir cs) es) fs t last more b n p d a h =
      let q = base ++ k ∷ [] in
      let below = append_assoc dest base (k ∷ []) in
      let u = dir cs in
      let (t0, e0, r0) =
        untar_dir-At dest (dest ++ base) q k fs t (target dest base k b n.0) h a.0 in
      let made : At (dest ++ q) end t t0 = subst (λ x. At x end t t0) below r0 in
      let (t1, e1, r1) =
        untar_files-Unpacks dest q cs end t0 last (map whole (flat base es) ++ more)
          (All-append IsName base (k ∷ []) b (n.0, tt)) n.1 p.0 d.1 (Apart-end cs)
          (stat-At (dest ++ q) end t t0 made) in
      let placed : At ((dest ++ base) ++ k ∷ []) cs t t1 =
        subst (λ x. At x cs t t1) (sym below) (At-then (dest ++ q) end cs t t0 t1 made r1) in
      let r2 : At (dest ++ base) (joined fs (entry k u end)) t t1 =
        subst (λ x. At (dest ++ base) x t t1) (set_entry-absent k u fs a.0)
          (At_below (dest ++ base) k fs cs t t1 h placed) in
      let (t2, e2, r3) =
        untar_files-Unpacks dest base es (joined fs (entry k u end)) t1 last more b n.2 p.1 d.2
          (Apart-joined es fs k u d.0 a.1) (stat-At (dest ++ base) _ t t1 r2) in
      (
        t2,
        then_returns (untar_file faults resolve dest (packed q true []) none)
              (untar_files faults resolve dest last (map whole (flat q cs ++ flat base es) ++ more))
              t t0 e0
            ∙ ap (λ x. untar_files faults resolve dest last x t0)
                (ap (λ x. x ++ more) (map-append whole (flat q cs) (flat base es))
                  ∙ append_assoc (map whole (flat q cs)) (map whole (flat base es)) more)
            ∙ e1
            ∙ e2,
        At-then (dest ++ base) (joined fs (entry k u end)) _ t t1 t2 r2
            (subst (λ x. At (dest ++ base) x t1 t2) (joined_assoc fs (entry k u end) es) r3),
      )
