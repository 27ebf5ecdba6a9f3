-- ===== src/Util/Files/Copy/Whole.antt =====
-- CopyDir copies a whole tree, or nothing.
use flow_agent_x.Prelude.{
  ℕ, zero, suc, ◌<◌, ◌≡◌, ◌∙◌, sym, ap, refl, ◌⊎◌, inl, inr, Bool, true, false, Option, none, some,
  [], ◌∷◌, ◌++◌, Text, text_eq, Bool-cases, arith,
}
use Prim.Native.Nat.{max}
use mathlib.Core.Path.{subst}
use flow_agent_x.Prelude.Exec.{
  Err, Result, ok, ret, Exec, pure, panic_if_err, recover, must, seq_returns, bind_returns, ◌>>=◌,
  ◌>>◌,
}
use flow_agent_x.Util.Files.{
  Node, leaf, dir, Entries, end, entry, FilePath, find_entry, set_entry, stat, change_at, mkdir_all,
  written, write_at, overwrite, content, Faults, change,
}
use flow_agent_x.Util.Files.Slots.{find_entry-set_entry, set_entry-set_entry, text_eq_refl}
use flow_agent_x.Util.Files.Extract.{
  Distinct, Apart, Apart-end, joined, joined_assoc, joined-end, set_entry-absent, Apart-joined,
  text_eq_sym,
}
use flow_agent_x.Util.Files.Unpack.{IsQuiet, change_returns}
use flow_agent_x.Util.Files.Places.{
  At, stat-At, At-then, At_below, Diverge, Diverge-below, stat-unchanged, mkdir_all-At, write_into,
  Diverge-left, stat_in, At_same, mkdir_in,
}
use flow_agent_x.Util.Files.Copy.{
  copy_body, copy_file, copy_entries, copy_listed, copy_into, copy_checked, copy_dir, open_error,
}

-- The tree without its links.
unfoldable pub copied : Entries → Entries
copied end = end
copied (entry n (leaf true c) es) = copied es
copied (entry n (leaf false c) es) = entry n (leaf false c) (copied es)
copied (entry n (dir cs) es) = entry n (dir (copied cs)) (copied es)

-- Every file can be read.
abbrev pub Readable : Entries → Type 0
Readable end = Unit
Readable (entry n (leaf true c) es) = Readable es
Readable (entry n (leaf false c) es) = ((bytes : Text) × (c ≡ ok bytes)) × Readable es
Readable (entry n (dir cs) es) = Readable cs × Readable es

unfoldable pub height : Entries → ℕ
height end = 0
height (entry n (leaf link c) es) = height es
height (entry n (dir cs) es) = max (suc (height cs)) (height es)

-- What the loop still has to copy is there.
abbrev Listed : FilePath → Node → Entries → Type 0
Listed src t end = Unit
Listed src t (entry n u es) = (stat (src ++ n ∷ []) t ≡ some u) × Listed src t es

module _ (faults : Faults) (quiet : IsQuiet faults) where
  -- A file is copied into a directory that does not have its name.
  copy_file-At :
      (src dst : FilePath) (n bytes : Text) (fs : Entries) (t : Node)
      → Diverge (src ++ n ∷ []) dst
      → stat (src ++ n ∷ []) t ≡ some (leaf false (ok bytes))
      → stat dst t ≡ some (dir fs)
      → find_entry n fs ≡ none
      → (t' : Node) × (copy_file faults (src ++ n ∷ []) (dst ++ n ∷ []) t ≡ (ret none, t'))
        × At dst (set_entry n (leaf false (ok bytes)) fs) t t'
  unfolding copy_file copy_body
  copy_file-At src dst n bytes fs t d f h a =
      let s = src ++ n ∷ [] in
      let path = dst ++ n ∷ [] in
      let (t1, e1, r1) =
        write_into dst n (overwrite []) fs t (leaf false (ok [])) h
          (ap (written (overwrite [])) a) in
      let fs1 = set_entry n (leaf false (ok [])) fs in
      let (t2, e2, r2) =
        write_into dst n (overwrite bytes) fs1 t1 (leaf false (ok bytes)) (stat-At dst fs1 t t1 r1)
          (ap (written (overwrite bytes)) (find_entry-set_entry n (leaf false (ok [])) fs)) in
      let seen : stat s t1 ≡ some (leaf false (ok bytes)) =
        stat-unchanged s dst fs1 t t1 d r1 ∙ f in
      let opens : Exec Node (Unit {0}) = λ x. panic_if_err (open_error (stat s x)) x in
      let make = change (faults.touch path) (λ x. write_at path (overwrite []) (some x)) in
      let fill : Exec Node (Unit {0}) = (λ x. must (content (stat s x)) x) >>= λ c.
      change none (λ x. write_at path (overwrite c) (some x)) in
      let ends = panic_if_err (faults.finish path) in
      let opened : opens t ≡ (ret tt, t) = ap (λ x. panic_if_err (open_error x) t) f in
      let filled : fill t1 ≡ (ret tt, t2) =
        bind_returns (λ x. must (content (stat s x)) x)
          (λ c. change none (λ x. write_at path (overwrite c) (some x))) t1 t1 bytes
          (ap (λ x. must (content x) t1) seen)
        ∙ change_returns none (λ x. write_at path (overwrite bytes) (some x)) t1 t2 refl e2 in
      let whole : copy_body faults s path t ≡ (ret none, t2) =
        seq_returns (((opens >> make) >> fill) >> ends) (pure (faults.close path)) t t2 tt
          (ret none, t2)
          (seq_returns ((opens >> make) >> fill) ends t t2 tt (ret tt, t2)
            (seq_returns (opens >> make) fill t t1 tt (ret tt, t2)
              (seq_returns opens make t t tt (ret tt, t1) opened
                (change_returns (faults.touch path) (λ x. write_at path (overwrite []) (some x)) t
                  t1 (quiet.touch path) e1))
              filled)
            (ap (λ x. panic_if_err x t2) (quiet.finish path)))
          (ap (λ x. (ret x, t2)) (quiet.close path)) in
      (
        t2,
        rw (whole, recover) refl,
        At-then dst fs1 _ t t1 t2 r1 (
            ap (λ x. change_at dst (λ y. some (dir x)) (some t1))
              (sym (set_entry-set_entry n (leaf false (ok [])) (leaf false (ok bytes)) fs))
            ∙ r2),
      )

  -- What a call of CopyDir does to a tree that is less high than the fuel.
  abbrev Copies : ℕ → ((src dst : FilePath) → Exec Node (Option Err)) → Type 0
  Copies fuel rec =
      (src dst : FilePath) (cs : Entries) (t t0 : Node)
      → Diverge src dst
      → stat src t ≡ some (dir cs)
      → stat dst t ≡ none
      → mkdir_all dst t ≡ some t0
      → Distinct cs
      → Readable cs
      → height cs < fuel
      → (t' : Node) × (rec src dst t ≡ (ret none, t')) × At dst (copied cs) t t'

  module _ (fuel : ℕ) (rec : (src dst : FilePath) → Exec Node (Option Err)) (ih : Copies fuel rec)
      (src dst : FilePath) (apart : Diverge src dst) where
    Listed-At :
        (es fs : Entries) (t t' : Node) → At dst fs t t' → Listed src t es → Listed src t' es
    Listed-At end fs t t' r h = tt
    Listed-At (entry n u es) fs t t' r h = (
      stat-unchanged (src ++ n ∷ []) dst fs t t' (Diverge-left src dst (n ∷ []) apart) r ∙ h.0,
      Listed-At es fs t t' r h.1,
    )

    one_copied :
        (m : Exec Node (Option Err)) (es : Entries) (t t1 t2 : Node)
        → m t ≡ (ret none, t1)
        → copy_entries faults rec src dst es t1 ≡ (ret tt, t2)
        → ((m >>= panic_if_err) >> copy_entries faults rec src dst es) t ≡ (ret tt, t2)
    one_copied m es t t1 t2 h k =
        seq_returns (m >>= panic_if_err) (copy_entries faults rec src dst es) t t1 tt (ret tt, t2)
          (bind_returns m panic_if_err t t1 none h) k

    finish :
        (n : Text) (u : Node) (es fs : Entries) (t t1 t2 : Node)
        → At dst (joined fs (entry n u end)) t t1
        → At dst (joined (joined fs (entry n u end)) (copied es)) t1 t2
        → At dst (joined fs (entry n u (copied es))) t t2
    finish n u es fs t t1 t2 r k =
        At-then dst (joined fs (entry n u end)) _ t t1 t2 r
          (subst (λ x. At dst x t1 t2) (joined_assoc fs (entry n u end) (copied es)) k)

    copy_entries-At :
        (es fs : Entries) (t : Node)
        → Listed src t es
        → stat dst t ≡ some (dir fs)
        → Apart es fs
        → Distinct es
        → Readable es
        → height es < suc fuel
        → (t' : Node) × (copy_entries faults rec src dst es t ≡ (ret tt, t'))
          × At dst (joined fs (copied es)) t t'
    unfolding copy_entries copied height
    copy_entries-At end fs t l h a d r m =
        (t, refl, subst (λ x. At dst x t t) (sym (joined-end fs)) (At_same dst fs t h))
    copy_entries-At (entry n (leaf true c) es) fs t l h a d r m =
        copy_entries-At es fs t l.1 h a.1 d.1 r m
    copy_entries-At (entry n (leaf false c) es) fs t l h a d r m =
        let (bytes, e) = r.0 in
        let (t1, e1, r1) =
          copy_file-At src dst n bytes fs t (Diverge-left src dst (n ∷ []) apart)
            (l.0 ∙ ap (λ x. some (leaf false x)) e) h a.0 in
        let r2 : At dst (joined fs (entry n (leaf false c) end)) t t1 =
          subst (λ x. At dst x t t1)
            (set_entry-absent n (leaf false (ok bytes)) fs a.0
              ∙ ap (λ x. joined fs (entry n (leaf false x) end)) (sym e))
            r1 in
        let (t2, e2, r3) =
          copy_entries-At es (joined fs (entry n (leaf false c) end)) t1
            (Listed-At es _ t t1 r2 l.1) (stat-At dst _ t t1 r2)
            (Apart-joined es fs n (leaf false c) d.0 a.1) d.1 r.1 m in
        (
          t2,
          one_copied (copy_file faults (src ++ n ∷ []) (dst ++ n ∷ [])) es t t1 t2 e1 e2,
          finish n (leaf false c) es fs t t1 t2 r2 r3,
        )
    copy_entries-At (entry n (dir cs) es) fs t l h a d r m =
        let (t0, free) = mkdir_in dst n fs t h a.0 in
        let (t1, e1, r1) =
          ih (src ++ n ∷ []) (dst ++ n ∷ []) cs t t0 (Diverge-below src dst (n ∷ []) (n ∷ []) apart)
            l.0 (stat_in dst n fs t h ∙ a.0) free d.1 r.0 (omega arith) in
        let r2 : At dst (joined fs (entry n (dir (copied cs)) end)) t t1 =
          subst (λ x. At dst x t t1) (set_entry-absent n (dir (copied cs)) fs a.0)
            (At_below dst n fs (copied cs) t t1 h r1) in
        let (t2, e2, r3) =
          copy_entries-At es (joined fs (entry n (dir (copied cs)) end)) t1
            (Listed-At es _ t t1 r2 l.1) (stat-At dst _ t t1 r2)
            (Apart-joined es fs n (dir (copied cs)) d.0 a.1) d.2 r.1 (omega arith) in
        (
          t2,
          one_copied (rec (src ++ n ∷ []) (dst ++ n ∷ [])) es t t1 t2 e1 e2,
          finish n (dir (copied cs)) es fs t t1 t2 r2 r3,
        )

  -- The entries of a directory are found in it.
  Found : Entries → Entries → Type 0
  Found all end = Unit
  Found all (entry n u es) = (find_entry n all ≡ some u) × Found all es

  Found-behind :
      (n : Text) (u : Node) (all es : Entries)
      → find_entry n es ≡ none
      → Found all es
      → Found (entry n u all) es
  unfolding find_entry Found
  Found-behind n u all end h f = tt
  Found-behind n u all (entry m v es) h f = elim (Bool-cases (text_eq m n)) [
    | inl e ↦ absurd (let p : some v ≡ none = rw (← h, e) refl in cc)
    | inr e ↦ (rw (text_eq_sym m n e) f.0, Found-behind n u all es (rw (← h, e) refl) f.1)
  ]

  Found-all : (es : Entries) → Distinct es → Found es es
  unfolding Found find_entry
  Found-all end d = tt
  Found-all (entry n (leaf link c) es) d =
      (rw (text_eq_refl n) refl, Found-behind n (leaf link c) es es d.0 (Found-all es d.1))
  Found-all (entry n (dir cs) es) d =
      (rw (text_eq_refl n) refl, Found-behind n (dir cs) es es d.0 (Found-all es d.2))

  listed :
      (src : FilePath) (t : Node) (all es : Entries)
      → stat src t ≡ some (dir all)
      → Found all es
      → Listed src t es
  unfolding Found
  listed src t all end h f = tt
  listed src t all (entry n u es) h f = (stat_in src n all t h ∙ f.0, listed src t all es h f.1)

  copy_into-At :
      (fuel : ℕ) (rec : (src dst : FilePath) → Exec Node (Option Err))
      → Copies fuel rec
      → (src dst : FilePath) (cs : Entries) (t t0 : Node) → Diverge src dst
      → stat src t ≡ some (dir cs)
      → stat dst t ≡ none
      → mkdir_all dst t ≡ some t0
      → Distinct cs
      → Readable cs
      → height cs < suc fuel
      → (t' : Node) × (copy_into faults rec src dst t ≡ (ret none, t')) × At dst (copied cs) t t'
  copy_into-At fuel rec ih src dst cs t t0 apart f vacant free d r m =
      let made : At dst end t t0 = sym (mkdir_all-At dst t vacant) ∙ free in
      let here : stat src t0 ≡ some (dir cs) = stat-unchanged src dst end t t0 apart made ∙ f in
      let (t1, e1, r1) =
        copy_entries-At fuel rec ih src dst apart cs end t0
          (listed src t0 cs cs here (Found-all cs d)) (stat-At dst end t t0 made) (Apart-end cs) d r
          m in
      let make = change (faults.touch dst) (mkdir_all dst) in
      let loop : Exec Node (Unit {0}) = λ x. copy_listed faults rec src dst (stat src x) x in
      (
        t1,
        seq_returns (make >> loop) (pure none) t t1 tt (ret none, t1)
            (seq_returns make loop t t0 tt (ret tt, t1)
              (change_returns (faults.touch dst) (mkdir_all dst) t t0 (quiet.touch dst) free)
              (ap (λ x. copy_listed faults rec src dst x t0) here ∙ e1))
            refl,
        At-then dst end (copied cs) t t0 t1 made r1,
      )

  copy_dir-Copies : (fuel : ℕ) → Copies fuel (copy_dir faults fuel)
  unfolding copy_dir copy_checked
  copy_dir-Copies zero src dst cs t t0 apart f vacant free d r m = absurd (omega arith)
  copy_dir-Copies (suc fuel) src dst cs t t0 apart f vacant free d r m =
      let (t', e, q) =
        copy_into-At fuel (copy_dir faults fuel) (copy_dir-Copies fuel) src dst cs t t0 apart f
          vacant free d r m in
      (t', rw (f, vacant, e) refl, q)

  -- CopyDir of a directory whose files can all be read, to a place where nothing stands and that can
  -- be made, neither path below the other: if the system refuses nothing, and the fuel is more than
  -- the depth of the directories, it returns nil, at the place stands the tree without its links, and
  -- nothing else has changed.
  pub copy_dir-copied :
      (fuel : ℕ) (src dst : FilePath) (cs : Entries) (t t0 : Node)
      → Diverge src dst
      → stat src t ≡ some (dir cs)
      → stat dst t ≡ none
      → mkdir_all dst t ≡ some t0
      → Distinct cs
      → Readable cs
      → height cs < fuel
      → (t' : Node) × (copy_dir faults fuel src dst t ≡ (ret none, t'))
        × (stat dst t' ≡ some (dir (copied cs)))
        × (change_at dst (λ x. some (dir (copied cs))) (some t) ≡ some t')
  copy_dir-copied fuel src dst cs t t0 apart f vacant free d r m =
      let (t', e, q) = copy_dir-Copies fuel src dst cs t t0 apart f vacant free d r m in
      (t', e, stat-At dst (copied cs) t t' q, q)

-- CopyDir returns nil and changes nothing if its source is a file, or if its source is a directory
-- and something stands at its destination: the panic for either is recovered while err is nil.
pub copy_dir_silent :
    (faults : Faults) (fuel : ℕ) (src dst : FilePath) (t : Node)
    → ((link : Bool) × (c : Result Text) × (stat src t ≡ some (leaf link c)))
      ⊎ ((cs : Entries) × (u : Node) × (stat src t ≡ some (dir cs)) × (stat dst t ≡ some u))
    → copy_dir faults (suc fuel) src dst t ≡ (ret none, t)
unfolding copy_dir copy_checked
copy_dir_silent faults fuel src dst t (inl (link, c, e)) = rw e refl
copy_dir_silent faults fuel src dst t (inr (cs, u, e, f)) = rw (e, f) refl
