-- ===== src/Util/Files/Places.antt =====
-- Changes of a directory that is there, and what they leave alone.
use flow_agent_x.Prelude.{
  ◌≡◌, ◌∙◌, sym, ap, refl, ◌⊎◌, inl, inr, false, Option-cases, Option, none, some, [], ◌∷◌, ◌++◌,
  Bool-cases, Text, text_eq, text_eq_iff, arith,
}
use flow_agent_x.Util.Files.{
  Node, leaf, dir, Entries, end, entry, FilePath, Change, find_entry, set_entry, stat, in_dir,
  change_at, as_dir, mkdir_all, written, write_at,
}
use flow_agent_x.Util.Files.Slots.{
  find_entry-set_entry, in_dir_inv, below, stat-below, change_at-then, change_at-append,
  stat-change_at, change_at-absent,
}

-- The second tree is the first with a directory at a place.
abbrev pub At : FilePath → Entries → Node → Node → Type 0
At d fs t t' = change_at d (λ x. some (dir fs)) (some t) ≡ some t'

pub stat-At : (d : FilePath) (fs : Entries) (t t' : Node) → At d fs t t' → stat d t' ≡ some (dir fs)
stat-At d fs t t' h = stat-change_at d (dir fs) (some t) t' h

pub At-then :
    (d : FilePath) (fs gs : Entries) (t t1 t2 : Node) → At d fs t t1 → At d gs t1 t2 → At d gs t t2
At-then d fs gs t t1 t2 h k =
    sym (change_at-then d (λ x. some (dir fs)) (λ x. some (dir gs)) (some t))
    ∙ ap
        (λ (s : Option Node). elim s [
          | none ↦ none
          | some u ↦ change_at d (λ x. some (dir gs)) (some u)
        ])
        h
    ∙ k

-- A change at a place where something stands.
pub change_at-stat :
    (d : FilePath) (f : Change) (t x : Node)
    → stat d t ≡ some x
    → change_at d f (some t) ≡ change_at d (λ y. f (some x)) (some t)
unfolding change_at
change_at-stat [] f t x h = ap f (unfold stat in h)
change_at-stat (k ∷ d) f (leaf link c) x h = refl
change_at-stat (k ∷ d) f (dir es) x h = elim (Option-cases (find_entry k es)) [
  | inl e ↦ absurd (let q : none ≡ some x = sym (stat-below k d es none e) ∙ h in cc)
  | inr (t, e) ↦
      rw e (ap (in_dir k es) (change_at-stat d f t x (sym (stat-below k d es (some t) e) ∙ h)))
]

pub write_at-stat :
    (d q : FilePath) (g : Text → Text) (t x : Node)
    → stat d t ≡ some x
    → write_at (d ++ q) g (some t) ≡ change_at d (λ y. write_at q g (some x)) (some t)
unfolding change_at write_at
write_at-stat [] q g t x h = ap (write_at q g) (unfold stat in h)
write_at-stat (k ∷ d) q g (leaf link c) x h = refl
write_at-stat (k ∷ d) q g (dir es) x h = elim (Option-cases (find_entry k es)) [
  | inl e ↦ absurd (let p : none ≡ some x = sym (stat-below k d es none e) ∙ h in cc)
  | inr (t, e) ↦
      rw e (ap (in_dir k es) (write_at-stat d q g t x (sym (stat-below k d es (some t) e) ∙ h)))
]

-- Neither path lies below the other.
abbrev pub Diverge : FilePath → FilePath → Type 0
Diverge [] q = ⊥
Diverge (k ∷ p) [] = ⊥
Diverge (k ∷ p) (j ∷ q) = (text_eq j k ≡ false) ⊎ ((j ≡ k) × Diverge p q)

pub Diverge-below : (p q x y : FilePath) → Diverge p q → Diverge (p ++ x) (q ++ y)
Diverge-below [] q x y h = absurd h
Diverge-below (k ∷ p) [] x y h = absurd h
Diverge-below (k ∷ p) (j ∷ q) x y (inl e) = inl e
Diverge-below (k ∷ p) (j ∷ q) x y (inr (e, h)) = inr (e, Diverge-below p q x y h)

find_entry-other :
    (k j : Text) (u : Node) (es : Entries)
    → text_eq j k ≡ false
    → find_entry k (set_entry j u es) ≡ find_entry k es
unfolding find_entry set_entry
find_entry-other k j u end h = rw h refl
find_entry-other k j u (entry n t es) h = elim (Bool-cases (text_eq n j)) [
  | inl e ↦ ground (arith, text_eq_iff n j, h, text_eq_iff n k, text_eq_iff j k)
  | inr e ↦ rw (e, find_entry) (ground (arith, find_entry-other k j u es h))
]

unchanged_below :
    (p : FilePath) (k : Text) (es : Entries) (u : Node)
    → stat p u ≡ below p (find_entry k es)
    → stat (k ∷ p) (dir (set_entry k u es)) ≡ stat (k ∷ p) (dir es)
unchanged_below p k es u h =
    stat-below k p (set_entry k u es) (some u) (find_entry-set_entry k u es)
    ∙ h
    ∙ sym (stat-below k p es (find_entry k es) refl)

-- A change below one path leaves what stands below a diverging one.
pub unchanged_in :
    (p q : FilePath) (f : Change) (s : Option Node) (t : Node)
    → Diverge p q
    → change_at q f s ≡ some t
    → stat p t ≡ below p s
unfolding change_at
unchanged_in [] q f s t d h = absurd d
unchanged_in (k ∷ p) [] f s t d h = absurd d
unchanged_in (k ∷ p) (j ∷ q) f none t d h =
    let (u, e1, e2) = in_dir_inv j end (change_at q f none) t h in
    rw e2 (elim d [
      | inl e ↦
          stat-below k p (set_entry j u end) none
            (find_entry-other k j u end e ∙ unfold find_entry in refl)
      | inr (e, r) ↦
          stat-below k p (set_entry j u end) (some u)
            (ap (λ i. find_entry i (set_entry j u end)) (sym e) ∙ find_entry-set_entry j u end)
          ∙ unchanged_in p q f none u r e1
    ])
unchanged_in (k ∷ p) (j ∷ q) f (some (leaf link c)) t d h = absurd (cc)
unchanged_in (k ∷ p) (j ∷ q) f (some (dir es)) t d h =
    let (u, e1, e2) = in_dir_inv j es (change_at q f (find_entry j es)) t h in
    rw e2 (elim d [
      | inl e ↦
          stat-below k p (set_entry j u es) (find_entry k es) (find_entry-other k j u es e)
          ∙ sym (stat-below k p es (find_entry k es) refl)
      | inr (e, r) ↦
          stat-below k p (set_entry j u es) (some u)
            (ap (λ i. find_entry i (set_entry j u es)) (sym e) ∙ find_entry-set_entry j u es)
          ∙ unchanged_in p q f (find_entry j es) u r e1
          ∙ ap (λ i. below p (find_entry i es)) e
          ∙ sym (stat-below k p es (find_entry k es) refl)
    ])

pub stat-unchanged :
    (p d : FilePath) (fs : Entries) (t t' : Node)
    → Diverge p d
    → At d fs t t'
    → stat p t' ≡ stat p t
stat-unchanged [] d fs t t' h k = absurd h
stat-unchanged (i ∷ p) d fs t t' h k = unchanged_in (i ∷ p) d (λ x. some (dir fs)) (some t) t' h k

-- A place where a directory stands can get another one.
pub At_again :
    (d : FilePath) (fs gs : Entries) (t : Node)
    → stat d t ≡ some (dir fs)
    → (t' : Node) × At d gs t t'
unfolding change_at
At_again [] fs gs t h = (dir gs, refl)
At_again (k ∷ d) fs gs (leaf link c) h =
    absurd (let p : none ≡ some (dir fs) = unfold stat in h in cc)
At_again (k ∷ d) fs gs (dir es) h = elim (Option-cases (find_entry k es)) [
  | inl e ↦ absurd (let p : none ≡ some (dir fs) = sym (stat-below k d es none e) ∙ h in cc)
  | inr (t, e) ↦
      let (u, r) = At_again d fs gs t (sym (stat-below k d es (some t) e) ∙ h) in
      (dir (set_entry k u es), rw e (ap (in_dir k es) r))
]

put_in :
    (n : Text) (fs gs : Entries)
    → change_at (n ∷ []) (λ x. some (dir gs)) (some (dir fs)) ≡ some (dir (set_entry n (dir gs) fs))
unfolding change_at
put_in n fs gs = refl

-- A directory in a directory.
pub At_below :
    (d : FilePath) (n : Text) (fs gs : Entries) (t t' : Node)
    → stat d t ≡ some (dir fs)
    → At (d ++ n ∷ []) gs t t'
    → At d (set_entry n (dir gs) fs) t t'
At_below d n fs gs t t' h k =
    ap (λ (s : Option Node). change_at d (λ x. s) (some t)) (sym (put_in n fs gs))
    ∙ sym (change_at-stat d (change_at (n ∷ []) (λ x. some (dir gs))) t (dir fs) h)
    ∙ sym (change_at-append d (n ∷ []) (λ x. some (dir gs)) (some t))
    ∙ k

-- os.MkdirAll of a path where nothing stands.
pub mkdir_all-At :
    (d : FilePath) (t : Node)
    → stat d t ≡ none
    → mkdir_all d t ≡ change_at d (λ x. some (dir end)) (some t)
unfolding mkdir_all
mkdir_all-At d t h = change_at-absent d as_dir t h

written_in :
    (n : Text) (g : Text → Text) (fs : Entries) (u : Node)
    → written g (find_entry n fs) ≡ some u
    → write_at (n ∷ []) g (some (dir fs)) ≡ some (dir (set_entry n u fs))
unfolding write_at
written_in n g fs u e = ap (in_dir n fs) e

-- A write of a file in a directory.
pub write_into :
    (d : FilePath) (n : Text) (g : Text → Text) (fs : Entries) (t u : Node)
    → stat d t ≡ some (dir fs)
    → written g (find_entry n fs) ≡ some u
    → (t' : Node) × (write_at (d ++ n ∷ []) g (some t) ≡ some t') × At d (set_entry n u fs) t t'
write_into d n g fs t u h e =
    let (t', r) = At_again d fs (set_entry n u fs) t h in
    (
      t',
      write_at-stat d (n ∷ []) g t (dir fs) h
          ∙ ap (λ (s : Option Node). change_at d (λ y. s) (some t)) (written_in n g fs u e)
          ∙ r,
      r,
    )

pub Diverge-left : (p q x : FilePath) → Diverge p q → Diverge (p ++ x) q
Diverge-left [] q x h = absurd h
Diverge-left (k ∷ p) [] x h = absurd h
Diverge-left (k ∷ p) (j ∷ q) x (inl e) = inl e
Diverge-left (k ∷ p) (j ∷ q) x (inr (e, h)) = inr (e, Diverge-left p q x h)

pub stat-append : (d q : FilePath) (t x : Node) → stat d t ≡ some x → stat (d ++ q) t ≡ stat q x
unfolding stat
stat-append [] q t x h = let p : t ≡ x = cc in ap (stat q) p
stat-append (k ∷ d) q (leaf link c) x h = absurd (cc)
stat-append (k ∷ d) q (dir es) x h = elim (Option-cases (find_entry k es)) [
  | inl e ↦ absurd (let p : none ≡ some x = sym (stat-below k d es none e) ∙ h in cc)
  | inr (t, e) ↦
      stat-below k (d ++ q) es (some t) e
      ∙ stat-append d q t x (sym (stat-below k d es (some t) e) ∙ h)
]

pub stat_in :
    (d : FilePath) (n : Text) (fs : Entries) (t : Node)
    → stat d t ≡ some (dir fs)
    → stat (d ++ n ∷ []) t ≡ find_entry n fs
stat_in d n fs t h =
    stat-append d (n ∷ []) t (dir fs) h
    ∙ stat-below n [] fs (find_entry n fs) refl
    ∙ there (find_entry n fs)
  where
    there : (s : Option Node) → below [] s ≡ s
    there none = refl
    there (some x) = unfold stat in refl

set_entry-same :
    (k : Text) (u : Node) (es : Entries) → find_entry k es ≡ some u → set_entry k u es ≡ es
unfolding find_entry set_entry
set_entry-same k u end h = absurd (cc)
set_entry-same k u (entry n t es) h = elim (Bool-cases (text_eq n k)) [
  | inl e ↦ let p : some t ≡ some u = rw (← h, e) refl in let q : t ≡ u = cc in rw (e, q) refl
  | inr e ↦ rw e (ap (entry n t) (set_entry-same k u es (rw (← h, e) refl)))
]

-- A place keeps the directory that it has.
pub At_same : (d : FilePath) (fs : Entries) (t : Node) → stat d t ≡ some (dir fs) → At d fs t t
unfolding change_at
At_same [] fs t h = sym (unfold stat in h)
At_same (k ∷ d) fs (leaf link c) h = absurd (let p : none ≡ some (dir fs) = unfold stat in h in cc)
At_same (k ∷ d) fs (dir es) h = elim (Option-cases (find_entry k es)) [
  | inl e ↦ absurd (let p : none ≡ some (dir fs) = sym (stat-below k d es none e) ∙ h in cc)
  | inr (t, e) ↦ rw e (
      ap (in_dir k es) (At_same d fs t (sym (stat-below k d es (some t) e) ∙ h))
      ∙ ap (λ x. some (dir x)) (set_entry-same k t es e))
]

pub mkdir_in :
    (d : FilePath) (n : Text) (fs : Entries) (t : Node)
    → stat d t ≡ some (dir fs)
    → find_entry n fs ≡ none
    → (t' : Node) × (mkdir_all (d ++ n ∷ []) t ≡ some t')
mkdir_in d n fs t h a =
    let (t', r) = At_again d fs (set_entry n (dir end) fs) t h in
    (
      t',
      mkdir_all-At (d ++ n ∷ []) t (stat_in d n fs t h ∙ a)
          ∙ change_at-append d (n ∷ []) (λ x. some (dir end)) (some t)
          ∙ change_at-stat d (change_at (n ∷ []) (λ x. some (dir end))) t (dir fs) h
          ∙ ap (λ (s : Option Node). change_at d (λ x. s) (some t)) (put_in n fs end)
          ∙ r,
    )
