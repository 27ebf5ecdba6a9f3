-- ===== src/Util/Files/Extract.antt =====
-- The files below a directory, and the tree that writing them one after the other makes.
use flow_agent_x.Prelude.{
  ◌≡◌, ◌≢◌, ◌∙◌, sym, ap, refl, inl, inr, false, Bool-cases, Option-cases, Option, none, some, List,
  [], ◌∷◌, ◌++◌, map, Text, text_eq, text_eq_iff, arith,
}
use mathlib.Core.Path.{fun_ext}
use flow_agent_x.Prelude.Exec.{ok, err}
use flow_agent_x.Util.Files.{
  Node, leaf, dir, Entries, end, entry, FilePath, Change, find_entry, set_entry, in_dir, change_at,
  written, overwrite,
}
use flow_agent_x.Util.Files.Slots.{then_change, change_at-then, change_at-append}

-- A file by its path below a directory, with its bytes.
abbrev pub Item : Type 0
Item = FilePath × Text

abbrev pub onto : FilePath → Item → Item
onto d i = (d ++ i.0, i.1)

abbrev pub under : Text → Item → Item
under n = onto (n ∷ [])

-- The files that can be read, in the order in which they are found.
unfoldable pub items_of : Entries → List Item
items_of end = []
items_of (entry n (leaf link (ok c)) es) = (n ∷ [], c) ∷ items_of es
items_of (entry n (leaf link (err e)) es) = items_of es
items_of (entry n (dir cs) es) = map (under n) (items_of cs) ++ items_of es

abbrev pub kept : Text → Entries → Entries → Entries
kept n end es = es
kept n (entry m t cs) es = entry n (dir (entry m t cs)) es

-- The tree without what cannot be read, without directories that hold no file, and with files for
-- links.
unfoldable pub prune : Entries → Entries
prune end = end
prune (entry n (leaf link (ok c)) es) = entry n (leaf false (ok c)) (prune es)
prune (entry n (leaf link (err e)) es) = prune es
prune (entry n (dir cs) es) = kept n (prune cs) (prune es)

-- The names in each directory differ.
abbrev pub Distinct : Entries → Type 0
Distinct end = Unit
Distinct (entry n (leaf link c) es) = (find_entry n es ≡ none) × Distinct es
Distinct (entry n (dir cs) es) = (find_entry n es ≡ none) × Distinct cs × Distinct es

-- No name of the first is one of the second.
abbrev pub Apart : Entries → Entries → Type 0
Apart end fs = Unit
Apart (entry n t es) fs = (find_entry n fs ≡ none) × Apart es fs

abbrev pub joined : Entries → Entries → Entries
joined end fs = fs
joined (entry n t es) fs = entry n t (joined es fs)

pub joined-end : (es : Entries) → joined es end ≡ es
joined-end end = refl
joined-end (entry n t es) = ap (entry n t) (joined-end es)

pub joined_assoc : (es fs gs : Entries) → joined (joined es fs) gs ≡ joined es (joined fs gs)
joined_assoc end fs gs = refl
joined_assoc (entry n t es) fs gs = ap (entry n t) (joined_assoc es fs gs)

pub set_entry-absent :
    (n : Text) (t : Node) (es : Entries)
    → find_entry n es ≡ none
    → set_entry n t es ≡ joined es (entry n t end)
unfolding find_entry set_entry
set_entry-absent n t end h = refl
set_entry-absent n t (entry m u es) h = elim (Bool-cases (text_eq m n)) [
  | inl e ↦ absurd (let p : some u ≡ none = rw (← h, e) refl in cc)
  | inr e ↦ rw e (ap (entry m u) (set_entry-absent n t es (rw (← h, e) refl)))
]

find_entry-joined :
    (k n : Text) (t : Node) (es : Entries)
    → find_entry k es ≡ none
    → text_eq n k ≡ false
    → find_entry k (joined es (entry n t end)) ≡ none
unfolding find_entry
find_entry-joined k n t end h e = rw e refl
find_entry-joined k n t (entry m u es) h e = elim (Bool-cases (text_eq m k)) [
  | inl f ↦ absurd (let p : some u ≡ none = rw (← h, f) refl in cc)
  | inr f ↦ rw f (find_entry-joined k n t es (rw (← h, f) refl) e)
]

pub text_eq_sym : (s t : Text) → text_eq s t ≡ false → text_eq t s ≡ false
text_eq_sym s t h = ground (arith, text_eq_iff s t, text_eq_iff t s)

pub Apart-joined :
    (es fs : Entries) (n : Text) (t : Node)
    → find_entry n es ≡ none
    → Apart es fs
    → Apart es (joined fs (entry n t end))
unfolding find_entry
Apart-joined end fs n t h a = tt
Apart-joined (entry m u es) fs n t h a = elim (Bool-cases (text_eq m n)) [
  | inl f ↦ absurd (let p : some u ≡ none = rw (← h, f) refl in cc)
  | inr f ↦ (
    find_entry-joined m n t fs a.0 (text_eq_sym m n f),
    Apart-joined es fs n t (rw (← h, f) refl) a.1,
  )
]

pub Apart-end : (es : Entries) → Apart es end
unfolding find_entry
Apart-end end = tt
Apart-end (entry n t es) = (refl, Apart-end es)

-- Each file is written at its place, behind the directories that lead there.
unfoldable pub put : Item → Change
unfolding change_at
put (p, c) = change_at p (written (overwrite c))

unfoldable pub extract : List Item → Node → Option Node
unfolding put
extract [] t = some t
extract (i ∷ is) t = elim (put i (some t)) [ none ↦ none | some u ↦ extract is u ]

pub extract_inv :
    (i : Item) (is : List Item) (t u : Node)
    → extract (i ∷ is) t ≡ some u
    → (v : Node) × (put i (some t) ≡ some v) × (extract is v ≡ some u)
unfolding extract
extract_inv i is t u h = from (put i (some t)) h
  where
    from :
        (s : Option Node)
        → ◌≡◌ {A = Option Node} (elim s [ none ↦ none | some v ↦ extract is v ]) (some u)
        → (v : Node) × (s ≡ some v) × (extract is v ≡ some u)
    from none k = absurd (cc)
    from (some v) k = (v, refl, k)

-- What stands at a place behind at least one file.
unfoldable pub extracted : Item → List Item → Change
unfolding put
extracted i [] s = put i s
extracted i (j ∷ is) s = then_change (put i) (extracted j is) s

pub extract-extracted :
    (i : Item) (is : List Item) (t : Node) → extract (i ∷ is) t ≡ extracted i is (some t)
unfolding extract extracted
extract-extracted i [] t = keeps (put i (some t))
  where
    keeps : (s : Option Node) → then_change (λ x. x) (λ x. x) s ≡ s
    keeps none = refl
    keeps (some u) = refl
extract-extracted i (j ∷ is) t =
    ap (λ (f : Change). then_change (put i) f (some t)) (fun_ext (behind (extract-extracted j is)))
  where
    behind :
        ((u : Node) → extract (j ∷ is) u ≡ extracted j is (some u))
        → (s : Option Node)
        → ◌≡◌ {A = Option Node}
            (elim s [ none ↦ extracted j is none | some u ↦ extract (j ∷ is) u ])
            (extracted j is s)
    behind h none = refl
    behind h (some u) = h u

pub extract-append :
    (is js : List Item) (t : Node)
    → extract (is ++ js) t ≡ elim (extract is t) [ none ↦ none | some u ↦ extract js u ]
unfolding extract
extract-append [] js t = refl
extract-append (i ∷ is) js t = elim (Option-cases (put i (some t))) [
  | inl e ↦ rw (e, extract) refl
  | inr (u, e) ↦ rw (e, extract) (extract-append is js u)
]

pub extracted-onto :
    (d : FilePath) (i : Item) (is : List Item) (s : Option Node)
    → extracted (onto d i) (map (onto d) is) s ≡ change_at d (extracted i is) s
unfolding extracted put
extracted-onto d i [] s = change_at-append d i.0 (written (overwrite i.1)) s
extracted-onto d i (j ∷ is) s =
    ap (λ (f : Change). then_change f (extracted (onto d j) (map (onto d) is)) s)
      (fun_ext (change_at-append d i.0 (written (overwrite i.1))))
    ∙ ap (λ (g : Change). then_change (change_at d (put i)) g s) (fun_ext (extracted-onto d j is))
    ∙ change_at-then d (put i) (extracted j is) s

-- A file in a new directory: the directory may be missing or empty.
pub extracted-none :
    (k : Text) (p : FilePath) (c : Text) (is : List Item)
    → extracted (k ∷ p, c) is none ≡ extracted (k ∷ p, c) is (some (dir end))
unfolding extracted put change_at find_entry
extracted-none k p c [] = refl
extracted-none k p c (j ∷ is) = refl

pub first_path : (es : Entries) (c : Text) (is : List Item) → items_of es ≢ ([], c) ∷ is
unfolding items_of
first_path end c is = λ h. cc
first_path (entry n (leaf link (ok d)) es) c is = λ h. cc
first_path (entry n (leaf link (err e)) es) c is = first_path es c is
first_path (entry n (dir cs) es) c is = in_first (items_of cs) (first_path es c is)
  where
    in_first :
        (js : List Item)
        → items_of es ≢ ([], c) ∷ is
        → map (under n) js ++ items_of es ≢ ([], c) ∷ is
    in_first [] h = h
    in_first (j ∷ js) h = λ k. cc

pub prune-end : (es : Entries) → prune es ≡ end → items_of es ≡ []
unfolding prune items_of
prune-end end h = refl
prune-end (entry n (leaf link (ok d)) es) h = absurd (cc)
prune-end (entry n (leaf link (err e)) es) h = prune-end es h
prune-end (entry n (dir cs) es) h = both (prune cs) (prune-end cs) (prune-end es) h
  where
    both :
        (qs : Entries)
        → (qs ≡ end → items_of cs ≡ [])
        → (prune es ≡ end → items_of es ≡ [])
        → kept n qs (prune es) ≡ end
        → map (under n) (items_of cs) ++ items_of es ≡ []
    both end f g k = rw (f refl, g k) refl
    both (entry m t qs) f g k = absurd (cc)

-- The files of a directory that is new make that directory.
new_dir :
    (n k : Text) (p : FilePath) (c : Text) (is : List Item) (t : Node) (fs : Entries)
    → find_entry n fs ≡ none
    → extract ((k ∷ p, c) ∷ is) (dir end) ≡ some t
    → extract (map (under n) ((k ∷ p, c) ∷ is)) (dir fs) ≡ some (dir (joined fs (entry n t end)))
unfolding change_at
new_dir n k p c is t fs a e =
    extract-extracted (under n (k ∷ p, c)) (map (under n) is) (dir fs)
    ∙ extracted-onto (n ∷ []) (k ∷ p, c) is (some (dir fs))
    ∙ ap (λ (s : Option Node). in_dir n fs (extracted (k ∷ p, c) is s)) a
    ∙ ap (in_dir n fs)
        (extracted-none k p c is ∙ sym (extract-extracted (k ∷ p, c) is (dir end)) ∙ e)
    ∙ ap (λ es. some (dir es)) (set_entry-absent n t fs a)

dir_step :
    (n : Text) (is : List Item) (qs fs : Entries)
    → ((c : Text) (js : List Item) → is ≢ ([], c) ∷ js)
    → (qs ≡ end → is ≡ [])
    → find_entry n fs ≡ none
    → extract is (dir end) ≡ some (dir qs)
    → extract (map (under n) is) (dir fs) ≡ some (dir (joined fs (kept n qs end)))
dir_step n [] qs fs h k a e =
    let q : some (dir end) ≡ some (dir qs) = unfold extract in e in
    let p : qs ≡ end = cc in unfold extract in rw p (ap (λ es. some (dir es)) (sym (joined-end fs)))
dir_step n (([], c) ∷ is) qs fs h k a e = absurd (h c is refl)
dir_step n ((j ∷ p, c) ∷ is) end fs h k a e = absurd (let q = k refl in cc)
dir_step n ((j ∷ p, c) ∷ is) (entry m t qs) fs h k a e = new_dir n j p c is _ fs a e

Apart-kept :
    (n : Text) (qs es fs : Entries)
    → find_entry n es ≡ none
    → Apart es fs
    → Apart es (joined fs (kept n qs end))
Apart-kept n end es fs h a = rw (joined-end fs) a
Apart-kept n (entry m t qs) es fs h a = Apart-joined es fs n (dir (entry m t qs)) h a

kept-joined :
    (n : Text) (qs es fs : Entries)
    → joined (joined fs (kept n qs end)) es ≡ joined fs (kept n qs es)
kept-joined n end es fs = ap (λ gs. joined gs es) (joined-end fs)
kept-joined n (entry m t qs) es fs = joined_assoc fs (entry n (dir (entry m t qs)) end) es

leaf_step :
    (n c : Text) (is : List Item) (fs : Entries)
    → find_entry n fs ≡ none
    → extract ((n ∷ [], c) ∷ is) (dir fs)
      ≡ extract is (dir (joined fs (entry n (leaf false (ok c)) end)))
unfolding extract put change_at
leaf_step n c is fs a =
    ap
      (λ (s : Option Node).
        then_change (in_dir n fs) (λ x. elim x [ none ↦ none | some u ↦ extract is u ])
          (written (overwrite c) s))
      a
    ∙ ap (λ es. extract is (dir es)) (set_entry-absent n (leaf false (ok c)) fs a)

-- The files of a tree, written into a directory that has none of its names, add the tree without
-- what cannot be read and without directories that hold no file.
pub extract-items_of :
    (es fs : Entries)
    → Distinct es
    → Apart es fs
    → extract (items_of es) (dir fs) ≡ some (dir (joined fs (prune es)))
unfolding items_of prune
extract-items_of end fs d a = unfold extract in ap (λ gs. some (dir gs)) (sym (joined-end fs))
extract-items_of (entry n (leaf link (ok c)) es) fs d a =
    leaf_step n c (items_of es) fs a.0
    ∙ extract-items_of es (joined fs (entry n (leaf false (ok c)) end)) d.1
        (Apart-joined es fs n (leaf false (ok c)) d.0 a.1)
    ∙ ap (λ gs. some (dir gs)) (joined_assoc fs (entry n (leaf false (ok c)) end) (prune es))
extract-items_of (entry n (leaf link (err e)) es) fs d a = extract-items_of es fs d.1 a.1
extract-items_of (entry n (dir cs) es) fs d a =
    let inner = extract-items_of cs end d.1 (Apart-end cs) in
    let outer =
      extract-items_of es (joined fs (kept n (prune cs) end)) d.2
        (Apart-kept n (prune cs) es fs d.0 a.1) in
    extract-append (map (under n) (items_of cs)) (items_of es) (dir fs)
    ∙ rw (dir_step n (items_of cs) (prune cs) fs (first_path cs) (prune-end cs) a.0 inner) outer
    ∙ ap (λ gs. some (dir gs)) (kept-joined n (prune cs) (prune es) fs)
