-- ===== src/Util/Files/Slots.antt =====
-- What stands at a path, before and after a change.
use flow_agent_x.Prelude.{
  ◌≡◌, ◌∙◌, sym, ap, refl, inl, inr, true, false, Bool-cases, Option-cases, Option, none, some, [],
  ◌∷◌, ◌++◌, Text, text_eq, text_eq_iff,
}
use mathlib.Core.Path.{fun_ext}
use flow_agent_x.Prelude.Exec.{ok, err}
use flow_agent_x.Util.Files.{
  Node, leaf, dir, Entries, end, entry, FilePath, Change, find_entry, set_entry, stat, in_dir,
  change_at, as_dir, written, write_at, overwrite, content,
}

pub text_eq_refl : (k : Text) → text_eq k k ≡ true
text_eq_refl k = (text_eq_iff k k).1 refl

pub find_entry-set_entry :
    (k : Text) (t : Node) (es : Entries) → find_entry k (set_entry k t es) ≡ some t
unfolding find_entry set_entry
find_entry-set_entry k t end = rw (text_eq_refl k) refl
find_entry-set_entry k t (entry n u es) = elim (Bool-cases (text_eq n k)) [
  | inl e ↦ rw (e, find_entry) (rw e refl)
  | inr e ↦ rw (e, find_entry) (rw e (find_entry-set_entry k t es))
]

pub set_entry-set_entry :
    (k : Text) (t u : Node) (es : Entries) → set_entry k u (set_entry k t es) ≡ set_entry k u es
unfolding set_entry
set_entry-set_entry k t u end = rw (text_eq_refl k) refl
set_entry-set_entry k t u (entry n v es) = elim (Bool-cases (text_eq n k)) [
  | inl e ↦ rw (e, set_entry) (rw e refl)
  | inr e ↦ rw (e, set_entry) (rw e (ap (λ fs. entry n v fs) (set_entry-set_entry k t u es)))
]

-- A change of a change, in one.
abbrev pub then_change : Change → Change → Change
then_change f g s = elim (f s) [ none ↦ none | some t ↦ g (some t) ]

in_dir-set_entry :
    (k : Text) (t : Node) (es : Entries) (s : Option Node)
    → in_dir k (set_entry k t es) s ≡ in_dir k es s
in_dir-set_entry k t es none = refl
in_dir-set_entry k t es (some u) = ap (λ fs. some (dir fs)) (set_entry-set_entry k t u es)

in_dir-then :
    (k : Text) (es : Entries) (g : Change) (p : FilePath) (r : Option Node)
    → then_change (in_dir k es) (change_at (k ∷ p) g) r
      ≡ in_dir k es (then_change (λ x. x) (change_at p g) r)
unfolding change_at
in_dir-then k es g p none = refl
in_dir-then k es g p (some t) =
    rw (find_entry-set_entry k t es) (in_dir-set_entry k t es (change_at p g (some t)))

pub change_at-then :
    (p : FilePath) (f g : Change) (s : Option Node)
    → then_change (change_at p f) (change_at p g) s ≡ change_at p (then_change f g) s
unfolding change_at
change_at-then [] f g s = refl
change_at-then (k ∷ p) f g none =
    in_dir-then k end g p (change_at p f none) ∙ ap (in_dir k end) (change_at-then p f g none)
change_at-then (k ∷ p) f g (some (leaf link c)) = refl
change_at-then (k ∷ p) f g (some (dir es)) =
    in_dir-then k es g p (change_at p f (find_entry k es))
    ∙ ap (in_dir k es) (change_at-then p f g (find_entry k es))

pub change_at-append :
    (d p : FilePath) (f : Change) (s : Option Node)
    → change_at (d ++ p) f s ≡ change_at d (change_at p f) s
unfolding change_at
change_at-append [] p f s = refl
change_at-append (k ∷ d) p f none = ap (in_dir k end) (change_at-append d p f none)
change_at-append (k ∷ d) p f (some (leaf link c)) = refl
change_at-append (k ∷ d) p f (some (dir es)) =
    ap (in_dir k es) (change_at-append d p f (find_entry k es))

pub in_dir_inv :
    (k : Text) (es : Entries) (s : Option Node) (t : Node)
    → in_dir k es s ≡ some t
    → (u : Node) × (s ≡ some u) × (t ≡ dir (set_entry k u es))
in_dir_inv k es none t h = absurd (cc)
in_dir_inv k es (some u) t h = (u, refl, cc)

-- A write below what a change has left there needs no more directories.
pub write_at-change_at :
    (p q : FilePath) (h : Change) (g : Text → Text) (s : Option Node) (t : Node)
    → change_at p h s ≡ some t
    → write_at (p ++ q) g (some t) ≡ change_at p (then_change h (write_at q g)) s
unfolding change_at write_at
write_at-change_at [] q h g s t e = rw (then_change, e) refl
write_at-change_at (k ∷ p) q h g none t e =
    let (u, e1, e2) = in_dir_inv k end (change_at p h none) t e in
    rw (e2, find_entry-set_entry k u end)
      (in_dir-set_entry k u end _ ∙ ap (in_dir k end) (write_at-change_at p q h g none u e1))
write_at-change_at (k ∷ p) q h g (some (leaf link c)) t e = absurd (cc)
write_at-change_at (k ∷ p) q h g (some (dir es)) t e =
    let (u, e1, e2) = in_dir_inv k es (change_at p h (find_entry k es)) t e in
    rw (e2, find_entry-set_entry k u es)
      (in_dir-set_entry k u es _
        ∙ ap (in_dir k es) (write_at-change_at p q h g (find_entry k es) u e1))

as_dir-write_at :
    (k : Text) (g : Text → Text) (s : Option Node)
    → then_change as_dir (write_at (k ∷ []) g) s ≡ change_at (k ∷ []) (written g) s
unfolding change_at write_at
as_dir-write_at k g none = refl
as_dir-write_at k g (some (leaf link c)) = refl
as_dir-write_at k g (some (dir es)) = refl

-- What opens a file behind MkdirAll of its directory.
pub write_at-mkdir :
    (p : FilePath) (k : Text) (g : Text → Text) (s : Option Node) (t : Node)
    → change_at p as_dir s ≡ some t
    → write_at (p ++ k ∷ []) g (some t) ≡ change_at (p ++ k ∷ []) (written g) s
write_at-mkdir p k g s t e =
    write_at-change_at p (k ∷ []) as_dir g s t e
    ∙ ap (λ (f : Change). change_at p f s) (fun_ext (as_dir-write_at k g))
    ∙ sym (change_at-append p (k ∷ []) (written g) s)

-- A change below a path that succeeds finds directories on its way, or makes them.
pub mkdir_below :
    (p : FilePath) (k : Text) (f : Change) (s : Option Node) (t : Node)
    → change_at (p ++ k ∷ []) f s ≡ some t
    → (u : Node) × (change_at p as_dir s ≡ some u)
unfolding change_at
mkdir_below [] k f none t e = (dir end, refl)
mkdir_below [] k f (some (leaf link c)) t e = absurd (cc)
mkdir_below [] k f (some (dir es)) t e = (dir es, refl)
mkdir_below (j ∷ p) k f none t e =
    let (u, e1, _) = in_dir_inv j end (change_at (p ++ k ∷ []) f none) t e in
    let (v, e2) = mkdir_below p k f none u e1 in (_, ap (in_dir j end) e2)
mkdir_below (j ∷ p) k f (some (leaf link c)) t e = absurd (cc)
mkdir_below (j ∷ p) k f (some (dir es)) t e =
    let (u, e1, _) = in_dir_inv j es (change_at (p ++ k ∷ []) f (find_entry j es)) t e in
    let (v, e2) = mkdir_below p k f (find_entry j es) u e1 in (_, ap (in_dir j es) e2)

-- A change succeeds where another one does that is possible in no more places.
pub change_at_mono :
    (p : FilePath) (f g : Change) (s : Option Node) (t : Node)
    → ((x : Option Node) (u : Node) → f x ≡ some u → (v : Node) × (g x ≡ some v))
    → change_at p f s ≡ some t
    → (t' : Node) × (change_at p g s ≡ some t')
unfolding change_at
change_at_mono [] f g s t h e = h s t e
change_at_mono (k ∷ p) f g none t h e =
    let (u, e1, _) = in_dir_inv k end (change_at p f none) t e in
    let (v, e2) = change_at_mono p f g none u h e1 in (_, ap (in_dir k end) e2)
change_at_mono (k ∷ p) f g (some (leaf link c)) t h e = absurd (cc)
change_at_mono (k ∷ p) f g (some (dir es)) t h e =
    let (u, e1, _) = in_dir_inv k es (change_at p f (find_entry k es)) t e in
    let (v, e2) = change_at_mono p f g (find_entry k es) u h e1 in (_, ap (in_dir k es) e2)

abbrev pub below : FilePath → Option Node → Option Node
below p none = none
below p (some t) = stat p t

pub stat-below :
    (k : Text) (p : FilePath) (es : Entries) (s : Option Node)
    → find_entry k es ≡ s
    → stat (k ∷ p) (dir es) ≡ below p s
unfolding stat
stat-below k p es s e = path (find_entry k es) ∙ ap (below p) e
  where
    path :
        (x : Option Node)
        → ◌≡◌ {A = Option Node} (elim x [ none ↦ none | some t ↦ stat p t ]) (below p x)
    path none = refl
    path (some t) = refl

-- What a change puts at a place stands there.
pub stat-change_at :
    (p : FilePath) (u : Node) (s : Option Node) (t : Node)
    → change_at p (λ x. some u) s ≡ some t
    → stat p t ≡ some u
unfolding change_at stat
stat-change_at [] u s t e = sym e
stat-change_at (k ∷ p) u none t e =
    let (v, e1, e2) = in_dir_inv k end (change_at p (λ x. some u) none) t e in
    rw e2 (
      stat-below k p (set_entry k v end) (some v) (find_entry-set_entry k v end)
      ∙ stat-change_at p u none v e1)
stat-change_at (k ∷ p) u (some (leaf link c)) t e = absurd (cc)
stat-change_at (k ∷ p) u (some (dir es)) t e =
    let (v, e1, e2) = in_dir_inv k es (change_at p (λ x. some u) (find_entry k es)) t e in
    rw e2
      (stat-below k p _ _ (find_entry-set_entry k v es) ∙ stat-change_at p u (find_entry k es) v e1)

change_at_new : (p : FilePath) (f : Change) → change_at p f none ≡ change_at p (λ x. f none) none
unfolding change_at
change_at_new [] f = refl
change_at_new (k ∷ p) f = ap (in_dir k end) (change_at_new p f)

-- A change at a place where nothing stands.
pub change_at-absent :
    (p : FilePath) (f : Change) (t : Node)
    → stat p t ≡ none
    → change_at p f (some t) ≡ change_at p (λ x. f none) (some t)
unfolding change_at stat
change_at-absent [] f t h = absurd (cc)
change_at-absent (k ∷ p) f (leaf link c) h = refl
change_at-absent (k ∷ p) f (dir es) h = elim (Option-cases (find_entry k es)) [
  | inl e ↦ rw e (ap (in_dir k es) (change_at_new p f))
  | inr (t, e) ↦
      rw e (ap (in_dir k es) (change_at-absent p f t (sym (stat-below k p es (some t) e) ∙ h)))
]

-- A file that was written can be written again, and holds what was written last.
pub read_file-write_at :
    (p : FilePath) (f : Text → Text) (c : Text) (s : Option Node) (t : Node)
    → write_at p f s ≡ some t
    → (t' : Node) × (write_at p (overwrite c) (some t) ≡ some t') × (content (stat p t') ≡ ok c)
unfolding write_at stat
read_file-write_at [] f c none t e =
    let p : leaf false (ok (f [])) ≡ t = cc in rw (← p) (_, refl, refl)
read_file-write_at [] f c (some (leaf link (ok old))) t e =
    let p : leaf link (ok (f old)) ≡ t = cc in rw (← p) (_, refl, refl)
read_file-write_at [] f c (some (leaf link (err x))) t e = absurd (cc)
read_file-write_at [] f c (some (dir es)) t e = absurd (cc)
read_file-write_at (k ∷ p) f c none t e = absurd (cc)
read_file-write_at (k ∷ p) f c (some (leaf link d)) t e = absurd (cc)
read_file-write_at (k ∷ p) f c (some (dir es)) t e =
    let (v, e1, e2) = in_dir_inv k es (write_at p f (find_entry k es)) t e in
    let (w, e3, e4) = read_file-write_at p f c (find_entry k es) v e1 in
    (
      dir (set_entry k w (set_entry k v es)),
      rw (e2, find_entry-set_entry k v es, e3) refl,
      ap content (stat-below k p _ _ (find_entry-set_entry k w (set_entry k v es))) ∙ e4,
    )
