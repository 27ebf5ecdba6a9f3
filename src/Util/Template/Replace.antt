-- ===== src/Util/Template/Replace.antt =====
-- Laws of `replace_all`, by how often a byte stands in a text.
use flow_agent_x.Prelude.{
  ℕ, zero, suc, ◌+◌, ◌≤◌, ◌<◌, ◌≡◌, ◌∙◌, ap, refl, Bool, ◌||◌, true, false, inl, inr, [], ◌∷◌, ◌++◌,
  arith, ◌==◌, if◌then◌else◌, Bool-cases, length, drop, Text, Lacks, has_prefix, has_prefix-append,
}
use flow_agent_x.Util.Template.{replace_from, replace_all}

abbrev pub count : ℕ → Text → ℕ
count b [] = 0
count b (c ∷ s) = let rest = count b s in if c == b then suc rest else rest

pub count-append : (b : ℕ) (s t : Text) → count b (s ++ t) ≡ count b s + count b t
count-append b [] t = omega arith
count-append b (c ∷ s) t = ground (arith, count-append b s t)

pub count_of_Lacks : (b : ℕ) (s : Text) → Lacks b s → count b s ≡ 0
count_of_Lacks b [] h = refl
count_of_Lacks b (c ∷ s) h = ground (arith, count_of_Lacks b s h.1)

module _ (old new : Text) (c : ℕ) (s : Text) where
  pub replace_found :
      has_prefix (c ∷ s) old ≡ true
      → replace_from old new 0 (c ∷ s) ≡ new ++ replace_from old new (length (drop 1 old)) s
  unfolding replace_from
  replace_found e = rw (e, replace_from)

  pub replace_absent :
      has_prefix (c ∷ s) old ≡ false → replace_from old new 0 (c ∷ s) ≡ c ∷ replace_from old new 0 s
  unfolding replace_from
  replace_absent e = rw (e, replace_from)

-- A replacement by a text without the byte does not add to the byte's count.
pub count-replace_from :
    (b : ℕ) (old new : Text) (skip : ℕ) (s : Text)
    → Lacks b new
    → count b (replace_from old new skip s) ≤ count b s
unfolding replace_from
count-replace_from b old new skip [] h = omega arith
count-replace_from b old new (suc skip) (c ∷ s) h =
    ground (arith, count-replace_from b old new skip s h)
count-replace_from b old new zero (c ∷ s) h = elim (Bool-cases (has_prefix (c ∷ s) old)) [
  | inl found ↦
      let rest = replace_from old new (length (drop 1 old)) s in
      let fewer = count-replace_from b old new (length (drop 1 old)) s h in
      rw (replace_found old new c s found)
        (ground (arith, count-append b new rest, count_of_Lacks b new h, fewer))
  | inr absent ↦
      rw (replace_absent old new c s absent) (ground (arith, count-replace_from b old new 0 s h))
]

count-replace_found :
    (b c : ℕ) (old new : Text) (s : Text)
    → Lacks b new
    → has_prefix (c ∷ s) (b ∷ old) ≡ true
    → count b (replace_from (b ∷ old) new 0 (c ∷ s)) < count b (c ∷ s)
count-replace_found b c old new s h found =
    let rest = replace_from (b ∷ old) new (length old) s in
    let fewer = count-replace_from b (b ∷ old) new (length old) s h in
    let same : (c == b) ≡ true = unfold has_prefix in ground arith in
    rw (replace_found (b ∷ old) new c s found)
      (ground (arith, same, count-append b new rest, count_of_Lacks b new h, fewer))

-- It lowers the count where a text that begins with the byte is found.
pub count-replace_from_lt :
    (b : ℕ) (old new : Text) (s : Text) (i : ℕ)
    → Lacks b new
    → has_prefix (drop i s) (b ∷ old) ≡ true
    → count b (replace_from (b ∷ old) new 0 s) < count b s
count-replace_from_lt b old new [] zero h p = unfold has_prefix in cc
count-replace_from_lt b old new [] (suc i) h p = unfold has_prefix in cc
count-replace_from_lt b old new (c ∷ s) zero h p = count-replace_found b c old new s h p
count-replace_from_lt b old new (c ∷ s) (suc i) h p =
    elim (Bool-cases (has_prefix (c ∷ s) (b ∷ old))) [
      | inl found ↦ count-replace_found b c old new s h found
      | inr absent ↦
          rw (replace_absent (b ∷ old) new c s absent)
            (ground (arith, count-replace_from_lt b old new s i h p))
    ]

-- strings.Contains of a text that is not empty
unfoldable pub contains : Text → Text → Bool
unfolding has_prefix
contains [] old = false
contains (c ∷ s) old = let rest = contains s old in has_prefix (c ∷ s) old || rest

replace_without : (old new s : Text) → contains s old ≡ false → replace_from old new 0 s ≡ s
unfolding contains replace_from
replace_without old new [] h = refl
replace_without old new (c ∷ s) h =
    let (e, f) : (has_prefix (c ∷ s) old ≡ false) × (contains s old ≡ false) = ground (arith, h) in
    replace_absent old new c s e ∙ ap (λ r. c ∷ r) (replace_without old new s f)

replace_skipped :
    (old new p s : Text) → replace_from old new (length p) (p ++ s) ≡ replace_from old new 0 s
unfolding replace_from
replace_skipped old new [] s = refl
replace_skipped old new (c ∷ p) s = replace_skipped old new p s

-- The text in front is cut off, and nothing else, if it does not occur behind.
pub replace_all-front :
    (o : ℕ) (old s : Text)
    → contains s (o ∷ old) ≡ false
    → replace_all ((o ∷ old) ++ s) (o ∷ old) [] ≡ s
unfolding replace_all
replace_all-front o old s h =
    replace_found (o ∷ old) [] o (old ++ s) (has_prefix-append (o ∷ old) s)
    ∙ replace_skipped (o ∷ old) [] old s
    ∙ replace_without (o ∷ old) [] s h
