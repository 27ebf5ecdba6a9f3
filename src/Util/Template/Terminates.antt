-- ===== src/Util/Template/Terminates.antt =====
-- The expansion ends where no value holds a `$`: each replacement lowers the number of `$` in the
-- text, and every other round moves the index on.
use flow_agent_x.Prelude.{
  ℕ, zero, suc, ◌+◌, ◌-◌, ◌<◌, ◌≡◌, ◌≢◌, refl, true, ◌⊎◌, inl, inr, some, [], ◌∷◌, ◌++◌, arith, ltb,
  ◌==◌, Bool-cases, ==_iff, Option-cases, length, drop, Text, Lacks, is_empty, has_prefix,
}
use flow_agent_x.Prelude.Exec.{Outcome, ret, panic, hang}
use flow_agent_x.Util.Template.{
  dollar, left_brace, right_brace, replace_all, reference, up_to_brace, expand_at, expand_from,
  parse_variables_from,
}
use flow_agent_x.Util.Template.Rounds.{expand_from_next}
use flow_agent_x.Util.Template.Replace.{count, count-replace_from_lt}

up_to_brace_prefix :
    (s env : Text) → up_to_brace s ≡ some env → has_prefix s (env ++ right_brace ∷ []) ≡ true
unfolding up_to_brace has_prefix
up_to_brace_prefix [] env h = cc
up_to_brace_prefix (c ∷ s) [] h = ground arith
up_to_brace_prefix (c ∷ s) (d ∷ env) h = ground (arith, up_to_brace_prefix s env)

-- A round that changes the text leaves fewer `$`; any other round only moves the index.
abbrev Advances : ℕ → Text → Outcome (ℕ × Text) → Type 0
Advances i src (ret (j, t)) = ((j ≡ i + 1) × (t ≡ src)) ⊎ (count dollar t < count dollar src)
Advances i src (panic e) = Unit
Advances i src hang = ⊥

module _ (get : Text → Text) (plain : (env : Text) → Lacks dollar (get env)) where
  replaced-lt :
      (i : ℕ) (src env s : Text)
      → drop i src ≡ dollar ∷ left_brace ∷ s
      → up_to_brace s ≡ some env
      → count dollar (replace_all src (reference env) (get env)) < count dollar src
  unfolding replace_all has_prefix
  replaced-lt i src env s at_i found =
      count-replace_from_lt dollar (left_brace ∷ env ++ right_brace ∷ []) (get env) src i
        (plain env) (rw at_i (up_to_brace_prefix s env found))

  expand_at-Advances :
      (i : ℕ) (src rest : Text) → drop i src ≡ rest → Advances i src (expand_at get i src rest)
  unfolding expand_at
  expand_at-Advances i src [] h = inl (refl, refl)
  expand_at-Advances i src (c ∷ []) h = elim (Bool-cases (c == dollar)) [
    | inl e ↦ rw e tt
    | inr e ↦ rw e (inl (refl, refl))
  ]
  expand_at-Advances i src (c ∷ l ∷ s) h = elim (Bool-cases (c == dollar)) [
    | inr e ↦ rw e (inl (refl, refl))
    | inl e ↦ elim (Bool-cases (l == left_brace)) [
      | inr f ↦ rw (e, f) (inl (refl, refl))
      | inl f ↦ elim (Option-cases (up_to_brace s)) [
        | inl g ↦ rw (e, f, g) (inl (refl, refl))
        | inr (env, g) ↦ elim (Bool-cases (is_empty (get env))) [
          | inl v ↦ rw (e, f, g, v) (inl (refl, refl))
          | inr v ↦
              rw (e, f, g, v)
                (inr (
                  replaced-lt i src env s
                    (rw ((==_iff c dollar).0 e, (==_iff l left_brace).0 f) at h) g))
        ]
      ]
    ]
  ]

  Ends : ℕ → Text → Type 0
  Ends i src = (fuel : ℕ) × (expand_from fuel get i src ≢ hang)

  Ends-step :
      (i : ℕ) (src : Text) (o : Outcome (ℕ × Text))
      → ltb i (length src) ≡ true
      → expand_at get i src (drop i src) ≡ o
      → Advances i src o
      → Ends (i + 1) src
      → ((j : ℕ) (t : Text) → count dollar t < count dollar src → Ends j t)
      → Ends i src
  unfolding Ends
  Ends-step i src (ret (j, t)) inside e (inl (p, q)) (fuel, done) fewer =
      (suc fuel, rw (expand_from_next get fuel i src _ inside e, p, q) done)
  Ends-step i src (ret (j, t)) inside e (inr lt) same fewer =
      let (fuel, done) = fewer j t lt in
      (suc fuel, rw (expand_from_next get fuel i src _ inside e) done)
  Ends-step i src (panic x) inside e a same fewer =
      (1, rw (expand_from_next get 0 i src _ inside e) (λ h. cc))
  Ends-step i src hang inside e a same fewer = absurd a

  -- The loop ends, from every index: some fuel is enough.
  expand_from-Ends :
      (k n : ℕ) (i : ℕ) (src : Text) → count dollar src < k → length src - i < n → Ends i src
  unfolding Ends
  expand_from-Ends zero n i src hk hn = absurd (omega arith)
  expand_from-Ends (suc k) zero i src hk hn = absurd (omega arith)
  expand_from-Ends (suc k) (suc n) i src hk hn = elim (Bool-cases (ltb i (length src))) [
    | inr e ↦ (1, unfold expand_from in rw (e, expand_from) (λ h. cc))
    | inl e ↦
        Ends-step i src (expand_at get i src (drop i src)) e refl
          (expand_at-Advances i src (drop i src) refl)
          (expand_from-Ends (suc k) n (i + 1) src hk (ground (arith, e)))
          (λ j t h. expand_from-Ends k (suc (length t - j)) j t (omega arith) (omega arith))
  ]

  -- Where no value of a variable holds a `$`, the expansion of every text comes to an end: it
  -- returns or panics, once enough rounds are granted.
  pub parse_variables_from-ends :
      (src : Text) → (fuel : ℕ) × (parse_variables_from fuel src get ≢ hang)
  unfolding parse_variables_from Ends
  parse_variables_from-ends src = elim (Bool-cases (is_empty src)) [
    | inl e ↦ (0, rw e (λ h. cc))
    | inr e ↦
        let (fuel, done) =
          expand_from-Ends (suc (count dollar src)) (suc (length src)) 0 src (omega arith)
            (omega arith) in
        (fuel, rw e done)
  ]
