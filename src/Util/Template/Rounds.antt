-- ===== src/Util/Template/Rounds.antt =====
-- One round of the expansion loop, as an equation.
use flow_agent_x.Prelude.{
  ℕ, suc, ◌+◌, ◌≡◌, ◌≢◌, true, [], ◌∷◌, ◌++◌, arith, ltb, length, length-append, drop, drop-append,
  Text,
}
use flow_agent_x.Prelude.Exec.{Outcome, ret, panic, hang}
use flow_agent_x.Util.Template.{dollar, expand_at, expand_from}

module _ (get : Text → Text) where
  pub expand_from_next :
      (fuel i : ℕ) (src : Text) (o : Outcome (ℕ × Text))
      → ltb i (length src) ≡ true
      → expand_at get i src (drop i src) ≡ o
      → expand_from (suc fuel) get i src
        ≡ elim o [ ret step ↦ expand_from fuel get step.0 step.1 | panic e ↦ panic e | hang ↦ hang ]
  unfolding expand_from
  expand_from_next fuel i src o inside e = rw (inside, e, expand_from)

  inside_append :
      (done : Text) (c : ℕ) (s : Text) → ltb (length done) (length (done ++ c ∷ s)) ≡ true
  inside_append done c s = ground (arith, length-append done (c ∷ s))

  -- The loop at the byte behind a finished prefix.
  pub expand_from_here :
      (fuel : ℕ) (done : Text) (c : ℕ) (s : Text) (o : Outcome (ℕ × Text))
      → expand_at get (length done) (done ++ c ∷ s) (c ∷ s) ≡ o
      → expand_from (suc fuel) get (length done) (done ++ c ∷ s)
        ≡ elim o [ ret step ↦ expand_from fuel get step.0 step.1 | panic e ↦ panic e | hang ↦ hang ]
  expand_from_here fuel done c s o e =
      expand_from_next fuel (length done) (done ++ c ∷ s) o (inside_append done c s)
        (rw (drop-append done (c ∷ s)) e)

  -- A byte that is no `$` moves the index on.
  pub expand_at-plain :
      (i : ℕ) (src : Text) (c : ℕ) (s : Text)
      → c ≢ dollar
      → expand_at get i src (c ∷ s) ≡ ret (i + 1, src)
  unfolding expand_at
  expand_at-plain i src c [] h = ground arith
  expand_at-plain i src c (l ∷ s) h = ground arith
