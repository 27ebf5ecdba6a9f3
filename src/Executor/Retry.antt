-- ===== src/Executor/Retry.antt =====
-- The loop of `Start` in executor/docker.go and executor/shell.go, over one attempt.
use flow_agent_x.Prelude.{
  ℕ, zero, suc, ◌≤◌, ◌≡◌, ◌∙◌, refl, Bool, true, false, inl, inr, Option, none, arith, ap,
  if◌then◌else◌, Bool-cases,
}
use flow_agent_x.Prelude.Int.{ℤ, pos, negsuc}
use flow_agent_x.Prelude.Exec.{Err, Outcome, ret, panic, hang, Exec, pure, ◌>>=◌}

-- `attempt` is `doStart`, `failed` the test on its result, `mark` writes the retry line.
module _ {S : Type 0} (attempt : Exec S (Option Err)) (failed : Option Err → S → Bool)
    (mark : S → S) where
  -- The rounds `i, i - 1, ..., 0`.
  unfoldable pub retry_from : ℕ → Exec S (Option Err)
  retry_from zero = attempt
  retry_from (suc i) =
      let rest = retry_from i in
      attempt >>= λ out s. if failed out s then rest (mark s) else (ret out, s)

  unfoldable pub retry_loop : ℤ → Exec S (Option Err)
  unfolding retry_from
  retry_loop (pos n) = retry_from n
  retry_loop (negsuc n) = pure none

  -- `Failures n s t`: n attempts in a row have failed, from `s` to `t`.
  pub data Failures : ℕ → S → S → Type 0 where
    no_failure : {s : S} → Failures 0 s s
    failure :
        {n : ℕ} {s t : S} (out : Option Err) (s1 : S)
        → attempt s ≡ (ret out, s1)
        → failed out s1 ≡ true
        → Failures n (mark s1) t
        → Failures (suc n) s t

  -- A run of the loop that returned: some failures, at most `i`, and then one last attempt, which
  -- failed only if the retries were used up.
  pub record Attempts (i : ℕ) (s : S) (out : Option Err) (s' : S) : Type 0 where
    pub failures : ℕ
    pub last : S
    pub within : failures ≤ i
    pub before : Failures failures s last
    pub final : attempt last ≡ (ret out, s')
    pub used_up : failed out s' ≡ true → failures ≡ i

  first_try :
      (i : ℕ) (s : S) (out : Option Err) (s' : S)
      → attempt s ≡ (ret out, s')
      → (failed out s' ≡ true → 0 ≡ i)
      → Attempts i s out s'
  first_try i s out s' e u = record {
    failures = 0;
    last = s;
    within = omega arith;
    before = no_failure;
    final = e;
    used_up = u;
  }

  later_try :
      (i : ℕ) (s : S) (o out : Option Err) (s1 s' : S)
      → attempt s ≡ (ret o, s1)
      → failed o s1 ≡ true
      → Attempts i (mark s1) out s'
      → Attempts (suc i) s out s'
  later_try i s o out s1 s' e f a = record {
    failures = suc a.failures;
    last = a.last;
    within = omega (arith, a.within);
    before = failure o s1 e f a.before;
    final = a.final;
    used_up = λ h. ap suc (a.used_up h);
  }

  -- One round of the loop, by the outcome of the attempt.
  round :
      (i : ℕ) (s : S) (o : Option Err) (s1 : S)
      → attempt s ≡ (ret o, s1)
      → retry_from (suc i) s ≡ (if failed o s1 then retry_from i (mark s1) else (ret o, s1))
  unfolding retry_from
  round i s o s1 e = rw (e, ◌>>=◌) refl

  settled :
      (o out : Option Err) (s1 s' : S)
      → ◌≡◌ {A = Outcome (Option Err) × S} (ret o, s1) (ret out, s')
      → failed o s1 ≡ false
      → failed out s' ≡ true
      → ⊥
  settled o out s1 s' same f g = cc

  retry_step :
      (i : ℕ) (s : S) (out : Option Err) (s' : S) (r : Outcome (Option Err)) (s1 : S)
      → attempt s ≡ (r, s1)
      → retry_from (suc i) s ≡ (ret out, s')
      → ((t : S) → retry_from i t ≡ (ret out, s') → Attempts i t out s')
      → Attempts (suc i) s out s'
  retry_step i s out s' (ret o) s1 e h rest = elim (Bool-cases (failed o s1)) [
    | inl f ↦ later_try i s o out s1 s' e f (rest (mark s1) (rw (round i s o s1 e, f) at h))
    | inr f ↦
        let same = rw (round i s o s1 e, f) at h in
        first_try (suc i) s out s' (e ∙ same) (λ g. absurd (settled o out s1 s' same f g))
  ]
  retry_step i s out s' (panic x) s1 e h rest =
      absurd (unfold retry_from in cc (rw (e, ◌>>=◌) at h))
  retry_step i s out s' hang s1 e h rest = absurd (unfold retry_from in cc (rw (e, ◌>>=◌) at h))

  -- Whenever the loop returns, it has made at most `i + 1` attempts, every one but the last has
  -- failed, the result is that of the last attempt, and if that failed too, all were made.
  pub retry_from-Attempts :
      (i : ℕ) (s : S) (out : Option Err) (s' : S)
      → retry_from i s ≡ (ret out, s')
      → Attempts i s out s'
  retry_from-Attempts zero s out s' h = first_try 0 s out s' (unfold retry_from in h) (λ _. refl)
  retry_from-Attempts (suc i) s out s' h =
      retry_step i s out s' (attempt s).0 (attempt s).1 refl h
        (λ t k. retry_from-Attempts i t out s' k)

  abbrev pub Returns : Exec S (Option Err) → S → Type 0
  Returns m s = (out : Option Err) × (s' : S) × (m s ≡ (ret out, s'))

  -- If every attempt returns, from every state, so does the loop.
  pub retry_from-Returns :
      ((s : S) → Returns attempt s) → (i : ℕ) (s : S) → Returns (retry_from i) s
  retry_from-Returns total zero s = unfold retry_from in total s
  retry_from-Returns total (suc i) s = pick (total s) (retry_from-Returns total i)
    where
      pick :
          Returns attempt s → ((t : S) → Returns (retry_from i) t) → Returns (retry_from (suc i)) s
      pick (o, s1, e) rest = elim (Bool-cases (failed o s1)) [
        | inl f ↦ let (out, s', k) = rest (mark s1) in (out, s', rw (round i s o s1 e, f) k)
        | inr f ↦ (o, s1, rw (round i s o s1 e, f) refl)
      ]
