-- ===== src/Executor/Docker/Images/Pulls.antt =====
-- What pulling an image calls and returns.
use flow_agent_x.Prelude.{
  ℕ, zero, suc, ◌≤◌, ◌≡◌, ◌≢◌, ◌↔◌, ◌⊎◌, inl, inr, refl, true, false, Option, none, some, List, ◌∷◌,
  ◌++◌, arith, replicate, Text, Bool-cases, ap, sym, ◌∙◌,
}
use flow_agent_x.Prelude.Exec.{Result-cases, Err, Result, ok, err, ret, ◌>>=◌}
use flow_agent_x.Domain.Docker.{SimpleAuthPair}
use flow_agent_x.Executor.Docker.{
  Docker, Engine, Call, image_list, image_pull, unable_to_pull, write_single_log, stream,
}
use flow_agent_x.Executor.Docker.Images.{
  full_reference, any_contains, pull_loop, pull_image_with_name,
}

module _ (engine : Engine) (image : Text) (auth : Option SimpleAuthPair) where
  abbrev pulls : ℕ → List Call
  pulls k = replicate k (image_pull (full_reference image) auth)

  pulls_snoc :
      (k : ℕ) (l : List Call)
      → pulls k ++ image_pull (full_reference image) auth ∷ l ≡ pulls (suc k) ++ l
  pulls_snoc zero l = refl
  pulls_snoc (suc k) l = ap (λ t. image_pull (full_reference image) auth ∷ t) (pulls_snoc k l)

  -- A run of the loop: it returns, makes at most `left` pulls, and keeps an error it began with.
  record Pulled (left : ℕ) (out : Option Err) (d : Docker) : Type 0 where
    error : Option Err
    after : Docker
    made : ℕ
    run : pull_loop engine left image auth out d ≡ (ret error, after)
    bounded : made ≤ left
    history : after.calls ≡ pulls made ++ d.calls
    kept : (e : Err) → out ≡ some e → error ≢ none

  abbrev after_pull : Docker → Docker
  after_pull d = record d { calls = image_pull (full_reference image) auth ∷ d.calls }

  pull_success :
      (left : ℕ) (out : Option Err) (d : Docker) (text : Text)
      → engine.pull d.calls (full_reference image) ≡ ok text
      → pull_loop engine (suc left) image auth out d
        ≡ (ret out, write_single_log (stream text) (after_pull d))
  unfolding pull_loop
  pull_success left out d text e = rw (e, ◌>>=◌) refl

  pull_failure :
      (left : ℕ) (out : Option Err) (d : Docker) (x : Err)
      → engine.pull d.calls (full_reference image) ≡ err x
      → pull_loop engine (suc left) image auth out d
        ≡ pull_loop engine left image auth
            (some x)
            (write_single_log (unable_to_pull image x) (after_pull d))
  unfolding pull_loop
  pull_failure left out d x e = rw (e, ◌>>=◌) refl

  pull_loop-Pulled : (left : ℕ) (out : Option Err) (d : Docker) → Pulled left out d
  pull_loop-Pulled zero out d = record {
    error = out;
    after = d;
    made = 0;
    run = unfold pull_loop in refl;
    bounded = omega arith;
    history = refl;
    kept = λ e h k. cc;
  }
  pull_loop-Pulled (suc left) out d =
      pick (Result-cases (engine.pull d.calls (full_reference image))) (pull_loop-Pulled left)
    where
      pick :
          ((t : Text) × (engine.pull d.calls (full_reference image) ≡ ok t))
            ⊎ ((x : Err) × (engine.pull d.calls (full_reference image) ≡ err x))
          → ((o : Option Err) (t : Docker) → Pulled left o t)
          → Pulled (suc left) out d
      pick (inl (text, e)) rest = record {
        error = out;
        after = write_single_log (stream text) (after_pull d);
        made = 1;
        run = pull_success left out d text e;
        bounded = omega arith;
        history = refl;
        kept = λ x h k. cc;
      }
      pick (inr (x, e)) rest =
          let p = rest (some x) (write_single_log (unable_to_pull image x) (after_pull d)) in
          record {
            error = p.error;
            after = p.after;
            made = suc p.made;
            run = pull_failure left out d x e ∙ p.run;
            bounded = omega (arith, p.bounded);
            history = p.history ∙ pulls_snoc p.made d.calls;
            kept = λ y h. p.kept x refl;
          }

  -- The image stands in the engine's list.
  abbrev IsLocal : Docker → Type 0
  IsLocal d =
      (tags : List (List Text)) × (engine.repo_tags d.calls ≡ ok tags)
      × (any_contains tags image ≡ true)

  abbrev listed : Docker → Docker
  listed d = record d { calls = image_list ∷ d.calls }

  -- The engine's answer to the first pull.
  abbrev FirstPullSucceeds : Docker → Type 0
  FirstPullSucceeds d =
      (text : Text) × (engine.pull (image_list ∷ d.calls) (full_reference image) ≡ ok text)

  pub record PullOutcome (d : Docker) : Type 0 where
    pub error : Option Err
    pub after : Docker
    pub made : ℕ
    pub run : pull_image_with_name engine image auth d ≡ (ret error, after)
    pub bounded : made ≤ 3
    pub history : after.calls ≡ pulls made ++ image_list ∷ d.calls
    pub local : IsLocal d → made ≡ 0
    pub success : error ≡ none ↔ (IsLocal d ⊎ FirstPullSucceeds d)

  when_local :
      (d : Docker) → IsLocal d → pull_image_with_name engine image auth d ≡ (ret none, listed d)
  unfolding pull_image_with_name
  when_local d (tags, e, f) = rw (e, ◌>>=◌) (rw (f, ◌>>=◌) refl)

  when_listed :
      (d : Docker) (tags : List (List Text))
      → engine.repo_tags d.calls ≡ ok tags
      → any_contains tags image ≡ false
      → pull_image_with_name engine image auth d ≡ pull_loop engine 3 image auth none (listed d)
  unfolding pull_image_with_name
  when_listed d tags e f = rw (e, ◌>>=◌) (rw (f, ◌>>=◌) refl)

  when_unlisted :
      (d : Docker) (x : Err)
      → engine.repo_tags d.calls ≡ err x
      → pull_image_with_name engine image auth d ≡ pull_loop engine 3 image auth none (listed d)
  unfolding pull_image_with_name
  when_unlisted d x e = rw (e, ◌>>=◌) refl

  -- The loop from its start, by its first answer.
  loop_success :
      (d : Docker) (p : Pulled 3 none d)
      → p.error ≡ none ↔ ((text : Text) × (engine.pull d.calls (full_reference image) ≡ ok text))
  loop_success d p = elim (Result-cases (engine.pull d.calls (full_reference image))) [
    | inl (text, e) ↦ (λ _. (text, e), λ _. first_ok text e)
    | inr (x, e) ↦ (λ h. absurd (first_err x e h), λ (text, f). absurd (ok_err text x (sym f ∙ e)))
  ]
    where
      ok_err : (text : Text) (x : Err) → ◌≡◌ {A = Result Text} (ok text) (err x) → ⊥
      ok_err text x h = cc

      first_ok :
          (text : Text) → engine.pull d.calls (full_reference image) ≡ ok text → p.error ≡ none
      first_ok text e = let same = sym (pull_success 2 none d text e) ∙ p.run in cc

      first_err : (x : Err) → engine.pull d.calls (full_reference image) ≡ err x → p.error ≢ none
      first_err x e =
          let later =
            pull_loop-Pulled 2 (some x)
              (write_single_log (unable_to_pull image x) (after_pull d)) in
          let same = sym (later.run) ∙ sym (pull_failure 2 none d x e) ∙ p.run in
          λ h. later.kept x refl (cc)

  absent_outcome :
      (d : Docker)
      → ¬ IsLocal d
      → pull_image_with_name engine image auth d ≡ pull_loop engine 3 image auth none (listed d)
      → PullOutcome d
  absent_outcome d away run =
      let p = pull_loop-Pulled 3 none (listed d) in
      let s = loop_success (listed d) p in
      record {
        error = p.error;
        after = p.after;
        made = p.made;
        run = run ∙ p.run;
        bounded = p.bounded;
        history = p.history;
        local = λ h. absurd (away h);
        success = (λ h. inr (s.0 h), λ h. elim h [ inl l ↦ absurd (away l) | inr f ↦ s.1 f ]);
      }

  local_outcome : (d : Docker) → IsLocal d → PullOutcome d
  local_outcome d l = record {
    error = none;
    after = listed d;
    made = 0;
    run = when_local d l;
    bounded = omega arith;
    history = refl;
    local = λ _. refl;
    success = (λ _. inl l, λ _. refl);
  }

  pub pull_image_with_name-outcome : (d : Docker) → PullOutcome d
  pull_image_with_name-outcome d = elim (Result-cases (engine.repo_tags d.calls)) [
    | inr (x, e) ↦
        absent_outcome d (λ (tags, f, _). not_both tags x (sym f ∙ e)) (when_unlisted d x e)
    | inl (tags, e) ↦ elim (Bool-cases (any_contains tags image)) [
      | inl f ↦ local_outcome d (tags, e, f)
      | inr f ↦
          absent_outcome d (λ l. other_tags l.0 tags (sym l.1 ∙ e) l.2 f) (when_listed d tags e f)
    ]
  ]
    where
      not_both :
          (tags : List (List Text)) (x : Err)
          → ◌≡◌ {A = Result (List (List Text))} (ok tags) (err x)
          → ⊥
      not_both tags x h = cc

      other_tags :
          (a b : List (List Text))
          → ◌≡◌ {A = Result (List (List Text))} (ok a) (ok b)
          → any_contains a image ≡ true
          → any_contains b image ≡ false
          → ⊥
      other_tags a b h p q = cc
