-- ===== src/Executor/Docker/Run/Finish.antt =====
-- How an attempt and the whole start come to an end.
use flow_agent_x.Prelude.{
  ℕ, ◌≡◌, ◌≢◌, refl, ap, true, inl, inr, Option, none, some, List, [], ◌∷◌, Bool-cases, Text,
}
use mathlib.Core.Path.{subst}
use flow_agent_x.Prelude.Int.{ℤ, pos, negsuc}
use flow_agent_x.Prelude.Exec.{
  Err, deadline_exceeded, canceled, Outcome, ret, panic, hang, Exec, pure, continue, on_panic,
  restore_inv, after, restore, ◌>>=◌, bind_inv,
}
use flow_agent_x.Domain.Docker.{DockerConfig}
use flow_agent_x.Domain.Command.{is_finish_status}
use flow_agent_x.Executor.Status.{to_finish_status-finished, status_of_error-finished}
use flow_agent_x.Executor.Retry.{retry_loop, Attempts, retry_from-Attempts}
use flow_agent_x.Executor.Docker.{Docker, Engine, Host, write_single_log, retry_mark}
use flow_agent_x.Executor.Docker.Containers.{cleanup_from, cleanup_container}
use flow_agent_x.Executor.Docker.Run.{
  kill, record_error, run_script, run_single_script, handle_errors, settle, run_attempt, do_start,
  attempt_failed, start,
}

abbrev pub IsFinished : Docker → Type 0
IsFinished d = is_finish_status d.result.status ≡ true

-- The clean-up leaves the result alone, however it ends.
cleanup_from-result :
    (configs : List (Option DockerConfig)) (d : Docker)
    → (cleanup_from configs d).1.result ≡ d.result
unfolding cleanup_from
cleanup_from-result [] d = refl
cleanup_from-result (none ∷ rest) d = refl
cleanup_from-result (some c ∷ rest) d = elim (Bool-cases c.is_delete) [
  | inl e ↦ rw e (cleanup_from-result rest _)
  | inr e ↦ elim (Bool-cases c.is_stop) [
    | inl f ↦ rw (e, f) (cleanup_from-result rest _)
    | inr f ↦ rw (e, f) (cleanup_from-result rest d)
  ]
]

cleanup_container-result : (d : Docker) → (cleanup_container d).1.result ≡ d.result
unfolding cleanup_container
cleanup_container-result d = cleanup_from-result d.configs d

module _ (engine : Engine) (host : Host) (fuel : ℕ) where
  settle-IsFinished : (code : ℤ) (d : Docker) → IsFinished (settle engine host code d).1
  unfolding settle
  settle-IsFinished code d = elim (Bool-cases (is_finish_status d.result.status)) [
    | inl e ↦ rw e e
    | inr e ↦ rw e (to_finish_status-finished host.now d.in_cmd.allow_failure code d.result).0
  ]

  record_error-IsFinished :
      (e : Err) (d d' : Docker) (out : Option Err)
      → record_error engine host e d ≡ (ret out, d')
      → IsFinished d'
  unfolding record_error
  record_error-IsFinished e d d' out h =
      rw (← ap (λ (q : Outcome (Option Err) × Docker). q.1.result) h)
        (status_of_error-finished host.now e d.result)

  killed-IsFinished :
      (e : Err) (d d' : Docker) (out : Option Err)
      → (kill engine host fuel >>= λ _. record_error engine host e) d ≡ (ret out, d')
      → IsFinished d'
  killed-IsFinished e d d' out h =
      let (_, _, h1) =
        bind_inv (kill engine host fuel) (λ _. record_error engine host e) d out d' h in
      record_error-IsFinished e _ d' out h1

  handle_errors-IsFinished :
      (e : Err) (d d' : Docker) (out : Option Err)
      → handle_errors engine host fuel e d ≡ (ret out, d')
      → IsFinished d'
  unfolding handle_errors
  handle_errors-IsFinished deadline_exceeded d d' out h =
      killed-IsFinished deadline_exceeded d d' out h
  handle_errors-IsFinished canceled d d' out h = killed-IsFinished canceled d d' out h
  handle_errors-IsFinished e d d' out h = record_error-IsFinished e d d' out h

  run_attempt-IsFinished :
      (d : Docker) (out : Option Err)
      → (run_attempt engine host fuel d).0 ≡ ret out
      → IsFinished (run_attempt engine host fuel d).1
  run_attempt-IsFinished d out h =
      let d' = (run_attempt engine host fuel d).1 in
      let (code, _, h1) =
        bind_inv (run_script engine host fuel) (settle engine host) d out d'
          (unfold run_attempt in λ j. (h j, d')) in
      rw (← ap (λ (q : Outcome (Option Err) × Docker). q.1) h1) (settle-IsFinished code _)

  handled-IsFinished :
      (o : Outcome (Option Err)) (d d' : Docker) (out : Option Err)
      → ((a : Option Err) → o ≡ ret a → IsFinished d)
      → on_panic (handle_errors engine host fuel) o d ≡ (ret out, d')
      → IsFinished d'
  handled-IsFinished (ret a) d d' out fine h =
      rw (← ap (λ (q : Outcome (Option Err) × Docker). q.1) h) (fine a refl)
  handled-IsFinished (panic e) d d' out fine h = handle_errors-IsFinished e d d' out h
  handled-IsFinished hang d d' out fine h = absurd (cc)

  cleaned-IsFinished :
      (r : Outcome (Option Err)) (d d' : Docker) (out : Option Err)
      → ((a : Option Err) → r ≡ ret a → IsFinished d)
      → (let (o, d1) = after cleanup_container r d in
          on_panic (handle_errors engine host fuel) o d1)
        ≡ (ret out, d')
      → IsFinished d'
  cleaned-IsFinished hang d d' out fine h = absurd (cc)
  cleaned-IsFinished (ret x) d d' out fine h =
      let (c, d1) = cleanup_container d in
      handled-IsFinished (restore (ret x) c) d1 d' out
        (λ a p. rw (cleanup_container-result d) (fine a (restore_inv (ret x) c a p))) h
  cleaned-IsFinished (panic e) d d' out fine h =
      let (c, d1) = cleanup_container d in
      handled-IsFinished (restore (panic e) c) d1 d' out
        (λ a p. rw (cleanup_container-result d) (fine a (restore_inv (panic e) c a p))) h

  -- An attempt that returns leaves a finished result, whatever failed in it.
  pub do_start-IsFinished :
      (d d' : Docker) (out : Option Err)
      → do_start engine host fuel d ≡ (ret out, d')
      → IsFinished d'
  do_start-IsFinished d d' out h =
      let (r, d1) = run_attempt engine host fuel d in
      cleaned-IsFinished r d1 d' out (λ a p. run_attempt-IsFinished d a p) (unfold do_start in h)

  -- When the start of a command with `n` retries returns, the result is finished and is that of
  -- the last of at most `n + 1` attempts, of which every earlier one failed; if the last one
  -- failed too, no retry is left.
  pub start-Attempts :
      (n : ℕ) (d d' : Docker) (out : Option Err)
      → d.in_cmd.retry ≡ pos n
      → start engine host fuel d ≡ (ret out, d')
      → IsFinished d'
        × Attempts
            (do_start engine host fuel)
            attempt_failed
            (write_single_log retry_mark)
            n
            d
            out
            d'
  unfolding start retry_loop
  start-Attempts n d d' out e h =
      let a =
        retry_from-Attempts (do_start engine host fuel) attempt_failed (write_single_log retry_mark)
          n d out d'
          (subst
            (λ r.
              retry_loop (do_start engine host fuel) attempt_failed (write_single_log retry_mark) r
                d
              ≡ (ret out, d'))
            e h) in
      (do_start-IsFinished a.last d' out a.final, a)

  never_panics {ℓ κ} :
      {A : Type ℓ} {B : Type κ} (x : Err) (r : Outcome A) (d : Docker) (f : A → Exec Docker B)
      → r ≢ panic x
      → ((a : A) (d1 : Docker) → (f a d1).0 ≢ panic x)
      → (continue r f d).0 ≢ panic x
  never_panics x (ret a) d f h k = k a d
  never_panics x (panic e) d f h k = λ p. h (cc)
  never_panics x hang d f h k = λ p. cc

  swallowed :
      (x : Err) (r : Outcome ℤ) (d : Docker) → (on_panic (λ e. pure (negsuc 0)) r d).0 ≢ panic x
  swallowed x (ret a) d = λ p. cc
  swallowed x (panic e) d = λ p. cc
  swallowed x hang d = λ p. cc

  run_single_script-panics :
      (x : Err) (script : Text) (d : Docker)
      → (run_single_script engine host fuel script d).0 ≢ panic x
  unfolding run_single_script
  run_single_script-panics x script d = swallowed x _ _

  kill-panics : (x : Err) (d : Docker) → (kill engine host fuel d).0 ≢ panic x
  unfolding kill
  kill-panics x d =
      never_panics x _ _ _ (run_single_script-panics x _ d)
        (λ _ d1. never_panics x _ _ _ (run_single_script-panics x _ d1) (λ _ d2 p. cc))

  handle_errors-panics : (x e : Err) (d : Docker) → (handle_errors engine host fuel e d).0 ≢ panic x
  unfolding handle_errors
  handle_errors-panics x deadline_exceeded d = never_panics x _ _ _ (kill-panics x d) (λ _ d1 p. cc)
  handle_errors-panics x canceled d = never_panics x _ _ _ (kill-panics x d) (λ _ d1 p. cc)
  handle_errors-panics x e d = λ p. cc

  handled-panics :
      (x : Err) (o : Outcome (Option Err)) (d : Docker)
      → (on_panic (handle_errors engine host fuel) o d).0 ≢ panic x
  handled-panics x (ret a) d = λ p. cc
  handled-panics x (panic e) d = handle_errors-panics x e d
  handled-panics x hang d = λ p. cc

  -- No panic leaves an attempt: whatever the engine answers, and also where the clean-up meets a
  -- nil config, the error is recorded instead.
  pub do_start-panics : (x : Err) (d : Docker) → (do_start engine host fuel d).0 ≢ panic x
  unfolding do_start
  do_start-panics x d = handled-panics x _ _
