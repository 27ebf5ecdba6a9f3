-- ===== src/Executor/Docker/Run/Returns.antt =====
-- An attempt and the whole start return, if the scripts of the engine end.
use flow_agent_x.Prelude.{ℕ, ◌≡◌, ◌≢◌, sym, refl, true, inl, inr, Option, List, Bool-cases, Text}
use mathlib.Core.Path.{subst}
use flow_agent_x.Prelude.Int.{pos}
use flow_agent_x.Prelude.Exec.{Err, Outcome, ret, panic, hang}
use flow_agent_x.Executor.Retry.{Attempts, retry_loop, retry_from-Returns}
use flow_agent_x.Executor.Docker.{Docker, Engine, Host, Call, write_single_log, retry_mark}
use flow_agent_x.Executor.Docker.Images.{pull_image}
use flow_agent_x.Executor.Docker.Run.{
  wait_for_tty, handle_errors, run_script, run_attempt, do_start, attempt_failed, start,
}
use flow_agent_x.Executor.Docker.Run.Ends.{
  never_hangs, caught, Runs, wait_for_exit-ends, handle_errors-ends, copy_plugins-ends,
  copy_cache-ends,
}
use flow_agent_x.Executor.Docker.Run.Finish.{
  IsFinished, do_start-IsFinished, do_start-panics, start-Attempts,
}
use flow_agent_x.Executor.Docker.Run.Steps.{
  cleaned-ends, export_env-ends, pull_images-ends, start_container-ends, run_shell-ends,
  write_cache-ends, settle-ends,
}

module _ (engine : Engine) (host : Host) (fuel : ℕ)
    (stops : (h : List Call) (eid : Text) → ¬ Runs engine host fuel h eid)
    (tty : host.tty_ends ≡ true) where
  wait_for_tty-ends : (d : Docker) → (wait_for_tty engine host d).0 ≢ hang
  unfolding wait_for_tty
  wait_for_tty-ends d = elim (Bool-cases d.interacting) [
    | inl e ↦ rw (e, tty) (λ p. cc)
    | inr e ↦ rw e (λ p. cc)
  ]

  run_script-ends : (d : Docker) → (run_script engine host fuel d).0 ≢ hang
  unfolding run_script pull_image
  run_script-ends d = never_hangs _ _ _ (pull_images-ends engine host d.configs d) (λ _ d1.
      never_hangs _ _ _ (start_container-ends engine host d1) (λ _ d2.
        never_hangs _ _ _ (copy_plugins-ends engine host fuel stops d2) (λ _ d3.
          never_hangs _ _ _ (copy_cache-ends engine host fuel stops d3) (λ _ d4.
            never_hangs _ _ _ (run_shell-ends engine host d4) (λ eid d5.
              never_hangs _ _ _ (wait_for_exit-ends engine host fuel stops eid _ d5) (λ code d6.
                never_hangs _ _ _ (export_env-ends engine host d6) (λ _ d7.
                  never_hangs _ _ _ (wait_for_tty-ends d7) (λ _ d8.
                    never_hangs _ _ _ (write_cache-ends engine host d8) (λ _ d9 p. cc)))))))))

  run_attempt-ends : (d : Docker) → (run_attempt engine host fuel d).0 ≢ hang
  unfolding run_attempt
  run_attempt-ends d =
      never_hangs _ _ _ (run_script-ends d) (λ code d1. settle-ends engine host code d1)

  do_start-ends : (d : Docker) → (do_start engine host fuel d).0 ≢ hang
  unfolding do_start
  do_start-ends d =
      caught (handle_errors engine host fuel) _ _
        (cleaned-ends _ (run_attempt engine host fuel d).1 (run_attempt-ends d))
        (handle_errors-ends engine host fuel stops)

  returned :
      (r : Outcome (Option Err) × Docker)
      → r.0 ≢ hang
      → ((x : Err) → r.0 ≢ panic x)
      → (out : Option Err) × (d' : Docker) × (r ≡ (ret out, d'))
  returned (ret out, d') h k = (out, d', refl)
  returned (panic x, d') h k = absurd (k x refl)
  returned (hang, d') h k = absurd (h refl)

  -- If no exec of the engine is found running in `fuel` polls in a row, and an open terminal
  -- ends, every attempt returns, whatever else fails, and it leaves a finished result.
  pub do_start-returns :
      (d : Docker)
      → (out : Option Err) × (d' : Docker) × (do_start engine host fuel d ≡ (ret out, d'))
        × IsFinished d'
  do_start-returns d =
      let (out, d', e) =
        returned (do_start engine host fuel d) (do_start-ends d)
          (λ x. do_start-panics engine host fuel x d) in
      (out, d', e, do_start-IsFinished engine host fuel d d' out e)

  -- If no exec of the engine is found running in `fuel` polls in a row, and an open terminal ends,
  -- the start of a command with `n` retries returns with a finished result, after at most `n + 1`
  -- attempts, of which every one but the last failed; if the last one failed too, no retry is
  -- left.
  pub start-returns :
      (n : ℕ) (d : Docker)
      → d.in_cmd.retry ≡ pos n
      → (out : Option Err) × (d' : Docker) × (start engine host fuel d ≡ (ret out, d'))
        × IsFinished d'
        × Attempts
            (do_start engine host fuel)
            attempt_failed
            (write_single_log retry_mark)
            n
            d
            out
            d'
  unfolding start retry_loop
  start-returns n d e =
      let (out, d', p) =
        retry_from-Returns (do_start engine host fuel) attempt_failed (write_single_log retry_mark)
          (λ s. let (o, t, q, _) = do_start-returns s in (o, t, q)) n d in
      let run : start engine host fuel d ≡ (ret out, d') =
        subst
          (λ r.
            retry_loop (do_start engine host fuel) attempt_failed (write_single_log retry_mark) r d
            ≡ (ret out, d'))
          (sym e) p in
      let (f, a) = start-Attempts engine host fuel n d d' out e run in (out, d', run, f, a)
