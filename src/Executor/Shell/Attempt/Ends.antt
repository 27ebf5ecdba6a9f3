-- ===== src/Executor/Shell/Attempt/Ends.antt =====
-- The start of a command in a shell returns; and what a timeout does to it.
use flow_agent_x.Prelude.{ℕ, ◌≡◌, ◌≢◌, ◌∙◌, refl, true, false, Option, none, some, arith}
use flow_agent_x.Prelude.Int.{ℤ}
use flow_agent_x.Prelude.Exec.{Err, deadline_exceeded, Outcome, ret, hang, Exec, ◌>>=◌}
use flow_agent_x.Domain.Command.{timeout, exit_code_timeout, is_finish_status}
use flow_agent_x.Executor.Status.{status_of_error}
use flow_agent_x.Executor.Retry.{Attempts}
use flow_agent_x.Executor.Shell.{retry_mark, cut, cut_late, Machine, Shell, write_single_log}
use flow_agent_x.Executor.Shell.Attempt.{
  attempt_failed, kill_process, record_error, handle_errors, export_env, wait_for_tty, settle,
  after_exit, context_ends, killed_late, late_update, wait_command, do_start,
}

-- `m` ends and leaves the result alone.
abbrev Keeps : Exec Shell (Unit {0}) → Shell → Type 0
Keeps m s = ((m s).0 ≢ hang) × ((m s).1.result ≡ s.result)

module _ (machine : Machine) where
  abbrev Written : Outcome (Unit {0}) × Shell → Shell → Type 0
  Written r s = (t : Shell) × (r ≡ (ret tt, t)) × (t.result ≡ s.result)

  abbrev pub Tries : ℕ → Shell → Option Err → Shell → Type 0
  Tries = Attempts (do_start machine) attempt_failed (write_single_log retry_mark)

  -- What the end of an attempt needs of the state before.
  export_env-keeps :
      (s : Shell)
      → ((export_env machine s).result.status ≡ s.result.status)
        × ((export_env machine s).result.code ≡ s.result.code)
        × ((export_env machine s).watched ≡ s.watched)
        × ((export_env machine s).context_err ≡ s.context_err)
  unfolding export_env
  export_env-keeps s = ground arith

  kill_process-keeps :
      (s : Shell)
      → ((kill_process machine s).result ≡ s.result)
        × ((kill_process machine s).watched ≡ s.watched)
  unfolding kill_process
  kill_process-keeps s = ground arith

  module _ (ends : machine.tty_ends ≡ true) where
    tty_over : (s : Shell) → wait_for_tty machine s ≡ (ret tt, s)
    unfolding wait_for_tty
    tty_over s = ground arith

    after_exit-settle :
        (code : ℤ) (s : Shell)
        → after_exit machine code s ≡ settle machine code (export_env machine s)
    unfolding after_exit
    after_exit-settle code s = rw (tty_over (export_env machine s), ◌>>=◌) refl

    settle_finished :
        (code : ℤ) (s : Shell)
        → is_finish_status s.result.status ≡ true
        → settle machine code s ≡ (ret none, s)
    unfolding settle
    settle_finished code s h = rw h refl

    settle_failed :
        (code : ℤ) (s : Shell)
        → is_finish_status s.result.status ≡ false
        → ((settle machine code s).0 ≡ ret s.context_err)
          × ((settle machine code s).1.watched ≡ s.watched)
    unfolding settle
    settle_failed code s h = rw h (refl, refl)

    cut_timeout :
        (s : Shell)
        → s.watched ≡ true
        → ((context_ends machine deadline_exceeded s).result.status ≡ timeout)
          × ((context_ends machine deadline_exceeded s).result.code ≡ exit_code_timeout)
    unfolding context_ends handle_errors record_error status_of_error
    cut_timeout s w = rw w (refl, refl)

    killed_late-keeps :
        (s : Shell)
        → ((killed_late machine deadline_exceeded s).result ≡ s.result)
          × ((killed_late machine deadline_exceeded s).watched ≡ s.watched)
          × ((killed_late machine deadline_exceeded s).context_err ≡ some deadline_exceeded)
    unfolding killed_late
    killed_late-keeps s = ground (arith, kill_process-keeps s)

    late_update-watched : (e : Err) (s : Shell) → (late_update machine e s).watched ≡ false
    unfolding late_update record_error
    late_update-watched e s = ground arith

    in_time :
        (code : ℤ) (s : Shell)
        → s.watched ≡ true
        → (t : Shell) × (wait_command machine (cut deadline_exceeded code) s ≡ (ret none, t))
          × (t.result.status ≡ timeout)
          × (t.result.code ≡ exit_code_timeout)
          × (attempt_failed none t ≡ false)
    unfolding wait_command is_finish_status
    in_time code s w =
        let c = context_ends machine deadline_exceeded s in
        let (p, q) = cut_timeout s w in
        let (a, b, _, _) = export_env-keeps c in
        let status : (export_env machine c).result.status ≡ timeout = a ∙ p in
        (
          export_env machine c,
          after_exit-settle code c ∙ settle_finished code (export_env machine c) (rw status refl),
          status,
          b ∙ q,
          rw status refl,
        )

    too_late :
        (code : ℤ) (s : Shell)
        → is_finish_status s.result.status ≡ false
        → (t : Shell) × (out : Option Err) × (wait_command machine
              (cut_late deadline_exceeded code)
              s
            ≡ (ret out, t))
          × (attempt_failed out t ≡ true)
          × (t.watched ≡ false)
    unfolding wait_command
    too_late code s f =
        let c = killed_late machine deadline_exceeded s in
        let (p, _, q) = killed_late-keeps s in
        let (a, _, _, d) = export_env-keeps c in
        let (k, _) = settle_failed code (export_env machine c) (rw (a, p) f) in
        let u = (settle machine code (export_env machine c)).1 in
        (
          late_update machine deadline_exceeded u,
          some deadline_exceeded,
          rw (after_exit-settle code c, k, d, q) refl,
          refl,
          late_update-watched deadline_exceeded u,
        )

  -- A timeout of a watched command whose watcher acts before the shell's end is seen: the attempt
  -- returns no error, with the status and the code of a timeout, and is not tried again. Where the
  -- shell's end is seen first, the same timeout counts as a failure of the attempt, which the loop
  -- tries again, if the command has retries, and with no watcher left to end that try.
  pub timeout_race :
      (code : ℤ) (s : Shell)
      → machine.tty_ends ≡ true
      → s.watched ≡ true
      → is_finish_status s.result.status ≡ false
      → ((t : Shell) × (wait_command machine (cut deadline_exceeded code) s ≡ (ret none, t))
          × (t.result.status ≡ timeout)
          × (t.result.code ≡ exit_code_timeout)
          × (attempt_failed none t ≡ false))
        × ((t : Shell) × (out : Option Err) × (wait_command machine
                (cut_late deadline_exceeded code)
                s
              ≡ (ret out, t))
            × (attempt_failed out t ≡ true)
            × (t.watched ≡ false))
  timeout_race code s ends w f = (in_time ends code s w, too_late ends code s f)
