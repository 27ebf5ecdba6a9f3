-- ===== src/Executor/Status.antt =====
-- executor/executor.go: how the result of a command changes. The handling of an error is that of
-- executor/docker.go and executor/shell.go.
use flow_agent_x.Prelude.{
  ℕ, ◌≡◌, refl, Bool, true, ◌||◌, inl, inr, Option, none, some, if◌then◌else◌, Bool-cases,
}
use flow_agent_x.Prelude.Int.{ℤ, is_zero}
use flow_agent_x.Prelude.Exec.{Err, exit_status, deadline_exceeded, canceled}
use flow_agent_x.Domain.Command.{
  running, success, exception, killed, timeout, ShellOut, exit_code_timeout, exit_code_killed,
  is_finish_status,
}

unfoldable pub to_start_status : ℕ → ShellOut → ShellOut
to_start_status pid r = record r { status = running; process_id = pid }

-- `now` is the clock's reading.
unfoldable pub to_error_status : ℕ → Err → ShellOut → ShellOut
to_error_status now e r = record r { status = exception; error = some e; finish_at = now }

unfoldable pub to_timeout_status : ℕ → ShellOut → ShellOut
to_timeout_status now r = record r { status = timeout; code = exit_code_timeout; finish_at = now }

unfoldable pub to_killed_status : ℕ → ShellOut → ShellOut
to_killed_status now r = record r { status = killed; code = exit_code_killed; finish_at = now }

unfoldable pub to_finish_status : ℕ → Bool → ℤ → ShellOut → ShellOut
unfolding to_error_status
to_finish_status now allow_failure exit_code r =
    let r' = record r { finish_at = now; code = exit_code } in
    if is_zero exit_code || allow_failure
    then record r' { status = success }
    else to_error_status now (exit_status exit_code) r'

-- The status and the returned error of `handleErrors`, in both executors: a timeout and a kill are
-- results of their own, anything else is an exception and is returned.
unfoldable pub status_of_error : ℕ → Err → ShellOut → ShellOut × Option Err
unfolding to_timeout_status to_killed_status to_error_status
status_of_error now deadline_exceeded r = (to_timeout_status now r, none)
status_of_error now canceled r = (to_killed_status now r, none)
status_of_error now e r = (to_error_status now e r, some e)

-- After any exit code the result is finished, holds the code, and is a success exactly for exit
-- code 0 or for a command that may fail.
pub to_finish_status-finished :
    (now : ℕ) (allow : Bool) (code : ℤ) (r : ShellOut)
    → let r' = to_finish_status now allow code r in
      (is_finish_status r'.status ≡ true)
      × (r'.code ≡ code)
      × (r'.finish_at ≡ now)
      × ((r'.status ≡ success → (is_zero code || allow) ≡ true)
          × ((is_zero code || allow) ≡ true → r'.status ≡ success))
unfolding to_finish_status is_finish_status
to_finish_status-finished now allow code r = elim (Bool-cases (is_zero code || allow)) [
  | inl e ↦ rw e (refl, refl, refl, (λ _. refl, λ _. refl))
  | inr e ↦ rw e (refl, refl, refl, (λ h. cc, λ h. cc))
]

-- After any error the result is finished.
pub status_of_error-finished :
    (now : ℕ) (e : Err) (r : ShellOut) → is_finish_status (status_of_error now e r).0.status ≡ true
unfolding status_of_error is_finish_status
status_of_error-finished now deadline_exceeded r = refl
status_of_error-finished now e r = refl
