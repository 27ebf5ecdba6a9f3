-- ===== src/Executor/Shell/Tty.antt =====
-- executor/shell.go, executor/shell_bash.go: the terminal of a command in a shell.
use flow_agent_x.Prelude.{
  ◌≡◌, refl, true, false, Option, none, some, [], if◌then◌else◌, Text, codes, arith,
}
use flow_agent_x.Prelude.Exec.{Err, errorf, nil_dereference, ret, panic, Exec, must, recover, ◌>>=◌}
use flow_agent_x.Executor.Shell.{spawn, kill_tty, Machine, Shell, act, note}
use flow_agent_x.Executor.Shell.Attempt.{command_env}

abbrev pub ongoing : Err
ongoing = errorf (codes "interaction is ongoning")

unfoldable pub forget_tty : Shell → Shell
forget_tty s = record s { tty = false; tty_id = [] }

module _ (machine : Machine) where
  -- StartTty behind its guard, until the terminal runs
  unfoldable pub open_tty : Text → Exec Shell (Option Err)
  unfolding command_env
  open_tty id s =
      (act (spawn s.job_dir (command_env machine s)) machine.launch
          >>= must
          >>= (λ _ t. (ret none, record t { tty = true; tty_id = id; interacting = true })))
        s

  unfoldable pub guarded_tty : Text → Exec Shell (Option Err)
  unfolding open_tty
  guarded_tty id s = if s.interacting then (panic ongoing, s) else open_tty id s

  -- StartTty as far as the call of onStarted, or its end if it fails before. What is deferred clears
  -- the terminal after every end, also after that of the guard.
  unfoldable pub start_tty : Text → Exec Shell (Option Err)
  unfolding guarded_tty forget_tty
  start_tty id = recover (λ e s. (ret (some e), forget_tty s)) (guarded_tty id)

-- The end of a terminal that has run.
unfoldable pub end_tty : Shell → Shell
unfolding forget_tty
end_tty s = forget_tty (record s { interacting = false })

unfoldable pub stop_tty : Exec Shell (Unit {0})
stop_tty s =
    if s.interacting
    then (if s.tty then (ret tt, note kill_tty s) else (panic nil_dereference, s))
    else (ret tt, s)

-- An attempt to open a second terminal fails, as it means to, but also forgets the first one: its
-- id is gone, it still counts as open, and the attempt to stop it panics.
pub second_start_tty :
    (machine : Machine) (id : Text) (s : Shell)
    → s.interacting ≡ true
    → (t : Shell) × (start_tty machine id s ≡ (ret (some ongoing), t))
      × (t.interacting ≡ true)
      × (t.tty_id ≡ [])
      × (stop_tty t ≡ (panic nil_dereference, t))
unfolding start_tty guarded_tty stop_tty
second_start_tty machine id s h = (forget_tty s, ground arith, h, refl, ground arith)
