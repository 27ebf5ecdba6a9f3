-- ===== src/Service/Execute.antt =====
-- service/cmd_service.go: dispatching a message, terminals, and stopping a command.
use flow_agent_x.Prelude.{
  ℕ, ◌+◌, ◌-◌, ◌<◌, ◌≡◌, true, false, Option, none, some, List, [], ◌∷◌, ◌++◌, if◌then◌else◌,
  is_some, ltb, length, drop, Text, codes,
}
use flow_agent_x.Prelude.Exec.{
  Err, errorf, cmd_unsupported_type, nil_dereference, Result, ok, err, Outcome, ret, panic, hang,
  Exec, pure, modify, ◌>>◌, ◌>>=◌,
}
use flow_agent_x.Domain.Command.{ShellIn, ShellOut}
use flow_agent_x.Service.{Service, Deps, Running, shell_out, tty_out, send_cmd_out}
use flow_agent_x.Service.Manager.{on_idle_event, on_busy_event}
use flow_agent_x.Service.Shell.{
  drop_executor, init_shell_cmd, failure_before_execute, prepare, launch, exec_shell,
}

-- The last constructor stands for every other text of the field.
pub data TtyAction : Type 0 where
  open_tty shell_tty close_tty other_action : TtyAction

pub record TtyIn : Type 0 where
  pub id : Text
  pub action : TtyAction
  pub input : Text

-- A decoded message. A terminal message whose own fields do not decode is `none`.
pub data CmdIn : Type 0 where
  shell : ShellIn → CmdIn
  tty : Option TtyIn → CmdIn
  kill close unsupported : CmdIn

abbrev pub action_text : TtyAction → Text
action_text open_tty = codes "OPEN"
action_text shell_tty = codes "SHELL"
action_text close_tty = codes "CLOSE"
action_text other_action = []

abbrev pub reply : TtyIn → TtyAction → Option Err → Service → Service
reply in' action e = send_cmd_out (
    tty_out (record {
      id = in'.id;
      action = action_text action;
      is_success = elim e [ none ↦ true | some _ ↦ false ];
      error = e;
    }))

-- What `execTty` leaves to be done beside its own reply: a goroutine that runs a terminal, or a
-- call that ends the terminal.
pub data TtyCall : Type 0 where
  start_tty : TtyIn → TtyCall
  stop_tty : TtyCall

abbrev pub no_cmd : Err
no_cmd = errorf (codes "No running cmd")

abbrev pub not_started : Err
not_started = errorf (codes "Tty not started, please send open cmd")

abbrev pub tty_in_size : ℕ
tty_in_size = 1000

-- A text is put in the channel of inputs, which blocks when it is full.
abbrev pub put_input : Text → Running → Exec Service (Option TtyCall)
put_input input e s =
    if ltb (length e.tty_in) tty_in_size
    then (ret none, record s { executor = some (record e { tty_in = e.tty_in ++ input ∷ [] }) })
    else (hang, s)

-- StopTty; its panic is recovered and answered.
abbrev pub ask_stop : TtyIn → Option Err → Exec Service (Option TtyCall)
ask_stop in' none s = (ret (some stop_tty), s)
ask_stop in' (some x) s = (ret none, reply in' in'.action (some x) s)

module _ (deps : Deps) where
  -- The switch on the action, for a running executor.
  unfoldable pub tty_action : TtyAction → TtyIn → Running → Exec Service (Option TtyCall)
  tty_action open_tty in' e s =
      if e.interacting
      then (ret none, reply in' in'.action none s)
      else (ret (some (start_tty in')), s)
  tty_action shell_tty in' e s =
      if e.interacting
      then put_input in'.input e s
      else (ret none, reply in' in'.action (some not_started) s)
  tty_action close_tty in' e s =
      if e.interacting
      then ask_stop in' (deps.stop_tty e) s
      else (ret none, reply in' in'.action (some not_started) s)
  tty_action other_action in' e s = (ret none, s)

  unfoldable pub tty_with : Option Running → TtyIn → Exec Service (Option TtyCall)
  unfolding tty_action
  tty_with none in' s = (ret none, reply in' in'.action (some no_cmd) s)
  tty_with (some e) in' s = tty_action in'.action in' e s

  unfoldable pub exec_tty : TtyIn → Exec Service (Option TtyCall)
  unfolding tty_with
  exec_tty in' s = tty_with s.executor in' s

unfoldable pub set_running : (Running → Running) → Service → Service
set_running f s = elim s.executor [ none ↦ s | some e ↦ record s { executor = some (f e) } ]

-- `onStarted`, the error path and the end of the goroutine that runs a terminal.
unfoldable pub tty_started : TtyIn → Service → Service
unfolding set_running
tty_started in' s = reply in' in'.action none (set_running (λ e. record e { interacting = true }) s)

unfoldable pub tty_failed : TtyIn → Err → Service → Service
tty_failed in' x s = reply in' in'.action (some x) s

unfoldable pub tty_exited : TtyIn → Service → Service
unfolding set_running
tty_exited in' s = reply in' close_tty none (set_running (λ e. record e { interacting = false }) s)

-- s.executor.Kill(), behind a test of s.executor without the lock.
abbrev pub kill_now : Option Running → Exec Service (Unit {0})
kill_now none s = (panic nil_dereference, s)
kill_now (some e) s = (ret tt, record s { executor = some (record e { killed = true }) })

unfoldable pub exec_kill : Deps → Exec Service (Unit {0})
exec_kill deps s =
    if is_some s.executor then (let t = deps.meanwhile s in kill_now t.executor t) else (ret tt, s)

unfoldable pub exec_close : Deps → Exec Service (Unit {0})
unfolding exec_kill
exec_close deps = exec_kill deps >> modify (λ s. record s { canceled = true })

-- `Execute`: a message that does not decode panics.
unfoldable pub execute : Deps → Result CmdIn → Exec Service (Option Err)
unfolding exec_tty exec_kill exec_close
execute deps (err e) s = (panic e, s)
execute deps (ok (shell in')) s = exec_shell deps in' s
execute deps (ok (tty none)) s = (ret none, s)
execute deps (ok (tty (some in'))) s = (exec_tty deps in' >> pure none) s
execute deps (ok kill) s = (exec_kill deps >> pure none) s
execute deps (ok close) s = (exec_close deps >> pure none) s
execute deps (ok unsupported) s = (ret (some cmd_unsupported_type), s)

-- The service with the goroutines that act on it: the call of execShell that holds the lock; and
-- without the lock the calls of execShell that have
-- failed and not reported it, the calls of release before their test of the executor, and those that
-- have dropped the executor and not fired the event on idle.
pub record Shared : Type 0 where
  pub service : Service
  pub starting : Option ShellIn
  pub failing : List (ShellIn × Err)
  pub releasing : ℕ
  pub firing : ℕ

abbrev pub after_lock : ShellIn → Outcome (Option Err) → Shared → Shared
after_lock in1 (ret r) s = s
after_lock in1 (panic e) s = record s { failing = (in1, e) ∷ s.failing }
after_lock in1 hang s = s

-- execShell as far as the event on busy: a command is refused, or the lock is held from then on.
unfoldable pub begin_shell : Deps → ShellIn → Shared → Shared
unfolding on_busy_event init_shell_cmd
begin_shell deps in' s = if is_some s.service.executor then s else record s {
  service = on_busy_event s.service;
  starting = some (init_shell_cmd deps.new_id in');
}

-- The rest of what execShell does under the lock.
unfoldable pub launch_shell : Deps → ShellIn → Shared → Shared
unfolding prepare launch
launch_shell deps in1 s =
    let (o, t) = (prepare deps in1 >>= launch deps) s.service in
    after_lock in1 o (record s { service = t; starting = none })

unfoldable pub report_failure : Deps → ShellIn → Err → List (ShellIn × Err) → Shared → Shared
unfolding failure_before_execute
report_failure deps in1 e others s = record s {
  service = send_cmd_out (shell_out (failure_before_execute deps in1 e)) s.service;
  failing = others;
  releasing = s.releasing + 1;
}

-- The end of the goroutine that ran a command: its result is sent.
unfoldable pub report_result : ShellOut → Shared → Shared
report_result result s = record s {
  service = send_cmd_out (shell_out result) s.service;
  releasing = s.releasing + 1;
}

-- release as far as the executor, and its event.
abbrev pub release_from : Option Running → Shared → Shared
release_from none s = record s { releasing = s.releasing - 1 }
release_from (some e) s = record s {
  service = drop_executor s.service;
  releasing = s.releasing - 1;
  firing = s.firing + 1;
}

unfoldable pub release_executor : Shared → Shared
release_executor s = release_from s.service.executor s

unfoldable pub release_fired : Shared → Shared
unfolding on_idle_event
release_fired s = record s { service = on_idle_event s.service; firing = s.firing - 1 }

-- A change of the service by a terminal, by a call of execKill that finds the executor, and by
-- execClose.
pub data Inside (deps : Deps) (s : Service) : Service → Type 0 where
  terminal :
      (in' : TtyIn) (r : Option TtyCall) (t : Service)
      → exec_tty deps in' s ≡ (ret r, t)
      → Inside deps s t
  killed : Inside deps s (set_running (λ e. record e { killed = true }) s)
  canceled : Inside deps s (record s { canceled = true })
  tty_start : (in' : TtyIn) → Inside deps s (tty_started in' s)
  tty_fail : (in' : TtyIn) (x : Err) → Inside deps s (tty_failed in' x s)
  tty_exit : (in' : TtyIn) → Inside deps s (tty_exited in' s)
  tty_read : Inside deps s (set_running (λ e. record e { tty_in = drop 1 e.tty_in }) s)

-- What happens to the service, in any order and by any number of callers.
pub data Step (deps : Deps) (s : Shared) : Shared → Type 0 where
  begin : (in' : ShellIn) → s.starting ≡ none → Step deps s (begin_shell deps in' s)
  launching : (in1 : ShellIn) → s.starting ≡ some in1 → Step deps s (launch_shell deps in1 s)
  report :
      (in1 : ShellIn) (e : Err) (before after : List (ShellIn × Err))
      → s.failing ≡ before ++ (in1, e) ∷ after
      → Step deps s (report_failure deps in1 e (before ++ after) s)
  finish :
      (e : Running) (result : ShellOut)
      → s.service.executor ≡ some e
      → Step deps s (report_result result s)
  release : 0 < s.releasing → Step deps s (release_executor s)
  fire : 0 < s.firing → Step deps s (release_fired s)
  inside : {t : Service} → Inside deps s.service t → Step deps s (record s { service = t })

pub data Reach (deps : Deps) (s : Shared) : Shared → Type 0 where
  here : Reach deps s s
  next : {t u : Shared} → Reach deps s t → Step deps t u → Reach deps s u

-- A call of execShell gets the lock while no release is between the executor and its event.
abbrev pub OnTime : {deps : Deps} {s t : Shared} → Step deps s t → Type 0
OnTime {s = s} (begin in' h) = s.firing ≡ 0
OnTime (launching in1 h) = Unit
OnTime (report in1 e before after h) = Unit
OnTime (finish e result h) = Unit
OnTime (release h) = Unit
OnTime (fire h) = Unit
OnTime (inside h) = Unit

abbrev pub AllOnTime : {deps : Deps} {s t : Shared} → Reach deps s t → Type 0
AllOnTime here = Unit
AllOnTime (next r st) = AllOnTime r × OnTime st
