-- ===== src/Service/Invariant.antt =====
-- What holds of the service while goroutines act on it in any order.
use flow_agent_x.Prelude.{
  ◌+◌, ◌-◌, ◌<◌, ◌≡◌, ◌∙◌, ap, sym, refl, true, false, none, some, arith, is_some,
}
use mathlib.Core.Path.{subst}
use flow_agent_x.Prelude.Int.{is_positive}
use flow_agent_x.Prelude.Exec.{ret}
use flow_agent_x.Domain.Command.{ShellIn, ShellOut}
use flow_agent_x.Service.{Service, Deps, Options, Running, busy, idle, shell_out, send_cmd_out}
use flow_agent_x.Service.Manager.{on_busy_event, on_idle_event}
use flow_agent_x.Service.Shell.{prepare, drop_executor, init_shell_cmd}
use flow_agent_x.Service.Shell.Outcomes.{prepare_launch-accepts, with_executor}
use flow_agent_x.Service.Execute.{
  Shared, after_lock, launch_shell, launching, begin_shell, report_result, release_from,
  release_executor, release_fired, begin, finish, release, fire, Reach, here, next,
}

-- While a command runs the agent is busy and no idle timer can end it.
pub record IsGuarded (s : Service) : Type 0 where
  pub busy_status : is_some s.executor ≡ true → s.status ≡ busy
  pub no_timer : is_some s.executor ≡ true → s.timer ≡ none

-- The second service has an executor exactly if the first has one, the same status and timer.
abbrev Keeps : Service → Service → Type 0
Keeps s t = (is_some t.executor ≡ is_some s.executor) × (t.status ≡ s.status) × (t.timer ≡ s.timer)

-- Besides, no event on idle is due while a command runs, or while execShell holds the lock: then the
-- agent is busy and without a timer, and has no executor yet.
pub record IsOrderly (s : Shared) : Type 0 where
  pub guarded : IsGuarded s.service
  pub none_due : 0 < s.firing → is_some s.service.executor ≡ false
  pub none_held : 0 < s.firing → s.starting ≡ none
  pub held_free : is_some s.starting ≡ true → is_some s.service.executor ≡ false
  pub held_busy : is_some s.starting ≡ true → s.service.status ≡ busy
  pub held_no_timer : is_some s.starting ≡ true → s.service.timer ≡ none

-- The service once a command has ended and its executor is dropped.
abbrev pub after_end : ShellOut → Service → Service
after_end result s = drop_executor (send_cmd_out (shell_out result) s)

-- A command ends and drops the executor, the next command starts, and only then the event on idle of
-- the first is fired.
abbrev pub late_event : Deps → ShellOut → ShellIn → Shared → Shared
late_event deps result in' s = release_fired (
    launch_shell deps (init_shell_cmd deps.new_id in')
      (begin_shell deps in' (release_executor (report_result result s))))

module _ (deps : Deps) (result : ShellOut) (in' : ShellIn) (s : Shared) (e : Running) (x : Options)
    (running : s.service.executor ≡ some e)
    (prepared : (prepare deps
        (init_shell_cmd deps.new_id in')
        (on_busy_event (after_end result s.service))).0
      ≡ ret x)
    (initialised : deps.init x ≡ none) where
  abbrev ended : Shared
  ended = record s {
    service = after_end result s.service;
    releasing = s.releasing + 1 - 1;
    firing = s.firing + 1;
  }

  end_reached : release_executor (report_result result s) ≡ ended
  unfolding release_executor report_result
  end_reached = ap (λ o. release_from o (report_result result s)) running

  abbrev in1 : ShellIn
  in1 = init_shell_cmd deps.new_id in'

  abbrev begun : Shared
  begun = record ended { service = on_busy_event ended.service; starting = some in1 }

  begin_reached : begin_shell deps in' ended ≡ begun
  unfolding begin_shell drop_executor
  begin_reached = refl

  abbrev restarted : Shared
  restarted = record ended { service = with_executor deps x.cmd begun.service; starting = none }

  restart_reached : launch_shell deps in1 begun ≡ restarted
  unfolding launch_shell
  restart_reached =
      ap (λ p. after_lock in1 p.0 (record begun { service = p.1; starting = none }))
        (prepare_launch-accepts deps in1 begun.service x prepared initialised)

  begun_at : begin_shell deps in' (release_executor (report_result result s)) ≡ begun
  begun_at = ap (λ t. begin_shell deps in' t) end_reached ∙ begin_reached

  late_event_at : late_event deps result in' s ≡ release_fired restarted
  late_event_at =
      ap (λ t. release_fired (launch_shell deps in1 t)) begun_at ∙ ap release_fired restart_reached

  -- If a command runs, the lock is free, the agent is to exit when it is idle, and the next command can be prepared and
  -- initialised, then a state is reached in which that one runs while the status is idle and the timer
  -- runs that ends the agent: the first command ends and its executor is dropped, the second starts,
  -- and then the event on idle of the first is fired.
  pub idle_while_running :
      s.starting ≡ none
      → is_positive s.service.exit_on_idle ≡ true
      → let t = late_event deps result in' s in
        Reach deps s t
        × (is_some t.service.executor ≡ true)
        × (t.service.status ≡ idle)
        × (t.service.timer ≡ some s.service.exit_on_idle)
  idle_while_running unlocked positive =
      let (executor_there, idle_status, timed) = facts in
      (
        next
            (next (next (next (next here (finish e result running)) (release one)) (begin in' free))
              (launching in1 (ap (λ (t : Shared). t.starting) begun_at)))
            (fire due),
        subst (λ t. is_some t.service.executor ≡ true) (sym late_event_at) executor_there,
        subst (λ t. t.service.status ≡ idle) (sym late_event_at) idle_status,
        subst (λ t. t.service.timer ≡ some s.service.exit_on_idle) (sym late_event_at) timed,
      )
    where
      one : 0 < (report_result result s).releasing
      one = unfold report_result in omega (arith)

      free : (release_executor (report_result result s)).starting ≡ none
      free = ap (λ (t : Shared). t.starting) end_reached ∙ unlocked

      due :
          0
          < (launch_shell deps in1
              (begin_shell deps in' (release_executor (report_result result s)))).firing
      due =
          subst (λ t. 0 < (launch_shell deps in1 t).firing) (sym begun_at)
            (subst (λ (t : Shared). 0 < t.firing) (sym restart_reached) (omega (arith)))

      facts :
          let t = release_fired restarted in
          (is_some t.service.executor ≡ true)
          × (t.service.status ≡ idle)
          × (t.service.timer ≡ some s.service.exit_on_idle)
      facts =
          unfold release_fired on_idle_event on_busy_event drop_executor in
          rw positive (refl, refl, refl)
