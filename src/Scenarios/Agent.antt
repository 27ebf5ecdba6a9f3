-- ===== src/Scenarios/Agent.antt =====
-- service/cmd_service.go and config/manager.go at concrete inputs.
use flow_agent_x.Prelude.{
  ℕ, ◌≡◌, refl, none, some, true, false, is_some, [], ◌∷◌, inr, if◌then◌else◌, leb, codes,
}
use flow_agent_x.Prelude.Int.{ℤ, pos}
use flow_agent_x.Prelude.Exec.{canceled, foreign, Result, ok, err}
use flow_agent_x.Domain.Command.{ShellIn, ShellOut}
use flow_agent_x.Domain.Variables.{new_variables}
use flow_agent_x.Domain.Secret.{text_config}
use flow_agent_x.Service.{Service, Deps, Options, Running, busy, idle}
use flow_agent_x.Service.Manager.{on_busy_event, reconnect, max_reconnects}
use flow_agent_x.Service.Manager.Timer.{
  event_on_idle, event_on_busy, fire_events, Timed, fire_events-Timed, Tried, reconnect-Tried,
}
use flow_agent_x.Service.Shell.{prepare, init_shell_cmd, drop_executor, failure_before_execute}
use flow_agent_x.Service.Execute.{Shared, begin_shell, launch_shell, Reach}
use flow_agent_x.Service.Invariant.{late_event, idle_while_running}
use flow_agent_x.Scenarios.{command}

abbrev pub deps : Deps
deps = record {
  new_id = codes "n";
  load_plugin = λ name. none;
  download = λ in' c. ([], c);
  get_secret = λ name. err (foreign 1);
  get_config = λ name. ok (text_config name []);
  init = λ options. none;
  stop_tty = λ e. none;
  meanwhile = λ s. s;
  now = 9;
}

abbrev pub agent : Service
agent = record {
  executor = none;
  status = idle;
  timer = some (pos 60);
  exit_on_idle = pos 60;
  canceled = false;
  sent = [];
}

abbrev start_state : Shared
start_state = record { service = agent; starting = none; failing = []; releasing = 0; firing = 0 }

-- A command is started.
abbrev started_state : Shared
started_state =
    launch_shell deps (init_shell_cmd (codes "n") command) (begin_shell deps command start_state)

abbrev executor : Running
executor = record { in_cmd = command; killed = false; interacting = false; tty_in = [] }

abbrev running_state : Shared
running_state = record start_state {
  service = record agent { executor = some executor; status = busy; timer = none };
}

abbrev result : ShellOut
result = failure_before_execute deps command canceled

abbrev options : Options
options = record {
  cmd = init_shell_cmd (codes "n") command;
  cache_src_dir = [];
  secret_vars = new_variables;
  config_vars = new_variables;
}

idle_while_running_example :
    let t = late_event deps result command running_state in
    Reach deps running_state t
    × (is_some t.service.executor ≡ true)
    × (t.service.status ≡ idle)
    × (t.service.timer ≡ some (pos 60))
unfolding prepare on_busy_event drop_executor init_shell_cmd
idle_while_running_example =
    idle_while_running deps result command running_state executor options refl refl refl refl refl

-- The server refuses the secret that the command names.
abbrev with_secret : ShellIn
with_secret = record command { secrets = codes "s" ∷ [] }

agent-Timed : Timed agent
unfolding Timed
agent-Timed = inr (refl, refl)

fire_events_example : Timed (fire_events (event_on_busy ∷ event_on_idle ∷ []) agent)
fire_events_example = fire_events-Timed (event_on_busy ∷ event_on_idle ∷ []) agent agent-Timed

-- The third attempt to connect succeeds.
abbrev connect : ℕ → Result ℤ
connect n = if leb 2 n then ok (pos 60) else err canceled

reconnect_example : Tried connect max_reconnects 0 (reconnect connect)
reconnect_example = reconnect-Tried connect
