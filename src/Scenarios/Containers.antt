-- ===== src/Scenarios/Containers.antt =====
-- executor/docker.go and executor/executor.go at concrete inputs.
use flow_agent_x.Prelude.{
  ℕ, suc, ◌≡◌, ◌≢◌, refl, arith, none, some, List, [], ◌∷◌, true, false, Bool, Option, Text, codes,
  text_eq, leb, is_some, if◌then◌else◌,
}
use flow_agent_x.Prelude.Exec.{Err, canceled, Result, ok, Outcome, ret, Exec}
use flow_agent_x.Util.Template.{parse_variables_from}
use flow_agent_x.Domain.Variables.{resolve}
use flow_agent_x.Domain.Docker.{
  DockerConfig, DockerOption, DockerVolume, has_image, set_default_network, to_config,
  to_runtime_config,
}
use flow_agent_x.Executor.Docker.{Docker, Call, write_single_log, retry_mark}
use flow_agent_x.Executor.Docker.Images.{pull_image}
use flow_agent_x.Executor.Docker.Containers.{start_container}
use flow_agent_x.Executor.Docker.Config.{
  Setting, init_config, split_options, runtime_option, runtime_config,
}
use flow_agent_x.Executor.Docker.Config.Nil.{Stored, runtime_not_first}
use flow_agent_x.Executor.Docker.Run.{do_start, attempt_failed, start}
use flow_agent_x.Executor.Docker.Run.Finish.{IsFinished}
use flow_agent_x.Executor.Retry.{retry_from, Attempts, Returns}
use flow_agent_x.Executor.Docker.Run.Ends.{Runs}
use flow_agent_x.Executor.Docker.Run.Returns.{do_start-returns, start-returns}
use flow_agent_x.Executor.Docker.Init.{Site, init, init-Stored}
use flow_agent_x.Executor.Docker.Tty.{start_tty}
use flow_agent_x.Executor.Docker.Volumes.{
  run_cmd, init_volume_data, init_network, init_workspace_volume,
}
use flow_agent_x.Executor.Docker.Volumes.Removed.{Removes, run_cmd-Removes}
use flow_agent_x.Domain.Volumes.{new_volumes_from_string}
use flow_agent_x.Domain.Volumes.Parsed.{
  IsPlainVolume, volumes_text, new_volumes_from_string-volumes_text,
}
use flow_agent_x.Scenarios.{flaky_engine, machine, command, executor, option}

-- No exec of the engine is found running.
stops : (h : List Call) (eid : Text) → ¬ Runs flaky_engine machine 1 h eid
stops h eid (state, e, f, _) = cc

abbrev attempt : Docker → Outcome (Option Err) × Docker
attempt = do_start flaky_engine machine 1

start_example :
    (out : Option Err) × (d' : Docker) × (start flaky_engine machine 1 executor ≡ (ret out, d'))
    × IsFinished d'
    × Attempts attempt attempt_failed (write_single_log retry_mark) 1 executor out d'
start_example = start-returns flaky_engine machine 1 stops refl 1 executor refl

do_start_example :
    (out : Option Err) × (d' : Docker) × (attempt executor ≡ (ret out, d')) × IsFinished d'
do_start_example = do_start-returns flaky_engine machine 1 stops refl executor

abbrev started : Outcome (Unit {0}) × Docker
started = start_container flaky_engine executor

abbrev setting : Setting
setting = record {
  flow_id = codes "f";
  workspace = codes "/ws";
  volumes = [];
  has_sock = false;
  pod_ip = none;
  vars = [];
  secret_vars = [];
  environment = λ name. [];
  first = [];
  second = [];
}

abbrev ports_of : List Text → Result (List Text)
ports_of ports = ok ports

abbrev agent_option : DockerOption
agent_option = record option { is_runtime = true }

abbrev made : Outcome (List (Option DockerConfig))
made = init_config 9 ports_of setting (option ∷ agent_option ∷ [])

abbrev late_runtime : Docker
late_runtime = record executor { configs = elim made [ ret configs ↦ configs | _ ↦ [] ] }

made_returns : made ≡ ret late_runtime.configs
unfolding init_config to_config parse_variables_from set_default_network text_eq resolve
    to_runtime_config
made_returns = refl

runtime_not_first_example : pull_image flaky_engine late_runtime ≢ (ret tt, executor)
runtime_not_first_example =
    runtime_not_first 9 ports_of setting option [] agent_option [] flaky_engine late_runtime
      executor refl made_returns

-- An attempt that succeeds from the third on.
abbrev third : Exec ℕ (Option Err)
third n = (ret (if leb 2 n then none else some canceled), n)

abbrev has_error : Option Err → ℕ → Bool
has_error out n = is_some out

third_run : retry_from third has_error suc 5 0 ≡ (ret none, 2)
unfolding retry_from
third_run = refl

third-Returns : (n : ℕ) → Returns third has_error suc third n
third-Returns n = (if leb 2 n then none else some canceled, n, refl)

abbrev volume : DockerVolume
volume = record {
  name = codes "v";
  dest = codes "/d";
  script = codes "s";
  image = codes "i";
  init = codes "x";
}

run_cmd_example : Removes flaky_engine volume executor (run_cmd flaky_engine volume executor)
run_cmd_example = run_cmd-Removes flaky_engine volume executor

volume-IsPlainVolume : IsPlainVolume volume
volume-IsPlainVolume = record {
  name = ((omega arith, tt), (omega arith, tt), (omega arith, tt));
  dest = (
    (omega arith, (omega arith, tt)),
    (omega arith, (omega arith, tt)),
    (omega arith, (omega arith, tt)),
  );
  script = ((omega arith, tt), (omega arith, tt), (omega arith, tt));
  image = ((omega arith, tt), (omega arith, tt), (omega arith, tt));
  init = ((omega arith, tt), (omega arith, tt), (omega arith, tt));
}

new_volumes_example :
    new_volumes_from_string (volumes_text volume (volume ∷ [])) ≡ ret (volume ∷ volume ∷ [])
new_volumes_example =
    new_volumes_from_string-volumes_text volume (volume ∷ []) volume-IsPlainVolume
      (volume-IsPlainVolume, tt)

abbrev terminal : Outcome (Option Err) × Docker
terminal = start_tty flaky_engine machine 2 (codes "t") started.1

terminal_returns : terminal ≡ (ret none, terminal.1)
unfolding start_tty start_container
terminal_returns = refl

started_free : started.1.interacting ≡ false
unfolding start_container
started_free = refl

abbrev site : Site
site = record {
  client = none;
  now = 9;
  agent_id = codes "a";
  workspace = codes "/ws";
  from_volume = true;
  flow_id = codes "f";
  has_sock = false;
  pod_ip = none;
  secret_vars = [];
  environment = λ name. [];
  first = [];
  second = [];
}

abbrev unprepared : Docker
unprepared = record executor {
  in_cmd = record command { dockers = option ∷ agent_option ∷ [] };
  volumes = volume ∷ [];
}

abbrev prepared : Outcome (Option Err) × Docker
prepared = init flaky_engine 9 ports_of site unprepared

prepared_returns : prepared ≡ (ret none, prepared.1)
unfolding init init_volume_data init_network init_workspace_volume split_options runtime_option
    runtime_config has_image to_config parse_variables_from set_default_network text_eq resolve
    to_runtime_config
prepared_returns = refl

init-Stored_example : Stored prepared.1.in_cmd.dockers prepared.1.configs
init-Stored_example =
    init-Stored flaky_engine 9 ports_of site unprepared prepared.1 prepared_returns
