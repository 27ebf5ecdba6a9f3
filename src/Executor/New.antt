-- ===== src/Executor/New.antt =====
-- executor/executor.go: NewExecutor, and what a new executor of each kind starts with.
use flow_agent_x.Prelude.{false, Option, none, some, List, [], Text, if◌then◌else◌}
use flow_agent_x.Domain.Variables.{Variables, new_variables, connect_vars}
use flow_agent_x.Domain.Docker.{DockerVolume}
use flow_agent_x.Domain.Command.{ShellIn, has_docker_option, new_shell_output}
use flow_agent_x.Executor.Docker.{Docker}
use flow_agent_x.Executor.Shell.{Shell}

pub record Settings : Type 0 where
  pub workspace : Text
  pub plugin_dir : Text
  pub cache_src_dir : Text
  pub cmd : ShellIn
  pub vars : Option Variables  -- none for nil
  pub secret_vars : Variables
  pub config_vars : Variables
  pub volumes : List DockerVolume

pub data Executor : Type 0 where
  in_docker : Docker → Executor
  in_shell : Shell → Executor

abbrev pub or_new : Option Variables → Variables
or_new none = new_variables
or_new (some v) = v

abbrev pub or_empty : Option Variables → Variables
or_empty none = []
or_empty (some v) = v

unfoldable pub base_vars : Settings → Variables
base_vars s = connect_vars (or_new s.vars) (or_empty s.cmd.inputs)

unfoldable pub new_docker : Settings → Docker
unfolding base_vars
new_docker s = record {
  in_cmd = s.cmd;
  result = new_shell_output s.cmd;
  configs = [];
  job_dir = [];
  plugin_dir = s.plugin_dir;
  cache_input_dir = s.cache_src_dir;
  cache_output_dir = [];
  volumes = s.volumes;
  removed = [];
  tty_exec_id = [];
  tty_id = [];
  interacting = false;
  vars = base_vars s;
  stdout = [];
  calls = [];
}

unfoldable pub new_shell : Settings → Shell
unfolding base_vars
new_shell s = record {
  in_cmd = s.cmd;
  result = new_shell_output s.cmd;
  workspace = s.workspace;
  bin_dir = [];
  job_dir = [];
  env_file = [];
  cache_input_dir = s.cache_src_dir;
  cache_output_dir = [];
  volumes = s.volumes;
  vars = base_vars s;
  secret_vars = s.secret_vars;
  config_vars = s.config_vars;
  command = false;
  tty = false;
  tty_id = [];
  interacting = false;
  watched = false;
  context_err = none;
  stdout = [];
  acts = [];
}

unfoldable pub new_executor : Settings → Executor
unfolding new_docker new_shell
new_executor s =
    if has_docker_option s.cmd then in_docker (new_docker s) else in_shell (new_shell s)
