-- ===== src/Scenarios.antt =====
-- Concrete inputs for the models of executor/, service/ and config/: an engine, a machine, a
-- command and an agent. The modules below run the models on them.
pub mod Containers
pub mod Agent
pub mod Texts
pub mod Server
pub mod Shells
pub mod Setup
pub mod Archives
pub mod Messages
pub mod Tars
use flow_agent_x.Prelude.{
  ℕ, true, false, if◌then◌else◌, none, some, List, [], ◌∷◌, length, leb, Text, codes,
}
use flow_agent_x.Prelude.Int.{pos}
use flow_agent_x.Prelude.Exec.{foreign, ok, err}
use flow_agent_x.Domain.Docker.{DockerOption, DockerConfig}
use flow_agent_x.Domain.Command.{ShellIn, new_shell_output}
use flow_agent_x.Executor.Docker.{Docker, Engine, Host, not_found}

-- An engine without images, whose second call, the first pull of an attempt, fails. Its scripts
-- end at once, with exit code 0.
abbrev pub flaky_engine : Engine
flaky_engine = record {
  repo_tags = λ h. ok [];
  pull = λ h name. if leb (length h) 1 then err (foreign 7) else ok [];
  create = λ h c. ok (codes "c1");
  start = λ h id. none;
  inspect = λ h id. not_found;
  restart = λ h id. none;
  new_exec = λ h id. ok (codes "e1");
  attach = λ h id. none;
  start_exec = λ h id. none;
  exec_state = λ h id. ok (record { running = false; exit_code = pos 0; pid = 42 });
  address = λ h id. ok ([], codes "10.0.0.2" ∷ []);
  volumes_named = λ h name. ok [];
  new_volume = λ h name. ok name;
  create_init = λ h v. ok (codes "i1");
  networks_named = λ h name. ok [];
  new_network = λ h name. ok name;
  copy_in = λ h id. none;
  copy_out = λ h id. ok (codes "NAME=flow\n");
}

abbrev pub machine : Host
machine = record {
  archive = λ path. ok [];
  read_dir = λ path. ok [];
  temp_dir = ok (codes "/tmp");
  now = 9;
  tty_ends = true;
  tools = [];
}

abbrev pub command : ShellIn
command = record {
  id = codes "1";
  flow_id = codes "f";
  job_id = codes "j";
  allow_failure = false;
  plugin = [];
  cache = none;
  dockers = [];
  bash = codes "true" ∷ [];
  pwsh = [];
  retry = pos 1;
  timeout = pos 0;
  inputs = some [];
  env_filters = [];
  secrets = [];
  configs = [];
}

abbrev pub config : DockerConfig
config = record {
  name = codes "box";
  auth = none;
  image = codes "a";
  env = [];
  entrypoint = codes "/bin/bash" ∷ [];
  cmd = [];
  ports = [];
  user = [];
  attach = true;
  network_mode = [];
  working_dir = [];
  binds = [];
  is_stop = false;
  is_delete = true;
  container_id = [];
}

abbrev pub executor : Docker
executor = record {
  in_cmd = command;
  result = new_shell_output command;
  configs = some config ∷ [];
  job_dir = codes "/ws/f";
  plugin_dir = [];
  cache_input_dir = [];
  cache_output_dir = [];
  volumes = [];
  removed = [];
  tty_exec_id = [];
  tty_id = [];
  interacting = false;
  vars = [];
  stdout = [];
  calls = [];
}

abbrev pub option : DockerOption
option = record {
  image = codes "a";
  auth = [];
  name = codes "box";
  entrypoint = [];
  command = [];
  ports = [];
  network = [];
  environment = [];
  user = [];
  is_runtime = false;
  is_stop_container = false;
  is_delete_container = true;
  container_id = [];
  auth_content = none;
}
