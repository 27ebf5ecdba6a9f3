-- ===== src/Service/Startup.antt =====
-- config/manager.go: the start of the agent. The environment of the process, the ports and the
-- directories of the machine, and the client are parameters.
use flow_agent_x.Prelude.{
  ℕ, Bool, false, Option, none, some, List, [], ◌∷◌, if◌then◌else◌, Text, codes, is_empty,
}
use flow_agent_x.Prelude.Int.{ℤ, pos, negsuc}
use flow_agent_x.Prelude.Exec.{Result, ok, err, Outcome, ret, panic, chain}
use flow_agent_x.Domain.Docker.{DockerVolume}
use flow_agent_x.Domain.Volumes.{new_volumes_from_string}
use flow_agent_x.Util.Platform.{os_name, byte_to_mb}
use flow_agent_x.Service.{Service, idle}
use flow_agent_x.Service.Manager.{on_idle_event}

-- domain/agent.go: AgentInit and the settings of the command line
pub record AgentInit : Type 0 where
  pub is_k8s_cluster : Bool
  pub is_docker : Bool
  pub port : ℤ
  pub os : Text
  pub status : Text

pub record Flags : Type 0 where
  pub port : ℤ
  pub profile_enabled : Text
  pub k8s_cluster : Bool
  pub workspace : Text
  pub volumes : Text

pub record Environment : Type 0 where
  pub lookup_env : Text → Option Text
  pub parse_bool : Text → Result Bool  -- strconv.ParseBool
  pub join : Text → Text → Text
  pub free_port : ℕ
  pub goos : Text
  pub connect : AgentInit → Result ℤ  -- Client.Connect, with ExitOnIdle

pub record Manager : Type 0 where
  pub port : ℤ
  pub profile_enabled : Bool
  pub is_from_docker : Bool
  pub plugin_dir : Text
  pub logging_dir : Text
  pub made_dirs : List Text
  pub volumes : List DockerVolume
  pub service : Service

-- util.GetEnv
unfoldable pub get_env : Environment → Text → Text → Text
get_env env name default = elim (env.lookup_env name) [ none ↦ default | some val ↦ val ]

abbrev pub parsed {ℓ} : {A : Type ℓ} → Result A → Outcome A
parsed (ok a) = ret a
parsed (err e) = panic e

unfoldable pub port_of : Environment → ℤ → ℤ
port_of env (pos n) = pos n
port_of env (negsuc n) = pos env.free_port

unfoldable pub init_volumes_from : Text → Outcome (List DockerVolume)
init_volumes_from text = if is_empty text then ret [] else new_volumes_from_string text

-- An agent that has just been made: GetInstance, with the config of the server.
unfoldable pub new_service : ℤ → Service
new_service exit_on_idle = record {
  executor = none;
  status = idle;
  timer = none;
  exit_on_idle = exit_on_idle;
  canceled = false;
  sent = [];
}

module _ (env : Environment) (flags : Flags) where
  unfoldable pub agent_init : Bool → AgentInit
  unfolding port_of os_name
  agent_init is_docker = record {
    is_k8s_cluster = flags.k8s_cluster;
    is_docker = is_docker;
    port = port_of env flags.port;
    os = os_name env.goos;
    status = codes "IDLE";
  }

  abbrev pub plugin_path : Text
  plugin_path = env.join flags.workspace (codes ".plugins")

  abbrev pub log_path : Text
  log_path = env.join flags.workspace (codes ".logs")

  -- The end of Init, which fires the event on idle.
  unfoldable pub started : Bool → Bool → List DockerVolume → ℤ → Manager
  unfolding port_of new_service on_idle_event
  started profile is_docker volumes exit_on_idle = record {
    port = port_of env flags.port;
    profile_enabled = profile;
    is_from_docker = is_docker;
    plugin_dir = plugin_path;
    logging_dir = log_path;
    made_dirs = flags.workspace ∷ log_path ∷ plugin_path ∷ [];
    volumes = volumes;
    service = on_idle_event (new_service exit_on_idle);
  }

  unfoldable pub init_from : Bool → Bool → Outcome Manager
  unfolding init_volumes_from agent_init started
  init_from profile is_docker = chain (init_volumes_from flags.volumes) λ volumes.
      chain (parsed (env.connect (agent_init is_docker)))
        λ exit_on_idle. ret (started profile is_docker volumes exit_on_idle)

  unfoldable pub init_manager : Outcome Manager
  unfolding init_from get_env
  init_manager = chain (parsed (env.parse_bool flags.profile_enabled)) λ profile.
      chain (parsed (env.parse_bool (get_env env (codes "FLOWCI_DOCKER_AGENT") (codes "false"))))
        λ is_docker. init_from profile is_docker

-- The sizes of a profile
pub record Profile : Type 0 where
  pub total_memory : ℕ
  pub free_memory : ℕ
  pub total_disk : ℕ
  pub free_disk : ℕ

unfoldable pub fetch_profile : Profile → Profile
unfolding byte_to_mb
fetch_profile bytes = record {
  total_memory = byte_to_mb bytes.total_memory;
  free_memory = byte_to_mb bytes.free_memory;
  total_disk = byte_to_mb bytes.total_disk;
  free_disk = byte_to_mb bytes.free_disk;
}
