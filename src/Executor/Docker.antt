-- ===== src/Executor/Docker.antt =====
-- executor/docker.go: the state of a docker executor, and the docker engine as it sees it.
pub mod Images
pub mod Containers
pub mod Setup
pub mod Volumes
pub mod Run
pub mod Config
pub mod Tty
pub mod Init
use flow_agent_x.Prelude.{ℕ, Bool, true, false, Option, none, some, List, [], ◌∷◌, ◌++◌, Text}
use flow_agent_x.Prelude.Int.{ℤ}
use flow_agent_x.Prelude.Exec.{Err, Result, Outcome, ret, Exec}
use flow_agent_x.Domain.Variables.{Variables}
use flow_agent_x.Domain.Docker.{SimpleAuthPair, DockerVolume, DockerConfig}
use flow_agent_x.Domain.Command.{ShellIn, ShellOut}

-- The lines that the executor itself writes to its log, and what it copies from a stream.
pub data Log : Type 0 where
  retry_mark : Log
  unable_to_pull : Text → Err → Log
  container_started : Text → Text → Log
  cache_applied : Text → Log
  stream : Text → Log

-- The calls of the engine's client, with their arguments.
pub data Call : Type 0 where
  image_list : Call
  image_pull : Text → Option SimpleAuthPair → Call
  container_create : DockerConfig → Call
  container_create_init : DockerVolume → Call  -- the container that fills a new volume
  container_start container_inspect container_restart container_stop container_wait : Text → Call
  container_remove : Text → Call
  exec_create : Text → List Text → Call
  exec_attach exec_start exec_inspect : Text → Call
  exec_write : Text → List Text → Call
  copy_to : Text → Text → Text → Call
  copy_from : Text → Text → Call
  volume_list volume_create : Text → Call
  network_list network_create : Text → Call

-- The state of a container that `resume` reads.
pub data Inspection : Type 0 where
  not_found : Inspection
  failed : Err → Inspection
  exited other_state : Inspection

pub record ExecState : Type 0 where
  pub running : Bool
  pub exit_code : ℤ
  pub pid : ℕ

-- The engine, as the answers that its client returns. An answer may depend on every call made
-- before (the first argument, latest first), so an engine is any deterministic behaviour.
pub record Engine : Type 0 where
  pub repo_tags : List Call → Result (List (List Text))
  pub pull : List Call → Text → Result Text
  pub create : List Call → DockerConfig → Result Text
  pub start : List Call → Text → Option Err
  pub inspect : List Call → Text → Inspection
  pub restart : List Call → Text → Option Err
  pub new_exec : List Call → Text → Result Text
  pub attach : List Call → Text → Option Err
  pub start_exec : List Call → Text → Option Err
  pub exec_state : List Call → Text → Result ExecState
  pub address : List Call → Text → Result (Text × List Text)  -- the IP address, and the networks'
  pub volumes_named : List Call → Text → Result (List Text)
  pub new_volume : List Call → Text → Result Text
  pub create_init : List Call → DockerVolume → Result Text
  pub networks_named : List Call → Text → Result (List Text)
  pub new_network : List Call → Text → Result Text
  pub copy_in : List Call → Text → Option Err
  pub copy_out : List Call → Text → Result Text

-- The machine that the agent runs on, and the terminal session that a user may have open.
pub record Host : Type 0 where
  pub archive : Text → Result Text  -- tarArchiveFromPath
  pub read_dir : Text → Result (List Text)
  pub temp_dir : Result Text
  pub now : ℕ
  pub tty_ends : Bool
  pub tools : List (Text × Text × Text)  -- binFiles: name, encoded content, permission

pub record Docker : Type 0 where
  pub in_cmd : ShellIn
  pub result : ShellOut
  pub configs : List (Option DockerConfig)  -- none for a nil entry
  pub job_dir : Text
  pub plugin_dir : Text
  pub cache_input_dir : Text
  pub cache_output_dir : Text
  pub volumes : List DockerVolume
  pub removed : List Text  -- paths removed from the machine, latest first
  pub tty_exec_id : Text
  pub tty_id : Text
  pub interacting : Bool
  pub vars : Variables
  pub stdout : List Log  -- latest first
  pub calls : List Call  -- latest first

-- A call of the client: it is recorded, and the engine answers.
abbrev pub ask {ℓ} : {A : Type ℓ} → Call → (List Call → A) → Exec Docker A
ask c answer d = (ret (answer d.calls), record d { calls = c ∷ d.calls })

-- A call whose answer is not used.
abbrev pub note : Call → Exec Docker (Unit {0})
note c d = (ret tt, record d { calls = c ∷ d.calls })

abbrev pub write_single_log : Log → Docker → Docker
write_single_log l d = record d { stdout = l ∷ d.stdout }
