-- ===== src/Service.antt =====
-- service/cmd_service.go, with the events of config/manager.go: the service that runs one command
-- at a time.
pub mod Manager
pub mod Shell
pub mod Execute
pub mod Invariant
pub mod Plugins
pub mod Startup
pub mod Caches
pub mod Logs
pub mod Environment
pub mod Consumer
pub mod Factory
use flow_agent_x.Prelude.{ℕ, Bool, true, false, Option, none, some, List, [], ◌∷◌, Text}
use flow_agent_x.Prelude.Int.{ℤ}
use flow_agent_x.Prelude.Exec.{Err, Result, Exec, ret}
use flow_agent_x.Domain.Variables.{Variables}
use flow_agent_x.Domain.Command.{ShellIn, ShellOut, Cache}
use flow_agent_x.Domain.Secret.{Secret, Config}

pub data AgentStatus : Type 0 where
  offline busy idle : AgentStatus

pub record TtyOut : Type 0 where
  pub id : Text
  pub action : Text
  pub is_success : Bool
  pub error : Option Err

-- What `SendCmdOut` is given.
pub data CmdOut : Type 0 where
  shell_out : ShellOut → CmdOut
  tty_out : TtyOut → CmdOut

-- The executor as the service sees it.
pub record Running : Type 0 where
  pub in_cmd : ShellIn
  pub killed : Bool
  pub interacting : Bool  -- IsInteracting: the context of a terminal and its cancel are set
  pub tty_in : List Text  -- the channel of inputs, in order

pub record Service : Type 0 where
  pub executor : Option Running
  pub status : AgentStatus
  pub timer : Option ℤ  -- the idle timer, with its seconds
  pub exit_on_idle : ℤ
  pub canceled : Bool
  pub sent : List CmdOut  -- latest first

-- What a new executor is given for a command; the rest of `executor.Options` is the agent's own.
pub record Options : Type 0 where
  pub cmd : ShellIn
  pub cache_src_dir : Text
  pub secret_vars : Variables
  pub config_vars : Variables

-- What the service calls: plugins, cache, server and executor. `download` gives the directory, and
-- the cache with its key and paths resolved in place. `stop_tty` is the panic of StopTty, if there is
-- one. `meanwhile` is what other goroutines do to the service between two statements of a caller that
-- does not hold the lock.
pub record Deps : Type 0 where
  pub new_id : Text
  pub load_plugin : Text → Option Err
  pub download : ShellIn → Cache → Text × Cache
  pub get_secret : Text → Result Secret
  pub get_config : Text → Result Config
  pub init : Options → Option Err
  pub stop_tty : Running → Option Err
  pub meanwhile : Service → Service
  pub now : ℕ

abbrev pub send_cmd_out : CmdOut → Service → Service
send_cmd_out out s = record s { sent = out ∷ s.sent }
