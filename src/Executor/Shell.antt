-- ===== src/Executor/Shell.antt =====
-- executor/shell.go, executor/shell_bash.go: the executor that runs a command in a shell of the
-- machine. The processes and the file system are in the environment.
pub mod Files
pub mod Attempt
pub mod Tty
pub mod Power
use flow_agent_x.Prelude.{ℕ, Bool, Option, List, [], ◌∷◌, ◌++◌, Text, codes}
use flow_agent_x.Prelude.Int.{ℤ}
use flow_agent_x.Prelude.Exec.{Err, Result, Outcome, ret, Exec}
use flow_agent_x.Domain.Variables.{Variables}
use flow_agent_x.Domain.Docker.{DockerVolume}
use flow_agent_x.Domain.Command.{ShellIn, ShellOut}

-- What the executor does to the machine.
pub data Act : Type 0 where
  make_dir remove remove_all : Text → Act
  write_tool : Text → Act
  rename copy_dir copy_file : Text → Text → Act
  make_temp : Act
  spawn : Text → List Text → Act  -- the directory and the variables of a shell
  kill kill_tty : Act
  write_lines : List Text → Act

pub data Log : Type 0 where
  retry_mark : Log
  cache_applied : Text → Log
  cache_not_applied : Text → Err → Log

-- How a running shell comes to its end, if it does. The context may end first: then the goroutine that watches
-- it kills the shell and sets the status, before or after the attempt has seen the shell's end.
pub data Ending : Type 0 where
  exits : ℤ → Ending
  cut : Err → ℤ → Ending
  cut_late : Err → ℤ → Ending
  never : Ending  -- the shell runs on, and command.Wait does not return

pub data FileKind : Type 0 where
  missing directory file : FileKind

-- The machine: an answer may depend on what was done before, latest first.
pub record Machine : Type 0 where
  pub join : Text → Text → Text  -- filepath.Join
  pub clean : Text → Text  -- filepath.Clean
  pub temp_dir : List Act → Result Text
  pub temp_file : List Act → Result Text
  pub mkdir : List Act → Text → Option Err
  pub file_kind : List Act → Text → FileKind
  pub read_dir : List Act → Text → Result (List Text)
  pub rename_to : List Act → Text → Text → Option Err
  pub copy_to : List Act → Text → Text → Option Err
  pub read_file : List Act → Text → Result Text
  pub pipes : List Act → Option Err
  pub launch : List Act → Result ℕ  -- the process's id
  pub ending : List Act → Ending
  pub environ : List Text  -- os.Environ
  pub environment : Text → Text  -- os.Getenv
  pub now : ℕ
  pub tty_ends : Bool
  pub tools : List Text  -- the names of binFiles

pub record Shell : Type 0 where
  pub in_cmd : ShellIn
  pub result : ShellOut
  pub workspace : Text
  pub bin_dir : Text
  pub job_dir : Text
  pub env_file : Text
  pub cache_input_dir : Text
  pub cache_output_dir : Text
  pub volumes : List DockerVolume
  pub vars : Variables
  pub secret_vars : Variables
  pub config_vars : Variables
  pub command : Bool  -- whether there is a process to kill
  pub tty : Bool  -- whether there is a terminal's process to kill
  pub tty_id : Text
  pub interacting : Bool  -- whether ttyCtx and ttyCancel are set
  pub watched : Bool  -- whether a goroutine waits for the end of the context
  pub context_err : Option Err
  pub stdout : List Log  -- latest first
  pub acts : List Act  -- latest first

-- An act, and the machine's answer to it.
abbrev pub act {ℓ} : {A : Type ℓ} → Act → (List Act → A) → Exec Shell A
act a answer s = (ret (answer s.acts), record s { acts = a ∷ s.acts })

abbrev pub note : Act → Shell → Shell
note a s = record s { acts = a ∷ s.acts }

abbrev pub write_single_log : Log → Shell → Shell
write_single_log l s = record s { stdout = l ∷ s.stdout }

unfoldable pub setup_bin : Shell → List Text
setup_bin s = (codes "export PATH=" ++ s.bin_dir ++ codes ":$PATH") ∷ []
