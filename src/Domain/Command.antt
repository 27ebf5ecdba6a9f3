-- ===== src/Domain/Command.antt =====
-- domain/cmd.go, domain/cmd_shell.go: a shell command and its result.
use flow_agent_x.Prelude.{ℕ, Bool, true, false, Option, none, List, [], ◌∷◌, Text}
use flow_agent_x.Prelude.Int.{ℤ, negsuc}
use flow_agent_x.Prelude.Exec.{Err}
use flow_agent_x.Domain.Variables.{Variables, new_variables}
use flow_agent_x.Domain.Docker.{DockerOption}

-- The last constructor stands for every other text of the field.
pub data CmdType : Type 0 where
  shell tty kill close unknown : CmdType

pub data CmdStatus : Type 0 where
  pending running success skipped exception killed timeout : CmdStatus

abbrev pub exit_code_unknown : ℤ
exit_code_unknown = negsuc 0

abbrev pub exit_code_timeout : ℤ
exit_code_timeout = negsuc 99

abbrev pub exit_code_killed : ℤ
exit_code_killed = negsuc 0

pub record Cache : Type 0 where
  pub key : Text
  pub paths : List Text

pub record ShellIn : Type 0 where
  pub id : Text
  pub flow_id : Text
  pub job_id : Text
  pub allow_failure : Bool
  pub plugin : Text
  pub cache : Option Cache
  pub dockers : List DockerOption
  pub bash : List Text
  pub pwsh : List Text
  pub retry : ℤ
  pub timeout : ℤ
  pub inputs : Option Variables  -- none for nil
  pub env_filters : List Text
  pub secrets : List Text
  pub configs : List Text

pub record ShellOut : Type 0 where
  pub id : Text
  pub process_id : ℕ
  pub containers : List Text
  pub status : CmdStatus
  pub code : ℤ
  pub output : Variables
  pub start_at : ℕ  -- seconds
  pub finish_at : ℕ
  pub error : Option Err  -- none for the empty text
  pub log_size : ℕ

abbrev pub has_any {ℓ} : {A : Type ℓ} → List A → Bool
has_any [] = false
has_any (_ ∷ _) = true

abbrev pub has_secrets : ShellIn → Bool
has_secrets in' = has_any in'.secrets

abbrev pub has_configs : ShellIn → Bool
has_configs in' = has_any in'.configs

abbrev pub has_docker_option : ShellIn → Bool
has_docker_option in' = has_any in'.dockers

abbrev pub has_plugin : ShellIn → Bool
has_plugin in' = has_any in'.plugin

unfoldable pub new_shell_output : ShellIn → ShellOut
new_shell_output in' = record {
  id = in'.id;
  process_id = 0;
  containers = [];
  status = pending;
  code = exit_code_unknown;
  output = new_variables;
  start_at = 0;
  finish_at = 0;
  error = none;
  log_size = 0;
}

unfoldable pub is_finish_status : CmdStatus → Bool
is_finish_status killed = true
is_finish_status timeout = true
is_finish_status exception = true
is_finish_status success = true
is_finish_status _ = false
