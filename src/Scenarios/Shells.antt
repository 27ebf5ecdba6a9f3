-- ===== src/Scenarios/Shells.antt =====
-- executor/shell.go, executor/docker_util.go and service/plugin_manager.go at concrete inputs.
use flow_agent_x.Prelude.{
  ◌≡◌, refl, true, false, none, some, Option, List, map, [], ◌∷◌, ◌++◌, Text, codes,
}
use flow_agent_x.Prelude.Int.{pos, negsuc}
use flow_agent_x.Prelude.Exec.{
  Err, nil_dereference, deadline_exceeded, canceled, Result, ok, err, ret, panic,
}
use flow_agent_x.Domain.Command.{
  running, timeout, exit_code_timeout, is_finish_status, new_shell_output,
}
use flow_agent_x.Executor.Shell.{Machine, Shell, exits, cut, cut_late, missing}
use flow_agent_x.Executor.Shell.Attempt.{attempt_failed, wait_command}
use flow_agent_x.Executor.Shell.Attempt.Finish.{ShellsEnd, IsFinished}
use flow_agent_x.Executor.Shell.Attempt.Ends.{timeout_race}
use flow_agent_x.Executor.Shell.Power.{Windows, do_start_win}
use flow_agent_x.Executor.Shell.Power.Finish.{do_start_win-IsFinished}
use flow_agent_x.Executor.Shell.Tty.{ongoing, start_tty, stop_tty, second_start_tty}
use flow_agent_x.Service.Logs.{Consumed, consume_shell_log}
use flow_agent_x.Scenarios.{command}

-- A machine on which every shell exits with code 1.
abbrev machine : Machine
machine = record {
  join = λ a b. a ++ codes "/" ++ b;
  clean = λ p. p;
  temp_dir = λ h. ok (codes "/tmp/1");
  temp_file = λ h. ok (codes "/tmp/2");
  mkdir = λ h d. none;
  file_kind = λ h p. missing;
  read_dir = λ h d. ok [];
  rename_to = λ h a b. none;
  copy_to = λ h a b. none;
  read_file = λ h p. ok [];
  pipes = λ h. none;
  launch = λ h. ok 7;
  ending = λ h. exits (pos 1);
  environ = [];
  environment = λ k. [];
  now = 9;
  tty_ends = true;
  tools = [];
}

abbrev shell : Shell
shell = record {
  in_cmd = command;
  result = record (new_shell_output command) { status = running };
  workspace = codes "/ws";
  bin_dir = codes "/ws/bin";
  job_dir = codes "/ws/1";
  env_file = [];
  cache_input_dir = [];
  cache_output_dir = [];
  volumes = [];
  vars = [];
  secret_vars = [];
  config_vars = [];
  command = true;
  tty = true;
  tty_id = codes "t";
  interacting = true;
  watched = true;
  context_err = none;
  stdout = [];
  acts = [];
}

shells_end : ShellsEnd machine
shells_end h = λ e. cc

timeout_race_example :
    ((t : Shell) × (wait_command machine (cut deadline_exceeded (negsuc 0)) shell ≡ (ret none, t))
      × (t.result.status ≡ timeout)
      × (t.result.code ≡ exit_code_timeout)
      × (attempt_failed none t ≡ false))
    × ((t : Shell) × (out : Option Err) × (wait_command machine
            (cut_late deadline_exceeded (negsuc 0))
            shell
          ≡ (ret out, t))
        × (attempt_failed out t ≡ true)
        × (t.watched ≡ false))
unfolding is_finish_status
timeout_race_example = timeout_race machine (negsuc 0) shell refl refl refl

second_start_tty_example :
    (t : Shell) × (start_tty machine (codes "u") shell ≡ (ret (some ongoing), t))
    × (t.interacting ≡ true)
    × (t.tty_id ≡ [])
    × (stop_tty t ≡ (panic nil_dereference, t))
second_start_tty_example = second_start_tty machine (codes "u") shell refl

abbrev powershell : Windows
powershell = record {
  look_path = none;
  open_file = λ h name. none;
  bytes = λ h name. ok [];
  decode = λ units. units;
  ended_early = false;
}

do_start_win_example :
    (out : Option Err) × (t : Shell) × (do_start_win machine powershell shell ≡ (ret out, t))
    × IsFinished t
do_start_win_example = do_start_win-IsFinished machine powershell refl shells_end shell refl

-- An encoding that marks what it encodes.
abbrev encode : Text → Text
encode bytes = 61 ∷ bytes

abbrev decode : Text → Result Text
decode [] = err canceled
decode (_ ∷ bytes) = ok bytes

-- What a shell prints while the pull of an image is reported on the same channel.
abbrev logged : List Text
logged = codes "ok" ∷ codes "pulled" ∷ codes "no" ∷ []

abbrev consumed : Consumed
consumed =
    consume_shell_log encode decode none (codes "j") (codes "1") (codes "/l/1.log")
      (map encode logged)
