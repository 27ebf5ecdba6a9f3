-- ===== src/Executor/Shell/Attempt.antt =====
-- executor/shell.go, executor/shell_bash.go: one attempt to run a command in a shell, the start with
-- its retries, and the terminal.
pub mod Finish
pub mod Ends
use flow_agent_x.Prelude.{
  ℕ, ◌-◌, ◌||◌, Bool, true, false, Option, none, some, List, [], ◌∷◌, ◌++◌, if◌then◌else◌, is_some,
  length, take, Text, codes, is_empty,
}
use flow_agent_x.Prelude.Int.{ℤ}
use flow_agent_x.Prelude.Exec.{
  Err, errorf, deadline_exceeded, canceled, Result, ok, err, Outcome, ret, panic, hang, Exec, pure,
  throw, must, modify, panic_if_err, recover, ◌>>=◌, ◌>>◌,
}
use flow_agent_x.Domain.Command.{ShellIn, ShellOut, exception, is_finish_status}
use flow_agent_x.Domain.Variables.{to_string_array}
use flow_agent_x.Executor.Status.{
  to_start_status, to_error_status, to_finish_status, status_of_error,
}
use flow_agent_x.Executor.Retry.{retry_loop}
use flow_agent_x.Executor.Script.{unix, get_scripts, write_cmd}
use flow_agent_x.Executor.Env.{read_env_from_reader}
use flow_agent_x.Executor.Shell.{
  spawn, kill, kill_tty, make_temp, write_lines, retry_mark, Ending, exits, cut, cut_late, never,
  Machine, Shell, act, note, write_single_log, setup_bin,
}
use flow_agent_x.Executor.Shell.Files.{write_cache}

-- `r.Status == domain.CmdStatusException || out != nil`
abbrev pub attempt_failed : Option Err → Shell → Bool
attempt_failed out s = is_some out || elim s.result.status [ exception ↦ true | _ ↦ false ]

module _ (machine : Machine) where
  unfoldable pub kill_process : Shell → Shell
  kill_process s =
      let t = if s.command then note kill s else s in if t.tty then note kill_tty t else t

  unfoldable pub record_error : Err → Shell → Shell
  record_error e s = record s { result = (status_of_error machine.now e s.result).0 }

  unfoldable pub handle_errors : Err → Shell → Shell
  unfolding kill_process record_error
  handle_errors deadline_exceeded s = record_error deadline_exceeded (kill_process s)
  handle_errors canceled s = record_error canceled (kill_process s)
  handle_errors e s = record_error e s

  -- command.Env
  unfoldable pub command_env : Shell → List Text
  command_env s =
      ((machine.environ ++ to_string_array s.vars) ++ to_string_array s.secret_vars)
      ++ to_string_array s.config_vars

  -- writeCmd with writeEnv, which makes a file when its turn comes: an error of it leaves all lines
  -- but those of writeEnv and the exit.
  unfoldable pub write_with : Result Text → Exec Shell (Unit {0})
  write_with (ok name) s =
      let (lines, e) =
        write_cmd unix s.volumes (setup_bin s) ((codes "env > " ++ name) ∷ []) (λ t. t) s.in_cmd in
      panic_if_err e (
        if is_some e
        then note (write_lines lines) s
        else record (note (write_lines lines) (note make_temp s)) { env_file = name })
  write_with (err x) s =
      let (lines, e) = write_cmd unix s.volumes (setup_bin s) [] (λ t. t) s.in_cmd in
      elim e [
        | some y ↦ (panic y, note (write_lines lines) s)
        | none ↦ (panic x, note (write_lines (take (length lines - 1) lines)) (note make_temp s))
      ]

  unfoldable pub write_script : Exec Shell (Unit {0})
  unfolding write_with
  write_script s = write_with (machine.temp_file s.acts) s

  unfoldable pub export_env : Shell → Shell
  export_env s = if is_empty s.env_file then s else elim (machine.read_file s.acts s.env_file) [
    | err e ↦ s
    | ok text ↦ record s {
      result = record s.result { output = read_env_from_reader text s.in_cmd.env_filters };
    }
  ]

  unfoldable pub wait_for_tty : Exec Shell (Unit {0})
  wait_for_tty s =
      if s.interacting then (if machine.tty_ends then (ret tt, s) else (hang, s)) else (ret tt, s)

  -- The end of an attempt whose shell has exited.
  unfoldable pub settle : ℤ → Exec Shell (Option Err)
  settle code s = if is_finish_status s.result.status then (ret none, s) else (
    ret s.context_err,
    record s { result = to_finish_status machine.now s.in_cmd.allow_failure code s.result },
  )

  unfoldable pub after_exit : ℤ → Exec Shell (Option Err)
  unfolding export_env wait_for_tty settle
  after_exit code = modify export_env >> wait_for_tty >> settle code

  -- The watcher's goroutine, which acts once.
  unfoldable pub context_ends : Err → Shell → Shell
  unfolding handle_errors
  context_ends e s =
      let t = record s { context_err = some e; watched = false } in
      if s.watched then handle_errors e t else t

  -- A late watcher has killed the shell, and sets the status when the attempt is over.
  unfoldable pub killed_late : Err → Shell → Shell
  unfolding kill_process
  killed_late e s = record (if s.watched then kill_process s else s) { context_err = some e }

  unfoldable pub late_update : Err → Shell → Shell
  unfolding record_error
  late_update e s = if s.watched then record_error e (record s { watched = false }) else s

  -- command.Wait and what follows it.
  unfoldable pub wait_command : Ending → Exec Shell (Option Err)
  unfolding after_exit context_ends killed_late late_update
  wait_command (exits code) s = after_exit code s
  wait_command (cut e code) s = after_exit code (context_ends e s)
  wait_command (cut_late e code) s =
      let (out, t) = after_exit code (killed_late e s) in (out, late_update e t)
  wait_command never s = (hang, s)

  unfoldable pub fail_to_launch : Err → Exec Shell (Option Err)
  fail_to_launch e s = (ret (some e), record s { result = to_error_status machine.now e s.result })

  unfoldable pub launched : ℕ → Exec Shell (Option Err)
  unfolding write_script wait_command
  launched pid =
      (write_script >> modify (λ s. record s { result = to_start_status pid s.result }))
      >> (λ s. wait_command (machine.ending s.acts) s)

  abbrev pub launched_or_failed : Result ℕ → Exec Shell (Option Err)
  launched_or_failed (err e) = fail_to_launch e
  launched_or_failed (ok pid) = launched pid

  unfoldable pub run_command : Exec Shell (Option Err)
  unfolding fail_to_launch launched command_env
  run_command s =
      (panic_if_err (machine.pipes s.acts)
          >> modify (λ t. record t { command = true })
          >> act (spawn s.job_dir (command_env s)) machine.launch
          >>= launched_or_failed)
        s

  abbrev pub on_error : Err → Exec Shell (Option Err)
  on_error e s = (ret (some e), handle_errors e s)

  unfoldable pub do_start : Exec Shell (Option Err)
  unfolding run_command handle_errors
  do_start = recover on_error run_command

  unfoldable pub start_attempts : Exec Shell (Option Err)
  unfolding do_start
  start_attempts s =
      retry_loop do_start attempt_failed (write_single_log retry_mark) s.in_cmd.retry s

  unfoldable pub start : Exec Shell (Option Err)
  unfolding start_attempts
  start s =
      (start_attempts >>= λ out. write_cache machine >> pure out) (record s { watched = true })
