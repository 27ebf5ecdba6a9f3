-- ===== src/Executor/Shell/Power.antt =====
-- executor/shell_powershell.go: the executor that runs a command in PowerShell, where it differs from
-- the one for bash: the script is a file, and each attempt watches the context.
pub mod Finish
use flow_agent_x.Prelude.{
  ℕ, Bool, true, false, ◌-◌, Option, none, some, List, [], ◌∷◌, ◌++◌, if◌then◌else◌, is_some,
  length, take, Text, codes, is_empty,
}
use flow_agent_x.Prelude.Int.{ℤ}
use flow_agent_x.Prelude.Exec.{
  Err, Result, ok, err, Outcome, ret, panic, hang, Exec, pure, must, modify, panic_if_err, recover,
  finally, ◌>>=◌, ◌>>◌,
}
use flow_agent_x.Executor.Status.{to_start_status, to_error_status}
use flow_agent_x.Executor.Retry.{retry_loop}
use flow_agent_x.Executor.Script.{windows, write_cmd}
use flow_agent_x.Executor.Env.Windows.{read_env_from_reader_for_win}
use flow_agent_x.Executor.Shell.{
  remove, rename, make_temp, spawn, write_lines, retry_mark, Act, Ending, exits, cut, cut_late,
  never, Machine, Shell, act, note, write_single_log,
}
use flow_agent_x.Executor.Shell.Files.{write_cache}
use flow_agent_x.Executor.Shell.Attempt.{
  attempt_failed, command_env, wait_for_tty, settle, context_ends, killed_late, late_update,
  fail_to_launch, on_error,
}
use flow_agent_x.Executor.Shell.Tty.{ongoing, forget_tty}

-- What a machine with Windows answers besides: `bytes` are the lines of a file as
-- bufio.Reader.ReadLine returns them, `decode` is utf16.Decode.
pub record Windows : Type 0 where
  pub look_path : Option Err  -- exec.LookPath("powershell.exe")
  pub open_file : List Act → Text → Option Err
  pub bytes : List Act → Text → Result (List Text)
  pub decode : List ℕ → Text
  pub ended_early : Bool  -- a watcher sees the context's end before command.Start

unfoldable pub setup_bin_win : Shell → List Text
setup_bin_win s = (codes "$Env:PATH += \";" ++ s.bin_dir ++ codes "\"") ∷ []

-- writeCmd with writeEnv: an error of the file for the variables leaves all lines but the exit.
unfoldable pub write_script_lines : Result Text → Exec Shell (Unit {0})
unfolding setup_bin_win
write_script_lines (ok name) s =
    let (lines, e) =
      write_cmd windows s.volumes (setup_bin_win s) ((codes "gci env: > " ++ name) ∷ []) (λ t. t)
        s.in_cmd in
    panic_if_err e (
      if is_some e
      then note (write_lines lines) s
      else record (note (write_lines lines) (note make_temp s)) { env_file = name })
write_script_lines (err x) s =
    let (lines, e) = write_cmd windows s.volumes (setup_bin_win s) [] (λ t. t) s.in_cmd in
    elim e [
      | some y ↦ (panic y, note (write_lines lines) s)
      | none ↦ (panic x, note (write_lines (take (length lines - 1) lines)) (note make_temp s))
    ]

module _ (machine : Machine) (win : Windows) where
  unfoldable pub write_script_to_tmp_file : Exec Shell Text
  unfolding write_script_lines
  write_script_to_tmp_file = do
    made ← act make_temp machine.temp_file
    name ← must made
    let file = name ++ codes ".ps1"
    moved ← act (rename name file) (λ h. machine.rename_to h name file)
    panic_if_err moved
    (λ s. panic_if_err (win.open_file s.acts file) s)
    (λ s. write_script_lines (machine.temp_file s.acts) s)
    pure file

  unfoldable pub export_env_win : Shell → Shell
  export_env_win s = if is_empty s.env_file then s else elim (win.bytes s.acts s.env_file) [
    | err e ↦ s
    | ok lines ↦ record s {
      result = record s.result {
        output = read_env_from_reader_for_win win.decode s.in_cmd.env_filters lines;
      };
    }
  ]

  unfoldable pub after_exit_win : ℤ → Exec Shell (Option Err)
  unfolding export_env_win wait_for_tty settle
  after_exit_win code = modify export_env_win >> wait_for_tty machine >> settle machine code

  unfoldable pub wait_win : Ending → Exec Shell (Option Err)
  unfolding after_exit_win context_ends killed_late late_update
  wait_win (exits code) s = after_exit_win code s
  wait_win (cut e code) s = after_exit_win code (context_ends machine e s)
  wait_win (cut_late e code) s =
      let (out, t) = after_exit_win code (killed_late machine e s) in (out, late_update machine e t)
  wait_win never s = (hang, s)

  abbrev pub launched_win : Result ℕ → Exec Shell (Option Err)
  launched_win (err e) s = fail_to_launch machine e s
  launched_win (ok pid) s =
      let t = record s { result = to_start_status pid s.result } in
      wait_win (machine.ending t.acts) t

  -- command.Start; a watcher that acts before it dereferences the process, which is nil, and no
  -- goroutine recovers the panic: the agent ends.
  abbrev pub launch_win : Exec Shell (Result ℕ)
  launch_win s =
      if win.ended_early
      then (hang, s)
      else act (spawn s.job_dir (command_env machine s)) machine.launch s

  -- An attempt starts its own watcher of the context, beside the one of Start. That a second watcher
  -- kills and sets the status once more is left out.
  unfoldable pub run_file : Exec Shell (Option Err)
  unfolding fail_to_launch wait_win command_env
  run_file s =
      (panic_if_err (machine.pipes s.acts)
          >> modify (λ t. record t { command = true; watched = true })
          >> launch_win
          >>= launched_win)
        s

  unfoldable pub run_script : Exec Shell (Option Err)
  unfolding write_script_to_tmp_file run_file
  run_script = do
    panic_if_err win.look_path
    file ← write_script_to_tmp_file
    finally (modify (note (remove file))) run_file

  unfoldable pub do_start_win : Exec Shell (Option Err)
  unfolding run_script
  do_start_win = recover (on_error machine) run_script

  unfoldable pub start_win : Exec Shell (Option Err)
  unfolding do_start_win
  start_win s =
      ((λ t. retry_loop do_start_win attempt_failed (write_single_log retry_mark) t.in_cmd.retry t)
          >>= λ out. write_cache machine >> pure out)
        (record s { watched = true })

  -- A shell that does not start marks the command as failed, and its context is cancelled.
  abbrev pub opened_win : Result ℕ → Exec Shell (Option Err)
  opened_win (ok pid) s = (ret none, s)
  opened_win (err e) s = (
    ret (some e),
    forget_tty (record s { result = to_error_status machine.now e s.result; interacting = false }),
  )

  unfoldable pub open_tty_win : Text → Exec Shell (Option Err)
  unfolding command_env forget_tty
  open_tty_win id s =
      (panic_if_err win.look_path
          >> panic_if_err (machine.pipes s.acts)
          >> modify (λ t. record t { tty = true; tty_id = id; interacting = true })
          >> act (spawn s.job_dir (command_env machine s)) machine.launch
          >>= opened_win)
        s

  -- StartTty as far as the call of onStarted, or its end if it fails before.
  unfoldable pub start_tty_win : Text → Exec Shell (Option Err)
  unfolding open_tty_win
  start_tty_win id =
      recover (λ e s. (ret (some e), forget_tty s))
        (λ s. if s.interacting then (panic ongoing, s) else open_tty_win id s)
