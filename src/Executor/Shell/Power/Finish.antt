-- ===== src/Executor/Shell/Power/Finish.antt =====
-- Every attempt in PowerShell ends with a finished result, too.
use flow_agent_x.Prelude.{
  ℕ, ◌≡◌, ◌≢◌, refl, inl, inr, true, false, Option, Option-cases, Text, codes, ◌++◌, arith,
}
use flow_agent_x.Prelude.Int.{ℤ}
use flow_agent_x.Prelude.Exec.{
  Err, Result, ok, err, Outcome, ret, panic, hang, modify, must, pure, panic_if_err, after, ◌>>◌,
}
use flow_agent_x.Domain.Command.{is_finish_status}
use flow_agent_x.Executor.Status.{to_error_status}
use flow_agent_x.Executor.Shell.{
  Ending, exits, cut, cut_late, never, Machine, Shell, act, note, remove, rename, make_temp,
}
use flow_agent_x.Executor.Shell.Attempt.{
  context_ends, killed_late, fail_to_launch, wait_for_tty, settle,
}
use flow_agent_x.Executor.Shell.Attempt.Finish.{
  ShellsEnd, IsFinished, Settles, Passes, bind-Settles, bind-Passes, panic_if_err-Passes,
  settle-Settles, wait_for_tty-Passes, late_update-Settles, do_start-Settles,
}
use flow_agent_x.Executor.Shell.Power.{
  Windows, write_script_lines, write_script_to_tmp_file, export_env_win, after_exit_win, wait_win,
  launched_win, run_file, run_script, do_start_win,
}

must-Passes {ℓ} : {A : Type ℓ} (r : Result A) (s : Shell) → Passes (must r s)
must-Passes (ok a) s = tt
must-Passes (err e) s = tt

write_script_lines-Passes : (name : Result Text) (s : Shell) → Passes (write_script_lines name s)
unfolding write_script_lines
write_script_lines-Passes (ok name) s = panic_if_err-Passes _ _
write_script_lines-Passes (err e) s = ground arith

-- The deferred removal of the script keeps the end of the attempt.
removed-Settles :
    (file : Text) (r : Outcome (Option Err)) (s : Shell)
    → Settles (r, s)
    → Settles (after (modify (note (remove file))) r s)
removed-Settles file (ret out) s h = h
removed-Settles file (panic e) s h = tt
removed-Settles file hang s h = h

module _ (machine : Machine) (win : Windows) where
  write_script_to_tmp_file-Passes : (s : Shell) → Passes (write_script_to_tmp_file machine win s)
  unfolding write_script_to_tmp_file
  write_script_to_tmp_file-Passes s = bind-Passes (act make_temp machine.temp_file) _ s tt λ made t.
      bind-Passes (must made) _ t (must-Passes made t) λ name t.
        let file = name ++ codes ".ps1" in
        bind-Passes (act (rename name file) (λ h. machine.rename_to h name file)) _ t tt λ moved t.
          bind-Passes (panic_if_err moved) _ t (panic_if_err-Passes moved t) λ _ t.
            bind-Passes (λ s. panic_if_err (win.open_file s.acts file) s) _ t
              (panic_if_err-Passes (win.open_file t.acts file) t)
              λ _ t.
                bind-Passes (λ s. write_script_lines (machine.temp_file s.acts) s) (λ _. pure file)
                  t (write_script_lines-Passes (machine.temp_file t.acts) t) λ _ t. tt

  module _ (tty_ends : machine.tty_ends ≡ true) (shells_end : ShellsEnd machine) where
    after_exit_win-Settles : (code : ℤ) (s : Shell) → Settles (after_exit_win machine win code s)
    unfolding after_exit_win
    after_exit_win-Settles code s =
        bind-Settles (modify (export_env_win machine win) >> wait_for_tty machine)
          (λ _. settle machine code) s
          (wait_for_tty-Passes machine tty_ends shells_end (export_env_win machine win s))
          (λ _ t. settle-Settles machine code t)

    wait_win-Settles :
        (ending : Ending) (s : Shell) → ending ≢ never → Settles (wait_win machine win ending s)
    unfolding wait_win
    wait_win-Settles (exits code) s n = after_exit_win-Settles code s
    wait_win-Settles (cut e code) s n = after_exit_win-Settles code (context_ends machine e s)
    wait_win-Settles never s n = absurd (n refl)
    wait_win-Settles (cut_late e code) s n =
        let r = after_exit_win machine win code (killed_late machine e s) in
        late_update-Settles machine tty_ends shells_end e r.0 r.1
          (after_exit_win-Settles code (killed_late machine e s))

    launched_win-Settles : (r : Result ℕ) (s : Shell) → Settles (launched_win machine win r s)
    unfolding fail_to_launch to_error_status is_finish_status
    launched_win-Settles (err e) s = refl
    launched_win-Settles (ok pid) s = wait_win-Settles _ _ (shells_end _)

    run_file-Settles : (s : Shell) → win.ended_early ≡ false → Settles (run_file machine win s)
    unfolding run_file
    run_file-Settles s early = elim (Option-cases (machine.pipes s.acts)) [
      | inr (e, h) ↦ rw h tt
      | inl h ↦ rw (h, early) (launched_win-Settles _ _)
    ]

    run_script-Settles : (s : Shell) → win.ended_early ≡ false → Settles (run_script machine win s)
    unfolding run_script
    run_script-Settles s early =
        bind-Settles (panic_if_err win.look_path) _ s (panic_if_err-Passes _ _) λ _ t.
          bind-Settles (write_script_to_tmp_file machine win) _ t
            (write_script_to_tmp_file-Passes t)
            λ file u. removed-Settles file _ _ (run_file-Settles u early)

    -- If an open terminal ends, every shell that is launched ends, and no watcher sees the end of the
    -- context before the process is there, every attempt in PowerShell returns, whatever else the
    -- machine answers and however the shell and the context end, and it leaves a finished result.
    pub do_start_win-IsFinished :
        (s : Shell)
        → win.ended_early ≡ false
        → (out : Option Err) × (t : Shell) × (do_start_win machine win s ≡ (ret out, t))
          × IsFinished t
    unfolding do_start_win
    do_start_win-IsFinished s early =
        do_start-Settles machine tty_ends shells_end (run_script machine win s).0
          (run_script machine win s).1 (run_script-Settles s early)
