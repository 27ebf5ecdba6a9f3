-- ===== src/Executor/Shell/Attempt/Finish.antt =====
-- Every attempt in a shell ends with a finished result, and so does the start.
use flow_agent_x.Prelude.{
  ℕ, ◌≡◌, ◌≢◌, List, refl, inl, inr, true, Bool-cases, Option, Option-cases, none, some, Text,
  arith,
}
use flow_agent_x.Prelude.Int.{ℤ}
use flow_agent_x.Prelude.Exec.{
  Err, deadline_exceeded, canceled, Result, ok, err, Outcome, ret, panic, hang, Exec, modify,
  panic_if_err, on_panic, continue, ◌>>=◌, ◌>>◌,
}
use flow_agent_x.Domain.Command.{is_finish_status}
use flow_agent_x.Executor.Status.{
  to_start_status, to_error_status, to_finish_status-finished, status_of_error-finished,
}
use flow_agent_x.Executor.Shell.{Ending, exits, cut, cut_late, never, Act, Machine, Shell}
use flow_agent_x.Executor.Shell.Attempt.{
  kill_process, record_error, handle_errors, write_with, write_script, export_env, wait_for_tty,
  settle, after_exit, context_ends, killed_late, late_update, wait_command, fail_to_launch,
  launched, launched_or_failed, run_command, on_error, do_start,
}

-- Every shell that is launched comes to an end.
abbrev pub ShellsEnd : Machine → Type 0
ShellsEnd machine = (h : List Act) → machine.ending h ≢ never

abbrev pub IsFinished : Shell → Type 0
IsFinished s = is_finish_status s.result.status ≡ true

-- The outcome of a part of an attempt: it returns with a finished result, or it panics.
abbrev pub Settles : Outcome (Option Err) × Shell → Type 0
Settles (ret out, s) = IsFinished s
Settles (panic e, s) = Unit
Settles (hang, s) = ⊥

-- A part of an attempt that comes before the end: it returns or panics.
abbrev pub Passes {ℓ} : {A : Type ℓ} → Outcome A × Shell → Type 0
Passes (ret a, s) = Unit
Passes (panic e, s) = Unit
Passes (hang, s) = ⊥

pub bind-Settles {ℓ} :
    {A : Type ℓ} (m : Exec Shell A) (f : A → Exec Shell (Option Err)) (s : Shell)
    → Passes (m s)
    → ((a : A) (t : Shell) → Settles (f a t))
    → Settles ((m >>= f) s)
bind-Settles m f s h k = go (m s).0 (m s).1 h
  where
    go : (r : Outcome _) (t : Shell) → Passes (r, t) → Settles (continue r f t)
    go (ret a) t p = k a t
    go (panic e) t p = tt
    go hang t p = absurd p

pub bind-Passes {ℓ κ} :
    {A : Type ℓ} {B : Type κ} (m : Exec Shell A) (f : A → Exec Shell B) (s : Shell)
    → Passes (m s)
    → ((a : A) (t : Shell) → Passes (f a t))
    → Passes ((m >>= f) s)
bind-Passes m f s h k = go (m s).0 (m s).1 h
  where
    go : (r : Outcome _) (t : Shell) → Passes (r, t) → Passes (continue r f t)
    go (ret a) t p = k a t
    go (panic e) t p = tt
    go hang t p = absurd p

pub panic_if_err-Passes : (e : Option Err) (s : Shell) → Passes (panic_if_err e s)
panic_if_err-Passes none s = tt
panic_if_err-Passes (some e) s = tt

module _ (machine : Machine) where
  handle_errors-IsFinished : (e : Err) (s : Shell) → IsFinished (handle_errors machine e s)
  unfolding handle_errors record_error
  handle_errors-IsFinished deadline_exceeded s =
      status_of_error-finished machine.now deadline_exceeded (kill_process machine s).result
  handle_errors-IsFinished canceled s =
      status_of_error-finished machine.now canceled (kill_process machine s).result
  handle_errors-IsFinished e s = status_of_error-finished machine.now e s.result

  write_with-Passes : (name : Result Text) (s : Shell) → Passes (write_with machine name s)
  unfolding write_with
  write_with-Passes (ok name) s = panic_if_err-Passes _ _
  write_with-Passes (err e) s = ground arith

  pub settle-Settles : (code : ℤ) (s : Shell) → Settles (settle machine code s)
  unfolding settle
  settle-Settles code s = elim (Bool-cases (is_finish_status s.result.status)) [
    | inl e ↦ rw e e
    | inr e ↦ rw e (to_finish_status-finished machine.now s.in_cmd.allow_failure code s.result).0
  ]

  module _ (tty_ends : machine.tty_ends ≡ true) (shells_end : ShellsEnd machine) where
    pub wait_for_tty-Passes : (s : Shell) → Passes (wait_for_tty machine s)
    unfolding wait_for_tty
    wait_for_tty-Passes s = ground arith

    after_exit-Settles : (code : ℤ) (s : Shell) → Settles (after_exit machine code s)
    unfolding after_exit
    after_exit-Settles code s =
        bind-Settles (modify (export_env machine) >> wait_for_tty machine)
          (λ _. settle machine code) s (wait_for_tty-Passes (export_env machine s))
          (λ _ t. settle-Settles code t)

    pub late_update-Settles :
        (e : Err) (r : Outcome (Option Err)) (u : Shell)
        → Settles (r, u)
        → Settles (r, late_update machine e u)
    unfolding late_update record_error
    late_update-Settles e (ret out) u h = elim (Bool-cases u.watched) [
      | inl w ↦ rw w (status_of_error-finished machine.now e u.result)
      | inr w ↦ rw w h
    ]
    late_update-Settles e (panic x) u h = tt
    late_update-Settles e hang u h = h

    wait_command-Settles :
        (ending : Ending) (s : Shell) → ending ≢ never → Settles (wait_command machine ending s)
    unfolding wait_command
    wait_command-Settles (exits code) s n = after_exit-Settles code s
    wait_command-Settles (cut e code) s n = after_exit-Settles code (context_ends machine e s)
    wait_command-Settles never s n = absurd (n refl)
    wait_command-Settles (cut_late e code) s n =
        let r = after_exit machine code (killed_late machine e s) in
        late_update-Settles e r.0 r.1 (after_exit-Settles code (killed_late machine e s))

    launched_or_failed-Settles :
        (r : Result ℕ) (s : Shell) → Settles (launched_or_failed machine r s)
    unfolding fail_to_launch launched to_error_status is_finish_status write_script
    launched_or_failed-Settles (err e) s = refl
    launched_or_failed-Settles (ok pid) s =
        bind-Settles
          (write_script machine >> modify (λ s. record s { result = to_start_status pid s.result }))
          (λ _ s. wait_command machine (machine.ending s.acts) s) s
          (bind-Passes (write_script machine)
            (λ _. modify (λ s. record s { result = to_start_status pid s.result })) s
            (write_with-Passes (machine.temp_file s.acts) s) (λ _ t. tt))
          (λ _ t. wait_command-Settles (machine.ending t.acts) t (shells_end t.acts))

    run_command-Settles : (s : Shell) → Settles (run_command machine s)
    unfolding run_command
    run_command-Settles s = elim (Option-cases (machine.pipes s.acts)) [
      | inr (e, h) ↦ rw h tt
      | inl h ↦ rw h (launched_or_failed-Settles _ _)
    ]

    pub do_start-Settles :
        (r : Outcome (Option Err)) (s : Shell)
        → Settles (r, s)
        → (out : Option Err) × (t : Shell) × (on_panic (on_error machine) r s ≡ (ret out, t))
          × IsFinished t
    do_start-Settles (ret out) s h = (out, s, refl, h)
    do_start-Settles (panic e) s h =
        (some e, handle_errors machine e s, refl, handle_errors-IsFinished e s)
    do_start-Settles hang s h = absurd h

    -- If an open terminal ends and every shell that is launched ends, every attempt in a shell returns,
    -- whatever else the machine answers and however the shell and the context end, and it leaves a
    -- finished result.
    pub do_start-IsFinished :
        (s : Shell)
        → (out : Option Err) × (t : Shell) × (do_start machine s ≡ (ret out, t)) × IsFinished t
    unfolding do_start
    do_start-IsFinished s =
        do_start-Settles (run_command machine s).0 (run_command machine s).1 (run_command-Settles s)
