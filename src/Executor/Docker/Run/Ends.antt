-- ===== src/Executor/Docker/Run/Ends.antt =====
-- An attempt comes to an end, if the scripts of the engine do.
use flow_agent_x.Prelude.{
  ℕ, zero, suc, ◌≡◌, ◌≢◌, refl, true, inl, inr, Option, none, some, List, [], ◌∷◌, ◌++◌, Bool-cases,
  Text, codes, is_empty,
}
use flow_agent_x.Prelude.Int.{negsuc}
use flow_agent_x.Prelude.Exec.{
  Err, deadline_exceeded, canceled, Result, ok, err, Outcome, ret, panic, hang, Exec, pure, must,
  continue, on_panic, panic_if_err, ◌>>=◌,
}
use flow_agent_x.Domain.Docker.{DockerConfig}
use flow_agent_x.Executor.Docker.{Docker, Engine, Host, ExecState, Call, exec_inspect}
use flow_agent_x.Executor.Docker.Run.{
  runtime, poll, wait_for_exit, exec_single_script, run_single_script, kill, handle_errors,
  copy_plugins, copy_cache_files, read_cache, copy_cache,
}

pub never_hangs {ℓ κ} :
    {A : Type ℓ} {B : Type κ} (r : Outcome A) (d : Docker) (f : A → Exec Docker B)
    → r ≢ hang
    → ((a : A) (d1 : Docker) → (f a d1).0 ≢ hang)
    → (continue r f d).0 ≢ hang
never_hangs (ret a) d f h k = k a d
never_hangs (panic e) d f h k = λ p. cc
never_hangs hang d f h k = λ p. h refl

pub must-ends {ℓ} : {A : Type ℓ} (r : Result A) (d : Docker) → (must r d).0 ≢ hang
must-ends (ok a) d = λ p. cc
must-ends (err e) d = λ p. cc

pub panic_if_err-ends : (e : Option Err) (d : Docker) → (panic_if_err e d).0 ≢ hang
panic_if_err-ends none d = λ p. cc
panic_if_err-ends (some e) d = λ p. cc

pub caught {ℓ} :
    {A : Type ℓ} (handler : Err → Exec Docker A) (r : Outcome A) (d : Docker)
    → r ≢ hang
    → ((e : Err) (d1 : Docker) → (handler e d1).0 ≢ hang)
    → (on_panic handler r d).0 ≢ hang
caught handler (ret a) d h k = λ p. cc
caught handler (panic e) d h k = k e d
caught handler hang d h k = absurd (h refl)

pub runtime-ends : (d : Docker) → (runtime d).0 ≢ hang
unfolding runtime
runtime-ends d = first d.configs refl
  where
    first : (cs : List (Option DockerConfig)) → d.configs ≡ cs → (runtime d).0 ≢ hang
    first [] e h = cc (rw e at h)
    first (none ∷ cs) e h = cc (rw e at h)
    first (some c ∷ cs) e h = cc (rw e at h)

module _ (engine : Engine) (host : Host) where
  -- `n` polls of an exec, which all find it running.
  abbrev pub Runs : ℕ → List Call → Text → Type 0
  Runs zero h eid = Unit
  Runs (suc n) h eid =
      (state : ExecState) × (engine.exec_state h eid ≡ ok state)
      × (state.running ≡ true)
      × Runs n (exec_inspect eid ∷ h) eid

  poll-Runs :
      (n : ℕ) (eid : Text) (d : Docker) → (poll engine host n eid d).0 ≡ hang → Runs n d.calls eid
  unfolding poll
  poll-Runs zero eid d h = tt
  poll-Runs (suc n) eid d h = pick (engine.exec_state d.calls eid) refl (poll-Runs n eid)
    where
      pick :
          (r : Result ExecState)
          → engine.exec_state d.calls eid ≡ r
          → ((t : Docker) → (poll engine host n eid t).0 ≡ hang → Runs n t.calls eid)
          → Runs (suc n) d.calls eid
      pick (err x) e rest = absurd (cc (rw (e, ◌>>=◌) at h))
      pick (ok state) e rest = elim (Bool-cases state.running) [
        | inl f ↦ (state, e, f, rest _ (rw (e, f, ◌>>=◌) at h))
        | inr f ↦ absurd (cc (rw (e, f, ◌>>=◌) at h))
      ]

  module _ (fuel : ℕ) (stops : (h : List Call) (eid : Text) → ¬ Runs fuel h eid) where
    pub wait_for_exit-ends :
        (eid : Text) (f : ℕ → Docker → Docker) (d : Docker)
        → (wait_for_exit engine host fuel eid f d).0 ≢ hang
    unfolding wait_for_exit
    wait_for_exit-ends eid f d =
        never_hangs _ _ _ (must-ends (engine.exec_state d.calls eid) _)
          (λ s d1 h. stops _ eid (poll-Runs fuel eid _ h))

    exec_single_script-ends :
        (script : Text) (d : Docker) → (exec_single_script engine host fuel script d).0 ≢ hang
    unfolding exec_single_script
    exec_single_script-ends script d = never_hangs _ _ _ (runtime-ends d) (λ c d1.
        never_hangs _ _ _ (must-ends (engine.new_exec d1.calls c.container_id) _) (λ eid d2.
          never_hangs _ _ _ (panic_if_err-ends (engine.start_exec d2.calls eid) _)
            (λ _ d3. wait_for_exit-ends eid (λ pid d. d) d3)))

    run_single_script-ends :
        (script : Text) (d : Docker) → (run_single_script engine host fuel script d).0 ≢ hang
    unfolding run_single_script
    run_single_script-ends script d =
        caught (λ e. pure (negsuc 0)) _ _ (exec_single_script-ends script d) (λ e d1 p. cc)

    kill-ends : (d : Docker) → (kill engine host fuel d).0 ≢ hang
    unfolding kill
    kill-ends d =
        never_hangs _ _ _ (run_single_script-ends _ d)
          (λ _ d1. never_hangs _ _ _ (run_single_script-ends _ d1) (λ _ d2 p. cc))

    pub handle_errors-ends : (e : Err) (d : Docker) → (handle_errors engine host fuel e d).0 ≢ hang
    unfolding handle_errors
    handle_errors-ends deadline_exceeded d = never_hangs _ _ _ (kill-ends d) (λ _ d1 p. cc)
    handle_errors-ends canceled d = never_hangs _ _ _ (kill-ends d) (λ _ d1 p. cc)
    handle_errors-ends e d = λ p. cc

    pub copy_plugins-ends : (d : Docker) → (copy_plugins engine host d).0 ≢ hang
    unfolding copy_plugins
    copy_plugins-ends d = elim (Bool-cases (is_empty d.plugin_dir)) [
      | inl e ↦ rw e (λ p. cc)
      | inr e ↦ rw e (
          never_hangs _ _ _ (must-ends (host.archive d.plugin_dir) d) (λ tar d1.
            never_hangs _ _ _ (runtime-ends d1)
              (λ c d2. panic_if_err-ends (engine.copy_in d2.calls c.container_id) _)))
    ]

    copy_cache_files-ends :
        (files : List Text) (d : Docker) → (copy_cache_files engine host fuel files d).0 ≢ hang
    unfolding copy_cache_files
    copy_cache_files-ends [] d = λ p. cc
    copy_cache_files-ends (f ∷ fs) d =
        never_hangs _ _ _ (must-ends (host.archive (d.cache_input_dir ++ codes "/" ++ f)) d)
          (λ tar d1.
            never_hangs _ _ _
              (run_single_script-ends (codes "rm -rf " ++ d.job_dir ++ codes "/" ++ f) d1)
              (λ code d2. never_hangs _ _ _ (runtime-ends d2) (λ c d3.
                never_hangs _ _ _ (panic_if_err-ends (engine.copy_in d3.calls c.container_id) _)
                  (λ _ d4. copy_cache_files-ends fs _))))

    read_cache-ends : (d : Docker) → (read_cache engine host fuel d).0 ≢ hang
    unfolding read_cache
    read_cache-ends d =
        never_hangs _ _ _ (must-ends (host.read_dir d.cache_input_dir) d)
          (λ files d1. copy_cache_files-ends files d1)

    pub copy_cache-ends : (d : Docker) → (copy_cache engine host fuel d).0 ≢ hang
    unfolding copy_cache
    copy_cache-ends d = elim (Bool-cases (is_empty d.cache_input_dir)) [
      | inl e ↦ rw e (λ p. cc)
      | inr e ↦ rw e (caught (λ e. pure tt) _ _ (read_cache-ends d) (λ e d1 p. cc))
    ]
