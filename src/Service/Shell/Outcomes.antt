-- ===== src/Service/Shell/Outcomes.antt =====
-- The ways in which a shell command can be taken, refused or failed.
use flow_agent_x.Prelude.{
  ◌≡◌, ◌≢◌, ◌∙◌, sym, refl, ap, Bool, true, false, ◌⊎◌, inl, inr, Option, none, some, List, [], ◌∷◌,
  if◌then◌else◌, Option-cases, is_some, Text,
}
use mathlib.Core.Path.{subst}
use flow_agent_x.Prelude.Exec.{
  Err, cmd_is_running, Result, ok, err, Outcome, ret, panic, hang, Exec, pure, must, panic_if_err,
  on_panic, continue, ◌>>=◌,
}
use flow_agent_x.Domain.Variables.{Variables, new_variables}
use flow_agent_x.Domain.Docker.{DockerOption, has_auth}
use flow_agent_x.Domain.Command.{ShellIn, has_secrets, has_configs, has_plugin}
use flow_agent_x.Domain.Secret.{
  Secret, auth_secret, rsa_secret, token_secret, Config, text_config, smtp_config, to_envs,
  config_envs,
}
use flow_agent_x.Service.{Service, Deps, Options, busy, shell_out, send_cmd_out}
use flow_agent_x.Service.Manager.{on_busy_event}
use flow_agent_x.Service.Shell.{
  release, add_secrets, init_secret_env, add_configs, init_config_env, auth_of,
  load_secret_for_docker, prepare, launch, failure_before_execute, fail,
}

-- A result that leaves the service as it was.
abbrev Stays {ℓ} : {A : Type ℓ} → Outcome A × Service → Service → Type ℓ
Stays p s = (p.1 ≡ s) × (p.0 ≢ hang)

Stays-continue {ℓ κ} :
    {A : Type ℓ} {B : Type κ} (r : Outcome A) (t : Service) (f : A → Exec Service B) (s : Service)
    → Stays (r, t) s
    → ((a : A) → Stays (f a s) s)
    → Stays (continue r f t) s
Stays-continue (ret a) t f s (e, h) k = subst (λ u. Stays (f a u) s) (sym e) (k a)
Stays-continue (panic x) t f s (e, h) k = (e, λ p. cc)
Stays-continue hang t f s (e, h) k = absurd (h refl)

Stays-must {ℓ} : {A : Type ℓ} (r : Result A) (s : Service) → Stays (must r s) s
Stays-must (ok a) s = (refl, λ p. cc)
Stays-must (err e) s = (refl, λ p. cc)

Stays-panic_if_err : (e : Option Err) (s : Service) → Stays (panic_if_err e s) s
Stays-panic_if_err none s = (refl, λ p. cc)
Stays-panic_if_err (some e) s = (refl, λ p. cc)

to_envs-ends : (secret : Secret) → to_envs secret ≢ hang
unfolding to_envs
to_envs-ends (auth_secret n (some p)) h = cc
to_envs-ends (auth_secret n none) h = cc
to_envs-ends (rsa_secret n (some p)) h = cc
to_envs-ends (rsa_secret n none) h = cc
to_envs-ends (token_secret n (some t)) h = cc
to_envs-ends (token_secret n none) h = cc

config_envs-ends : (config : Config) → config_envs config ≢ hang
unfolding config_envs
config_envs-ends (text_config n t) h = cc
config_envs-ends (smtp_config n a b c (some x)) h = cc
config_envs-ends (smtp_config n a b c none) h = cc

Stays-pure {ℓ} : {A : Type ℓ} (a : A) (s : Service) → Stays (pure a s) s
Stays-pure a s = (refl, λ p. cc)

module _ (deps : Deps) where
  Stays-add_secrets :
      (names : List Text) (vars : Variables) (s : Service) → Stays (add_secrets deps names vars s) s
  unfolding add_secrets
  Stays-add_secrets [] vars s = Stays-pure _ s
  Stays-add_secrets (name ∷ names) vars s =
      Stays-continue _ _ _ s (Stays-must (deps.get_secret name) s) (λ secret.
        Stays-continue _ _ _ s (refl, to_envs-ends secret) (λ envs. Stays-add_secrets names _ s))

  Stays-add_configs :
      (names : List Text) (vars : Variables) (s : Service) → Stays (add_configs deps names vars s) s
  unfolding add_configs
  Stays-add_configs [] vars s = Stays-pure _ s
  Stays-add_configs (name ∷ names) vars s =
      Stays-continue _ _ _ s (Stays-must (deps.get_config name) s) (λ config.
        Stays-continue _ _ _ s (refl, config_envs-ends config)
          (λ envs. Stays-add_configs names _ s))

  Stays-auth_of :
      (secret : Secret) (o : DockerOption) (s : Service) → Stays (auth_of deps secret o s) s
  unfolding auth_of
  Stays-auth_of (auth_secret n p) o s = Stays-pure _ s
  Stays-auth_of _ o s = (refl, λ p. cc)

  Stays-if {ℓ} :
      {A : Type ℓ} (b : Bool) (m n : Exec Service A) (s : Service)
      → Stays (m s) s
      → Stays (n s) s
      → Stays ((if b then m else n) s) s
  Stays-if true m n s h k = h
  Stays-if false m n s h k = k

  Stays-load_secret_for_docker :
      (options : List DockerOption) (s : Service) → Stays (load_secret_for_docker deps options s) s
  unfolding load_secret_for_docker
  Stays-load_secret_for_docker [] s = Stays-pure _ s
  Stays-load_secret_for_docker (o ∷ os) s =
      Stays-continue _ _ _ s
        (Stays-if (has_auth o) _ _ s
          (Stays-continue _ _ _ s (Stays-must (deps.get_secret o.auth) s)
            (λ secret. Stays-auth_of secret o s))
          (Stays-pure _ s))
        (λ o'. Stays-continue _ _ _ s (Stays-load_secret_for_docker os s) (λ os'. Stays-pure _ s))

  Stays-init_secret_env : (in' : ShellIn) (s : Service) → Stays (init_secret_env deps in' s) s
  unfolding init_secret_env
  Stays-init_secret_env in' s =
      Stays-if (has_secrets in') (add_secrets deps in'.secrets new_variables) (pure new_variables) s
        (Stays-add_secrets in'.secrets new_variables s) (Stays-pure new_variables s)

  Stays-init_config_env : (in' : ShellIn) (s : Service) → Stays (init_config_env deps in' s) s
  unfolding init_config_env
  Stays-init_config_env in' s =
      Stays-if (has_configs in') (add_configs deps in'.configs new_variables) (pure new_variables) s
        (Stays-add_configs in'.configs new_variables s) (Stays-pure new_variables s)

  Stays-prepare : (in' : ShellIn) (s : Service) → Stays (prepare deps in' s) s
  unfolding prepare
  Stays-prepare in' s =
      let plugin : Option Err = if has_plugin in' then deps.load_plugin in'.plugin else none in
      Stays-continue (panic_if_err plugin s).0 (panic_if_err plugin s).1 _ s
        (Stays-panic_if_err plugin s)
        (λ _. Stays-continue _ _ _ s (Stays-load_secret_for_docker in'.dockers s) (λ _.
          Stays-continue _ _ _ s (Stays-init_secret_env in' s)
            (λ _. Stays-continue _ _ _ s (Stays-init_config_env in' s) (λ _. Stays-pure _ s))))

  -- The command is refused, and nothing changes.
  abbrev pub Refused : Service → Outcome (Option Err) × Service → Type 0
  Refused s p = (is_some s.executor ≡ true) × (p ≡ (ret (some cmd_is_running), s))

  -- The preparation failed: one result, the failure, is sent; the agent is busy without a command.
  abbrev pub FailedEarly : ShellIn → Service → Outcome (Option Err) × Service → Type 0
  FailedEarly in1 s p =
      (is_some s.executor ≡ false)
      × (e : Err) × ((prepare deps in1 (on_busy_event s)).0 ≡ panic e)
      × (p ≡ (
        ret (some e),
        send_cmd_out (shell_out (failure_before_execute deps in1 e)) (on_busy_event s),
      ))

  abbrev pub with_executor : ShellIn → Service → Service
  with_executor in2 s = record s {
    executor = some (record { in_cmd = in2; killed = false; interacting = false; tty_in = [] });
  }

  -- The executor could not be initialised: one result is sent, and the service is released.
  abbrev pub FailedLate : ShellIn → Service → Outcome (Option Err) × Service → Type 0
  FailedLate in1 s p =
      (is_some s.executor ≡ false)
      × (e : Err) × (options : Options) × ((prepare deps in1 (on_busy_event s)).0 ≡ ret options)
      × (deps.init options ≡ some e)
      × (p ≡ (
        ret (some e),
        release (
            send_cmd_out (shell_out (failure_before_execute deps in1 e))
              (with_executor options.cmd (on_busy_event s))),
      ))

  -- The command runs: nothing has been sent yet.
  abbrev pub Accepted : ShellIn → Service → Outcome (Option Err) × Service → Type 0
  Accepted in1 s p =
      (is_some s.executor ≡ false)
      × (options : Options) × ((prepare deps in1 (on_busy_event s)).0 ≡ ret options)
      × (deps.init options ≡ none)
      × (p ≡ (ret none, with_executor options.cmd (on_busy_event s)))

  unfoldable pub ShellOutcome : ShellIn → Service → Outcome (Option Err) × Service → Type 0
  ShellOutcome in1 s p =
      Refused s p ⊎ (FailedEarly in1 s p ⊎ (FailedLate in1 s p ⊎ Accepted in1 s p))

  -- Another goroutine changes nothing behind the lock.
  abbrev pub Alone : Type 0
  Alone = (t : Service) → deps.meanwhile t ≡ t

  failed :
      (in1 : ShellIn) (e : Err) (s : Service)
      → Alone
      → fail deps in1 e s
        ≡ (ret (some e), release (send_cmd_out (shell_out (failure_before_execute deps in1 e)) s))
  unfolding fail
  failed in1 e s alone =
      ap
        (λ t. (
          ret (some e),
          release (deps.meanwhile (send_cmd_out (shell_out (failure_before_execute deps in1 e)) t)),
        ))
        (alone s)
      ∙ ap (λ t. (ret (some e), release t)) (alone _)

  launched :
      (in1 : ShellIn) (s : Service) (x : Options)
      → Alone
      → is_some s.executor ≡ false
      → (prepare deps in1 (on_busy_event s)).0 ≡ ret x
      → ShellOutcome in1 s (
          on_panic
            (fail deps in1)
            (launch deps x (on_busy_event s)).0
            (launch deps x (on_busy_event s)).1)
  unfolding ShellOutcome launch
  launched in1 s options alone h p = elim (Option-cases (deps.init options)) [
    | inl e ↦ rw e (inr (inr (inr (h, options, p, e, refl))))
    | inr (x, e) ↦ rw e (
        inr (
          inr (
            inl (
              h,
              x,
              options,
              p,
              e,
              failed in1 x (with_executor options.cmd (on_busy_event s)) alone,
            ))))
  ]

  launch-keeps :
      (x : Options) (t : Service)
      → ((launch deps x t).0 ≢ hang)
        × ((launch deps x t).1.status ≡ t.status)
        × ((launch deps x t).1.timer ≡ t.timer)
  unfolding launch
  launch-keeps x t = elim (Option-cases (deps.init x)) [
    | inl e ↦ rw e ((λ p. cc), refl, refl)
    | inr (y, e) ↦ rw e ((λ p. cc), refl, refl)
  ]

  abbrev pub IsBusy : Outcome (Option Err) × Service → Type 0
  IsBusy p = (p.0 ≢ hang) × (p.1.status ≡ busy) × (p.1.timer ≡ none)

  launched_from :
      (r : Outcome Options) (t s : Service)
      → Stays (r, t) s
      → s.status ≡ busy
      → s.timer ≡ none
      → IsBusy (continue r (launch deps) t)
  launched_from (ret x) t s (e, _) b f =
      subst (λ u. IsBusy (launch deps x u)) (sym e)
        (let (n, p, q) = launch-keeps x s in (n, p ∙ b, q ∙ f))
  launched_from (panic x) t s (e, _) b f =
      subst (λ u. IsBusy (panic x, u)) (sym e) ((λ p. cc), b, f)
  launched_from hang t s (e, n) b f = absurd (n refl)

  -- What is done under the lock behind the event on busy returns or panics, and leaves the agent busy
  -- and without a timer.
  pub prepare_launch-IsBusy :
      (in1 : ShellIn) (s : Service)
      → s.status ≡ busy
      → s.timer ≡ none
      → IsBusy ((prepare deps in1 >>= launch deps) s)
  prepare_launch-IsBusy in1 s =
      let (r, t) = prepare deps in1 s in launched_from r t s (Stays-prepare in1 s)

  accepted_from :
      (r : Outcome Options) (t s : Service) (x : Options)
      → Stays (r, t) s
      → r ≡ ret x
      → deps.init x ≡ none
      → continue r (launch deps) t ≡ (ret none, with_executor x.cmd s)
  unfolding launch
  accepted_from r t s x (e, _) h i = rw (h, e, i) refl

  -- A command that is prepared and initialised is the executor's.
  pub prepare_launch-accepts :
      (in1 : ShellIn) (s : Service) (x : Options)
      → (prepare deps in1 s).0 ≡ ret x
      → deps.init x ≡ none
      → (prepare deps in1 >>= launch deps) s ≡ (ret none, with_executor x.cmd s)
  prepare_launch-accepts in1 s x p i =
      let (r, t) = prepare deps in1 s in accepted_from r t s x (Stays-prepare in1 s) p i
