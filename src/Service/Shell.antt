-- ===== src/Service/Shell.antt =====
-- service/cmd_service.go: running a shell command.
pub mod Outcomes
use flow_agent_x.Prelude.{
  ℕ, Bool, true, false, Option, none, some, List, [], ◌∷◌, ◌++◌, if◌then◌else◌, is_some, Text,
  codes, is_empty,
}
use flow_agent_x.Prelude.Int.{ℤ, negsuc, pos}
use flow_agent_x.Prelude.Exec.{
  Err, errorf, cmd_is_running, Result, ok, err, Outcome, ret, panic, hang, Exec, pure, throw, must,
  modify, panic_if_err, recover, ◌>>=◌, ◌>>◌,
}
use flow_agent_x.Domain.Variables.{Variables, new_variables, add_map_vars}
use flow_agent_x.Domain.Docker.{DockerOption, has_auth}
use flow_agent_x.Domain.Command.{
  ShellIn, ShellOut, Cache, exception, has_secrets, has_configs, has_plugin,
}
use flow_agent_x.Domain.Secret.{
  Secret, auth_secret, rsa_secret, token_secret, to_envs, Config, config_envs,
}
use flow_agent_x.Service.{Service, Deps, Options, Running, CmdOut, shell_out, send_cmd_out}
use flow_agent_x.Service.Manager.{on_idle_event, on_busy_event}

-- The executor is closed, which cancels it, and dropped; then the event on idle is fired. No lock is
-- held: this is release where no other goroutine acts between the two.
unfoldable pub drop_executor : Service → Service
drop_executor s = record s { executor = none }

unfoldable pub release : Service → Service
unfolding on_idle_event drop_executor
release s = elim s.executor [ none ↦ s | some e ↦ on_idle_event (drop_executor s) ]

unfoldable pub init_shell_cmd : Text → ShellIn → ShellIn
init_shell_cmd new_id in' =
    let named = if is_empty in'.id then record in' { id = new_id } else in' in
    elim in'.inputs [ none ↦ record named { inputs = some [] } | some v ↦ named ]

abbrev pub run_outcome {ℓ} : {A : Type ℓ} → Outcome A → Exec Service A
run_outcome r s = (r, s)

module _ (deps : Deps) where
  unfoldable pub add_secrets : List Text → Variables → Exec Service Variables
  add_secrets [] vars = pure vars
  add_secrets (name ∷ names) vars =
      let rest = add_secrets names in
      must (deps.get_secret name) >>= λ secret.
      run_outcome (to_envs secret) >>= λ envs. rest (add_map_vars vars envs)

  unfoldable pub init_secret_env : ShellIn → Exec Service Variables
  unfolding add_secrets
  init_secret_env in' =
      if has_secrets in' then add_secrets in'.secrets new_variables else pure new_variables

  unfoldable pub add_configs : List Text → Variables → Exec Service Variables
  add_configs [] vars = pure vars
  add_configs (name ∷ names) vars =
      let rest = add_configs names in
      must (deps.get_config name) >>= λ config.
      run_outcome (config_envs config) >>= λ envs. rest (add_map_vars vars envs)

  unfoldable pub init_config_env : ShellIn → Exec Service Variables
  unfolding add_configs
  init_config_env in' =
      if has_configs in' then add_configs in'.configs new_variables else pure new_variables

  -- A secret of another category than an auth pair is refused.
  unfoldable pub auth_of : Secret → DockerOption → Exec Service DockerOption
  auth_of (auth_secret name pair) option = pure (record option { auth_content = pair })
  auth_of _ option =
      throw (errorf (codes "the secret '%s' is invalid, the secret category should be 'Auth pair'"))

  unfoldable pub load_secret_for_docker : List DockerOption → Exec Service (List DockerOption)
  unfolding auth_of
  load_secret_for_docker [] = pure []
  load_secret_for_docker (option ∷ options) =
      let rest = load_secret_for_docker options in
      (if has_auth option
        then (must (deps.get_secret option.auth) >>= λ secret. auth_of secret option)
        else pure option)
      >>= λ option'. rest >>= λ options'. pure (option' ∷ options')

  -- Download, which also resolves the key and the paths of the command's cache.
  abbrev pub downloaded : ShellIn → Text × Option Cache
  downloaded in' = elim in'.cache [
    | none ↦ ([], none)
    | some c ↦ let (dir, resolved) = deps.download in' c in (dir, some resolved)
  ]

  -- Everything up to the new executor: what it is given.
  unfoldable pub prepare : ShellIn → Exec Service Options
  unfolding init_secret_env init_config_env load_secret_for_docker
  prepare in' = panic_if_err (if has_plugin in' then deps.load_plugin in'.plugin else none) >>= λ _.
      load_secret_for_docker in'.dockers >>= λ dockers. init_secret_env in' >>= λ secret_vars.
      init_config_env in' >>= λ config_vars. pure (record {
        cmd = record in' { dockers = dockers; cache = (downloaded in').1 };
        cache_src_dir = (downloaded in').0;
        secret_vars = secret_vars;
        config_vars = config_vars;
      })

  -- The executor is stored before it is initialised.
  unfoldable pub launch : Options → Exec Service (Option Err)
  launch options =
      modify (λ s. record s {
        executor =
            some
              (record { in_cmd = options.cmd; killed = false; interacting = false; tty_in = [] });
      })
      >>= λ _. panic_if_err (deps.init options) >>= λ _. pure none

  unfoldable pub failure_before_execute : ShellIn → Err → ShellOut
  failure_before_execute in' e = record {
    id = in'.id;
    process_id = 0;
    containers = [];
    status = exception;
    code = pos 0;
    output = [];
    start_at = deps.now;
    finish_at = deps.now;
    error = some e;
    log_size = 0;
  }

  -- The deferred function, which runs when the lock is free again.
  unfoldable pub fail : ShellIn → Err → Exec Service (Option Err)
  unfolding failure_before_execute release
  fail in' e s =
      let t = send_cmd_out (shell_out (failure_before_execute in' e)) (deps.meanwhile s) in
      (ret (some e), release (deps.meanwhile t))

  -- What is done under the lock.
  unfoldable pub exec_locked : ShellIn → Exec Service (Option Err)
  unfolding prepare launch on_busy_event
  exec_locked in1 s =
      if is_some s.executor
      then (ret (some cmd_is_running), s)
      else (prepare in1 >>= launch) (on_busy_event s)

  unfoldable pub exec_shell : ShellIn → Exec Service (Option Err)
  unfolding exec_locked fail init_shell_cmd
  exec_shell in' s =
      let in1 = init_shell_cmd deps.new_id in' in recover (fail in1) (exec_locked in1) s
