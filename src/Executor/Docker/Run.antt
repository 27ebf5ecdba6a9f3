-- ===== src/Executor/Docker/Run.antt =====
-- executor/docker.go: one attempt to run a command in its containers, and the whole start.
pub mod Finish
pub mod Ends
pub mod Steps
pub mod Returns
use flow_agent_x.Prelude.{
  ℕ, zero, suc, ◌+◌, Bool, true, false, ◌||◌, Option, none, some, List, [], ◌∷◌, ◌++◌,
  if◌then◌else◌, is_some, Text, codes, is_empty, get_elem?,
}
use flow_agent_x.Prelude.Int.{ℤ, pos, negsuc}
use flow_agent_x.Prelude.Exec.{
  Err, deadline_exceeded, canceled, Result, ok, err, Outcome, ret, panic, hang, Exec, pure, throw,
  must, modify, panic_if_err, recover, finally, ◌>>=◌, ◌>>◌, nil_dereference,
}
use flow_agent_x.Domain.Docker.{DockerConfig}
use flow_agent_x.Domain.Command.{ShellIn, ShellOut, Cache, CmdStatus, exception, is_finish_status}
use flow_agent_x.Executor.Status.{to_start_status, to_finish_status, status_of_error}
use flow_agent_x.Executor.Retry.{retry_loop}
use flow_agent_x.Executor.Script.{unix, write_cmd}
use flow_agent_x.Executor.Env.{read_env_from_reader}
use flow_agent_x.Executor.Docker.{
  Docker, Engine, Host, ExecState, Call, exec_create, exec_attach, exec_start, exec_inspect,
  exec_write, container_inspect, copy_to, copy_from, ask, note, write_single_log, cache_applied,
  retry_mark,
}
use flow_agent_x.Executor.Docker.Setup.{setup_container_ip_and_bin}
use flow_agent_x.Executor.Docker.Images.{pull_image}
use flow_agent_x.Executor.Docker.Containers.{start_container, cleanup_container}

-- `d.runtime()`: the first config; its fields are read, so a nil panics.
unfoldable pub runtime : Exec Docker DockerConfig
runtime d = elim (get_elem? d.configs 0) [
  | some (some c) ↦ (ret c, d)
  | _ ↦ (panic nil_dereference, d)
]

-- `r.Status == domain.CmdStatusException || out != nil`
abbrev pub attempt_failed : Option Err → Docker → Bool
attempt_failed out d = is_some out || elim d.result.status [ exception ↦ true | _ ↦ false ]

module _ (engine : Engine) (host : Host) where
  -- The polls of `waitForExit`, on fuel.
  unfoldable pub poll : ℕ → Text → Exec Docker ℤ
  poll zero eid = λ d. (hang, d)
  poll (suc fuel) eid =
      let again = poll fuel eid in
      ask (exec_inspect eid) (λ h. engine.exec_state h eid) >>= must >>= λ state.
      if state.running then again else pure state.exit_code

  unfoldable pub wait_for_exit : ℕ → Text → (ℕ → Docker → Docker) → Exec Docker ℤ
  unfolding poll
  wait_for_exit fuel eid on_started = do
    answer ← ask (exec_inspect eid) (λ h. engine.exec_state h eid)
    first ← must answer
    modify (on_started first.pid)
    poll fuel eid

  unfoldable pub exec_single_script : ℕ → Text → Exec Docker ℤ
  unfolding runtime wait_for_exit
  exec_single_script fuel script = do
    c ← runtime
    created ←
        ask (exec_create c.container_id (codes "/bin/bash" ∷ codes "-c" ∷ script ∷ []))
          (λ h. engine.new_exec h c.container_id)
    eid ← must created
    started ← ask (exec_start eid) (λ h. engine.start_exec h eid)
    panic_if_err started
    wait_for_exit fuel eid (λ pid d. d)

  -- Runs in a context of its own; a panic is turned into the exit code -1.
  unfoldable pub run_single_script : ℕ → Text → Exec Docker ℤ
  unfolding exec_single_script
  run_single_script fuel script = recover (λ e. pure (negsuc 0)) (exec_single_script fuel script)

  unfoldable pub copy_plugins : Exec Docker (Unit {0})
  unfolding runtime
  copy_plugins d =
      if is_empty d.plugin_dir
      then (ret tt, d)
      else (do
        tar ← must (host.archive d.plugin_dir)
        c ← runtime
        copied ←
            ask (copy_to c.container_id (codes "/ws") tar) (λ h. engine.copy_in h c.container_id)
        panic_if_err copied)
          d

  unfoldable pub copy_cache_files : ℕ → List Text → Exec Docker (Unit {0})
  unfolding runtime run_single_script
  copy_cache_files fuel [] = pure tt
  copy_cache_files fuel (f ∷ fs) =
      let rest = copy_cache_files fuel fs in
      (do
        d ← (λ d. (ret d, d))
        tar ← must (host.archive (d.cache_input_dir ++ codes "/" ++ f))
        code ← run_single_script fuel (codes "rm -rf " ++ d.job_dir ++ codes "/" ++ f)
        c ← runtime
        copied ← ask (copy_to c.container_id d.job_dir tar) (λ h. engine.copy_in h c.container_id)
        panic_if_err copied
        modify (write_single_log (cache_applied f))
        modify (λ t. record t { removed = (d.cache_input_dir ++ codes "/" ++ f) ∷ t.removed })
        rest)

  unfoldable pub read_cache : ℕ → Exec Docker (Unit {0})
  unfolding copy_cache_files
  read_cache fuel d = (must (host.read_dir d.cache_input_dir) >>= copy_cache_files fuel) d

  -- A panic is only logged.
  unfoldable pub copy_cache : ℕ → Exec Docker (Unit {0})
  unfolding read_cache
  copy_cache fuel d =
      if is_empty d.cache_input_dir then (ret tt, d) else recover (λ e. pure tt) (read_cache fuel) d

  -- The lines that `writeCmd` writes one by one are recorded as one write.
  unfoldable pub run_shell : Exec Docker Text
  unfolding runtime
  run_shell = do
    c ← runtime
    created ← ask (exec_create c.container_id c.entrypoint) (λ h. engine.new_exec h c.container_id)
    eid ← must created
    attached ← ask (exec_attach eid) (λ h. engine.attach h eid)
    panic_if_err attached
    note (exec_write eid (codes "echo $$ > /tmp/.shell.pid\n" ∷ []))
    setup ← setup_container_ip_and_bin engine host
    d ← (λ d. (ret d, d))
    let written = write_cmd unix d.volumes setup (codes "env > /tmp/.env" ∷ []) (λ s. s) d.in_cmd
    note (exec_write eid written.0)
    panic_if_err written.1
    pure eid

  unfoldable pub export_env : Exec Docker (Unit {0})
  unfolding runtime
  export_env = do
    c ← runtime
    answer ←
        ask (copy_from c.container_id (codes "/tmp/.env")) (λ h. engine.copy_out h c.container_id)
    modify (λ d. elim answer [
      | err e ↦ d
      | ok text ↦ record d {
        result = record d.result { output = read_env_from_reader text d.in_cmd.env_filters };
      }
    ])

  unfoldable pub wait_for_tty : Exec Docker (Unit {0})
  wait_for_tty d =
      if d.interacting then (if host.tty_ends then (ret tt, d) else (hang, d)) else (ret tt, d)

  unfoldable pub write_cache_paths : List Text → Exec Docker (Unit {0})
  unfolding runtime
  write_cache_paths [] = pure tt
  write_cache_paths (path ∷ paths) =
      let rest = write_cache_paths paths in
      (do
        d ← (λ d. (ret d, d))
        c ← runtime
        note (copy_from c.container_id (d.job_dir ++ codes "/" ++ path))
        rest)

  unfoldable pub write_cache : Exec Docker (Unit {0})
  unfolding write_cache_paths
  write_cache d = elim d.in_cmd.cache [
    | none ↦ (ret tt, d)
    | some cache ↦ elim host.temp_dir [
      | err e ↦ (ret tt, d)
      | ok dir ↦ write_cache_paths cache.paths (record d { cache_output_dir = dir })
    ]
  ]

  unfoldable pub kill : ℕ → Exec Docker (Unit {0})
  unfolding run_single_script
  kill fuel = do
    shell ← run_single_script fuel (codes "kill -9 $(cat /tmp/.shell.pid)")
    tty ← run_single_script fuel (codes "kill -9 $(cat /tmp/.tty.pid)")
    pure tt

  unfoldable pub record_error : Err → Exec Docker (Option Err)
  record_error e d =
      let (r, out) = status_of_error host.now e d.result in (ret out, record d { result = r })

  -- A timeout or a cancellation kills the scripts first.
  unfoldable pub handle_errors : ℕ → Err → Exec Docker (Option Err)
  unfolding kill record_error
  handle_errors fuel deadline_exceeded = kill fuel >> record_error deadline_exceeded
  handle_errors fuel canceled = kill fuel >> record_error canceled
  handle_errors fuel e = record_error e

  -- The end of an attempt whose script has come to an end.
  unfoldable pub settle : ℤ → Exec Docker (Option Err)
  settle code d = if is_finish_status d.result.status then (ret none, d) else (
    ret none,
    record d { result = to_finish_status host.now d.in_cmd.allow_failure code d.result },
  )

  -- Everything up to the exit of the script and the copies that follow it.
  unfoldable pub run_script : ℕ → Exec Docker ℤ
  run_script fuel = do
    pull_image engine
    start_container engine
    copy_plugins
    copy_cache fuel
    eid ← run_shell
    code ← wait_for_exit fuel eid (λ pid d. record d { result = to_start_status pid d.result })
    export_env
    wait_for_tty
    write_cache
    pure code

  unfoldable pub run_attempt : ℕ → Exec Docker (Option Err)
  unfolding run_script settle
  run_attempt fuel = do code ← run_script fuel; settle code

  -- The containers are cleaned up before a panic is handled: deferred calls run last in, first out.
  unfoldable pub do_start : ℕ → Exec Docker (Option Err)
  do_start fuel = recover (handle_errors fuel) (finally cleanup_container (run_attempt fuel))

  unfoldable pub start : ℕ → Exec Docker (Option Err)
  start fuel d =
      retry_loop (do_start fuel) attempt_failed (write_single_log retry_mark) d.in_cmd.retry d
