-- ===== src/Executor/Docker/Containers.antt =====
-- executor/docker.go: starting, resuming and cleaning up the containers of a command.
pub mod Ids
use flow_agent_x.Prelude.{
  ℕ, zero, suc, ◌≡◌, Bool, true, false, Option, none, some, List, [], ◌∷◌, ◌++◌, arith,
  if◌then◌else◌, set, Text, is_empty,
}
use flow_agent_x.Prelude.Exec.{
  Err, Result, ok, err, Outcome, ret, panic, hang, Exec, pure, throw, must, modify, panic_if_err,
  ◌>>=◌, ◌>>◌, nil_dereference,
}
use flow_agent_x.Domain.Docker.{DockerConfig}
use flow_agent_x.Domain.Command.{ShellOut}
use flow_agent_x.Executor.Docker.{
  Docker, Engine, Call, note, container_create, container_start, container_inspect,
  container_restart, container_remove, container_stop, Inspection, not_found, failed, exited,
  other_state, ask, write_single_log, container_started,
}

module _ (engine : Engine) where
  -- Whether the container runs again; a container that cannot be restarted is removed.
  unfoldable pub resume : Text → Exec Docker Bool
  resume [] = pure false
  resume (c ∷ cid) = do
    let id = c ∷ cid
    state ← ask (container_inspect id) (λ h. engine.inspect h id)
    elim state [
      | not_found ↦ pure false
      | failed e ↦ throw e
      | other_state ↦ pure false
      | exited ↦ ask (container_restart id) (λ h. engine.restart h id) >>= λ answer. elim answer [
        | none ↦ pure true
        | some e ↦ note (container_remove id) >> pure false
      ]
    ]

  -- Creates and starts the container of config `i`, and yields its id.
  unfoldable pub create_container : ℕ → DockerConfig → Exec Docker Text
  create_container i c = do
    created ← ask (container_create c) (λ h. engine.create h c)
    id ← must created
    started ← ask (container_start id) (λ h. engine.start h id)
    panic_if_err started
    modify (write_single_log (container_started c.image id))
    modify (λ d. record d { configs = set d.configs i (some (record c { container_id = id })) })
    pure id

  -- The loop from config `i` on: the ids that it stores, the empty text for a resumed container.
  unfoldable pub start_from : ℕ → List (Option DockerConfig) → Exec Docker (List Text)
  unfolding resume create_container
  start_from i [] = pure []
  start_from i (none ∷ rest) = throw nil_dereference
  start_from i (some c ∷ rest) =
      let later = start_from (suc i) rest in
      resume c.container_id >>= λ resumed.
      (if resumed then pure [] else create_container i c) >>= λ id. later >>= λ ids. pure (id ∷ ids)

  unfoldable pub start_container : Exec Docker (Unit {0})
  unfolding start_from
  start_container = do
    configs ← (λ d. (ret d.configs, d))
    ids ← start_from 0 configs
    modify (λ d. record d { result = record d.result { containers = ids } })

-- Errors of the clean-up are only logged. A nil config is dereferenced.
unfoldable pub cleanup_from : List (Option DockerConfig) → Exec Docker (Unit {0})
cleanup_from [] = pure tt
cleanup_from (none ∷ rest) = throw nil_dereference
cleanup_from (some c ∷ rest) =
    let later = cleanup_from rest in
    if c.is_delete
    then note (container_remove c.container_id) >> later
    else if c.is_stop
    then note (container_stop c.container_id) >> later
    else later

unfoldable pub cleanup_container : Exec Docker (Unit {0})
unfolding cleanup_from
cleanup_container d = cleanup_from d.configs d
