-- ===== src/Executor/Docker/Volumes.antt =====
-- executor/docker.go: the volumes and the network of an executor, which `Init` prepares.
pub mod Removed
use flow_agent_x.Prelude.{
  Bool, true, false, Option, none, some, List, [], ◌∷◌, ◌++◌, if◌then◌else◌, Text, codes,
}
use flow_agent_x.Prelude.Exec.{
  Err, Result, ok, err, Outcome, ret, panic, hang, Exec, pure, must, panic_if_err, finally, ◌>>=◌,
  ◌>>◌,
}
use flow_agent_x.Domain.Docker.{DockerVolume, has_image}
use flow_agent_x.Executor.Docker.{
  Docker, Engine, Call, volume_list, volume_create, network_list, network_create,
  container_create_init, container_start, container_wait, container_remove, ask, note,
}
use flow_agent_x.Executor.Docker.Images.{pull_image_with_name}
use flow_agent_x.Executor.Docker.Config.{docker_network}

module _ (engine : Engine) where
  -- `runCmd`: the container is removed behind its run, however the run ends.
  unfoldable pub fill : Text → Exec Docker (Unit {0})
  fill id = ask (container_start id) (λ h. engine.start h id) >>= λ started.
      panic_if_err started >> note (container_wait id)

  unfoldable pub run_cmd : DockerVolume → Exec Docker (Unit {0})
  unfolding fill
  run_cmd v = ask (container_create_init v) (λ h. engine.create_init h v) >>= λ created.
      must created >>= λ id. finally (note (container_remove id)) (fill id)

  unfoldable pub new_volume_data : DockerVolume → Exec Docker (Unit {0})
  unfolding run_cmd pull_image_with_name
  new_volume_data v = do
    e ← pull_image_with_name engine v.image none
    panic_if_err e
    created ← ask (volume_create v.name) (λ h. engine.new_volume h v.name)
    name ← must created
    run_cmd v

  unfoldable pub init_volume : DockerVolume → Exec Docker (Unit {0})
  unfolding new_volume_data
  init_volume v =
      if has_image v
      then (do
        answer ← ask (volume_list v.name) (λ h. engine.volumes_named h v.name)
        found ← must answer
        elim found [ [] ↦ new_volume_data v | _ ∷ _ ↦ pure tt ])
      else pure tt

  unfoldable pub init_volumes : List DockerVolume → Exec Docker (Unit {0})
  unfolding init_volume
  init_volumes [] = pure tt
  init_volumes (v ∷ vs) = let rest = init_volumes vs in init_volume v >> rest

  unfoldable pub init_volume_data : Exec Docker (Unit {0})
  unfolding init_volumes
  init_volume_data d = init_volumes d.volumes d

  unfoldable pub init_network : Exec Docker (Unit {0})
  init_network = do
    answer ← ask (network_list docker_network) (λ h. engine.networks_named h docker_network)
    found ← must answer
    elim found [
      | _ ∷ _ ↦ pure tt
      | [] ↦
          ask (network_create docker_network) (λ h. engine.new_network h docker_network)
          >>= λ created. must created >>= λ id. pure tt
    ]

  -- One volume of the name is wanted: the filter may match more.
  unfoldable pub get_volume : Text → Exec Docker (Option Text)
  get_volume name = do
    answer ← ask (volume_list name) (λ h. engine.volumes_named h name)
    found ← must answer
    pure (elim found [ volume ∷ [] ↦ some volume | _ ↦ none ])

  -- The volume for the workspace; none where it is mounted from the host.
  unfoldable pub init_workspace_volume : Bool → Text → Exec Docker (Option Text)
  unfolding get_volume
  init_workspace_volume false agent_id = pure none
  init_workspace_volume true agent_id =
      let name = codes "agent-" ++ agent_id in
      get_volume name >>= λ found. elim found [
        | some volume ↦ pure (some volume)
        | none ↦ ask (volume_create name) (λ h. engine.new_volume h name) >>= λ created.
            must created >>= λ volume. pure (some volume)
      ]
