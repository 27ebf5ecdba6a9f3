-- ===== src/Executor/Docker/Config.antt =====
-- executor/docker.go: `initConfig`, the configs of a command's containers.
pub mod Nil
use flow_agent_x.Prelude.{
  ℕ, zero, suc, ◌+◌, Bool, true, false, ◌||◌, Option, none, some, List, [], ◌∷◌, ◌++◌,
  if◌then◌else◌, length, leb, set, Text, codes, is_empty,
}
use flow_agent_x.Prelude.Dict.{insert}
use flow_agent_x.Prelude.Exec.{Err, errorf, out_of_range, Result, Outcome, ret, panic, hang, chain}
use flow_agent_x.Domain.Variables.{Variables, connect_vars, resolve}
use flow_agent_x.Domain.Docker.{
  DockerOption, DockerConfig, DockerVolume, has_entrypoint, set_default_network, to_config,
  to_runtime_config, to_bind_str,
}

abbrev pub docker_network : Text
docker_network = codes "flow-ci-agent-default"

-- What `initConfig` reads besides the options: the workspace to bind, whether each volume exists,
-- whether the docker socket is mounted, the pod address where the agent runs in Kubernetes, and
-- the two orders in which `Resolve` visits the variables.
pub record Setting : Type 0 where
  pub flow_id : Text  -- after util.ParseString
  pub workspace : Text
  pub volumes : List (DockerVolume × Bool)
  pub has_sock : Bool
  pub pod_ip : Option Text
  pub vars : Variables
  pub secret_vars : Variables
  pub environment : Text → Text
  pub first : List Text
  pub second : List Text

abbrev pub docker_sock : Text
docker_sock = codes "/var/run/docker.sock"

unfoldable pub volume_binds : List (DockerVolume × Bool) → List Text
volume_binds [] = []
volume_binds ((v, found) ∷ rest) =
    let binds = volume_binds rest in if found then to_bind_str v ∷ binds else binds

unfoldable pub binds_of : Setting → List Text
unfolding volume_binds
binds_of s =
    (s.workspace ++ codes ":/ws") ∷ volume_binds s.volumes
    ++ (if s.has_sock then (docker_sock ++ codes ":" ++ docker_sock) ∷ [] else [])

unfoldable pub job_vars : Setting → Text → Variables
job_vars s job_dir =
    let v1 = insert (codes "FLOWCI_AGENT_WORKSPACE") (codes "/ws") s.vars in
    let v2 = insert (codes "FLOWCI_AGENT_JOB_DIR") job_dir v1 in
    let v3 = insert (codes "FLOWCI_AGENT_PLUGIN_DIR") (codes "/ws/.plugins") v2 in
    let v4 = insert (codes "FLOWCI_AGENT_DOCKER_NETWORK") docker_network v3 in
    elim s.pod_ip [
      | none ↦ v4
      | some ip ↦
          insert (codes "DOCKER_HOST") (codes "tcp://" ++ ip ++ codes ":2375")
            (insert (codes "FLOWCI_AGENT_IP_en0") ip v4)
    ]

module _ (fuel : ℕ) (parse_ports : List Text → Result (List Text)) where
  -- The loop over the options: the configs, a nil for each runtime option, and the last runtime
  -- option.
  unfoldable pub split_options :
      Option DockerOption
      → List DockerOption
      → Outcome (List (Option DockerConfig) × Option DockerOption)
  split_options found [] = ret ([], found)
  split_options found (item ∷ items) =
      let item' = set_default_network docker_network item in
      let skip = split_options (some item') items in
      let keep = split_options found items in
      if item.is_runtime
      then chain skip (λ r. ret (none ∷ r.0, r.1))
      else chain (to_config fuel parse_ports item') (λ c. chain keep (λ r. ret (some c ∷ r.0, r.1)))

  unfoldable pub runtime_option : Option DockerOption → List DockerOption → Outcome DockerOption
  runtime_option (some o) items = ret o
  runtime_option none [] = panic out_of_range
  runtime_option none (item ∷ []) = ret (set_default_network docker_network item)
  runtime_option none (item ∷ next ∷ items) =
      panic (errorf (codes "no runtime docker option available"))

  unfoldable pub with_entrypoint : DockerConfig → DockerConfig
  with_entrypoint c =
      if has_entrypoint c then c else record c { entrypoint = codes "/bin/bash" ∷ [] }

  unfoldable pub runtime_config : Setting → DockerOption → Outcome DockerConfig
  unfolding with_entrypoint
  runtime_config s option =
      let job_dir = codes "/ws/" ++ s.flow_id in
      chain (resolve fuel s.environment s.first s.second (job_vars s job_dir)) λ vars.
        chain
          (to_runtime_config fuel parse_ports option (connect_vars vars s.secret_vars) job_dir
            (binds_of s))
          λ c. ret (with_entrypoint c)

  -- The runtime config is stored at index 0, whatever the place of its option.
  unfoldable pub init_config : Setting → List DockerOption → Outcome (List (Option DockerConfig))
  unfolding split_options runtime_option runtime_config
  init_config s items = chain (split_options none items) λ split.
      chain (runtime_option split.1 items)
        λ option. chain (runtime_config s option) λ c. ret (set split.0 0 (some c))
