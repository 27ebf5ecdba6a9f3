-- ===== src/Executor/Docker/Containers/Ids.antt =====
-- The ids that a start leaves behind.
use flow_agent_x.Prelude.{ℕ, ◌≡◌, ◌≢◌, Option, none, some, List, [], ◌∷◌, ◌++◌, Text}
use flow_agent_x.Prelude.Exec.{ret, ok}
use flow_agent_x.Domain.Docker.{DockerConfig}
use flow_agent_x.Executor.Docker.{Docker, Engine, Call, container_inspect, container_create, exited}
use flow_agent_x.Executor.Docker.Containers.{start_from}

-- The engine has exited and restarted the container of an id that is not empty, when it was asked
-- behind the calls `h`.
abbrev pub Restarts : Engine → List Call → Text → Type 0
Restarts engine h id =
    (id ≢ [])
    × (engine.inspect h id ≡ exited)
    × (engine.restart (container_inspect id ∷ h) id ≡ none)

-- The calls before, configs before, stored ids, configs after. A container that the engine restarts
-- keeps its id, and the empty text is stored. For any other the engine makes and starts one, behind
-- the calls `k`, and its id is in both places.
pub data Started (engine : Engine)
    : List Call → List (Option DockerConfig) → List Text → List (Option DockerConfig) → Type 0 where
  no_config : {h : List Call} → Started engine h [] [] []
  resumed :
      {h l : List Call} {c : DockerConfig} {rest after : List (Option DockerConfig)}
      {ids : List Text}
      → Restarts engine h c.container_id
      → Started engine l rest ids after
      → Started engine h (some c ∷ rest) ([] ∷ ids) (some c ∷ after)
  created :
      {h l : List Call} {c : DockerConfig} {rest after : List (Option DockerConfig)}
      {ids : List Text} (id : Text) (k : List Call)
      → ¬ Restarts engine h c.container_id
      → engine.create k c ≡ ok id
      → engine.start (container_create c ∷ k) id ≡ none
      → Started engine l rest ids after
      → Started engine h (some c ∷ rest) (id ∷ ids) (some (record c { container_id = id }) ∷ after)

module _ (engine : Engine) where
  abbrev Run :
      List Call
      → List (Option DockerConfig)
      → List (Option DockerConfig)
      → List Text
      → Docker
      → Type 0
  Run h done rest ids d' =
      (after : List (Option DockerConfig)) × (d'.configs ≡ done ++ after)
      × Started engine h rest ids after

  abbrev Keeps : List (Option DockerConfig) → ℕ → List (Option DockerConfig) → Type 0
  Keeps rest i done =
      (d d' : Docker) (ids : List Text)
      → d.configs ≡ done ++ rest
      → start_from engine i rest d ≡ (ret ids, d')
      → Run d.calls done rest ids d'
