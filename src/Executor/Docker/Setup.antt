-- ===== src/Executor/Docker/Setup.antt =====
-- executor/docker.go: the lines that `runShell` writes before the scripts of a command.
use flow_agent_x.Prelude.{
  ℕ, zero, suc, ◌-◌, ◌/◌, ◌%◌, ◌+◌, Option, none, some, List, [], ◌∷◌, ◌++◌, if◌then◌else◌, length,
  take, ltb, Text, codes, is_empty,
}
use flow_agent_x.Prelude.Exec.{ok, err, Exec, pure, throw, ◌>>=◌, nil_dereference}
use flow_agent_x.Domain.Docker.{DockerConfig}
use flow_agent_x.Executor.Docker.{Docker, Engine, Host, container_inspect, ask}

-- `%d` of a number that is below ten to the fuel.
unfoldable pub decimal : ℕ → ℕ → Text
decimal zero n = []
decimal (suc fuel) n =
    let front = decimal fuel (n / 10) in (if ltb n 10 then [] else front) ++ (48 + n % 10) ∷ []

-- Each address of a network with a comma behind it.
unfoldable pub with_commas : List Text → Text
with_commas [] = []
with_commas (ip ∷ ips) = ip ++ codes "," ++ with_commas ips

unfoldable pub address_of : Text → List Text → Text
unfolding with_commas
address_of address [] = address
address_of address (ip ∷ ips) =
    let all = address ++ with_commas (ip ∷ ips) in
    if is_empty address then take (length all - 1) all else address

unfoldable pub container_lines : ℕ → Text → Text → List Text
unfolding decimal
container_lines i id address =
    (codes "export CONTAINER_ID_" ++ decimal (suc i) i ++ codes "=" ++ id)
    ∷ (codes "export CONTAINER_IP_" ++ decimal (suc i) i ++ codes "=" ++ address)
    ∷ []

abbrev docker_bin : Text
docker_bin = codes "/ws/bin"

unfoldable pub tool_lines : List (Text × Text × Text) → List Text
tool_lines [] = []
tool_lines ((name, content, permission) ∷ rest) =
    let path = docker_bin ++ codes "/" ++ name in
    (codes "echo -e \"" ++ content ++ codes "\" | base64 -d > " ++ path)
    ∷ (codes "chmod " ++ permission ++ codes " " ++ path)
    ∷ tool_lines rest

module _ (engine : Engine) (host : Host) where
  -- The loop over the configs. The error of an inspection is dropped, and its settings are nil then.
  unfoldable pub inspect_all : ℕ → List (Option DockerConfig) → Exec Docker (List Text)
  unfolding container_lines address_of
  inspect_all i [] = pure []
  inspect_all i (none ∷ rest) = throw nil_dereference
  inspect_all i (some c ∷ rest) =
      let later = inspect_all (suc i) rest in
      ask (container_inspect c.container_id) (λ h. engine.address h c.container_id) >>= λ answer.
      elim answer [
        | err e ↦ throw nil_dereference
        | ok (address, networks) ↦ later >>= λ lines.
            pure (container_lines i c.container_id (address_of address networks) ++ lines)
      ]

  unfoldable pub setup_container_ip_and_bin : Exec Docker (List Text)
  unfolding inspect_all tool_lines
  setup_container_ip_and_bin d =
      (inspect_all 0 d.configs >>= λ lines. pure (
          lines
          ++ (codes "mkdir -p " ++ docker_bin)
            ∷ (codes "export PATH=" ++ docker_bin ++ codes ":$PATH")
            ∷ tool_lines host.tools))
        d
