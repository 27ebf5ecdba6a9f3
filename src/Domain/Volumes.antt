-- ===== src/Domain/Volumes.antt =====
-- domain/docker.go: `NewVolumesFromString`.
pub mod Parsed
use flow_agent_x.Prelude.{
  ℕ, Bool, true, false, List, [], ◌∷◌, ◌++◌, ◌==◌, if◌then◌else◌, Text, codes, is_empty,
}
use flow_agent_x.Prelude.Exec.{errorf, Outcome, ret, panic, hang, chain}
use flow_agent_x.Domain.Docker.{DockerVolume}

pub put_first : ℕ → List Text → List Text
put_first c [] = (c ∷ []) ∷ []
put_first c (x ∷ xs) = (c ∷ x) ∷ xs

-- strings.Split for a separator of one byte
unfoldable pub split : ℕ → Text → List Text
unfolding put_first
split b [] = [] ∷ []
split b (c ∷ s) = let rest = split b s in if c == b then [] ∷ rest else put_first c rest

unfoldable pub get_value : Text → Outcome Text
unfolding split
get_value val = elim (split b'=' val) [
  | _ ∷ value ∷ [] ↦ ret value
  | _ ↦ panic (errorf (codes "'%s' is invalid volume string, must be key=value pair"))
]

unfoldable pub volume_of : List Text → Outcome DockerVolume
unfolding get_value
volume_of (a ∷ b ∷ c ∷ d ∷ e ∷ []) = chain (get_value a) λ name. chain (get_value b) λ dest.
    chain (get_value c) λ script. chain (get_value d) λ image.
      chain (get_value e) λ init.
        ret (record { name = name; dest = dest; script = script; image = image; init = init })
volume_of _ = panic (
    errorf (codes "'%s' is invalid volume string, fields must contain name,dest,script,image,init"))

unfoldable pub volumes_of : List Text → Outcome (List DockerVolume)
unfolding volume_of
volumes_of [] = ret []
volumes_of (token ∷ tokens) =
    let rest = volumes_of tokens in
    if is_empty token
    then rest
    else chain (volume_of (split b',' token)) (λ v. chain rest (λ vs. ret (v ∷ vs)))

unfoldable pub new_volumes_from_string : Text → Outcome (List DockerVolume)
unfolding volumes_of
new_volumes_from_string val = if is_empty val then ret [] else volumes_of (split b';' val)
