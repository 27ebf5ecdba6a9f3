-- ===== src/Executor/Docker/Images.antt =====
-- executor/docker.go: finding and pulling images.
pub mod Pulls
use flow_agent_x.Prelude.{
  ℕ, zero, suc, ◌+◌, ◌≡◌, refl, Bool, true, false, ◌||◌, Option, none, some, List, [], ◌∷◌, ◌++◌,
  arith, leb, if◌then◌else◌, length, Text, text_eq, codes, ◌==◌,
}
use flow_agent_x.Prelude.Exec.{
  Err, Result, ok, err, Outcome, ret, panic, hang, Exec, pure, ◌>>=◌, ◌>>◌, modify, panic_if_err,
  throw, nil_dereference,
}
use flow_agent_x.Domain.Docker.{SimpleAuthPair, DockerConfig}
use flow_agent_x.Executor.Docker.{
  Docker, Engine, Call, image_list, image_pull, ask, write_single_log, unable_to_pull, stream,
}

abbrev pub docker_pull_retry : ℕ
docker_pull_retry = 3

-- how often the byte stands in the text
pub occurrences : ℕ → Text → ℕ
occurrences b [] = 0
occurrences b (c ∷ s) = let rest = occurrences b s in if c == b then suc rest else rest

-- The items of strings.Split are one more than its separators.
unfoldable pub is_docker_hub_image : Text → Bool
unfolding occurrences
is_docker_hub_image image = leb (occurrences b'/' image + 1) 2

unfoldable pub full_reference : Text → Text
unfolding is_docker_hub_image
full_reference image =
    if is_docker_hub_image image
    then (if leb 1 (occurrences b'/' image)
        then codes "docker.io/" ++ image
        else codes "docker.io/library/" ++ image)
    else image

contains : List Text → Text → Bool
contains [] t = false
contains (x ∷ xs) t = text_eq x t || contains xs t

pub any_contains : List (List Text) → Text → Bool
unfolding contains
any_contains [] t = false
any_contains (tags ∷ rest) t = contains tags t || any_contains rest t

module _ (engine : Engine) where
  unfoldable pub find_image_locally : Text → Exec Docker (Result Bool)
  unfolding any_contains
  find_image_locally image = do
    answer ← ask image_list engine.repo_tags
    elim answer [ err e ↦ pure (err e) | ok tags ↦ pure (ok (any_contains tags image)) ]

  -- The pull loop with `left` rounds to go; `out` is the error to return, which a later success
  -- does not clear.
  unfoldable pub pull_loop :
      ℕ → Text → Option SimpleAuthPair → Option Err → Exec Docker (Option Err)
  pull_loop zero image auth out = pure out
  pull_loop (suc left) image auth out =
      let retry = λ (e : Err). pull_loop left image auth (some e) in
      ask (image_pull (full_reference image) auth) (λ h. engine.pull h (full_reference image))
      >>= λ answer. elim answer [
        | err e ↦ modify (write_single_log (unable_to_pull image e)) >> retry e
        | ok text ↦ modify (write_single_log (stream text)) >> pure out
      ]

  -- The error of the search is dropped: the test after it reads `out`, which is nil there. The
  -- encoding of the credentials does not fail.
  unfoldable pub pull_image_with_name : Text → Option SimpleAuthPair → Exec Docker (Option Err)
  unfolding find_image_locally pull_loop
  pull_image_with_name image auth = do
    found ← find_image_locally image
    elim found [
      | ok true ↦ pure none
      | ok false ↦ pull_loop docker_pull_retry image auth none
      | err e ↦ pull_loop docker_pull_retry image auth none
    ]

  -- `pullImage` over the configs; a nil entry is dereferenced.
  unfoldable pub pull_images : List (Option DockerConfig) → Exec Docker (Unit {0})
  unfolding pull_image_with_name
  pull_images [] = pure tt
  pull_images (none ∷ rest) = throw nil_dereference
  pull_images (some c ∷ rest) = do
    e ← pull_image_with_name c.image c.auth
    panic_if_err e
    pull_images rest

  unfoldable pub pull_image : Exec Docker (Unit {0})
  unfolding pull_images
  pull_image d = pull_images d.configs d
