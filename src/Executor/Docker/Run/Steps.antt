-- ===== src/Executor/Docker/Run/Steps.antt =====
-- The steps of an attempt that wait for nothing come to an end.
use flow_agent_x.Prelude.{
  ℕ, suc, ◌≡◌, ◌≢◌, refl, Bool, true, false, inl, inr, Option, none, some, List, [], ◌∷◌, arith,
  if◌then◌else◌, Bool-cases, Option-cases, Text, codes,
}
use flow_agent_x.Prelude.Int.{ℤ}
use flow_agent_x.Prelude.Exec.{
  Result, ok, err, Outcome, ret, panic, hang, pure, after, restore, ◌>>=◌,
}
use flow_agent_x.Domain.Docker.{DockerConfig}
use flow_agent_x.Domain.Command.{Cache, is_finish_status}
use flow_agent_x.Executor.Script.{write_cmd, unix}
use flow_agent_x.Executor.Docker.{Docker, Engine, Host}
use flow_agent_x.Executor.Docker.Setup.{inspect_all, setup_container_ip_and_bin}
use flow_agent_x.Executor.Docker.Images.{pull_images, pull_image_with_name}
use flow_agent_x.Executor.Docker.Images.Pulls.{pull_image_with_name-outcome}
use flow_agent_x.Executor.Docker.Containers.{
  resume, create_container, start_from, start_container, cleanup_from, cleanup_container,
}
use flow_agent_x.Executor.Docker.Run.{run_shell, export_env, write_cache_paths, write_cache, settle}
use flow_agent_x.Executor.Docker.Run.Ends.{never_hangs, must-ends, panic_if_err-ends, runtime-ends}

cleanup_from-ends : (cs : List (Option DockerConfig)) (d : Docker) → (cleanup_from cs d).0 ≢ hang
unfolding cleanup_from
cleanup_from-ends [] d = λ p. cc
cleanup_from-ends (none ∷ cs) d = λ p. cc
cleanup_from-ends (some c ∷ cs) d = elim (Bool-cases c.is_delete) [
  | inl e ↦ rw e (cleanup_from-ends cs _)
  | inr e ↦ elim (Bool-cases c.is_stop) [
    | inl f ↦ rw (e, f) (cleanup_from-ends cs _)
    | inr f ↦ rw (e, f) (cleanup_from-ends cs d)
  ]
]

restore-ends {ℓ} :
    {A : Type ℓ} (r : Outcome A) (c : Outcome (Unit {0})) → r ≢ hang → c ≢ hang → restore r c ≢ hang
restore-ends r (ret _) h k = h
restore-ends r (panic e) h k = λ p. cc
restore-ends r hang h k = absurd (k refl)

pub cleaned-ends {ℓ} :
    {A : Type ℓ} (r : Outcome A) (d : Docker) → r ≢ hang → (after cleanup_container r d).0 ≢ hang
unfolding cleanup_container
cleaned-ends (ret a) d h = restore-ends (ret a) _ h (cleanup_from-ends d.configs d)
cleaned-ends (panic e) d h = restore-ends (panic e) _ h (cleanup_from-ends d.configs d)
cleaned-ends hang d h = absurd (h refl)

pub export_env-ends :
    (engine : Engine) (host : Host) (d : Docker) → (export_env engine host d).0 ≢ hang
unfolding export_env
export_env-ends engine host d = never_hangs _ _ _ (runtime-ends d) (λ c d1 p. cc)

module _ (engine : Engine) (host : Host) where
  pub pull_images-ends :
      (cs : List (Option DockerConfig)) (d : Docker) → (pull_images engine cs d).0 ≢ hang
  unfolding pull_images
  pull_images-ends [] d = λ p. cc
  pull_images-ends (none ∷ cs) d = λ p. cc
  pull_images-ends (some c ∷ cs) d =
      never_hangs _ _ _ returns
        (λ e d1. never_hangs _ _ _ (panic_if_err-ends e d1) (λ _ d2. pull_images-ends cs d2))
    where
      returns : (pull_image_with_name engine c.image c.auth d).0 ≢ hang
      returns = let p = (pull_image_with_name-outcome engine c.image c.auth d).run in rw p (λ q. cc)

  resume-ends : (cid : Text) (d : Docker) → (resume engine cid d).0 ≢ hang
  unfolding resume
  resume-ends [] d = λ p. cc
  resume-ends (c ∷ cid) d = ground arith

  create_container-ends :
      (i : ℕ) (c : DockerConfig) (d : Docker) → (create_container engine i c d).0 ≢ hang
  unfolding create_container
  create_container-ends i c d =
      never_hangs _ _ _ (must-ends (engine.create d.calls c) _)
        (λ id d1. never_hangs _ _ _ (panic_if_err-ends (engine.start d1.calls id) _) (λ _ d2 p. cc))

  start_from-ends :
      (i : ℕ) (cs : List (Option DockerConfig)) (d : Docker) → (start_from engine i cs d).0 ≢ hang
  unfolding start_from
  start_from-ends i [] d = λ p. cc
  start_from-ends i (none ∷ cs) d = λ p. cc
  start_from-ends i (some c ∷ cs) d = never_hangs _ _ _ (resume-ends c.container_id d) (λ r d1.
      never_hangs _ _ _ (id_of r d1)
        (λ id d2. never_hangs _ _ _ (start_from-ends (suc i) cs d2) (λ ids d3 p. cc)))
    where
      id_of :
          (r : Bool) (d1 : Docker)
          → ((if r then pure [] else create_container engine i c) d1).0 ≢ hang
      id_of true d1 = λ p. cc
      id_of false d1 = create_container-ends i c d1

  pub start_container-ends : (d : Docker) → (start_container engine d).0 ≢ hang
  unfolding start_container
  start_container-ends d = never_hangs _ _ _ (start_from-ends 0 d.configs d) (λ ids d1 p. cc)

  inspect_all-ends :
      (i : ℕ) (cs : List (Option DockerConfig)) (d : Docker)
      → (inspect_all engine host i cs d).0 ≢ hang
  unfolding inspect_all
  inspect_all-ends i [] d = λ p. cc
  inspect_all-ends i (none ∷ cs) d = λ p. cc
  inspect_all-ends i (some c ∷ cs) d =
      pick (engine.address d.calls c.container_id) refl (inspect_all-ends (suc i) cs)
    where
      pick :
          (r : Result (Text × List Text))
          → engine.address d.calls c.container_id ≡ r
          → ((t : Docker) → (inspect_all engine host (suc i) cs t).0 ≢ hang)
          → (inspect_all engine host i (some c ∷ cs) d).0 ≢ hang
      pick (err x) e rest = rw (e, ◌>>=◌) (λ p. cc)
      pick (ok a) e rest = rw (e, ◌>>=◌) (never_hangs _ _ _ (rest _) (λ ls d1 p. cc))

  pub run_shell-ends : (d : Docker) → (run_shell engine host d).0 ≢ hang
  unfolding run_shell setup_container_ip_and_bin
  run_shell-ends d = never_hangs _ _ _ (runtime-ends d) (λ c d1.
      never_hangs _ _ _ (must-ends (engine.new_exec d1.calls c.container_id) _) (λ eid d2.
        never_hangs _ _ _ (panic_if_err-ends (engine.attach d2.calls eid) _) (λ _ d3.
          never_hangs _ _ _ (never_hangs _ _ _ (inspect_all-ends 0 d3.configs _) (λ ls d4 p. cc))
            (λ setup d5.
              never_hangs _ _ _
                (panic_if_err-ends
                  (write_cmd unix d5.volumes setup (codes "env > /tmp/.env" ∷ []) (λ s. s)
                    d5.in_cmd).1
                  _)
                (λ _ d6 p. cc)))))

  write_cache_paths-ends :
      (paths : List Text) (d : Docker) → (write_cache_paths engine host paths d).0 ≢ hang
  unfolding write_cache_paths
  write_cache_paths-ends [] d = λ p. cc
  write_cache_paths-ends (p ∷ ps) d =
      never_hangs _ _ _ (runtime-ends d) (λ c d1. write_cache_paths-ends ps _)

  pub write_cache-ends : (d : Docker) → (write_cache engine host d).0 ≢ hang
  unfolding write_cache
  write_cache-ends d = elim (Option-cases d.in_cmd.cache) [
    | inl e ↦ rw e (λ p. cc)
    | inr (cache, e) ↦ rw e (
        pick cache (record d { in_cmd = record d.in_cmd { cache = some cache } }) host.temp_dir
          refl)
  ]
    where
      pick :
          (cache : Cache) (t : Docker) (r : Result Text)
          → host.temp_dir ≡ r
          → ◌≢◌ {A = Outcome (Unit {0})}
              (elim host.temp_dir as (λ _. Outcome (Unit {0}) × Docker) [
                | err e ↦ (ret tt, t)
                | ok dir ↦
                    write_cache_paths engine host cache.paths (record t { cache_output_dir = dir })
              ]).0
              hang
      pick cache t (err x) e = rw e (λ p. cc)
      pick cache t (ok dir) e = rw e (write_cache_paths-ends cache.paths _)

  pub settle-ends : (code : ℤ) (d : Docker) → (settle engine host code d).0 ≢ hang
  unfolding settle
  settle-ends code d = elim (Bool-cases (is_finish_status d.result.status)) [
    | inl e ↦ rw e (λ p. cc)
    | inr e ↦ rw e (λ p. cc)
  ]
