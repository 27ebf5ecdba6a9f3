-- ===== src/Executor/Docker/Volumes/Removed.antt =====
-- The container that fills a new volume does not stay behind.
use flow_agent_x.Prelude.{◌≡◌, refl, ◌⊎◌, inl, inr, none, some, Option, List, ◌∷◌, Text}
use flow_agent_x.Prelude.Exec.{Err, Result, ok, err, Outcome, ret, panic, ◌>>=◌}
use flow_agent_x.Domain.Docker.{DockerVolume}
use flow_agent_x.Executor.Docker.{
  Docker, Engine, Call, container_create_init, container_start, container_wait, container_remove,
}
use flow_agent_x.Executor.Docker.Volumes.{run_cmd}

-- What is called for a container that was created.
abbrev pub filled : Option Err → Text → List Call → List Call
filled (some e) id calls = container_remove id ∷ container_start id ∷ calls
filled none id calls = container_remove id ∷ container_wait id ∷ container_start id ∷ calls

abbrev pub ending : Option Err → Outcome (Unit {0})
ending none = ret tt
ending (some e) = panic e

module _ (engine : Engine) (v : DockerVolume) (d : Docker) where
  abbrev creating : List Call
  creating = container_create_init v ∷ d.calls

  when_created :
      (id : Text) (started : Option Err)
      → engine.create_init d.calls v ≡ ok id
      → engine.start creating id ≡ started
      → ((run_cmd engine v d).0 ≡ ending started)
        × ((run_cmd engine v d).1 ≡ record d { calls = filled started id creating })
  unfolding run_cmd
  when_created id none e f = rw (e, ◌>>=◌) (rw (f, ◌>>=◌) (refl, refl))
  when_created id (some x) e f = rw (e, ◌>>=◌) (rw (f, ◌>>=◌) (refl, refl))

  when_refused :
      (x : Err)
      → engine.create_init d.calls v ≡ err x
      → run_cmd engine v d ≡ (panic x, record d { calls = creating })
  unfolding run_cmd
  when_refused x e = rw (e, ◌>>=◌) refl

  abbrev pub Removes : Outcome (Unit {0}) × Docker → Type 0
  Removes r =
      ((id : Text) × (started : Option Err) × (engine.create_init d.calls v ≡ ok id)
        × (r.0 ≡ ending started)
        × (r.1 ≡ record d { calls = filled started id creating }))
      ⊎ ((x : Err) × (engine.create_init d.calls v ≡ err x)
          × (r ≡ (panic x, record d { calls = creating })))

  -- If the container that fills a volume is created, it is removed at the end, also where its start
  -- fails, and it is waited for exactly if it starts. If it is not created, nothing is started,
  -- awaited or removed. Nothing else changes in the executor.
  pub run_cmd-Removes : Removes (run_cmd engine v d)
  run_cmd-Removes = pick (engine.create_init d.calls v) refl
    where
      pick : (r : Result Text) → engine.create_init d.calls v ≡ r → Removes (run_cmd engine v d)
      pick (ok id) e =
          let w = when_created id (engine.start creating id) e refl in
          inl (id, engine.start creating id, e, w.0, w.1)
      pick (err x) e = inr (x, e, when_refused x e)
