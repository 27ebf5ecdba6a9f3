-- ===== src/Executor/Docker/Tty.antt =====
-- executor/docker.go: the terminal in a container, StartTty and StopTty.
use flow_agent_x.Prelude.{
  ℕ, ◌≡◌, ◌∙◌, ap, refl, Bool, true, false, Bool-cases, inl, inr, Option, Option-cases, none, some,
  [], ◌∷◌, if◌then◌else◌, Text, codes, is_empty, arith,
}
use mathlib.Core.Path.{subst}
use flow_agent_x.Prelude.Exec.{
  Err, errorf, Result-cases, Outcome, ret, panic, hang, Exec, pure, throw, must, modify,
  panic_if_err, recover, on_panic, finally, after, continue, ◌>>=◌, ◌>>◌,
}
use flow_agent_x.Domain.Docker.{DockerConfig}
use flow_agent_x.Executor.Docker.{
  Docker, Engine, Host, exec_create, exec_attach, exec_write, ask, note,
}
use flow_agent_x.Executor.Docker.Run.{runtime, wait_for_exit, run_single_script}

abbrev ongoing : Err
ongoing = errorf (codes "interaction is ongoning")

abbrev not_started : Err
not_started = errorf (codes "container not started")

module _ (engine : Engine) (host : Host) where
  unfoldable pub attach_tty : Text → DockerConfig → Exec Docker Text
  attach_tty id c = do
    created ← ask (exec_create c.container_id c.entrypoint) (λ h. engine.new_exec h c.container_id)
    eid ← must created
    attached ← ask (exec_attach eid) (λ h. engine.attach h eid)
    panic_if_err attached
    modify (λ d. record d { tty_exec_id = eid; tty_id = id; interacting = true })
    pure eid

  -- StartTty until the terminal is there
  unfoldable pub open_tty : Text → Exec Docker Text
  unfolding runtime attach_tty
  open_tty id d =
      if d.interacting
      then (panic ongoing, d)
      else (runtime >>= λ c. if is_empty c.container_id then throw not_started else attach_tty id c)
          d

  unfoldable pub leave_tty : Docker → Docker
  leave_tty d = record d { interacting = false }

  -- The terminal's run, and the deferred end of its context
  unfoldable pub run_tty : ℕ → Text → Exec Docker (Option Err)
  unfolding wait_for_exit leave_tty
  run_tty fuel eid = finally (modify leave_tty) (
      note (exec_write eid (codes "echo $$ > /tmp/.tty.pid\n" ∷ []))
      >> wait_for_exit engine host fuel eid (λ pid d. d)
      >> pure none)

  unfoldable pub clear_ids : Docker → Docker
  clear_ids d = record d { tty_exec_id = []; tty_id = [] }

  unfoldable pub start_tty : ℕ → Text → Exec Docker (Option Err)
  unfolding open_tty run_tty clear_ids
  start_tty fuel id = recover (λ e d. (ret (some e), clear_ids d)) (open_tty id >>= run_tty fuel)

  -- The exit code is dropped.
  unfoldable pub stop_tty : ℕ → Exec Docker (Unit {0})
  unfolding run_single_script
  stop_tty fuel =
      run_single_script engine host fuel (codes "kill -9 $(cat /tmp/.tty.pid)") >> pure tt

  -- Whatever end a part came to, no terminal is open.
  abbrev Free : Outcome (Option Err) × Docker → Type 0
  Free (ret out, d) = d.interacting ≡ false
  Free (panic e, d) = d.interacting ≡ false
  Free (hang, d) = Unit

  -- A part that failed has opened no terminal.
  abbrev Unopened {ℓ} : {A : Type ℓ} → Outcome A × Docker → Type 0
  Unopened (ret a, d) = Unit
  Unopened (panic e, d) = d.interacting ≡ false
  Unopened (hang, d) = Unit

  attach_tty-Unopened :
      (id : Text) (c : DockerConfig) (d : Docker)
      → d.interacting ≡ false
      → Unopened (attach_tty id c d)
  unfolding attach_tty
  attach_tty-Unopened id c d h = elim (Result-cases (engine.new_exec d.calls c.container_id)) [
    | inr (e, p) ↦ rw p h
    | inl (eid, p) ↦
        elim (Option-cases
          (engine.attach (exec_create c.container_id c.entrypoint ∷ d.calls) eid)) [
            | inr (e, q) ↦ rw (p, q) h
            | inl q ↦ rw (p, q) tt
          ]
  ]

  runtime_then :
      (id : Text) (r : Outcome DockerConfig) (d : Docker)
      → d.interacting ≡ false
      → Unopened (
          continue r
            (λ c. if is_empty c.container_id then throw not_started else attach_tty id c)
            d)
  runtime_then id (ret c) d h = elim (Bool-cases (is_empty c.container_id)) [
    | inl e ↦ rw e h
    | inr e ↦ rw e (attach_tty-Unopened id c d h)
  ]
  runtime_then id (panic e) d h = h
  runtime_then id hang d h = tt

  runtime-state : (d : Docker) → (runtime d).1 ≡ d
  unfolding runtime
  runtime-state d = ground arith

  else-Unopened :
      (b : Bool) (x y : Outcome Text × Docker)
      → b ≡ false
      → Unopened y
      → Unopened (if b then x else y)
  else-Unopened true x y e h = absurd (cc)
  else-Unopened false x y e h = h

  open_tty-Unopened : (id : Text) (d : Docker) → d.interacting ≡ false → Unopened (open_tty id d)
  unfolding open_tty
  open_tty-Unopened id d h = else-Unopened d.interacting _ _ h (
      runtime_then id (runtime d).0 (runtime d).1
        (ap (λ (x : Docker). x.interacting) (runtime-state d) ∙ h))

  left-Free : (r : Outcome (Option Err)) (d : Docker) → Free (after (modify leave_tty) r d)
  unfolding leave_tty
  left-Free (ret out) d = refl
  left-Free (panic e) d = refl
  left-Free hang d = tt

  run_tty-Free : (fuel : ℕ) (eid : Text) (d : Docker) → Free (run_tty fuel eid d)
  unfolding run_tty
  run_tty-Free fuel eid d = left-Free _ _

  opened-Free :
      (fuel : ℕ) (r : Outcome Text) (d : Docker)
      → Unopened (r, d)
      → Free (continue r (run_tty fuel) d)
  opened-Free fuel (ret eid) d h = run_tty-Free fuel eid d
  opened-Free fuel (panic e) d h = h
  opened-Free fuel hang d h = tt

  recovered-Free :
      (r : Outcome (Option Err)) (d : Docker)
      → Free (r, d)
      → Free (on_panic (λ e t. (ret (some e), clear_ids t)) r d)
  unfolding clear_ids
  recovered-Free (ret out) d h = h
  recovered-Free (panic e) d h = h
  recovered-Free hang d h = tt

  -- StartTty on an executor without a terminal: if it returns, whether the terminal has run or could
  -- not be opened, no terminal is open, so the attempt that runs beside it has none to wait for.
  pub start_tty-interacting :
      (fuel : ℕ) (id : Text) (d d' : Docker) (out : Option Err)
      → d.interacting ≡ false
      → start_tty fuel id d ≡ (ret out, d')
      → d'.interacting ≡ false
  unfolding start_tty
  start_tty-interacting fuel id d d' out h e = subst Free e (
      recovered-Free _ _
        (opened-Free fuel (open_tty id d).0 (open_tty id d).1 (open_tty-Unopened id d h)))
