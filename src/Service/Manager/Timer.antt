-- ===== src/Service/Manager/Timer.antt =====
-- The idle timer over a sequence of events, and the attempts to reconnect.
use flow_agent_x.Prelude.{
  ℕ, zero, suc, ◌+◌, ◌≤◌, ◌<◌, ◌≡◌, refl, ◌⊎◌, inl, inr, Option, none, some, List, [], ◌∷◌, arith,
  if◌then◌else◌,
}
use mathlib.Core.Path.{subst}
use native.Mathlib.Decide.{ℕ_discrete}
use flow_agent_x.Prelude.Int.{ℤ, is_positive}
use flow_agent_x.Prelude.Exec.{Result-cases, Err, Result, ok, err}
use flow_agent_x.Service.{Service, idle, busy}
use flow_agent_x.Service.Manager.{
  on_idle_event, on_busy_event, reconnect_from, reconnect, max_reconnects,
}

pub data AppEvent : Type 0 where
  event_on_idle event_on_busy : AppEvent

unfoldable pub fire_event : AppEvent → Service → Service
unfolding on_idle_event on_busy_event
fire_event event_on_idle = on_idle_event
fire_event event_on_busy = on_busy_event

unfoldable pub fire_events : List AppEvent → Service → Service
unfolding fire_event
fire_events [] s = s
fire_events (e ∷ es) s = fire_events es (fire_event e s)

-- The timer that belongs to a status.
unfoldable pub Timed : Service → Type 0
Timed s =
    ((s.status ≡ busy) × (s.timer ≡ none))
    ⊎ ((s.status ≡ idle)
        × (s.timer ≡ (if is_positive s.exit_on_idle then some s.exit_on_idle else none)))

fire_event-Timed : (e : AppEvent) (s : Service) → Timed s → Timed (fire_event e s)
unfolding Timed fire_event
fire_event-Timed event_on_busy s h = inl (refl, refl)
fire_event-Timed event_on_idle s h = ground arith

-- Over any sequence of events the status is busy without an idle timer, or idle with the timer
-- of the configured seconds, which runs exactly if these are positive, if that held at the
-- start.
pub fire_events-Timed : (es : List AppEvent) (s : Service) → Timed s → Timed (fire_events es s)
unfolding fire_events
fire_events-Timed [] s h = h
fire_events-Timed (e ∷ es) s h = fire_events-Timed es (fire_event e s) (fire_event-Timed e s h)

-- Every attempt from `i` on, below `n`, has failed.
pub AllFail : (ℕ → Result ℤ) → ℕ → ℕ → Type 0
AllFail connect i n = (j : ℕ) → i ≤ j → j < n → (e : Err) × (connect j ≡ err e)

pub Tried : (ℕ → Result ℤ) → ℕ → ℕ → Option ℤ × ℕ → Type 0
unfolding AllFail
Tried connect left i (none, n) = (n ≡ i + left) × AllFail connect i n
Tried connect left i (some c, n) =
    (k : ℕ) × (n ≡ suc k) × (k < i + left) × (connect k ≡ ok c) × AllFail connect i k

all_more :
    (connect : ℕ → Result ℤ) (i n : ℕ) (x : Err)
    → connect i ≡ err x
    → AllFail connect (suc i) n
    → AllFail connect i n
unfolding AllFail
all_more connect i n x e b j lo hi = elim (ℕ_discrete i j) [
  | yes p ↦ (x, subst (λ k. connect k ≡ err x) p e)
  | no p ↦ b j (omega arith) hi
]

Tried-more :
    (connect : ℕ → Result ℤ) (left i : ℕ) (x : Err) (p : Option ℤ × ℕ)
    → connect i ≡ err x
    → Tried connect left (suc i) p
    → Tried connect (suc left) i p
unfolding Tried
Tried-more connect left i x (none, n) e (a, b) = (omega arith, all_more connect i n x e b)
Tried-more connect left i x (some c, n) e (k, a, b, d, f) =
    (k, a, omega arith, d, all_more connect i k x e f)

reconnect_success :
    (left i : ℕ) (connect : ℕ → Result ℤ) (c : ℤ)
    → connect i ≡ ok c
    → reconnect_from (suc left) i connect ≡ (some c, suc i)
unfolding reconnect_from
reconnect_success left i connect c e = rw (e, reconnect_from) refl

reconnect_failure :
    (left i : ℕ) (connect : ℕ → Result ℤ) (x : Err)
    → connect i ≡ err x
    → reconnect_from (suc left) i connect ≡ reconnect_from left (suc i) connect
unfolding reconnect_from
reconnect_failure left i connect x e = rw (e, reconnect_from) refl

reconnect_from-Tried :
    (left i : ℕ) (connect : ℕ → Result ℤ) → Tried connect left i (reconnect_from left i connect)
reconnect_from-Tried zero i connect =
    unfold reconnect_from Tried AllFail in (omega arith, λ j lo hi. absurd (omega arith))
reconnect_from-Tried (suc left) i connect =
    pick (Result-cases (connect i)) (reconnect_from-Tried left (suc i) connect)
  where
    pick :
        ((c : ℤ) × (connect i ≡ ok c)) ⊎ ((x : Err) × (connect i ≡ err x))
        → Tried connect left (suc i) (reconnect_from left (suc i) connect)
        → Tried connect (suc left) i (reconnect_from (suc left) i connect)
    pick (inl (c, e)) rest =
        rw (reconnect_success left i connect c e)
          (unfold Tried AllFail in (i, refl, omega arith, e, λ j lo hi. absurd (omega arith)))
    pick (inr (x, e)) rest =
        rw (reconnect_failure left i connect x e) (Tried-more connect left i x _ e rest)

-- After a lost connection the agent connects at the first attempt that succeeds, of the attempts
-- 0 to 5, and gives up exactly if all six fail.
pub reconnect-Tried : (connect : ℕ → Result ℤ) → Tried connect max_reconnects 0 (reconnect connect)
unfolding reconnect
reconnect-Tried connect = reconnect_from-Tried max_reconnects 0 connect
