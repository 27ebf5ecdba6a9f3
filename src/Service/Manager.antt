-- ===== src/Service/Manager.antt =====
-- config/manager.go: the events of the agent, and reconnecting.
pub mod Timer
use flow_agent_x.Prelude.{
  ℕ, zero, suc, Bool, true, false, Option, none, some, List, [], ◌∷◌, if◌then◌else◌,
}
use flow_agent_x.Prelude.Int.{ℤ, is_positive}
use flow_agent_x.Prelude.Exec.{Err, Result, ok, err}
use flow_agent_x.Service.{Service, idle, busy}

-- A new timer replaces the old one, which is stopped.
unfoldable pub on_idle_event : Service → Service
on_idle_event s =
    if is_positive s.exit_on_idle
    then record s { status = idle; timer = some s.exit_on_idle }
    else record s { status = idle }

unfoldable pub on_busy_event : Service → Service
on_busy_event s = record s { status = busy; timer = none }

abbrev pub max_reconnects : ℕ
max_reconnects = 6

-- `listenReConn` after one lost connection: `connect` answers by the number of the attempt. The
-- result is the new config, or none for the panic, with the number of attempts made.
unfoldable pub reconnect_from : ℕ → ℕ → (ℕ → Result ℤ) → Option ℤ × ℕ
reconnect_from zero i connect = (none, i)
reconnect_from (suc left) i connect =
    let again = reconnect_from left (suc i) connect in
    elim (connect i) [ ok config ↦ (some config, suc i) | err e ↦ again ]

unfoldable pub reconnect : (ℕ → Result ℤ) → Option ℤ × ℕ
unfolding reconnect_from
reconnect = reconnect_from max_reconnects 0
