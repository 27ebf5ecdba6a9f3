-- ===== src/Service/Consumer.antt =====
-- service/cmd_service.go: the loop that takes the messages of the server (start), and the messages
-- whose execution panics.
use flow_agent_x.Prelude.{◌≡◌, ◌⊎◌, none, List, [], ◌∷◌, true, is_some}
use flow_agent_x.Prelude.Exec.{
  Err, nil_dereference, Result, ok, err, Exec, pure, modify, ◌>>=◌, ◌>>◌,
}
use flow_agent_x.Service.{Service, Deps}
use flow_agent_x.Service.Execute.{CmdIn, kill, close, execute}

-- What a round of the loop gets: a message, the zero value of a closed channel, or the end of ten
-- seconds.
pub data Received : Type 0 where
  message : Result CmdIn → Received
  channel_closed waited : Received

module _ (deps : Deps) where
  -- The break of a closed channel leaves the select and not the loop. An error of Execute is logged.
  unfoldable pub on_received : Received → Exec Service (Unit {0})
  unfolding execute
  on_received (message m) = execute deps m >>= λ e. pure tt
  on_received channel_closed = pure tt
  on_received waited = pure tt

  -- The loop has no end: these are its first rounds, with what other goroutines do to the service
  -- before each.
  unfoldable pub rounds : List Received → Exec Service (Unit {0})
  unfolding on_received
  rounds [] = pure tt
  rounds (r ∷ rs) = let rest = rounds rs in modify deps.meanwhile >> (on_received r >> rest)

  -- A kill that finds an executor and then none: another goroutine has released the service between
  -- the test and the use.
  abbrev pub Vanishes : Service → Err → Type 0
  Vanishes s x =
      (is_some s.executor ≡ true) × ((deps.meanwhile s).executor ≡ none) × (x ≡ nil_dereference)

  -- The panics of Execute: of a message that does not decode, and of a kill that loses its executor.
  abbrev pub Panics : Result CmdIn → Service → Err → Type 0
  Panics m s x = (m ≡ err x) ⊎ (((m ≡ ok kill) ⊎ (m ≡ ok close)) × Vanishes s x)
