-- ===== src/Scenarios/Messages.antt =====
-- Messages and the loop of the consumer (service/cmd_service.go) and the controllers (controller/) at concrete
-- inputs.
use flow_agent_x.Prelude.{◌≡◌, refl, Bool, false, ◌||◌, some, [], ◌∷◌, none, Text, codes, text_eq}
use flow_agent_x.Prelude.Exec.{foreign, nil_dereference, Result, ok, err, ret, panic}
use flow_agent_x.Service.{Service, Deps, Running, busy}
use flow_agent_x.Service.Execute.{CmdIn, kill}
use flow_agent_x.Service.Consumer.{message, channel_closed, waited, rounds}
use flow_agent_x.Controller.{
  get_verb, post_verb, auto_wire_controller, cmd_fields, health_fields, Context, text_body,
  get_cmd_by_id,
}
use flow_agent_x.Scenarios.{command}
use flow_agent_x.Scenarios.Agent.{deps, agent}

-- A command runs when the kill arrives, and ends before the kill uses the executor.
abbrev released_meanwhile : Deps
released_meanwhile = record deps { meanwhile = λ s. record s { executor = none } }

abbrev executor : Running
executor = record { in_cmd = command; killed = false; interacting = false; tty_in = [] }

abbrev occupied : Service
occupied = record agent { executor = some executor; status = busy; timer = none }

-- A pause, and a message that does not decode.
rounds_test :
    (rounds deps (waited ∷ message (err (foreign 3)) ∷ channel_closed ∷ []) agent).0
    ≡ panic (foreign 3)
unfolding rounds
rounds_test = refl

-- The decoder of the tests: an empty body is no message, any other is a kill.
abbrev decode : Text → Result CmdIn
decode [] = err (foreign 3)
decode (c ∷ cs) = ok kill

abbrev request : Context
request = record { answer = none; aborted = false; service = agent }

-- The methods of the two controllers.
abbrev has_method : Text → Bool
has_method name =
    text_eq name (codes "GetCmdByIDImpl")
    || text_eq name (codes "PostExecuteCmdImpl")
    || text_eq name (codes "GetInfoImpl")

cmd_routes_test :
    auto_wire_controller has_method cmd_fields
    ≡ ret (
        record { verb = get_verb; full_path = codes "/cmds/:id"; handler = codes "GetCmdByIDImpl" }
        ∷ record {
          verb = post_verb;
          full_path = codes "/cmds/";
          handler = codes "PostExecuteCmdImpl";
        }
        ∷ [])
unfolding auto_wire_controller text_eq
cmd_routes_test = refl

health_routes_test :
    auto_wire_controller has_method health_fields
    ≡ ret (
        record { verb = get_verb; full_path = codes "/health/"; handler = codes "GetInfoImpl" }
        ∷ [])
unfolding auto_wire_controller text_eq
health_routes_test = refl

-- A field with a path but without a method.
missing_method_test :
    auto_wire_controller has_method (
      record { name = codes "RootController"; tag = codes "/a" }
      ∷ record { name = codes "GetB"; tag = codes "/b" }
      ∷ [])
    ≡ panic nil_dereference
unfolding auto_wire_controller text_eq
missing_method_test = refl

get_cmd_by_id_test :
    (get_cmd_by_id (codes "7") request).answer ≡ some (200, text_body (codes "id : 7"))
unfolding get_cmd_by_id
get_cmd_by_id_test = refl
