-- ===== src/App.antt =====
-- app.go: the start of the program behind the flags of the command line. The HTTP server and what
-- the flags hold are parameters.
use flow_agent_x.Prelude.{
  Bool, true, false, Option, none, some, List, [], ◌++◌, if◌then◌else◌, Text, codes, text_eq, ◌||◌,
}
use flow_agent_x.Prelude.Exec.{
  Err, Outcome, ret, panic, hang, Exec, pure, modify, recover, finally, ◌>>◌,
}
use flow_agent_x.Controller.{Route, auto_wire_controller, cmd_fields, health_fields}

-- What the start has done: the routes of the router, whether the client was closed, and whether the
-- process was ended by FailOnError, which runs no deferred function.
pub record App : Type 0 where
  pub routes : List Route
  pub closed : Bool
  pub exited : Bool

-- The settings and the server: whether the agent runs in debug mode, and the routes that gin-contrib's
-- pprof adds then; an error of ListenAndServe before the end, other than ErrServerClosed;
-- whether AppCtx is ever done; and the error of Shutdown, whose context is done by then.
pub record HttpServer : Type 0 where
  pub debug : Bool
  pub pprof_routes : List Route
  pub listen : Option Err
  pub done : Bool
  pub shutdown : Option Err

-- util.FailOnError: a call that does not return
abbrev pub fail_on_error : Option Err → Exec App (Unit {0})
fail_on_error none app = (ret tt, app)
fail_on_error (some e) app = (hang, record app { exited = true })

abbrev pub add_routes : Outcome (List Route) → Exec App (Unit {0})
add_routes (ret routes) app = (ret tt, record app { routes = app.routes ++ routes })
add_routes (panic e) app = (panic e, app)
add_routes hang app = (hang, app)

-- The methods of the two controllers.
abbrev pub cmd_method : Text → Bool
cmd_method name = text_eq name (codes "GetCmdByIDImpl") || text_eq name (codes "PostExecuteCmdImpl")

abbrev pub health_method : Text → Bool
health_method name = text_eq name (codes "GetInfoImpl")

abbrev pub wait_done : Bool → Exec App (Unit {0})
wait_done true app = (ret tt, app)
wait_done false app = (hang, app)

unfoldable pub start_gin : HttpServer → Exec App (Unit {0})
unfolding auto_wire_controller text_eq
start_gin server =
    add_routes (auto_wire_controller cmd_method cmd_fields)
    >> add_routes (auto_wire_controller health_method health_fields)
    >> (if server.debug then add_routes (ret server.pprof_routes) else pure tt)
    >> fail_on_error server.listen
    >> wait_done server.done
    >> fail_on_error server.shutdown

-- `init` is how Init of the manager ends. A panic is logged, and the result is nil.
unfoldable pub start {ℓ} : {M : Type ℓ} → (init : Outcome M) → HttpServer → Exec App (Option Err)
unfolding start_gin
start (ret m) server =
    recover (λ e. pure none)
      (finally (modify (λ app. record app { closed = true })) (start_gin server) >> pure none)
start (panic e) server = recover (λ e. pure none) (λ app. (panic e, app))
start hang server = λ app. (hang, app)

abbrev pub new_app : App
new_app = record { routes = []; closed = false; exited = false }
