-- ===== src/Controller.antt =====
-- controller/: the HTTP interface of the agent. The router of gin, its context and the recovery of
-- panics in a handler are the library's.
pub mod Wired
use flow_agent_x.Prelude.{
  ℕ, Bool, true, false, Option, none, some, List, [], ◌∷◌, ◌++◌, if◌then◌else◌, is_empty, Text,
  codes, has_prefix,
}
use flow_agent_x.Prelude.Int.{ℤ, pos, negsuc}
use flow_agent_x.Prelude.Exec.{
  Err, out_of_range, nil_dereference, Result, ok, err, Outcome, ret, panic, Exec, pure, modify,
  chain, ◌>>=◌, ◌>>◌,
}
use flow_agent_x.Service.{Service, Deps}
use flow_agent_x.Service.Execute.{CmdIn, execute}

-- A field of a controller, with the text of its tag `path`, empty without one.
pub record Field : Type 0 where
  pub name : Text
  pub tag : Text

pub data Verb : Type 0 where
  get_verb post_verb delete_verb : Verb

pub record Route : Type 0 where
  pub verb : Verb
  pub full_path : Text
  pub handler : Text  -- the method's name

-- The prefixes of a name, in the order of the tests.
unfoldable pub verb_of : Text → Option Verb
unfolding has_prefix
verb_of name =
    if has_prefix name (codes "Get")
    then some get_verb
    else if has_prefix name (codes "Post")
    then some post_verb
    else if has_prefix name (codes "Delete")
    then some delete_verb
    else none

-- `has_method` is reflect's MethodByName: without the method, toGinHandlerFunc panics.
module _ (has_method : Text → Bool) where
  abbrev pub to_gin_handler_func : Text → Outcome Text
  to_gin_handler_func name = if has_method name then ret name else panic nil_dereference

  abbrev pub add_route : Option Verb → Text → Text → List Route → List Route
  add_route none path handler routes = routes
  add_route (some v) path handler routes =
      record { verb = v; full_path = path; handler = handler } ∷ routes

  -- The loop over the fields behind the first: the routes in the order of their registration.
  unfoldable pub wire_fields : Text → List Field → Outcome (List Route)
  unfolding verb_of
  wire_fields root [] = ret []
  wire_fields root (f ∷ fs) =
      let rest = wire_fields root fs in
      let name = f.name ++ codes "Impl" in
      if is_empty f.tag
      then rest
      else chain (to_gin_handler_func name) λ handler.
        chain rest λ routes. ret (add_route (verb_of name) (root ++ f.tag) handler routes)

  unfoldable pub auto_wire_controller : List Field → Outcome (List Route)
  unfolding wire_fields
  auto_wire_controller [] = panic out_of_range
  auto_wire_controller (root ∷ fields) = wire_fields root.tag fields

-- The fields of the two controllers. A field without a tag has no route.
abbrev pub cmd_fields : List Field
cmd_fields =
    record { name = codes "RootController"; tag = codes "/cmds" }
    ∷ record { name = codes "GetCmdByID"; tag = codes "/:id" }
    ∷ record { name = codes "PostExecuteCmd"; tag = codes "/" }
    ∷ record { name = codes "cmdService"; tag = [] }
    ∷ []

abbrev pub health_fields : List Field
health_fields =
    record { name = codes "RootController"; tag = codes "/health" }
    ∷ record { name = codes "GetInfo"; tag = codes "/" }
    ∷ []

-- The body of an answer, with its code and message.
pub data Body : Type 0 where
  failed_body : ℤ → Err → Body
  ok_body : ℤ → Text → Body
  text_body : Text → Body

-- A request that is handled: what was answered, and the service behind the controller.
pub record Context : Type 0 where
  pub answer : Option (ℕ × Body)
  pub aborted : Bool
  pub service : Service

abbrev pub respond : ℕ → Body → Context → Context
respond status body c = record c { answer = some (status, body) }

unfoldable pub response_if_error : Option Err → Exec Context Bool
response_if_error none c = (ret false, c)
response_if_error (some e) c =
    (ret true, respond 400 (failed_body (negsuc 0) e) (record c { aborted = true }))

unfoldable pub response_ok : Context → Context
response_ok c = respond 200 (ok_body (pos 0) (codes "ok")) c

unfoldable pub get_cmd_by_id : Text → Context → Context
get_cmd_by_id id c = respond 200 (text_body (codes "id : " ++ id)) c

abbrev pub in_service {ℓ} : {A : Type ℓ} → Exec Service A → Exec Context A
in_service m c = let (r, s) = m c.service in (r, record c { service = s })

abbrev pub error_of : Result Text → Option Err
error_of (ok bytes) = none
error_of (err e) = some e

abbrev pub bytes_of : Result Text → Text
bytes_of (ok bytes) = bytes
bytes_of (err e) = []

-- `decode` is the parsing of a message.
module _ (deps : Deps) (decode : Text → Result CmdIn) where
  unfoldable pub post_execute_cmd : Result Text → Exec Context (Unit {0})
  unfolding response_if_error response_ok execute
  post_execute_cmd raw = response_if_error (error_of raw) >>= λ failed.
      if failed
      then pure tt
      else in_service (execute deps (decode (bytes_of raw))) >>= λ e.
          response_if_error e >>= λ failed. if failed then pure tt else modify response_ok
