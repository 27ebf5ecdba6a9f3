-- ===== src/Controller/Wired.antt =====
-- The routes that a controller gets, and the answers of its handler for commands.
use flow_agent_x.Prelude.{
  ◌≡◌, refl, ◌⊎◌, inl, inr, Bool, true, Bool-cases, Option, none, some, if◌then◌else◌, List, [],
  ◌∷◌, ◌++◌, All, is_empty, has_prefix, has_prefix-append, Text, codes, arith,
}
use flow_agent_x.Prelude.Int.{negsuc}
use flow_agent_x.Prelude.Exec.{
  Err, Result, ok, err, Outcome, ret, panic, Exec, chain, chain_inv, hang, pure, modify, ◌>>=◌,
}
use flow_agent_x.Service.{Deps}
use flow_agent_x.Service.Execute.{CmdIn, execute}
use flow_agent_x.Controller.{
  Field, Verb, Route, verb_of, add_route, to_gin_handler_func, wire_fields, Context, failed_body,
  respond, response_if_error, response_ok,
}

module _ (has_method : Text → Bool) (root : Text) where
  -- A route lies below the root path of its controller and has a method to call.
  abbrev pub IsRouted : Route → Type 0
  IsRouted r = (has_prefix r.full_path root ≡ true) × (has_method r.handler ≡ true)

  add_route-IsRouted :
      (v : Option Verb) (tag name : Text) (routes : List Route)
      → has_method name ≡ true
      → All IsRouted routes
      → All IsRouted (add_route has_method v (root ++ tag) name routes)
  add_route-IsRouted none tag name routes h a = a
  add_route-IsRouted (some v) tag name routes h a = ((has_prefix-append root tag, h), a)

  handler_of :
      (name h : Text)
      → to_gin_handler_func has_method name ≡ ret h
      → (h ≡ name) × (has_method name ≡ true)
  handler_of name h e = ground arith

  abbrev routed : Field → Text → List Route → List Route
  routed f handler routes =
      add_route has_method (verb_of (f.name ++ codes "Impl")) (root ++ f.tag) handler routes

  abbrev with_handler : Field → List Field → Text → Outcome (List Route)
  with_handler f fs handler =
      chain (wire_fields has_method root fs) (λ rs. ret (routed f handler rs))

  -- The routes of a controller lie below its root path, each with a method of the controller.
  pub wire_fields-IsRouted :
      (fs : List Field) (routes : List Route)
      → wire_fields has_method root fs ≡ ret routes
      → All IsRouted routes
  unfolding wire_fields
  wire_fields-IsRouted [] routes h = let p : [] ≡ routes = cc in rw (← p) tt
  wire_fields-IsRouted (f ∷ fs) routes h = elim (Bool-cases (is_empty f.tag)) [
    | inl e ↦ wire_fields-IsRouted fs routes (rw (← h, e) refl)
    | inr e ↦
        let name = f.name ++ codes "Impl" in
        let (handler, h1, k) =
          chain_inv (to_gin_handler_func has_method name) (with_handler f fs) routes
            (rw (← h, e) refl) in
        let (rest, h2, q) =
          chain_inv (wire_fields has_method root fs) (λ rs. ret (routed f handler rs)) routes k in
        let (same, found) = handler_of name handler h1 in
        let p : routed f handler rest ≡ routes = cc in
        rw (← p, same)
          (add_route-IsRouted (verb_of name) f.tag name rest found
            (wire_fields-IsRouted fs rest h2))
  ]

module _ (deps : Deps) (decode : Text → Result CmdIn) where
  abbrev pub refused : Err → Context → Context
  refused e c = respond 400 (failed_body (negsuc 0) e) (record c { aborted = true })

  abbrev pub answered : Option Err → Context → Context
  answered none c = response_ok c
  answered (some e) c = refused e c

  -- How a message that decodes is answered: by the outcome of its execution and the service then.
  abbrev pub by_outcome : Outcome (Option Err) → Context → Outcome (Unit {0}) × Context
  by_outcome (ret r) c = (ret tt, answered r c)
  by_outcome (panic e) c = (panic e, c)
  by_outcome hang c = (hang, c)

  abbrev pub Answered : Result Text → Context → Outcome (Unit {0}) × Context → Type 0
  Answered raw c p =
      ((e : Err) × (raw ≡ err e) × (p ≡ (ret tt, refused e c)))
      ⊎ (((bytes : Text) × (e : Err) × (raw ≡ ok bytes)
            × (decode bytes ≡ err e)
            × (p ≡ (panic e, c)))
          ⊎ ((bytes : Text) × (m : CmdIn) × (raw ≡ ok bytes)
              × (decode bytes ≡ ok m)
              × (p ≡ (
                  let (o, s) = execute deps (ok m) c.service in
                  by_outcome o (record c { service = s })))))

  abbrev reply_to : Option Err → Exec Context (Unit {0})
  reply_to e = response_if_error e >>= λ failed. if failed then pure tt else modify response_ok
