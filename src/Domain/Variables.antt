-- ===== src/Domain/Variables.antt =====
-- domain/variables.go
use flow_agent_x.Prelude.{ℕ, none, some, List, [], ◌∷◌, ◌++◌, Text, codes}
use flow_agent_x.Prelude.Dict.{lookup, insert, insert_all}
use flow_agent_x.Prelude.Exec.{Outcome, ret, panic, hang}
use flow_agent_x.Util.Template.{parse_variables_from}

-- `map[string]string`, in the order in which a `range` visits it
abbrev pub Variables : Type 0
Variables = List (Text × Text)

abbrev pub new_variables : Variables
new_variables = (codes "_TYPE_", codes "_string_") ∷ []

-- A read of a missing key yields the empty string.
abbrev pub get : Variables → Text → Text
get v k = elim (lookup k v) [ none ↦ [] | some x ↦ x ]

-- `nil` and the empty map are one value here: the function reads them alike.
unfoldable pub connect_vars : Variables → Variables → Variables
unfolding insert_all
connect_vars a b = insert_all (insert_all [] a) b

unfoldable pub to_string_array : Variables → List Text
to_string_array [] = []
to_string_array ((k, v) ∷ m) = (k ++ codes "=" ++ v) ∷ to_string_array m

unfoldable pub add_map_vars : Variables → Variables → Variables
unfolding insert_all
add_map_vars = insert_all

-- The body of both loops of `Resolve`: the value of one key is expanded and stored.
unfoldable pub resolve_key : ℕ → (Variables → Text → Text) → Text → Variables → Outcome Variables
resolve_key fuel source key v = elim (parse_variables_from fuel (get v key) (source v)) [
  | ret val ↦ ret (insert key val v)
  | panic e ↦ panic e
  | hang ↦ hang
]

-- A `range` over the keys, in the given order, while the map is written.
unfoldable pub resolve_keys :
    ℕ → (Variables → Text → Text) → List Text → Variables → Outcome Variables
unfolding resolve_key
resolve_keys fuel source [] v = ret v
resolve_keys fuel source (key ∷ keys) v = elim (resolve_key fuel source key v) [
  | ret v' ↦ resolve_keys fuel source keys v'
  | panic e ↦ panic e
  | hang ↦ hang
]

-- `Resolve`: first by the environment of the process, then by the map itself. Go leaves the order
-- of each `range` open: `first` and `second` are the orders of the two loops.
unfoldable pub resolve : ℕ → (Text → Text) → List Text → List Text → Variables → Outcome Variables
unfolding resolve_keys
resolve fuel environ first second v = elim (resolve_keys fuel (λ _. environ) first v) [
  | ret v' ↦ resolve_keys fuel get second v'
  | panic e ↦ panic e
  | hang ↦ hang
]
