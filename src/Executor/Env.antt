-- ===== src/Executor/Env.antt =====
-- executor/util_unix.go, executor/util.go: the variables that a finished shell exports.
pub mod Filter
pub mod Windows
pub mod Allowed
use flow_agent_x.Prelude.{
  ℕ, Bool, true, false, ◌&&◌, ◌||◌, Option, none, some, List, [], ◌∷◌, ◌++◌, leb, ◌==◌,
  if◌then◌else◌, Text, has_prefix,
}
use flow_agent_x.Prelude.Dict.{insert}
use flow_agent_x.Domain.Variables.{Variables, new_variables}

-- The lines of a text without their line breaks. What follows the last line break is dropped:
-- ReadString reports the end of the input together with it.
unfoldable pub lines_from : Text → Text → List Text
lines_from cur [] = []
lines_from cur (c ∷ s) = elim (c == 10) [
  | true ↦ cur ∷ lines_from [] s
  | false ↦ lines_from (cur ++ c ∷ []) s
]

-- strings.TrimSpace, for texts that begin and end with ASCII characters
abbrev pub is_space : ℕ → Bool
is_space c = c == 32 || (leb 9 c && leb c 13)

unfoldable pub trim_left : Text → Text
trim_left [] = []
trim_left (c ∷ s) = let rest = trim_left s in if is_space c then rest else c ∷ s

unfoldable pub trim_right : Text → Text
trim_right [] = []
trim_right (c ∷ s) =
    let rest = trim_right s in
    elim rest [ [] ↦ (if is_space c then [] else c ∷ []) | d ∷ t ↦ c ∷ d ∷ t ]

unfoldable pub trim_space : Text → Text
unfolding trim_left trim_right
trim_space s = trim_right (trim_left s)

-- The parts before and behind the first `=`.
unfoldable pub env_key_and_val : Text → Option (Text × Text)
env_key_and_val [] = none
env_key_and_val (c ∷ s) =
    let rest = env_key_and_val s in
    if c == b'=' then some ([], s) else elim rest [ none ↦ none | some (k, v) ↦ some (c ∷ k, v) ]

unfoldable pub match_env_filter : Text → List Text → Bool
match_env_filter env [] = false
match_env_filter env (filter ∷ filters) = has_prefix env filter || match_env_filter env filters

unfoldable pub read_line : List Text → Text → Variables → Variables
unfolding trim_space env_key_and_val match_env_filter
read_line filters line output = elim (env_key_and_val (trim_space line)) [
  | none ↦ output
  | some (key, val) ↦ if match_env_filter key filters then insert key val output else output
]

unfoldable pub read_lines : List Text → List Text → Variables → Variables
unfolding read_line
read_lines filters [] output = output
read_lines filters (line ∷ rest) output = read_lines filters rest (read_line filters line output)

unfoldable pub read_env_from_reader : Text → List Text → Variables
unfolding lines_from read_lines
read_env_from_reader text filters = read_lines filters (lines_from [] text) new_variables
