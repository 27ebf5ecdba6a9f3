-- ===== src/Executor/Env/Windows.antt =====
-- executor/util_win.go: the variables that a finished shell exports on Windows.
use flow_agent_x.Prelude.{
  ℕ, Bool, true, false, Option, none, some, List, [], ◌∷◌, ◌==◌, if◌then◌else◌, Text, is_empty,
}
use flow_agent_x.Prelude.Dict.{insert}
use flow_agent_x.Domain.Variables.{Variables, new_variables}
use flow_agent_x.Util.Bytes.{is_byte_start_with, bytes_trim_right, utf16_units}
use flow_agent_x.Executor.Env.{match_env_filter}

abbrev pub win_utf16_dash : Text
win_utf16_dash = 0 ∷ 45 ∷ 0 ∷ 45 ∷ 0 ∷ 45 ∷ 0 ∷ 45 ∷ []

abbrev pub win_utf16_cr : Text
win_utf16_cr = 0 ∷ 13 ∷ []

abbrev pub win_nul : Text
win_nul = 0 ∷ []

-- strings.Trim for spaces
unfoldable pub drop_spaces : Text → Text
drop_spaces [] = []
drop_spaces (c ∷ s) = let rest = drop_spaces s in if c == b' ' then rest else c ∷ s

unfoldable pub trim_end : Text → Text
trim_end [] = []
trim_end (c ∷ s) =
    let rest = trim_end s in
    elim rest [ [] ↦ (if c == b' ' then [] else c ∷ []) | d ∷ t ↦ c ∷ d ∷ t ]

-- The parts before and behind the first space.
unfoldable pub at_space : Text → Option (Text × Text)
at_space [] = none
at_space (c ∷ s) =
    let rest = at_space s in
    if c == b' ' then some ([], s) else elim rest [ none ↦ none | some (k, v) ↦ some (c ∷ k, v) ]

unfoldable pub env_key_and_val_win : Text → Option (Text × Text)
unfolding at_space drop_spaces trim_end
env_key_and_val_win line = elim (at_space line) [
  | none ↦ none
  | some (key, val) ↦ some (key, trim_end (drop_spaces val))
]

-- `decode` is utf16.Decode with the conversion to a string.
module _ (decode : List ℕ → Text) (filters : List Text) where
  abbrev pub store : Option (Text × Text) → Variables → Variables
  store none output = output
  store (some (key, val)) output =
      if match_env_filter key filters then insert key val output else output

  unfoldable pub read_win_line : Text → Variables → Variables
  unfolding env_key_and_val_win utf16_units bytes_trim_right
  read_win_line line output =
      let trimmed = bytes_trim_right (bytes_trim_right line win_nul) win_utf16_cr in
      if is_empty trimmed
      then output
      else store (env_key_and_val_win (decode (utf16_units trimmed))) output

  -- The lines are those that bufio.Reader.ReadLine returns. Nothing is read before the dashes.
  unfoldable pub read_win_lines : Bool → List Text → Variables → Variables
  unfolding read_win_line is_byte_start_with
  read_win_lines process [] output = output
  read_win_lines process (line ∷ lines) output =
      let dash = is_byte_start_with line win_utf16_dash in
      read_win_lines (if dash then true else process) lines
        (if dash then output else if process then read_win_line line output else output)

  unfoldable pub read_env_from_reader_for_win : List Text → Variables
  unfolding read_win_lines
  read_env_from_reader_for_win lines = read_win_lines false lines new_variables
