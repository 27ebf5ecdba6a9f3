-- ===== src/Executor/Env/Allowed.antt =====
-- Which variables a command can export on Windows.
use flow_agent_x.Prelude.{
  ℕ, ◌≡◌, ◌⊎◌, inl, inr, Bool, true, false, Bool-cases, Option, none, some, List, [], ◌∷◌,
  if◌then◌else◌, Text,
}
use flow_agent_x.Prelude.Dict.{lookup}
use flow_agent_x.Domain.Variables.{Variables, new_variables}
use flow_agent_x.Util.Bytes.{is_byte_start_with}
use flow_agent_x.Executor.Env.{match_env_filter}
use flow_agent_x.Executor.Env.Filter.{IsAllowed, match_env_filter-IsAllowed, Within, inserted}
use flow_agent_x.Executor.Env.Windows.{
  win_utf16_dash, store, read_win_line, read_win_lines, read_env_from_reader_for_win,
}

module _ (decode : List ℕ → Text) (filters : List Text) (base : Variables) where
  if-Within :
      (b : Bool) (x y : Variables)
      → Within filters base x
      → Within filters base y
      → Within filters base (if b then x else y)
  if-Within true x y h k = h
  if-Within false x y h k = k

  store-Within :
      (o : Option (Text × Text)) (output : Variables)
      → Within filters base output
      → Within filters base (store decode filters o output)
  store-Within none output h = h
  store-Within (some (key, val)) output h = elim (Bool-cases (match_env_filter key filters)) [
    | inl e ↦
        rw e (inserted filters base output key val (match_env_filter-IsAllowed filters key e) h)
    | inr e ↦ rw e h
  ]

  read_win_line-Within :
      (line : Text) (output : Variables)
      → Within filters base output
      → Within filters base (read_win_line decode filters line output)
  unfolding read_win_line
  read_win_line-Within line output h = if-Within _ _ _ h (store-Within _ output h)

  read_win_lines-Within :
      (lines : List Text) (process : Bool) (output : Variables)
      → Within filters base output
      → Within filters base (read_win_lines decode filters process lines output)
  unfolding read_win_lines
  read_win_lines-Within [] process output h = h
  read_win_lines-Within (line ∷ lines) process output h =
      read_win_lines-Within lines (if is_byte_start_with line win_utf16_dash then true else process)
        _
        (if-Within (is_byte_start_with line win_utf16_dash) output _ h
          (if-Within process _ output (read_win_line-Within line output h) h))

-- Whatever lines a shell on Windows leaves behind, and however they decode, a variable of the result
-- is one that every new map holds, or its key begins with one of the filters of the command.
pub read_env_from_reader_for_win-IsAllowed :
    (decode : List ℕ → Text) (filters lines : List Text) (key val : Text)
    → lookup key (read_env_from_reader_for_win decode filters lines) ≡ some val
    → (lookup key new_variables ≡ some val) ⊎ IsAllowed filters key
unfolding read_env_from_reader_for_win
read_env_from_reader_for_win-IsAllowed decode filters lines key val e =
    read_win_lines-Within decode filters new_variables lines false new_variables (λ k v p. inl p)
      key val e
