-- ===== src/Scenarios/Texts.antt =====
-- util/common.go and the texts of executor/executor.go at concrete inputs.
use flow_agent_x.Prelude.{
  ◌⊎◌, ◌∷◌, has_prefix, List, some, text_eq, ℕ, ◌≡◌, ◌≢◌, ◌↔◌, refl, false, none, [], arith, Text,
  codes, Lacks,
}
use flow_agent_x.Prelude.Exec.{hang}
use flow_agent_x.Util.Template.{dollar, right_brace, parse_variables_from}
use flow_agent_x.Util.Template.Terminates.{parse_variables_from-ends}
use flow_agent_x.Util.Template.Diverges.{parse_variables_from-hang}
use flow_agent_x.Executor.Script.{unix, all_empty, scripts_for, write_cmd}
use flow_agent_x.Executor.Script.Lines.{EndLines, RunsScripts, write_cmd_lines}
use flow_agent_x.Prelude.Dict.{lookup, insert}
use flow_agent_x.Domain.Variables.{new_variables}
use flow_agent_x.Executor.Env.{read_env_from_reader}
use flow_agent_x.Executor.Env.Filter.{IsAllowed, read_env_from_reader-IsAllowed}
use flow_agent_x.Scenarios.{command}

abbrev value : Text → Text
value name = codes "v"

value_plain : (name : Text) → Lacks dollar (value name)
value_plain name = (omega arith, tt)

parse_variables_from_ends_example :
    (fuel : ℕ) × (parse_variables_from fuel (codes "a${B}c") value ≢ hang)
parse_variables_from_ends_example = parse_variables_from-ends value value_plain (codes "a${B}c")

-- `A` is `xxxx${A}`.
abbrev own : Text → Text
own name = codes "xxxx${A}"

plain_name : Lacks right_brace (codes "A")
plain_name = (omega arith, tt)

plain_skip : Lacks dollar (codes "xxxx")
plain_skip = (omega arith, (omega arith, (omega arith, (omega arith, tt))))

parse_variables_from_hang_example : parse_variables_from 1000 (own (codes "A")) own ≡ hang
parse_variables_from_hang_example =
    parse_variables_from-hang own (codes "A") (codes "xxxx") [] [] plain_name plain_skip tt tt refl
      refl 1000

abbrev whole : Text → Text
whole script = script

write_cmd_example :
    EndLines unix (write_cmd unix [] [] [] whole command).0
    × (((write_cmd unix [] [] [] whole command).1 ≡ none)
        ↔ (all_empty (scripts_for unix command) ≡ false))
    × ((write_cmd unix [] [] [] whole command).1 ≡ none
        → RunsScripts unix [] [] [] whole command (write_cmd unix [] [] [] whole command).0)
write_cmd_example = write_cmd_lines unix [] [] [] whole command

abbrev env_text : Text
env_text = codes "FLOW_A=1\nHOME=/root\n"

abbrev flow_filter : List Text
flow_filter = codes "FLOW_" ∷ []

flow_a : lookup (codes "FLOW_A") (read_env_from_reader env_text flow_filter) ≡ some (codes "1")
unfolding read_env_from_reader lookup insert text_eq has_prefix
flow_a = refl

read_env_from_reader_example :
    (lookup (codes "FLOW_A") new_variables ≡ some (codes "1"))
    ⊎ IsAllowed flow_filter (codes "FLOW_A")
read_env_from_reader_example =
    read_env_from_reader-IsAllowed flow_filter env_text (codes "FLOW_A") (codes "1") flow_a
