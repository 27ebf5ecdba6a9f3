-- ===== src/Executor/Script.antt =====
-- executor/executor.go (writeCmd, getScripts) and executor/util.go: what a shell is told to run.
pub mod Lines
use flow_agent_x.Prelude.{
  ℕ, zero, suc, ◌-◌, ◌≤◌, ◌≡◌, refl, Bool, true, false, not, ◌&&◌, ◌||◌, Option, none, some, List,
  [], ◌∷◌, ◌++◌, map, arith, leb, if◌then◌else◌, length, drop, Text, text_eq, codes, is_empty,
}
use flow_agent_x.Prelude.Exec.{Err, errorf, Result, ok, err}
use flow_agent_x.Domain.Command.{ShellIn}
use flow_agent_x.Domain.Docker.{DockerVolume, script_path}

pub data Os : Type 0 where
  windows unix : Os

-- strings.HasSuffix
pub has_suffix : Text → Text → Bool
has_suffix s t = leb (length t) (length s) && text_eq (drop (length s - length t) s) t

abbrev pub new_line_for_os : Os → Text
new_line_for_os windows = 13 ∷ 10 ∷ []
new_line_for_os unix = 10 ∷ []

unfoldable pub append_new_line : Os → Text → Text
unfolding has_suffix
append_new_line os script =
    if has_suffix script (new_line_for_os os) then script else script ++ new_line_for_os os

abbrev pub exit_on_error : Os → List Text
exit_on_error windows = codes "$ErrorActionPreference = \"Stop\"" ∷ []
exit_on_error unix = codes "set -e" ∷ []

pub all_empty : List Text → Bool
all_empty [] = true
all_empty (s ∷ ss) = is_empty s && all_empty ss

abbrev pub scripts_for : Os → ShellIn → List Text
scripts_for windows in' = in'.pwsh
scripts_for unix in' = in'.bash

unfoldable pub get_scripts : Os → ShellIn → Result (List Text)
unfolding all_empty
get_scripts os in' =
    if all_empty (scripts_for os in')
    then err (errorf (codes "agent: Missing bash or pwsh section in flow YAML"))
    else ok (scripts_for os in')

unfoldable pub source_line : DockerVolume → Text
source_line v = codes "source " ++ script_path v ++ codes " > /dev/null 2>&1"

unfoldable pub source_lines : List DockerVolume → List Text
unfolding source_line
source_lines [] = []
source_lines (v ∷ vs) =
    let rest = source_lines vs in if is_empty v.script then rest else source_line v ∷ rest

abbrev pub volume_lines : Os → List DockerVolume → List Text
volume_lines windows vs = []
volume_lines unix vs = codes "set +e" ∷ source_lines vs

-- What is written to the shell, in order, and the panic that ends the writing, if one does.
unfoldable pub write_cmd :
    Os
    → List DockerVolume
    → List Text
    → List Text
    → (Text → Text)
    → ShellIn
    → List Text × Option Err
unfolding append_new_line get_scripts source_lines
write_cmd os volumes before after do_script in' =
    let start = volume_lines os volumes ++ (before ++ exit_on_error os) in
    elim (get_scripts os in') [
      | err e ↦ (map (append_new_line os) start, some e)
      | ok scripts ↦ (
        map (append_new_line os) (start ++ (map do_script scripts ++ (after ++ codes "exit" ∷ []))),
        none,
      )
    ]
