-- ===== src/Executor/Script/Lines.antt =====
-- What the shell is told, line by line.
use flow_agent_x.Prelude.{
  ◌-◌, ◌≡◌, ◌↔◌, refl, true, false, inl, inr, Option, none, some, List, [], ◌∷◌, ◌++◌, map, arith,
  Bool-cases, length, length-append, drop, drop-append, Text, text_eq, text_eq_iff, codes, All,
  append_assoc,
}
use mathlib.Core.List.{map-append}
use flow_agent_x.Prelude.Exec.{Err, errorf}
use flow_agent_x.Domain.Command.{ShellIn}
use flow_agent_x.Domain.Docker.{DockerVolume}
use flow_agent_x.Executor.Script.{
  Os, has_suffix, new_line_for_os, append_new_line, exit_on_error, all_empty, scripts_for,
  get_scripts, volume_lines, write_cmd,
}

has_suffix-append : (s t : Text) → has_suffix (s ++ t) t ≡ true
unfolding has_suffix
has_suffix-append s t = ground (arith, length-append s t, same)
  where
    behind : length (s ++ t) - length t ≡ length s
    behind = omega (arith, length-append s t)

    same : text_eq (drop (length (s ++ t) - length t) (s ++ t)) t ≡ true
    same = rw (behind, drop-append s t) ((text_eq_iff t t).1 refl)

pub append_new_line-suffix :
    (os : Os) (s : Text) → has_suffix (append_new_line os s) (new_line_for_os os) ≡ true
unfolding append_new_line
append_new_line-suffix os s = elim (Bool-cases (has_suffix s (new_line_for_os os))) [
  | inl e ↦ rw e e
  | inr e ↦ rw e (has_suffix-append s (new_line_for_os os))
]

-- A line that is written ends in the line break of its system, and a second pass changes nothing.
pub append_new_line_idem :
    (os : Os) (s : Text) → append_new_line os (append_new_line os s) ≡ append_new_line os s
append_new_line_idem os s = let e = append_new_line-suffix os s in closed (append_new_line os s) e
  where
    closed : (t : Text) → has_suffix t (new_line_for_os os) ≡ true → append_new_line os t ≡ t
    closed t e = unfold append_new_line in rw e refl

-- Each text is one line or more, with the last one ended.
abbrev pub EndLines : Os → List Text → Type 0
EndLines os = All (λ l. has_suffix l (new_line_for_os os) ≡ true)

map-EndLines : (os : Os) (ss : List Text) → EndLines os (map (append_new_line os) ss)
map-EndLines os [] = tt
map-EndLines os (s ∷ ss) = (append_new_line-suffix os s, map-EndLines os ss)

module _ (os : Os) (volumes : List DockerVolume) (before after : List Text)
    (do_script : Text → Text) (in' : ShellIn) where
  abbrev written : List Text × Option Err
  written = write_cmd os volumes before after do_script in'

  abbrev line : Text → Text
  line = append_new_line os

  -- The scripts run behind the line that stops the shell at an error, in their order, and `exit`
  -- is the last line.
  abbrev pub RunsScripts : List Text → Type 0
  RunsScripts lines =
      (front back : List Text) × (lines
        ≡ (front ++ map line (exit_on_error os))
          ++ (map line (map do_script (scripts_for os in')) ++ (back ++ line (codes "exit") ∷ [])))

  when_empty : all_empty (scripts_for os in') ≡ true → (e : Err) × (written.1 ≡ some e)
  unfolding write_cmd
  when_empty h = (
    errorf (codes "agent: Missing bash or pwsh section in flow YAML"),
    rw (h, get_scripts, write_cmd) refl,
  )

  when_present : all_empty (scripts_for os in') ≡ false → (written.1 ≡ none) × RunsScripts written.0
  unfolding write_cmd
  when_present h = (
    rw (h, get_scripts, write_cmd) refl,
    (
      map line (volume_lines os volumes ++ before),
      map line after,
      rw (h, get_scripts, write_cmd) (simp (map-append, append_assoc)),
    ),
  )

  lines_end : EndLines os written.0
  unfolding write_cmd
  lines_end = elim (Bool-cases (all_empty (scripts_for os in'))) [
    | inl h ↦ rw (h, get_scripts, write_cmd) (map-EndLines os _)
    | inr h ↦ rw (h, get_scripts, write_cmd) (map-EndLines os _)
  ]

  -- Every text that is written ends in a line break. The writing panics exactly if the command has
  -- no script, or none but empty ones; otherwise the scripts run, in order, behind the line that
  -- stops the shell at an error, and `exit` is the last line.
  pub write_cmd_lines :
      EndLines os written.0
      × ((written.1 ≡ none) ↔ (all_empty (scripts_for os in') ≡ false))
      × (written.1 ≡ none → RunsScripts written.0)
  write_cmd_lines = elim (Bool-cases (all_empty (scripts_for os in'))) [
    | inl h ↦
        let (e, p) = when_empty h in
        (lines_end, (λ q. absurd (clash e q p), λ k. absurd (cc)), λ q. absurd (clash e q p))
    | inr h ↦ (lines_end, (λ _. h, λ _. (when_present h).0), λ _. (when_present h).1)
  ]
    where
      clash : (e : Err) → written.1 ≡ none → written.1 ≡ some e → ⊥
      clash e p q = cc
