-- ===== src/Executor/Env/Filter.antt =====
-- Which variables a command can export.
use flow_agent_x.Prelude.{
  ◌≡◌, refl, sym, ◌∙◌, true, ◌⊎◌, inl, inr, Option, none, some, List, [], ◌∷◌, ◌++◌, has_prefix,
  has_prefix_inv, if◌then◌else◌, Bool-cases, Text, text_eq, text_eq_iff,
}
use mathlib.Core.Path.{subst}
use flow_agent_x.Prelude.Dict.{lookup, insert, lookup-insert}
use flow_agent_x.Domain.Variables.{Variables, new_variables}
use flow_agent_x.Executor.Env.{
  trim_space, env_key_and_val, match_env_filter, read_line, read_lines, lines_from,
  read_env_from_reader,
}

-- The key begins with one of the filters.
abbrev pub IsAllowed : List Text → Text → Type 0
IsAllowed [] key = ⊥
IsAllowed (filter ∷ filters) key = ((r : Text) × (key ≡ filter ++ r)) ⊎ IsAllowed filters key

pub match_env_filter-IsAllowed :
    (filters : List Text) (key : Text) → match_env_filter key filters ≡ true → IsAllowed filters key
unfolding match_env_filter
match_env_filter-IsAllowed [] key h = absurd (cc)
match_env_filter-IsAllowed (f ∷ fs) key h = elim (Bool-cases (has_prefix key f)) [
  | inl e ↦ inl (has_prefix_inv key f e)
  | inr e ↦ inr (match_env_filter-IsAllowed fs key (rw (← h, e) refl))
]

-- Beyond the variables of `base`, only keys that a filter lets through.
abbrev pub Within : List Text → Variables → Variables → Type 0
Within filters base output =
    (key val : Text)
    → lookup key output ≡ some val
    → (lookup key base ≡ some val) ⊎ IsAllowed filters key

pub inserted :
    (filters : List Text) (base output : Variables) (key val : Text)
    → IsAllowed filters key
    → Within filters base output
    → Within filters base (insert key val output)
inserted filters base output key val a h k v e = elim (Bool-cases (text_eq key k)) [
  | inl p ↦ inr (subst (λ x. IsAllowed filters x) ((text_eq_iff key k).0 p) a)
  | inr p ↦
      let f : (if text_eq key k then some val else lookup k output) ≡ some v =
        sym (lookup-insert key k val output) ∙ e in
      h k v (rw p at f)
]

-- One line leaves the output as it was, or adds an allowed key.
read_line_cases :
    (filters : List Text) (line : Text) (output : Variables)
    → (read_line filters line output ≡ output)
      ⊎ ((key val : Text) × IsAllowed filters key
          × (read_line filters line output ≡ insert key val output))
unfolding read_line
read_line_cases filters line output = pick (env_key_and_val (trim_space line)) refl
  where
    pick :
        (o : Option (Text × Text))
        → env_key_and_val (trim_space line) ≡ o
        → (read_line filters line output ≡ output)
          ⊎ ((key val : Text) × IsAllowed filters key
              × (read_line filters line output ≡ insert key val output))
    pick none e = inl (rw (e, read_line) refl)
    pick (some (key, val)) e = elim (Bool-cases (match_env_filter key filters)) [
      | inl f ↦ inr (key, val, match_env_filter-IsAllowed filters key f, rw (e, f, read_line) refl)
      | inr f ↦ inl (rw (e, f, read_line) refl)
    ]

read_line-Within :
    (filters : List Text) (base output : Variables) (line : Text)
    → Within filters base output
    → Within filters base (read_line filters line output)
read_line-Within filters base output line h = elim (read_line_cases filters line output) [
  | inl e ↦ subst (Within filters base) (sym e) h
  | inr (key, val, f, e) ↦
      subst (Within filters base) (sym e) (inserted filters base output key val f h)
]

read_lines-Within :
    (filters lines : List Text) (base output : Variables)
    → Within filters base output
    → Within filters base (read_lines filters lines output)
unfolding read_lines
read_lines-Within filters [] base output h = h
read_lines-Within filters (line ∷ lines) base output h =
    read_lines-Within filters lines base (read_line filters line output)
      (read_line-Within filters base output line h)

-- Whatever text a shell leaves behind, a variable of the result is one that every new map of
-- variables holds, or its key begins with one of the filters of the command.
pub read_env_from_reader-IsAllowed :
    (filters : List Text) (text key val : Text)
    → lookup key (read_env_from_reader text filters) ≡ some val
    → (lookup key new_variables ≡ some val) ⊎ IsAllowed filters key
unfolding read_env_from_reader
read_env_from_reader-IsAllowed filters text key val e =
    read_lines-Within filters (lines_from [] text) new_variables new_variables (λ k v p. inl p) key
      val e
