-- ===== src/Util/Template.antt =====
-- util/common.go: the expansion of `${VAR}`.
pub mod Replace
pub mod Rounds
pub mod Terminates
pub mod Diverges
use flow_agent_x.Prelude.{
  ℕ, zero, suc, ◌+◌, Bool, true, false, Option, none, some, List, [], ◌∷◌, ◌++◌, ltb, ◌==◌,
  if◌then◌else◌, length, get_elem?, take, drop, Text, is_empty, has_prefix,
}
use flow_agent_x.Prelude.Exec.{Outcome, ret, panic, hang, out_of_range}

abbrev pub dollar : ℕ
dollar = b'$'

abbrev pub left_brace : ℕ
left_brace = b'{'

abbrev pub right_brace : ℕ
right_brace = b'}'

-- strings.Replace(s, old, new, -1) for a non-empty `old`; `skip` counts the bytes of a match that
-- are still to be passed over.
pub replace_from : Text → Text → ℕ → Text → Text
unfolding has_prefix
replace_from old new skip [] = []
replace_from old new (suc skip) (c ∷ s) = replace_from old new skip s
replace_from old new zero (c ∷ s) = elim (has_prefix (c ∷ s) old) [
  | true ↦ new ++ replace_from old new (length (drop 1 old)) s
  | false ↦ c ∷ replace_from old new 0 s
]

unfoldable pub replace_all : Text → Text → Text → Text
unfolding replace_from
replace_all s old new = replace_from old new 0 s

-- `fmt.Sprintf("${%s}", env)`
abbrev pub reference : Text → Text
reference env = dollar ∷ left_brace ∷ env ++ right_brace ∷ []

-- The bytes before the first right bracket, if there is one: `src[lIndex+1 : rIndex]`.
unfoldable pub up_to_brace : Text → Option Text
up_to_brace [] = none
up_to_brace (c ∷ s) =
    let rest = up_to_brace s in
    if c == right_brace then some [] else elim rest [ none ↦ none | some env ↦ some (c ∷ env) ]

-- One round of the outer loop at index `i`: the next index and text, or a panic. `src[lIndex]` is
-- read without a test of its index.
pub expand_at : (Text → Text) → ℕ → Text → Text → Outcome (ℕ × Text)
unfolding replace_all up_to_brace
expand_at get i src [] = ret (i + 1, src)
expand_at get i src (c ∷ []) = if c == dollar then panic out_of_range else ret (i + 1, src)
expand_at get i src (c ∷ l ∷ s) =
    if c == dollar
    then (if l == left_brace
        then elim (up_to_brace s) [
          | none ↦ ret (i + 1, src)
          | some env ↦
              if is_empty (get env)
              then ret (i + 1, src)
              else ret (i + 2 + length env + 1, replace_all src (reference env) (get env))
        ]
        else ret (i + 1, src))
    else ret (i + 1, src)

-- The outer loop, on fuel. `hang` says that the fuel did not suffice.
pub expand_from : ℕ → (Text → Text) → ℕ → Text → Outcome Text
expand_from zero get i src = hang
expand_from (suc fuel) get i src = elim (ltb i (length src)) [
  | false ↦ ret src
  | true ↦ elim (expand_at get i src (drop i src)) [
    | ret step ↦ expand_from fuel get step.0 step.1
    | panic e ↦ panic e
    | hang ↦ hang
  ]
]

unfoldable pub parse_variables_from : ℕ → Text → (Text → Text) → Outcome Text
unfolding expand_from expand_at
parse_variables_from fuel src get = if is_empty src then ret src else expand_from fuel get 0 src
