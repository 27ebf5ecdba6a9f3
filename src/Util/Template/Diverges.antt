-- ===== src/Util/Template/Diverges.antt =====
-- What the expansion does at the edges: a `$` at the end panics, and a value that holds a
-- reference to itself behind a long prefix keeps the loop going for ever.
use flow_agent_x.Prelude.{
  ℕ, zero, suc, ◌+◌, ◌<◌, ◌≡◌, ◌≢◌, ◌∙◌, refl, ap, false, some, [], ◌∷◌, ◌++◌, append_assoc, arith,
  length, length-append, Text, Lacks, is_empty, has_prefix, has_prefix-append, All-append,
}
use flow_agent_x.Prelude.Exec.{ret, panic, hang, out_of_range}
use flow_agent_x.Util.Template.{
  dollar, left_brace, right_brace, replace_from, replace_all, reference, up_to_brace, expand_at,
  expand_from, parse_variables_from,
}
use flow_agent_x.Util.Template.Replace.{replace_found, replace_absent}
use flow_agent_x.Util.Template.Rounds.{expand_from_here, expand_at-plain}

-- The loop passes over a byte that is no `$`.
pass_over :
    (get : Text → Text) (fuel : ℕ) (done : Text) (c : ℕ) (s : Text)
    → c ≢ dollar
    → expand_from (suc fuel) get (length done) (done ++ c ∷ s)
      ≡ expand_from fuel get (length (done ++ c ∷ [])) ((done ++ c ∷ []) ++ s)
pass_over get fuel done c s h = rw (
  expand_from_here get fuel done c s _ (expand_at-plain get _ _ c s h),
  length-append done (c ∷ []),
  append_assoc done (c ∷ []) s,
)

-- A text whose only `$` stands at its end.
panics_at_end :
    (get : Text → Text) (done p : Text)
    → Lacks dollar p
    → expand_from (suc (length p)) get (length done) (done ++ (p ++ dollar ∷ []))
      ≡ panic out_of_range
panics_at_end get done [] h =
    expand_from_here get 0 done dollar [] (panic out_of_range) (unfold expand_at in refl)
panics_at_end get done (c ∷ p) h =
    pass_over get (suc (length p)) done c (p ++ dollar ∷ []) h.0
    ∙ panics_at_end get (done ++ c ∷ []) p h.1

-- A text that ends in a `$`, the only one in it, panics: the byte behind the `$` is read without a
-- test of its index. It does so for any variables.
pub parse_variables_from-panics :
    (get : Text → Text) (p : Text)
    → Lacks dollar p
    → parse_variables_from (suc (length p)) (p ++ dollar ∷ []) get ≡ panic out_of_range
unfolding parse_variables_from
parse_variables_from-panics get [] h = panics_at_end get [] [] h
parse_variables_from-panics get (c ∷ p) h = panics_at_end get [] (c ∷ p) h

up_to_brace-append :
    (name s : Text) → Lacks right_brace name → up_to_brace (name ++ right_brace ∷ s) ≡ some name
unfolding up_to_brace
up_to_brace-append [] s h = refl
up_to_brace-append (c ∷ name) s h = ground (arith, up_to_brace-append name s h.1)

-- Replacement in a text with one reference.
module _ (old new : Text) where
  no_match : (c : ℕ) (s : Text) → c ≢ dollar → has_prefix (c ∷ s) (dollar ∷ old) ≡ false
  unfolding has_prefix
  no_match c s h = ground arith

  replace_plain : (s : Text) → Lacks dollar s → replace_from (dollar ∷ old) new 0 s ≡ s
  replace_plain [] h = unfold replace_from in refl
  replace_plain (c ∷ s) h =
      rw (replace_absent (dollar ∷ old) new c s (no_match c s h.0))
        (ap (λ t. c ∷ t) (replace_plain s h.1))

  replace_skip :
      (p s : Text)
      → replace_from (dollar ∷ old) new (length p) (p ++ s) ≡ replace_from (dollar ∷ old) new 0 s
  unfolding replace_from
  replace_skip [] s = refl
  replace_skip (c ∷ p) s = replace_skip p s

  replace_reference :
      (y q : Text)
      → Lacks dollar y
      → Lacks dollar q
      → replace_all (y ++ ((dollar ∷ old) ++ q)) (dollar ∷ old) new ≡ y ++ (new ++ q)
  unfolding replace_all
  replace_reference [] q hy hq =
      rw (replace_found (dollar ∷ old) new dollar (old ++ q) (has_prefix-append (dollar ∷ old) q))
        (rw (replace_skip old q, replace_plain q hq))
  replace_reference (c ∷ y) q hy hq =
      rw (replace_absent (dollar ∷ old) new c (y ++ ((dollar ∷ old) ++ q)) (no_match c _ hy.0))
        (ap (λ t. c ∷ t) (replace_reference y q hy.1 hq))

-- A variable whose value refers to itself, behind a prefix that is as long as the reference or
-- longer: `name = skip ++ rest ++ "${name}" ++ tail`.
module _ (get : Text → Text) (name skip rest tail : Text) (plain_name : Lacks right_brace name)
    (plain_skip : Lacks dollar skip) (plain_rest : Lacks dollar rest)
    (plain_tail : Lacks dollar tail) (long : length skip ≡ 3 + length name)
    (self : get name ≡ skip ++ (rest ++ (reference name ++ tail))) where
  not_empty : is_empty (get name) ≡ false
  not_empty = rw self (nonempty skip (omega arith))
    where
      nonempty :
          (s : Text) → 0 < length s → is_empty (s ++ (rest ++ (reference name ++ tail))) ≡ false
      nonempty [] h = absurd (omega arith)
      nonempty (c ∷ s) h = refl

  expand_at-reference :
      (y q : Text)
      → Lacks dollar y
      → Lacks dollar q
      → expand_at get (length y) (y ++ (reference name ++ q)) (reference name ++ q)
        ≡ ret (length (y ++ skip), (y ++ skip) ++ (rest ++ (reference name ++ (tail ++ q))))
  unfolding expand_at
  expand_at-reference y q hy hq = rw (brace, not_empty) (cc (index, text))
    where
      brace : up_to_brace ((name ++ right_brace ∷ []) ++ q) ≡ some name
      brace = rw (append_assoc name (right_brace ∷ []) q) (up_to_brace-append name q plain_name)

      index : length y + 2 + length name + 1 ≡ length (y ++ skip)
      index = omega (arith, long, length-append y skip)

      text :
          replace_all (y ++ (reference name ++ q)) (reference name) (get name)
          ≡ (y ++ skip) ++ (rest ++ (reference name ++ (tail ++ q)))
      text =
          replace_reference (left_brace ∷ name ++ right_brace ∷ []) (get name) y q hy hq
          ∙ rw self (simp append_assoc)

  -- The loop has not ended, whatever rounds it is granted.
  expand_from-hang :
      (fuel : ℕ) (y p q : Text)
      → Lacks dollar y
      → Lacks dollar p
      → Lacks dollar q
      → expand_from fuel get (length y) (y ++ (p ++ (reference name ++ q))) ≡ hang
  expand_from-hang zero y p q hy hp hq = unfold expand_from in refl
  expand_from-hang (suc fuel) y [] q hy hp hq =
      expand_from_here get fuel y dollar _ _ (expand_at-reference y q hy hq)
      ∙ expand_from-hang fuel (y ++ skip) rest (tail ++ q) (All-append _ y skip hy plain_skip)
          plain_rest (All-append _ tail q plain_tail hq)
  expand_from-hang (suc fuel) y (c ∷ p) q hy hp hq =
      pass_over get fuel y c (p ++ (reference name ++ q)) hp.0
      ∙ expand_from-hang fuel (y ++ c ∷ []) p q (All-append _ y (c ∷ []) hy (hp.0, tt)) hp.1 hq

  -- Let the value of a variable be a prefix of the length of the reference to the variable, more
  -- text, that reference, and more text, without a `$` elsewhere and without a right brace in the
  -- name. Then the expansion of that value never ends, whatever rounds it is granted.
  pub parse_variables_from-hang : (fuel : ℕ) → parse_variables_from fuel (get name) get ≡ hang
  unfolding parse_variables_from
  parse_variables_from-hang fuel = rw not_empty (
      rw (self, ← append_assoc skip rest (reference name ++ tail))
        (expand_from-hang fuel [] (skip ++ rest) tail tt
          (All-append _ skip rest plain_skip plain_rest) plain_tail))
