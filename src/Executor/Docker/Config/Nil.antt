-- ===== src/Executor/Docker/Config/Nil.antt =====
-- Where the configs of a command hold a nil.
use flow_agent_x.Prelude.{
  ℕ, ◌≡◌, ◌≢◌, ◌↔◌, ◌∙◌, sym, refl, ap, true, false, inl, inr, Option, none, some, List, [], ◌∷◌,
  ◌++◌, set, Bool-cases, Text,
}
use mathlib.Core.Path.{subst}
use flow_agent_x.Prelude.Exec.{
  Result, Outcome, ret, bind_inv, chain, chain_inv, panic_if_err, ◌>>=◌,
}
use flow_agent_x.Domain.Docker.{DockerOption, DockerConfig, to_config, set_default_network}
use flow_agent_x.Executor.Docker.{Docker, Engine}
use flow_agent_x.Executor.Docker.Images.{pull_images, pull_image, pull_image_with_name}
use flow_agent_x.Executor.Docker.Config.{
  Setting, docker_network, split_options, runtime_option, runtime_config, init_config,
}

-- One entry for each option, nil exactly for a runtime option.
abbrev pub SameNils : List DockerOption → List (Option DockerConfig) → Type 0
SameNils [] [] = Unit
SameNils [] (c ∷ cs) = ⊥
SameNils (o ∷ os) [] = ⊥
SameNils (o ∷ os) (c ∷ cs) = ((c ≡ none) ↔ (o.is_runtime ≡ true)) × SameNils os cs

-- The configs that are stored: never a nil at the first place.
abbrev pub Stored : List DockerOption → List (Option DockerConfig) → Type 0
Stored [] configs = ⊥
Stored (o ∷ os) configs =
    (c : DockerConfig) × (cs : List (Option DockerConfig)) × (configs ≡ some c ∷ cs)
    × SameNils os cs

module _ (fuel : ℕ) (parse_ports : List Text → Result (List Text)) where
  abbrev Split : Type 0
  Split = List (Option DockerConfig) × Option DockerOption

  abbrev put : Option DockerConfig → Split → Outcome Split
  put c t = ret (c ∷ t.0, t.1)

  -- One option of the loop: what it stores, and the loop over the rest.
  record Item (item : DockerOption) (items : List DockerOption) (r : Split) : Type 0 where
    entry : Option DockerConfig
    found : Option DockerOption
    tail : Split
    rest : split_options fuel parse_ports found items ≡ ret tail
    whole : r ≡ (entry ∷ tail.0, tail.1)
    is_nil : (entry ≡ none) ↔ (item.is_runtime ≡ true)

  runtime_item :
      (item : DockerOption) (items : List DockerOption) (found : Option DockerOption)
      → item.is_runtime ≡ true
      → split_options fuel parse_ports found (item ∷ items)
        ≡ chain
            (split_options fuel parse_ports (some (set_default_network docker_network item)) items)
            (put none)
  unfolding split_options
  runtime_item item items found e = rw (e, split_options) refl

  other_item :
      (item : DockerOption) (items : List DockerOption) (found : Option DockerOption)
      → item.is_runtime ≡ false
      → split_options fuel parse_ports found (item ∷ items)
        ≡ chain
            (to_config fuel parse_ports (set_default_network docker_network item))
            (λ c. chain (split_options fuel parse_ports found items) (put (some c)))
  unfolding split_options
  other_item item items found e = rw (e, split_options) refl

  split_options-Item :
      (item : DockerOption) (items : List DockerOption) (found : Option DockerOption) (r : Split)
      → split_options fuel parse_ports found (item ∷ items) ≡ ret r
      → Item item items r
  split_options-Item item items found r h = elim (Bool-cases item.is_runtime) [
    | inl e ↦
        let later = split_options fuel parse_ports (some item') items in
        let (t, p, q) = chain_inv later (put none) r (sym (runtime_item item items found e) ∙ h) in
        record {
          entry = none;
          found = some item';
          tail = t;
          rest = p;
          whole = same t none q;
          is_nil = (λ _. e, λ _. refl);
        }
    | inr e ↦
        let later = split_options fuel parse_ports found items in
        let (c, _, k) =
          chain_inv (to_config fuel parse_ports item') (λ c. chain later (put (some c))) r
            (sym (other_item item items found e) ∙ h) in
        let (t, p, q) = chain_inv later (put (some c)) r k in
        record {
          entry = some c;
          found = found;
          tail = t;
          rest = p;
          whole = same t (some c) q;
          is_nil = (λ g. cc, λ g. cc);
        }
  ]
    where
      item' : DockerOption
      item' = set_default_network docker_network item

      same :
          (t : Split) (c : Option DockerConfig)
          → ◌≡◌ {A = Outcome Split} (ret (c ∷ t.0, t.1)) (ret r)
          → r ≡ (c ∷ t.0, t.1)
      same t c q = cc

  split_options-SameNils :
      (items : List DockerOption) (found : Option DockerOption) (r : Split)
      → split_options fuel parse_ports found items ≡ ret r
      → SameNils items r.0
  split_options-SameNils [] found r h = nils (unfold split_options in h)
    where
      nils : ◌≡◌ {A = Outcome Split} (ret ([], found)) (ret r) → SameNils [] r.0
      nils e = let p : [] ≡ r.0 = cc in rw (← p) tt
  split_options-SameNils (item ∷ items) found r h =
      let i = split_options-Item item items found r h in
      rw (i.whole) (i.is_nil, split_options-SameNils items i.found i.tail i.rest)

  Stored-first :
      (o : DockerOption) (os : List DockerOption) (split : Split) (c : DockerConfig)
      (configs : List (Option DockerConfig))
      → SameNils (o ∷ os) split.0
      → ◌≡◌ {A = Outcome (List (Option DockerConfig))} (ret (set split.0 0 (some c))) (ret configs)
      → Stored (o ∷ os) configs
  Stored-first o os ([], f) c configs nils e = absurd nils
  Stored-first o os (x ∷ cs, f) c configs nils e =
      let p : configs ≡ some c ∷ cs = cc in (c, cs, p, nils.1)

  -- If the configs of a command are made, there is one for each option; the first is not nil, and
  -- a later one is nil exactly if its option is marked as the runtime.
  pub init_config-Stored :
      (s : Setting) (o : DockerOption) (os : List DockerOption)
      (configs : List (Option DockerConfig))
      → init_config fuel parse_ports s (o ∷ os) ≡ ret configs
      → Stored (o ∷ os) configs
  unfolding init_config
  init_config-Stored s o os configs h =
      let (split, e, h1) = chain_inv (split_options fuel parse_ports none (o ∷ os)) _ configs h in
      let (option, _, h2) =
        chain_inv (runtime_option fuel parse_ports split.1 (o ∷ os)) _ configs h1 in
      let (c, _, h3) = chain_inv (runtime_config fuel parse_ports s option) _ configs h2 in
      Stored-first o os split c configs (split_options-SameNils (o ∷ os) none split e) h3

-- The nil that a later runtime option leaves.
nil_behind :
    (front : List DockerOption) (o : DockerOption) (back : List DockerOption)
    (cs : List (Option DockerConfig))
    → SameNils (front ++ o ∷ back) cs
    → o.is_runtime ≡ true
    → (before after : List (Option DockerConfig)) × (cs ≡ before ++ none ∷ after)
nil_behind [] o back [] h e = absurd h
nil_behind [] o back (c ∷ cs) h e = ([], cs, ap (λ x. x ∷ cs) (h.0.1 e))
nil_behind (x ∷ front) o back [] h e = absurd h
nil_behind (x ∷ front) o back (c ∷ cs) h e =
    let (before, after, p) = nil_behind front o back cs h.1 e in
    (c ∷ before, after, ap (λ t. c ∷ t) p)

pull_images-nil :
    (engine : Engine) (before after : List (Option DockerConfig)) (d d' : Docker)
    → pull_images engine (before ++ none ∷ after) d ≢ (ret tt, d')
pull_images-nil engine [] after d d' h = unfold pull_images in cc
pull_images-nil engine (none ∷ before) after d d' h = unfold pull_images in cc
pull_images-nil engine (some c ∷ before) after d d' h =
    let later = pull_images engine (before ++ none ∷ after) in
    let (e, _, h1) =
      bind_inv (pull_image_with_name engine c.image c.auth) (λ e. panic_if_err e >>= λ _. later) d
        tt d' (unfold pull_images in h) in
    let (_, _, h2) = bind_inv (panic_if_err e) (λ _. later) _ tt d' h1 in
    pull_images-nil engine before after _ d' h2

-- A command whose runtime option does not stand first can never run: `pullImage`, the first step
-- of an attempt, does not return on the configs that are made for it.
pub runtime_not_first :
    (fuel : ℕ) (parse_ports : List Text → Result (List Text)) (s : Setting) (first : DockerOption)
    (front : List DockerOption) (o : DockerOption) (back : List DockerOption) (engine : Engine)
    (d d' : Docker)
    → o.is_runtime ≡ true
    → init_config fuel parse_ports s (first ∷ (front ++ o ∷ back)) ≡ ret d.configs
    → pull_image engine d ≢ (ret tt, d')
unfolding pull_image
runtime_not_first fuel parse_ports s first front o back engine d d' e made run =
    let (c, cs, p, nils) =
      init_config-Stored fuel parse_ports s first (front ++ o ∷ back) d.configs made in
    let (before, after, q) = nil_behind front o back cs nils e in
    let place : d.configs ≡ (some c ∷ before) ++ none ∷ after = p ∙ ap (λ t. some c ∷ t) q in
    pull_images-nil engine (some c ∷ before) after d d'
      (subst (λ configs. pull_images engine configs d ≡ (ret tt, d')) place run)
