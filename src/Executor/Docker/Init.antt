-- ===== src/Executor/Docker/Init.antt =====
-- executor/docker.go: `Init`, which makes an executor ready to start.
use flow_agent_x.Prelude.{
  ℕ, ◌≡◌, ◌∙◌, ap, refl, inl, inr, Bool, Option, none, some, List, [], ◌∷◌, ◌++◌, set, is_some,
  Text, codes,
}
use mathlib.Core.Path.{subst}
use flow_agent_x.Prelude.Exec.{
  Err, Result, Result-cases, Outcome, ret, panic, continue, hang, Exec, pure, modify, panic_if_err,
  recover, on_panic, ◌>>=◌, ◌>>◌, bind_inv,
}
use flow_agent_x.Domain.Variables.{Variables, resolve}
use flow_agent_x.Domain.Docker.{DockerVolume, DockerOption, DockerConfig}
use flow_agent_x.Executor.Docker.{Docker, Engine}
use flow_agent_x.Executor.Docker.Config.{
  Setting, job_vars, split_options, runtime_option, runtime_config, init_config,
}
use flow_agent_x.Executor.Docker.Config.Nil.{Stored, init_config-Stored}
use flow_agent_x.Executor.Docker.Volumes.{
  init_volume_data, init_network, init_workspace_volume, get_volume,
}

-- What `Init` reads besides the state: fields of the base executor that never change, the machine
-- and the two orders in which `Resolve` visits the variables.
pub record Site : Type 0 where
  pub client : Option Err  -- the error of client.NewEnvClient
  pub now : ℕ
  pub agent_id : Text
  pub workspace : Text
  pub from_volume : Bool  -- wsFromDockerVolume
  pub flow_id : Text  -- after util.ParseString
  pub has_sock : Bool
  pub pod_ip : Option Text
  pub secret_vars : Variables
  pub environment : Text → Text
  pub first : List Text
  pub second : List Text

-- A part that leaves the state.
abbrev lift {ℓ} : {A : Type ℓ} → Outcome A → Exec Docker A
lift o d = (o, d)

-- The workspace to bind: the volume's name, or the directory on the machine.
abbrev workspace_of : Site → Option Text → Text
workspace_of site none = site.workspace
workspace_of site (some volume) = volume

unfoldable pub setting_of : Site → Option Text → List (DockerVolume × Bool) → Variables → Setting
setting_of site ws volumes vars = record {
  flow_id = site.flow_id;
  workspace = workspace_of site ws;
  volumes = volumes;
  has_sock = site.has_sock;
  pod_ip = site.pod_ip;
  vars = vars;
  secret_vars = site.secret_vars;
  environment = site.environment;
  first = site.first;
  second = site.second;
}

module _ (engine : Engine) (fuel : ℕ) (parse_ports : List Text → Result (List Text))
    (site : Site) where
  -- Whether each volume exists, in order.
  unfoldable pub find_volumes : List DockerVolume → Exec Docker (List (DockerVolume × Bool))
  find_volumes [] = pure []
  find_volumes (v ∷ vs) =
      let later = find_volumes vs in
      get_volume engine v.name >>= λ found. later >>= λ rest. pure ((v, is_some found) ∷ rest)

  -- The variables of the job, with the references in them replaced.
  unfoldable pub resolve_vars : Setting → Outcome Variables
  resolve_vars s =
      resolve fuel s.environment s.first s.second (job_vars s (codes "/ws/" ++ s.flow_id))

  abbrev store_configs :
      Setting → List (Option DockerConfig) → Variables → DockerConfig → Docker → Docker
  store_configs s configs vars c d = record d {
    configs = set configs 0 (some c);
    vars = vars;
    job_dir = codes "/ws/" ++ s.flow_id;
  }

  -- `initConfig`, with its calls of the engine. What it has written before a panic is left out:
  -- no attempt follows.
  unfoldable pub make_configs : Option Text → Exec Docker (Unit {0})
  unfolding find_volumes setting_of resolve_vars
  make_configs ws d =
      (do
        split ← lift (split_options fuel parse_ports none d.in_cmd.dockers)
        option ← lift (runtime_option fuel parse_ports split.1 d.in_cmd.dockers)
        volumes ← find_volumes d.volumes
        vars ← lift (resolve_vars (setting_of site ws volumes d.vars))
        c ← lift (runtime_config fuel parse_ports (setting_of site ws volumes d.vars) option)
        modify (store_configs (setting_of site ws volumes d.vars) split.0 vars c))
        d

  unfoldable pub init_parts : Exec Docker (Option Err)
  unfolding make_configs
  init_parts = do
    modify (λ d. record d { result = record d.result { start_at = site.now } })
    panic_if_err site.client
    init_volume_data engine
    init_network engine
    ws ← init_workspace_volume engine site.from_volume site.agent_id
    make_configs ws
    pure none

  unfoldable pub init : Exec Docker (Option Err)
  unfolding init_parts
  init = recover (λ e d. (ret (some e), d)) init_parts

  get_volume-in_cmd : (name : Text) (d : Docker) → (get_volume engine name d).1.in_cmd ≡ d.in_cmd
  unfolding get_volume
  get_volume-in_cmd name d = elim (Result-cases (engine.volumes_named d.calls name)) [
    | inl (found, p) ↦ rw p refl
    | inr (e, p) ↦ rw p refl
  ]

  continue-in_cmd {ℓ κ} :
      {A : Type ℓ} {B : Type κ} (r : Outcome A) (f : A → Exec Docker B) (d : Docker)
      → ((a : A) → (f a d).1.in_cmd ≡ d.in_cmd)
      → (continue r f d).1.in_cmd ≡ d.in_cmd
  continue-in_cmd (ret a) f d h = h a
  continue-in_cmd (panic e) f d h = refl
  continue-in_cmd hang f d h = refl

  find_volumes-in_cmd :
      (vs : List DockerVolume) (d : Docker) → (find_volumes vs d).1.in_cmd ≡ d.in_cmd
  unfolding find_volumes
  find_volumes-in_cmd [] d = refl
  find_volumes-in_cmd (v ∷ vs) d =
      let found = get_volume engine v.name d in
      let rest = find_volumes vs found.1 in
      continue-in_cmd found.0 _ found.1
        (λ a. continue-in_cmd rest.0 _ rest.1 (λ b. refl) ∙ find_volumes-in_cmd vs found.1)
      ∙ get_volume-in_cmd v.name d

  stored-made :
      (s : Setting) (split : List (Option DockerConfig) × Option DockerOption)
      (option : DockerOption) (vars : Variables) (c : DockerConfig) (d d1 d' : Docker)
      → d1.in_cmd ≡ d.in_cmd
      → split_options fuel parse_ports none d.in_cmd.dockers ≡ ret split
      → runtime_option fuel parse_ports split.1 d.in_cmd.dockers ≡ ret option
      → runtime_config fuel parse_ports s option ≡ ret c
      → ◌≡◌ {A = Outcome (Unit {0}) × Docker}
          (ret tt, store_configs s split.0 vars c d1)
          (ret tt, d')
      → init_config fuel parse_ports s d'.in_cmd.dockers ≡ ret d'.configs
  unfolding init_config
  stored-made s split option vars c d d1 d' k e1 e2 e3 e =
      let p : store_configs s split.0 vars c d1 ≡ d' = ap (λ r. r.1) e in
      rw (← p, k, e1, e2, e3) refl

  make_configs-made :
      (ws : Option Text) (d d' : Docker)
      → make_configs ws d ≡ (ret tt, d')
      → (s : Setting) × (init_config fuel parse_ports s d'.in_cmd.dockers ≡ ret d'.configs)
  unfolding make_configs
  make_configs-made ws d d' h =
      let (split, e1, h1) =
        bind_inv (lift (split_options fuel parse_ports none d.in_cmd.dockers)) _ d tt d' h in
      let (option, e2, h2) =
        bind_inv (lift (runtime_option fuel parse_ports split.1 d.in_cmd.dockers)) _ d tt d' h1 in
      let (volumes, e3, h3) = bind_inv (find_volumes d.volumes) _ d tt d' h2 in
      let s = setting_of site ws volumes d.vars in
      let (vars, e4, h4) = bind_inv (lift (resolve_vars s)) _ _ tt d' h3 in
      let (c, e5, h5) = bind_inv (lift (runtime_config fuel parse_ports s option)) _ _ tt d' h4 in
      (
        s,
        stored-made s split option vars c d (find_volumes d.volumes d).1 d'
            (find_volumes-in_cmd d.volumes d) e1 e2 e5 h5,
      )

  abbrev Made : Outcome (Option Err) × Docker → Type 0
  Made (ret none, d) =
      (s : Setting) × (init_config fuel parse_ports s d.in_cmd.dockers ≡ ret d.configs)
  Made (ret (some e), d) = Unit
  Made (panic e, d) = Unit
  Made (hang, d) = Unit

  none_then :
      (ws : Option Text) (r : Outcome (Unit {0})) (d d' : Docker)
      → make_configs ws d ≡ (r, d')
      → Made (continue r (λ a. pure none) d')
  none_then ws (ret tt) d d' h = make_configs-made ws d d' h
  none_then ws (panic e) d d' h = tt
  none_then ws hang d d' h = tt

  continue-Made {ℓ} :
      {A : Type ℓ} (r : Outcome A) (f : A → Exec Docker (Option Err)) (d : Docker)
      → ((a : A) → Made (f a d))
      → Made (continue r f d)
  continue-Made (ret a) f d h = h a
  continue-Made (panic e) f d h = tt
  continue-Made hang f d h = tt

  init_parts-Made : (d : Docker) → Made (init_parts d)
  unfolding init_parts
  init_parts-Made d = continue-Made (panic_if_err site.client _).0 _ _ λ a.
      continue-Made (init_volume_data engine _).0 _ _ λ b.
        continue-Made (init_network engine _).0 _ _ λ c.
          continue-Made (init_workspace_volume engine site.from_volume site.agent_id _).0 _ _
            λ ws. none_then ws _ _ _ refl

  recovered-Made :
      (r : Outcome (Option Err)) (d : Docker)
      → Made (r, d)
      → Made (on_panic (λ e t. (ret (some e), t)) r d)
  recovered-Made (ret out) d h = h
  recovered-Made (panic e) d h = tt
  recovered-Made hang d h = tt

  Stored-made :
      (s : Setting) (items : List DockerOption) (configs : List (Option DockerConfig))
      → init_config fuel parse_ports s items ≡ ret configs
      → Stored items configs
  Stored-made s [] configs h = unfold init_config split_options runtime_option in cc
  Stored-made s (o ∷ os) configs h = init_config-Stored fuel parse_ports s o os configs h

  -- If Init returns without an error, the command has a docker option, there is one config for
  -- each option, the first config is not nil, and a later one is nil exactly if its option is
  -- marked as the runtime.
  pub init-Stored : (d d' : Docker) → init d ≡ (ret none, d') → Stored d'.in_cmd.dockers d'.configs
  unfolding init
  init-Stored d d' h =
      let (s, e) =
        subst Made h (recovered-Made (init_parts d).0 (init_parts d).1 (init_parts-Made d)) in
      Stored-made s d'.in_cmd.dockers d'.configs e
