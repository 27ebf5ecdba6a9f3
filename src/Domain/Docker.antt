-- ===== src/Domain/Docker.antt =====
-- domain/docker.go, domain/docker_option.go, domain/docker_config.go: the data.
use flow_agent_x.Prelude.{
  ℕ, Bool, true, false, Option, List, [], ◌∷◌, ◌++◌, ◌||◌, not, if◌then◌else◌, Text, text_eq, codes,
  is_empty,
}
use flow_agent_x.Prelude.Exec.{Outcome, ret, panic, hang, Result, ok, err}
use flow_agent_x.Domain.Variables.{Variables, get, connect_vars, to_string_array}
use flow_agent_x.Util.Template.{parse_variables_from}

pub record SimpleAuthPair : Type 0 where
  pub username : Text
  pub password : Text

pub record DockerVolume : Type 0 where
  pub name : Text
  pub dest : Text
  pub script : Text
  pub image : Text
  pub init : Text

unfoldable pub has_image : DockerVolume → Bool
has_image v = not (is_empty v.image)

unfoldable pub script_path : DockerVolume → Text
script_path v = v.dest ++ codes "/" ++ v.script

unfoldable pub init_script_in_image : DockerVolume → Text
init_script_in_image v = codes "/ws/" ++ v.init

unfoldable pub to_bind_str : DockerVolume → Text
to_bind_str v = v.name ++ codes ":" ++ v.dest

pub record DockerOption : Type 0 where
  pub image : Text
  pub auth : Text
  pub name : Text
  pub entrypoint : List Text
  pub command : List Text
  pub ports : List Text
  pub network : Text
  pub environment : Variables
  pub user : Text
  pub is_runtime : Bool
  pub is_stop_container : Bool
  pub is_delete_container : Bool
  pub container_id : Text
  pub auth_content : Option SimpleAuthPair

-- The fields of `container.Config` and `container.HostConfig` that the program sets.
pub record DockerConfig : Type 0 where
  pub name : Text
  pub auth : Option SimpleAuthPair
  pub image : Text
  pub env : List Text
  pub entrypoint : List Text
  pub cmd : List Text
  pub ports : List Text
  pub user : Text
  pub attach : Bool
  pub network_mode : Text
  pub working_dir : Text
  pub binds : List Text
  pub is_stop : Bool
  pub is_delete : Bool
  pub container_id : Text

abbrev pub has_entrypoint : DockerConfig → Bool
has_entrypoint c = elim c.entrypoint [ [] ↦ false | _ ∷ _ ↦ true ]

abbrev pub has_auth : DockerOption → Bool
has_auth d = not (is_empty d.auth)

unfoldable pub set_default_network : Text → DockerOption → DockerOption
set_default_network network d =
    if text_eq d.network (codes "bridge") || is_empty d.network
    then record d { network = network }
    else d

-- `parse_ports` is nat.ParsePortSpecs; its two results are one list here.
module _ (fuel : ℕ) (parse_ports : List Text → Result (List Text)) where
  config_with : DockerOption → Variables → Text → List Text → Bool → List Text → Text → DockerConfig
  config_with d vars working_dir binds input ports image = record {
    name = d.name;
    auth = d.auth_content;
    image = image;
    env = to_string_array vars;
    entrypoint = d.entrypoint;
    cmd = d.command;
    ports = ports;
    user = d.user;
    attach = input;
    network_mode = d.network;
    working_dir = working_dir;
    binds = binds;
    is_stop = d.is_stop_container;
    is_delete = d.is_delete_container;
    container_id = d.container_id;
  }

  to_config_with : DockerOption → Variables → Text → List Text → Bool → Outcome DockerConfig
  unfolding config_with
  to_config_with d vars working_dir binds input = elim (parse_ports d.ports) [
    | err e ↦ panic e
    | ok ports ↦
        let vars' = connect_vars vars d.environment in
        elim (parse_variables_from fuel d.image (get vars')) [
          | ret image ↦ ret (config_with d vars' working_dir binds input ports image)
          | panic e ↦ panic e
          | hang ↦ hang
        ]
  ]

  unfoldable pub to_runtime_config :
      DockerOption → Variables → Text → List Text → Outcome DockerConfig
  unfolding to_config_with
  to_runtime_config d vars working_dir binds = to_config_with d vars working_dir binds true

  unfoldable pub to_config : DockerOption → Outcome DockerConfig
  unfolding to_config_with
  to_config d = to_config_with d [] [] [] false
