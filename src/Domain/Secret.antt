-- ===== src/Domain/Secret.antt =====
-- domain/secret*.go, domain/config*.go: secrets and configs, and their environment variables.
use flow_agent_x.Prelude.{Option, none, some, [], ◌∷◌, ◌++◌, Text, codes}
use flow_agent_x.Prelude.Exec.{Outcome, ret, panic, nil_dereference}
use flow_agent_x.Domain.Variables.{Variables}
use flow_agent_x.Domain.Docker.{SimpleAuthPair}

pub record SimpleKeyPair : Type 0 where
  pub public_key : Text
  pub private_key : Text

-- A pointer field is an `Option`.
pub data Secret : Type 0 where
  auth_secret : Text → Option SimpleAuthPair → Secret
  rsa_secret : Text → Option SimpleKeyPair → Secret
  token_secret : Text → Option Text → Secret

-- util.PanicIfNil does not see a nil pointer in its interface argument; the field behind it is read.
unfoldable pub to_envs : Secret → Outcome Variables
to_envs (auth_secret name (some p)) =
    ret ((name ++ codes "_USERNAME", p.username) ∷ (name ++ codes "_PASSWORD", p.password) ∷ [])
to_envs (rsa_secret name (some p)) = ret (
    (name ++ codes "_PUBLIC_KEY", p.public_key)
    ∷ (name ++ codes "_PRIVATE_KEY", p.private_key)
    ∷ [])
to_envs (token_secret name (some t)) = ret ((name, t) ∷ [])
to_envs _ = panic nil_dereference

pub data Config : Type 0 where
  smtp_config : Text → Text → Text → Text → Option SimpleAuthPair → Config  -- port as text
  text_config : Text → Text → Config

unfoldable pub config_envs : Config → Outcome Variables
config_envs (smtp_config name server port secure (some a)) = ret (
    (name ++ codes "_SERVER", server)
    ∷ (name ++ codes "_PORT", port)
    ∷ (name ++ codes "_SECURE_TYPE", secure)
    ∷ (name ++ codes "_AUTH_USERNAME", a.username)
    ∷ (name ++ codes "_AUTH_PASSWORD", a.password)
    ∷ [])
config_envs (smtp_config name server port secure none) = panic nil_dereference
config_envs (text_config name text) = ret ((name, text) ∷ [])
