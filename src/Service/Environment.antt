-- ===== src/Service/Environment.antt =====
-- service/cmd_service.go: initEnv, the variables that every command gets from the agent.
use flow_agent_x.Prelude.{List, [], ◌∷◌, ◌++◌, Text, codes}
use flow_agent_x.Prelude.Dict.{insert}
use flow_agent_x.Prelude.Exec.{Result, ok, err}
use flow_agent_x.Domain.Variables.{Variables, new_variables}

-- The fields of config.Manager that are read; `port` is after strconv.Itoa.
pub record AgentPaths : Type 0 where
  pub plugin_dir : Text
  pub server : Text
  pub token : Text
  pub port : Text
  pub workspace : Text
  pub logging_dir : Text

-- A network interface: the texts of its addresses, or the error of Addrs.
pub record Interface : Type 0 where
  pub name : Text
  pub addrs : Result (List Text)

unfoldable pub agent_vars : AgentPaths → Variables
agent_vars c =
    let v1 = insert (codes "FLOWCI_AGENT_PLUGIN_DIR") c.plugin_dir new_variables in
    let v2 = insert (codes "FLOWCI_SERVER_URL") c.server v1 in
    let v3 = insert (codes "FLOWCI_AGENT_TOKEN") c.token v2 in
    let v4 = insert (codes "FLOWCI_AGENT_PORT") c.port v3 in
    let v5 = insert (codes "FLOWCI_AGENT_WORKSPACE") c.workspace v4 in
    let v6 = insert (codes "FLOWCI_AGENT_PLUGIN_DIR") c.plugin_dir v5 in
    insert (codes "FLOWCI_AGENT_LOG_DIR") c.logging_dir v6

-- The first address of an interface counts; one without an address, or with an error, is passed.
unfoldable pub address_var : Interface → Variables → Variables
address_var i vars = elim i.addrs [
  | ok (ip ∷ _) ↦ insert (codes "FLOWCI_AGENT_IP_" ++ i.name) ip vars
  | _ ↦ vars
]

unfoldable pub address_vars : List Interface → Variables → Variables
unfolding address_var
address_vars [] vars = vars
address_vars (i ∷ is) vars = address_vars is (address_var i vars)

unfoldable pub init_env : AgentPaths → Result (List Interface) → Variables
unfolding agent_vars address_vars
init_env c (err e) = agent_vars c
init_env c (ok interfaces) = address_vars interfaces (agent_vars c)
