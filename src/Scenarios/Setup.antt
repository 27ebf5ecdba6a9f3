-- ===== src/Scenarios/Setup.antt =====
-- config/manager.go and dao/ at concrete inputs.
use flow_agent_x.Prelude.{
  ◌+◌, ◌-◌, ◌≡◌, refl, true, false, ◌&&◌, none, some, [], ◌∷◌, ◌++◌, if◌then◌else◌, leb, codes,
  text_eq,
}
use flow_agent_x.Prelude.Int.{pos, negsuc}
use flow_agent_x.Prelude.Exec.{ok, canceled, ret, hang}
use flow_agent_x.Controller.{get_verb}
use flow_agent_x.App.{HttpServer, new_app, start}
use flow_agent_x.Dao.Columns.{of_int, of_string, of_other, Field, EntityColumn, Unicode, to_query}
use flow_agent_x.Dao.Builder.{Entity, QueryBuilder, Scan, create_table}
use flow_agent_x.Service.Startup.{Environment, Flags, Manager, init_manager, started}

abbrev environment : Environment
environment = record {
  lookup_env = λ k. none;
  parse_bool = λ s. ok (text_eq s (codes "true"));
  join = λ a b. a ++ codes "/" ++ b;
  free_port = 9000;
  goos = codes "linux";
  connect = λ i. ok (pos 60);
}

abbrev flags : Flags
flags = record {
  port = negsuc 0;
  profile_enabled = codes "true";
  k8s_cluster = false;
  workspace = codes "/ws";
  volumes = [];
}

abbrev manager : Manager
manager = started environment flags true false [] (pos 60)

init_manager_test : init_manager environment flags ≡ ret manager
unfolding init_manager text_eq
init_manager_test = refl

-- ASCII
abbrev ascii : Unicode
ascii = record {
  is_upper = λ c. leb b'A' c && leb c b'Z';
  to_lower = λ c. c + 32;
  to_upper = λ c. if leb b'a' c && leb c b'z' then c - 32 else c;
  parse_bool = λ s. text_eq s (codes "true");
}

abbrev id_field : Field
id_field = record {
  name = codes "ID";
  kind = of_string;
  tag = codes "column=id,pk=true,nullable=false";
}

abbrev age_field : Field
age_field = record { name = codes "Age"; kind = of_int; tag = codes "column=age" }

abbrev created_field : Field
created_field = record { name = codes "CreatedAt"; kind = of_other; tag = [] }

-- Two columns, and one field without a column.
abbrev entity : Entity
entity = record { name = codes "MockEntity"; fields = id_field ∷ age_field ∷ created_field ∷ [] }

abbrev id_column : EntityColumn
id_column = record { field = id_field; column = codes "id"; nullable = false; pk = true }

abbrev age_column : EntityColumn
age_column = record { field = age_field; column = codes "age"; nullable = true; pk = false }

abbrev scanned : Scan
scanned = record { kept = id_column ∷ age_column ∷ []; key = some id_column; num_of_nil = 1 }

abbrev builder : QueryBuilder
builder = record {
  entity = entity;
  table = codes "mock_entity";
  columns = some id_column ∷ some age_column ∷ [];
  key = some id_column;
}

create_table_test :
    create_table builder
    ≡ ok
        (codes "CREATE TABLE IF NOT EXISTS mock_entity (id TEXT NOT NULL PRIMARY KEY,age INTEGER);")
unfolding create_table to_query
create_table_test = refl

-- A server in debug mode that is shut down while a request is open: the process is ended, and the
-- client is not closed.
abbrev busy_server : HttpServer
busy_server = record {
  debug = true;
  pprof_routes = record { verb = get_verb; full_path = codes "/debug/pprof/"; handler = [] } ∷ [];
  listen = none;
  done = true;
  shutdown = some canceled;
}

start_test :
    let (o, app) = start (init_manager environment flags) busy_server new_app in
    (o ≡ hang) × (app.exited ≡ true) × (app.closed ≡ false)
unfolding start init_manager text_eq
start_test = (refl, refl, refl)
