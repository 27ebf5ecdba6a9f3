-- ===== src/Dao/Builder.antt =====
-- dao/builder.go: the statements of an entity.
pub mod Complete
use flow_agent_x.Prelude.{
  ℕ, suc, ◌+◌, ◌-◌, Bool, true, false, Option, none, some, List, [], ◌∷◌, ◌++◌, map, if◌then◌else◌,
  ltb, leb, length, take, replicate, Text, codes,
}
use flow_agent_x.Prelude.Int.{ℤ}
use flow_agent_x.Prelude.Exec.{
  Err, not_entity, unsupported_type, nil_dereference, out_of_range, Result, ok, err, Outcome, ret,
  panic, hang, chain,
}
use flow_agent_x.Dao.Columns.{
  Field, EntityColumn, Unicode, flat_camel_string, parse_entity_column, to_query,
}

pub record Entity : Type 0 where
  pub name : List ℕ
  pub fields : List Field

-- An element of `columns` may be nil, and so may `key`.
pub record QueryBuilder : Type 0 where
  pub entity : Entity
  pub table : Text
  pub columns : List (Option EntityColumn)
  pub key : Option EntityColumn

-- The loop over the fields: the columns, the last key, and how many fields gave no column.
pub record Scan : Type 0 where
  pub kept : List EntityColumn
  pub key : Option EntityColumn
  pub num_of_nil : ℕ

abbrev pub or_else : Option EntityColumn → Option EntityColumn → Option EntityColumn
or_else none b = b
or_else (some a) b = some a

-- A column in front of those of the fields behind it, whose key is the later one.
abbrev pub add_column : Option EntityColumn → Scan → Scan
add_column none r = record r { num_of_nil = r.num_of_nil + 1 }
add_column (some c) r = record r {
  kept = c ∷ r.kept;
  key = or_else r.key (if c.pk then some c else none);
}

unfoldable pub scan : Unicode → List Field → Outcome Scan
scan u [] = ret (record { kept = []; key = none; num_of_nil = 0 })
scan u (f ∷ fs) =
    let rest = scan u fs in
    chain (parse_entity_column u f) λ column. chain rest λ r. ret (add_column column r)

-- The columns come first, and nil stands in the places that are left of one for each field. A slice
-- of more than these panics.
unfoldable pub slice : List Field → Scan → Outcome (List (Option EntityColumn))
slice fields r =
    if leb (r.num_of_nil + 1) (length fields)
    then ret (
        take (r.num_of_nil + 1) (map some r.kept ++ replicate (length fields - length r.kept) none))
    else panic out_of_range

abbrev pub built : Unicode → Entity → Scan → List (Option EntityColumn) → QueryBuilder
built u e r columns = record {
  entity = e;
  table = flat_camel_string u e.name;
  columns = columns;
  key = r.key;
}

unfoldable pub build_from : Unicode → Entity → Scan → Outcome QueryBuilder
unfolding slice
build_from u e r = chain (slice e.fields r) λ columns. ret (built u e r columns)

unfoldable pub init_query_builder : Unicode → Entity → Outcome QueryBuilder
unfolding scan build_from
init_query_builder u e = chain (scan u e.fields) (build_from u e)

-- The columns of `create`; a comma stands before each but the one at index 0.
unfoldable pub create_from : Bool → List (Option EntityColumn) → Result Text
create_from first [] = ok []
create_from first (none ∷ cs) = create_from false cs
create_from first (some c ∷ cs) =
    let rest = create_from false cs in
    elim (to_query c) [
      | err e ↦ err e
      | ok q ↦ elim rest [ err e ↦ err e | ok s ↦ ok ((if first then q else b',' ∷ q) ++ s) ]
    ]

unfoldable pub create_table : QueryBuilder → Result Text
unfolding create_from
create_table b = elim (create_from true b.columns) [
  | err e ↦ err e
  | ok s ↦ ok (codes "CREATE TABLE IF NOT EXISTS " ++ b.table ++ codes " (" ++ s ++ codes ");")
]

unfoldable pub drop_table : QueryBuilder → Text
drop_table b = codes "DROP TABLE IF EXISTS " ++ b.table ++ codes ";"

-- The quoted names, with commas between them. A nil column is read.
unfoldable pub column_names : List (Option EntityColumn) → Outcome Text
column_names [] = ret []
column_names (none ∷ cs) = panic nil_dereference
column_names (some c ∷ []) = ret (codes "'" ++ c.column ++ codes "'")
column_names (some c ∷ d ∷ cs) =
    chain (column_names (d ∷ cs)) λ s. ret (codes "'" ++ c.column ++ codes "'," ++ s)

-- The value of a field, and `%d` of a number.
pub data Value : Type 0 where
  string_value : Text → Value
  bool_value : Bool → Value
  int_value : ℤ → Value
  other_value : Value

unfoldable pub to_string : (ℤ → Text) → Value → Result Text
to_string decimal (string_value s) = ok (codes "'" ++ s ++ codes "'")
to_string decimal (bool_value b) = ok (if b then codes "true" else codes "false")
to_string decimal (int_value n) = ok (decimal n)
to_string decimal other_value = err unsupported_type

unfoldable pub column_values :
    (ℤ → Text) → (Text → Value) → List (Option EntityColumn) → Outcome (Result Text)
unfolding to_string
column_values decimal value [] = ret (ok [])
column_values decimal value (none ∷ cs) = panic nil_dereference
column_values decimal value (some c ∷ cs) =
    let rest = column_values decimal value cs in
    elim (to_string decimal (value c.field.name)) [
      | err e ↦ ret (err e)
      | ok v ↦ chain rest λ r. elim r [
        | err e ↦ ret (err e)
        | ok s ↦ ret (ok (if leb 1 (length cs) then v ++ b',' ∷ s else v ++ s))
      ]
    ]

-- `value` reads the fields of the data.
unfoldable pub insert_same : (ℤ → Text) → (Text → Value) → QueryBuilder → Outcome (Result Text)
unfolding column_names column_values
insert_same decimal value b = chain (column_names b.columns) λ names.
    chain (column_values decimal value b.columns) λ r. elim r [
      | err e ↦ ret (err e)
      | ok values ↦ ret (
          ok (
            codes "INSERT INTO "
            ++ b.table
            ++ codes " ("
            ++ names
            ++ codes ") VALUES ("
            ++ values
            ++ codes ");"))
    ]

-- The data has the builder's type if `same` says so.
unfoldable pub insert_into :
    (ℤ → Text) → Bool → (Text → Value) → QueryBuilder → Outcome (Result Text)
unfolding insert_same
insert_into decimal same value b =
    if same then insert_same decimal value b else ret (err not_entity)

abbrev pub key_column : Option EntityColumn → Outcome Text
key_column none = panic nil_dereference
key_column (some c) = ret c.column

unfoldable pub find : Text → QueryBuilder → Outcome Text
unfolding column_names
find id b = chain (column_names b.columns) λ names. chain (key_column b.key) λ key. ret (
    codes "SELECT "
    ++ names
    ++ codes " FROM "
    ++ b.table
    ++ codes " WHERE "
    ++ key
    ++ codes "='"
    ++ id
    ++ codes "';")
