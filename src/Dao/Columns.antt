-- ===== src/Dao/Columns.antt =====
-- dao/entity.go, dao/helper.go: a column, from the tag of a field.
use flow_agent_x.Prelude.{
  ℕ, ◌+◌, ◌%◌, Bool, true, false, ◌&&◌, Option, none, some, List, [], ◌∷◌, ◌++◌, if◌then◌else◌,
  ◌==◌, Text, codes, text_eq, is_empty,
}
use flow_agent_x.Prelude.Exec.{
  type_not_available, key_cannot_be_null, nil_dereference, out_of_range, Result, ok, err, Outcome,
  ret, panic, chain,
}
use flow_agent_x.Domain.Volumes.{split}

-- The kinds of package reflect that the package tells apart.
pub data Kind : Type 0 where
  of_int of_string of_bool of_other : Kind

-- A field of a struct: its name, its kind, and the tag under the key `db`.
pub record Field : Type 0 where
  pub name : Text
  pub kind : Kind
  pub tag : Text

pub record EntityColumn : Type 0 where
  pub field : Field
  pub column : Text
  pub nullable : Bool
  pub pk : Bool

-- Package unicode on code points, and strconv.ParseBool, whose error the program drops.
pub record Unicode : Type 0 where
  pub is_upper : ℕ → Bool
  pub to_lower : ℕ → ℕ
  pub to_upper : ℕ → ℕ
  pub parse_bool : Text → Bool

-- The names of a type are code points, which are cut to bytes one by one.
unfoldable pub flat_from : Unicode → Bool → List ℕ → Text
flat_from u first [] = []
flat_from u first (c ∷ v) =
    let rest = flat_from u false v in
    if u.is_upper c
    then (if first then (u.to_lower c % 256) ∷ rest else b'_' ∷ (u.to_lower c % 256) ∷ rest)
    else (c % 256) ∷ rest

unfoldable pub flat_camel_string : Unicode → List ℕ → Text
unfolding flat_from
flat_camel_string u v = flat_from u true v

-- The first byte is read without a test of the length.
unfoldable pub capital_first_char : Unicode → Text → Outcome Text
capital_first_char u [] = panic out_of_range
capital_first_char u (c ∷ v) = ret ((u.to_upper c % 256) ∷ v)

-- A field of EntityColumn that a tag names is set by reflection. The kind of one that is not there is
-- read, which panics; the field `Field` is neither a text nor a Boolean, and stays as it is.
unfoldable pub set_field : Unicode → Text → Text → EntityColumn → Outcome EntityColumn
unfolding text_eq
set_field u key val c =
    if text_eq key (codes "Column")
    then ret (record c { column = val })
    else if text_eq key (codes "Nullable")
    then ret (record c { nullable = u.parse_bool val })
    else if text_eq key (codes "Pk")
    then ret (record c { pk = u.parse_bool val })
    else if text_eq key (codes "Field")
    then ret c
    else panic nil_dereference

-- One item of a tag, with the number of items that were read.
unfoldable pub read_item : Unicode → List Text → ℕ × EntityColumn → Outcome (ℕ × EntityColumn)
unfolding set_field capital_first_char
read_item u (key ∷ val ∷ []) (count, c) =
    chain (capital_first_char u key)
      λ name. chain (set_field u name val c) λ c'. ret (count + 1, c')
read_item u _ r = ret r

unfoldable pub read_items : Unicode → List Text → ℕ × EntityColumn → Outcome (ℕ × EntityColumn)
unfolding read_item split
read_items u [] r = ret r
read_items u (item ∷ items) r = chain (read_item u (split b'=' item) r) λ r'. read_items u items r'

abbrev pub if_any : ℕ × EntityColumn → Option EntityColumn
if_any (count, c) = if count == 0 then none else some c

unfoldable pub parse_entity_column : Unicode → Field → Outcome (Option EntityColumn)
unfolding read_items split
parse_entity_column u f =
    if is_empty f.tag
    then ret none
    else chain
        (read_items u (split b',' f.tag)
          (0, record { field = f; column = []; nullable = true; pk = false }))
        (λ r. ret (if_any r))

abbrev pub type_mapping : Kind → Text
type_mapping of_int = codes "INTEGER"
type_mapping of_string = codes "TEXT"
type_mapping of_bool = []
type_mapping of_other = []

unfoldable pub to_query : EntityColumn → Result Text
to_query c =
    if is_empty (type_mapping c.field.kind)
    then err type_not_available
    else if c.pk && c.nullable
    then err key_cannot_be_null
    else ok (
        c.column
        ++ codes " "
        ++ type_mapping c.field.kind
        ++ (if c.nullable then [] else codes " NOT NULL")
        ++ (if c.pk then codes " PRIMARY KEY" else []))
