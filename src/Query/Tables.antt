-- ===== src/Query/Tables.antt =====
-- `HandleCreateStatement` of src/common/db_instance.cpp.
pub mod KeyIndex
pub mod Keyed
use gavin_db.Prelude.{
  ℕ, true, false, List, [], ◌∷◌, ◌++◌, Option, none, some, Result, ok, err, assertion, runtime,
  ◌>>=◌,
}
use gavin_db.Prelude.Maps.{name_eq}
use gavin_db.Meta.Columns.{Column, Schema, schema_of}
use gavin_db.Meta.Catalog.{Name, Catalogs, create_table, get_table_by_name}
use gavin_db.Meta.Indexes.{create_index, bplus_tree_index}
use gavin_db.Query.Statements.{CreateStatement}

-- The first column of the name.
unfoldable pub find_column : List Column → Name → Option Column
unfolding name_eq
find_column [] key = none
find_column (col ∷ cols) key = elim (name_eq col.column_name key) [
  | true ↦ some col
  | false ↦ find_column cols key
]

-- "_pk"
abbrev pub key_suffix : Name
key_suffix = 95 ∷ 112 ∷ 107 ∷ []

-- The index of the primary key, if the statement has one.
unfoldable pub add_key :
    ℕ → Result (Unit {0}) → CreateStatement → List Column → Catalogs → Result Catalogs
unfolding find_column create_index
add_key index_id framed stmt cols c = elim (stmt.primary_key) [
  | [] ↦ ok c
  | primary_key ∷ [] ↦ elim (find_column cols primary_key) [
    | none ↦ err assertion
    | some key_col ↦
        create_index index_id framed (stmt.table_name ++ key_suffix) stmt.table_name key_col true
          bplus_tree_index c
        >>= λ (index_oid, after). elim index_oid [ none ↦ err runtime | some _ ↦ ok after ]
  ]
  | _ ∷ _ ∷ _ ↦ err assertion
]

-- `HandleCreateStatement` once it has the schema.
unfoldable pub create_with :
    ℕ → Result (Unit {0}) → CreateStatement → Catalogs → Schema → Result Catalogs
unfolding create_table add_key get_table_by_name
create_with index_id framed stmt c schema =
    let (table_oid, after) = create_table stmt.table_name schema c in
    elim table_oid [
      | none ↦ get_table_by_name after.memory stmt.table_name >>= λ _. err runtime
      | some _ ↦ add_key index_id framed stmt schema.columns after
    ]

unfoldable pub handle_create_statement :
    ℕ → Result (Unit {0}) → CreateStatement → Catalogs → Result Catalogs
unfolding schema_of create_with
handle_create_statement index_id framed stmt c =
    schema_of stmt.columns >>= create_with index_id framed stmt c
