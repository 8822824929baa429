-- ===== src/Tests/Query.antt =====
-- A catalog with a table, and statements on it.
use gavin_db.Prelude.{
  true, false, ℕ, ◌≡◌, refl, List, [], ◌∷◌, map, none, some, Error, ok, err, exception, arith,
  if◌then◌else◌,
}
use gavin_db.Prelude.Maps.{name_eq, find}
use gavin_db.Serializer.RoundTrip.{Every}
use gavin_db.Meta.Types.{integer, varchar, type_code, is_varchar}
use gavin_db.Meta.Columns.{Column, Schema, schema_of, lay_out, inline_size, is_inlined}
use gavin_db.Meta.Stored.{stored_column}
use gavin_db.Meta.Catalog.{Name, Catalog, Catalogs, new_table_meta, create_table, get_table_by_name}
use gavin_db.Meta.Tables.{IsCatalog}
use gavin_db.Meta.CreateTable.{Created, create_table-Created}
use gavin_db.Meta.SameTypes.{IsMade, SameLayout, schema_of-SameLayout, code_width}
use gavin_db.Query.Statements.{
  Expr, literal_int, literal_string, star, sql_insert, sql_select, SqlSelect,
}
use gavin_db.Query.Plans.{insert_plan, values_plan}
use gavin_db.Query.Binder.{is_internal}
use gavin_db.Query.Planner.{types_match}
use gavin_db.Query.Literals.{IsLiteral, literal_value, planned_row}
use gavin_db.Meta.Columns.{fixed_column, varlen_column}
use gavin_db.Meta.Types.{type_size}
use gavin_db.Meta.Values.{some_value, int32, string}
use gavin_db.Query.Statements.{ColumnDefinition, sql_int, sql_varchar}
use gavin_db.Query.Plans.{Expression, constant_value}
use gavin_db.Query.Binder.{bind_create, bind_column_definition, sql_type_id}
use gavin_db.Query.Planner.{for_each}
use gavin_db.Query.Creates.{bind_create-columns, created, key_names}
use gavin_db.Query.Executors.{next, poll, poll-rows, at_row, row_tuple}
use gavin_db.Query.InsertLayout.{plan_statement-SameLayout}
use gavin_db.Query.Inserts.{
  plan_statement, count_schema, plan_statement-select, plan_statement-insert,
}

-- The digit of a number below 10.
abbrev digits : ℕ → Name
digits i = 48 ∷ i ∷ []

abbrev table_t : Name
table_t = 116 ∷ []

abbrev id_column : Column
id_column = stored_column (105 ∷ []) integer 4 0

abbrev text_column : Column
text_column = stored_column (115 ∷ []) varchar 20 0

abbrev wide_column : Column
wide_column = stored_column (119 ∷ []) varchar 128 0

abbrev two_columns : List Column
two_columns = id_column ∷ text_column ∷ []

abbrev other_columns : List Column
other_columns = id_column ∷ wide_column ∷ []

abbrev schema_t : List Column → Schema
schema_t columns = record {
  columns = columns;
  uninlined_columns = 1 ∷ [];
  tuple_inline_part_storage_size = 8;
}

abbrev laid_columns : Column → List Column
laid_columns second = id_column ∷ record second { storage_offset = 4; schema_offset = 1 } ∷ []

abbrev no_tables : Catalog
no_tables = record { tables = []; indexes = []; index_names = []; table_names = [] }

abbrev fresh : Catalogs
fresh = record { memory = no_tables; file = no_tables }

abbrev one_table : Catalog
one_table = record no_tables {
  tables = (0, new_table_meta (schema_t (laid_columns text_column)) table_t 0) ∷ [];
  index_names = (table_t, []) ∷ [];
  table_names = (table_t, 0) ∷ [];
}

no_tables-IsCatalog : IsCatalog no_tables
unfolding IsCatalog find
no_tables-IsCatalog = ((λ n oid e. cc), (λ oid meta e. cc))

create_table-Created_example :
    (after : Catalogs) × (create_table table_t (schema_t (laid_columns text_column)) fresh
      ≡ (some 0, after))
    × Created fresh table_t (schema_t (laid_columns text_column)) after
unfolding find
create_table-Created_example =
    create_table-Created fresh table_t (schema_t (laid_columns text_column)) no_tables-IsCatalog
      (omega arith) refl

two_columns-IsMade : Every IsMade two_columns × Every IsMade other_columns
unfolding Every IsMade inline_size is_inlined is_varchar code_width type_code
two_columns-IsMade = (((refl, refl), ((refl, refl), tt)), ((refl, refl), ((refl, refl), tt)))

schema_of-SameLayout_example :
    SameLayout (schema_t (laid_columns text_column)) (schema_t (laid_columns wide_column))
unfolding schema_of lay_out inline_size is_inlined is_varchar type_code
schema_of-SameLayout_example =
    schema_of-SameLayout two_columns other_columns (schema_t (laid_columns text_column))
      (schema_t (laid_columns wide_column)) (two_columns-IsMade.0) (two_columns-IsMade.1) refl refl
      refl

abbrev select_all : SqlSelect
select_all = record { from_table = some table_t; select_list = some (star ∷ []) }

plan_statement-select_example :
    (e : Error) × (plan_statement digits one_table (sql_select select_all) ≡ err e)
plan_statement-select_example = plan_statement-select digits one_table select_all

abbrev two_literals : List Expr
two_literals = literal_int 7 ∷ literal_string (97 ∷ []) ∷ []

two_literals-IsLiteral : Every IsLiteral two_literals
unfolding Every IsLiteral
two_literals-IsLiteral = (tt, (tt, tt))

plan_statement-insert_example :
    (rows : Schema) × (map (λ (c : Column). c.column_type) rows.columns
      ≡ map (λ e. (literal_value e).type_id) two_literals)
    × (plan_statement digits one_table (sql_insert table_t (some two_literals) none) ≡ (
        if types_match (laid_columns text_column) rows.columns
        then ok (insert_plan count_schema (values_plan rows (planned_row two_literals ∷ [])) 0)
        else err exception))
unfolding get_table_by_name find name_eq is_internal
plan_statement-insert_example =
    plan_statement-insert digits one_table table_t
      (new_table_meta (schema_t (laid_columns text_column)) table_t 0) two_literals refl refl
      two_literals-IsLiteral (omega arith)

abbrev two_columns_bound : List Column
two_columns_bound = id_column ∷ text_column ∷ []

abbrev definitions : List ColumnDefinition
definitions =
    record { name = 105 ∷ []; sql_type = sql_int; has_primary_key = true }
    ∷ record { name = 115 ∷ []; sql_type = sql_varchar 20; has_primary_key = false }
    ∷ []

bind_create-columns_example :
    bind_create table_t definitions ≡ ok (created table_t two_columns_bound ((105 ∷ []) ∷ []))
unfolding for_each bind_column_definition sql_type_id fixed_column varlen_column is_varchar
    type_size key_names
bind_create-columns_example = bind_create-columns table_t definitions two_columns_bound refl

abbrev row : List Expression
row =
    constant_value (some_value integer (int32 7))
    ∷ constant_value (some_value varchar (string (97 ∷ 98 ∷ [])))
    ∷ []

poll-rows_example :
    poll next 2 (at_row (schema_t (laid_columns text_column)) (row ∷ []) 0)
    ≡ for_each (row_tuple (schema_t (laid_columns text_column))) (row ∷ [])
poll-rows_example = poll-rows (schema_t (laid_columns text_column)) (row ∷ []) 2 (omega arith)

plan_statement-SameLayout_example :
    (rows : Schema) × SameLayout (schema_t (laid_columns text_column)) rows
    × (plan_statement digits one_table (sql_insert table_t (some two_literals) none)
        ≡ ok (insert_plan count_schema (values_plan rows (planned_row two_literals ∷ [])) 0))
unfolding get_table_by_name find name_eq is_internal schema_of lay_out inline_size is_inlined
    is_varchar literal_value
plan_statement-SameLayout_example =
    plan_statement-SameLayout digits one_table table_t
      (new_table_meta (schema_t (laid_columns text_column)) table_t 0) two_literals two_columns refl
      refl two_literals-IsLiteral (omega arith) refl (two_columns-IsMade.0) refl
