-- ===== src/Tests/Meta.antt =====
-- A table of two columns, an index on it, and values.
use gavin_db.Prelude.{ℕ, ◌++◌, ◌≡◌, ◌<◌, List, [], ◌∷◌, length, arith, ok, ◌^◌, ◌%◌}
use gavin_db.Serializer.Reader.{le_bytes}
use gavin_db.Serializer.RoundTrip.{Kept, Every}
use gavin_db.Meta.Types.{integer, timestamp, varchar, IsNamed}
use gavin_db.Meta.Columns.{Column, Schema, inline_size, is_inlined, schema_of}
use gavin_db.Meta.Stored.{
  stored_column, stored_schema, TableMeta, IndexMeta, serialize_table, deserialize_table,
  serialize_index, deserialize_index,
}
use gavin_db.Meta.RoundTrip.{
  Kept-table, Kept-index, FitsTable, FitsSchema, FitsColumn, FitsIndex, restored_table,
  restored_index,
}
use gavin_db.Meta.Values.{
  Value, some_value, int32, string, uint64, serialize_value, deserialize_value, serialize_to,
  deserialize_from,
}
use gavin_db.Meta.ValueRoundTrip.{Kept-value, restored_value, fits_integer}
use gavin_db.Meta.TupleValues.{
  deserialize_from-serialize_to, tuple_varchar, deserialize_from-timestamp,
}
use gavin_db.Meta.Layout.{schema_of-Apart, total_size, Apart}

abbrev id_column : Column
id_column = stored_column (105 ∷ 100 ∷ []) integer 4 0

abbrev name_column : Column
name_column = stored_column (110 ∷ []) varchar 20 4

abbrev two_columns : List Column
two_columns = id_column ∷ name_column ∷ []

abbrev people : TableMeta
people = record {
  schema = stored_schema two_columns (1 ∷ []) 8;
  name = 112 ∷ [];
  table_oid = 3;
  last_table_data_page_id = 5;
  last_table_heap_data_page_id = 4;
  tuple_count = 100;
}

abbrev id_index : IndexMeta
id_index = record {
  index_name = 105 ∷ [];
  table_id = 3;
  index_id = 1;
  key_col = id_column;
  index_constraint_type = 2;
  header_page_id = 7;
  index_type = 0;
}

id_column-FitsColumn : FitsColumn id_column
unfolding FitsColumn IsNamed
id_column-FitsColumn = (omega arith, tt, omega arith, omega arith)

name_column-FitsColumn : FitsColumn name_column
unfolding FitsColumn IsNamed
name_column-FitsColumn = (omega arith, tt, omega arith, omega arith)

people-FitsTable : FitsTable people
unfolding FitsTable FitsSchema Every
people-FitsTable = (
  omega arith,
  omega arith,
  (
    omega arith,
    (id_column-FitsColumn, (name_column-FitsColumn, tt)),
    omega arith,
    (omega arith, tt),
    omega arith,
  ),
  omega arith,
  omega arith,
  omega arith,
)

id_index-FitsIndex : FitsIndex id_index
unfolding FitsIndex
id_index-FitsIndex = (
  omega arith,
  omega arith,
  id_column-FitsColumn,
  omega arith,
  omega arith,
  omega arith,
  omega arith,
)

Kept-table_example : Kept (serialize_table people) deserialize_table (restored_table people)
Kept-table_example = Kept-table people people-FitsTable

Kept-index_example : Kept (serialize_index id_index) deserialize_index (restored_index id_index)
Kept-index_example = Kept-index id_index id_index-FitsIndex

abbrev seven : Value
seven = some_value integer (int32 7)

Kept-value_example : Kept (serialize_value seven) deserialize_value (restored_value seven)
Kept-value_example = Kept-value seven (fits_integer 7 (omega arith))

deserialize_from-serialize_to_example :
    (bytes : List ℕ) × (serialize_to varchar (string (97 ∷ 98 ∷ [])) ≡ ok bytes)
    × (deserialize_from (bytes ++ 9 ∷ []) varchar ≡ ok (some_value varchar (string (97 ∷ 98 ∷ []))))
deserialize_from-serialize_to_example =
    deserialize_from-serialize_to varchar (string (97 ∷ 98 ∷ [])) (9 ∷ [])
      (tuple_varchar (97 ∷ 98 ∷ []) (omega arith))

deserialize_from-timestamp_example :
    deserialize_from (le_bytes 8 4294967299 ++ 1 ∷ []) timestamp
    ≡ ok (some_value timestamp (uint64 (4294967299 % 2 ^ 32)))
deserialize_from-timestamp_example = deserialize_from-timestamp 4294967299 (1 ∷ [])

two_columns-HasLength : Every (λ c. 0 < c.column_length) two_columns
unfolding Every
two_columns-HasLength = (omega arith, (omega arith, tt))

two_columns-total_size : total_size two_columns < 2 ^ 32
unfolding total_size inline_size is_inlined
two_columns-total_size = omega arith

schema_of-Apart_example :
    (schema : Schema) × (schema_of two_columns ≡ ok schema)
    × (length schema.columns ≡ length two_columns)
    × (schema.tuple_inline_part_storage_size ≡ total_size two_columns)
    × Apart schema.columns schema.tuple_inline_part_storage_size
schema_of-Apart_example = schema_of-Apart two_columns two_columns-HasLength two_columns-total_size
