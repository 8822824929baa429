-- ===== src/Meta/Stored.antt =====
-- How the parts of the catalog are stored: the `Serialize` and `Deserialize` of Column (column.hpp),
-- Schema (schema.hpp), TableMeta (table_meta.hpp) and IndexMeta (index.hpp).
use gavin_db.Prelude.{ℕ, List, false}
use gavin_db.Serializer.Reader.{Read, ◌>>=◌, return, read_primitive}
use gavin_db.Serializer.Format.{
  Write, ◌then◌, write_number, write_string, write_property, read_property, read_string,
  write_object, read_object, write_vector, read_vector,
}
use gavin_db.Meta.Types.{TypeId, write_type, read_type}
use gavin_db.Meta.Columns.{Column, Schema}

unfoldable pub serialize_column : Column → Write
unfolding ◌then◌ write_property write_string write_type write_number
serialize_column column =
    write_property 100 (write_string column.column_name)
    then write_property 101 (write_type column.column_type)
    then write_property 102 (write_number 4 column.column_length)
    then write_property 103 (write_number 4 column.storage_offset)

abbrev pub stored_column : List ℕ → TypeId → ℕ → ℕ → Column
stored_column name type length offset = record {
  column_name = name;
  column_type = type;
  column_length = length;
  storage_offset = offset;
  schema_offset = 0;
  is_auto_increment = false;
}

-- The members that are not read keep the value that a new column has.
unfoldable pub deserialize_column : Read Column
unfolding read_property read_string read_type read_primitive
deserialize_column = read_property 100 read_string >>= λ name.
    read_property 101 read_type >>= λ type. read_property 102 (read_primitive 4) >>= λ length.
    read_property 103 (read_primitive 4) >>= λ offset.
    return (stored_column name type length offset)

unfoldable pub serialize_schema : Schema → Write
unfolding ◌then◌ write_property write_vector write_object serialize_column write_number
serialize_schema schema =
    write_property 100 (write_vector (λ c. write_object (serialize_column c)) schema.columns)
    then write_property 101 (write_vector (write_number 4) schema.uninlined_columns)
    then write_property 102 (write_number 4 schema.tuple_inline_part_storage_size)

abbrev pub stored_schema : List Column → List ℕ → ℕ → Schema
stored_schema columns uninlined size = record {
  columns = columns;
  uninlined_columns = uninlined;
  tuple_inline_part_storage_size = size;
}

unfoldable pub deserialize_schema : Read Schema
unfolding read_property read_vector read_object deserialize_column read_primitive
deserialize_schema = read_property 100 (read_vector (read_object deserialize_column)) >>= λ columns.
    read_property 101 (read_vector (read_primitive 4)) >>= λ uninlined.
    read_property 102 (read_primitive 4) >>= λ size. return (stored_schema columns uninlined size)

-- The members of TableMeta, less its latch. A signed number is kept as its bits.
pub record TableMeta : Type 0 where
  pub schema : Schema
  pub name : List ℕ
  pub table_oid : ℕ
  pub last_table_data_page_id : ℕ
  pub last_table_heap_data_page_id : ℕ
  pub tuple_count : ℕ

unfoldable pub serialize_table : TableMeta → Write
unfolding ◌then◌ write_property write_string write_object serialize_schema write_number
serialize_table meta =
    write_property 100 (write_string meta.name)
    then write_property 101 (write_number 4 meta.table_oid)
    then write_property 102 (write_object (serialize_schema meta.schema))
    then write_property 103 (write_number 4 meta.last_table_data_page_id)
    then write_property 104 (write_number 4 meta.last_table_heap_data_page_id)
    then write_property 105 (write_number 8 meta.tuple_count)

unfoldable pub deserialize_table : Read TableMeta
unfolding read_property read_string read_object deserialize_schema read_primitive
deserialize_table = read_property 100 read_string >>= λ name.
    read_property 101 (read_primitive 4) >>= λ oid.
    read_property 102 (read_object deserialize_schema) >>= λ schema.
    read_property 103 (read_primitive 4) >>= λ last_page.
    read_property 104 (read_primitive 4) >>= λ last_heap_page.
    read_property 105 (read_primitive 8) >>= λ count. return record {
      schema = schema;
      name = name;
      table_oid = oid;
      last_table_data_page_id = last_page;
      last_table_heap_data_page_id = last_heap_page;
      tuple_count = count;
    }

-- The two enums of IndexMeta are kept as their codes: a byte, and an `int`.
pub record IndexMeta : Type 0 where
  pub index_name : List ℕ
  pub table_id : ℕ
  pub index_id : ℕ
  pub key_col : Column
  pub index_constraint_type : ℕ
  pub header_page_id : ℕ
  pub index_type : ℕ

unfoldable pub serialize_index : IndexMeta → Write
unfolding ◌then◌ write_property write_string write_object serialize_column write_number
serialize_index meta =
    write_property 100 (write_string meta.index_name)
    then write_property 101 (write_number 4 meta.table_id)
    then write_property 102 (write_object (serialize_column meta.key_col))
    then write_property 103 (write_number 4 meta.index_id)
    then write_property 104 (write_number 1 meta.index_constraint_type)
    then write_property 105 (write_number 4 meta.header_page_id)
    then write_property 106 (write_number 4 meta.index_type)

unfoldable pub deserialize_index : Read IndexMeta
unfolding read_property read_string read_object deserialize_column read_primitive
deserialize_index = read_property 100 read_string >>= λ name.
    read_property 101 (read_primitive 4) >>= λ table.
    read_property 102 (read_object deserialize_column) >>= λ column.
    read_property 103 (read_primitive 4) >>= λ index.
    read_property 104 (read_primitive 1) >>= λ constraint.
    read_property 105 (read_primitive 4) >>= λ header.
    read_property 106 (read_primitive 4) >>= λ type. return record {
      index_name = name;
      table_id = table;
      index_id = index;
      key_col = column;
      index_constraint_type = constraint;
      header_page_id = header;
      index_type = type;
    }
