-- ===== src/Meta/RoundTrip.antt =====
-- The parts of the catalog can be read back as they are stored (Stored).
use gavin_db.Prelude.{ℕ, ◌^◌, ◌<◌, ◌≡◌, refl, ap, List, [], ◌∷◌, length, arith, false, map}
use mathlib.Core.Path.{subst}
use gavin_db.Serializer.Reader.{read_primitive}
use gavin_db.Serializer.Format.{
  write_number, write_string, write_property, read_property, read_string, write_object, read_object,
  write_vector, read_vector, terminator,
}
use gavin_db.Serializer.RoundTrip.{
  Kept, Kept-next, Kept-last, Kept-number, Kept-string, Kept-property, Kept-object, Kept-vector,
  Every,
}
use gavin_db.Meta.Types.{read_type, IsNamed, Kept-type}
use gavin_db.Meta.Columns.{Column, Schema}
use gavin_db.Meta.Stored.{
  serialize_column, deserialize_column, serialize_schema, deserialize_schema, TableMeta,
  serialize_table, deserialize_table, IndexMeta, serialize_index, deserialize_index,
}

-- A column whose members fit the fields that they are stored in.
unfoldable pub FitsColumn : Column → Type 0
FitsColumn column =
    length column.column_name < 256 ^ 4
    × IsNamed column.column_type
    × column.column_length < 256 ^ 4
    × column.storage_offset < 256 ^ 4

-- What comes back of a column: its place in the schema is not stored.
unfoldable pub restored_column : Column → Column
restored_column column = record column { schema_offset = 0; is_auto_increment = false }

abbrev field_number :
    (field v : ℕ)
    → v < 256 ^ 4
    → field < terminator
    → Kept (write_property field (write_number 4 v)) (read_property field (read_primitive 4)) v
field_number field v h k = Kept-property field (read_primitive 4) k (Kept-number 4 v h)

abbrev field_string :
    (field : ℕ) (s : List ℕ)
    → length s < 256 ^ 4
    → field < terminator
    → Kept (write_property field (write_string s)) (read_property field read_string) s
field_string field s h k = Kept-property field read_string k (Kept-string s h)

pub Kept-column :
    (column : Column)
    → FitsColumn column
    → Kept (serialize_column column) deserialize_column (restored_column column)
unfolding FitsColumn serialize_column deserialize_column restored_column
Kept-column column (name, type, size, offset) =
    Kept-next _ _ (field_string 100 column.column_name name (omega arith)) (
      Kept-next _ _ (Kept-property 101 read_type (omega arith) (Kept-type column.column_type type))
        (Kept-next _ _ (field_number 102 column.column_length size (omega arith))
          (Kept-last _ _ (field_number 103 column.storage_offset offset (omega arith)))))

abbrev same : ℕ → ℕ
same n = n

-- The indices of a list of `column_t` that fit.
Kept-numbers :
    (ns : List ℕ)
    → Every (λ n. n < 256 ^ 4) ns
    → Every (λ n. Kept (write_number 4 n) (read_primitive 4) (same n)) ns
unfolding Every
Kept-numbers [] h = tt
Kept-numbers (n ∷ ns) (h, hs) = (Kept-number 4 n h, Kept-numbers ns hs)

map-same : (ns : List ℕ) → map same ns ≡ ns
map-same [] = refl
map-same (n ∷ ns) = ap (λ l. n ∷ l) (map-same ns)

Kept-columns :
    (columns : List Column)
    → Every FitsColumn columns
    → Every
        (λ c.
          Kept
            (write_object (serialize_column c))
            (read_object deserialize_column)
            (restored_column c))
        columns
unfolding Every
Kept-columns [] h = tt
Kept-columns (c ∷ columns) (h, hs) =
    (Kept-object deserialize_column (Kept-column c h), Kept-columns columns hs)

unfoldable pub FitsSchema : Schema → Type 0
FitsSchema schema =
    length schema.columns < 256 ^ 8
    × Every FitsColumn schema.columns
    × length schema.uninlined_columns < 256 ^ 8
    × Every (λ n. n < 256 ^ 4) schema.uninlined_columns
    × schema.tuple_inline_part_storage_size < 256 ^ 4

unfoldable pub restored_schema : Schema → Schema
restored_schema schema = record schema { columns = map restored_column schema.columns }

pub Kept-schema :
    (schema : Schema)
    → FitsSchema schema
    → Kept (serialize_schema schema) deserialize_schema (restored_schema schema)
unfolding FitsSchema serialize_schema deserialize_schema restored_schema
Kept-schema schema (few, columns, some_few, indices, size) =
    Kept-next _ _
      (Kept-property 100 (read_vector (read_object deserialize_column)) (omega arith) (
        Kept-vector (λ c. write_object (serialize_column c)) (read_object deserialize_column)
          restored_column schema.columns few (Kept-columns schema.columns columns)))
      (Kept-next _ _
        (Kept-property 101 (read_vector (read_primitive 4)) (omega arith) (
          subst
            (λ l.
              Kept (write_vector (write_number 4) schema.uninlined_columns)
                (read_vector (read_primitive 4)) l)
            (map-same schema.uninlined_columns)
            (Kept-vector (write_number 4) (read_primitive 4) same schema.uninlined_columns some_few
              (Kept-numbers schema.uninlined_columns indices))))
        (Kept-last _ _ (field_number 102 schema.tuple_inline_part_storage_size size (omega arith))))

unfoldable pub FitsTable : TableMeta → Type 0
FitsTable meta =
    length meta.name < 256 ^ 4
    × meta.table_oid < 256 ^ 4
    × FitsSchema meta.schema
    × meta.last_table_data_page_id < 256 ^ 4
    × meta.last_table_heap_data_page_id < 256 ^ 4
    × meta.tuple_count < 256 ^ 8

unfoldable pub restored_table : TableMeta → TableMeta
restored_table meta = record meta { schema = restored_schema meta.schema }

-- The metadata of a table that fits its fields is stored, and what is read back of it is the same
-- but for the place in the schema and the auto-increment mark of each column, which are not stored.
pub Kept-table :
    (meta : TableMeta)
    → FitsTable meta
    → Kept (serialize_table meta) deserialize_table (restored_table meta)
unfolding FitsTable serialize_table deserialize_table restored_table
Kept-table meta (name, oid, schema, page, heap_page, count) =
    Kept-next _ _ (field_string 100 meta.name name (omega arith)) (
      Kept-next _ _ (field_number 101 meta.table_oid oid (omega arith)) (
        Kept-next _ _
          (Kept-property 102 (read_object deserialize_schema) (omega arith)
            (Kept-object deserialize_schema (Kept-schema meta.schema schema)))
          (Kept-next _ _ (field_number 103 meta.last_table_data_page_id page (omega arith)) (
            Kept-next _ _
              (field_number 104 meta.last_table_heap_data_page_id heap_page (omega arith))
              (Kept-last _ _ (
                Kept-property 105 (read_primitive 8) (omega arith)
                  (Kept-number 8 meta.tuple_count count)))))))

unfoldable pub FitsIndex : IndexMeta → Type 0
FitsIndex meta =
    length meta.index_name < 256 ^ 4
    × meta.table_id < 256 ^ 4
    × FitsColumn meta.key_col
    × meta.index_id < 256 ^ 4
    × meta.index_constraint_type < 256
    × meta.header_page_id < 256 ^ 4
    × meta.index_type < 256 ^ 4

unfoldable pub restored_index : IndexMeta → IndexMeta
restored_index meta = record meta { key_col = restored_column meta.key_col }

-- The metadata of an index that fits its fields is stored, and what is read back of it is the same
-- but for the place in the schema and the auto-increment mark of its column, which are not stored.
pub Kept-index :
    (meta : IndexMeta)
    → FitsIndex meta
    → Kept (serialize_index meta) deserialize_index (restored_index meta)
unfolding FitsIndex serialize_index deserialize_index restored_index
Kept-index meta (name, table, column, index, constraint, header, type) =
    Kept-next _ _ (field_string 100 meta.index_name name (omega arith)) (
      Kept-next _ _ (field_number 101 meta.table_id table (omega arith)) (
        Kept-next _ _
          (Kept-property 102 (read_object deserialize_column) (omega arith)
            (Kept-object deserialize_column (Kept-column meta.key_col column)))
          (Kept-next _ _ (field_number 103 meta.index_id index (omega arith)) (
            Kept-next _ _
              (Kept-property 104 (read_primitive 1) (omega arith)
                (Kept-number 1 meta.index_constraint_type (omega arith)))
              (Kept-next _ _ (field_number 105 meta.header_page_id header (omega arith))
                (Kept-last _ _ (field_number 106 meta.index_type type (omega arith))))))))
