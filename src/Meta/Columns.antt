-- ===== src/Meta/Columns.antt =====
-- src/include/meta/column.hpp and src/include/meta/schema.hpp, src/meta/schema.cpp
use gavin_db.Prelude.{
  ℕ, suc, ◌+◌, ◌%◌, ◌^◌, Bool, false, List, [], ◌∷◌, length, Result, ok, assertion, ltb, not, guard,
  ◌>>=◌, ◌>>◌, if◌then◌else◌,
}
use gavin_db.Meta.Types.{TypeId, type_size, is_varchar}

pub record Column : Type 0 where
  pub column_name : List ℕ
  pub column_type : TypeId
  pub column_length : ℕ
  pub storage_offset : ℕ
  pub schema_offset : ℕ
  pub is_auto_increment : Bool

-- `Column(name, type)`, for the types of fixed length.
unfoldable pub fixed_column : List ℕ → TypeId → Result Column
unfolding type_size is_varchar
fixed_column name type = type_size type 0 >>= λ size.
    guard (not (is_varchar type)) assertion
    >> guard (ltb 0 size) assertion
    >> ok record {
      column_name = name;
      column_type = type;
      column_length = size;
      storage_offset = 0;
      schema_offset = 0;
      is_auto_increment = false;
    }

-- `Column(name, type, length)`, for the type of variable length.
unfoldable pub varlen_column : List ℕ → TypeId → ℕ → Result Column
unfolding type_size is_varchar
varlen_column name type length = type_size type length >>= λ size.
    guard (is_varchar type) assertion
    >> guard (ltb 0 size) assertion
    >> ok record {
      column_name = name;
      column_type = type;
      column_length = size;
      storage_offset = 0;
      schema_offset = 0;
      is_auto_increment = false;
    }

unfoldable pub is_inlined : Column → Bool
unfolding is_varchar
is_inlined column = not (is_varchar column.column_type)

pub record Schema : Type 0 where
  pub columns : List Column
  pub uninlined_columns : List ℕ
  pub tuple_inline_part_storage_size : ℕ

-- How many bytes of the tuple's first part the column takes.
unfoldable pub inline_size : Column → ℕ
unfolding is_inlined
inline_size column = if is_inlined column then column.column_length else 4

-- The loop of `Schema(columns)`: the next offset, the next index, and the columns that are left.
unfoldable pub lay_out : ℕ → ℕ → List Column → Result Schema
unfolding inline_size is_inlined
lay_out offset index [] =
    ok record { columns = []; uninlined_columns = []; tuple_inline_part_storage_size = offset }
lay_out offset index (column ∷ rest) =
    guard (ltb 0 column.column_length) assertion
    >> (lay_out ((offset + inline_size column) % 2 ^ 32) (suc index) rest >>= λ laid.
        ok record laid {
          columns = record column { storage_offset = offset; schema_offset = index } ∷ laid.columns;
          uninlined_columns =
              if is_inlined column
              then laid.uninlined_columns
              else (index ∷ laid.uninlined_columns);
        })

unfoldable pub schema_of : List Column → Result Schema
unfolding lay_out
schema_of columns = lay_out 0 0 columns
