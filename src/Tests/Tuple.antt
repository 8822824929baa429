-- ===== src/Tests/Tuple.antt =====
-- A row of a number and a string, as a tuple.
use gavin_db.Prelude.{ℕ, ◌≡◌, refl, List, [], ◌∷◌, ok, arith}
use gavin_db.Serializer.RoundTrip.{Every}
use gavin_db.Serializer.Reader.{le_bytes}
use gavin_db.Meta.Types.{integer, varchar, is_varchar, type_size}
use gavin_db.Meta.Values.{Value, int32, string, some_value, storage_size, serialize_to}
use gavin_db.Meta.Columns.{Column, Schema, schema_of, lay_out, inline_size, is_inlined}
use gavin_db.Meta.Layout.{total_size}
use gavin_db.Meta.Stored.{stored_column}
use gavin_db.Table.Tuple.{
  Tuple, make_tuple, add_sizes, write_columns, write_column, write_at, overwrite, get_value_at,
}
use gavin_db.Table.Tuple.Sizes.{AllSuit, none_left, one_suits, suits_integer, suits_varchar, extras}
use gavin_db.Table.Tuple.ReadBack.{get_value_at-make_tuple}

abbrev id_column : Column
id_column = stored_column (105 ∷ []) integer 4 0

abbrev text_column : Column
text_column = stored_column (115 ∷ []) varchar 20 0

abbrev text_placed : Column
text_placed = record text_column { storage_offset = 4; schema_offset = 1 }

abbrev columns : List Column
columns = id_column ∷ text_column ∷ []

abbrev schema : Schema
schema = record {
  columns = id_column ∷ text_placed ∷ [];
  uninlined_columns = 1 ∷ [];
  tuple_inline_part_storage_size = 8;
}

abbrev ab : Value
ab = some_value varchar (string (97 ∷ 98 ∷ []))

abbrev row : List Value
row = some_value integer (int32 7) ∷ ab ∷ []

row-AllSuit : AllSuit schema.columns row
row-AllSuit =
    one_suits id_column (some_value integer (int32 7)) (text_placed ∷ []) (ab ∷ [])
      (suits_integer id_column 7 refl refl (omega arith))
      (one_suits text_placed ab [] []
        (suits_varchar text_placed (97 ∷ 98 ∷ []) refl (omega arith) (omega arith)) none_left)

get_value_at-make_tuple_example :
    (t : Tuple) × (make_tuple row schema ≡ ok t) × (get_value_at t schema 1 ≡ ok ab)
unfolding Every total_size inline_size is_inlined is_varchar schema_of lay_out extras
get_value_at-make_tuple_example =
    get_value_at-make_tuple columns schema row 1 ab refl (omega arith, (omega arith, tt))
      (omega arith) (omega arith) row-AllSuit (omega arith) refl

abbrev row_bytes : List ℕ
row_bytes = 7 ∷ 0 ∷ 0 ∷ 0 ∷ 8 ∷ 0 ∷ 0 ∷ 0 ∷ 2 ∷ 0 ∷ 0 ∷ 0 ∷ 97 ∷ 98 ∷ []

make_tuple_runs : make_tuple row schema ≡ ok row_bytes
unfolding make_tuple add_sizes write_columns write_column write_at overwrite storage_size type_size
    serialize_to is_inlined is_varchar le_bytes
make_tuple_runs = refl
