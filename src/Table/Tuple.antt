-- ===== src/Table/Tuple.antt =====
-- Tuple (src/storage/table/tuple.cpp): a tuple is the list of its bytes. Its place in the table is not part of it.
pub mod Overwrite
pub mod Sizes
pub mod Written
pub mod Access
pub mod Loop
pub mod ReadBack
use gavin_db.Prelude.{
  ℕ, zero, suc, ◌+◌, ◌%◌, ◌^◌, ◌==◌, true, false, ltb, leb, List, [], ◌∷◌, ◌++◌, length, replicate,
  get_elem?, none, some, Result, ok, err, exception, assertion, undefined_behaviour, guard, ◌>>=◌,
  ◌>>◌,
}
use gavin_db.Serializer.Reader.{le_bytes, le_number}
use gavin_db.Meta.Values.{
  Value, serialize_to, deserialize_from, storage_size, bytes_at, skip, page_size, to_string,
}
use gavin_db.Meta.Columns.{Column, Schema, is_inlined}

abbrev pub Tuple : Type 0
Tuple = List ℕ

-- `operator[]` of a vector
abbrev pub element : {A : Type 0} → List A → ℕ → Result A
element xs i = elim (get_elem? xs i) [ none ↦ err undefined_behaviour | some x ↦ ok x ]

-- The bytes with some others in their place from an offset on.
unfoldable pub overwrite : Tuple → ℕ → List ℕ → Tuple
overwrite [] offset bytes = []
overwrite (x ∷ storage) zero [] = x ∷ storage
overwrite (x ∷ storage) zero (b ∷ bytes) = b ∷ overwrite storage zero bytes
overwrite (x ∷ storage) (suc offset) bytes = x ∷ overwrite storage offset bytes

unfoldable pub write_at : Tuple → ℕ → List ℕ → Result Tuple
unfolding overwrite
write_at storage offset bytes =
    guard (leb (offset + length bytes) (length storage)) undefined_behaviour
    >> ok (overwrite storage offset bytes)

-- The loop over the columns that are not inlined, which adds up the size of the tuple.
unfoldable pub add_sizes : List Value → Schema → List ℕ → ℕ → Result ℕ
unfolding storage_size
add_sizes values schema [] size = ok size
add_sizes values schema (i ∷ uninlined) size = element values i >>= λ value.
    storage_size value >>= λ len. element schema.columns i >>= λ col.
    guard (leb (len % 2 ^ 32) col.column_length) exception
    >> add_sizes values schema uninlined ((size + (4 + len)) % 2 ^ 32)

-- A step of the loop over the columns: the column, its value, the offset of the next value that is not
-- inlined, and the bytes so far.
unfoldable pub write_column : Column → Value → ℕ × Tuple → Result (ℕ × Tuple)
unfolding is_inlined write_at serialize_to storage_size le_bytes
write_column col value (offset, storage) = elim (is_inlined col) [
  | true ↦ serialize_to value.type_id value.value >>= λ bytes.
      write_at storage col.storage_offset bytes >>= λ written. ok (offset, written)
  | false ↦ write_at storage col.storage_offset (le_bytes 4 offset) >>= λ pointed.
      serialize_to value.type_id value.value >>= λ bytes.
      write_at pointed offset bytes >>= λ written.
      storage_size value >>= λ len. ok ((offset + (len + 4)) % 2 ^ 32, written)
]

unfoldable pub write_columns : List Column → List Value → ℕ × Tuple → Result (ℕ × Tuple)
unfolding write_column
write_columns [] _ state = ok state
write_columns (col ∷ cols) [] state = err undefined_behaviour
write_columns (col ∷ cols) (value ∷ values) state =
    write_column col value state >>= λ next. write_columns cols values next

-- `Tuple(values, schema)`
unfoldable pub make_tuple : List Value → Schema → Result Tuple
unfolding add_sizes write_columns
make_tuple values schema =
    let inline = schema.tuple_inline_part_storage_size in
    guard (length values == length schema.columns) assertion
    >> guard (ltb 0 inline) assertion
    >> guard (ltb inline page_size) assertion
    >> (add_sizes values schema schema.uninlined_columns inline >>= λ size.
        write_columns schema.columns values (inline, replicate size 0) >>= λ (_, storage).
        ok storage)

-- The bytes from an offset on. A tuple is shorter than 2 ^ 31 bytes, so that what would be read as a negative offset is
-- outside it.
unfoldable pub skip_to : ℕ → Tuple → Result (List ℕ)
unfolding skip
skip_to offset storage =
    guard (leb offset (length storage)) undefined_behaviour >> ok (skip offset storage)

-- `GetDataPtr`: the bytes from a column's value on.
unfoldable pub get_data_ptr : Tuple → Column → Result (List ℕ)
unfolding is_inlined skip bytes_at le_number skip_to
get_data_ptr storage col = elim (is_inlined col) [
  | true ↦
      guard (ltb col.storage_offset (length storage)) assertion
      >> ok (skip col.storage_offset storage)
  | false ↦
      guard (leb (col.storage_offset + 4) (length storage)) undefined_behaviour
      >> skip_to (le_number (bytes_at 4 (skip col.storage_offset storage))) storage
]

-- `GetValue(column)`
unfoldable pub get_value : Tuple → Column → Result Value
unfolding get_data_ptr deserialize_from
get_value storage col = get_data_ptr storage col >>= λ bytes. deserialize_from bytes col.column_type

-- `GetValue(schema, column_idx)`
unfoldable pub get_value_at : Tuple → Schema → ℕ → Result Value
unfolding get_value
get_value_at storage schema column_idx =
    element schema.columns column_idx >>= λ col. get_value storage col

-- The loop of `ToString` over the columns.
unfoldable pub print_columns : Tuple → List Column → Result (Unit {0})
unfolding get_value to_string
print_columns storage [] = ok tt
print_columns storage (col ∷ cols) =
    get_value storage col >>= λ val. to_string val >> print_columns storage cols

-- What `ToString(schema)` ends in.
unfoldable pub print_tuple : Tuple → Schema → Result (Unit {0})
unfolding print_columns
print_tuple storage schema = print_columns storage schema.columns
