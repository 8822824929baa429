-- ===== src/Table/Tuple/ReadBack.antt =====
-- The values that a tuple is made of are read back from it (Tuple).
use gavin_db.Prelude.{
  ℕ, zero, suc, ◌+◌, ◌^◌, ◌<◌, ◌≤◌, ◌≡◌, refl, ap, sym, ◌∙◌, ==_iff, ltb, lt→ltb, List, length,
  length-replicate, replicate, get_elem?, Option, none, some, ok, err, assertion,
  undefined_behaviour, guard, ◌>>=◌, ◌>>◌, ok-injective, arith,
}
use mathlib.Core.Path.{subst}
use mathlib.Core.Option.{some-injective}
use gavin_db.Serializer.Reader.{le_bytes}
use gavin_db.Serializer.RoundTrip.{Every}
use gavin_db.Meta.Values.{int32, uint64, string, Value, some_value, serialize_to, page_size}
use gavin_db.Meta.TupleValues.{TupleFits, tuple_integer, tuple_timestamp, tuple_varchar}
use gavin_db.Meta.Columns.{Column, Schema, inline_size, schema_of}
use gavin_db.Meta.Layout.{Apart, total_size, schema_of-Apart}
use gavin_db.Table.Tuple.{Tuple, add_sizes, write_columns, make_tuple, get_value, get_value_at}
use gavin_db.Table.Tuple.Sizes.{
  Suits, suits_integer, suits_timestamp, suits_varchar, AllSuit, none_left, one_suits, extras,
  varchar_inlined, integer_inlined, timestamp_inlined, uninlined_from, lay_out-uninlined,
  add_sizes-AllSuit,
}
use gavin_db.Table.Tuple.Written.{value_bytes, HoldsAt, size_inlined}
use gavin_db.Table.Tuple.Loop.{AllHold, write_columns-AllHold}
use gavin_db.Table.Tuple.Access.{
  deserialize_from-Holds, get_value_inlined, get_value_pointed, Holds-inside, length-value_bytes,
}

-- A value that suits its column and stands in the tuple is what `GetValue` returns.
get_value-Suits :
    (t : Tuple) (c : Column) (v : Value) (offset inline : ℕ)
    → Suits c v
    → offset < 2 ^ 32
    → c.storage_offset + inline_size c ≤ inline
    → inline ≤ length t
    → HoldsAt c v.value offset t
    → get_value t c ≡ ok v
unfolding HoldsAt serialize_to
get_value-Suits t _ _ offset inline (suits_integer c n ty len h) small inside long holds =
    let inlined = integer_inlined c ty in
    get_value_inlined t c (int32 n) inlined (omega (arith, size_inlined c inlined, len)) (
      deserialize_from-Holds t c.storage_offset c.column_type (int32 n) (le_bytes 4 n)
        (subst (λ type. TupleFits type (int32 n)) (sym ty) (tuple_integer n h))
        (ap (λ type. serialize_to type (int32 n)) ty) holds)
    ∙ ap (λ type. ok (some_value type (int32 n))) ty
get_value-Suits t _ _ offset inline (suits_timestamp c n ty len h) small inside long holds =
    let inlined = timestamp_inlined c ty in
    get_value_inlined t c (uint64 n) inlined (omega (arith, size_inlined c inlined, len)) (
      deserialize_from-Holds t c.storage_offset c.column_type (uint64 n) (le_bytes 8 n)
        (subst (λ type. TupleFits type (uint64 n)) (sym ty) (tuple_timestamp n h))
        (ap (λ type. serialize_to type (uint64 n)) ty) holds)
    ∙ ap (λ type. ok (some_value type (uint64 n))) ty
get_value-Suits t _ _ offset inline (suits_varchar c s ty fits short) small inside long
      (pointer, bytes) =
    get_value_pointed t c (string s) offset (varchar_inlined c ty) small
      (let n = length-value_bytes s in
        omega (arith, Holds-inside t offset (value_bytes (string s)) bytes (omega arith)))
      pointer
      (deserialize_from-Holds t offset c.column_type (string s) (value_bytes (string s))
        (subst (λ type. TupleFits type (string s)) (sym ty) (tuple_varchar s short))
        (ap (λ type. serialize_to type (string s)) ty) bytes)
    ∙ ap (λ type. ok (some_value type (string s))) ty

AllHold-get_value :
    (t : Tuple) (inline : ℕ) (cols : List Column) (values : List Value) (i : ℕ) (v : Value)
    → AllSuit cols values
    → AllHold cols values t
    → Apart cols inline
    → inline ≤ length t
    → get_elem? values i ≡ some v
    → (c : Column) × (get_elem? cols i ≡ some c) × (get_value t c ≡ ok v)
unfolding AllHold Apart
AllHold-get_value t inline _ _ i v none_left holds apart long found = cc
AllHold-get_value t inline _ _ zero v (one_suits c w cols values suits suit)
      ((offset, small, stands), _) (_, inside, _) long found =
    (
      c,
      refl,
      get_value-Suits t c w offset inline suits small inside long stands
          ∙ ap ok (some-injective w v found),
    )
AllHold-get_value t inline _ _ (suc i) v (one_suits c w cols values suits suit) (_, holds)
      (_, _, apart) long found =
    AllHold-get_value t inline cols values i v suit holds apart long found

length-AllSuit :
    (cols : List Column) (values : List Value) → AllSuit cols values → length values ≡ length cols
length-AllSuit _ _ none_left = refl
length-AllSuit _ _ (one_suits c v cols values suits suit) = ap suc (length-AllSuit cols values suit)

-- The constructor, step by step.
make_tuple-AllHold :
    (schema : Schema) (values : List Value)
    → 0 < schema.tuple_inline_part_storage_size
    → schema.tuple_inline_part_storage_size < page_size
    → schema.uninlined_columns ≡ uninlined_from 0 schema.columns
    → Apart schema.columns schema.tuple_inline_part_storage_size
    → AllSuit schema.columns values
    → schema.tuple_inline_part_storage_size + extras values < 2 ^ 32
    → (t : Tuple) × (make_tuple values schema ≡ ok t)
      × (length t ≡ schema.tuple_inline_part_storage_size + extras values)
      × AllHold schema.columns values t
unfolding make_tuple
make_tuple-AllHold schema values positive page uninlined apart suit small =
    let inline = schema.tuple_inline_part_storage_size in
    let size = inline + extras values in
    let zeros : (length (replicate size 0) ≡ size) = length-replicate size 0 in
    let (t, returned, same, _, holds) =
      write_columns-AllHold inline schema.columns values inline (replicate size 0) suit apart
        (omega arith) (omega (arith, zeros)) (omega (arith, zeros)) in
    let fill = λ (n : ℕ).
      write_columns schema.columns values (inline, replicate n 0) >>= λ (_, storage). ok storage in
    (
      t,
      ap
            (λ b.
              guard b assertion
              >> guard (ltb 0 inline) assertion
              >> guard (ltb inline page_size) assertion
              >> (add_sizes values schema schema.uninlined_columns inline >>= fill))
            ((==_iff (length values) (length schema.columns)).1
              (length-AllSuit schema.columns values suit))
          ∙ ap
              (λ b.
                guard b assertion
                >> guard (ltb inline page_size) assertion
                >> (add_sizes values schema schema.uninlined_columns inline >>= fill))
              (lt→ltb 0 inline positive)
          ∙ ap
              (λ b.
                guard b assertion
                >> (add_sizes values schema schema.uninlined_columns inline >>= fill))
              (lt→ltb inline page_size page)
          ∙ ap (λ l. add_sizes values schema l inline >>= fill) uninlined
          ∙ ap (λ r. r >>= fill)
              (add_sizes-AllSuit schema.columns values 0 inline values schema suit
                (λ k. ap (get_elem? values) (omega arith))
                (λ k. ap (get_elem? schema.columns) (omega arith)) small)
          ∙ ap (λ r. r >>= λ (_, storage). ok storage) returned,
      same ∙ zeros,
      holds,
    )

-- What is known of a schema that is made.
abbrev LaidOut : List Column → Schema → Type 0
LaidOut columns schema =
    (schema.tuple_inline_part_storage_size ≡ total_size columns)
    × Apart schema.columns schema.tuple_inline_part_storage_size
    × (schema.uninlined_columns ≡ uninlined_from 0 schema.columns)

schema_of-LaidOut :
    (columns : List Column) (schema : Schema)
    → schema_of columns ≡ ok schema
    → Every (λ (c : Column). 0 < c.column_length) columns
    → total_size columns < page_size
    → LaidOut columns schema
unfolding schema_of
schema_of-LaidOut columns schema made lengths page =
    let (laid, made', _, size, apart) = schema_of-Apart columns lengths (omega arith) in
    subst (LaidOut columns) (ok-injective (sym made' ∙ made))
      (size, apart, lay_out-uninlined columns 0 0 laid made')

-- A tuple is made of values that suit the columns of their schema, where the schema is that of columns that have
-- a length and take less than a page together, but not nothing, and the tuple is shorter than 2 ^ 32 bytes; every one of the
-- values is read back from the tuple at its place.
pub get_value_at-make_tuple :
    (columns : List Column) (schema : Schema) (values : List Value) (i : ℕ) (v : Value)
    → schema_of columns ≡ ok schema
    → Every (λ (c : Column). 0 < c.column_length) columns
    → 0 < total_size columns
    → total_size columns < page_size
    → AllSuit schema.columns values
    → total_size columns + extras values < 2 ^ 32
    → get_elem? values i ≡ some v
    → (t : Tuple) × (make_tuple values schema ≡ ok t) × (get_value_at t schema i ≡ ok v)
unfolding get_value_at
get_value_at-make_tuple columns schema values i v made lengths positive page suit small found =
    let (size, apart, uninlined) = schema_of-LaidOut columns schema made lengths page in
    let (t, returned, long, holds) =
      make_tuple-AllHold schema values (omega (arith, size)) (omega (arith, size)) uninlined apart
        suit (omega (arith, size)) in
    let (c, at_c, read) =
      AllHold-get_value t schema.tuple_inline_part_storage_size schema.columns values i v suit holds
        apart (omega (arith, long)) found in
    (
      t,
      returned,
      ap
            (λ (o : Option Column).
              (elim o [ none ↦ err undefined_behaviour | some x ↦ ok x ]) >>= λ col.
              get_value t col)
            at_c
          ∙ read,
    )
