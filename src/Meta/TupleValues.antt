-- ===== src/Meta/TupleValues.antt =====
-- A value can be read back from the bytes of a tuple: `SerializeTo` and `DeserializeFrom` of
-- value.cpp and value.hpp (Values).
use gavin_db.Prelude.{
  ℕ, suc, ◌%◌, ◌^◌, ◌<◌, ◌≡◌, refl, ap, ◌∙◌, List, [], ◌∷◌, ◌++◌, length, arith, Result, ok, lt→ltb,
  leb, le→leb, length-append, guard, ◌>>◌, undefined_behaviour,
}
use gavin_db.Serializer.Reader.{le_bytes, le_number, le_number-le_bytes}
use gavin_db.Meta.Types.{TypeId, integer, timestamp, varchar}
use gavin_db.Meta.Values.{
  Val, int32, uint64, string, Value, some_value, serialize_to, deserialize_from, bytes_at, skip,
  read_varchar, page_size, make_value, value_is_correct_type,
}

-- The values that a tuple can keep: a TIMESTAMP in four bytes, a VARCHAR shorter than a page.
pub data TupleFits : TypeId → Val → Type 0 where
  tuple_integer : (n : ℕ) → n < 2 ^ 32 → TupleFits integer (int32 n)
  tuple_timestamp : (n : ℕ) → n < 2 ^ 32 → TupleFits timestamp (uint64 n)
  tuple_varchar : (s : List ℕ) → length s < page_size → TupleFits varchar (string s)

pub bytes_at-append : (xs rest : List ℕ) → bytes_at (length xs) (xs ++ rest) ≡ xs
unfolding bytes_at
bytes_at-append [] rest = refl
bytes_at-append (x ∷ xs) rest = ap (λ l. x ∷ l) (bytes_at-append xs rest)

-- The number that four bytes of the tuple make.
low_bytes : (n : ℕ) → le_number (le_bytes 4 n) ≡ n % 2 ^ 32
unfolding le_number le_bytes
low_bytes n = omega arith

-- Four bytes are there to be read.
four_inside :
    (n : ℕ) (r : Result Value)
    → (guard (leb 4 (suc (suc (suc (suc n))))) undefined_behaviour >> r) ≡ r
four_inside n r =
    ap (λ b. guard b undefined_behaviour >> r) (le→leb 4 (suc (suc (suc (suc n)))) (omega arith))

-- A TIMESTAMP is read back modulo 2 ^ 32.
pub deserialize_from-timestamp :
    (n : ℕ) (rest : List ℕ)
    → deserialize_from (le_bytes 8 n ++ rest) timestamp
      ≡ ok (some_value timestamp (uint64 (n % 2 ^ 32)))
unfolding deserialize_from make_value value_is_correct_type bytes_at le_bytes
deserialize_from-timestamp n rest =
    four_inside _ _ ∙ ap (λ v. ok (some_value timestamp (uint64 v))) (low_bytes n)

string_read :
    (s rest : List ℕ) (len : ℕ)
    → len ≡ length s
    → length s < page_size
    → read_varchar len (s ++ rest) ≡ ok (some_value varchar (string s))
unfolding read_varchar make_value value_is_correct_type
string_read s rest len e h =
    let short = lt→ltb len page_size (omega arith) in
    let inside = le→leb len (length (s ++ rest)) (omega (arith, length-append s rest)) in
    rw (short, inside)
      (ap (λ l. ok (some_value varchar (string l)))
        (ap (λ n. bytes_at n (s ++ rest)) e ∙ bytes_at-append s rest))

length_number :
    (s : List ℕ) → length s < page_size → le_number (le_bytes 4 (length s % 2 ^ 32)) ≡ length s
length_number s h = le_number-le_bytes 4 (length s % 2 ^ 32) (omega arith) ∙ omega arith

-- A value that a tuple can keep is written as bytes from which, whatever follows them, the same
-- value is read under its type: an INTEGER, a TIMESTAMP below 2 ^ 32, a VARCHAR shorter than a page.
pub deserialize_from-serialize_to :
    (type : TypeId) (v : Val) (rest : List ℕ)
    → TupleFits type v
    → (bytes : List ℕ) × (serialize_to type v ≡ ok bytes)
      × (deserialize_from (bytes ++ rest) type ≡ ok (some_value type v))
unfolding serialize_to deserialize_from make_value value_is_correct_type bytes_at skip le_bytes
deserialize_from-serialize_to _ _ rest (tuple_integer n h) = (
  le_bytes 4 n,
  refl,
  four_inside _ _
      ∙ ap (λ m. ok (some_value integer (int32 m))) (le_number-le_bytes 4 n (omega arith)),
)
deserialize_from-serialize_to _ _ rest (tuple_timestamp n h) = (
  le_bytes 8 n,
  refl,
  four_inside _ _
      ∙ ap (λ m. ok (some_value timestamp (uint64 m))) (le_number-le_bytes 4 n (omega arith)),
)
deserialize_from-serialize_to _ _ rest (tuple_varchar s h) = (
  le_bytes 4 (length s % 2 ^ 32) ++ s,
  refl,
  four_inside _ _ ∙ string_read s rest _ (length_number s h) h,
)
