-- ===== src/Table/Tuple/Access.antt =====
-- Where `GetValue` finds the bytes of a column (Tuple).
use gavin_db.Prelude.{
  ℕ, zero, suc, ◌+◌, ◌^◌, ◌<◌, ◌≤◌, ◌≡◌, refl, ap, sym, ◌∙◌, lt→ltb, le→leb, length-append, [], ◌∷◌,
  true, false, List, ◌++◌, length, ok, undefined_behaviour, guard, ◌>>=◌, ◌>>◌, ok-injective, arith,
}
use gavin_db.Serializer.Reader.{le_bytes, le_number, le_number-le_bytes, length-le_bytes}
use gavin_db.Meta.Types.{TypeId}
use gavin_db.Meta.Values.{Val, string, some_value, serialize_to, deserialize_from, bytes_at, skip}
use gavin_db.Meta.TupleValues.{TupleFits, deserialize_from-serialize_to, bytes_at-append}
use gavin_db.Meta.Columns.{Column, is_inlined}
use gavin_db.Table.Tuple.{Tuple, get_data_ptr, skip_to, get_value}
use gavin_db.Table.Tuple.Overwrite.{Begins, Begins-rest, Holds}
use gavin_db.Table.Tuple.Written.{value_bytes}

-- From where the bytes of a value stand, it is read.
pub deserialize_from-Holds :
    (t : Tuple) (p : ℕ) (type : TypeId) (v : Val) (bytes : List ℕ)
    → TupleFits type v
    → serialize_to type v ≡ ok bytes
    → Holds t p bytes
    → deserialize_from (skip p t) type ≡ ok (some_value type v)
unfolding Holds
deserialize_from-Holds t p type v bytes fits made h =
    let (rest, stands) = Begins-rest bytes (skip p t) h in
    let (bytes', made', read) = deserialize_from-serialize_to type v rest fits in
    ap (λ l. deserialize_from l type)
      (stands ∙ ap (λ bs. bs ++ rest) (ok-injective (sym made ∙ made')))
    ∙ read

-- What is held stands inside the tuple.
pub Holds-inside :
    (t : Tuple) (p : ℕ) (xs : List ℕ) → Holds t p xs → 0 < length xs → p + length xs ≤ length t
unfolding Holds skip Begins
Holds-inside t p [] h some_bytes = absurd (omega arith)
Holds-inside t zero (x ∷ xs) h some_bytes =
    let (rest, stands) = Begins-rest (x ∷ xs) t h in
    omega (arith, ap length stands, length-append (x ∷ xs) rest)
Holds-inside [] (suc p) (x ∷ xs) h some_bytes = absurd h
Holds-inside (b ∷ t) (suc p) (x ∷ xs) h some_bytes =
    omega (arith, Holds-inside t p (x ∷ xs) h some_bytes)

found_inlined :
    (t : Tuple) (c : Column)
    → is_inlined c ≡ true
    → c.storage_offset < length t
    → get_data_ptr t c ≡ ok (skip c.storage_offset t)
unfolding get_data_ptr
found_inlined t c inlined within =
    rw (inlined, lt→ltb c.storage_offset (length t) within, get_data_ptr) refl

pub get_value_inlined :
    (t : Tuple) (c : Column) (v : Val)
    → is_inlined c ≡ true
    → c.storage_offset < length t
    → deserialize_from (skip c.storage_offset t) c.column_type ≡ ok (some_value c.column_type v)
    → get_value t c ≡ ok (some_value c.column_type v)
unfolding get_value
get_value_inlined t c v inlined within read =
    ap (λ r. r >>= λ bytes. deserialize_from bytes c.column_type) (found_inlined t c inlined within)
    ∙ read

pointer_read :
    (t : Tuple) (p offset : ℕ)
    → offset < 2 ^ 32
    → Holds t p (le_bytes 4 offset)
    → le_number (bytes_at 4 (skip p t)) ≡ offset
unfolding Holds
pointer_read t p offset small h =
    let (rest, stands) = Begins-rest (le_bytes 4 offset) (skip p t) h in
    ap (λ l. le_number (bytes_at 4 l)) stands
    ∙ ap (λ n. le_number (bytes_at n (le_bytes 4 offset ++ rest))) (sym (length-le_bytes 4 offset))
    ∙ ap le_number (bytes_at-append (le_bytes 4 offset) rest)
    ∙ le_number-le_bytes 4 offset (omega arith)

found_pointed :
    (t : Tuple) (c : Column) (offset : ℕ)
    → is_inlined c ≡ false
    → offset < 2 ^ 32
    → offset ≤ length t
    → Holds t c.storage_offset (le_bytes 4 offset)
    → get_data_ptr t c ≡ ok (skip offset t)
unfolding get_data_ptr skip_to
found_pointed t c offset pointed small within h =
    let four = length-le_bytes 4 offset in
    let bytes : c.storage_offset + 4 ≤ length t =
      omega (arith, Holds-inside t c.storage_offset (le_bytes 4 offset) h (omega arith)) in
    rw (pointed, le→leb (c.storage_offset + 4) (length t) bytes, get_data_ptr)
      (ap (λ n. skip_to n t) (pointer_read t c.storage_offset offset small h)
        ∙ ap (λ b. guard b undefined_behaviour >> ok (skip offset t))
            (le→leb offset (length t) within))

pub get_value_pointed :
    (t : Tuple) (c : Column) (v : Val) (offset : ℕ)
    → is_inlined c ≡ false
    → offset < 2 ^ 32
    → offset ≤ length t
    → Holds t c.storage_offset (le_bytes 4 offset)
    → deserialize_from (skip offset t) c.column_type ≡ ok (some_value c.column_type v)
    → get_value t c ≡ ok (some_value c.column_type v)
unfolding get_value
get_value_pointed t c v offset pointed small within h read =
    ap (λ r. r >>= λ bytes. deserialize_from bytes c.column_type)
      (found_pointed t c offset pointed small within h)
    ∙ read

pub length-value_bytes : (s : List ℕ) → length (value_bytes (string s)) ≡ 4 + length s
unfolding le_bytes
length-value_bytes s = omega arith
