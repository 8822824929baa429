-- ===== src/Table/Tuple/Written.antt =====
-- The loop of `Tuple(values, schema)` writes each value (Tuple) where nothing is written later.
use gavin_db.Prelude.{
  if◌then◌else◌, ℕ, ◌+◌, ◌%◌, ◌^◌, ◌<◌, ◌≤◌, ◌≡◌, refl, ap, ◌∙◌, true, false, List, ◌∷◌, ◌++◌,
  length, length-append, Result, ok, ◌>>=◌, ◌⊎◌, inl, inr, arith,
}
use gavin_db.Serializer.Reader.{le_bytes, length-le_bytes}
use gavin_db.Serializer.RoundTrip.{Every}
use gavin_db.Meta.Types.{integer, timestamp, varchar, type_size}
use gavin_db.Meta.Values.{
  Val, int8, int32, uint64, string, Value, some_value, serialize_to, storage_size,
}
use gavin_db.Meta.Columns.{Column, is_inlined, inline_size}
use gavin_db.Table.Tuple.{Tuple, overwrite, write_at, write_column}
use gavin_db.Table.Tuple.Overwrite.{
  Holds, length-overwrite, write_at-fits, overwrite-Holds_self, overwrite-Holds_front,
  overwrite-Holds_behind,
}
use gavin_db.Table.Tuple.Sizes.{
  Suits, suits_integer, suits_timestamp, suits_varchar, extra_of, varchar_inlined, integer_inlined,
  timestamp_inlined,
}

-- The bytes of a value.
abbrev pub value_bytes : Val → List ℕ
value_bytes (int8 n) = le_bytes 1 n
value_bytes (int32 n) = le_bytes 4 n
value_bytes (uint64 n) = le_bytes 8 n
value_bytes (string s) = le_bytes 4 (length s % 2 ^ 32) ++ s

-- The tuple after a column's value has been written.
abbrev pub written : Column → Val → ℕ → Tuple → Tuple
written c (string s) offset storage =
    overwrite (overwrite storage c.storage_offset (le_bytes 4 offset)) offset
      (value_bytes (string s))
written c (int8 n) offset storage = overwrite storage c.storage_offset (value_bytes (int8 n))
written c (int32 n) offset storage = overwrite storage c.storage_offset (value_bytes (int32 n))
written c (uint64 n) offset storage = overwrite storage c.storage_offset (value_bytes (uint64 n))

-- A column's value stands in the tuple: in its place, or at an offset that stands there.
unfoldable pub HoldsAt : Column → Val → ℕ → Tuple → Type 0
unfolding Holds
HoldsAt c (string s) offset storage =
    Holds storage c.storage_offset (le_bytes 4 offset)
    × Holds storage offset (value_bytes (string s))
HoldsAt c (int8 n) offset storage = Holds storage c.storage_offset (value_bytes (int8 n))
HoldsAt c (int32 n) offset storage = Holds storage c.storage_offset (value_bytes (int32 n))
HoldsAt c (uint64 n) offset storage = Holds storage c.storage_offset (value_bytes (uint64 n))

-- Where the offset of the next value and the bytes of the tuple are such that a column can be written.
abbrev pub Room : Column → ℕ → Val → ℕ → Tuple → Type 0
Room c inline v offset storage =
    (c.storage_offset + inline_size c ≤ inline)
    × (inline ≤ offset)
    × (offset + extra_of v ≤ length storage)
    × (length storage < 2 ^ 32)

inline_step :
    (c : Column) (v : Value) (offset : ℕ) (storage : Tuple) (bytes : List ℕ)
    → is_inlined c ≡ true
    → serialize_to v.type_id v.value ≡ ok bytes
    → c.storage_offset + length bytes ≤ length storage
    → write_column c v (offset, storage) ≡ ok (offset, overwrite storage c.storage_offset bytes)
unfolding write_column
inline_step c v offset storage bytes inlined written fits =
    ap
      (λ b. elim b as (λ _. Result (ℕ × Tuple)) [
        | true ↦ serialize_to v.type_id v.value >>= λ bs.
            write_at storage c.storage_offset bs >>= λ w. ok (offset, w)
        | false ↦ write_at storage c.storage_offset (le_bytes 4 offset) >>= λ pointed.
            serialize_to v.type_id v.value >>= λ bs. write_at pointed offset bs >>= λ w.
            storage_size v >>= λ len. ok ((offset + (len + 4)) % 2 ^ 32, w)
      ])
      inlined
    ∙ ap (λ r. r >>= λ bs. write_at storage c.storage_offset bs >>= λ w. ok (offset, w)) written
    ∙ ap (λ r. r >>= λ w. ok (offset, w)) (write_at-fits storage c.storage_offset bytes fits)

varchar_step :
    (c : Column) (s : List ℕ) (offset : ℕ) (storage : Tuple)
    → c.column_type ≡ varchar
    → c.storage_offset + 4 ≤ offset
    → offset + (4 + length s) ≤ length storage
    → length storage < 2 ^ 32
    → write_column c (some_value varchar (string s)) (offset, storage)
      ≡ ok (offset + (4 + length s), written c (string s) offset storage)
unfolding write_column serialize_to storage_size type_size
varchar_step c s offset storage ty before fits small =
    let pointed = overwrite storage c.storage_offset (le_bytes 4 offset) in
    let bytes = value_bytes (string s) in
    ap
      (λ b. elim b as (λ _. Result (ℕ × Tuple)) [
        | true ↦ write_at storage c.storage_offset bytes >>= λ w. ok (offset, w)
        | false ↦ write_at storage c.storage_offset (le_bytes 4 offset) >>= λ p.
            write_at p offset bytes >>= λ w. ok ((offset + (length s + 4)) % 2 ^ 32, w)
      ])
      (varchar_inlined c ty)
    ∙ ap
        (λ r.
          r >>= λ p. write_at p offset bytes >>= λ w. ok ((offset + (length s + 4)) % 2 ^ 32, w))
        (write_at-fits storage c.storage_offset (le_bytes 4 offset)
          (omega (arith, length-le_bytes 4 offset)))
    ∙ ap (λ r. r >>= λ w. ok ((offset + (length s + 4)) % 2 ^ 32, w))
        (write_at-fits pointed offset bytes (
          omega (
            arith,
            length-overwrite storage c.storage_offset (le_bytes 4 offset),
            length-append (le_bytes 4 (length s % 2 ^ 32)) s,
            length-le_bytes 4 (length s % 2 ^ 32),
          )))
    ∙ ap (λ n. ok (n, overwrite pointed offset bytes)) (omega arith)

pub size_inlined : (c : Column) → is_inlined c ≡ true → inline_size c ≡ c.column_length
unfolding inline_size
size_inlined c h = ap (λ b. if b then c.column_length else 4) h

pub size_pointed : (c : Column) → is_inlined c ≡ false → inline_size c ≡ 4
unfolding inline_size
size_pointed c h = ap (λ b. if b then c.column_length else 4) h

-- A suitable value is written, and stands in the tuple then.
pub write_column-HoldsAt :
    (c : Column) (v : Value) (inline offset : ℕ) (storage : Tuple)
    → Suits c v
    → Room c inline v.value offset storage
    → (write_column c v (offset, storage)
        ≡ ok (offset + extra_of v.value, written c v.value offset storage))
      × HoldsAt c v.value offset (written c v.value offset storage)
unfolding HoldsAt serialize_to
write_column-HoldsAt _ _ inline offset storage (suits_integer c n ty len h)
      (inside, behind, room, small) =
    let inlined = integer_inlined c ty in
    let fits : (c.storage_offset + length (le_bytes 4 n) ≤ length storage) =
      omega (arith, length-le_bytes 4 n, size_inlined c inlined, len) in
    (
      inline_step c (some_value integer (int32 n)) offset storage (le_bytes 4 n) inlined refl fits
          ∙ ap (λ m. ok (m, overwrite storage c.storage_offset (le_bytes 4 n))) (omega arith),
      overwrite-Holds_self storage c.storage_offset (le_bytes 4 n) fits,
    )
write_column-HoldsAt _ _ inline offset storage (suits_timestamp c n ty len h)
      (inside, behind, room, small) =
    let inlined = timestamp_inlined c ty in
    let fits : (c.storage_offset + length (le_bytes 8 n) ≤ length storage) =
      omega (arith, length-le_bytes 8 n, size_inlined c inlined, len) in
    (
      inline_step c (some_value timestamp (uint64 n)) offset storage (le_bytes 8 n) inlined refl
            fits
          ∙ ap (λ m. ok (m, overwrite storage c.storage_offset (le_bytes 8 n))) (omega arith),
      overwrite-Holds_self storage c.storage_offset (le_bytes 8 n) fits,
    )
write_column-HoldsAt _ _ inline offset storage (suits_varchar c s ty fits short)
      (inside, behind, room, small) =
    let four = size_pointed c (varchar_inlined c ty) in
    let pointed = overwrite storage c.storage_offset (le_bytes 4 offset) in
    let before : (c.storage_offset + 4 ≤ offset) = omega (arith, four) in
    (
      varchar_step c s offset storage ty before room small,
      (
        overwrite-Holds_front pointed offset (value_bytes (string s)) c.storage_offset
            (le_bytes 4 offset) (omega (arith, length-le_bytes 4 offset))
            (overwrite-Holds_self storage c.storage_offset (le_bytes 4 offset)
              (omega (arith, length-le_bytes 4 offset))),
        overwrite-Holds_self pointed offset (value_bytes (string s)) (
            omega (
              arith,
              length-overwrite storage c.storage_offset (le_bytes 4 offset),
              length-append (le_bytes 4 (length s % 2 ^ 32)) s,
              length-le_bytes 4 (length s % 2 ^ 32),
            )),
      ),
    )

-- Bytes that are in front of the columns that are left, or between the first part and the next value.
abbrev pub Clear : ℕ → ℕ → List Column → ℕ → ℕ → Type 0
Clear p n cols inline offset =
    (Every (λ (d : Column). p + n ≤ d.storage_offset) cols × (p + n ≤ inline))
    ⊎ ((inline ≤ p) × (p + n ≤ offset))

pub written-Holds :
    (c : Column) (v : Value) (cols : List Column) (inline offset : ℕ) (storage : Tuple) (p : ℕ)
    (xs : List ℕ)
    → Suits c v
    → Room c inline v.value offset storage
    → Clear p (length xs) (c ∷ cols) inline offset
    → Holds storage p xs
    → Holds (written c v.value offset storage) p xs
unfolding Every
written-Holds _ _ cols inline offset storage p xs (suits_integer c n ty len h)
      (inside, behind, room, small) (inl ((front, _), _)) k =
    overwrite-Holds_front storage c.storage_offset (le_bytes 4 n) p xs front k
written-Holds _ _ cols inline offset storage p xs (suits_integer c n ty len h)
      (inside, behind, room, small) (inr (back, _)) k =
    overwrite-Holds_behind storage c.storage_offset (le_bytes 4 n) p xs
      (omega (arith, length-le_bytes 4 n, size_inlined c (integer_inlined c ty), len)) k
written-Holds _ _ cols inline offset storage p xs (suits_timestamp c n ty len h)
      (inside, behind, room, small) (inl ((front, _), _)) k =
    overwrite-Holds_front storage c.storage_offset (le_bytes 8 n) p xs front k
written-Holds _ _ cols inline offset storage p xs (suits_timestamp c n ty len h)
      (inside, behind, room, small) (inr (back, _)) k =
    overwrite-Holds_behind storage c.storage_offset (le_bytes 8 n) p xs
      (omega (arith, length-le_bytes 8 n, size_inlined c (timestamp_inlined c ty), len)) k
written-Holds _ _ cols inline offset storage p xs (suits_varchar c s ty fits short)
      (inside, behind, room, small) (inl ((front, _), first)) k =
    overwrite-Holds_front (overwrite storage c.storage_offset (le_bytes 4 offset)) offset
      (value_bytes (string s)) p xs (omega arith)
      (overwrite-Holds_front storage c.storage_offset (le_bytes 4 offset) p xs front k)
written-Holds _ _ cols inline offset storage p xs (suits_varchar c s ty fits short)
      (inside, behind, room, small) (inr (back, before)) k =
    overwrite-Holds_front (overwrite storage c.storage_offset (le_bytes 4 offset)) offset
      (value_bytes (string s)) p xs before
      (overwrite-Holds_behind storage c.storage_offset (le_bytes 4 offset) p xs
        (omega (arith, length-le_bytes 4 offset, size_pointed c (varchar_inlined c ty))) k)
