-- ===== src/Table/Tuple/Loop.antt =====
-- The whole loop of `Tuple(values, schema)` (Tuple): every value stands in the tuple at its end.
use gavin_db.Prelude.{
  ℕ, ◌+◌, ◌%◌, ◌^◌, ◌<◌, ◌≤◌, ◌≡◌, refl, ap, ◌∙◌, List, [], ◌∷◌, length, length-append, ok, ◌>>=◌,
  inl, inr, arith,
}
use gavin_db.Serializer.Reader.{le_bytes, length-le_bytes}
use gavin_db.Serializer.RoundTrip.{Every}
use gavin_db.Meta.Values.{Val, int8, int32, uint64, string, Value}
use gavin_db.Meta.Columns.{Column, inline_size}
use gavin_db.Meta.Layout.{Apart, Every-weaken}
use gavin_db.Table.Tuple.{Tuple, overwrite, write_columns}
use gavin_db.Table.Tuple.Overwrite.{Holds, length-overwrite}
use gavin_db.Table.Tuple.Sizes.{
  Suits, suits_integer, suits_timestamp, suits_varchar, AllSuit, none_left, one_suits, extra_of,
  extras, varchar_inlined, integer_inlined, timestamp_inlined,
}
use gavin_db.Table.Tuple.Written.{
  value_bytes, written, HoldsAt, Room, Clear, write_column-HoldsAt, written-Holds, size_inlined,
  size_pointed,
}

-- The column's value stays where only what is clear of it is written.
abbrev Stays : List Column → ℕ → ℕ → Tuple → Tuple → Type 0
Stays cols inline offset storage after =
    (p : ℕ) (xs : List ℕ)
    → Clear p (length xs) cols inline offset
    → Holds storage p xs
    → Holds after p xs

HoldsAt-Stays :
    (c : Column) (v : Value) (cols : List Column) (inline offset : ℕ) (storage after : Tuple)
    → Suits c v
    → Room c inline v.value offset storage
    → Every (λ (d : Column). c.storage_offset + inline_size c ≤ d.storage_offset) cols
    → Stays cols inline (offset + extra_of v.value) (written c v.value offset storage) after
    → HoldsAt c v.value offset (written c v.value offset storage)
    → HoldsAt c v.value offset after
unfolding HoldsAt
HoldsAt-Stays _ _ cols inline offset storage after (suits_integer c n ty len h) (inside, _, _, _)
      apart stays holds =
    let size = size_inlined c (integer_inlined c ty) in
    stays c.storage_offset (le_bytes 4 n)
      (inl (
        Every-weaken (λ d k. omega (arith, k, length-le_bytes 4 n, size, len)) cols apart,
        omega (arith, length-le_bytes 4 n, size, len),
      ))
      holds
HoldsAt-Stays _ _ cols inline offset storage after (suits_timestamp c n ty len h) (inside, _, _, _)
      apart stays holds =
    let size = size_inlined c (timestamp_inlined c ty) in
    stays c.storage_offset (le_bytes 8 n)
      (inl (
        Every-weaken (λ d k. omega (arith, k, length-le_bytes 8 n, size, len)) cols apart,
        omega (arith, length-le_bytes 8 n, size, len),
      ))
      holds
HoldsAt-Stays _ _ cols inline offset storage after (suits_varchar c s ty fits short)
      (inside, behind, _, _) apart stays (pointer, bytes) =
    let size = size_pointed c (varchar_inlined c ty) in
    (
      stays c.storage_offset (le_bytes 4 offset)
          (inl (
            Every-weaken (λ d k. omega (arith, k, length-le_bytes 4 offset, size)) cols apart,
            omega (arith, length-le_bytes 4 offset, size),
          ))
          pointer,
      stays offset (value_bytes (string s))
          (inr (
            behind,
            omega (
              arith,
              length-append (le_bytes 4 (length s % 2 ^ 32)) s,
              length-le_bytes 4 (length s % 2 ^ 32),
            ),
          ))
          bytes,
    )

-- Each value stands in the tuple, at some offset if it is not inlined.
unfoldable pub AllHold : List Column → List Value → Tuple → Type 0
unfolding HoldsAt
AllHold (c ∷ cols) (v ∷ values) storage =
    ((offset : ℕ) × (offset < 2 ^ 32) × HoldsAt c v.value offset storage)
    × AllHold cols values storage
AllHold (_ ∷ _) [] storage = Unit
AllHold [] _ storage = Unit

length-written :
    (c : Column) (v : Val) (offset : ℕ) (storage : Tuple)
    → length (written c v offset storage) ≡ length storage
length-written c (int8 n) offset storage = length-overwrite storage c.storage_offset (le_bytes 1 n)
length-written c (int32 n) offset storage = length-overwrite storage c.storage_offset (le_bytes 4 n)
length-written c (uint64 n) offset storage =
    length-overwrite storage c.storage_offset (le_bytes 8 n)
length-written c (string s) offset storage =
    length-overwrite (overwrite storage c.storage_offset (le_bytes 4 offset)) offset
      (value_bytes (string s))
    ∙ length-overwrite storage c.storage_offset (le_bytes 4 offset)

Clear-tail :
    (p n : ℕ) (c : Column) (cols : List Column) (inline offset more : ℕ)
    → Clear p n (c ∷ cols) inline offset
    → Clear p n cols inline (offset + more)
unfolding Every
Clear-tail p n c cols inline offset more (inl ((_, front), first)) = inl (front, first)
Clear-tail p n c cols inline offset more (inr (back, before)) = inr (back, omega arith)

pub write_columns-AllHold :
    (inline : ℕ) (cols : List Column) (values : List Value) (offset : ℕ) (storage : Tuple)
    → AllSuit cols values
    → Apart cols inline
    → inline ≤ offset
    → offset + extras values ≤ length storage
    → length storage < 2 ^ 32
    → (after : Tuple) × (write_columns cols values (offset, storage)
        ≡ ok (offset + extras values, after))
      × (length after ≡ length storage)
      × Stays cols inline offset storage after
      × AllHold cols values after
unfolding write_columns extras AllHold Apart Every
write_columns-AllHold inline _ _ offset storage none_left apart behind room small =
    (storage, ap (λ n. ok (n, storage)) (omega arith), refl, (λ p xs clear h. h), tt)
write_columns-AllHold inline _ _ offset storage (one_suits c v cols values suits suit)
      (later, inside, apart) behind room small =
    let fits : Room c inline v.value offset storage = (inside, behind, omega arith, small) in
    let (step, holds) = write_column-HoldsAt c v inline offset storage suits fits in
    let same = length-written c v.value offset storage in
    let (after, returned, kept_length, stays, all) =
      write_columns-AllHold inline cols values (offset + extra_of v.value)
        (written c v.value offset storage) suit apart (omega arith) (omega (arith, same))
        (omega (arith, same)) in
    (
      after,
      ap (λ r. r >>= λ next. write_columns cols values next) step
          ∙ returned
          ∙ ap (λ n. ok (n, after)) (omega arith),
      kept_length ∙ same,
      (λ p xs clear h.
          stays p xs (Clear-tail p (length xs) c cols inline offset (extra_of v.value) clear)
            (written-Holds c v cols inline offset storage p xs suits fits clear h)),
      (
        (
          offset,
          omega arith,
          HoldsAt-Stays c v cols inline offset storage after suits fits later stays holds,
        ),
        all,
      ),
    )
