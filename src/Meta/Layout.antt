-- ===== src/Meta/Layout.antt =====
-- The layout that `Schema(columns)` (schema.cpp) gives the first part of a tuple (Columns).
use gavin_db.Prelude.{
  ℕ, suc, ◌+◌, ◌%◌, ◌^◌, ◌<◌, ◌≤◌, ◌≡◌, refl, ap, ◌∙◌, List, [], ◌∷◌, length, ok, assertion, lt→ltb,
  guard, ◌>>=◌, ◌>>◌, if◌then◌else◌, arith,
}
use gavin_db.Serializer.RoundTrip.{Every}
use gavin_db.Meta.Columns.{Column, Schema, inline_size, is_inlined, lay_out, schema_of}

unfoldable pub total_size : List Column → ℕ
total_size [] = 0
total_size (c ∷ columns) = inline_size c + total_size columns

-- The bytes of each column end where those of the later columns begin, or before, and within `size`.
unfoldable pub Apart : List Column → ℕ → Type 0
unfolding Every
Apart [] size = Unit
Apart (c ∷ columns) size =
    Every (λ d. c.storage_offset + inline_size c ≤ d.storage_offset) columns
    × (c.storage_offset + inline_size c ≤ size)
    × Apart columns size

abbrev HasLength : Column → Type 0
HasLength c = 0 < c.column_length

pub Every-weaken :
    {P Q : Column → Type 0}
    → ((c : Column) → P c → Q c)
    → (columns : List Column) → Every P columns
    → Every Q columns
unfolding Every
Every-weaken f [] h = tt
Every-weaken f (c ∷ columns) (h, hs) = (f c h, Every-weaken f columns hs)

-- What the loop makes of the columns from an offset on.
abbrev LaidFrom : ℕ → List Column → Schema → Type 0
LaidFrom offset columns schema =
    (length schema.columns ≡ length columns)
    × (schema.tuple_inline_part_storage_size ≡ offset + total_size columns)
    × Every (λ d. offset ≤ d.storage_offset) schema.columns
    × Apart schema.columns schema.tuple_inline_part_storage_size

abbrev placed : Column → ℕ → ℕ → Column
placed c offset index = record c { storage_offset = offset; schema_offset = index }

abbrev with_column : Column → ℕ → ℕ → Schema → Schema
with_column c offset index laid = record laid {
  columns = placed c offset index ∷ laid.columns;
  uninlined_columns =
      if is_inlined c then laid.uninlined_columns else (index ∷ laid.uninlined_columns);
}

lay_out-step :
    (c : Column) (columns : List Column) (offset index : ℕ) (laid : Schema)
    → 0 < c.column_length
    → offset + inline_size c < 2 ^ 32
    → lay_out (offset + inline_size c) (suc index) columns ≡ ok laid
    → lay_out offset index (c ∷ columns) ≡ ok (with_column c offset index laid)
unfolding lay_out
lay_out-step c columns offset index laid positive small h =
    ap
      (λ b.
        guard b assertion
        >> (lay_out ((offset + inline_size c) % 2 ^ 32) (suc index) columns >>= λ l.
            ok (with_column c offset index l)))
      (lt→ltb 0 c.column_length positive)
    ∙ ap (λ n. lay_out n (suc index) columns >>= λ l. ok (with_column c offset index l))
        (omega arith)
    ∙ ap (λ r. r >>= λ l. ok (with_column c offset index l)) h

lay_out-LaidFrom :
    (offset index : ℕ) (columns : List Column)
    → Every HasLength columns
    → offset + total_size columns < 2 ^ 32
    → (schema : Schema) × (lay_out offset index columns ≡ ok schema)
      × LaidFrom offset columns schema
unfolding lay_out total_size Every Apart inline_size is_inlined
lay_out-LaidFrom offset index [] h small = (
  record { columns = []; uninlined_columns = []; tuple_inline_part_storage_size = offset },
  refl,
  (refl, omega arith, tt, tt),
)
lay_out-LaidFrom offset index (c ∷ columns) (h, hs) small =
    let (laid, e, (len, size, above, apart)) =
      lay_out-LaidFrom (offset + inline_size c) (suc index) columns hs (omega arith) in
    (
      with_column c offset index laid,
      lay_out-step c columns offset index laid h (omega arith) e,
      (
        ap suc len,
        omega (arith, size),
        (omega arith, Every-weaken (λ d k. omega (arith, k)) laid.columns above),
        (above, omega (arith, size), apart),
      ),
    )

-- A schema is made of any columns that have a length and take less than 2 ^ 32 bytes together: it
-- has as many columns, its size is the sum of what they take, and no two of them share a byte.
pub schema_of-Apart :
    (columns : List Column)
    → Every HasLength columns
    → total_size columns < 2 ^ 32
    → (schema : Schema) × (schema_of columns ≡ ok schema)
      × (length schema.columns ≡ length columns)
      × (schema.tuple_inline_part_storage_size ≡ total_size columns)
      × Apart schema.columns schema.tuple_inline_part_storage_size
unfolding schema_of
schema_of-Apart columns h small =
    let (schema, e, (len, size, above, apart)) = lay_out-LaidFrom 0 0 columns h (omega arith) in
    (schema, e, len, omega (arith, size), apart)
