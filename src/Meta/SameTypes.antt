-- ===== src/Meta/SameTypes.antt =====
-- Schemas of columns of the same types lay out a tuple the same way (`Schema(columns)` of schema.cpp).
use gavin_db.Prelude.{
  ℕ, suc, ◌+◌, ◌%◌, ◌^◌, ◌≡◌, refl, ap, sym, ◌∙◌, not, ◌==◌, List, [], ◌∷◌, map, ok, assertion,
  ◌>>=◌, if◌then◌else◌, >>=-returned, guard-returned, ok-injective, ltb,
}
use gavin_db.Serializer.RoundTrip.{Every}
use gavin_db.Meta.Types.{TypeId, type_code}
use gavin_db.Meta.Columns.{Column, Schema, inline_size, is_inlined, lay_out, schema_of}

-- What the step of the loop adds to what the rest of it makes.
abbrev pub with_column : Column → ℕ → ℕ → Schema → Schema
with_column c offset index laid = record laid {
  columns = record c { storage_offset = offset; schema_offset = index } ∷ laid.columns;
  uninlined_columns =
      if is_inlined c then laid.uninlined_columns else (index ∷ laid.uninlined_columns);
}

pub lay_out-returned :
    (c : Column) (columns : List Column) (offset index : ℕ) (schema : Schema)
    → lay_out offset index (c ∷ columns) ≡ ok schema
    → (laid : Schema) × (lay_out ((offset + inline_size c) % 2 ^ 32) (suc index) columns ≡ ok laid)
      × (with_column c offset index laid ≡ schema)
unfolding lay_out
lay_out-returned c columns offset index schema h =
    let (_, rest) =
      guard-returned (ltb 0 c.column_length) assertion
        (lay_out ((offset + inline_size c) % 2 ^ 32) (suc index) columns >>= λ laid.
          ok (with_column c offset index laid))
        schema h in
    let (laid, e, made) =
      >>=-returned (lay_out ((offset + inline_size c) % 2 ^ 32) (suc index) columns)
        (λ laid. ok (with_column c offset index laid)) schema rest in
    (laid, e, ok-injective made)

abbrev type_of : Column → TypeId
type_of c = c.column_type

pub lay_out-empty :
    (offset index : ℕ) (schema : Schema)
    → lay_out offset index [] ≡ ok schema
    → record { columns = []; uninlined_columns = []; tuple_inline_part_storage_size = offset }
      ≡ schema
unfolding lay_out
lay_out-empty offset index schema h = ok-injective h

pub lay_out-types :
    (columns : List Column) (offset index : ℕ) (schema : Schema)
    → lay_out offset index columns ≡ ok schema
    → map type_of schema.columns ≡ map type_of columns
lay_out-types [] offset index schema h =
    ap (λ (s : Schema). map type_of s.columns) (sym (lay_out-empty offset index schema h))
lay_out-types (c ∷ columns) offset index schema h =
    let (laid, e, made) = lay_out-returned c columns offset index schema h in
    ap (λ (s : Schema). map type_of s.columns) (sym made)
    ∙ ap (λ types. c.column_type ∷ types)
        (lay_out-types columns ((offset + inline_size c) % 2 ^ 32) (suc index) laid e)

-- What a column of the type with this code takes of the first part, and whether it is kept there.
unfoldable pub code_width : ℕ → ℕ
code_width code = if code == 1 then 1 else if code == 3 then 8 else 4

-- A column as its constructors make it.
unfoldable pub IsMade : Column → Type 0
unfolding inline_size is_inlined code_width
IsMade c =
    (inline_size c ≡ code_width (type_code c.column_type))
    × (is_inlined c ≡ not (type_code c.column_type == 4))

abbrev code_of : Column → ℕ
code_of c = type_code c.column_type

abbrev pub SameLayout : Schema → Schema → Type 0
SameLayout s t =
    (map (λ (c : Column). c.storage_offset) s.columns
      ≡ map (λ (c : Column). c.storage_offset) t.columns)
    × (s.uninlined_columns ≡ t.uninlined_columns)
    × (s.tuple_inline_part_storage_size ≡ t.tuple_inline_part_storage_size)

with_column-SameLayout :
    (a b : Column) (offset index : ℕ) (s t : Schema)
    → is_inlined a ≡ is_inlined b
    → SameLayout s t
    → SameLayout (with_column a offset index s) (with_column b offset index t)
with_column-SameLayout a b offset index s t inlined (offsets, uninlined, size) = (
  ap (λ rest. offset ∷ rest) offsets,
  ap (λ p. if p then s.uninlined_columns else (index ∷ s.uninlined_columns)) inlined
      ∙ ap (λ rest. if is_inlined b then rest else (index ∷ rest)) uninlined,
  size,
)

SameLayout-along : {s s' t t' : Schema} → s ≡ s' → t ≡ t' → SameLayout s t → SameLayout s' t'
SameLayout-along e d (offsets, uninlined, size) = (
  sym (ap (λ (r : Schema). map (λ (c : Column). c.storage_offset) r.columns) e)
      ∙ offsets
      ∙ ap (λ (r : Schema). map (λ (c : Column). c.storage_offset) r.columns) d,
  sym (ap (λ (r : Schema). r.uninlined_columns) e)
      ∙ uninlined
      ∙ ap (λ (r : Schema). r.uninlined_columns) d,
  sym (ap (λ (r : Schema). r.tuple_inline_part_storage_size) e)
      ∙ size
      ∙ ap (λ (r : Schema). r.tuple_inline_part_storage_size) d,
)

lay_out-SameLayout :
    (xs ys : List Column) (offset index : ℕ) (s t : Schema)
    → Every IsMade xs
    → Every IsMade ys
    → map code_of xs ≡ map code_of ys
    → lay_out offset index xs ≡ ok s
    → lay_out offset index ys ≡ ok t
    → SameLayout s t
unfolding Every IsMade
lay_out-SameLayout [] [] offset index s t h k codes e d =
    SameLayout-along (lay_out-empty offset index s e) (lay_out-empty offset index t d)
      (refl, refl, refl)
lay_out-SameLayout [] (b ∷ ys) offset index s t h k codes e d = cc
lay_out-SameLayout (a ∷ xs) [] offset index s t h k codes e d = cc
lay_out-SameLayout (a ∷ xs) (b ∷ ys) offset index s t ((size_a, in_a), h) ((size_b, in_b), k) codes
      e d =
    let same_head : (code_of a ≡ code_of b) = cc in
    let same_tail : (map code_of xs ≡ map code_of ys) = cc in
    let (s', e', made_s) = lay_out-returned a xs offset index s e in
    let (t', d', made_t) = lay_out-returned b ys offset index t d in
    let width : (inline_size b ≡ inline_size a) =
      size_b ∙ ap code_width (sym same_head) ∙ sym size_a in
    SameLayout-along made_s made_t (
      with_column-SameLayout a b offset index s' t'
        (in_a ∙ ap (λ code. not (code == 4)) same_head ∙ sym in_b)
        (lay_out-SameLayout xs ys ((offset + inline_size a) % 2 ^ 32) (suc index) s' t' h k
          same_tail e' (ap (λ w. lay_out ((offset + w) % 2 ^ 32) (suc index) ys) (sym width) ∙ d')))

-- Two schemas of columns that their constructors made, of the same types in the same order, keep each
-- column at the same place, the same columns outside of the first part, and a first part of the same size.
pub schema_of-SameLayout :
    (xs ys : List Column) (s t : Schema)
    → Every IsMade xs
    → Every IsMade ys
    → map code_of xs ≡ map code_of ys
    → schema_of xs ≡ ok s
    → schema_of ys ≡ ok t
    → SameLayout s t
unfolding schema_of
schema_of-SameLayout xs ys s t h k codes e d = lay_out-SameLayout xs ys 0 0 s t h k codes e d
