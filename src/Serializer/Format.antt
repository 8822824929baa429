-- ===== src/Serializer/Format.antt =====
-- BinarySerializer and BinaryDeserializer (binary_serializer.hpp, binary_serializer.cpp,
-- binary_deserializer.hpp, binary_deserializer.cpp) under the templates of serializer.hpp and
-- deserializer.hpp: fields, objects, lists, nullable pointers, maps and the primitive types.
-- What a call writes is the list of the bytes it gives to the stream.
use gavin_db.Prelude.{
  ℕ, zero, suc, ◌-◌, Option, none, some, List, [], ◌∷◌, ◌++◌, length, Result, ok, err,
  serialization, assertion, ◌==◌, Bool, true, false,
}
use gavin_db.Serializer.Reader.{Read, ◌>>=◌, ◌>>◌, return, le_bytes, read_data, read_primitive}

abbrev pub Write : Type 0
Write = Result (List ℕ)

-- One call after the other.
infixr 5 ◌then◌
unfoldable pub ◌then◌ : Write → Write → Write
err e then w = err e
ok xs then err e = err e
ok xs then ok ys = ok (xs ++ ys)

-- `MESSAGE_TERMINATOR_FIELD_ID`
abbrev pub terminator : ℕ
terminator = 65535

unfoldable pub write_number : ℕ → ℕ → Write
write_number width v = ok (le_bytes width v)

unfoldable pub write_bool : Bool → Write
unfolding write_number
write_bool false = write_number 1 0
write_bool true = write_number 1 1

unfoldable pub write_string : List ℕ → Write
unfolding ◌then◌ write_number
write_string s = write_number 4 (length s) then ok s

unfoldable pub begin_property : ℕ → Write
unfolding write_number
begin_property field = elim (field == terminator) [
  | true ↦ err assertion
  | false ↦ write_number 2 field
]

unfoldable pub write_property : ℕ → Write → Write
unfolding ◌then◌ begin_property
write_property field value = begin_property field then value

unfoldable pub write_object : Write → Write
unfolding ◌then◌ write_number
write_object fields = fields then write_number 2 terminator

unfoldable pub write_nullable : {A : Type 0} → (A → Write) → Option A → Write
unfolding ◌then◌ write_bool
write_nullable write none = write_bool false
write_nullable write (some a) = write_bool true then write a

unfoldable pub write_items : {A : Type 0} → (A → Write) → List A → Write
unfolding ◌then◌
write_items write [] = ok []
write_items write (a ∷ items) = write a then write_items write items

unfoldable pub write_vector : {A : Type 0} → (A → Write) → List A → Write
unfolding ◌then◌ write_number write_items
write_vector write items = write_number 8 (length items) then write_items write items

-- The reader.

unfoldable pub peek_field : Read ℕ
unfolding read_primitive
peek_field r = elim r.buffered_field [
  | some field ↦ ok (field, r)
  | none ↦ elim (read_primitive 2 r) [
    | err e ↦ err e
    | ok (field, r') ↦ ok (field, record r' { buffered_field = some field })
  ]
]

unfoldable pub next_field : Read ℕ
unfolding read_primitive
next_field r = elim r.buffered_field [
  | some field ↦ ok (field, record r { buffered_field = none })
  | none ↦ read_primitive 2 r
]

-- The field that was found has to be the one that is expected.
unfoldable pub expect : ℕ → ℕ → Read (Unit {0})
expect field found r = elim (found == field) [ true ↦ ok (tt, r) | false ↦ err serialization ]

unfoldable pub on_property_begin : ℕ → Read (Unit {0})
unfolding next_field expect
on_property_begin field = next_field >>= expect field

unfoldable pub read_property : {A : Type 0} → ℕ → Read A → Read A
unfolding on_property_begin
read_property field read = on_property_begin field >> read

-- Whether the field comes next; it is consumed if it does.
unfoldable pub on_optional_property_begin : ℕ → Read Bool
unfolding peek_field
on_optional_property_begin field r = elim (peek_field r) [
  | err e ↦ err e
  | ok (found, r') ↦ elim (found == field) [
    | true ↦ ok (true, record r' { buffered_field = none })
    | false ↦ ok (false, r')
  ]
]

unfoldable pub read_property_with_default : {A : Type 0} → ℕ → Read A → A → Read A
unfolding on_optional_property_begin
read_property_with_default field read default = on_optional_property_begin field >>= λ present.
    elim present [ true ↦ read | false ↦ return default ]

unfoldable pub on_object_begin : Read (Unit {0})
on_object_begin r = ok (tt, record r { nesting_level = suc r.nesting_level })

unfoldable pub leave_object : Read (Unit {0})
leave_object r = ok (tt, record r { nesting_level = r.nesting_level - 1 })

unfoldable pub on_object_end : Read (Unit {0})
unfolding next_field expect leave_object
on_object_end = next_field >>= expect terminator >> leave_object

unfoldable pub read_object : {A : Type 0} → Read A → Read A
unfolding on_object_begin on_object_end
read_object read = on_object_begin >> (read >>= λ a. on_object_end >> return a)

-- `static_cast<bool>`
abbrev pub as_bool : ℕ → Bool
as_bool b = elim (b == 0) [ true ↦ false | false ↦ true ]

unfoldable pub read_bool : Read Bool
unfolding read_primitive
read_bool = read_primitive 1 >>= λ b. return (as_bool b)

unfoldable pub read_chars : ℕ → Read (List ℕ)
unfolding read_data
read_chars len = elim (len == 0) [ true ↦ return [] | false ↦ read_data len ]

unfoldable pub read_string : Read (List ℕ)
unfolding read_primitive read_chars
read_string = read_primitive 4 >>= read_chars

unfoldable pub read_pointee : {A : Type 0} → Read A → Bool → Read (Option A)
read_pointee read false = return none
read_pointee read true = read >>= λ a. return (some a)

unfoldable pub read_nullable : {A : Type 0} → Read A → Read (Option A)
unfolding read_bool read_pointee
read_nullable read = read_bool >>= read_pointee read

unfoldable pub read_items : {A : Type 0} → Read A → ℕ → Read (List A)
read_items read zero = return []
read_items read (suc n) = read >>= λ a. read_items read n >>= λ items. return (a ∷ items)

unfoldable pub read_vector : {A : Type 0} → Read A → Read (List A)
unfolding read_primitive read_items
read_vector read = read_primitive 8 >>= λ size. read_items read size
