-- ===== src/Meta/Values.antt =====
-- src/include/common/value.hpp and src/common/value.cpp: a value with its type, how it is kept in the
-- bytes of a tuple, and how it is stored in the format of the catalog.
use gavin_db.Prelude.{
  ℕ, zero, suc, ◌%◌, ◌^◌, Bool, true, false, List, [], ◌∷◌, ◌++◌, length, Result, ok, err, runtime,
  assertion, not_implemented, bad_variant_access, ltb, leb, guard, undefined_behaviour, ◌>>◌,
}
use gavin_db.Serializer.Reader.{Read, ◌>>=◌, return, throw, le_bytes, le_number, read_primitive}
use gavin_db.Serializer.Format.{
  Write, ◌then◌, write_number, write_bool, write_string, write_property, read_property, read_bool,
  read_string,
}
use gavin_db.Meta.Types.{
  TypeId, invalid, boolean, integer, timestamp, varchar, unnamed, type_size, write_type, read_type,
}

-- `std::variant<int8_t, int32_t, uint64_t, std::string>`; a signed number is kept as its bits.
pub data Val : Type 0 where
  int8 int32 uint64 : ℕ → Val
  string : List ℕ → Val

pub record Value : Type 0 where
  pub type_id : TypeId
  pub value : Val
  pub is_null : Bool

-- `Value(type)`
abbrev pub default_value : TypeId → Value
default_value type = record { type_id = type; value = int8 0; is_null = false }

-- `ValueIsCorrectType<T>`, for the type of each alternative: no alternative is the `uint8_t` that it
-- asks of a BOOLEAN.
unfoldable pub value_is_correct_type : TypeId → Val → Bool
value_is_correct_type integer (int32 _) = true
value_is_correct_type timestamp (uint64 _) = true
value_is_correct_type varchar (string _) = true
value_is_correct_type _ _ = false

-- `Value(type, value)`
unfoldable pub make_value : TypeId → Val → Result Value
unfolding value_is_correct_type
make_value type v = elim (value_is_correct_type type v) [
  | true ↦ ok record { type_id = type; value = v; is_null = false }
  | false ↦ err runtime
]

-- `GetStorageSize`
unfoldable pub storage_size : Value → Result ℕ
unfolding type_size
storage_size v = elim (v.type_id) [
  | varchar ↦ elim (v.value) [
    | string s ↦ type_size varchar (length s)
    | _ ↦ err bad_variant_access
  ]
  | type ↦ type_size type 0
]

-- The bytes that `SerializeTo` puts at the address that it is given.
unfoldable pub serialize_to : TypeId → Val → Result (List ℕ)
serialize_to boolean (int8 n) = ok (le_bytes 1 n)
serialize_to boolean _ = err assertion
serialize_to integer (int32 n) = ok (le_bytes 4 n)
serialize_to integer _ = err bad_variant_access
serialize_to timestamp (uint64 n) = ok (le_bytes 8 n)
serialize_to timestamp _ = err bad_variant_access
serialize_to varchar (string s) = ok (le_bytes 4 (length s % 2 ^ 32) ++ s)
serialize_to varchar _ = err bad_variant_access
serialize_to invalid _ = err runtime
serialize_to (unnamed _) _ = ok []

-- The bytes at an address; what is kept there is as long as what is read.
unfoldable pub bytes_at : ℕ → List ℕ → List ℕ
bytes_at zero storage = []
bytes_at (suc n) [] = []
bytes_at (suc n) (b ∷ storage) = b ∷ bytes_at n storage

unfoldable pub skip : ℕ → List ℕ → List ℕ
skip zero storage = storage
skip (suc n) [] = []
skip (suc n) (b ∷ storage) = skip n storage

-- `PAGE_SIZE`
abbrev pub page_size : ℕ
page_size = 4096

-- The characters of a VARCHAR of a length.
unfoldable pub read_varchar : ℕ → List ℕ → Result Value
unfolding bytes_at make_value
read_varchar len rest =
    guard (ltb len page_size) assertion
    >> (guard (leb len (length rest)) undefined_behaviour
        >> make_value varchar (string (bytes_at len rest)))

-- `DeserializeFrom`: four bytes of a TIMESTAMP are read; what lies behind the bytes that are given is not to be read.
unfoldable pub deserialize_from : List ℕ → TypeId → Result Value
unfolding bytes_at skip make_value le_number read_varchar
deserialize_from storage boolean =
    guard (leb 1 (length storage)) undefined_behaviour
    >> make_value boolean (int8 (le_number (bytes_at 1 storage)))
deserialize_from storage integer =
    guard (leb 4 (length storage)) undefined_behaviour
    >> make_value integer (int32 (le_number (bytes_at 4 storage)))
deserialize_from storage timestamp =
    guard (leb 4 (length storage)) undefined_behaviour
    >> make_value timestamp (uint64 (le_number (bytes_at 4 storage)))
deserialize_from storage varchar =
    guard (leb 4 (length storage)) undefined_behaviour
    >> read_varchar (le_number (bytes_at 4 storage)) (skip 4 storage)
deserialize_from storage invalid = err runtime
deserialize_from storage (unnamed _) = err undefined_behaviour

-- The `std::get` of `ToString`.
unfoldable pub print_val : TypeId → Val → Result (Unit {0})
print_val boolean (int8 n) = ok tt
print_val integer (int32 n) = ok tt
print_val timestamp (uint64 n) = ok tt
print_val varchar (string s) = ok tt
print_val boolean _ = err bad_variant_access
print_val integer _ = err bad_variant_access
print_val timestamp _ = err bad_variant_access
print_val varchar _ = err bad_variant_access
print_val invalid _ = err runtime
print_val (unnamed _) _ = err undefined_behaviour

-- What `ToString` ends in, which takes the value for one of its type.
unfoldable pub to_string : Value → Result (Unit {0})
unfolding print_val
to_string v = print_val v.type_id v.value

-- The `std::get` of `Serialize` and what it writes.
unfoldable pub write_val : TypeId → Val → Write
unfolding write_number write_string
write_val boolean (int8 n) = write_number 1 n
write_val integer (int32 n) = write_number 4 n
write_val timestamp (uint64 n) = write_number 8 n
write_val varchar (string s) = write_string s
write_val boolean _ = err bad_variant_access
write_val integer _ = err bad_variant_access
write_val timestamp _ = err bad_variant_access
write_val varchar _ = err bad_variant_access
write_val invalid _ = err runtime
write_val (unnamed _) _ = err not_implemented

unfoldable pub serialize_value : Value → Write
unfolding ◌then◌ write_property write_type write_bool write_val
serialize_value v =
    write_property 100 (write_type v.type_id)
    then write_property 101 (write_bool v.is_null)
    then (elim (v.is_null) [
      | true ↦ ok []
      | false ↦ write_property 102 (write_val v.type_id v.value)
    ])

unfoldable pub read_val : TypeId → Read Val
unfolding read_property read_primitive read_string
read_val boolean = read_property 102 (read_primitive 1) >>= λ n. return (int8 n)
read_val integer = read_property 102 (read_primitive 4) >>= λ n. return (int32 n)
read_val timestamp = read_property 102 (read_primitive 8) >>= λ n. return (uint64 n)
read_val varchar = read_property 102 read_string >>= λ s. return (string s)
read_val invalid = throw runtime
read_val (unnamed _) = throw not_implemented

abbrev pub some_value : TypeId → Val → Value
some_value type v = record { type_id = type; value = v; is_null = false }

unfoldable pub read_unless_null : TypeId → Bool → Read Value
unfolding read_val
read_unless_null type true = return (default_value type)
read_unless_null type false = read_val type >>= λ v. return (some_value type v)

unfoldable pub deserialize_value : Read Value
unfolding read_property read_type read_bool read_unless_null
deserialize_value = read_property 100 read_type >>= λ type.
    read_property 101 read_bool >>= λ null. read_unless_null type null
