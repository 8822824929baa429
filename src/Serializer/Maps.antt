-- ===== src/Serializer/Maps.antt =====
-- Maps (serializer.hpp, deserializer.hpp), as the lists of their entries in the order in which they are
-- visited, and the properties that are left out when they have their default.
use gavin_db.Prelude.{
  ℕ, zero, suc, Bool, true, false, List, [], ◌∷◌, Option, none, some, ok, undefined_behaviour,
}
use gavin_db.Prelude.Maps.{put}
use gavin_db.Serializer.Reader.{Read, ◌>>=◌, return, throw, read_primitive}
use gavin_db.Serializer.Format.{
  Write, ◌then◌, write_property, write_object, write_vector, read_property, read_object,
  read_nullable,
}

-- An entry, as an object of two properties.
unfoldable pub write_entry : {K V : Type 0} → (K → Write) → (V → Write) → K × V → Write
unfolding ◌then◌ write_property write_object
write_entry write_key write_value (k, v) =
    write_object (write_property 0 (write_key k) then write_property 1 (write_value v))

unfoldable pub write_map : {K V : Type 0} → (K → Write) → (V → Write) → List (K × V) → Write
unfolding write_entry write_vector
write_map write_key write_value entries = write_vector (write_entry write_key write_value) entries

unfoldable pub read_entry : {K V : Type 0} → Read K → Read V → Read (K × V)
unfolding read_property read_object
read_entry read_key read_value =
    read_object
      (read_property 0 read_key >>= λ k. read_property 1 read_value >>= λ v. return (k, v))

-- The loop that assigns the entries that are left, on the map so far.
unfoldable pub read_entries :
    {K V : Type 0} → (K → K → Bool) → Read (K × V) → ℕ → List (K × V) → Read (List (K × V))
unfolding put
read_entries same read zero entries = return entries
read_entries same read (suc n) entries =
    read >>= λ (k, v). read_entries same read n (put same entries k v)

unfoldable pub read_map : {K V : Type 0} → (K → K → Bool) → Read K → Read V → Read (List (K × V))
unfolding read_entry read_entries
read_map same read_key read_value =
    read_primitive 8 >>= λ size. read_entries same (read_entry read_key read_value) size []

-- `value == default_value`, where the default is the empty map.
abbrev pub is_empty : {A : Type 0} → List A → Bool
is_empty [] = true
is_empty (_ ∷ _) = false

-- `WritePropertyWithDefault`, for a value that is the default or is not.
unfoldable pub write_property_with_default : Bool → ℕ → Write → Write
unfolding write_property
write_property_with_default true field value = ok []
write_property_with_default false field value = write_property field value

-- What a pointer in a map is taken to point to; no null pointer is ever put there.
unfoldable pub pointee : {A : Type 0} → Option A → Read A
pointee none = throw undefined_behaviour
pointee (some a) = return a

-- A `std::unique_ptr` of a map, to what has a `Deserialize`.
unfoldable pub read_pointer : {A : Type 0} → Read A → Read A
unfolding read_nullable pointee
read_pointer read = read_nullable read >>= pointee
