-- ===== src/Meta/ValueRoundTrip.antt =====
-- A value can be read back as it is stored (Values).
use gavin_db.Prelude.{ℕ, ◌^◌, ◌<◌, List, [], length, arith, Bool, true, false, ok}
use gavin_db.Serializer.Reader.{read_primitive}
use gavin_db.Serializer.Format.{write_property, read_bool, read_string}
use gavin_db.Serializer.RoundTrip.{
  Kept, Kept-next, Kept-last, Kept-number, Kept-string, Kept-bool, Kept-property, Kept-return,
}
use gavin_db.Meta.Types.{
  TypeId, boolean, integer, timestamp, varchar, read_type, IsNamed, Kept-type,
}
use gavin_db.Meta.Values.{
  Val, int8, int32, uint64, string, Value, default_value, serialize_value, deserialize_value,
  write_val, read_val, read_unless_null, some_value,
}

-- The value is the alternative that its type asks for, and fits it.
pub data Fits : TypeId → Val → Type 0 where
  fits_boolean : (n : ℕ) → n < 256 → Fits boolean (int8 n)
  fits_integer : (n : ℕ) → n < 256 ^ 4 → Fits integer (int32 n)
  fits_timestamp : (n : ℕ) → n < 256 ^ 8 → Fits timestamp (uint64 n)
  fits_varchar : (s : List ℕ) → length s < 256 ^ 4 → Fits varchar (string s)

Kept-val :
    (type : TypeId) (v : Val)
    → Fits type v
    → Kept (write_property 102 (write_val type v)) (read_val type) v
unfolding write_val read_val
Kept-val _ _ (fits_boolean n h) =
    Kept-last _ int8
      (Kept-property 102 (read_primitive 1) (omega arith) (Kept-number 1 n (omega arith)))
Kept-val _ _ (fits_integer n h) =
    Kept-last _ int32 (Kept-property 102 (read_primitive 4) (omega arith) (Kept-number 4 n h))
Kept-val _ _ (fits_timestamp n h) =
    Kept-last _ uint64 (Kept-property 102 (read_primitive 8) (omega arith) (Kept-number 8 n h))
Kept-val _ _ (fits_varchar s h) =
    Kept-last _ string (Kept-property 102 read_string (omega arith) (Kept-string s h))

-- What is read of a stored value.
unfoldable pub restored_value : Value → Value
restored_value v = elim (v.is_null) [ true ↦ default_value v.type_id | false ↦ v ]

Fits-IsNamed : (type : TypeId) (v : Val) → Fits type v → IsNamed type
unfolding IsNamed
Fits-IsNamed _ _ (fits_boolean n h) = tt
Fits-IsNamed _ _ (fits_integer n h) = tt
Fits-IsNamed _ _ (fits_timestamp n h) = tt
Fits-IsNamed _ _ (fits_varchar s h) = tt

Kept-unless_null :
    (type : TypeId) (v : Val) (null : Bool)
    → Fits type v
    → Kept
        (elim null [ true ↦ ok [] | false ↦ write_property 102 (write_val type v) ])
        (read_unless_null type null)
        (restored_value (record { type_id = type; value = v; is_null = null }))
unfolding read_unless_null restored_value
Kept-unless_null type v true h = Kept-return (default_value type)
Kept-unless_null type v false h = Kept-last _ (some_value type) (Kept-val type v h)

-- A value whose alternative is the one of its type and fits it is stored, and read back as it was;
-- of a value that is null, the default value of its type is read, which is not null.
pub Kept-value :
    (v : Value)
    → Fits v.type_id v.value
    → Kept (serialize_value v) deserialize_value (restored_value v)
unfolding serialize_value deserialize_value
Kept-value v h =
    Kept-next _ _
      (Kept-property 100 read_type (omega arith)
        (Kept-type v.type_id (Fits-IsNamed v.type_id v.value h)))
      (Kept-next _ _ (Kept-property 101 read_bool (omega arith) (Kept-bool v.is_null))
        (Kept-unless_null v.type_id v.value v.is_null h))
