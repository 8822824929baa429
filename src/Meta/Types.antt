-- ===== src/Meta/Types.antt =====
-- src/include/common/type.hpp
use gavin_db.Prelude.{ℕ, zero, suc, ◌+◌, Bool, true, false, Result, ok, err, runtime, arith}
use gavin_db.Serializer.Format.{Write, write_number}
use gavin_db.Serializer.Reader.{Read, ◌>>=◌, return, read_primitive}
use gavin_db.Serializer.RoundTrip.{Kept, Kept-last, Kept-number}

-- An enum over `uint8_t`; a stored byte can be one that it does not name.
pub data TypeId : Type 0 where
  invalid boolean integer timestamp varchar : TypeId
  unnamed : ℕ → TypeId

unfoldable pub type_code : TypeId → ℕ
type_code invalid = 0
type_code boolean = 1
type_code integer = 2
type_code timestamp = 3
type_code varchar = 4
type_code (unnamed n) = n

-- `static_cast<TypeId>`
abbrev pub as_type : ℕ → TypeId
as_type zero = invalid
as_type (suc zero) = boolean
as_type (suc (suc zero)) = integer
as_type (suc (suc (suc zero))) = timestamp
as_type (suc (suc (suc (suc zero)))) = varchar
as_type (suc (suc (suc (suc (suc n))))) = unnamed (n + 5)

unfoldable pub is_fixed_size : TypeId → Result Bool
is_fixed_size boolean = ok true
is_fixed_size integer = ok true
is_fixed_size timestamp = ok true
is_fixed_size varchar = ok false
is_fixed_size invalid = err runtime
is_fixed_size (unnamed _) = err runtime

unfoldable pub type_size : TypeId → ℕ → Result ℕ
type_size boolean length = ok 1
type_size integer length = ok 4
type_size timestamp length = ok 8
type_size varchar length = ok length
type_size invalid length = err runtime
type_size (unnamed _) length = err runtime

unfoldable pub is_varchar : TypeId → Bool
is_varchar varchar = true
is_varchar _ = false

unfoldable pub write_type : TypeId → Write
unfolding type_code
write_type type = write_number 1 (type_code type)

unfoldable pub read_type : Read TypeId
read_type = read_primitive 1 >>= λ code. return (as_type code)

-- The types that the enum names.
unfoldable pub IsNamed : TypeId → Type 0
IsNamed (unnamed _) = ⊥
IsNamed _ = Unit

pub Kept-type : (type : TypeId) → IsNamed type → Kept (write_type type) read_type type
unfolding write_type read_type IsNamed
Kept-type invalid h = Kept-last (read_primitive 1) as_type (Kept-number 1 0 (omega arith))
Kept-type boolean h = Kept-last (read_primitive 1) as_type (Kept-number 1 1 (omega arith))
Kept-type integer h = Kept-last (read_primitive 1) as_type (Kept-number 1 2 (omega arith))
Kept-type timestamp h = Kept-last (read_primitive 1) as_type (Kept-number 1 3 (omega arith))
Kept-type (unnamed n) h = absurd h
Kept-type varchar h = Kept-last (read_primitive 1) as_type (Kept-number 1 4 (omega arith))
