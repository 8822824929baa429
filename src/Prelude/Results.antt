-- ===== src/Prelude/Results.antt =====
-- src/include/common/exception.hpp: the exceptions of the program, those of `std::get`, an assertion that fails, and
-- computations that may end in one.
use mathlib.Core.Path.{◌≡◌, refl}
use mathlib.Core.Logic.{◌⊎◌, inl, inr}
use mathlib.Core.Bool.{Bool, true, false}

pub data Error : Type 0 where
  exception not_implemented serialization io runtime assertion bad_variant_access bad_cast
        out_of_range invalid_argument :
      Error
  -- What C++ leaves undefined, and a loop of the model that is given too few rounds.
  undefined_behaviour out_of_fuel : Error

-- What a call ends in: an exception that leaves the function, or a value.
pub data Result {ℓ} (A : Type ℓ) : Type ℓ where
  err : Error → Result A
  ok : A → Result A

-- `assert(b)`, or `if (!b) throw e`.
abbrev pub guard : Bool → Error → Result (Unit {0})
guard holds e = elim holds [ false ↦ err e | true ↦ ok tt ]

-- An exception leaves the rest of the function undone.
infixl 5 ◌>>=◌
abbrev pub ◌>>=◌ {ℓ κ} : {A : Type ℓ} {B : Type κ} → Result A → (A → Result B) → Result B
err e >>= rest = err e
ok a >>= rest = rest a

infixl 5 ◌>>◌
abbrev pub ◌>>◌ {ℓ} : {B : Type ℓ} → Result (Unit {0}) → Result B → Result B
err e >> rest = err e
ok _ >> rest = rest

pub Result-cases {ℓ} :
    {A : Type ℓ} (r : Result A) → ((a : A) × (r ≡ ok a)) ⊎ ((e : Error) × (r ≡ err e))
Result-cases (ok a) = inl (a, refl)
Result-cases (err e) = inr (e, refl)

-- What a call that returns a value went through.
pub >>=-returned :
    {A B : Type 0} (r : Result A) (rest : A → Result B) (b : B)
    → (r >>= rest) ≡ ok b
    → (a : A) × (r ≡ ok a) × (rest a ≡ ok b)
>>=-returned (err e) rest b h = cc
>>=-returned (ok a) rest b h = (a, refl, h)

pub guard-returned :
    {B : Type 0} (holds : Bool) (e : Error) (r : Result B) (b : B)
    → (guard holds e >> r) ≡ ok b
    → (holds ≡ true) × (r ≡ ok b)
guard-returned true e r b h = (refl, h)
guard-returned false e r b h = cc

pub ok-injective : {A : Type 0} {a b : A} → ◌≡◌ {A = Result A} (ok a) (ok b) → a ≡ b
ok-injective h = cc
