-- ===== src/Serializer/Reader.antt =====
-- BinaryDeserializer over a stream (binary_deserializer.hpp): the bytes that are left, the field
-- identifier that was looked at and not yet consumed, and the depth of nested objects.
use gavin_db.Prelude.{
  ℕ, zero, suc, ◌+◌, ◌*◌, ◌/◌, ◌%◌, ◌^◌, ◌<◌, ◌≡◌, refl, ap, sym, ◌∙◌, Option, none, List, [], ◌∷◌,
  ◌++◌, length, arith, Result, ok, err, exception, Error,
}
use native.Mathlib.Nat.{pow-suc}

pub record Reader : Type 0 where
  pub nesting_level : ℕ
  pub buffered_field : Option ℕ
  pub input : List ℕ

-- A reader that holds no field identifier back.
abbrev pub reader : ℕ → List ℕ → Reader
reader level bytes = record { nesting_level = level; buffered_field = none; input = bytes }

abbrev pub Read : Type 0 → Type 0
Read A = Reader → Result (A × Reader)

infixl 5 ◌>>=◌
abbrev pub ◌>>=◌ : {A B : Type 0} → Read A → (A → Read B) → Read B
◌>>=◌ m f r = elim (m r) [ err e ↦ err e | ok (a, r') ↦ f a r' ]

infixl 5 ◌>>◌
abbrev pub ◌>>◌ : {B : Type 0} → Read (Unit {0}) → Read B → Read B
m >> k = m >>= λ _. k

abbrev pub return : {A : Type 0} → A → Read A
return a r = ok (a, r)

abbrev pub throw : {A : Type 0} → Error → Read A
throw e r = err e

-- The bytes of a number of `width` bytes, lowest first.
unfoldable pub le_bytes : ℕ → ℕ → List ℕ
le_bytes zero v = []
le_bytes (suc width) v = (v % 256) ∷ le_bytes width (v / 256)

-- `ReadData` of a stream: it throws where the stream ends before.
unfoldable pub take_data : ℕ → List ℕ → Result (List ℕ × List ℕ)
take_data zero input = ok ([], input)
take_data (suc n) [] = err exception
take_data (suc n) (b ∷ input) = elim (take_data n input) [
  | err e ↦ err e
  | ok (xs, rest) ↦ ok (b ∷ xs, rest)
]

unfoldable pub le_number : List ℕ → ℕ
le_number [] = 0
le_number (b ∷ bs) = b + 256 * le_number bs

unfoldable pub read_data : ℕ → Read (List ℕ)
unfolding take_data
read_data n r = elim (take_data n r.input) [
  | err e ↦ err e
  | ok (xs, rest) ↦ ok (xs, record r { input = rest })
]

-- `ReadPrimitive<T>`, with the size of the type.
unfoldable pub read_primitive : ℕ → Read ℕ
unfolding read_data le_number
read_primitive width = do xs ← read_data width; return (le_number xs)

-- A step that ends in a value passes it on.
pub next-ok :
    {A B : Type 0} (m : Read A) (f : A → Read B) (r : Reader) {r' : Reader} {a : A}
    → m r ≡ ok (a, r')
    → (m >>= f) r ≡ f a r'
next-ok m f r h = ap (λ x. elim x [ err e ↦ err e | ok (a, r') ↦ f a r' ]) h

take_data-append : (xs rest : List ℕ) → take_data (length xs) (xs ++ rest) ≡ ok (xs, rest)
unfolding take_data
take_data-append [] rest = refl
take_data-append (x ∷ xs) rest = rw (take_data-append xs rest) refl

pub read_data-append :
    (level : ℕ) (xs rest : List ℕ)
    → read_data (length xs) (reader level (xs ++ rest)) ≡ ok (xs, reader level rest)
unfolding read_data
read_data-append level xs rest = rw (take_data-append xs rest, read_data) refl

read_primitive-append :
    (level : ℕ) (xs rest : List ℕ)
    → read_primitive (length xs) (reader level (xs ++ rest)) ≡ ok (le_number xs, reader level rest)
unfolding read_primitive
read_primitive-append level xs rest =
    next-ok (read_data (length xs)) (λ xs. return (le_number xs)) (reader level (xs ++ rest))
      (read_data-append level xs rest)

pub length-le_bytes : (width v : ℕ) → length (le_bytes width v) ≡ width
unfolding le_bytes
length-le_bytes zero v = refl
length-le_bytes (suc width) v = ap suc (length-le_bytes width (v / 256))

pub le_number-le_bytes : (width v : ℕ) → v < 256 ^ width → le_number (le_bytes width v) ≡ v
unfolding le_number le_bytes
le_number-le_bytes zero v h = omega arith
le_number-le_bytes (suc width) v h =
    omega (arith, le_number-le_bytes width (v / 256) (omega (arith, pow-suc 256 width)))

pub read_primitive-le_bytes :
    (width level v : ℕ) (rest : List ℕ)
    → v < 256 ^ width
    → read_primitive width (reader level (le_bytes width v ++ rest)) ≡ ok (v, reader level rest)
read_primitive-le_bytes width level v rest h =
    ap (λ n. read_primitive n (reader level (le_bytes width v ++ rest)))
      (sym (length-le_bytes width v))
    ∙ read_primitive-append level (le_bytes width v) rest
    ∙ ap (λ n. ok (n, reader level rest)) (le_number-le_bytes width v h)
