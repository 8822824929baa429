-- ===== src/Serializer/Optional.antt =====
-- Properties that are left out when they have their default (Maps): the reader looks at the next field,
-- and holds it back when it is another one. They are followed by a field that is always there.
use gavin_db.Prelude.{
  ℕ, ◌<◌, ◌≡◌, refl, ap, ◌∙◌, Bool, true, false, List, [], ◌++◌, append_assoc, none, some, Result,
  ok, err, ◌⊎◌, inl, inr, ◌==◌, arith,
}
use gavin_db.Serializer.Reader.{
  Reader, Read, reader, ◌>>=◌, return, le_bytes, next-ok, read_primitive-le_bytes,
}
use gavin_db.Serializer.Format.{
  Write, ◌then◌, terminator, write_property, next_field, peek_field, expect, on_property_begin,
  on_optional_property_begin, read_property, read_property_with_default,
}
use gavin_db.Serializer.RoundTrip.{Kept, kept, then-ok, begin_property-ok, expect-same}
use gavin_db.Serializer.Maps.{write_property_with_default}

-- A reader that has looked at the field and holds it back.
abbrev held : ℕ → ℕ → List ℕ → Reader
held level field rest = record { nesting_level = level; buffered_field = some field; input = rest }

-- The field comes next, held back or not.
abbrev pub StandsAt : Reader → ℕ → ℕ → List ℕ → Type 0
StandsAt r level field rest =
    (r ≡ reader level (le_bytes 2 field ++ rest)) ⊎ (r ≡ held level field rest)

-- The call writes bytes that begin with a field above `low`, and reading them gives `a`, whatever follows.
pub data KeptFrom {A : Type 0} (low : ℕ) (w : Write) (read : Read A) (a : A) : Type 0 where
  kept_from :
      (first : ℕ) (bytes : List ℕ)
      → low < first
      → first < terminator
      → w ≡ ok (le_bytes 2 first ++ bytes)
      → ((level : ℕ) (rest : List ℕ) (r : Reader)
          → StandsAt r level first (bytes ++ rest)
          → read r ≡ ok (a, reader level rest))
      → KeptFrom low w read a

next_field-StandsAt :
    (r : Reader) (level field : ℕ) (rest : List ℕ)
    → field < terminator
    → StandsAt r level field rest
    → next_field r ≡ ok (field, reader level rest)
unfolding next_field
next_field-StandsAt r level field rest h (inl e) =
    ap next_field e ∙ read_primitive-le_bytes 2 level field rest (omega arith)
next_field-StandsAt r level field rest h (inr e) = ap next_field e

peek_field-StandsAt :
    (r : Reader) (level field : ℕ) (rest : List ℕ)
    → field < terminator
    → StandsAt r level field rest
    → peek_field r ≡ ok (field, held level field rest)
unfolding peek_field
peek_field-StandsAt r level field rest h (inl e) =
    ap peek_field e
    ∙ ap
        (λ (o : Result (ℕ × Reader)). elim o [
          | err e ↦ err e
          | ok (found, r') ↦ ok (found, record r' { buffered_field = some found })
        ])
        (read_primitive-le_bytes 2 level field rest (omega arith))
peek_field-StandsAt r level field rest h (inr e) = ap peek_field e

same_field : (n : ℕ) → (n == n) ≡ true
same_field n = ground arith

later_field : (a b : ℕ) → a < b → (b == a) ≡ false
later_field a b h = ground arith

-- What `OnOptionalPropertyBegin` answers, by whether the field that is found is the one.
abbrev answer : ℕ → ℕ → List ℕ → Bool → Result (Bool × Reader)
answer level found rest b = elim b [
  | true ↦ ok (true, reader level rest)
  | false ↦ ok (false, held level found rest)
]

on_optional_property_begin-StandsAt :
    (field : ℕ) (r : Reader) (level found : ℕ) (rest : List ℕ)
    → found < terminator
    → StandsAt r level found rest
    → on_optional_property_begin field r ≡ answer level found rest (found == field)
unfolding on_optional_property_begin
on_optional_property_begin-StandsAt field r level found rest h s =
    ap
      (λ (o : Result (ℕ × Reader)). elim o [
        | err e ↦ err e
        | ok (f, r') ↦ elim (f == field) [
          | true ↦ ok (true, record r' { buffered_field = none })
          | false ↦ ok (false, r')
        ]
      ])
      (peek_field-StandsAt r level found rest h s)

-- The last field, which is always written.
pub KeptFrom-property :
    {A : Type 0} (low field : ℕ) {w : Write} (read : Read A) {a : A}
    → low < field
    → field < terminator
    → Kept w read a
    → KeptFrom low (write_property field w) (read_property field read) a
unfolding write_property read_property on_property_begin
KeptFrom-property low field read above h (kept bytes e f) =
    kept_from field bytes above h (then-ok (begin_property-ok field h) e) (λ level rest r s.
      next-ok (next_field >>= expect field) (λ _. read) r
        (next-ok next_field (expect field) r (next_field-StandsAt r level field (bytes ++ rest) h s)
          ∙ expect-same field (reader level (bytes ++ rest)))
      ∙ f level rest)

-- A field that has its default is left out.
pub KeptFrom-default :
    {A B : Type 0} (low field : ℕ) (value : Write) {w : Write} (read : Read A) (k : A → Read B)
    {a : A} {b : B}
    → low < field
    → KeptFrom field w (k a) b
    → KeptFrom low
        (write_property_with_default true field value then w)
        (read_property_with_default field read a >>= k)
        b
unfolding write_property_with_default read_property_with_default ◌then◌
KeptFrom-default low field value read k {a} above (kept_from first bytes later h e f) =
    kept_from first bytes (omega arith) h (then-ok {xs = []} refl e) (λ level rest r s.
      next-ok (read_property_with_default field read a) k r (
        next-ok (on_optional_property_begin field)
          (λ present. elim present [ true ↦ read | false ↦ return a ]) r
          (on_optional_property_begin-StandsAt field r level first (bytes ++ rest) h s
            ∙ ap (answer level first (bytes ++ rest)) (later_field field first later)))
      ∙ f level rest (held level first (bytes ++ rest)) (inr refl))

-- A field that has another value is written.
pub KeptFrom-present :
    {A B : Type 0} (low field : ℕ) {v w : Write} (read : Read A) (default : A) (k : A → Read B)
    {a : A} {b : B}
    → low < field
    → field < terminator
    → Kept v read a
    → KeptFrom field w (k a) b
    → KeptFrom low
        (write_property_with_default false field v then w)
        (read_property_with_default field read default >>= k)
        b
unfolding write_property_with_default write_property read_property_with_default
KeptFrom-present low field read default k {a} above small (kept xs e f)
      (kept_from first bytes later h g l) =
    kept_from field (xs ++ (le_bytes 2 first ++ bytes)) above small
      (then-ok (then-ok (begin_property-ok field small) e) g
        ∙ ap ok (append_assoc (le_bytes 2 field) xs (le_bytes 2 first ++ bytes)))
      (λ level rest r s.
        next-ok (read_property_with_default field read default) k r (
          next-ok (on_optional_property_begin field)
            (λ present. elim present [ true ↦ read | false ↦ return default ]) r
            (on_optional_property_begin-StandsAt field r level field
                ((xs ++ (le_bytes 2 first ++ bytes)) ++ rest) small s
              ∙ ap (answer level field ((xs ++ (le_bytes 2 first ++ bytes)) ++ rest))
                  (same_field field))
          ∙ ap (λ i. read (reader level i)) (append_assoc xs (le_bytes 2 first ++ bytes) rest)
          ∙ f level ((le_bytes 2 first ++ bytes) ++ rest))
        ∙ ap (λ i. k a (reader level i)) (append_assoc (le_bytes 2 first) bytes rest)
        ∙ l level rest (reader level (le_bytes 2 first ++ (bytes ++ rest))) (inl refl))

-- What follows a read and reads no more.
pub KeptFrom-then :
    {A B : Type 0} (low : ℕ) {w : Write} (read : Read A) (f : A → Read B) {a : A} {b : B}
    → KeptFrom low w read a
    → ((r : Reader) → f a r ≡ ok (b, r))
    → KeptFrom low w (read >>= f) b
KeptFrom-then low read f (kept_from first bytes above h e g) done =
    kept_from first bytes above h e
      (λ level rest r s. next-ok read f r (g level rest r s) ∙ done (reader level rest))
