-- ===== src/Serializer/RoundTrip.antt =====
-- What is written can be read back, for each construct of the format (Format): a read that starts
-- where the written bytes start gives the value and stops where they stop.
use gavin_db.Prelude.{
  ℕ, suc, ◌^◌, ◌<◌, ◌≡◌, refl, ap, ◌∙◌, some, List, [], ◌∷◌, ◌++◌, length, arith, ok, err,
  append_assoc, ◌==◌, assertion, serialization, Bool, true, false, ◌≢◌, map,
}
use gavin_db.Serializer.Reader.{
  Reader, Read, reader, ◌>>=◌, return, le_bytes, read_data, read_primitive, next-ok,
  read_data-append, read_primitive-le_bytes,
}
use gavin_db.Serializer.Format.{
  Write, ◌then◌, terminator, write_number, write_bool, write_string, begin_property, write_property,
  write_object, write_nullable, write_items, write_vector, next_field, on_property_begin,
  read_property, on_object_begin, on_object_end, read_object, read_bool, read_string, as_bool,
  read_chars, expect, leave_object, read_pointee, read_nullable, read_items, read_vector,
}

-- The call writes bytes, and reading them gives `a`, whatever follows them.
pub data Kept {A : Type 0} (w : Write) (read : Read A) (a : A) : Type 0 where
  kept :
      (bytes : List ℕ)
      → w ≡ ok bytes
      → ((level : ℕ) (rest : List ℕ)
          → read (reader level (bytes ++ rest)) ≡ ok (a, reader level rest))
      → Kept w read a

pub then-ok : {v w : Write} {xs ys : List ℕ} → v ≡ ok xs → w ≡ ok ys → (v then w) ≡ ok (xs ++ ys)
unfolding ◌then◌
then-ok h g = rw h (rw g refl)

pub Kept-return : {A : Type 0} (a : A) → Kept (ok []) (return a) a
Kept-return a = kept [] refl (λ level rest. refl)

pub Kept-next :
    {A B : Type 0} {v w : Write} (read : Read A) (k : A → Read B) {a : A} {b : B}
    → Kept v read a
    → Kept w (k a) b
    → Kept (v then w) (read >>= k) b
Kept-next read k (kept xs e f) (kept ys g h) = kept (xs ++ ys) (then-ok e g) (λ level rest.
    ap (λ s. (read >>= k) (reader level s)) (append_assoc xs ys rest)
    ∙ next-ok read k (reader level (xs ++ (ys ++ rest))) (f level (ys ++ rest))
    ∙ h level rest)

pub Kept-last :
    {A B : Type 0} {w : Write} (read : Read A) (f : A → B) {a : A}
    → Kept w read a
    → Kept w (read >>= λ x. return (f x)) (f a)
Kept-last read f (kept xs e g) =
    kept xs e
      (λ level rest. next-ok read (λ x. return (f x)) (reader level (xs ++ rest)) (g level rest))

pub Kept-number :
    (width v : ℕ) → v < 256 ^ width → Kept (write_number width v) (read_primitive width) v
unfolding write_number
Kept-number width v h =
    kept (le_bytes width v) refl (λ level rest. read_primitive-le_bytes width level v rest h)

pub Kept-bool : (b : Bool) → Kept (write_bool b) read_bool b
unfolding write_bool read_bool
Kept-bool false = Kept-last (read_primitive 1) as_bool (Kept-number 1 0 (omega arith))
Kept-bool true = Kept-last (read_primitive 1) as_bool (Kept-number 1 1 (omega arith))

==_same : (n : ℕ) → (n == n) ≡ true
==_same n = ground arith

==_other : {m n : ℕ} → m ≢ n → (m == n) ≡ false
==_other h = ground arith

Kept-chars : (s : List ℕ) → Kept (ok s) (read_chars (length s)) s
unfolding read_chars
Kept-chars [] = Kept-return []
Kept-chars (c ∷ s) = kept (c ∷ s) (refl) (λ level rest.
    ap
      (λ b.
        (elim b as (λ _. Read (List ℕ)) [ true ↦ return [] | false ↦ read_data (length (c ∷ s)) ])
          (reader level ((c ∷ s) ++ rest)))
      (==_other {m = length (c ∷ s)} {n = 0} (λ e. omega (arith, e)))
    ∙ read_data-append level (c ∷ s) rest)

-- A stored string is no longer than its length field can say.
pub Kept-string : (s : List ℕ) → length s < 256 ^ 4 → Kept (write_string s) read_string s
unfolding write_string read_string
Kept-string s h =
    Kept-next (read_primitive 4) read_chars (Kept-number 4 (length s) h) (Kept-chars s)

pub expect-same : (field : ℕ) (r : Reader) → expect field field r ≡ ok (tt, r)
unfolding expect
expect-same field r =
    ap (λ b. elim b [ true ↦ ok (tt, r) | false ↦ err serialization ]) (==_same field)

pub begin_property-ok :
    (field : ℕ) → field < terminator → begin_property field ≡ ok (le_bytes 2 field)
unfolding begin_property write_number
begin_property-ok field h =
    ap (λ b. elim b [ true ↦ err assertion | false ↦ ok (le_bytes 2 field) ])
      (==_other (λ e. omega arith))

next_field-reads :
    (level field : ℕ) (rest : List ℕ)
    → field < 65536
    → next_field (reader level (le_bytes 2 field ++ rest)) ≡ ok (field, reader level rest)
unfolding next_field
next_field-reads level field rest h = read_primitive-le_bytes 2 level field rest (omega arith)

Kept-begin :
    (field : ℕ) → field < terminator → Kept (begin_property field) (on_property_begin field) tt
unfolding on_property_begin
Kept-begin field h = kept (le_bytes 2 field) (begin_property-ok field h) (λ level rest.
    next-ok next_field (expect field) (reader level (le_bytes 2 field ++ rest))
      (next_field-reads level field rest (omega arith))
    ∙ expect-same field (reader level rest))

pub Kept-property :
    {A : Type 0} (field : ℕ) {w : Write} (read : Read A) {a : A}
    → field < terminator
    → Kept w read a
    → Kept (write_property field w) (read_property field read) a
unfolding write_property read_property
Kept-property field read h k =
    Kept-next (on_property_begin field) (λ _. read) (Kept-begin field h) k

on_object_end-reads :
    (level : ℕ) (rest : List ℕ)
    → on_object_end (reader (suc level) (le_bytes 2 terminator ++ rest))
      ≡ ok (tt, reader level rest)
unfolding on_object_end expect leave_object
on_object_end-reads level rest =
    next-ok (next_field >>= expect terminator) (λ _. leave_object)
      (reader (suc level) (le_bytes 2 terminator ++ rest))
      (next-ok next_field (expect terminator) (reader (suc level) (le_bytes 2 terminator ++ rest))
        (next_field-reads (suc level) terminator rest (omega arith)))
    ∙ ap (λ n. ok (tt, reader n rest)) (omega arith)

pub Kept-object :
    {A : Type 0} {w : Write} (read : Read A) {a : A}
    → Kept w read a
    → Kept (write_object w) (read_object read) a
unfolding write_object read_object on_object_begin write_number
Kept-object read {a} (kept xs e f) =
    kept (xs ++ le_bytes 2 terminator) (then-ok e refl) (λ level rest.
      ap (λ s. read_object read (reader level s)) (append_assoc xs (le_bytes 2 terminator) rest)
      ∙ next-ok read _ (reader (suc level) (xs ++ (le_bytes 2 terminator ++ rest)))
          (f (suc level) (le_bytes 2 terminator ++ rest))
      ∙ next-ok on_object_end (λ _. return a) (reader (suc level) (le_bytes 2 terminator ++ rest))
          (on_object_end-reads level rest))

pub Kept-pointer :
    {A : Type 0} (write : A → Write) (read : Read A) (a : A) {b : A}
    → Kept (write a) read b
    → Kept (write_nullable write (some a)) (read_nullable read) (some b)
unfolding write_nullable read_nullable read_pointee
Kept-pointer write read a k =
    Kept-next read_bool (read_pointee read) (Kept-bool true) (Kept-last read some k)

-- Every member of the list has the property.
unfoldable pub Every : {A : Type 0} → (A → Type 0) → List A → Type 0
Every P [] = Unit
Every P (a ∷ rest) = P a × Every P rest

Kept-items :
    {A : Type 0} (write : A → Write) (read : Read A) (restored : A → A) (items : List A)
    → Every (λ a. Kept (write a) read (restored a)) items
    → Kept (write_items write items) (read_items read (length items)) (map restored items)
unfolding write_items read_items Every
Kept-items write read restored [] h = Kept-return []
Kept-items write read restored (a ∷ rest) (k, h) = Kept-next read _ k (
    Kept-last (read_items read (length rest)) (λ l. restored a ∷ l)
      (Kept-items write read restored rest h))

pub Kept-vector :
    {A : Type 0} (write : A → Write) (read : Read A) (restored : A → A) (items : List A)
    → length items < 256 ^ 8
    → Every (λ a. Kept (write a) read (restored a)) items
    → Kept (write_vector write items) (read_vector read) (map restored items)
unfolding write_vector read_vector
Kept-vector write read restored items h k =
    Kept-next (read_primitive 8) (read_items read) (Kept-number 8 (length items) h)
      (Kept-items write read restored items k)
