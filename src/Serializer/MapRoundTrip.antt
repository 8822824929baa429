-- ===== src/Serializer/MapRoundTrip.antt =====
-- What is written of a map, and of properties that can be left out (Maps), can be read back.
use gavin_db.Prelude.{
  ◌^◌, ◌<◌, ◌≡◌, refl, ap, sym, ◌∙◌, Bool, false, List, [], ◌∷◌, ◌++◌, length, map, append_assoc,
  append-nil, Option, none, some, ok, inl, inr, arith, Bool-cases,
}
use mathlib.Core.Path.{subst}
use mathlib.Core.Option.{none-ne-some}
use gavin_db.Prelude.Maps.{find, put, find_here, find_there}
use gavin_db.Serializer.Reader.{Read, reader, ◌>>=◌, return, read_primitive, next-ok}
use gavin_db.Serializer.Format.{
  Write, ◌then◌, write_property, write_object, write_items, write_vector, write_nullable,
  read_nullable,
}
use gavin_db.Serializer.RoundTrip.{
  Kept, kept, Kept-return, Kept-next, Kept-last, Kept-number, Kept-property, Kept-object,
  Kept-pointer, Every,
}
use gavin_db.Serializer.Maps.{
  write_entry, write_map, read_entry, read_entries, read_map, pointee, read_pointer,
}

-- No two entries have keys that are the same.
unfoldable pub Distinct : {K V : Type 0} → (K → K → Bool) → List (K × V) → Type 0
unfolding Every
Distinct same [] = Unit
Distinct same ((k, v) ∷ entries) = Every (λ e. same e.0 k ≡ false) entries × Distinct same entries

find-rest :
    {K V : Type 0} (same : K → K → Bool) (entries : List (K × V)) (key k : K) (u : V)
    → find same ((key, u) ∷ entries) k ≡ none
    → (same k key ≡ false) × (find same entries k ≡ none)
find-rest same entries key k u h = elim (Bool-cases (same k key)) [
  | inl here ↦ absurd (none-ne-some u (sym h ∙ find_here same entries k key u here))
  | inr there ↦ (there, sym (find_there same entries k key u there) ∙ h)
]

put-absent :
    {K V : Type 0} (same : K → K → Bool) (entries : List (K × V)) (k : K) (v : V)
    → find same entries k ≡ none
    → put same entries k v ≡ entries ++ ((k, v) ∷ [])
unfolding put
put-absent same [] k v h = refl
put-absent same ((key, u) ∷ entries) k v h =
    let (there, absent) = find-rest same entries key k u h in
    rw (there, put) (ap (λ l. (key, u) ∷ l) (put-absent same entries k v absent))

find-append :
    {K V : Type 0} (same : K → K → Bool) (entries : List (K × V)) (k key : K) (v : V)
    → find same entries key ≡ none
    → same key k ≡ false
    → find same (entries ++ ((k, v) ∷ [])) key ≡ none
unfolding find
find-append same [] k key v h d = rw (d, find)
find-append same ((other, u) ∷ entries) k key v h d =
    let (there, absent) = find-rest same entries other key u h in
    find_there same (entries ++ ((k, v) ∷ [])) key other u there
    ∙ find-append same entries k key v absent d

-- None of the entries has a key that the map has.
abbrev Absent : {K V : Type 0} → (K → K → Bool) → List (K × V) → List (K × V) → Type 0
Absent same entries more = Every (λ e. find same entries e.0 ≡ none) more

Absent-more :
    {K V : Type 0} (same : K → K → Bool) (entries more : List (K × V)) (k : K) (v : V)
    → Absent same entries more
    → Every (λ e. same e.0 k ≡ false) more
    → Absent same (entries ++ ((k, v) ∷ [])) more
unfolding Every
Absent-more same entries [] k v h d = tt
Absent-more same entries ((key, u) ∷ more) k v (absent, h) (differs, d) =
    (find-append same entries k key v absent differs, Absent-more same entries more k v h d)

-- What is read of an entry.
abbrev pub restored_entry : {K V : Type 0} → (V → V) → K × V → K × V
restored_entry restored (k, v) = (k, restored v)

Kept-entry :
    {K V : Type 0} {wk wv : Write} (read_key : Read K) (read_value : Read V) {k : K} {v : V}
    → Kept wk read_key k
    → Kept wv read_value v
    → Kept
        (write_object (write_property 0 wk then write_property 1 wv))
        (read_entry read_key read_value)
        (k, v)
unfolding read_entry
Kept-entry read_key read_value {k} key value = Kept-object _ (
    Kept-next _ _ (Kept-property 0 read_key (omega arith) key)
      (Kept-last _ (λ w. (k, w)) (Kept-property 1 read_value (omega arith) value)))

-- Each key is written so that it is read, and each value so that what is restored of it is read.
abbrev pub EntriesKept :
    {K V : Type 0} → (K → Write) → (V → Write) → Read K → Read V → (V → V) → List (K × V) → Type 0
EntriesKept write_key write_value read_key read_value restored entries =
    Every
      (λ e. Kept (write_key e.0) read_key e.0 × Kept (write_value e.1) read_value (restored e.1))
      entries

Kept-entries :
    {K V : Type 0} (same : K → K → Bool) (write_key : K → Write) (write_value : V → Write)
    (read_key : Read K) (read_value : Read V) (restored : V → V) (entries more : List (K × V))
    → EntriesKept write_key write_value read_key read_value restored more
    → Distinct same more
    → Absent same entries more
    → Kept
        (write_items (write_entry write_key write_value) more)
        (read_entries same (read_entry read_key read_value) (length more) entries)
        (entries ++ map (restored_entry restored) more)
unfolding write_items write_entry read_entries Every Distinct
Kept-entries same wk wv rk rv restored entries [] h d a =
    subst (Kept (ok []) (return entries)) (sym (append-nil entries)) (Kept-return entries)
Kept-entries same wk wv rk rv restored entries ((k, v) ∷ more) ((key, value), h) (differs, d)
      (absent, a) =
    Kept-next (read_entry rk rv)
      (λ (q, w). read_entries same (read_entry rk rv) (length more) (put same entries q w))
      (Kept-entry rk rv key value)
      (subst
        (λ l.
          Kept (write_items (write_entry wk wv) more)
            (read_entries same (read_entry rk rv) (length more) l)
            (entries ++ ((k, restored v) ∷ map (restored_entry restored) more)))
        (sym (put-absent same entries k (restored v) absent))
        (subst
          (Kept (write_items (write_entry wk wv) more) (
            read_entries same (read_entry rk rv) (length more) (entries ++ ((k, restored v) ∷ []))))
          (append_assoc entries ((k, restored v) ∷ []) (map (restored_entry restored) more))
          (Kept-entries same wk wv rk rv restored (entries ++ ((k, restored v) ∷ [])) more h d
            (Absent-more same entries more k (restored v) a differs))))

Absent-nothing : {K V : Type 0} (same : K → K → Bool) (more : List (K × V)) → Absent same [] more
unfolding Every find
Absent-nothing same [] = tt
Absent-nothing same (e ∷ more) = (refl, Absent-nothing same more)

-- A map of distinct keys is read as it was written, what is restored of each value under its key.
pub Kept-map :
    {K V : Type 0} (same : K → K → Bool) (write_key : K → Write) (write_value : V → Write)
    (read_key : Read K) (read_value : Read V) (restored : V → V) (entries : List (K × V))
    → length entries < 256 ^ 8
    → EntriesKept write_key write_value read_key read_value restored entries
    → Distinct same entries
    → Kept
        (write_map write_key write_value entries)
        (read_map same read_key read_value)
        (map (restored_entry restored) entries)
unfolding write_map write_vector read_map
Kept-map same wk wv rk rv restored entries short h d =
    Kept-next (read_primitive 8) (λ size. read_entries same (read_entry rk rv) size [])
      (Kept-number 8 (length entries) short)
      (Kept-entries same wk wv rk rv restored [] entries h d (Absent-nothing same entries))

Kept-pointee :
    {A : Type 0} {w : Write} (read : Read (Option A)) {b : A}
    → Kept w read (some b)
    → Kept w (read >>= pointee) b
unfolding pointee
Kept-pointee read (kept bytes e f) =
    kept bytes e (λ level rest. next-ok read pointee (reader level (bytes ++ rest)) (f level rest))

pub Kept-unique_pointer :
    {A : Type 0} (write : A → Write) (read : Read A) (a : A) {b : A}
    → Kept (write a) read b
    → Kept (write_nullable write (some a)) (read_pointer read) b
unfolding read_pointer pointee
Kept-unique_pointer write read a k = Kept-pointee (read_nullable read) (Kept-pointer write read a k)
