-- ===== src/Table/Tuple/Sizes.antt =====
-- The size of a tuple (Tuple): its first part, and what each value that is not inlined takes.
use gavin_db.Prelude.{
  ℕ, suc, ◌+◌, ◌%◌, ◌^◌, ◌<◌, ◌≤◌, ◌≡◌, ap, sym, ◌∙◌, leb, le→leb, Bool, true, false, not, List, [],
  ◌∷◌, length, get_elem?, Option, none, some, ok, err, exception, undefined_behaviour, guard, ◌>>=◌,
  ◌>>◌, if◌then◌else◌, arith,
}
use gavin_db.Meta.Types.{integer, timestamp, varchar, is_varchar, type_size}
use gavin_db.Meta.Values.{
  Val, int8, int32, uint64, string, Value, some_value, storage_size, page_size,
}
use gavin_db.Meta.Columns.{Column, Schema, is_inlined, inline_size, lay_out}
use gavin_db.Meta.SameTypes.{lay_out-returned, lay_out-empty}
use gavin_db.Table.Tuple.{element, add_sizes}

-- The values that a column keeps: a TIMESTAMP in four bytes, a VARCHAR within the column's length.
pub data Suits : Column → Value → Type 0 where
  suits_integer :
      (c : Column) (n : ℕ)
      → c.column_type ≡ integer
      → c.column_length ≡ 4
      → n < 2 ^ 32
      → Suits c (some_value integer (int32 n))
  suits_timestamp :
      (c : Column) (n : ℕ)
      → c.column_type ≡ timestamp
      → c.column_length ≡ 8
      → n < 2 ^ 32
      → Suits c (some_value timestamp (uint64 n))
  suits_varchar :
      (c : Column) (s : List ℕ)
      → c.column_type ≡ varchar
      → length s ≤ c.column_length
      → length s < page_size
      → Suits c (some_value varchar (string s))

-- Each value suits its column.
pub data AllSuit : List Column → List Value → Type 0 where
  none_left : AllSuit [] []
  one_suits :
      (c : Column) (v : Value) (cols : List Column) (values : List Value)
      → Suits c v
      → AllSuit cols values
      → AllSuit (c ∷ cols) (v ∷ values)

-- What the value takes behind the first part: its length and its bytes.
abbrev pub extra_of : Val → ℕ
extra_of (string s) = 4 + length s
extra_of (int8 n) = 0
extra_of (int32 n) = 0
extra_of (uint64 n) = 0

unfoldable pub extras : List Value → ℕ
extras [] = 0
extras (v ∷ values) = extra_of v.value + extras values

-- The places of the columns that are not inlined, from a place on.
unfoldable pub uninlined_from : ℕ → List Column → List ℕ
unfolding is_inlined
uninlined_from index [] = []
uninlined_from index (c ∷ cols) =
    let rest = uninlined_from (suc index) cols in if is_inlined c then rest else (index ∷ rest)

pub lay_out-uninlined :
    (columns : List Column) (offset index : ℕ) (schema : Schema)
    → lay_out offset index columns ≡ ok schema
    → schema.uninlined_columns ≡ uninlined_from index schema.columns
unfolding uninlined_from
lay_out-uninlined [] offset index schema h =
    let made = lay_out-empty offset index schema h in
    ap (λ (s : Schema). s.uninlined_columns) (sym made)
    ∙ ap (λ (s : Schema). uninlined_from index s.columns) made
lay_out-uninlined (c ∷ columns) offset index schema h =
    let (laid, e, made) = lay_out-returned c columns offset index schema h in
    ap (λ (s : Schema). s.uninlined_columns) (sym made)
    ∙ ap (λ l. if is_inlined c then l else (index ∷ l))
        (lay_out-uninlined columns ((offset + inline_size c) % 2 ^ 32) (suc index) laid e)
    ∙ ap (λ (s : Schema). uninlined_from index s.columns) made

pub varchar_inlined : (c : Column) → c.column_type ≡ varchar → is_inlined c ≡ false
unfolding is_inlined is_varchar
varchar_inlined c h = ap (λ t. not (is_varchar t)) h

-- The size of a value that suits, in the loop.
add_sizes_varchar :
    (c : Column) (s : List ℕ) (index size : ℕ) (rest : List ℕ) (values : List Value)
    (schema : Schema)
    → length s ≤ c.column_length
    → length s < page_size
    → size + (4 + length s) < 2 ^ 32
    → get_elem? values index ≡ some (some_value varchar (string s))
    → get_elem? schema.columns index ≡ some c
    → add_sizes values schema (index ∷ rest) size
      ≡ add_sizes values schema rest (size + (4 + length s))
unfolding add_sizes storage_size type_size
add_sizes_varchar c s index size rest values schema fits short small value column =
    ap
      (λ (o : Option Value). (elim o [ none ↦ err undefined_behaviour | some x ↦ ok x ]) >>= λ v.
        storage_size v >>= λ len. element schema.columns index >>= λ col.
        guard (leb (len % 2 ^ 32) col.column_length) exception
        >> add_sizes values schema rest ((size + (4 + len)) % 2 ^ 32))
      value
    ∙ ap
        (λ (o : Option Column).
          (elim o [ none ↦ err undefined_behaviour | some x ↦ ok x ]) >>= λ col.
          guard (leb (length s % 2 ^ 32) col.column_length) exception
          >> add_sizes values schema rest ((size + (4 + length s)) % 2 ^ 32))
        column
    ∙ ap (λ b. guard b exception >> add_sizes values schema rest ((size + (4 + length s)) % 2 ^ 32))
        (le→leb (length s % 2 ^ 32) c.column_length (omega arith))
    ∙ ap (add_sizes values schema rest) (omega arith)

-- The lists are what stands in longer ones from a place on.
abbrev pub StandsAt : {A : Type 0} → List A → ℕ → List A → Type 0
StandsAt all index part = (k : ℕ) → get_elem? all (index + k) ≡ get_elem? part k

StandsAt-tail :
    {A : Type 0} (all : List A) (index : ℕ) (x : A) (part : List A)
    → StandsAt all index (x ∷ part)
    → StandsAt all (suc index) part
StandsAt-tail all index x part h k = ap (get_elem? all) (omega arith) ∙ h (suc k)

StandsAt-head :
    {A : Type 0} (all : List A) (index : ℕ) (x : A) (part : List A)
    → StandsAt all index (x ∷ part)
    → get_elem? all index ≡ some x
StandsAt-head all index x part h = ap (get_elem? all) (omega arith) ∙ h 0

uninlined_from-step :
    (index : ℕ) (c : Column) (cols : List Column) (b : Bool)
    → is_inlined c ≡ b
    → uninlined_from index (c ∷ cols)
      ≡ (if b then uninlined_from (suc index) cols else (index ∷ uninlined_from (suc index) cols))
unfolding uninlined_from
uninlined_from-step index c cols b h =
    ap
      (λ d.
        if d then uninlined_from (suc index) cols else (index ∷ uninlined_from (suc index) cols))
      h

pub integer_inlined : (c : Column) → c.column_type ≡ integer → is_inlined c ≡ true
unfolding is_inlined is_varchar
integer_inlined c h = ap (λ t. not (is_varchar t)) h

pub timestamp_inlined : (c : Column) → c.column_type ≡ timestamp → is_inlined c ≡ true
unfolding is_inlined is_varchar
timestamp_inlined c h = ap (λ t. not (is_varchar t)) h

sizes_empty :
    (index size : ℕ) (values : List Value) (schema : Schema)
    → add_sizes values schema (uninlined_from index []) size ≡ ok (size + 0)
unfolding add_sizes uninlined_from
sizes_empty index size values schema = ap ok (omega arith)

-- The loop over values that suit their columns adds what each takes behind the first part.
pub add_sizes-AllSuit :
    (cols : List Column) (part : List Value) (index size : ℕ) (values : List Value)
    (schema : Schema)
    → AllSuit cols part
    → StandsAt values index part
    → StandsAt schema.columns index cols
    → size + extras part < 2 ^ 32
    → add_sizes values schema (uninlined_from index cols) size ≡ ok (size + extras part)
unfolding extras
add_sizes-AllSuit _ _ index size values schema none_left hv hc small =
    sizes_empty index size values schema
add_sizes-AllSuit _ _ index size values schema
      (one_suits c _ cols part (suits_integer _ n ty len h) suit) hv hc small =
    ap (λ l. add_sizes values schema l size)
      (uninlined_from-step index c cols true (integer_inlined c ty))
    ∙ add_sizes-AllSuit cols part (suc index) size values schema suit
        (StandsAt-tail values index (some_value integer (int32 n)) part hv)
        (StandsAt-tail schema.columns index c cols hc) (omega arith)
    ∙ ap ok (omega arith)
add_sizes-AllSuit _ _ index size values schema
      (one_suits c _ cols part (suits_timestamp _ n ty len h) suit) hv hc small =
    ap (λ l. add_sizes values schema l size)
      (uninlined_from-step index c cols true (timestamp_inlined c ty))
    ∙ add_sizes-AllSuit cols part (suc index) size values schema suit
        (StandsAt-tail values index (some_value timestamp (uint64 n)) part hv)
        (StandsAt-tail schema.columns index c cols hc) (omega arith)
    ∙ ap ok (omega arith)
add_sizes-AllSuit _ _ index size values schema
      (one_suits c _ cols part (suits_varchar _ s ty fits short) suit) hv hc small =
    ap (λ l. add_sizes values schema l size)
      (uninlined_from-step index c cols false (varchar_inlined c ty))
    ∙ add_sizes_varchar c s index size (uninlined_from (suc index) cols) values schema fits short
        (omega arith) (StandsAt-head values index (some_value varchar (string s)) part hv)
        (StandsAt-head schema.columns index c cols hc)
    ∙ add_sizes-AllSuit cols part (suc index) (size + (4 + length s)) values schema suit
        (StandsAt-tail values index (some_value varchar (string s)) part hv)
        (StandsAt-tail schema.columns index c cols hc) (omega arith)
    ∙ ap ok (omega arith)
