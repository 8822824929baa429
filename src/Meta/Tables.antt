-- ===== src/Meta/Tables.antt =====
-- Names and numbers of the tables of the catalog (Catalog), and the catalog with one table more.
use gavin_db.Prelude.{
  ℕ, ◌^◌, ◌<◌, ◌≡◌, refl, ap, sym, ◌∙◌, true, false, ◌==◌, ==_iff, [], ◌∷◌, length, none, some,
  Bool-cases, Option-cases, inl, inr, arith,
}
use mathlib.Core.Option.{some-injective, none-ne-some}
use gavin_db.Prelude.Maps.{name_eq, name_eq_iff, find, emplace, emplace_new, find_here, find_there}
use gavin_db.Meta.Columns.{Schema}
use gavin_db.Meta.Stored.{TableMeta}
use gavin_db.Meta.Catalog.{Name, Catalog, new_table_meta, next_oid, add_table}

abbrev pub NamesTables : Catalog → Type 0
NamesTables c =
    (table_name : Name) (oid : ℕ)
    → find name_eq c.table_names table_name ≡ some oid
    → (meta : TableMeta) × (find ◌==◌ c.tables oid ≡ some meta)
      × (meta.name ≡ table_name)
      × (meta.table_oid ≡ oid)

abbrev pub NumbersTables : Catalog → Type 0
NumbersTables c =
    (oid : ℕ) (meta : TableMeta)
    → find ◌==◌ c.tables oid ≡ some meta
    → (oid < length c.tables) × (find name_eq c.table_names meta.name ≡ some oid)

-- Names and numbers of the tables agree, and the numbers are those below the number of tables.
unfoldable pub IsCatalog : Catalog → Type 0
IsCatalog c = NamesTables c × NumbersTables c

NumbersTables-fresh : (c : Catalog) → NumbersTables c → find ◌==◌ c.tables (length c.tables) ≡ none
NumbersTables-fresh c numbers = elim (Option-cases (find ◌==◌ c.tables (length c.tables))) [
  | inl absent ↦ absent
  | inr (meta, e) ↦ let (below, _) = numbers (length c.tables) meta e in absurd (omega arith)
]

-- A catalog with one table more.
abbrev pub extended : Catalog → Name → Schema → Catalog
extended c table_name schema = record c {
  tables = (length c.tables, new_table_meta schema table_name (length c.tables)) ∷ c.tables;
  index_names = emplace name_eq c.index_names table_name [];
  table_names = (table_name, length c.tables) ∷ c.table_names;
}

pub add_table_lem :
    (c : Catalog) (table_name : Name) (schema : Schema)
    → IsCatalog c
    → length c.tables < 2 ^ 32
    → find name_eq c.table_names table_name ≡ none
    → add_table c table_name schema ≡ extended c table_name schema
unfolding add_table IsCatalog
add_table_lem c table_name schema (names, numbers) small absent =
    let oid : (next_oid c ≡ length c.tables) = omega arith in
    ap
      (λ n. record c {
        tables = emplace ◌==◌ c.tables n (new_table_meta schema table_name n);
        index_names = emplace name_eq c.index_names table_name [];
        table_names = emplace name_eq c.table_names table_name n;
      })
      oid
    ∙ ap
        (λ ts. record c {
          tables = ts;
          index_names = emplace name_eq c.index_names table_name [];
          table_names = emplace name_eq c.table_names table_name (length c.tables);
        })
        (emplace_new ◌==◌ c.tables (length c.tables)
          (new_table_meta schema table_name (length c.tables)) (NumbersTables-fresh c numbers))
    ∙ ap
        (λ ns. record c {
          tables = (length c.tables, new_table_meta schema table_name (length c.tables)) ∷ c.tables;
          index_names = emplace name_eq c.index_names table_name [];
          table_names = ns;
        })
        (emplace_new name_eq c.table_names table_name (length c.tables) absent)

pub same_name : (n : Name) → name_eq n n ≡ true
same_name n = (name_eq_iff n n).1 refl

pub same_number : (n : ℕ) → (n == n) ≡ true
same_number n = ground arith

other_number : (a b : ℕ) → a < b → (a == b) ≡ false
other_number a b h = ground arith

-- What an older table is found under stays in the longer map.
pub find-extended :
    (c : Catalog) (table_name : Name) (schema : Schema) (oid : ℕ) (meta : TableMeta)
    → NumbersTables c
    → find ◌==◌ c.tables oid ≡ some meta
    → find ◌==◌ (extended c table_name schema).tables oid ≡ some meta
find-extended c table_name schema oid meta numbers e =
    let (below, _) = numbers oid meta e in
    find_there ◌==◌ c.tables oid (length c.tables)
      (new_table_meta schema table_name (length c.tables))
      (other_number oid (length c.tables) below)
    ∙ e

pub extended-NamesTables :
    (c : Catalog) (table_name : Name) (schema : Schema)
    → IsCatalog c
    → NamesTables (extended c table_name schema)
unfolding IsCatalog
extended-NamesTables c table_name schema (names, numbers) n oid e =
    elim (Bool-cases (name_eq n table_name)) [
      | inl same ↦
          let here = find_here name_eq c.table_names n table_name (length c.tables) same in
          let is_oid : (length c.tables ≡ oid) =
            some-injective (length c.tables) oid (sym here ∙ e) in
          (
            new_table_meta schema table_name (length c.tables),
            find_here ◌==◌ c.tables oid (length c.tables)
                (new_table_meta schema table_name (length c.tables))
                ((==_iff oid (length c.tables)).1 (sym is_oid)),
            sym ((name_eq_iff n table_name).0 same),
            is_oid,
          )
      | inr differs ↦
          let (meta, stored, named, numbered) =
            names n oid
              (sym (find_there name_eq c.table_names n table_name (length c.tables) differs) ∙ e) in
          (meta, find-extended c table_name schema oid meta numbers stored, named, numbered)
    ]

taken_name :
    (c : Catalog) (table_name n : Name) (oid : ℕ)
    → find name_eq c.table_names table_name ≡ none
    → find name_eq c.table_names n ≡ some oid
    → name_eq n table_name ≡ false
taken_name c table_name n oid absent named = elim (Bool-cases (name_eq n table_name)) [
  | inl same ↦ absurd (
      none-ne-some oid (
        sym absent
        ∙ ap (find name_eq c.table_names) (sym ((name_eq_iff n table_name).0 same))
        ∙ named))
  | inr differs ↦ differs
]

pub extended-NumbersTables :
    (c : Catalog) (table_name : Name) (schema : Schema)
    → IsCatalog c
    → find name_eq c.table_names table_name ≡ none
    → NumbersTables (extended c table_name schema)
unfolding IsCatalog
extended-NumbersTables c table_name schema (names, numbers) absent oid meta e =
    elim (Bool-cases (oid == length c.tables)) [
      | inl same ↦
          let is_oid = (==_iff oid (length c.tables)).0 same in
          let is_new : (new_table_meta schema table_name (length c.tables) ≡ meta) =
            some-injective (new_table_meta schema table_name (length c.tables)) meta (
              sym (
                find_here ◌==◌ c.tables oid (length c.tables)
                  (new_table_meta schema table_name (length c.tables)) same)
              ∙ e) in
          (
            omega (arith, is_oid),
            ap (λ (m : TableMeta). find name_eq (extended c table_name schema).table_names m.name)
                  (sym is_new)
                ∙ find_here name_eq c.table_names table_name table_name (length c.tables)
                    (same_name table_name)
                ∙ ap some (sym is_oid),
          )
      | inr differs ↦
          let (below, named) = numbers oid meta (
            sym (
              find_there ◌==◌ c.tables oid (length c.tables)
                (new_table_meta schema table_name (length c.tables)) differs)
            ∙ e) in
          (
            omega (arith, below),
            find_there name_eq c.table_names meta.name table_name (length c.tables)
                  (taken_name c table_name meta.name oid absent named)
                ∙ named,
          )
    ]
