-- ===== src/Query/Tables/Keyed.antt =====
-- A table with a primary key (Tables).
use gavin_db.Prelude.{
  ℕ, ◌^◌, ◌<◌, ◌≡◌, ap, sym, ◌∙◌, false, ◌==◌, List, [], ◌∷◌, ◌++◌, length, Option, none, some,
  Result, ok, err, ◌>>=◌, runtime, arith, Option-cases, inl, inr,
}
use gavin_db.Prelude.Maps.{name_eq, find, find_here, find_there}
use gavin_db.Meta.Columns.{Column, Schema, schema_of}
use gavin_db.Meta.Stored.{TableMeta}
use gavin_db.Meta.Catalog.{Name, Catalog, Catalogs, new_table_meta, get_table_by_name}
use gavin_db.Meta.Tables.{IsCatalog, extended, same_name, same_number}
use gavin_db.Meta.CreateTable.{create_table-extended, get_table-found, get_table-absent}
use gavin_db.Meta.Indexes.{get_comparator}
use gavin_db.Query.Statements.{CreateStatement}
use gavin_db.Query.Tables.{find_column, key_suffix, add_key, create_with, handle_create_statement}
use gavin_db.Query.Tables.KeyIndex.{
  table_with_index, key_index, keyed, with_table, create_index-added,
}

older_oid : (oid n : ℕ) → oid < n → (oid == n) ≡ false
older_oid oid n h = ground arith

-- The tables of other names are not touched.
get_table-keyed :
    (index_id : ℕ) (schema : Schema) (table_name other : Name) (col : Column) (c : Catalog)
    → IsCatalog c
    → name_eq other table_name ≡ false
    → get_table_by_name (keyed index_id schema table_name col c) other ≡ get_table_by_name c other
unfolding IsCatalog
get_table-keyed index_id schema table_name other col c (names, numbers) differs =
    let there = find_there name_eq c.table_names other table_name (length c.tables) differs in
    let table : TableMeta = table_with_index schema table_name (length c.tables) in
    elim (Option-cases (find name_eq c.table_names other)) [
      | inl absent ↦
          get_table-absent (keyed index_id schema table_name col c) c other (there ∙ absent) absent
      | inr (oid, e) ↦
          let (meta, stored, _, _) = names other oid e in
          get_table-found (keyed index_id schema table_name col c) other oid meta (there ∙ e) (
            find_there ◌==◌ c.tables oid (length c.tables) table
              (older_oid oid (length c.tables) ((numbers oid meta stored).0))
            ∙ stored)
          ∙ sym (get_table-found c other oid meta e stored)
    ]

-- What the catalogs have of a table with a primary key that has been made.
abbrev pub Keyed : ℕ → Schema → Name → Column → Catalogs → Catalogs → Type 0
Keyed index_id schema table_name col c after =
    (get_table_by_name after.memory table_name
      ≡ ok (table_with_index schema table_name (length c.memory.tables)))
    × (find name_eq after.memory.index_names table_name
        ≡ some ((table_name ++ key_suffix, length c.memory.indexes) ∷ []))
    × (find ◌==◌ after.memory.indexes (length c.memory.indexes)
        ≡ some (key_index index_id table_name (length c.memory.tables) col))
    × ((other : Name)
        → name_eq other table_name ≡ false
        → get_table_by_name after.memory other ≡ get_table_by_name c.memory other)
    × (get_table_by_name after.file table_name
        ≡ ok (new_table_meta schema table_name (length c.memory.tables)))
    × (find ◌==◌ after.file.indexes (length c.memory.indexes) ≡ none)

create_with-keyed :
    (index_id : ℕ) (table_name : Name) (cols : List Column) (schema : Schema) (key : Name)
    (col : Column) (c : Catalogs)
    → IsCatalog c.memory
    → length c.memory.tables < 2 ^ 31
    → length c.memory.indexes < 2 ^ 31
    → find ◌==◌ c.memory.indexes (length c.memory.indexes) ≡ none
    → find name_eq c.memory.table_names table_name ≡ none
    → find name_eq c.memory.index_names table_name ≡ none
    → find_column schema.columns key ≡ some col
    → get_comparator col.column_type ≡ ok tt
    → create_with index_id
        (ok tt)
        record { table_name = table_name; columns = cols; primary_key = key ∷ [] }
        c
        schema
      ≡ ok (record (with_table schema table_name c) {
        memory = keyed index_id schema table_name col c.memory;
      })
unfolding create_with add_key
create_with-keyed index_id table_name cols schema key col c h small few fresh absent unnamed found
      known =
    let stmt : CreateStatement = record {
      table_name = table_name;
      columns = cols;
      primary_key = key ∷ [];
    } in
    ap
      (λ (r : Option ℕ × Catalogs). elim (r.0) as (λ _. Result Catalogs) [
        | none ↦ get_table_by_name r.1.memory table_name >>= λ _. err runtime
        | some _ ↦ add_key index_id (ok tt) stmt schema.columns r.1
      ])
      (create_table-extended c table_name schema h (omega arith) absent)
    ∙ rw (found, add_key)
        (ap
          (λ (r : Result (Option ℕ × Catalogs)). r >>= λ (index_oid, after).
            elim index_oid as (λ _. Result Catalogs) [ none ↦ err runtime | some _ ↦ ok after ])
          (create_index-added index_id schema table_name col c small few fresh unnamed known))

-- A CREATE TABLE with a primary key that is one of its columns, under a new name, in a catalog of fewer than 2 ^ 31 tables
-- and indexes, with a key of a type that the index can compare and a pool that has a frame for the header page, whose names and numbers agree, and whose next index number is new: the table is found under its name, with
-- page 0 of its file taken, and the index of the key under its own, with page 0 as its header page; under every other name
-- the table is found that was found before. The catalog's file has the table without a page, and not the index.
pub handle_create_statement-Keyed :
    (index_id : ℕ) (table_name : Name) (cols : List Column) (schema : Schema) (key : Name)
    (col : Column) (c : Catalogs)
    → IsCatalog c.memory
    → length c.memory.tables < 2 ^ 31
    → length c.memory.indexes < 2 ^ 31
    → find ◌==◌ c.memory.indexes (length c.memory.indexes) ≡ none
    → find name_eq c.memory.table_names table_name ≡ none
    → find name_eq c.memory.index_names table_name ≡ none
    → schema_of cols ≡ ok schema
    → find_column schema.columns key ≡ some col
    → get_comparator col.column_type ≡ ok tt
    → (after : Catalogs) × (handle_create_statement index_id
          (ok tt)
          record { table_name = table_name; columns = cols; primary_key = key ∷ [] }
          c
        ≡ ok after)
      × Keyed index_id schema table_name col c after
unfolding handle_create_statement add_key
handle_create_statement-Keyed index_id table_name cols schema key col c h small few fresh absent
      unnamed laid found known =
    let n : ℕ = length c.memory.tables in
    let m : ℕ = length c.memory.indexes in
    (
      record (with_table schema table_name c) {
        memory = keyed index_id schema table_name col c.memory;
      },
      ap
            (λ r.
              r
              >>= create_with index_id (ok tt)
                  record { table_name = table_name; columns = cols; primary_key = key ∷ [] } c)
            laid
          ∙ create_with-keyed index_id table_name cols schema key col c h small few fresh absent
              unnamed found known,
      (
        get_table-found (keyed index_id schema table_name col c.memory) table_name n
            (table_with_index schema table_name n)
            (find_here name_eq c.memory.table_names table_name table_name n (same_name table_name))
            (find_here ◌==◌ c.memory.tables n n (table_with_index schema table_name n)
              (same_number n)),
        find_here name_eq c.memory.index_names table_name table_name
            ((table_name ++ key_suffix, m) ∷ []) (same_name table_name),
        find_here ◌==◌ c.memory.indexes m m (key_index index_id table_name n col) (same_number m),
        λ other differs. get_table-keyed index_id schema table_name other col c.memory h differs,
        get_table-found (extended c.memory table_name schema) table_name n
            (new_table_meta schema table_name n)
            (find_here name_eq c.memory.table_names table_name table_name n (same_name table_name))
            (find_here ◌==◌ c.memory.tables n n (new_table_meta schema table_name n)
              (same_number n)),
        fresh,
      ),
    )
