-- ===== src/Meta/CreateTable.antt =====
-- `CreateTable` of src/meta/catalog.cpp (Catalog): the new table is found, and so are the others.
use gavin_db.Prelude.{
  ℕ, ◌^◌, ◌<◌, ◌≡◌, refl, ap, sym, ◌∙◌, false, ◌==◌, length, none, some, ok, Option-cases, inl, inr,
  arith,
}
use gavin_db.Prelude.Maps.{name_eq, find, find_here, find_there}
use gavin_db.Meta.Columns.{Schema}
use gavin_db.Meta.Stored.{TableMeta}
use gavin_db.Meta.Catalog.{
  Name, Catalog, Catalogs, new_table_meta, persist_to_disk, next_oid, add_table, create_table,
  get_table_by_name,
}
use gavin_db.Meta.Tables.{
  IsCatalog, extended, add_table_lem, same_name, same_number, find-extended, extended-NamesTables,
  extended-NumbersTables,
}

-- A table that is found by its name, and any name but a new one.
pub get_table-found :
    (c : Catalog) (n : Name) (oid : ℕ) (meta : TableMeta)
    → find name_eq c.table_names n ≡ some oid
    → find ◌==◌ c.tables oid ≡ some meta
    → get_table_by_name c n ≡ ok meta
unfolding get_table_by_name
get_table-found c n oid meta named stored = rw (named, stored, get_table_by_name)

pub get_table-absent :
    (c d : Catalog) (n : Name)
    → find name_eq c.table_names n ≡ none
    → find name_eq d.table_names n ≡ none
    → get_table_by_name c n ≡ get_table_by_name d n
unfolding get_table_by_name
get_table-absent c d n h k = rw (h, k, get_table_by_name)

pub get_table-extended :
    (c : Catalog) (table_name n : Name) (schema : Schema)
    → IsCatalog c
    → name_eq n table_name ≡ false
    → get_table_by_name (extended c table_name schema) n ≡ get_table_by_name c n
unfolding IsCatalog
get_table-extended c table_name n schema (names, numbers) differs =
    let there = find_there name_eq c.table_names n table_name (length c.tables) differs in
    elim (Option-cases (find name_eq c.table_names n)) [
      | inl absent ↦ get_table-absent (extended c table_name schema) c n (there ∙ absent) absent
      | inr (oid, e) ↦
          let (meta, stored, _, _) = names n oid e in
          get_table-found (extended c table_name schema) n oid meta (there ∙ e)
            (find-extended c table_name schema oid meta numbers stored)
          ∙ sym (get_table-found c n oid meta e stored)
    ]

-- What the catalogs are after a table has been made.
abbrev pub Created : Catalogs → Name → Schema → Catalogs → Type 0
Created c table_name schema after =
    IsCatalog after.memory
    × (after.file ≡ after.memory)
    × (get_table_by_name after.memory table_name
        ≡ ok (new_table_meta schema table_name (length c.memory.tables)))
    × ((n : Name)
        → name_eq n table_name ≡ false
        → get_table_by_name after.memory n ≡ get_table_by_name c.memory n)

extended-Created :
    (c : Catalogs) (table_name : Name) (schema : Schema)
    → IsCatalog c.memory
    → find name_eq c.memory.table_names table_name ≡ none
    → Created c table_name schema
        (persist_to_disk (record c { memory = extended c.memory table_name schema }))
unfolding IsCatalog
extended-Created c table_name schema h absent = (
  (
    extended-NamesTables c.memory table_name schema h,
    extended-NumbersTables c.memory table_name schema h absent,
  ),
  refl,
  get_table-found (extended c.memory table_name schema) table_name (length c.memory.tables)
      (new_table_meta schema table_name (length c.memory.tables))
      (find_here name_eq c.memory.table_names table_name table_name (length c.memory.tables)
        (same_name table_name))
      (find_here ◌==◌ c.memory.tables (length c.memory.tables) (length c.memory.tables)
        (new_table_meta schema table_name (length c.memory.tables))
        (same_number (length c.memory.tables))),
  (λ n differs. get_table-extended c.memory table_name n schema h differs),
)

create_table-absent :
    (c : Catalogs) (table_name : Name) (schema : Schema)
    → find name_eq c.memory.table_names table_name ≡ none
    → create_table table_name schema c ≡ (
      some (next_oid c.memory),
      persist_to_disk (record c { memory = add_table c.memory table_name schema }),
    )
unfolding create_table
create_table-absent c table_name schema absent = rw (absent, create_table)

pub create_table-extended :
    (c : Catalogs) (table_name : Name) (schema : Schema)
    → IsCatalog c.memory
    → length c.memory.tables < 2 ^ 32
    → find name_eq c.memory.table_names table_name ≡ none
    → create_table table_name schema c ≡ (
      some (length c.memory.tables),
      persist_to_disk (record c { memory = extended c.memory table_name schema }),
    )
create_table-extended c table_name schema h small absent =
    let oid : (next_oid c.memory ≡ length c.memory.tables) = omega arith in
    create_table-absent c table_name schema absent
    ∙ ap
        (λ n.
          (some n, persist_to_disk (record c { memory = add_table c.memory table_name schema })))
        oid
    ∙ ap (λ m. (some (length c.memory.tables), persist_to_disk (record c { memory = m })))
        (add_table_lem c.memory table_name schema h small absent)

-- Making a table whose name is new, in a catalog of fewer than 2 ^ 32 tables whose names and numbers agree,
-- gives it the next number and writes the catalog to its file. Names and numbers agree as before, the table
-- is found under its name with its schema, and under every other name what was found there before.
pub create_table-Created :
    (c : Catalogs) (table_name : Name) (schema : Schema)
    → IsCatalog c.memory
    → length c.memory.tables < 2 ^ 32
    → find name_eq c.memory.table_names table_name ≡ none
    → (after : Catalogs) × (create_table table_name schema c
        ≡ (some (length c.memory.tables), after))
      × Created c table_name schema after
create_table-Created c table_name schema h small absent = (
  persist_to_disk (record c { memory = extended c.memory table_name schema }),
  create_table-extended c table_name schema h small absent,
  extended-Created c table_name schema h absent,
)
