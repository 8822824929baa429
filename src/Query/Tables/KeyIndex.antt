-- ===== src/Query/Tables/KeyIndex.antt =====
-- The index of the primary key in the catalog (src/meta/catalog.cpp).
use gavin_db.Prelude.{
  ℕ, ◌%◌, ◌^◌, ◌<◌, ◌≡◌, ap, ◌∙◌, true, not, ◌==◌, List, [], ◌∷◌, ◌++◌, length, Option, none, some,
  ok, arith,
}
use gavin_db.Prelude.Maps.{name_eq, find, find_here, emplace, emplace_new, put}
use gavin_db.Meta.Columns.{Column, Schema}
use gavin_db.Meta.Stored.{TableMeta, IndexMeta}
use gavin_db.Meta.Catalog.{Name, Catalog, Catalogs, new_table_meta, persist_to_disk, no_page_bits}
use gavin_db.Meta.Tables.{extended, same_name, same_number}
use gavin_db.Meta.Indexes.{
  new_index_meta, get_comparator, open_btree_index, next_page_bits, add_index, create_index,
  bplus_tree_index,
}
use gavin_db.Query.Tables.{key_suffix}

-- The new table and index, the header page of the index being page 0.
abbrev pub table_with_index : Schema → Name → ℕ → TableMeta
table_with_index schema table_name oid = record (new_table_meta schema table_name oid) {
  last_table_data_page_id = 0;
}

abbrev pub key_index : ℕ → Name → ℕ → Column → IndexMeta
key_index index_id table_name oid col =
    record (new_index_meta index_id (table_name ++ key_suffix) oid col 2 bplus_tree_index) {
      header_page_id = 0;
    }

small_oid : (n : ℕ) → n < 2 ^ 31 → not (n == no_page_bits) ≡ true
small_oid n h = ground arith

opened_index :
    (index_id : ℕ) (schema : Schema) (table_name : Name) (oid : ℕ) (col : Column)
    → oid < 2 ^ 31
    → get_comparator col.column_type ≡ ok tt
    → open_btree_index
        (ok tt)
        (new_index_meta index_id (table_name ++ key_suffix) oid col 2 bplus_tree_index)
        (new_table_meta schema table_name oid)
      ≡ ok (key_index index_id table_name oid col, table_with_index schema table_name oid)
unfolding open_btree_index next_page_bits
opened_index index_id schema table_name oid col small known =
    rw (known, small_oid oid small, open_btree_index)

-- The catalog with the table and its index.
abbrev pub keyed : ℕ → Schema → Name → Column → Catalog → Catalog
keyed index_id schema table_name col c = record c {
  tables = (length c.tables, table_with_index schema table_name (length c.tables)) ∷ c.tables;
  indexes = (length c.indexes, key_index index_id table_name (length c.tables) col) ∷ c.indexes;
  index_names = (table_name, (table_name ++ key_suffix, length c.indexes) ∷ []) ∷ c.index_names;
  table_names = (table_name, length c.tables) ∷ c.table_names;
}

-- The catalogs before the index: the table is in the file as well.
abbrev pub with_table : Schema → Name → Catalogs → Catalogs
with_table schema table_name c =
    persist_to_disk (record c { memory = extended c.memory table_name schema })

put_here :
    {V : Type 0} (entries : List (Name × V)) (k : Name) (u v : V)
    → put name_eq ((k, u) ∷ entries) k v ≡ (k, v) ∷ entries
unfolding put
put_here entries k u v = rw (same_name k, put)

put_number_here :
    {V : Type 0} (entries : List (ℕ × V)) (k : ℕ) (u v : V)
    → put ◌==◌ ((k, u) ∷ entries) k v ≡ (k, v) ∷ entries
unfolding put
put_number_here entries k u v = rw (same_number k, put)

small_count : (m : ℕ) → m < 2 ^ 31 → m % 2 ^ 32 ≡ m
small_count m few = omega arith

-- The catalogs with the maps that an index changes.
abbrev with_maps :
    Schema
    → Name
    → Catalogs
    → ℕ
    → List (ℕ × TableMeta)
    → List (ℕ × IndexMeta)
    → List (Name × List (Name × ℕ))
    → Option ℕ × Catalogs
with_maps schema table_name c oid tables indexes index_names = (
  some oid,
  record (with_table schema table_name c) {
    memory = record (extended c.memory table_name schema) {
      tables = tables;
      indexes = indexes;
      index_names = index_names;
    };
  },
)

index_added :
    (index_id : ℕ) (schema : Schema) (table_name : Name) (col : Column) (c : Catalogs)
    → length c.memory.indexes < 2 ^ 31
    → find ◌==◌ c.memory.indexes (length c.memory.indexes) ≡ none
    → find name_eq c.memory.index_names table_name ≡ none
    → add_index
        (length c.memory.tables)
        []
        (table_name ++ key_suffix)
        table_name
        (with_table schema table_name c)
        (
          key_index index_id table_name (length c.memory.tables) col,
          table_with_index schema table_name (length c.memory.tables),
        )
      ≡ (
        some (length c.memory.indexes),
        record (with_table schema table_name c) {
          memory = keyed index_id schema table_name col c.memory;
        },
      )
unfolding add_index emplace find
index_added index_id schema table_name col c few fresh unnamed =
    let n : ℕ = length c.memory.tables in
    let m : ℕ = length c.memory.indexes in
    let table : TableMeta = table_with_index schema table_name n in
    let index : IndexMeta = key_index index_id table_name n col in
    let names : List (Name × List (Name × ℕ)) = (extended c.memory table_name schema).index_names in
    ap
      (λ oid.
        with_maps schema table_name c oid
          (put ◌==◌ ((n, new_table_meta schema table_name n) ∷ c.memory.tables) n table)
          (emplace ◌==◌ c.memory.indexes oid index)
          (put name_eq names table_name ((table_name ++ key_suffix, oid) ∷ [])))
      (small_count m few)
    ∙ ap
        (λ ts.
          with_maps schema table_name c m ts (emplace ◌==◌ c.memory.indexes m index)
            (put name_eq names table_name ((table_name ++ key_suffix, m) ∷ [])))
        (put_number_here c.memory.tables n (new_table_meta schema table_name n) table)
    ∙ ap
        (λ is.
          with_maps schema table_name c m ((n, table) ∷ c.memory.tables) is
            (put name_eq names table_name ((table_name ++ key_suffix, m) ∷ [])))
        (emplace_new ◌==◌ c.memory.indexes m index fresh)
    ∙ ap
        (λ ns.
          with_maps schema table_name c m ((n, table) ∷ c.memory.tables)
            ((m, index) ∷ c.memory.indexes) ns)
        (ap (λ ns. put name_eq ns table_name ((table_name ++ key_suffix, m) ∷ []))
            (emplace_new name_eq c.memory.index_names table_name [] unnamed)
          ∙ put_here c.memory.index_names table_name [] ((table_name ++ key_suffix, m) ∷ []))

-- `CreateIndex` for the key of the table that has just been made.
pub create_index-added :
    (index_id : ℕ) (schema : Schema) (table_name : Name) (col : Column) (c : Catalogs)
    → length c.memory.tables < 2 ^ 31
    → length c.memory.indexes < 2 ^ 31
    → find ◌==◌ c.memory.indexes (length c.memory.indexes) ≡ none
    → find name_eq c.memory.index_names table_name ≡ none
    → get_comparator col.column_type ≡ ok tt
    → create_index index_id
        (ok tt)
        (table_name ++ key_suffix)
        table_name
        col
        true
        bplus_tree_index
        (with_table schema table_name c)
      ≡ ok (
        some (length c.memory.indexes),
        record (with_table schema table_name c) {
          memory = keyed index_id schema table_name col c.memory;
        },
      )
unfolding create_index find
create_index-added index_id schema table_name col c small few fresh unnamed known =
    let n : ℕ = length c.memory.tables in
    let named =
      find_here name_eq c.memory.table_names table_name table_name n (same_name table_name) in
    let indexed =
      ap (λ ns. find name_eq ns table_name)
        (emplace_new name_eq c.memory.index_names table_name [] unnamed)
      ∙ find_here name_eq c.memory.index_names table_name table_name [] (same_name table_name) in
    let stored =
      find_here ◌==◌ c.memory.tables n n (new_table_meta schema table_name n) (same_number n) in
    rw
      (
        named,
        indexed,
        stored,
        opened_index index_id schema table_name n col small known,
        create_index,
      )
      (ap ok (index_added index_id schema table_name col c few fresh unnamed))
