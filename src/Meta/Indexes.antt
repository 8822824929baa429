-- ===== src/Meta/Indexes.antt =====
-- `CreateIndex` of src/meta/catalog.cpp, with the constructor of the index (src/include/index/bplus_tree_index.hpp) as far
-- as it changes what the catalog keeps.
use gavin_db.Prelude.{
  ℕ, ◌+◌, ◌%◌, ◌^◌, ◌==◌, Bool, true, false, not, ltb, List, length, Option, none, some, Result, ok,
  err, assertion, not_implemented, invalid_argument, undefined_behaviour, guard, ◌>>=◌, ◌>>◌,
  if◌then◌else◌,
}
use gavin_db.Prelude.Maps.{name_eq, find, emplace, put}
use gavin_db.Meta.Types.{TypeId, invalid, boolean, integer, timestamp, varchar, unnamed}
use gavin_db.Meta.Columns.{Column}
use gavin_db.Meta.Stored.{TableMeta, IndexMeta}
use gavin_db.Meta.Catalog.{Name, Catalogs, no_page_bits, or_throw}

-- `IncrementTableDataPageId`, on the bits of a page number; -1 are those of `INVALID_TABLE_OID` as well.
unfoldable pub next_page_bits : ℕ → ℕ
next_page_bits last = if last == no_page_bits then 0 else (last + 1) % 2 ^ 32

-- `IndexMeta(...)`, which leaves `index_id_` as it is in memory.
abbrev pub new_index_meta : ℕ → Name → ℕ → Column → ℕ → ℕ → IndexMeta
new_index_meta index_id index_name table_id key_col constraint_type index_type = record {
  index_name = index_name;
  table_id = table_id;
  index_id = index_id;
  key_col = key_col;
  index_constraint_type = constraint_type;
  header_page_id = no_page_bits;
  index_type = index_type;
}

-- `GetComparator`, which throws `std::invalid_argument` for a type that it knows no comparison of.
unfoldable pub get_comparator : TypeId → Result (Unit {0})
get_comparator boolean = ok tt
get_comparator integer = ok tt
get_comparator timestamp = ok tt
get_comparator varchar = ok tt
get_comparator invalid = err invalid_argument
get_comparator (unnamed n) = err invalid_argument

-- The constructor of `BTreeIndex`, after that of `Index`: an index without a header page gets the next page of the table's
-- file, if the pool has a frame for it; `framed` is what the allocation of the frame ends in.
unfoldable pub open_btree_index :
    Result (Unit {0}) → IndexMeta → TableMeta → Result (IndexMeta × TableMeta)
unfolding next_page_bits
open_btree_index framed index table =
    get_comparator index.key_col.column_type >> (elim (index.header_page_id == no_page_bits) [
      | true ↦
          let page = next_page_bits table.last_table_data_page_id in
          guard (not (table.table_oid == no_page_bits)) assertion
          >> framed
          >> (guard (ltb page (2 ^ 31)) assertion
              >> ok (
                record index { header_page_id = page },
                record table { last_table_data_page_id = page },
              ))
      | false ↦ guard (ltb index.header_page_id (2 ^ 31)) assertion >> ok (index, table)
    ])

-- `IndexConstraintType::PRIMARY`, `NONE`, and `IndexType::BPlusTreeIndex`.
abbrev pub constraint_of : Bool → ℕ
constraint_of true = 2
constraint_of false = 0

abbrev pub bplus_tree_index : ℕ
bplus_tree_index = 0

-- The end of `CreateIndex`, with the oid and what the maps have of the table.
unfoldable pub add_index :
    ℕ → List (Name × ℕ) → Name → Name → Catalogs → IndexMeta × TableMeta → Option ℕ × Catalogs
unfolding put emplace
add_index table_id table_indexes index_name table_name c (index, table) =
    let index_oid = length c.memory.indexes % 2 ^ 32 in
    (
      some index_oid,
      record c {
        memory = record c.memory {
          tables = put ◌==◌ c.memory.tables table_id table;
          indexes = emplace ◌==◌ c.memory.indexes index_oid index;
          index_names =
              put name_eq c.memory.index_names table_name
                (emplace name_eq table_indexes index_name index_oid);
        };
      },
    )

-- `CreateIndex`, where `index_id` is what the memory of the new meta data holds. The catalog's file is left alone.
unfoldable pub create_index :
    ℕ
    → Result (Unit {0})
    → Name
    → Name
    → Column
    → Bool
    → ℕ
    → Catalogs
    → Result (Option ℕ × Catalogs)
unfolding find open_btree_index add_index
create_index index_id framed index_name table_name key_col is_primary_key index_type c =
    elim (find name_eq c.memory.table_names table_name) [
      | none ↦ ok (none, c)
      | some table_id ↦ elim (find name_eq c.memory.index_names table_name) [
        | none ↦ err undefined_behaviour
        | some table_indexes ↦ elim (find name_eq table_indexes index_name) [
          | some _ ↦ ok (none, c)
          | none ↦ or_throw (find ◌==◌ c.memory.tables table_id) >>= λ table.
              guard (index_type == bplus_tree_index) not_implemented
              >> (open_btree_index framed
                    (new_index_meta index_id index_name table_id key_col
                      (constraint_of is_primary_key) index_type)
                    table
                  >>= λ opened.
                      ok (add_index table_id table_indexes index_name table_name c opened))
        ]
      ]
    ]
