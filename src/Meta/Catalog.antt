-- ===== src/Meta/Catalog.antt =====
-- The catalog (src/include/meta/catalog.hpp, src/meta/catalog.cpp): each `std::unordered_map` is a list of
-- its entries. What the catalog's file holds is the catalog that was written to it last.
use gavin_db.Prelude.{
  ℕ, ◌%◌, ◌^◌, ◌==◌, List, [], length, Option, none, some, Result, ok, err, exception, out_of_range,
  ◌>>=◌,
}
use gavin_db.Prelude.Maps.{name_eq, find, emplace}
use gavin_db.Meta.Columns.{Schema}
use gavin_db.Meta.Stored.{TableMeta, IndexMeta}

abbrev pub Name : Type 0
Name = List ℕ

pub record Catalog : Type 0 where
  pub tables : List (ℕ × TableMeta)
  pub indexes : List (ℕ × IndexMeta)
  pub index_names : List (Name × List (Name × ℕ))
  pub table_names : List (Name × ℕ)

-- The catalog in memory and the one in its file.
pub record Catalogs : Type 0 where
  pub memory : Catalog
  pub file : Catalog

-- `INVALID_PAGE_ID` as the bits of an `int32_t`.
abbrev pub no_page_bits : ℕ
no_page_bits = 4294967295

-- `TableMeta(schema, name, oid)`
abbrev pub new_table_meta : Schema → Name → ℕ → TableMeta
new_table_meta schema table_name oid = record {
  schema = schema;
  name = table_name;
  table_oid = oid;
  last_table_data_page_id = no_page_bits;
  last_table_heap_data_page_id = no_page_bits;
  tuple_count = 0;
}

-- What `PersistToDisk` leaves in the catalog's file.
abbrev pub persist_to_disk : Catalogs → Catalogs
persist_to_disk c = record c { file = c.memory }

-- The oid of the next table, an `int32_t` made of a size.
abbrev pub next_oid : Catalog → ℕ
next_oid c = length c.tables % 2 ^ 32

unfoldable pub add_table : Catalog → Name → Schema → Catalog
unfolding emplace
add_table c table_name schema = record c {
  tables = emplace ◌==◌ c.tables (next_oid c) (new_table_meta schema table_name (next_oid c));
  index_names = emplace name_eq c.index_names table_name [];
  table_names = emplace name_eq c.table_names table_name (next_oid c);
}

unfoldable pub create_table : Name → Schema → Catalogs → Option ℕ × Catalogs
unfolding find add_table
create_table table_name schema c = elim (find name_eq c.memory.table_names table_name) [
  | some _ ↦ (none, c)
  | none ↦ (
    some (next_oid c.memory),
    persist_to_disk (record c { memory = add_table c.memory table_name schema }),
  )
]

-- `at` of a map, which throws when the key is absent.
abbrev pub or_throw : {A : Type 0} → Option A → Result A
or_throw none = err out_of_range
or_throw (some a) = ok a

unfoldable pub get_table_by_name : Catalog → Name → Result TableMeta
unfolding find
get_table_by_name c table_name = elim (find name_eq c.table_names table_name) [
  | none ↦ err exception
  | some oid ↦ or_throw (find ◌==◌ c.tables oid)
]

unfoldable pub get_table_name : Catalog → ℕ → Result Name
unfolding find
get_table_name c oid = elim (find ◌==◌ c.tables oid) [
  | none ↦ err exception
  | some meta ↦ ok meta.name
]

unfoldable pub get_table : Catalog → ℕ → Result TableMeta
unfolding get_table_name get_table_by_name
get_table c oid = get_table_name c oid >>= λ table_name. get_table_by_name c table_name
