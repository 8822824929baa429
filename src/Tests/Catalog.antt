-- ===== src/Tests/Catalog.antt =====
-- A catalog with one table and its primary key, stored and loaded.
use gavin_db.Prelude.{ℕ, ◌≡◌, List, [], ◌∷◌, ok, arith}
use gavin_db.Serializer.RoundTrip.{Every}
use gavin_db.Serializer.MapRoundTrip.{Distinct}
use gavin_db.Meta.Types.{integer, IsNamed}
use gavin_db.Meta.Columns.{Column}
use gavin_db.Meta.Stored.{stored_column, TableMeta, IndexMeta}
use gavin_db.Meta.RoundTrip.{FitsTable, FitsSchema, FitsColumn, FitsIndex}
use gavin_db.Meta.Catalog.{Catalog}
use gavin_db.Meta.CatalogStored.{serialize_catalog, load_catalog}
use gavin_db.Meta.CatalogRoundTrip.{
  FitsMap, FitsOids, FitsCatalog, restored_catalog, load_catalog-serialize_catalog,
}

abbrev id_column : Column
id_column = stored_column (105 ∷ []) integer 4 0

abbrev table_t : TableMeta
table_t = record {
  schema = record {
    columns = id_column ∷ [];
    uninlined_columns = [];
    tuple_inline_part_storage_size = 4;
  };
  name = 116 ∷ [];
  table_oid = 0;
  last_table_data_page_id = 2;
  last_table_heap_data_page_id = 1;
  tuple_count = 3;
}

abbrev id_index : IndexMeta
id_index = record {
  index_name = 112 ∷ [];
  table_id = 0;
  index_id = 0;
  key_col = id_column;
  index_constraint_type = 1;
  header_page_id = 2;
  index_type = 0;
}

abbrev catalog : Catalog
catalog = record {
  tables = (0, table_t) ∷ [];
  indexes = (0, id_index) ∷ [];
  index_names = (116 ∷ [], (112 ∷ [], 0) ∷ []) ∷ [];
  table_names = (116 ∷ [], 0) ∷ [];
}

id_column-FitsColumn : FitsColumn id_column
unfolding FitsColumn IsNamed
id_column-FitsColumn = (omega arith, tt, omega arith, omega arith)

table_t-FitsTable : FitsTable table_t
unfolding FitsTable FitsSchema Every
table_t-FitsTable = (
  omega arith,
  omega arith,
  (omega arith, (id_column-FitsColumn, tt), omega arith, tt, omega arith),
  omega arith,
  omega arith,
  omega arith,
)

id_index-FitsIndex : FitsIndex id_index
unfolding FitsIndex
id_index-FitsIndex = (
  omega arith,
  omega arith,
  id_column-FitsColumn,
  omega arith,
  omega arith,
  omega arith,
  omega arith,
)

catalog-FitsCatalog : FitsCatalog catalog
unfolding FitsCatalog FitsMap FitsOids Every Distinct
catalog-FitsCatalog = (
  (omega arith, ((omega arith, table_t-FitsTable), tt), (tt, tt)),
  (omega arith, ((omega arith, omega arith), tt), (tt, tt)),
  (omega arith, ((omega arith, id_index-FitsIndex), tt), (tt, tt)),
  (
    omega arith,
    ((omega arith, (omega arith, ((omega arith, omega arith), tt), (tt, tt))), tt),
    (tt, tt),
  ),
)

load_catalog-serialize_catalog_example :
    (file : List ℕ) × (serialize_catalog catalog ≡ ok file)
    × (load_catalog file ≡ ok (restored_catalog catalog))
load_catalog-serialize_catalog_example = load_catalog-serialize_catalog catalog catalog-FitsCatalog
