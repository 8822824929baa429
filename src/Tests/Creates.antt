-- ===== src/Tests/Creates.antt =====
-- A table with a primary key in an empty catalog, and a value that is read from four bytes.
use gavin_db.Prelude.{◌≡◌, refl, false, [], ◌∷◌, ok, arith}
use gavin_db.Prelude.Maps.{find}
use gavin_db.Meta.Types.{integer}
use gavin_db.Meta.Columns.{Column, Schema, schema_of}
use gavin_db.Meta.Catalog.{Catalog, Catalogs}
use gavin_db.Meta.Tables.{IsCatalog}
use gavin_db.Meta.Indexes.{get_comparator}
use gavin_db.Query.Tables.{find_column, handle_create_statement}
use gavin_db.Query.Tables.Keyed.{Keyed, handle_create_statement-Keyed}

abbrev id_column : Column
id_column = record {
  column_name = 105 ∷ [];
  column_type = integer;
  column_length = 4;
  storage_offset = 0;
  schema_offset = 0;
  is_auto_increment = false;
}

abbrev id_schema : Schema
id_schema = record {
  columns = id_column ∷ [];
  uninlined_columns = [];
  tuple_inline_part_storage_size = 4;
}

abbrev nothing : Catalog
nothing = record { tables = []; indexes = []; index_names = []; table_names = [] }

abbrev catalogs : Catalogs
catalogs = record { memory = nothing; file = nothing }

nothing-IsCatalog : IsCatalog nothing
unfolding IsCatalog find
nothing-IsCatalog = ((λ n oid e. cc), (λ oid meta e. cc))

handle_create_statement-Keyed_example :
    (after : Catalogs) × (handle_create_statement 7
        (ok tt)
        record { table_name = 116 ∷ []; columns = id_column ∷ []; primary_key = (105 ∷ []) ∷ [] }
        catalogs
      ≡ ok after)
    × Keyed 7 id_schema (116 ∷ []) id_column catalogs after
unfolding find schema_of find_column get_comparator
handle_create_statement-Keyed_example =
    handle_create_statement-Keyed 7 (116 ∷ []) (id_column ∷ []) id_schema (105 ∷ []) id_column
      catalogs nothing-IsCatalog (omega arith) (omega arith) refl refl refl refl refl refl
