-- ===== src/Meta/CatalogStored.antt =====
-- How the catalog is stored: `Serialize` and `Deserialize` of src/include/meta/catalog.hpp (Catalog).
use gavin_db.Prelude.{ℕ, true, false, List, [], ◌∷◌, some, Result, ok, err, runtime, ◌==◌}
use gavin_db.Prelude.Maps.{name_eq}
use gavin_db.Serializer.Reader.{Read, ◌>>=◌, return, throw, reader, read_primitive}
use gavin_db.Serializer.Format.{
  Write, ◌then◌, write_number, write_string, write_property, write_object, write_nullable,
  read_property, read_string, read_object, read_property_with_default,
}
use gavin_db.Serializer.Maps.{
  write_map, read_map, write_property_with_default, is_empty, read_pointer,
}
use gavin_db.Meta.Stored.{
  TableMeta, IndexMeta, serialize_table, deserialize_table, serialize_index, deserialize_index,
}
use gavin_db.Meta.Catalog.{Name, Catalog}

-- `magic_bytes_`: "GAVINDB_CATALOG_MANAGER"
abbrev pub magic_bytes : Name
magic_bytes =
    71 ∷ 65 ∷ 86 ∷ 73 ∷ 78 ∷ 68 ∷ 66 ∷ 95 ∷ 67 ∷ 65 ∷ 84 ∷ 65 ∷ 76 ∷ 79 ∷ 71 ∷ 95 ∷ 77 ∷ 65 ∷ 78
    ∷ 65 ∷ 71 ∷ 69 ∷ 82 ∷ []

-- The pointers of the two maps are never null.
unfoldable pub write_table : TableMeta → Write
unfolding write_nullable write_object serialize_table
write_table meta = write_nullable (λ m. write_object (serialize_table m)) (some meta)

unfoldable pub write_index : IndexMeta → Write
unfolding write_nullable write_object serialize_index
write_index meta = write_nullable (λ m. write_object (serialize_index m)) (some meta)

unfoldable pub write_oids : List (Name × ℕ) → Write
unfolding write_map write_string write_number
write_oids entries = write_map write_string (write_number 4) entries

unfoldable pub serialize_catalog : Catalog → Write
unfolding ◌then◌ write_property_with_default write_map write_property write_string write_number
    write_table write_index write_oids
serialize_catalog c =
    write_property_with_default (is_empty c.tables) 100
      (write_map (write_number 4) write_table c.tables)
    then write_property_with_default (is_empty c.table_names) 101 (write_oids c.table_names)
    then write_property_with_default (is_empty c.indexes) 102
        (write_map (write_number 4) write_index c.indexes)
    then write_property_with_default (is_empty c.index_names) 103
        (write_map write_string write_oids c.index_names)
    then write_property 104 (write_string magic_bytes)

unfoldable pub read_table : Read TableMeta
unfolding read_pointer read_object deserialize_table
read_table = read_pointer (read_object deserialize_table)

unfoldable pub read_index : Read IndexMeta
unfolding read_pointer read_object deserialize_index
read_index = read_pointer (read_object deserialize_index)

unfoldable pub read_oids : Read (List (Name × ℕ))
unfolding read_map read_string read_primitive
read_oids = read_map name_eq read_string (read_primitive 4)

-- The end of `Deserialize`: the catalog is refused if the magic bytes are others.
unfoldable pub check_magic : Catalog → Name → Read Catalog
unfolding name_eq
check_magic c magic = elim (name_eq magic magic_bytes) [ true ↦ return c | false ↦ throw runtime ]

unfoldable pub deserialize_catalog : Read Catalog
unfolding read_property_with_default read_map read_primitive read_property read_string read_table
    read_index read_oids check_magic
deserialize_catalog =
    read_property_with_default 100 (read_map ◌==◌ (read_primitive 4) read_table) [] >>= λ tables.
    read_property_with_default 101 read_oids [] >>= λ table_names.
    read_property_with_default 102 (read_map ◌==◌ (read_primitive 4) read_index) [] >>= λ indexes.
    read_property_with_default 103 (read_map name_eq read_string read_oids) [] >>= λ index_names.
    read_property 104 read_string
    >>= check_magic record {
      tables = tables;
      indexes = indexes;
      index_names = index_names;
      table_names = table_names;
    }

-- The constructor of a catalog whose file exists: what the file holds, read from its beginning.
unfoldable pub load_catalog : List ℕ → Result Catalog
unfolding deserialize_catalog
load_catalog file = elim (deserialize_catalog (reader 0 file)) [ err e ↦ err e | ok (c, _) ↦ ok c ]
