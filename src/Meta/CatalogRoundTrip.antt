-- ===== src/Meta/CatalogRoundTrip.antt =====
-- The catalog is found again in what is stored of it (CatalogStored).
use gavin_db.Prelude.{
  ℕ, ◌^◌, ◌<◌, ◌≡◌, refl, ap, sym, ◌∙◌, Bool, List, [], ◌∷◌, ◌++◌, append-nil, length, map, Result,
  ok, err, inl, ◌==◌, arith,
}
use mathlib.Core.Path.{subst}
use gavin_db.Prelude.Maps.{name_eq}
use gavin_db.Serializer.Reader.{Reader, Read, reader, ◌>>=◌, le_bytes, read_primitive}
use gavin_db.Serializer.Format.{
  Write, ◌then◌, write_number, write_string, write_object, read_string, read_object,
  read_property_with_default,
}
use gavin_db.Serializer.RoundTrip.{Kept, Kept-number, Kept-string, Kept-object, Every}
use gavin_db.Serializer.Maps.{write_map, read_map, write_property_with_default, is_empty}
use gavin_db.Serializer.MapRoundTrip.{Distinct, restored_entry, Kept-map, Kept-unique_pointer}
use gavin_db.Serializer.Optional.{
  KeptFrom, kept_from, KeptFrom-property, KeptFrom-default, KeptFrom-present, KeptFrom-then,
}
use gavin_db.Meta.Stored.{
  TableMeta, IndexMeta, serialize_table, deserialize_table, serialize_index, deserialize_index,
}
use gavin_db.Meta.RoundTrip.{
  FitsTable, FitsIndex, restored_table, restored_index, Kept-table, Kept-index,
}
use gavin_db.Meta.Catalog.{Name, Catalog}
use gavin_db.Meta.CatalogStored.{
  magic_bytes, write_table, write_index, write_oids, serialize_catalog, read_table, read_index,
  read_oids, check_magic, deserialize_catalog, load_catalog,
}

-- A map that fits: its keys are distinct, and each entry fits.
unfoldable pub FitsMap : {K V : Type 0} → (K → K → Bool) → (K × V → Type 0) → List (K × V) → Type 0
unfolding Every Distinct
FitsMap same fits entries = (length entries < 256 ^ 8) × Every fits entries × Distinct same entries

abbrev FitsName : Name → Type 0
FitsName n = length n < 256 ^ 4

unfoldable pub FitsOids : List (Name × ℕ) → Type 0
unfolding FitsMap
FitsOids entries = FitsMap name_eq (λ e. FitsName e.0 × (e.1 < 256 ^ 4)) entries

unfoldable pub FitsCatalog : Catalog → Type 0
unfolding FitsMap FitsOids FitsTable FitsIndex
FitsCatalog c =
    FitsMap ◌==◌ (λ e. (e.0 < 256 ^ 4) × FitsTable e.1) c.tables
    × FitsOids c.table_names
    × FitsMap ◌==◌ (λ e. (e.0 < 256 ^ 4) × FitsIndex e.1) c.indexes
    × FitsMap name_eq (λ e. FitsName e.0 × FitsOids e.1) c.index_names

-- What is read of a catalog: of each column of its tables and indexes, what is stored of it.
unfoldable pub restored_catalog : Catalog → Catalog
unfolding restored_table restored_index
restored_catalog c = record c {
  tables = map (restored_entry restored_table) c.tables;
  indexes = map (restored_entry restored_index) c.indexes;
}

pub Every-map :
    {A : Type 0} {P Q : A → Type 0}
    → ((a : A) → P a → Q a)
    → (xs : List A) → Every P xs
    → Every Q xs
unfolding Every
Every-map f [] h = tt
Every-map f (x ∷ xs) (h, hs) = (f x h, Every-map f xs hs)

abbrev itself : {A : Type 0} → A → A
itself a = a

map-itself : {K V : Type 0} (entries : List (K × V)) → map (restored_entry itself) entries ≡ entries
map-itself [] = refl
map-itself (e ∷ entries) = ap (λ l. e ∷ l) (map-itself entries)

Kept-oids :
    (entries : List (Name × ℕ)) → FitsOids entries → Kept (write_oids entries) read_oids entries
unfolding FitsOids FitsMap write_oids read_oids
Kept-oids entries (short, fits, distinct) =
    subst (Kept (write_oids entries) read_oids) (map-itself entries) (
      Kept-map name_eq write_string (write_number 4) read_string (read_primitive 4) itself entries
        short
        (Every-map (λ e (name, oid). (Kept-string e.0 name, Kept-number 4 e.1 oid)) entries fits)
        distinct)

Kept-tables :
    (entries : List (ℕ × TableMeta))
    → FitsMap ◌==◌ (λ e. (e.0 < 256 ^ 4) × FitsTable e.1) entries
    → Kept
        (write_map (write_number 4) write_table entries)
        (read_map ◌==◌ (read_primitive 4) read_table)
        (map (restored_entry restored_table) entries)
unfolding FitsMap write_table read_table
Kept-tables entries (short, fits, distinct) =
    Kept-map ◌==◌ (write_number 4) write_table (read_primitive 4) read_table restored_table entries
      short
      (Every-map
        (λ e (oid, meta). (
          Kept-number 4 e.0 oid,
          Kept-unique_pointer (λ m. write_object (serialize_table m))
              (read_object deserialize_table) e.1
              (Kept-object deserialize_table (Kept-table e.1 meta)),
        ))
        entries fits)
      distinct

Kept-indexes :
    (entries : List (ℕ × IndexMeta))
    → FitsMap ◌==◌ (λ e. (e.0 < 256 ^ 4) × FitsIndex e.1) entries
    → Kept
        (write_map (write_number 4) write_index entries)
        (read_map ◌==◌ (read_primitive 4) read_index)
        (map (restored_entry restored_index) entries)
unfolding FitsMap write_index read_index
Kept-indexes entries (short, fits, distinct) =
    Kept-map ◌==◌ (write_number 4) write_index (read_primitive 4) read_index restored_index entries
      short
      (Every-map
        (λ e (oid, meta). (
          Kept-number 4 e.0 oid,
          Kept-unique_pointer (λ m. write_object (serialize_index m))
              (read_object deserialize_index) e.1
              (Kept-object deserialize_index (Kept-index e.1 meta)),
        ))
        entries fits)
      distinct

Kept-index_names :
    (entries : List (Name × List (Name × ℕ)))
    → FitsMap name_eq (λ e. FitsName e.0 × FitsOids e.1) entries
    → Kept
        (write_map write_string write_oids entries)
        (read_map name_eq read_string read_oids)
        entries
unfolding FitsMap
Kept-index_names entries (short, fits, distinct) =
    subst
      (Kept (write_map write_string write_oids entries) (read_map name_eq read_string read_oids))
      (map-itself entries)
      (Kept-map name_eq write_string write_oids read_string read_oids itself entries short
        (Every-map (λ e (name, oids). (Kept-string e.0 name, Kept-oids e.1 oids)) entries fits)
        distinct)

-- A map that is left out when it is empty.
KeptFrom-map :
    {K V W B : Type 0} (low field : ℕ) (entries : List (K × V)) {v w : Write}
    (read : Read (List (K × W))) (f : K × V → K × W) (k : List (K × W) → Read B) {b : B}
    → low < field
    → field < 65535
    → Kept v read (map f entries)
    → KeptFrom field w (k (map f entries)) b
    → KeptFrom low
        (write_property_with_default (is_empty entries) field v then w)
        (read_property_with_default field read [] >>= k)
        b
KeptFrom-map low field [] {v} read f k above small h g = KeptFrom-default low field v read k above g
KeptFrom-map low field (e ∷ entries) read f k above small h g =
    KeptFrom-present low field read [] k above small h g

-- The two maps of names are read as they are.
same_map :
    {K V : Type 0} {w : Write} (read : Read (List (K × V))) (entries : List (K × V))
    → Kept w read entries
    → Kept w read (map (restored_entry itself) entries)
same_map {w} read entries h = subst (Kept w read) (sym (map-itself entries)) h

magic_checked : (c : Catalog) (r : Reader) → check_magic c magic_bytes r ≡ ok (c, r)
unfolding check_magic name_eq
magic_checked c r = refl

abbrev catalog_of :
    List (ℕ × TableMeta)
    → List (Name × ℕ)
    → List (ℕ × IndexMeta)
    → List (Name × List (Name × ℕ))
    → Catalog
catalog_of tables table_names indexes index_names = record {
  tables = tables;
  indexes = indexes;
  index_names = index_names;
  table_names = table_names;
}

KeptFrom-catalog :
    (c : Catalog)
    → FitsCatalog c
    → KeptFrom 0 (serialize_catalog c) deserialize_catalog (
        catalog_of
          (map (restored_entry restored_table) c.tables)
          (map (restored_entry itself) c.table_names)
          (map (restored_entry restored_index) c.indexes)
          (map (restored_entry itself) c.index_names))
unfolding FitsCatalog serialize_catalog deserialize_catalog
KeptFrom-catalog c (tables, names, indexes, index_names) =
    KeptFrom-map 0 100 c.tables _ (restored_entry restored_table) _ (omega arith) (omega arith)
      (Kept-tables c.tables tables)
      (KeptFrom-map 100 101 c.table_names _ (restored_entry itself) _ (omega arith) (omega arith)
        (same_map read_oids c.table_names (Kept-oids c.table_names names))
        (KeptFrom-map 101 102 c.indexes _ (restored_entry restored_index) _ (omega arith)
          (omega arith) (Kept-indexes c.indexes indexes)
          (KeptFrom-map 102 103 c.index_names _ (restored_entry itself) _ (omega arith)
            (omega arith)
            (same_map (read_map name_eq read_string read_oids) c.index_names
              (Kept-index_names c.index_names index_names))
            (KeptFrom-then 103 _ _
              (KeptFrom-property 103 104 read_string (omega arith) (omega arith)
                (Kept-string magic_bytes (omega arith)))
              (magic_checked (
                catalog_of (map (restored_entry restored_table) c.tables)
                  (map (restored_entry itself) c.table_names)
                  (map (restored_entry restored_index) c.indexes)
                  (map (restored_entry itself) c.index_names)))))))

loaded :
    {w : Write} (c : Catalog)
    → KeptFrom 0 w deserialize_catalog c
    → (file : List ℕ) × (w ≡ ok file) × (load_catalog file ≡ ok c)
unfolding load_catalog
loaded c (kept_from first bytes above h e f) = (
  le_bytes 2 first ++ bytes,
  e,
  ap (λ (r : Result (Catalog × Reader)). elim r [ err e ↦ err e | ok (c, _) ↦ ok c ])
      (f 0 [] (reader 0 (le_bytes 2 first ++ bytes))
        (inl (ap (λ l. reader 0 (le_bytes 2 first ++ l)) (sym (append-nil bytes))))),
)

-- A catalog that fits its fields, with distinct keys in each of its maps, is stored in a file from which the same
-- catalog is loaded, but for the place in the schema and the auto-increment mark of each column, which are not stored.
pub load_catalog-serialize_catalog :
    (c : Catalog)
    → FitsCatalog c
    → (file : List ℕ) × (serialize_catalog c ≡ ok file)
      × (load_catalog file ≡ ok (restored_catalog c))
unfolding restored_catalog
load_catalog-serialize_catalog c h =
    let (file, stored, read) = loaded _ (KeptFrom-catalog c h) in
    (
      file,
      stored,
      read
          ∙ ap
              (λ names. ok (
                catalog_of (map (restored_entry restored_table) c.tables) names
                  (map (restored_entry restored_index) c.indexes)
                  (map (restored_entry itself) c.index_names)))
              (map-itself c.table_names)
          ∙ ap
              (λ names. ok (
                catalog_of (map (restored_entry restored_table) c.tables) c.table_names
                  (map (restored_entry restored_index) c.indexes) names))
              (map-itself c.index_names),
    )
