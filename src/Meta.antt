-- ===== src/Meta.antt =====
-- What the catalog keeps of tables and indexes, and the values of the columns: src/common/value.cpp,
-- src/include/common/{type,value}.hpp, src/include/meta, src/meta, src/include/storage/table/table_meta.hpp
-- and the IndexMeta of src/include/index/index.hpp.
pub mod Types
pub mod Columns
pub mod Stored
pub mod RoundTrip
pub mod Values
pub mod ValueRoundTrip
pub mod TupleValues
pub mod Layout
pub mod Catalog
pub mod Tables
pub mod CreateTable
pub mod Indexes
pub mod SameTypes
pub mod CatalogStored
pub mod CatalogRoundTrip
