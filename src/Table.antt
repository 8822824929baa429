-- ===== src/Table.antt =====
-- The pages of a table and their tuples: src/storage/page/table_page.cpp, src/storage/table/tuple.cpp.
pub mod Bytes
pub mod Page
pub mod Tuple
pub mod Heap
pub mod Iterator
