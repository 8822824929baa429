-- ===== src/Tree.antt =====
-- The B+ tree index: include/index/bplus_tree_index.hpp.
pub mod State
pub mod Descent
pub mod Content
pub mod Counts
pub mod Search
pub mod Scan
pub mod Crabbing
pub mod InsertDescent
pub mod Replace
pub mod Insert
pub mod Root
pub mod FirstRoot
pub mod Insertion
