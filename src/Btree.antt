-- ===== src/Btree.antt =====
-- The pages of the B+ tree: include/storage/page/btree_*.hpp and the comparator of
-- include/index/index.hpp.
pub mod Comparator
pub mod LowerBound
pub mod Shift
pub mod Page
pub mod Leaf
pub mod Internal
