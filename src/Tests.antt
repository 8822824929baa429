-- ===== src/Tests.antt =====
-- The theorems at concrete inputs, and runs of the code.
mod Leaf
mod Internal
mod Pool
mod Meta
mod Table
mod Tree
mod Query
mod Transactions
mod Tuple
mod Catalog
mod Guards
mod Heap
mod Insertion
mod Creates
