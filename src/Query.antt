-- ===== src/Query.antt =====
-- From a parsed statement to the rows that are inserted: the binder (src/query/binder), the planner
-- (src/query/planner.cpp) and the executor of value lists (src/query/executors/value_executor.cpp).
pub mod Statements
pub mod Binder
pub mod Plans
pub mod Planner
pub mod Literals
pub mod Inserts
pub mod InsertLayout
pub mod Creates
pub mod Executors
pub mod Scans
pub mod Insertion
pub mod Tables
