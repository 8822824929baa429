-- ===== src/Lib.antt =====
-- gavin-db, a small relational database in C++: a model of its storage core and the theorems that
-- make it correct. Paths below are from the root of the repository.
--
-- The buffer pool (Buffer, src/storage/buffer) keeps pages of the disk in frames; the pages of
-- the B+ tree (Btree, src/include/storage/page/btree_*.hpp) are read and changed in those frames.
--
-- Btree/Comparator is the comparator of src/include/index/index.hpp as an interface, with the one
-- for 64-bit keys; Btree/Page, Btree/Leaf and Btree/Internal are BtreePage, BtreeLeafPage and
-- BtreeInternalPage, a function for each method. A page's array is a function of the index, so
-- the slots behind the last entry keep what earlier operations left in them, which the code does
-- read. std::lower_bound, std::find_if and std::move_backward are in Btree/LowerBound.
--
-- Buffer/Pool is BufferPool with a function for each method: AllocateFrame is allocate_frame,
-- NewPage is new_page with the identifier that the page allocator returns as an argument, and so
-- on. An operation returns the new pool beside its result, and an exception or a failed assertion
-- keeps the changes made before it. Buffer/Replacer is RandomBogoReplacer; the order in which
-- std::unordered_map is iterated is a parameter. Buffer/Disk states what the pool relies on of a
-- disk manager, which is a parameter of it. Buffer/DiskManager is the one of the program
-- (src/storage/disk_manager.cpp): a file for each table, since the catalog never gives two tables
-- one name; what the catalog, the paths and the streams answer is a parameter, and a write of a
-- page is in the file at once. DiskManager/Pages fills the interface with it: the pages that it
-- stores are those of numbers below 2 ^ 20, since the offset of a write wraps at 2 ^ 32.
--
-- Serializer/Reader and Serializer/Format are BinaryDeserializer and BinarySerializer
-- (src/storage/serializer) with the templates of Serializer and Deserializer that they fill in: a
-- call that writes is the bytes it gives to the stream, a call that reads goes from a reader to a
-- result and a reader. Serializer/RoundTrip has what is known of each construct.
--
-- Meta has what the catalog keeps: Meta/Types is src/include/common/type.hpp, Meta/Values is
-- Value (src/common/value.cpp), Meta/Columns is Column and Schema (src/include/meta,
-- src/meta/schema.cpp), and Meta/Stored is how those, TableMeta and IndexMeta are stored. A
-- signed number there is the number of its bits.
--
-- Tree is BTreeIndex (src/include/index/bplus_tree_index.hpp): its state is what the pages hold,
-- the header page's root, the page set of the transaction, and for each page the number of its
-- pins, readers and writers; Tree/Descent has the search and latch crabbing, Tree/Insertion the
-- insertion with its splits. The loop down the tree and the recursion up it take rounds, and a
-- tree of a height below them is searched to its leaf. It stands on the pages of Btree; that the
-- buffer pool hands out what was written is the matter of Buffer.
--
-- Table/Page is TablePage (src/storage/page/table_page.cpp), with a function for each method. The
-- array of slots is kept apart from the bytes of the tuples; that the two do not overlap is part
-- of its well-formedness.
--
-- Meta/Catalog is Catalog (src/include/meta/catalog.hpp, src/meta/catalog.cpp), with the maps as
-- lists of entries. Query/Binder is Binder (src/query/binder/binder.cpp) and Query/Planner is
-- Planner (src/query/planner.cpp), with a function for each method and for the loops in them; the
-- trees of the SQL parser are given in Query/Statements by the members that the binder reads, and
-- the digits that fmt writes for a number are a parameter. Query/Plans has the nodes of a plan
-- and their expressions. Query/Inserts.plan_statement is what ExecuteQuery
-- (src/common/db_instance.cpp) does with a statement up to its plan.
--
-- Table/Tuple is Tuple (src/storage/table/tuple.cpp), the list of its bytes. Query/Executors is
-- the executor of value lists (src/query/executors/value_executor.cpp) with PollExecutor
-- (src/include/query/execution_engine.hpp), whose loop takes rounds: one more than there are rows
-- is enough.
--
-- Table/Heap is TableHeap (src/storage/table/table_heap.cpp) with the page numbers and the
-- counter of TableMeta, over the pages of the table's file; its loop takes rounds, of which two
-- are enough. Table/Iterator is its iterator (src/storage/table/table_iterator.cpp). Query/Scans
-- and Query/Insertion are the executors over them (src/query/executors); their loops take one
-- round more than there are rows.
--
-- Meta/Indexes is CreateIndex of the catalog, with the comparator that the constructor of Index
-- looks up and the page that the constructor of BTreeIndex takes from the table's file, where
-- what the pool's allocation of a frame for it ends in is an argument, and Query/Tables is
-- HandleCreateStatement (src/common/db_instance.cpp). Table/Heap has the number of that page as a
-- signed number, Meta as its bits.
--
-- Transactions is src/include/concurrency: Transactions/Watermark is Watermark and
-- Transactions/Manager is TransactionManager. The searches of the watermark take rounds; one more
-- than the distance from the watermark to a read that runs is enough.
--
-- Guards is the page guards (src/storage/page/page_guard.cpp): Guards/Guard has their operations
-- over the pins, readers and writers of each page, Guards/Scope what a program does with the
-- guards of a scope, each in its variable, until it is left. Serializer/Maps has the maps and the
-- properties with a default, and Meta/CatalogStored stores and loads the catalog with them
-- (src/include/meta/catalog.hpp); that the files of the tables exist is checked by the code and
-- not here.
--
-- Sizes are 64-bit and pin counts 16-bit numbers that wrap, those of the pool, of the tree's
-- pages and of the guards alike. Page numbers are integers, -1 being the invalid one. What C++
-- leaves undefined, as a read outside of a tuple, is an error of its own. Loops that are not said
-- to take rounds are recursions on what is left of a list or a count, and need none.
--
-- Not modelled: the mutex of the pool, logging and the text that is logged, but for the printing
-- of the tuples that a scan and an insertion trace, which can fail, the file system behind the
-- disk manager, and the SQL parser, which is a submodule. Of the serializer, sets, pairs, shared
-- pointers and blobs, which nothing stores, and the buffer of its memory stream are left out; of
-- Value, its arithmetic and the conversion to index keys, which the tree takes as they are; of
-- the database instance, the set-up of its files. Page latches are counted in Tree and Guards,
-- and left out in Buffer.
pub mod Prelude
pub mod Btree
pub mod Buffer
pub mod Serializer
pub mod Meta
pub mod Table
pub mod Tree
pub mod Query
pub mod Guards
pub mod Transactions
pub mod Tests
