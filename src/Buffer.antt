-- ===== src/Buffer.antt =====
-- The buffer pool: storage/buffer/, with the page identifiers of include/common/page_id.hpp and what
-- it needs of the disk manager.
pub mod PageId
pub mod Disk
pub mod DiskManager
pub mod Replacer
pub mod Pool
