-- ===== src/Buffer/Disk.antt =====
-- What the buffer pool relies on of a disk manager: Buffer/DiskManager is that of storage/disk_manager.cpp, which fills it.
use gavin_db.Prelude.{ℕ, ◌≡◌, ◌≢◌, Option, some, List, Result, ok}
use gavin_db.Buffer.PageId.{PageId}

-- The bytes of a page.
abbrev pub Data : Type 0
Data = List ℕ

-- `stored` is the view of the files by pages: what a read gives of a page that they can hold. `IsWritable` says of bytes
-- that a write puts them where a read of the page finds them.
pub record DiskOps : Type 1 where
  pub Disk : Type 0
  pub read_page : PageId → Disk → Result (Data × Disk)
  pub write_page : PageId → Data → Disk → Result Disk
  pub stored : PageId → Disk → Option Data
  pub IsWritable : PageId → Data → Type 0
  pub stored-IsWritable : (p : PageId) (d : Disk) {x : Data} → stored p d ≡ some x → IsWritable p x
  pub read-stored :
      (p : PageId) (d : Disk) {x : Data}
      → stored p d ≡ some x
      → (d' : Disk) × (read_page p d ≡ ok (x, d'))
  pub read_keeps :
      (p : PageId) (d : Disk) {x : Data} {d' : Disk}
      → stored p d ≡ some x
      → read_page p d ≡ ok (x, d')
      → (q : PageId) (y : Data) → stored q d ≡ some y
      → stored q d' ≡ some y
  pub write-stored :
      (p : PageId) (x : Data) (d : Disk) {d' : Disk}
      → IsWritable p x
      → write_page p x d ≡ ok d'
      → stored p d' ≡ some x
  pub write_keeps :
      (p : PageId) (x : Data) (d : Disk) {d' : Disk}
      → IsWritable p x
      → write_page p x d ≡ ok d'
      → (q : PageId) (y : Data) → p ≢ q
      → stored q d ≡ some y
      → stored q d' ≡ some y
