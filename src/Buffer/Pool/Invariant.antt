-- ===== src/Buffer/Pool/Invariant.antt =====
-- What holds of a buffer pool between two calls, and the pages that it stands for.
use gavin_db.Prelude.{ℕ, ◌<◌, ◌≡◌, ◌≢◌, ◌⊎◌, true, false, Option, none, some, List, [], ◌∷◌}
use gavin_db.Buffer.PageId.{PageId, is_stored_number}
use gavin_db.Buffer.Disk.{Data, DiskOps}
use gavin_db.Buffer.Pool.{BufferPool, Page}

abbrev pub In : ℕ → List ℕ → Type 0
In f [] = ⊥
In f (g ∷ rest) = (f ≡ g) ⊎ In f rest

abbrev pub IsNodup : List ℕ → Type 0
IsNodup [] = Unit
IsNodup (f ∷ rest) = (¬ (In f rest)) × IsNodup rest

abbrev pub IsStored : PageId → Type 0
IsStored p = is_stored_number p.page_number ≡ true

module _ (ops : DiskOps) where
  open ops use {Disk, stored, IsWritable}

  -- The bytes that a page stands for: the pool's copy, or else the file's.
  unfoldable pub content : PageId → BufferPool Disk → Option Data
  content p pool = elim (pool.page_table p) [
    | none ↦ stored p pool.disk
    | some f ↦ some (pool.pages f).data_
  ]

  -- Dropping the frame loses nothing: it is to be written first, or the file holds its bytes.
  abbrev pub IsSaved : Disk → Page → Type 0
  IsSaved disk page = (page.is_dirty ≡ true) ⊎ (stored page.page_id disk ≡ some page.data_)

  pub record IsConsistent (pool : BufferPool Disk) : Type 0 where
    -- A resident page stands in a frame of the pool that knows its identifier.
    pub resident :
        (p : PageId) (f : ℕ)
        → pool.page_table p ≡ some f
        → (f < pool.pool_size) × ((pool.pages f).page_id ≡ p) × IsStored p
    -- The disk can take a resident page as it is.
    pub writable :
        (p : PageId) (f : ℕ) → pool.page_table p ≡ some f → IsWritable p (pool.pages f).data_
    -- A free frame holds no page, and nobody has it pinned.
    pub free :
        (f : ℕ)
        → In f pool.free_list
        → (f < pool.pool_size)
          × ((pool.pages f).pin_count ≡ 0)
          × (is_stored_number (pool.pages f).page_id.page_number ≡ false)
    pub nodup : IsNodup pool.free_list
    -- A frame that may be evicted holds a page, nobody has it pinned, and it is saved.
    pub evictable :
        (f : ℕ)
        → pool.replacer f ≡ some true
        → ((pool.pages f).pin_count ≡ 0)
          × (pool.page_table (pool.pages f).page_id ≡ some f)
          × IsSaved pool.disk (pool.pages f)

  -- Every page that can be read keeps its bytes.
  abbrev pub KeepsContents : BufferPool Disk → BufferPool Disk → Type 0
  KeepsContents pool pool' =
      (q : PageId) (y : Data) → content q pool ≡ some y → content q pool' ≡ some y

  -- A frame that `AllocateFrame` hands out from `pool`, where `next` is the pool that it leaves.
  pub record Allocated (pool next : BufferPool Disk) (f : ℕ) : Type 0 where
    pub in_pool : f < pool.pool_size
    pub size : next.pool_size ≡ pool.pool_size
    pub table : next.page_table ≡ pool.page_table
    pub others : (g : ℕ) → f ≢ g → next.pages g ≡ pool.pages g
    pub own_id : (next.pages f).page_id ≡ (pool.pages f).page_id
    pub owned :
        (pool.page_table (pool.pages f).page_id ≡ some f)
        ⊎ (is_stored_number (pool.pages f).page_id.page_number ≡ false)
    pub unpinned : (next.pages f).pin_count ≡ 0
    pub not_free : ¬ (In f next.free_list)
    pub still_free : (g : ℕ) → In g next.free_list → In g pool.free_list
    pub nodup : IsNodup next.free_list
    pub not_evictable : next.replacer f ≢ some true
    pub still_evictable : (g : ℕ) → next.replacer g ≡ some true → pool.replacer g ≡ some true
    -- The page that the frame held is on the disk, or the frame held none.
    pub held :
        (q : PageId) → pool.page_table q ≡ some f → stored q next.disk ≡ some (pool.pages f).data_
    pub keeps :
        (q : PageId) (y : Data)
        → pool.page_table q ≢ some f
        → stored q pool.disk ≡ some y
        → stored q next.disk ≡ some y
