-- ===== src/Buffer/Pool.antt =====
-- storage/buffer/buffer_pool.cpp: the operations of `BufferPool`. An operation returns the new pool
-- beside its result, since an exception leaves behind the changes made before it.
pub mod Invariant
pub mod Allocate
pub mod Init
pub mod Claim
pub mod Fetch
pub mod Transparency
use gavin_db.Prelude.{
  ℕ, zero, suc, ◌+◌, ◌-◌, ◌%◌, ◌^◌, ◌≡◌, Bool, true, false, ◌&&◌, ◌||◌, not, Option, none, some,
  List, [], ◌∷◌, ◌++◌, ◌==◌, if◌then◌else◌, put_at, replicate, Result, ok, err, Error, runtime,
  assertion,
}
use gavin_db.Prelude.Int.{ℤ, negsuc, int_eq}
use gavin_db.Buffer.PageId.{PageId, no_page, page_id_eq, is_stored_number, put_id, erase_id}
use gavin_db.Buffer.Disk.{Data, DiskOps}
use gavin_db.Buffer.Replacer.{FrameStore, Iteration, evict, pin, unpin}

-- PAGE_SIZE zero bytes.
pub zero_page : Data
zero_page = replicate 4096 0

-- Page, but for its latch.
pub record Page : Type 0 where
  pub page_id : PageId
  pub is_dirty : Bool
  pub pin_count : ℕ
  pub data_ : Data

pub contains : ℕ → List ℕ → Bool
contains f [] = false
contains f (g ∷ rest) = f == g || contains f rest

pub record BufferPool (Disk : Type 0) : Type 0 where
  pub pool_size : ℕ
  pub replacer : FrameStore
  pub disk : Disk
  pub free_list : List ℕ
  pub page_table : PageId → Option ℕ
  pub pages : ℕ → Page

abbrev pub reset_memory : Page → Page
reset_memory page = record page { data_ = zero_page }

-- `0, 1, …` up to below `first + count`.
pub frames_from : ℕ → ℕ → List ℕ
frames_from first zero = []
frames_from first (suc count) = first ∷ frames_from (suc first) count

-- `pin_count_++` and `pin_count_--` on a `uint16_t`.
abbrev pub increment_pin : Page → Page
increment_pin page = record page { pin_count = (page.pin_count + 1) % 2 ^ 16 }

abbrev pub decrement_pin : Page → Page
decrement_pin page = record page { pin_count = (page.pin_count + (2 ^ 16 - 1)) % 2 ^ 16 }

-- A step that goes on where the one before it returned, and stops where that one threw.
abbrev pub and_then {ℓ κ} :
    {S : Type 0} {A : Type ℓ} {B : Type κ} → S × Result A → (A → S → S × Result B) → S × Result B
and_then (s, ok a) k = k a s
and_then (s, err e) k = (s, err e)

module _ {Disk : Type 0} where
  -- The constructor: every frame is free, and its page has no identifier.
  unfoldable pub init : ℕ → Disk → BufferPool Disk
  unfolding frames_from
  init pool_size disk = record {
    pool_size = pool_size;
    replacer = λ f. none;
    disk = disk;
    free_list = frames_from 0 pool_size;
    page_table = λ p. none;
    pages = λ f. record { page_id = no_page; is_dirty = false; pin_count = 0; data_ = zero_page };
  }

  abbrev pub write_frame : ℕ → Page → BufferPool Disk → BufferPool Disk
  write_frame f page pool = record pool { pages = put_at pool.pages f page }

  -- The page table gives up the identifier that the frame had and takes the new one, and the frame
  -- gets its new page.
  abbrev pub claim : ℕ → PageId → Page → BufferPool Disk → BufferPool Disk
  claim f p page pool = record pool {
    page_table = put_id (erase_id pool.page_table (pool.pages f).page_id) p f;
    pages = put_at pool.pages f page;
  }

module _ (ops : DiskOps) (order : Iteration) where
  open ops use {Disk, read_page, write_page}

  -- The part of `AllocateFrame` behind a successful `Evict`. The page is written only if it is dirty.
  unfoldable pub evict_frame : ℕ → BufferPool Disk → BufferPool Disk × Result (Option ℕ)
  evict_frame f pool =
      let page = pool.pages f in
      if not (page.pin_count == 0)
      then (pool, err assertion)
      else if not (is_stored_number page.page_id.page_number)
      then (pool, err assertion)
      else if page.is_dirty
      then (elim (write_page page.page_id page.data_ pool.disk) [
        | err e ↦ (pool, err e)
        | ok disk' ↦ (write_frame f (reset_memory page) (record pool { disk = disk' }), ok (some f))
      ])
      else (write_frame f (reset_memory page) pool, ok (some f))

  -- The two ways to a frame, by the free list and by what `Evict` gives where that is empty.
  unfoldable pub take_frame :
      List ℕ → Option ℕ × FrameStore → BufferPool Disk → BufferPool Disk × Result (Option ℕ)
  unfolding evict_frame
  take_frame (f ∷ rest) victim pool = (record pool { free_list = rest }, ok (some f))
  take_frame [] (none, store) pool = (pool, ok none)
  take_frame [] (some f, store) pool = evict_frame f (record pool { replacer = store })

  -- `false` of the source is `none` here.
  unfoldable pub allocate_frame : BufferPool Disk → BufferPool Disk × Result (Option ℕ)
  unfolding take_frame evict
  allocate_frame pool = take_frame pool.free_list (evict order pool.pool_size pool.replacer) pool

  -- The part of `NewPage` behind `AllocateFrame`. `fresh` is what the page allocator returns.
  unfoldable pub install_new : PageId → ℕ → BufferPool Disk → BufferPool Disk × Result ℕ
  unfolding contains
  install_new fresh f pool =
      if contains f pool.free_list
      then (pool, err assertion)
      else if page_id_eq (pool.pages f).page_id fresh
      then (pool, err assertion)
      else (
        claim f fresh
            (record { page_id = fresh; is_dirty = false; pin_count = 1; data_ = zero_page })
            (record pool { replacer = pin f pool.replacer }),
        ok f,
      )

  unfoldable pub new_frame : PageId → Option ℕ → BufferPool Disk → BufferPool Disk × Result ℕ
  unfolding install_new
  new_frame fresh none pool = (pool, err runtime)
  new_frame fresh (some f) pool = install_new fresh f pool

  unfoldable pub new_page : PageId → BufferPool Disk → BufferPool Disk × Result ℕ
  unfolding allocate_frame new_frame
  new_page fresh pool = and_then (allocate_frame pool) (new_frame fresh)

  -- The part of `FetchPage` behind `AllocateFrame`: the page is entered before it is read.
  unfoldable pub install_read : PageId → ℕ → BufferPool Disk → BufferPool Disk × Result ℕ
  install_read p f pool =
      let page = increment_pin (record (pool.pages f) { page_id = p; is_dirty = false }) in
      let entered = claim f p page pool in
      elim (read_page p pool.disk) [
        | err e ↦ (entered, err e)
        | ok (x, disk') ↦
            (write_frame f (record page { data_ = x }) (record entered { disk = disk' }), ok f)
      ]

  unfoldable pub read_frame : PageId → Option ℕ → BufferPool Disk → BufferPool Disk × Result ℕ
  unfolding install_read
  read_frame p none pool = (pool, err runtime)
  read_frame p (some f) pool = install_read p f pool

  -- By the entry of the page table.
  unfoldable pub fetch_entry : PageId → Option ℕ → BufferPool Disk → BufferPool Disk × Result ℕ
  unfolding allocate_frame read_frame
  fetch_entry p (some f) pool = (
    write_frame f (increment_pin (pool.pages f)) (record pool { replacer = pin f pool.replacer }),
    ok f,
  )
  fetch_entry p none pool = and_then (allocate_frame pool) (read_frame p)

  unfoldable pub fetch_page : PageId → BufferPool Disk → BufferPool Disk × Result ℕ
  unfolding fetch_entry
  fetch_page p pool =
      if int_eq p.page_number (negsuc 0)
      then (pool, err assertion)
      else fetch_entry p (pool.page_table p) pool

module _ (ops : DiskOps) where
  open ops use {Disk, write_page}

  unfoldable pub flush_page : PageId → BufferPool Disk → BufferPool Disk × Result Bool
  flush_page p pool = elim (pool.page_table p) [
    | none ↦ (pool, ok false)
    | some f ↦ (elim (write_page p (pool.pages f).data_ pool.disk) [
      | err e ↦ (pool, err e)
      | ok disk' ↦ (
        write_frame f (record (pool.pages f) { is_dirty = false }) (record pool { disk = disk' }),
        ok true,
      )
    ])
  ]

  -- The loop of `FlushAllPages` over `count` frames from `first` on.
  unfoldable pub flush_frames : ℕ → ℕ → BufferPool Disk → BufferPool Disk × Result (Unit {0})
  unfolding flush_page
  flush_frames first zero pool = (pool, ok tt)
  flush_frames first (suc count) pool =
      and_then (flush_page (pool.pages first).page_id pool)
        (λ found pool'. flush_frames (suc first) count pool')

  unfoldable pub flush_all_pages : BufferPool Disk → BufferPool Disk × Result (Unit {0})
  unfolding flush_frames
  flush_all_pages pool = flush_frames 0 pool.pool_size pool

module _ {Disk : Type 0} where
  -- A page that is not in the pool fails the assertion behind the log line.
  unfoldable pub unpin_page : PageId → Bool → BufferPool Disk → BufferPool Disk × Result Bool
  unpin_page p is_dirty pool =
      if int_eq p.page_number (negsuc 0) then (pool, err assertion) else (elim (pool.page_table p) [
        | none ↦ (pool, err assertion)
        | some f ↦
            let page = pool.pages f in
            let marked = record page { is_dirty = is_dirty || page.is_dirty } in
            if page.pin_count == 0 then (write_frame f marked pool, ok false) else (
              write_frame f (decrement_pin marked) (record pool {
                replacer =
                    if (decrement_pin marked).pin_count == 0
                    then unpin f pool.replacer
                    else pool.replacer;
              }),
              ok true,
            )
      ])

  unfoldable pub delete_page : PageId → BufferPool Disk → BufferPool Disk × Bool
  delete_page p pool = elim (pool.page_table p) [
    | none ↦ (pool, true)
    | some f ↦
        let page = pool.pages f in
        if not (page.pin_count == 0) then (pool, false) else (
          record pool {
            page_table = erase_id pool.page_table p;
            free_list = pool.free_list ++ (f ∷ []);
            pages = put_at pool.pages f (record {
              page_id = record page.page_id { page_number = negsuc 0 };
              is_dirty = false;
              pin_count = 0;
              data_ = zero_page;
            });
          },
          true,
        )
  ]
