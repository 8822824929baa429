-- ===== src/Tests/Pool.antt =====
-- A pool of two frames over a disk that is a map of pages.
use gavin_db.Prelude.{
  ℕ, zero, suc, ◌+◌, ◌*◌, ◌^◌, length, length-replicate, replicate, ◌<◌, ◌≤◌, ◌≡◌, ◌≢◌, inl, inr,
  refl, sym, ap, ◌∙◌, Bool, true, false, Option, none, some, [], ◌∷◌, arith, if◌then◌else◌, ◌==◌,
  ok, Bool-cases,
}
use gavin_db.Prelude.Int.{pos}
use gavin_db.Buffer.Pool.Init.{init-IsConsistent}
use gavin_db.Buffer.PageId.{PageId}
use gavin_db.Buffer.Disk.{Data, DiskOps}
use gavin_db.Buffer.DiskManager.{Files, Host, read_page_at, read_page, write_page}
use gavin_db.Buffer.DiskManager.Pages.{disk_manager, write_page-stored}
use gavin_db.Buffer.DiskManager.Files.{stored}
use gavin_db.Buffer.Replacer.{FrameStore, Iteration, evict}
use gavin_db.Buffer.Pool.{BufferPool, init, fetch_page}
use gavin_db.Buffer.Pool.Invariant.{content, IsConsistent}
use gavin_db.Buffer.Pool.Fetch.{Fetched}
use gavin_db.Buffer.Pool.Transparency.{fetch_page-Fetched, fetch_page_returns}

-- A machine on which every file can be opened, read and written.
abbrev host : Host
host = record { named = λ t. ok tt; opens = λ t. true; reads = λ p. true; writes = λ p. true }

abbrev files : DiskOps
files = disk_manager host

not_resident : {f : ℕ} → ◌≡◌ {A = Option ℕ} none (some f) → ⊥
not_resident e = cc

abbrev is_evictable : Option Bool → Bool
is_evictable (some true) = true
is_evictable other = false

abbrev least : ℕ → ℕ → FrameStore → Option ℕ
least first zero store = none
least first (suc count) store =
    if is_evictable (store first) then some first else least (suc first) count store

is_evictable-some : (o : Option Bool) → is_evictable o ≡ true → o ≡ some true
is_evictable-some none h = cc
is_evictable-some (some true) h = refl
is_evictable-some (some false) h = cc

least_sound :
    (count first : ℕ) (store : FrameStore) {f : ℕ}
    → least first count store ≡ some f
    → store f ≡ some true
least_sound zero first store h = cc
least_sound (suc count) first store h = elim (Bool-cases (is_evictable (store first))) [
  | inl here ↦
      is_evictable-some (store _)
        (ap (λ n. is_evictable (store n)) (sym (cc (rw here at h))) ∙ here)
  | inr later ↦ least_sound count (suc first) store (rw later at h)
]

least_complete :
    (count first : ℕ) (store : FrameStore)
    → least first count store ≡ none
    → (f : ℕ) → first ≤ f
    → f < first + count
    → store f ≢ some true
least_complete zero first store h f k l = absurd (omega arith)
least_complete (suc count) first store h f k l = elim (Bool-cases (is_evictable (store first))) [
  | inl found ↦ absurd (no_frame (rw found at h))
  | inr other ↦ elim (Bool-cases (first == f)) [
    | inl here ↦
        let same : first ≡ f = ground arith in
        λ e. no_true (sym other ∙ ap is_evictable (ap store same ∙ e))
    | inr later ↦
        least_complete count (suc first) store (rw other at h) f (ground arith) (omega arith)
  ]
]
  where
    no_frame : {n : ℕ} → ◌≡◌ {A = Option ℕ} (some n) none → ⊥
    no_frame e = cc

    no_true : ◌≡◌ {A = Bool} false true → ⊥
    no_true e = cc

-- Iteration by frame number.
abbrev by_number : Iteration
by_number = record {
  first_evictable = λ bound store. least 0 bound store;
  first_sound = λ bound store e. least_sound bound 0 store e;
  first_complete =
      λ bound store e f h. least_complete bound 0 store e f (omega arith) (omega arith);
}

abbrev page_5 : PageId
page_5 = record { page_number = pos 5; table_id = pos 0 }

-- One table, whose file has six pages of sevens.
abbrev disk : Files
disk t = record { size = 6 * 4096; bytes = λ i. 7 }

abbrev bytes_5 : Data
bytes_5 = read_page_at (5 * 4096) (disk (pos 0))

abbrev start : BufferPool Files
start = init 2 disk

init-IsConsistent_example :
    IsConsistent files (init 2 disk)
    × ((p : PageId) → content files p (init 2 disk) ≡ files.stored p disk)
init-IsConsistent_example = init-IsConsistent files 2 disk

stored_5 : files.stored page_5 disk ≡ some bytes_5
unfolding read_page
stored_5 = refl

fetch_page_returns_example :
    (pool' : BufferPool Files) × (f : ℕ) × (fetch_page files by_number page_5 start ≡ (pool', ok f))
    × Fetched files by_number page_5 bytes_5 start pool' f
unfolding init
fetch_page_returns_example =
    fetch_page_returns files by_number start init-IsConsistent_example.0 page_5 bytes_5 refl
      (init-IsConsistent_example.1 page_5 ∙ stored_5) (inr (refl, 0, 1 ∷ [], refl))

abbrev after_fetch : BufferPool Files
unfolding fetch_page evict init
after_fetch = (fetch_page files by_number page_5 start).0

fetch_run : fetch_page files by_number page_5 start ≡ (after_fetch, ok 0)
unfolding fetch_page evict init read_page
fetch_run = refl

fetch_page-Fetched_example : Fetched files by_number page_5 bytes_5 start after_fetch 0
unfolding init
fetch_page-Fetched_example =
    fetch_page-Fetched files by_number start init-IsConsistent_example.0 page_5 bytes_5 refl
      (init-IsConsistent_example.1 page_5 ∙ stored_5) (λ g h. absurd (not_resident h)) fetch_run

abbrev blank : Data
blank = replicate 4096 0

blank-length : length blank ≡ 4096
blank-length = length-replicate {A = ℕ} 4096 0

-- Page 2 ^ 20 + 3 lands on page 3.
abbrev page_3 : PageId
page_3 = record { page_number = pos 3; table_id = pos 0 }

write_page-stored_example :
    (d' : Files) × (write_page host
        record { page_number = pos (2 ^ 20 + 3); table_id = pos 0 }
        blank
        disk
      ≡ ok d')
    × (stored host page_3 d' ≡ some blank)
    × ((q : PageId) (y : Data)
        → page_3 ≢ q
        → stored host q disk ≡ some y
        → stored host q d' ≡ some y)
write_page-stored_example =
    write_page-stored host (2 ^ 20 + 3) (pos 0) blank disk blank-length (refl, refl, refl) refl
