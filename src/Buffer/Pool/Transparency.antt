-- ===== src/Buffer/Pool/Transparency.antt =====
-- `FetchPage` as a whole: the pool is a transparent cache of the disk.
use gavin_db.Prelude.{
  ℕ, ◌+◌, ◌^◌, ◌<◌, ◌≡◌, ◌⊎◌, inl, inr, sym, ap, ◌∙◌, true, false, Option, none, some, List, ◌∷◌,
  arith, Result, ok, Option-cases, Result-cases,
}
use mathlib.Core.Path.{subst₂}
use gavin_db.Prelude.Int.{ℤ, pos, negsuc, int_eq}
use gavin_db.Buffer.PageId.{PageId, is_stored_number}
use gavin_db.Buffer.Disk.{Data, DiskOps}
use gavin_db.Buffer.Replacer.{Iteration}
use gavin_db.Buffer.Pool.{BufferPool, and_then, allocate_frame, read_frame, fetch_entry, fetch_page}
use gavin_db.Buffer.Pool.Invariant.{IsStored, content, IsConsistent}
use gavin_db.Buffer.Pool.Allocate.{allocate_frame-Allocated, allocate_free}
use gavin_db.Buffer.Pool.Claim.{on_disk, none_ne_some}
use gavin_db.Buffer.Pool.Fetch.{
  Fetched, hit-Fetched, again, finished, read-finished, finished-Fetched,
}

stored_ne_invalid : (z : ℤ) → is_stored_number z ≡ true → int_eq z (negsuc 0) ≡ false
stored_ne_invalid (pos n) h = ground arith
stored_ne_invalid (negsuc n) h = cc

module _ (ops : DiskOps) (order : Iteration) where
  open ops use {Disk, stored, read_page, read-stored, read_keeps}

  -- The outcomes of a call that may throw.
  abbrev Outcome : Type 0
  Outcome = BufferPool Disk × Result ℕ

  module _ (pool : BufferPool Disk) (consistent : IsConsistent ops pool) (p : PageId) (x : Data)
      (valid : IsStored p) (bytes : content ops p pool ≡ some x) where
    fetch_by :
        {entry : Option ℕ}
        → pool.page_table p ≡ entry
        → fetch_page ops order p pool ≡ fetch_entry ops order p entry pool
    unfolding fetch_page
    fetch_by e =
        rw (stored_ne_invalid p.page_number valid) (ap (λ t. fetch_entry ops order p t pool) e)

    hand_over :
        {n pool' : BufferPool Disk} {f g : ℕ}
        → Fetched ops order p x pool n f
        → ◌≡◌ {A = Outcome} (n, ok f) (pool', ok g)
        → Fetched ops order p x pool pool' g
    hand_over a e = subst₂ (Fetched ops order p x pool) (ap (λ t. t.0) e) (cc (ap (λ t. t.1) e)) a

    -- The frame that a miss was given is read, and returned.
    miss_returns :
        (miss : pool.page_table p ≡ none) (next : BufferPool Disk) (f : ℕ)
        → allocate_frame ops order pool ≡ (next, ok (some f))
        → (pool' : BufferPool Disk) × (fetch_page ops order p pool ≡ (pool', ok f))
          × Fetched ops order p x pool pool' f
    unfolding fetch_entry read_frame
    miss_returns miss next f e =
        let a = allocate_frame-Allocated ops order pool consistent e in
        let on_file =
          a.keeps p x (λ h. none_ne_some (sym miss ∙ h)) (sym (on_disk ops pool p miss) ∙ bytes) in
        let (disk', was_read) = read-stored p next.disk on_file in
        (
          finished ops order pool consistent p x valid miss next f a disk' bytes was_read,
          fetch_by miss
              ∙ ap (λ t. and_then t (read_frame ops order p)) e
              ∙ read-finished ops order pool consistent p x valid miss next f a disk' bytes
                  was_read,
          finished-Fetched ops order pool consistent p x valid miss next f a disk' bytes was_read,
        )

    hit_returns :
        (f : ℕ)
        → pool.page_table p ≡ some f
        → (pool.pages f).pin_count + 1 < 2 ^ 16
        → (pool' : BufferPool Disk) × (fetch_page ops order p pool ≡ (pool', ok f))
          × Fetched ops order p x pool pool' f
    unfolding fetch_entry
    hit_returns f hit room = (
      again ops order pool consistent p x f hit,
      fetch_by hit,
      hit-Fetched ops order pool consistent p x f hit bytes room,
    )

    -- In a consistent pool, where the page stands for bytes, because it is resident or the disk has it, and its pin
    -- count can grow if it is resident: whatever frame `FetchPage` returns holds those bytes, is pinned and safe
    -- from eviction, and the page table names it; the pool stays consistent, and every page that
    -- could be read before can be read afterwards with the same bytes, an evicted one included.
    pub fetch_page-Fetched :
        {pool' : BufferPool Disk} {f : ℕ}
        → ((g : ℕ) → pool.page_table p ≡ some g → (pool.pages g).pin_count + 1 < 2 ^ 16)
        → fetch_page ops order p pool ≡ (pool', ok f)
        → Fetched ops order p x pool pool' f
    unfolding fetch_entry read_frame
    fetch_page-Fetched {pool'} {f} room h = elim (Option-cases (pool.page_table p)) [
      | inr (g, hit) ↦
          let (n, e, fetched) = hit_returns g hit (room g hit) in hand_over fetched (sym e ∙ h)
      | inl miss ↦ elim (Result-cases (allocate_frame ops order pool).1) [
        | inr (error, failed) ↦ absurd (
            cc (
              ap (λ t. t.1)
                (sym (
                    fetch_by miss
                    ∙ through miss (λ i. ((allocate_frame ops order pool).0, failed i)))
                  ∙ h)))
        | inl (frame, given) ↦ elim (Option-cases frame) [
          | inl nobody ↦ absurd (
              cc (
                ap (λ t. t.1)
                  (sym (
                      fetch_by miss
                      ∙ through miss
                          (λ i. ((allocate_frame ops order pool).0, (given ∙ ap ok nobody) i)))
                    ∙ h)))
          | inr (g, some_g) ↦
              let (n, e, fetched) =
                miss_returns miss (allocate_frame ops order pool).0 g
                  (λ i. ((allocate_frame ops order pool).0, (given ∙ ap ok some_g) i)) in
              hand_over fetched (sym e ∙ h)
        ]
      ]
    ]
      where
        through :
            pool.page_table p ≡ none
            → {t : BufferPool Disk × Result (Option ℕ)} → allocate_frame ops order pool ≡ t
            → fetch_entry ops order p none pool ≡ and_then t (read_frame ops order p)
        through miss e = ap (λ t. and_then t (read_frame ops order p)) e

    -- In a consistent pool, `FetchPage` of a page that stands for bytes does return, with such a frame, where the page is
    -- resident with a pin to spare, or is absent while a frame is free.
    pub fetch_page_returns :
        ((f : ℕ) × (pool.page_table p ≡ some f) × ((pool.pages f).pin_count + 1 < 2 ^ 16))
          ⊎ ((pool.page_table p ≡ none) × (f : ℕ) × (rest : List ℕ) × (pool.free_list ≡ f ∷ rest))
        → (pool' : BufferPool Disk) × (f : ℕ) × (fetch_page ops order p pool ≡ (pool', ok f))
          × Fetched ops order p x pool pool' f
    fetch_page_returns (inl (f, hit, room)) =
        let (pool', e, fetched) = hit_returns f hit room in (pool', f, e, fetched)
    fetch_page_returns (inr (miss, f, rest, e)) =
        let (pool', r, fetched) =
          miss_returns miss (record pool { free_list = rest }) f
            (allocate_free ops order pool consistent e) in
        (pool', f, r, fetched)
