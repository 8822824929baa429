-- ===== src/Buffer/Pool/Allocate.antt =====
-- `AllocateFrame`: the frame that it hands out, and what it keeps.
use gavin_db.Prelude.{
  ℕ, ◌≡◌, ◌≢◌, inl, inr, refl, sym, ap, ◌∙◌, true, false, Option, none, some, List, [], ◌∷◌, arith,
  put_at, put_at_self, put_at_ne, Result, ok, err, Error, Bool-cases, Option-cases, Result-cases,
  List-cases,
}
use mathlib.Core.Path.{subst, subst₂, ap₂}
use gavin_db.Buffer.PageId.{PageId, is_stored_number}
use gavin_db.Buffer.Disk.{Data, DiskOps}
use gavin_db.Buffer.Replacer.{FrameStore, Iteration, evict}
use gavin_db.Buffer.Pool.{
  BufferPool, Page, write_frame, reset_memory, evict_frame, take_frame, allocate_frame,
}
use gavin_db.Buffer.Pool.Invariant.{In, IsNodup, IsStored, IsSaved, IsConsistent, Allocated}

module _ (ops : DiskOps) (order : Iteration) where
  open ops use {Disk, stored, write_page, write-stored, write_keeps}

  -- The pool that the eviction of a frame leaves on a disk.
  abbrev evicted : ℕ → BufferPool Disk → Disk → BufferPool Disk
  evicted f pool disk =
      write_frame f (reset_memory (pool.pages f))
        (record pool { replacer = put_at pool.replacer f (some false); disk = disk })

  module _ (pool : BufferPool Disk) (consistent : IsConsistent ops pool) where
    -- A frame that holds a page is not free.
    pub resident_not_free :
        (p : PageId) (f : ℕ) → pool.page_table p ≡ some f → ¬ (In f pool.free_list)
    resident_not_free p f h free =
        let (_, same, valid) = consistent.resident p f h in
        let (_, _, invalid) = consistent.free f free in
        cc (ap (λ (q : PageId). is_stored_number q.page_number) same)

    evicted-Allocated :
        (f : ℕ) (disk : Disk)
        → pool.free_list ≡ []
        → pool.replacer f ≡ some true
        → stored (pool.pages f).page_id disk ≡ some (pool.pages f).data_
        → ((q : PageId) (y : Data)
            → pool.page_table q ≢ some f
            → stored q pool.disk ≡ some y
            → stored q disk ≡ some y)
        → Allocated ops pool (evicted f pool disk) f
    evicted-Allocated f disk empty may saved keeps =
        let (unpinned, own, _) = consistent.evictable f may in
        record {
          in_pool = (consistent.resident (pool.pages f).page_id f own).0;
          size = refl;
          table = refl;
          others = λ g h. put_at_ne pool.pages f (reset_memory (pool.pages f)) g h;
          own_id =
              ap (λ (p : Page). p.page_id) (put_at_self pool.pages f (reset_memory (pool.pages f)));
          owned = inl own;
          unpinned =
              ap (λ (p : Page). p.pin_count)
                (put_at_self pool.pages f (reset_memory (pool.pages f)))
              ∙ unpinned;
          not_free = resident_not_free (pool.pages f).page_id f own;
          still_free = λ g h. h;
          nodup = consistent.nodup;
          not_evictable = λ h. cc (put_at_self pool.replacer f (some false));
          still_evictable = λ g h. ground arith;
          held = λ q h.
              let same : (pool.pages f).page_id ≡ q = (consistent.resident q f h).1 in
              ap (λ (p : PageId). stored p disk) (sym same) ∙ saved;
          keeps = keeps;
        }

    pub free-Allocated :
        (f : ℕ) (rest : List ℕ)
        → pool.free_list ≡ f ∷ rest
        → Allocated ops pool (record pool { free_list = rest }) f
    free-Allocated f rest e =
        let in_list : In f pool.free_list = subst (In f) (sym e) (inl refl) in
        let (inside, unpinned, invalid) = consistent.free f in_list in
        let unique : IsNodup (f ∷ rest) = subst IsNodup e consistent.nodup in
        record {
          in_pool = inside;
          size = refl;
          table = refl;
          others = λ g h. refl;
          own_id = refl;
          owned = inr invalid;
          unpinned = unpinned;
          not_free = unique.0;
          still_free = λ g h. subst (In g) (sym e) (inr h);
          nodup = unique.1;
          not_evictable =
              λ h. resident_not_free (pool.pages f).page_id f (consistent.evictable f h).1 in_list;
          still_evictable = λ g h. h;
          held = λ q h. absurd (resident_not_free q f h in_list);
          keeps = λ q y other h. h;
        }

    hand_over :
        {n next : BufferPool Disk} {f g : ℕ}
        → Allocated ops pool n f
        → ◌≡◌ {A = BufferPool Disk × Result (Option ℕ)} (n, ok (some f)) (next, ok (some g))
        → Allocated ops pool next g
    hand_over a e = subst₂ (Allocated ops pool) (ap (λ t. t.0) e) (cc (ap (λ t. t.1) e)) a

    module _ (f : ℕ) (unpinned : (pool.pages f).pin_count ≡ 0)
        (valid : IsStored (pool.pages f).page_id) where
      abbrev chosen : BufferPool Disk
      chosen = record pool { replacer = put_at pool.replacer f (some false) }

      evict_clean :
          (pool.pages f).is_dirty ≡ false
          → evict_frame ops order f chosen ≡ (evicted f pool pool.disk, ok (some f))
      unfolding evict_frame
      evict_clean clean = simp (unpinned, valid, clean)

      evict_dirty :
          {disk' : Disk}
          → (pool.pages f).is_dirty ≡ true
          → write_page (pool.pages f).page_id (pool.pages f).data_ pool.disk ≡ ok disk'
          → evict_frame ops order f chosen ≡ (evicted f pool disk', ok (some f))
      unfolding evict_frame
      evict_dirty dirty written = simp (unpinned, valid, dirty, written)

      evict_fails :
          {e : Error}
          → (pool.pages f).is_dirty ≡ true
          → write_page (pool.pages f).page_id (pool.pages f).data_ pool.disk ≡ err e
          → evict_frame ops order f chosen ≡ (chosen, err e)
      unfolding evict_frame
      evict_fails dirty failed = simp (unpinned, valid, dirty, failed)

    evict_frame-Allocated :
        (f : ℕ) {next : BufferPool Disk} {g : ℕ}
        → pool.free_list ≡ []
        → pool.replacer f ≡ some true
        → evict_frame ops order f (record pool { replacer = put_at pool.replacer f (some false) })
          ≡ (next, ok (some g))
        → Allocated ops pool next g
    evict_frame-Allocated f {next} {g} empty may h =
        let page = pool.pages f in
        let (unpinned, own, saved) = consistent.evictable f may in
        let valid = (consistent.resident page.page_id f own).2 in
        elim (Bool-cases page.is_dirty) [
          | inl dirty ↦ elim (Result-cases (write_page page.page_id page.data_ pool.disk)) [
            | inl (disk', written) ↦
                hand_over
                  (evicted-Allocated f disk' empty may
                    (write-stored page.page_id page.data_ pool.disk
                      (consistent.writable page.page_id f own) written)
                    (λ q y other.
                      write_keeps page.page_id page.data_ pool.disk
                        (consistent.writable page.page_id f own) written q y
                        (λ e. other (ap pool.page_table (sym e) ∙ own))))
                  (sym (evict_dirty f unpinned valid dirty written) ∙ h)
            | inr (e, failed) ↦
                absurd (cc (ap (λ t. t.1) (sym (evict_fails f unpinned valid dirty failed) ∙ h)))
          ]
          | inr clean ↦
              hand_over
                (evicted-Allocated f pool.disk empty may (on_disk page clean saved)
                  (λ q y other k. k))
                (sym (evict_clean f unpinned valid clean) ∙ h)
        ]
      where
        on_disk :
            (page : Page)
            → page.is_dirty ≡ false
            → IsSaved ops pool.disk page
            → stored page.page_id pool.disk ≡ some page.data_
        on_disk page clean (inl dirty) = cc
        on_disk page clean (inr same) = same

    taken :
        {free : List ℕ} {victim : Option ℕ × FrameStore}
        → pool.free_list ≡ free
        → evict order pool.pool_size pool.replacer ≡ victim
        → allocate_frame ops order pool ≡ take_frame ops order free victim pool
    unfolding allocate_frame
    taken e v = ap₂ (λ l w. take_frame ops order l w pool) e v

    allocate_victim :
        {g : ℕ}
        → pool.free_list ≡ []
        → order.first_evictable pool.pool_size pool.replacer ≡ some g
        → allocate_frame ops order pool
          ≡ evict_frame ops order g (record pool { replacer = put_at pool.replacer g (some false) })
    unfolding take_frame evict
    allocate_victim {g} empty victim =
        taken {victim = (some g, put_at pool.replacer g (some false))} empty
          (rw (victim, evict) refl)

    pub allocate_nobody :
        pool.free_list ≡ []
        → order.first_evictable pool.pool_size pool.replacer ≡ none
        → allocate_frame ops order pool ≡ (pool, ok none)
    unfolding take_frame evict
    allocate_nobody empty nobody =
        taken {victim = (none, pool.replacer)} empty (rw (nobody, evict) refl)

    pub allocate_free :
        {g : ℕ} {rest : List ℕ}
        → pool.free_list ≡ g ∷ rest
        → allocate_frame ops order pool ≡ (record pool { free_list = rest }, ok (some g))
    unfolding take_frame
    allocate_free e = taken e refl

    pub allocate_frame-Allocated :
        {next : BufferPool Disk} {f : ℕ}
        → allocate_frame ops order pool ≡ (next, ok (some f))
        → Allocated ops pool next f
    allocate_frame-Allocated {next} {f} h = elim (List-cases pool.free_list) [
      | inl empty ↦ elim (Option-cases (order.first_evictable pool.pool_size pool.replacer)) [
        | inl nobody ↦ absurd (cc (ap (λ t. t.1) (sym (allocate_nobody empty nobody) ∙ h)))
        | inr (g, victim) ↦
            evict_frame-Allocated g empty (order.first_sound pool.pool_size pool.replacer victim)
              (sym (allocate_victim empty victim) ∙ h)
      ]
      | inr (g, rest, e) ↦ hand_over (free-Allocated g rest e) (sym (allocate_free e) ∙ h)
    ]
