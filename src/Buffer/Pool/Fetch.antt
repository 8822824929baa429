-- ===== src/Buffer/Pool/Fetch.antt =====
-- `FetchPage`: the frame that it returns holds the page's bytes, and no other page is lost.
use gavin_db.Prelude.{
  ℕ, ◌+◌, ◌^◌, ◌<◌, ◌≡◌, ◌≢◌, inl, inr, refl, sym, ap, ◌∙◌, Bool, true, false, Option, none, some,
  arith, put_at, put_at_self, put_at_ne, ok, Bool-cases, Option-cases, fun_ext,
}
use mathlib.Core.Path.{subst}
use gavin_db.Buffer.PageId.{PageId, is_stored_number, page_id_eq, page_id_eq_iff}
use gavin_db.Buffer.Disk.{Data, DiskOps}
use gavin_db.Buffer.Replacer.{Iteration}
use gavin_db.Buffer.Pool.{BufferPool, Page, claim, write_frame, increment_pin, install_read}
use gavin_db.Buffer.Pool.Invariant.{
  In, IsStored, content, IsSaved, IsConsistent, Allocated, KeepsContents,
}
use gavin_db.Buffer.Pool.Allocate.{resident_not_free}
use gavin_db.Buffer.Pool.Claim.{
  in_frame, on_disk, none_ne_some, claim-IsConsistent, claim_contents, content_new, entered,
  new_page_here, true_ne_false,
}

pub some_ne : ◌≡◌ {A = Option Bool} (some false) (some true) → ⊥
some_ne e = cc

pub some_injective : {x y : Data} → ◌≡◌ {A = Option Data} (some x) (some y) → x ≡ y
some_injective e = cc

module _ (ops : DiskOps) (order : Iteration) where
  open ops use {Disk, stored, IsWritable, read_page, read-stored, read_keeps, stored-IsWritable}

  -- What a caller of `FetchPage` gets with the frame of a page that has the bytes `x`.
  pub record Fetched (p : PageId) (x : Data) (pool pool' : BufferPool Disk) (f : ℕ) : Type 0 where
    pub consistent : IsConsistent ops pool'
    pub here : pool'.page_table p ≡ some f
    pub bytes : (pool'.pages f).data_ ≡ x
    pub pinned : 0 < (pool'.pages f).pin_count
    pub kept : pool'.replacer f ≢ some true
    pub contents : KeepsContents ops pool pool'

  module _ (pool : BufferPool Disk) (consistent : IsConsistent ops pool) (p : PageId)
      (x : Data) where
    module _ (f : ℕ) (hit : pool.page_table p ≡ some f) where
      abbrev pub again : BufferPool Disk
      again =
          write_frame f (increment_pin (pool.pages f))
            (record pool { replacer = put_at pool.replacer f (some false) })

      same_but_pin :
          (g : ℕ)
          → ((again.pages g).page_id ≡ (pool.pages g).page_id)
            × ((again.pages g).is_dirty ≡ (pool.pages g).is_dirty)
            × ((again.pages g).data_ ≡ (pool.pages g).data_)
      same_but_pin g = ground arith

      again-IsConsistent : IsConsistent ops again
      again-IsConsistent = record {
        resident = λ q g h.
            let (inside, same, good) = consistent.resident q g h in
            (inside, (same_but_pin g).0 ∙ same, good);
        free = λ g h.
            let (inside, unpinned, invalid) = consistent.free g h in
            let differs : f ≢ g = λ e.
              resident_not_free ops order pool consistent p f hit
                (subst (λ n. In n pool.free_list) (sym e) h) in
            (
              inside,
              ap (λ (r : Page). r.pin_count)
                    (put_at_ne pool.pages f (increment_pin (pool.pages f)) g differs)
                  ∙ unpinned,
              ap (λ (q : PageId). is_stored_number q.page_number) (same_but_pin g).0 ∙ invalid,
            );
        nodup = consistent.nodup;
        writable =
            λ q g h. subst (IsWritable q) (sym (same_but_pin g).2) (consistent.writable q g h);
        evictable = λ g h.
            let differs : f ≢ g = λ e.
              some_ne (sym (put_at_self pool.replacer f (some false)) ∙ ap again.replacer e ∙ h) in
            let same = put_at_ne pool.pages f (increment_pin (pool.pages f)) g differs in
            let before = sym (put_at_ne pool.replacer f (some false) g differs) ∙ h in
            subst
              (λ (r : Page).
                (r.pin_count ≡ 0) × (pool.page_table r.page_id ≡ some g) × IsSaved ops pool.disk r)
              (sym same) (consistent.evictable g before);
      }

      again_contents : KeepsContents ops pool again
      again_contents q y h = elim (Option-cases (pool.page_table q)) [
        | inl miss ↦ on_disk ops again q miss ∙ sym (on_disk ops pool q miss) ∙ h
        | inr (g, at_g) ↦
            in_frame ops again q g at_g
            ∙ ap some (same_but_pin g).2
            ∙ sym (in_frame ops pool q g at_g)
            ∙ h
      ]

      pub hit-Fetched :
          content ops p pool ≡ some x
          → (pool.pages f).pin_count + 1 < 2 ^ 16
          → Fetched p x pool again f
      hit-Fetched bytes room = record {
        consistent = again-IsConsistent;
        here = hit;
        bytes = (same_but_pin f).2 ∙ some_injective (sym (in_frame ops pool p f hit) ∙ bytes);
        pinned =
            let e =
              ap (λ (r : Page). r.pin_count)
                (put_at_self pool.pages f (increment_pin (pool.pages f))) in
            omega arith;
        kept = λ h. some_ne (sym (put_at_self pool.replacer f (some false)) ∙ h);
        contents = again_contents;
      }

    module _ (valid : IsStored p) (miss : pool.page_table p ≡ none) where
      -- The pool behind a read that succeeds is the one in which the frame takes the page as read.
      module _ (next : BufferPool Disk) (f : ℕ) (a : Allocated ops pool next f) (disk' : Disk)
          (bytes : content ops p pool ≡ some x)
          (was_read : read_page p next.disk ≡ ok (x, disk')) where
        -- What the page has on the disk that the frame's allocation left.
        on_file : stored p next.disk ≡ some x
        on_file =
            a.keeps p x (λ h. none_ne_some (sym miss ∙ h)) (sym (on_disk ops pool p miss) ∙ bytes)

        abbrev pub loaded : Page
        loaded = record (increment_pin (record (next.pages f) { page_id = p; is_dirty = false })) {
          data_ = x;
        }

        abbrev pub on_new_disk : BufferPool Disk
        on_new_disk = record next { disk = disk' }

        on_new_disk-Allocated : Allocated ops pool on_new_disk f
        on_new_disk-Allocated = record {
          in_pool = a.in_pool;
          size = a.size;
          table = a.table;
          others = a.others;
          own_id = a.own_id;
          owned = a.owned;
          unpinned = a.unpinned;
          not_free = a.not_free;
          still_free = a.still_free;
          nodup = a.nodup;
          not_evictable = a.not_evictable;
          still_evictable = a.still_evictable;
          held = λ q h. read_keeps p next.disk on_file was_read q (pool.pages f).data_ (a.held q h);
          keeps = λ q y other h. read_keeps p next.disk on_file was_read q y (a.keeps q y other h);
        }

        abbrev pub finished : BufferPool Disk
        finished = claim f p loaded on_new_disk

        pub read-finished : install_read ops order p f next ≡ (finished, ok f)
        unfolding install_read
        read-finished =
            rw (was_read, install_read) (λ i. (record finished { pages = twice i }, ok f))
          where
            twice :
                put_at
                  (put_at next.pages f
                    (increment_pin (record (next.pages f) { page_id = p; is_dirty = false })))
                  f
                  loaded
                ≡ put_at next.pages f loaded
            twice = fun_ext (λ g. ground arith)

        pub finished-Fetched : Fetched p x pool finished f
        finished-Fetched = record {
          consistent =
              claim-IsConsistent ops pool on_new_disk f consistent on_new_disk-Allocated p loaded
                miss valid refl (stored-IsWritable p next.disk on_file);
          here =
              entered ops pool on_new_disk f consistent on_new_disk-Allocated p loaded miss valid
                refl;
          bytes =
              ap (λ (r : Page). r.data_)
                (new_page_here ops pool on_new_disk f consistent on_new_disk-Allocated p loaded miss
                  valid refl);
          pinned =
              let e =
                ap (λ (r : Page). r.pin_count)
                  (new_page_here ops pool on_new_disk f consistent on_new_disk-Allocated p loaded
                    miss valid refl) in
              let z = a.unpinned in omega arith;
          kept = a.not_evictable;
          contents = λ q y h. elim (Bool-cases (page_id_eq p q)) [
            | inl same ↦
                let e = (page_id_eq_iff p q).0 same in
                ap (λ n. content ops n finished) (sym e)
                ∙ content_new ops pool on_new_disk f consistent on_new_disk-Allocated p loaded miss
                    valid refl
                ∙ sym bytes
                ∙ ap (λ n. content ops n pool) e
                ∙ h
            | inr other ↦
                claim_contents ops pool on_new_disk f consistent on_new_disk-Allocated p loaded miss
                  valid refl q y (λ e. true_ne_false ((page_id_eq_iff p q).1 e) other) h
          ];
        }
