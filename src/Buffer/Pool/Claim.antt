-- ===== src/Buffer/Pool/Claim.antt =====
-- A frame that was handed out takes a page: what stays true of the pool, and of the pages that it
-- stands for.
use gavin_db.Prelude.{
  ℕ, ◌<◌, ◌≡◌, ◌≢◌, ◌⊎◌, inl, inr, refl, sym, ap, ◌∙◌, Bool, true, false, Option, none, some, arith,
  put_at_self, put_at_ne, ◌==◌, Bool-cases, Option-cases,
}
use mathlib.Core.Path.{subst, subst₂}
use gavin_db.Buffer.PageId.{
  PageId, is_stored_number, page_id_eq, page_id_eq_iff, erase_id, put_id_self, put_id_ne,
  erase_id_ne,
}
use gavin_db.Buffer.Disk.{Data, DiskOps}
use gavin_db.Buffer.Pool.{BufferPool, Page, claim}
use gavin_db.Buffer.Pool.Invariant.{In, IsStored, content, IsSaved, IsConsistent, Allocated}

pub none_ne_some : {f : ℕ} → ◌≡◌ {A = Option ℕ} none (some f) → ⊥
none_ne_some e = cc

pub same_frame : {f g : ℕ} → ◌≡◌ {A = Option ℕ} (some f) (some g) → f ≡ g
same_frame e = cc

pub true_ne_false : {b : Bool} → b ≡ true → b ≡ false → ⊥
true_ne_false h k = cc

module _ (ops : DiskOps) (pool : BufferPool ops.Disk) where
  pub in_frame :
      (q : PageId) (g : ℕ)
      → pool.page_table q ≡ some g
      → content ops q pool ≡ some (pool.pages g).data_
  unfolding content
  in_frame q g h = rw (h, content) refl

  pub on_disk :
      (q : PageId) → pool.page_table q ≡ none → content ops q pool ≡ ops.stored q pool.disk
  unfolding content
  on_disk q h = rw (h, content) refl

module _ (ops : DiskOps) where
  open ops use {Disk, stored, IsWritable}

  module _ (pool next : BufferPool Disk) (f : ℕ) (consistent : IsConsistent ops pool)
      (a : Allocated ops pool next f) (p : PageId) (page : Page) (absent : pool.page_table p ≡ none)
      (valid : IsStored p) (own : page.page_id ≡ p) where
    abbrev stale : PageId
    stale = (next.pages f).page_id

    abbrev pub claimed : BufferPool Disk
    claimed = claim f p page next

    -- Where an entry of the new page table comes from.
    entry :
        (q : PageId) (g : ℕ)
        → claimed.page_table q ≡ some g
        → ((q ≡ p) × (g ≡ f)) ⊎ ((pool.page_table q ≡ some g) × (p ≢ q) × (stale ≢ q))
    entry q g h = elim (Bool-cases (page_id_eq p q)) [
      | inl same ↦ inl (sym ((page_id_eq_iff p q).0 same), same_frame (sym (rw same at h)))
      | inr other ↦ elim (Bool-cases (page_id_eq stale q)) [
        | inl erased ↦ absurd (none_ne_some (rw (other, erased) at h))
        | inr kept ↦ inr (
          ap (λ t. t q) (sym a.table) ∙ rw (other, kept) at h,
          λ e. true_ne_false ((page_id_eq_iff p q).1 e) other,
          λ e. true_ne_false ((page_id_eq_iff stale q).1 e) kept,
        )
      ]
    ]

    -- Another frame's page is not the one that was erased, nor the new one.
    other_frame : (q : PageId) (g : ℕ) → pool.page_table q ≡ some g → f ≢ g → stale ≢ q
    other_frame q g h other e = elim a.owned [
      | inl held ↦ other (same_frame (sym held ∙ ap pool.page_table (sym a.own_id ∙ e) ∙ h))
      | inr invalid ↦
          true_ne_false (consistent.resident q g h).2
            (ap (λ (p : PageId). is_stored_number p.page_number) (sym (sym a.own_id ∙ e)) ∙ invalid)
    ]

    entry_of :
        (q : PageId) (g : ℕ) → pool.page_table q ≡ some g → f ≢ g → claimed.page_table q ≡ some g
    entry_of q g h other =
        put_id_ne (erase_id next.page_table stale) p f q
          (λ e. none_ne_some (sym absent ∙ ap pool.page_table e ∙ h))
        ∙ erase_id_ne next.page_table stale q (other_frame q g h other)
        ∙ ap (λ t. t q) a.table
        ∙ h

    kept_page : (g : ℕ) → f ≢ g → claimed.pages g ≡ pool.pages g
    kept_page g other = put_at_ne next.pages f page g other ∙ a.others g other

    pub new_page_here : claimed.pages f ≡ page
    new_page_here = put_at_self next.pages f page

    claimed_resident :
        (q : PageId) (g : ℕ)
        → claimed.page_table q ≡ some g
        → (g < claimed.pool_size) × ((claimed.pages g).page_id ≡ q) × IsStored q
    claimed_resident q g h = elim (entry q g h) [
      | inl (e, d) ↦
          let size = a.size in
          let inside = a.in_pool in
          (
            omega arith,
            ap (λ n. (claimed.pages n).page_id) d
                ∙ ap (λ (r : Page). r.page_id) new_page_here
                ∙ own
                ∙ sym e,
            subst IsStored (sym e) valid,
          )
      | inr (old, ne, kept) ↦
          let size = a.size in
          let (inside, same, good) = consistent.resident q g old in
          (
            omega arith,
            ap (λ (r : Page). r.page_id) (kept_page g (frame_differs q g old kept)) ∙ same,
            good,
          )
    ]
      where
        frame_differs : (q : PageId) (g : ℕ) → pool.page_table q ≡ some g → stale ≢ q → f ≢ g
        frame_differs q g old kept e =
            kept (a.own_id ∙ ap (λ n. (pool.pages n).page_id) e ∙ (consistent.resident q g old).1)

    -- A saved page of another frame is saved on the new disk too.
    IsSaved-still :
        (r : Page) (g : ℕ)
        → pool.page_table r.page_id ≡ some g
        → f ≢ g
        → IsSaved ops pool.disk r
        → IsSaved ops next.disk r
    IsSaved-still r g held differs (inl dirty) = inl dirty
    IsSaved-still r g held differs (inr same) =
        inr (a.keeps r.page_id r.data_ (λ e. differs (same_frame (sym e ∙ held))) same)

    claimed-IsWritable :
        IsWritable p page.data_
        → (q : PageId) (g : ℕ) → claimed.page_table q ≡ some g
        → IsWritable q (claimed.pages g).data_
    claimed-IsWritable good q g h = elim (entry q g h) [
      | inl (e, d) ↦
          subst₂ IsWritable (sym e)
            (ap (λ (r : Page). r.data_) (sym (ap claimed.pages d ∙ new_page_here))) good
      | inr (old, ne, kept) ↦
          subst (λ (r : Page). IsWritable q r.data_)
            (sym (
              kept_page g (λ e.
                kept (
                  a.own_id
                  ∙ ap (λ n. (pool.pages n).page_id) e
                  ∙ (consistent.resident q g old).1))))
            (consistent.writable q g old)
    ]

    pub claim-IsConsistent : IsWritable p page.data_ → IsConsistent ops claimed
    claim-IsConsistent good = record {
      writable = claimed-IsWritable good;
      resident = claimed_resident;
      free = λ g h.
          let (inside, unpinned, invalid) = consistent.free g (a.still_free g h) in
          let size = a.size in
          let same = kept_page g (λ e. a.not_free (subst (λ n. In n next.free_list) (sym e) h)) in
          (
            omega arith,
            ap (λ (r : Page). r.pin_count) same ∙ unpinned,
            ap (λ (r : Page). is_stored_number r.page_id.page_number) same ∙ invalid,
          );
      nodup = a.nodup;
      evictable = λ g h. still_evictable_page g h;
    }
      where
        still_evictable_page :
            (g : ℕ)
            → next.replacer g ≡ some true
            → ((claimed.pages g).pin_count ≡ 0)
              × (claimed.page_table (claimed.pages g).page_id ≡ some g)
              × IsSaved ops next.disk (claimed.pages g)
        still_evictable_page g h =
            let differs : f ≢ g = λ e. a.not_evictable (ap next.replacer e ∙ h) in
            let (unpinned, held, saved) = consistent.evictable g (a.still_evictable g h) in
            let same = kept_page g differs in
            (
              ap (λ (r : Page). r.pin_count) same ∙ unpinned,
              ap (λ (r : Page). claimed.page_table r.page_id) same
                  ∙ entry_of (pool.pages g).page_id g held differs,
              subst (IsSaved ops next.disk) (sym same)
                  (IsSaved-still (pool.pages g) g held differs saved),
            )

    pub entered : claimed.page_table p ≡ some f
    entered = put_id_self (erase_id next.page_table stale) p f

    pub content_new : content ops p claimed ≡ some page.data_
    content_new = in_frame ops claimed p f entered ∙ ap (λ (r : Page). some r.data_) new_page_here

    -- The new page table has no entry for a page that lost its frame, or never had one.
    gone :
        (q : PageId)
        → p ≢ q
        → ((g : ℕ) → pool.page_table q ≡ some g → f ≡ g)
        → claimed.page_table q ≡ none
    gone q ne only = elim (Option-cases (claimed.page_table q)) [
      | inl miss ↦ miss
      | inr (g, h) ↦ elim (entry q g h) [
        | inl (e, d) ↦ absurd (ne (sym e))
        | inr (old, other, kept) ↦ absurd (
            kept (
              a.own_id
              ∙ ap (λ n. (pool.pages n).page_id) (only g old)
              ∙ (consistent.resident q g old).1))
      ]
    ]

    -- Every page that could be read before can be read afterwards, with the same bytes, but for the
    -- page that was entered, which has the bytes that were entered.
    pub claim_contents :
        (q : PageId) (y : Data)
        → p ≢ q
        → content ops q pool ≡ some y
        → content ops q claimed ≡ some y
    claim_contents q y ne h = elim (Option-cases (pool.page_table q)) [
      | inl miss ↦
          on_disk ops claimed q (gone q ne (λ g e. absurd (none_ne_some (sym miss ∙ e))))
          ∙ a.keeps q y (λ e. none_ne_some (sym miss ∙ e)) (sym (on_disk ops pool q miss) ∙ h)
      | inr (g, hit) ↦ elim (Bool-cases (f == g)) [
        | inl lost ↦
            let same : f ≡ g = ground arith in
            on_disk ops claimed q (gone q ne (λ n e. same ∙ same_frame (sym hit ∙ e)))
            ∙ a.held q (hit ∙ ap some (sym same))
            ∙ ap (λ n. some (pool.pages n).data_) same
            ∙ sym (in_frame ops pool q g hit)
            ∙ h
        | inr kept ↦
            let differs : f ≢ g = ground arith in
            in_frame ops claimed q g (entry_of q g hit differs)
            ∙ ap (λ (r : Page). some r.data_) (kept_page g differs)
            ∙ sym (in_frame ops pool q g hit)
            ∙ h
      ]
    ]
