-- ===== src/Table/Iterator/Steps.antt =====
-- The steps of the iterator on a page and from one page to the next (Iterator).
use gavin_db.Prelude.{
  ℕ, ◌+◌, ◌^◌, ◌<◌, ◌≡◌, ap, ◌∙◌, ok, arith, true, assertion, guard, ◌>>◌, ◌⊎◌, inl, inr,
}
use gavin_db.Prelude.Int.{ℤ, pos, negsuc}
use gavin_db.Table.Page.{TablePage}
use gavin_db.Table.Heap.{Rid}
use gavin_db.Table.Heap.Contents.{heap_at}
use gavin_db.Table.Iterator.{TableIterator, in_bound, next_rid, advance}

abbrev pub rid_at : ℤ → ℕ → Rid
rid_at p i = record { page_number = p; slot_num = i }

-- An iterator at a slot of a page that stops behind the tuples of the page `q`.
abbrev pub iterator_at : ℤ → ℕ → ℕ → ℕ → TableIterator
iterator_at p i q stop = record { rid = rid_at p i; stop_at_rid = rid_at (pos q) stop }

advanced :
    (q d count : ℕ) (pages : ℕ → TablePage) (p i stop : ℕ) (rid : Rid)
    → i + 1 < 2 ^ 32
    → in_bound (iterator_at (pos p) i q stop) (i + 1) ≡ true
    → next_rid (iterator_at (pos p) i q stop) (pages p) (i + 1) ≡ rid
    → advance (heap_at q d count pages) (iterator_at (pos p) i q stop)
      ≡ ok (record { rid = rid; stop_at_rid = rid_at (pos q) stop })
unfolding advance
advanced q d count pages p i stop rid small bound next =
    ap
      (λ n.
        guard (in_bound (iterator_at (pos p) i q stop) n) assertion
        >> ok (record (iterator_at (pos p) i q stop) {
          rid = next_rid (iterator_at (pos p) i q stop) (pages p) n;
        }))
      (omega arith)
    ∙ ap
        (λ b.
          guard b assertion
          >> ok (record (iterator_at (pos p) i q stop) {
            rid = next_rid (iterator_at (pos p) i q stop) (pages p) (i + 1);
          }))
        bound
    ∙ ap (λ r. ok (record { rid = r; stop_at_rid = rid_at (pos q) stop })) next

-- The next slot of the same page.
pub advance-slot :
    (q d count : ℕ) (pages : ℕ → TablePage) (p i stop : ℕ)
    → (p < q) ⊎ ((p ≡ q) × ((pages p).num_tuples ≡ stop))
    → i + 1 < (pages p).num_tuples
    → (pages p).num_tuples < 2 ^ 32
    → advance (heap_at q d count pages) (iterator_at (pos p) i q stop)
      ≡ ok (iterator_at (pos p) (i + 1) q stop)
unfolding in_bound next_rid
advance-slot q d count pages p i stop (inl before) more few =
    advanced q d count pages p i stop (rid_at (pos p) (i + 1)) (omega arith) (ground arith)
      (ground arith)
advance-slot q d count pages p i stop (inr (same, all)) more few =
    advanced q d count pages p i stop (rid_at (pos p) (i + 1)) (omega arith) (ground arith)
      (ground arith)

-- The first slot of the next page.
pub advance-page :
    (q d count : ℕ) (pages : ℕ → TablePage) (p i stop next : ℕ)
    → p < q
    → i + 1 ≡ (pages p).num_tuples
    → (pages p).num_tuples < 2 ^ 32
    → (pages p).next_page_id ≡ pos next
    → advance (heap_at q d count pages) (iterator_at (pos p) i q stop)
      ≡ ok (iterator_at (pos next) 0 q stop)
unfolding in_bound next_rid
advance-page q d count pages p i stop next before last few link =
    advanced q d count pages p i stop (rid_at (pos next) 0) (omega (arith, last)) (ground arith)
      (behind ∙ ap (λ n. rid_at n 0) link)
  where
    behind :
        next_rid (iterator_at (pos p) i q stop) (pages p) (i + 1) ≡ rid_at (pages p).next_page_id 0
    behind = ground arith

-- The end.
pub advance-end :
    (q d count : ℕ) (pages : ℕ → TablePage) (i stop : ℕ)
    → i + 1 ≡ stop
    → stop < 2 ^ 32
    → advance (heap_at q d count pages) (iterator_at (pos q) i q stop)
      ≡ ok (iterator_at (negsuc 0) 0 q stop)
unfolding in_bound next_rid
advance-end q d count pages i stop last few =
    advanced q d count pages q i stop (rid_at (negsuc 0) 0) (omega arith) (ground arith)
      (ground arith)
