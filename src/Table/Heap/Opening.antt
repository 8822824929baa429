-- ===== src/Table/Heap/Opening.antt =====
-- The first page of a table (Heap).
use gavin_db.Prelude.{ℕ, suc, ◌≡◌, refl, sym, ap, [], ok, put_at, put_at_self, arith}
use gavin_db.Prelude.Int.{pos, negsuc}
use mathlib.Core.Path.{subst}
use gavin_db.Table.Page.{TablePage, init}
use gavin_db.Table.Heap.{
  Heap, zero_page, open_heap, new_table_page, allocate_page, increment_table_data_page_id,
}
use gavin_db.Table.Heap.Contents.{PageHolds, Linked, PagesHold, HeapHolds, heap_at}
use gavin_db.Table.Heap.Rooms.{empty-PageHolds}

-- A table whose file has pages up to `d`, and none for tuples.
abbrev pub no_heap : ℕ → ℕ → (ℕ → TablePage) → Heap
no_heap d count pages = record {
  last_table_data_page_id = pos d;
  last_table_heap_data_page_id = negsuc 0;
  tuple_count = count;
  pages = pages;
}

pub open_heap-HeapHolds :
    (d count : ℕ) (pages : ℕ → TablePage)
    → (h : Heap) × (open_heap (no_heap d count pages) ≡ ok h) × HeapHolds h (suc d) [] []
unfolding open_heap new_table_page allocate_page increment_table_data_page_id HeapHolds PagesHold
    Linked init
open_heap-HeapHolds d count pages =
    let self = sym (put_at_self pages (suc d) (init zero_page)) in
    (
      heap_at (suc d) (suc d) count (put_at pages (suc d) (init zero_page)),
      refl,
      (
        suc d,
        suc d,
        count,
        put_at pages (suc d) (init zero_page),
        refl,
        omega arith,
        (
          refl,
          subst (λ p. PageHolds p []) self empty-PageHolds,
          sym (ap (λ p. p.next_page_id) self),
        ),
      ),
    )
