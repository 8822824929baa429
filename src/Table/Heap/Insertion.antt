-- ===== src/Table/Heap/Insertion.antt =====
-- What `InsertTuple` does to the tuples of a heap (Heap, Contents).
use gavin_db.Prelude.{
  ℕ, suc, ◌+◌, ◌-◌, ◌%◌, ◌^◌, ◌<◌, ◌≤◌, ◌≡◌, refl, sym, ap, ◌∙◌, List, [], ◌∷◌, ◌++◌, length,
  length-append, append-nil, inl, inr, ok, arith, put_at_self, ◌>>=◌,
}
use gavin_db.Prelude.Int.{pos}
use mathlib.Core.Path.{subst}
use gavin_db.Table.Page.{TupleMeta, TablePage, slot_end_offset, init, get_next_tuple_offset}
use gavin_db.Table.Page
use gavin_db.Table.Page.Insert.{placed}
use gavin_db.Table.Heap.{Heap, Rid, zero_page, insert_into, insert_tuple, get_tuple}
use gavin_db.Table.Heap.Contents.{
  Row, PageHolds, PagesHold, HeapHolds, heap_at, all_rows, all_rows-append, all_rows-next,
}
use gavin_db.Table.Heap.Rooms.{
  HasRoom, IsSmall, empty-HasRoom, full-some, placed_tuple, room_or_not,
}
use gavin_db.Table.Heap.Growth.{
  filled, insert_into-filled, filled-PagesHold, find_room-room, grown, find_room-full, grown_new,
  grown-PagesHold,
}

-- What an insertion has done: the row is behind the others, and its place gives it back.
abbrev pub Inserted : ℕ → Heap → ℕ → List (List Row) → List Row → Row → Type 0
Inserted rounds h first full rows (meta, tuple) =
    (rid : Rid) × (after : Heap) × (full_after : List (List Row)) × (rows_after : List Row)
    × (insert_tuple rounds meta tuple h ≡ ok (rid, after))
    × HeapHolds after first full_after rows_after
    × (0 < length rows_after)
    × (all_rows full_after rows_after ≡ all_rows full rows ++ (meta, tuple) ∷ [])
    × (get_tuple rid after ≡ ok (meta, tuple))

-- The insertion on the page that has room, after the loop.
inserted_into :
    (first q d count : ℕ) (pages : ℕ → TablePage) (full : List (List Row)) (rows : List Row)
    (meta : TupleMeta) (tuple : List ℕ)
    → q ≤ d
    → PagesHold pages first q full rows
    → 0 < length tuple
    → HasRoom (length tuple) (pages q)
    → (rid : Rid) × (after : Heap) × (insert_into meta tuple (pos q, heap_at q d count pages)
        ≡ ok (rid, after))
      × HeapHolds after first full (rows ++ (meta, tuple) ∷ [])
      × (get_tuple rid after ≡ ok (meta, tuple))
unfolding HeapHolds get_tuple PagesHold
inserted_into first q d count pages full rows meta tuple below (linked, holds, end) positive room =
    let page : TablePage = placed meta tuple (slot_end_offset (pages q) - length tuple) (pages q) in
    (
      record { page_number = pos q; slot_num = (pages q).num_tuples },
      heap_at q d ((count + 1) % 2 ^ 64) (filled q meta tuple pages),
      insert_into-filled q d count pages rows meta tuple holds positive room,
      (
        q,
        d,
        (count + 1) % 2 ^ 64,
        filled q meta tuple pages,
        refl,
        below,
        filled-PagesHold first q pages full rows meta tuple (linked, holds, end) positive room,
      ),
      ap (λ p. Page.get_tuple (pages q).num_tuples p) (put_at_self pages q page)
          ∙ placed_tuple (pages q) rows meta tuple holds positive room,
    )

inserted_room :
    (rounds first q d count : ℕ) (pages : ℕ → TablePage) (full : List (List Row)) (rows : List Row)
    (meta : TupleMeta) (tuple : List ℕ)
    → q ≤ d
    → PagesHold pages first q full rows
    → 0 < length tuple
    → HasRoom (length tuple) (pages q)
    → Inserted (suc rounds) (heap_at q d count pages) first full rows (meta, tuple)
unfolding insert_tuple PagesHold
inserted_room rounds first q d count pages full rows meta tuple below (linked, holds, end) positive
      room =
    let (rid, after, inserted, held, stored) =
      inserted_into first q d count pages full rows meta tuple below (linked, holds, end) positive
        room in
    (
      rid,
      after,
      full,
      rows ++ (meta, tuple) ∷ [],
      ap (λ r. r >>= insert_into meta tuple)
            (find_room-room rounds q d count pages rows tuple holds positive room)
          ∙ inserted,
      held,
      omega (arith, length-append rows ((meta, tuple) ∷ [])),
      all_rows-append full rows ((meta, tuple) ∷ []),
      stored,
    )

inserted_behind :
    (rounds first q d count : ℕ) (pages : ℕ → TablePage) (full : List (List Row)) (rows : List Row)
    (meta : TupleMeta) (tuple : List ℕ)
    → q ≤ d
    → PagesHold pages first q full rows
    → IsSmall tuple
    → ¬ HasRoom (length tuple) (pages q)
    → Inserted (suc (suc rounds)) (heap_at q d count pages) first full rows (meta, tuple)
unfolding insert_tuple PagesHold PageHolds
inserted_behind rounds first q d count pages full rows meta tuple below
      (linked, (formed, counted, slots), end) small no_room =
    let holds : PageHolds (pages q) rows = (formed, counted, slots) in
    let some_rows : 0 < length rows =
      omega (arith, counted, full-some (pages q) rows tuple holds small no_room) in
    let behind = grown-PagesHold first q d pages full rows (linked, holds, end) below some_rows in
    let new_page : grown q d pages (suc d) ≡ init zero_page = grown_new q d pages below in
    let (rid, after, full_after, rows_after, inserted, held, some_after, appended, stored) =
      inserted_room rounds first (suc d) (suc d) count (grown q d pages) (full ++ rows ∷ []) [] meta
        tuple (omega arith) behind small.0
        (subst (HasRoom (length tuple)) (sym new_page) (empty-HasRoom tuple small)) in
    (
      rid,
      after,
      full_after,
      rows_after,
      ap (λ r. r >>= insert_into meta tuple)
            (find_room-full (suc rounds) q d count pages rows tuple holds small no_room)
          ∙ inserted,
      held,
      some_after,
      appended
          ∙ ap (λ r. r ++ (meta, tuple) ∷ [])
              (all_rows-next full rows [] ∙ append-nil (all_rows full rows)),
      stored,
    )

-- A tuple that is not empty and no larger than an empty page has room for is inserted into a table heap, in two rounds
-- of the loop: its row is behind all the rows that the heap held, on the last page or on a new one that is linked to
-- it, and the identifier that is returned gives back the tuple.
pub insert_tuple-Inserted :
    (rounds : ℕ) (h : Heap) (first : ℕ) (full : List (List Row)) (rows : List Row)
    (meta : TupleMeta) (tuple : List ℕ)
    → HeapHolds h first full rows
    → IsSmall tuple
    → Inserted (suc (suc rounds)) h first full rows (meta, tuple)
unfolding HeapHolds
insert_tuple-Inserted rounds h first full rows meta tuple (q, d, count, pages, same, below, held)
      small =
    subst (λ heap. Inserted (suc (suc rounds)) heap first full rows (meta, tuple)) (sym same)
      (elim (room_or_not (length tuple) (pages q)) [
        | inl room ↦
            inserted_room (suc rounds) first q d count pages full rows meta tuple below held small.0
              room
        | inr no_room ↦
            inserted_behind rounds first q d count pages full rows meta tuple below held small
              no_room
      ])
