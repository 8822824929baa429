-- ===== src/Table/Heap/Growth.antt =====
-- The steps of `InsertTuple`: a page that takes the tuple, and a new page behind the last (Heap, Contents).
use gavin_db.Prelude.{
  ℕ, suc, ◌+◌, ◌-◌, ◌%◌, ◌^◌, ◌<◌, ◌≤◌, ◌≡◌, sym, ap, ◌∙◌, List, [], ◌∷◌, ◌++◌, length, true, not,
  undefined_behaviour, Result, err, Option, none, some, ok, arith, put_at, put_at_self, put_at_ne,
  ◌>>=◌, ◌==◌,
}
use gavin_db.Prelude.Int.{pos, negsuc}
use mathlib.Core.Path.{subst}
use gavin_db.Table.Page.{TupleMeta, TablePage, slot_end_offset, init}
use gavin_db.Table.Page.Insert.{placed, insert_tuple-placed}
use gavin_db.Table.Heap.{
  Heap, Rid, zero_page, find_room, insert_into, add_page, new_table_page, allocate_page,
  increment_table_data_page_id,
}
use gavin_db.Table.Heap.Contents.{Row, PageHolds, Linked-kept, Linked-next, PagesHold, heap_at}
use gavin_db.Table.Heap.Rooms.{
  HasRoom, IsSmall, filled-PageHolds, get_next_tuple_offset-room, get_next_tuple_offset-full,
  empty-PageHolds, full-some, relinked-PageHolds,
}

abbrev pub filled : ℕ → TupleMeta → List ℕ → (ℕ → TablePage) → ℕ → TablePage
filled q meta tuple pages =
    put_at pages q (placed meta tuple (slot_end_offset (pages q) - length tuple) (pages q))

pub insert_into-filled :
    (q d count : ℕ) (pages : ℕ → TablePage) (rows : List Row) (meta : TupleMeta) (tuple : List ℕ)
    → PageHolds (pages q) rows
    → 0 < length tuple
    → HasRoom (length tuple) (pages q)
    → insert_into meta tuple (pos q, heap_at q d count pages)
      ≡ ok (
        record { page_number = pos q; slot_num = (pages q).num_tuples },
        heap_at q d ((count + 1) % 2 ^ 64) (filled q meta tuple pages),
      )
unfolding insert_into PageHolds HasRoom
insert_into-filled q d count pages rows meta tuple (formed, _, _) positive room =
    ap
      (λ (r : Result (Option ℕ × TablePage)). r >>= λ (slot, page).
        elim slot as (λ _. Result (Rid × Heap)) [
          | none ↦ err undefined_behaviour
          | some slot_id ↦ ok (
            record { page_number = pos q; slot_num = slot_id },
            heap_at q d ((count + 1) % 2 ^ 64) (put_at pages q page),
          )
        ])
      (insert_tuple-placed meta tuple (pages q) formed positive room)

pub filled-PagesHold :
    (first q : ℕ) (pages : ℕ → TablePage) (full : List (List Row)) (rows : List Row)
    (meta : TupleMeta) (tuple : List ℕ)
    → PagesHold pages first q full rows
    → 0 < length tuple
    → HasRoom (length tuple) (pages q)
    → PagesHold (filled q meta tuple pages) first q full (rows ++ (meta, tuple) ∷ [])
unfolding PagesHold
filled-PagesHold first q pages full rows meta tuple (linked, holds, end) positive room =
    let page : TablePage = placed meta tuple (slot_end_offset (pages q) - length tuple) (pages q) in
    let self = sym (put_at_self pages q page) in
    (
      Linked-kept pages (put_at pages q page) first q full
          (λ n below. put_at_ne pages q page n (λ e. omega (arith, e))) linked,
      subst (λ p. PageHolds p (rows ++ (meta, tuple) ∷ [])) self
          (filled-PageHolds (pages q) rows meta tuple holds positive room),
      subst (λ p. p.next_page_id ≡ negsuc 0) self end,
    )

pub find_room-room :
    (rounds q d count : ℕ) (pages : ℕ → TablePage) (rows : List Row) (tuple : List ℕ)
    → PageHolds (pages q) rows
    → 0 < length tuple
    → HasRoom (length tuple) (pages q)
    → find_room (suc rounds) tuple (pos q) (heap_at q d count pages)
      ≡ ok (pos q, heap_at q d count pages)
unfolding find_room PageHolds
find_room-room rounds q d count pages rows tuple (formed, _, _) positive room =
    rw (get_next_tuple_offset-room (pages q) (length tuple) formed positive room, find_room)

-- The pages with a new one behind the last.
abbrev pub grown : ℕ → ℕ → (ℕ → TablePage) → ℕ → TablePage
grown q d pages =
    put_at (put_at pages (suc d) (init zero_page)) q
      (record (pages q) { next_page_id = pos (suc d) })

not_zero : (n : ℕ) → 0 < n → not (n == 0) ≡ true
not_zero n h = ground arith

pub find_room-full :
    (rounds q d count : ℕ) (pages : ℕ → TablePage) (rows : List Row) (tuple : List ℕ)
    → PageHolds (pages q) rows
    → IsSmall tuple
    → ¬ HasRoom (length tuple) (pages q)
    → find_room (suc rounds) tuple (pos q) (heap_at q d count pages)
      ≡ find_room rounds tuple (pos (suc d)) (heap_at (suc d) (suc d) count (grown q d pages))
unfolding find_room add_page new_table_page allocate_page increment_table_data_page_id PageHolds
find_room-full rounds q d count pages rows tuple (formed, counted, held) (positive, small) full =
    rw (
      get_next_tuple_offset-full (pages q) (length tuple) formed (omega arith) full,
      not_zero (pages q).num_tuples
          (full-some (pages q) rows tuple (formed, counted, held) (positive, small) full),
      find_room,
    )

pub grown_new : (q d : ℕ) (pages : ℕ → TablePage) → q ≤ d → grown q d pages (suc d) ≡ init zero_page
unfolding init
grown_new q d pages below =
    put_at_ne (put_at pages (suc d) (init zero_page)) q
      (record (pages q) { next_page_id = pos (suc d) }) (suc d) (λ e. omega (arith, e, below))
    ∙ put_at_self pages (suc d) (init zero_page)

pub grown-PagesHold :
    (first q d : ℕ) (pages : ℕ → TablePage) (full : List (List Row)) (rows : List Row)
    → PagesHold pages first q full rows
    → q ≤ d
    → 0 < length rows
    → PagesHold (grown q d pages) first (suc d) (full ++ rows ∷ []) []
unfolding PagesHold init
grown-PagesHold first q d pages full rows (linked, holds, end) below some_rows =
    let linked_page : TablePage = record (pages q) { next_page_id = pos (suc d) } in
    let at_new : grown q d pages (suc d) ≡ init zero_page = grown_new q d pages below in
    let at_old = put_at_self (put_at pages (suc d) (init zero_page)) q linked_page in
    (
      Linked-next (grown q d pages) first q (suc d) full rows
          (Linked-kept pages (grown q d pages) first q full
            (λ n under.
              put_at_ne (put_at pages (suc d) (init zero_page)) q linked_page n
                (λ e. omega (arith, e))
              ∙ put_at_ne pages (suc d) (init zero_page) n (λ e. omega (arith, e)))
            linked)
          (subst (λ p. PageHolds p rows) (sym at_old)
            (relinked-PageHolds (pages q) rows (pos (suc d)) holds))
          some_rows (ap (λ p. p.next_page_id) at_old) (omega arith),
      subst (λ p. PageHolds p []) (sym at_new) empty-PageHolds,
      ap (λ p. p.next_page_id) at_new,
    )
