-- ===== src/Tests/Table.antt =====
-- An empty page, a page of one tuple, and a tuple that the rest of the page cannot hold.
use gavin_db.Prelude.{ℕ, ◌+◌, ◌<◌, ◌≡◌, refl, List, [], ◌∷◌, arith, none, some, false, ok}
use gavin_db.Prelude.Int.{negsuc}
use gavin_db.Table.Page.{TupleMeta, TablePage, slot_end_offset, insert_tuple, get_tuple}
use gavin_db.Table.Page.Insert.{IsWellFormed}
use gavin_db.Table.Page.Stored.{insert_tuple-Stored, insert_tuple-full}

abbrev live : TupleMeta
live = record { is_deleted = false }

abbrev empty_page : TablePage
empty_page = record {
  next_page_id = negsuc 0;
  num_tuples = 0;
  num_deleted_tuples = 0;
  tuple_info = λ i. record { offset = 0; size = 0; meta = live };
  page_start = λ i. 0;
}

-- A page whose one tuple takes nearly all of it.
abbrev full_page : TablePage
full_page = record empty_page {
  num_tuples = 1;
  tuple_info = λ i. record { offset = 20; size = 4076; meta = live };
}

empty_page-IsWellFormed : IsWellFormed empty_page
unfolding IsWellFormed slot_end_offset
empty_page-IsWellFormed = (omega arith, omega arith, λ slot h. absurd (omega arith))

full_page-IsWellFormed : IsWellFormed full_page
unfolding IsWellFormed slot_end_offset
full_page-IsWellFormed = (omega arith, omega arith, λ slot h. (omega arith, omega arith))

empty_end : slot_end_offset empty_page ≡ 4096
unfolding slot_end_offset
empty_end = refl

full_end : slot_end_offset full_page ≡ 20
unfolding slot_end_offset
full_end = refl

abbrev row : List ℕ
row = 1 ∷ 2 ∷ 3 ∷ []

insert_tuple-Stored_example :
    (after : TablePage) × (insert_tuple live row empty_page ≡ ok (some 0, after))
    × IsWellFormed after
    × (after.num_tuples ≡ 0 + 1)
    × (get_tuple 0 after ≡ ok (live, row))
    × ((slot : ℕ) → slot < 0 → get_tuple slot after ≡ get_tuple slot empty_page)
insert_tuple-Stored_example =
    insert_tuple-Stored live row empty_page empty_page-IsWellFormed (omega arith)
      (omega (arith, empty_end))

insert_tuple-full_example : insert_tuple live row full_page ≡ ok (none, full_page)
insert_tuple-full_example =
    insert_tuple-full live row full_page full_page-IsWellFormed (omega arith)
      (omega (arith, full_end))
