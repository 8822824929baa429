-- ===== src/Table/Heap.antt =====
-- TableHeap (src/storage/table/table_heap.cpp) with the counters of TableMeta (src/include/storage/table/table_meta.hpp).
-- The pages of the table's file come from a pool that has a frame for each page that is asked for; latches and pins
-- are left out.
pub mod Contents
pub mod Rooms
pub mod Growth
pub mod Insertion
pub mod Opening
use gavin_db.Prelude.{
  ℕ, zero, suc, ◌+◌, ◌%◌, ◌^◌, ◌==◌, Bool, true, false, not, List, length, Option, none, some,
  Result, ok, err, assertion, undefined_behaviour, out_of_fuel, guard, ◌>>=◌, ◌>>◌, put_at,
}
use gavin_db.Prelude.Int.{ℤ, pos, negsuc}
use gavin_db.Table.Page
use gavin_db.Table.Page.{TupleMeta, TablePage, init, get_next_tuple_offset}

pub record Rid : Type 0 where
  pub page_number : ℤ
  pub slot_num : ℕ

pub record Heap : Type 0 where
  pub last_table_data_page_id : ℤ
  pub last_table_heap_data_page_id : ℤ
  pub tuple_count : ℕ
  pub pages : ℕ → TablePage

-- Whether it is `INVALID_PAGE_ID`, which is -1.
abbrev pub is_invalid : ℤ → Bool
is_invalid (negsuc zero) = true
is_invalid (negsuc (suc n)) = false
is_invalid (pos n) = false

-- `IncrementTableDataPageId`, from the last page to the next one; the first is `START_PAGE_ID`.
unfoldable pub increment_table_data_page_id : ℤ → ℤ
increment_table_data_page_id (negsuc zero) = pos 0
increment_table_data_page_id (negsuc (suc n)) = negsuc n
increment_table_data_page_id (pos n) = pos (suc n)

-- `AllocatePage`
unfoldable pub allocate_page : Heap → ℤ × Heap
unfolding increment_table_data_page_id
allocate_page h =
    let p = increment_table_data_page_id h.last_table_data_page_id in
    (p, record h { last_table_data_page_id = p; last_table_heap_data_page_id = p })

-- What `FetchPage` hands out.
abbrev pub page_at : ℤ → Heap → Result TablePage
page_at (pos n) h = ok (h.pages n)
page_at (negsuc n) h = err assertion

abbrev pub put_page : ℤ → TablePage → Heap → Heap
put_page (pos n) page h = record h { pages = put_at h.pages n page }
put_page (negsuc n) page h = h

-- A page of zeros, as a new page is.
abbrev pub zero_page : TablePage
zero_page = record {
  next_page_id = pos 0;
  num_tuples = 0;
  num_deleted_tuples = 0;
  tuple_info = λ i. record { offset = 0; size = 0; meta = record { is_deleted = false } };
  page_start = λ i. 0;
}

-- `NewPageGuarded` and `Init` of the new page.
unfoldable pub new_table_page : Heap → Result (ℤ × Heap)
unfolding allocate_page init
new_table_page h =
    let (p, allocated) = allocate_page h in
    guard (not (is_invalid p)) assertion >> ok (p, put_page p (init zero_page) allocated)

-- The constructor: a table without pages gets its first one.
unfoldable pub open_heap : Heap → Result Heap
unfolding new_table_page
open_heap h = elim (is_invalid h.last_table_heap_data_page_id) [
  | true ↦ new_table_page h >>= λ (_, opened). ok opened
  | false ↦ ok h
]

-- A page behind the full one, which is linked to it.
unfoldable pub add_page : ℤ → TablePage → Heap → Result (ℤ × Heap)
unfolding new_table_page
add_page p page h = new_table_page h >>= λ (next, after).
    ok (next, put_page p (record page { next_page_id = next }) after)

-- The loop of `InsertTuple`, which goes on from a page to the one behind it until there is room for the tuple.
unfoldable pub find_room : ℕ → List ℕ → ℤ → Heap → Result (ℤ × Heap)
unfolding get_next_tuple_offset add_page
find_room zero tuple p h = err out_of_fuel
find_room (suc rounds) tuple p h = page_at p h >>= λ page.
    get_next_tuple_offset (length tuple) page >>= λ offset. elim offset [
      | some _ ↦ ok (p, h)
      | none ↦
          guard (not (page.num_tuples == 0)) assertion
          >> (add_page p page h >>= λ (next, after). find_room rounds tuple next after)
    ]

-- The end of `InsertTuple`, on the page that has room; a tuple that the page refuses is undefined.
unfoldable pub insert_into : TupleMeta → List ℕ → ℤ × Heap → Result (Rid × Heap)
unfolding Page.insert_tuple
insert_into meta tuple (p, h) = page_at p h >>= λ page.
    Page.insert_tuple meta tuple page >>= λ (slot, filled). elim slot [
      | none ↦ err undefined_behaviour
      | some slot_id ↦ ok (
        record { page_number = h.last_table_heap_data_page_id; slot_num = slot_id },
        record (put_page p filled h) { tuple_count = (h.tuple_count + 1) % 2 ^ 64 },
      )
    ]

-- `InsertTuple`
unfoldable pub insert_tuple : ℕ → TupleMeta → List ℕ → Heap → Result (Rid × Heap)
unfolding find_room insert_into
insert_tuple rounds meta tuple h =
    find_room rounds tuple h.last_table_heap_data_page_id h >>= insert_into meta tuple

-- `GetTuple`
unfoldable pub get_tuple : Rid → Heap → Result (TupleMeta × List ℕ)
unfolding Page.get_tuple
get_tuple rid h = page_at rid.page_number h >>= Page.get_tuple rid.slot_num

-- `GetTupleMeta`
unfoldable pub get_tuple_meta : Rid → Heap → Result TupleMeta
unfolding Page.get_tuple_meta
get_tuple_meta rid h = page_at rid.page_number h >>= Page.get_tuple_meta rid.slot_num

-- `UpdateTupleMeta`
unfoldable pub update_tuple_meta : TupleMeta → Rid → Heap → Result Heap
unfolding Page.update_tuple_meta
update_tuple_meta meta rid h = page_at rid.page_number h >>= λ page.
    Page.update_tuple_meta meta rid.slot_num page >>= λ updated.
    ok (put_page rid.page_number updated h)
