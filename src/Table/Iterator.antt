-- ===== src/Table/Iterator.antt =====
-- TableIterator (src/storage/table/table_iterator.cpp) and `TableHeap::MakeIterator` (src/storage/table/table_heap.cpp).
-- All identifiers are of the one table.
pub mod Steps
use gavin_db.Prelude.{
  ℕ, ◌+◌, ◌%◌, ◌^◌, ◌==◌, Bool, ◌&&◌, ◌||◌, ltb, leb, Result, ok, assertion, guard, ◌>>=◌, ◌>>◌,
  if◌then◌else◌,
}
use gavin_db.Prelude.Int.{ℤ, pos, negsuc, int_eq, ltb_ℤ}
use gavin_db.Table.Page.{TablePage}
use gavin_db.Table.Heap.{Heap, Rid, is_invalid, page_at}

pub record TableIterator : Type 0 where
  pub rid : Rid
  pub stop_at_rid : Rid

-- `MakeIterator`, from the first slot of page 1 to behind the last tuple of the last page.
unfoldable pub make_iterator : Heap → Result TableIterator
make_iterator h = page_at h.last_table_heap_data_page_id h >>= λ page. ok record {
  rid = record { page_number = pos 1; slot_num = 0 };
  stop_at_rid = record { page_number = h.last_table_heap_data_page_id; slot_num = page.num_tuples };
}

-- `IsEnd`
abbrev pub is_end : TableIterator → Bool
is_end it = is_invalid it.rid.page_number

abbrev same_rid : Rid → Rid → Bool
same_rid a b = int_eq a.page_number b.page_number && a.slot_num == b.slot_num

-- The assertion of `operator++`, for the slot behind the iterator's.
unfoldable pub in_bound : TableIterator → ℕ → Bool
in_bound it next_tuple_id =
    is_invalid it.stop_at_rid.page_number
    || (ltb_ℤ it.rid.page_number it.stop_at_rid.page_number
        || (int_eq it.rid.page_number it.stop_at_rid.page_number
            && leb next_tuple_id it.stop_at_rid.slot_num))

-- Where `operator++` goes on.
unfoldable pub next_rid : TableIterator → TablePage → ℕ → Rid
next_rid it page next_tuple_id =
    if same_rid (record { page_number = it.rid.page_number; slot_num = next_tuple_id })
      it.stop_at_rid
    then record { page_number = negsuc 0; slot_num = 0 }
    else if ltb next_tuple_id page.num_tuples
    then record { page_number = it.rid.page_number; slot_num = next_tuple_id }
    else record { page_number = page.next_page_id; slot_num = 0 }

-- `operator++`
unfoldable pub advance : Heap → TableIterator → Result TableIterator
unfolding in_bound next_rid
advance h it = page_at it.rid.page_number h >>= λ page.
    guard (in_bound it ((it.rid.slot_num + 1) % 2 ^ 32)) assertion
    >> ok (record it { rid = next_rid it page ((it.rid.slot_num + 1) % 2 ^ 32) })
