-- ===== src/Table/Page.antt =====
-- TablePage (src/include/storage/page/table_page.hpp, src/storage/page/table_page.cpp): the header
-- and the array of slots at the front of the page, and the tuples, which fill it from the back. The
-- slots are kept apart from the bytes; that the array ends before the tuples begin is part of
-- IsWellFormed (Page/Insert).
pub mod Insert
pub mod Stored
use gavin_db.Prelude.{
  ℕ, suc, ◌+◌, ◌-◌, ◌*◌, ◌%◌, ◌^◌, ◌≡◌, refl, Bool, true, false, ◌&&◌, not, Option, none, some,
  List, length, Result, ok, err, exception, assertion, guard, ◌>>=◌, ◌>>◌, ltb, leb, ◌==◌,
  if◌then◌else◌, put_at,
}
use gavin_db.Prelude.Int.{ℤ, pos, negsuc}
use gavin_db.Meta.Values.{page_size}
use gavin_db.Table.Bytes.{write_bytes, read_bytes}

pub record TupleMeta : Type 0 where
  pub is_deleted : Bool

pub record TupleInfo : Type 0 where
  pub offset : ℕ
  pub size : ℕ
  pub meta : TupleMeta

pub record TablePage : Type 0 where
  pub next_page_id : ℤ
  pub num_tuples : ℕ
  pub num_deleted_tuples : ℕ
  pub tuple_info : ℕ → TupleInfo
  pub page_start : ℕ → ℕ

-- `TABLE_PAGE_HEADER_SIZE`
abbrev pub header_size : ℕ
header_size = 8

abbrev pub tuple_info_size : ℕ
tuple_info_size = 6

-- `Init`, `next_page_id_` being -1.
unfoldable pub init : TablePage → TablePage
init page = record page { next_page_id = negsuc 0; num_tuples = 0; num_deleted_tuples = 0 }

-- Where the bytes of the last tuple begin, or the page ends.
unfoldable pub slot_end_offset : TablePage → ℕ
slot_end_offset page =
    if page.num_tuples == 0 then page_size else (page.tuple_info (page.num_tuples - 1)).offset

-- `GetNextTupleOffset` once it has the end of the free bytes: the offset of a tuple of the size.
unfoldable pub offset_below : ℕ → ℕ → ℕ → Result (Option ℕ)
offset_below slot_end size num_tuples =
    guard (leb header_size slot_end) assertion
    >> (guard (leb size (page_size - header_size)) assertion
        >> (if ltb slot_end size
            then ok none
            else if ltb (slot_end - size) (header_size + tuple_info_size * (num_tuples + 1))
            then ok none
            else (guard (leb header_size (slot_end - size) && ltb (slot_end - size) page_size)
                  assertion
                >> ok (some ((slot_end - size) % 2 ^ 16)))))

-- `GetNextTupleOffset`, for a tuple of the size.
unfoldable pub get_next_tuple_offset : ℕ → TablePage → Result (Option ℕ)
unfolding slot_end_offset offset_below
get_next_tuple_offset size page = offset_below (slot_end_offset page) size page.num_tuples

unfoldable pub place : TupleMeta → List ℕ → ℕ → TablePage → TablePage
unfolding write_bytes
place meta tuple offset page = record page {
  tuple_info =
      put_at page.tuple_info page.num_tuples
        record { offset = offset; size = length tuple % 2 ^ 16; meta = meta };
  num_tuples = (page.num_tuples + 1) % 2 ^ 16;
  page_start = write_bytes page.page_start offset tuple;
}

-- `InsertTuple` once it has the tuple's offset.
unfoldable pub insert_at : TupleMeta → List ℕ → TablePage → Option ℕ → Result (Option ℕ × TablePage)
unfolding place
insert_at meta tuple page none = ok (none, page)
insert_at meta tuple page (some offset) =
    guard (leb (offset + length tuple) page_size) assertion
    >> ok (some page.num_tuples, place meta tuple offset page)

-- `InsertTuple`: the slot, or none where the page has no room.
unfoldable pub insert_tuple : TupleMeta → List ℕ → TablePage → Result (Option ℕ × TablePage)
unfolding get_next_tuple_offset insert_at
insert_tuple meta tuple page =
    get_next_tuple_offset (length tuple) page >>= insert_at meta tuple page

unfoldable pub update_tuple_meta : TupleMeta → ℕ → TablePage → Result TablePage
update_tuple_meta meta slot page =
    if leb page.num_tuples slot
    then err exception
    else ok record page {
      num_deleted_tuples =
          if not (page.tuple_info slot).meta.is_deleted && meta.is_deleted
          then (page.num_deleted_tuples + 1) % 2 ^ 16
          else page.num_deleted_tuples;
      tuple_info = put_at page.tuple_info slot (record (page.tuple_info slot) { meta = meta });
    }

-- `GetTuple`: the slot's meta data and the bytes of the tuple.
unfoldable pub get_tuple : ℕ → TablePage → Result (TupleMeta × List ℕ)
unfolding read_bytes
get_tuple slot page =
    if leb page.num_tuples slot
    then err exception
    else (guard (leb ((page.tuple_info slot).offset + (page.tuple_info slot).size) page_size)
          assertion
        >> ok (
          (page.tuple_info slot).meta,
          read_bytes page.page_start (page.tuple_info slot).offset (page.tuple_info slot).size,
        ))

unfoldable pub get_tuple_meta : ℕ → TablePage → Result TupleMeta
get_tuple_meta slot page =
    if leb page.num_tuples slot then err exception else ok (page.tuple_info slot).meta
