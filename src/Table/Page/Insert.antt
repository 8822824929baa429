-- ===== src/Table/Page/Insert.antt =====
-- The tuples of a page stay in their places while others are put beside them (table_page.cpp).
use gavin_db.Prelude.{
  ℕ, ◌+◌, ◌-◌, ◌*◌, ◌%◌, ◌^◌, ◌<◌, ◌≤◌, ◌≡◌, ap, ◌∙◌, true, none, some, List, length, ok, assertion,
  guard, ◌>>=◌, ◌>>◌, leb, put_at, arith,
}
use gavin_db.Meta.Values.{page_size}
use gavin_db.Table.Bytes.{write_bytes, read_bytes}
use gavin_db.Table.Page.{
  TupleMeta, TablePage, header_size, tuple_info_size, slot_end_offset, offset_below,
  get_next_tuple_offset, place, insert_at, insert_tuple, get_tuple,
}

-- The slots end before the tuples begin, and each tuple lies between there and the page's end.
unfoldable pub IsWellFormed : TablePage → Type 0
unfolding slot_end_offset
IsWellFormed page =
    (header_size + tuple_info_size * page.num_tuples ≤ slot_end_offset page)
    × (slot_end_offset page ≤ page_size)
    × ((slot : ℕ)
        → slot < page.num_tuples
        → (slot_end_offset page ≤ (page.tuple_info slot).offset)
          × ((page.tuple_info slot).offset + (page.tuple_info slot).size ≤ page_size))

le→leb : (a b : ℕ) → a ≤ b → leb a b ≡ true
le→leb a b h = ground arith

pub offset_below-found :
    (slot_end size n : ℕ)
    → slot_end ≤ page_size
    → 0 < size
    → header_size + tuple_info_size * (n + 1) + size ≤ slot_end
    → offset_below slot_end size n ≡ ok (some (slot_end - size))
unfolding offset_below
offset_below-found slot_end size n end positive room = ground arith

pub offset_below-none :
    (slot_end size n : ℕ)
    → header_size ≤ slot_end
    → size ≤ page_size - header_size
    → slot_end < header_size + tuple_info_size * (n + 1) + size
    → offset_below slot_end size n ≡ ok none
unfolding offset_below
offset_below-none slot_end size n low small full = ground arith

-- `place` without the wrap of its numbers.
abbrev pub placed : TupleMeta → List ℕ → ℕ → TablePage → TablePage
placed meta tuple offset page = record page {
  tuple_info =
      put_at page.tuple_info page.num_tuples
        record { offset = offset; size = length tuple; meta = meta };
  num_tuples = page.num_tuples + 1;
  page_start = write_bytes page.page_start offset tuple;
}

place-placed :
    (meta : TupleMeta) (tuple : List ℕ) (offset : ℕ) (page : TablePage)
    → length tuple ≤ page_size
    → page.num_tuples < page_size
    → place meta tuple offset page ≡ placed meta tuple offset page
unfolding place
place-placed meta tuple offset page short few =
    ap
      (λ n. record page {
        tuple_info =
            put_at page.tuple_info page.num_tuples
              record { offset = offset; size = n; meta = meta };
        num_tuples = (page.num_tuples + 1) % 2 ^ 16;
        page_start = write_bytes page.page_start offset tuple;
      })
      (omega arith)
    ∙ ap (λ n. record (placed meta tuple offset page) { num_tuples = n }) (omega arith)

pub insert_tuple-placed :
    (meta : TupleMeta) (tuple : List ℕ) (page : TablePage)
    → IsWellFormed page
    → 0 < length tuple
    → header_size + tuple_info_size * (page.num_tuples + 1) + length tuple ≤ slot_end_offset page
    → insert_tuple meta tuple page
      ≡ ok (some page.num_tuples, placed meta tuple (slot_end_offset page - length tuple) page)
unfolding insert_tuple insert_at get_next_tuple_offset IsWellFormed
insert_tuple-placed meta tuple page (slots, end, tuples) positive room =
    ap (λ r. r >>= insert_at meta tuple page)
      (offset_below-found (slot_end_offset page) (length tuple) page.num_tuples end positive room)
    ∙ ap
        (λ b.
          guard b assertion
          >> ok (some page.num_tuples, place meta tuple (slot_end_offset page - length tuple) page))
        (le→leb (slot_end_offset page - length tuple + length tuple) page_size (omega arith))
    ∙ ap (λ p. ok (some page.num_tuples, p))
        (place-placed meta tuple (slot_end_offset page - length tuple) page (omega arith)
          (omega arith))

pub slot_end_offset-placed :
    (meta : TupleMeta) (tuple : List ℕ) (offset : ℕ) (page : TablePage)
    → slot_end_offset (placed meta tuple offset page) ≡ offset
unfolding slot_end_offset
slot_end_offset-placed meta tuple offset page = ground arith

-- The tuple of a slot in use whose bytes lie in the page.
pub get_tuple-live :
    (slot : ℕ) (page : TablePage)
    → slot < page.num_tuples
    → (page.tuple_info slot).offset + (page.tuple_info slot).size ≤ page_size
    → get_tuple slot page
      ≡ ok (
        (page.tuple_info slot).meta,
        read_bytes page.page_start (page.tuple_info slot).offset (page.tuple_info slot).size,
      )
unfolding get_tuple
get_tuple-live slot page live inside = ground arith
