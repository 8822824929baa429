-- ===== src/Table/Page/Stored.antt =====
-- What a page gives back of the tuples that were inserted (Page, Page/Insert).
use gavin_db.Prelude.{
  ℕ, ◌+◌, ◌-◌, ◌*◌, ◌<◌, ◌≤◌, ◌≡◌, refl, sym, ap, ◌∙◌, none, some, List, length, ok, put_at,
  put_at_self, put_at_ne, arith, ◌>>=◌, ℕ_discrete,
}
use mathlib.Core.Path.{subst}
use gavin_db.Meta.Values.{page_size}
use gavin_db.Table.Bytes.{write_bytes, read_bytes, read_bytes-write_bytes, read_bytes-behind}
use gavin_db.Table.Page.{
  TupleMeta, TupleInfo, TablePage, header_size, tuple_info_size, slot_end_offset, insert_tuple,
  insert_at, get_next_tuple_offset, get_tuple,
}
use gavin_db.Table.Page.Insert.{
  IsWellFormed, placed, insert_tuple-placed, slot_end_offset-placed, get_tuple-live,
  offset_below-none,
}

abbrev info : TupleMeta → List ℕ → ℕ → TupleInfo
info meta tuple offset = record { offset = offset; size = length tuple; meta = meta }

-- A slot lies between the free bytes and the page's end.
abbrev Within : ℕ → TupleInfo → Type 0
Within end i = (end ≤ i.offset) × (i.offset + i.size ≤ page_size)

lower : (offset n end : ℕ) → offset + n ≡ end → (i : TupleInfo) → Within end i → Within offset i
lower offset n end e i (above, inside) = (omega arith, inside)

placed-Within :
    (meta : TupleMeta) (tuple : List ℕ) (page : TablePage) (offset : ℕ)
    → slot_end_offset page ≤ page_size
    → ((slot : ℕ) → slot < page.num_tuples → Within (slot_end_offset page) (page.tuple_info slot))
    → offset + length tuple ≡ slot_end_offset page
    → (slot : ℕ) → slot < page.num_tuples + 1
    → Within offset ((placed meta tuple offset page).tuple_info slot)
placed-Within meta tuple page offset end tuples e slot live =
    elim (ℕ_discrete slot page.num_tuples) [
      | Dec.yes same ↦
          subst
            (λ n. Within offset (put_at page.tuple_info page.num_tuples (info meta tuple offset) n))
            (sym same)
            (subst (Within offset)
              (sym (put_at_self page.tuple_info page.num_tuples (info meta tuple offset)))
              (omega arith, omega arith))
      | Dec.no other ↦
          subst (Within offset)
            (sym (
              put_at_ne page.tuple_info page.num_tuples (info meta tuple offset) slot
                (λ q. other (sym q))))
            (lower offset (length tuple) (slot_end_offset page) e (page.tuple_info slot)
              (tuples slot (omega (arith, other))))
    ]

pub placed-IsWellFormed :
    (meta : TupleMeta) (tuple : List ℕ) (page : TablePage) (offset : ℕ)
    → IsWellFormed page
    → offset + length tuple ≡ slot_end_offset page
    → header_size + tuple_info_size * (page.num_tuples + 1) ≤ offset
    → IsWellFormed (placed meta tuple offset page)
unfolding IsWellFormed
placed-IsWellFormed meta tuple page offset (slots, end, tuples) e room = (
  omega (arith, slot_end_offset-placed meta tuple offset page),
  omega (arith, slot_end_offset-placed meta tuple offset page),
  λ slot live.
      subst (λ n. Within n ((placed meta tuple offset page).tuple_info slot))
        (sym (slot_end_offset-placed meta tuple offset page))
        (placed-Within meta tuple page offset end tuples e slot live),
)

pub new_tuple :
    (meta : TupleMeta) (tuple : List ℕ) (page : TablePage) (offset : ℕ)
    → offset + length tuple ≤ page_size
    → get_tuple page.num_tuples (placed meta tuple offset page) ≡ ok (meta, tuple)
new_tuple meta tuple page offset inside =
    get_tuple-live page.num_tuples (placed meta tuple offset page) (omega arith) (
      subst (λ i. i.offset + i.size ≤ page_size)
        (sym (put_at_self page.tuple_info page.num_tuples (info meta tuple offset))) inside)
    ∙ ap (λ i. ok (i.meta, read_bytes (write_bytes page.page_start offset tuple) i.offset i.size))
        (put_at_self page.tuple_info page.num_tuples (info meta tuple offset))
    ∙ ap (λ l. ok (meta, l)) (read_bytes-write_bytes page.page_start offset tuple)

pub old_tuple :
    (meta : TupleMeta) (tuple : List ℕ) (page : TablePage) (offset slot : ℕ)
    → IsWellFormed page
    → offset + length tuple ≡ slot_end_offset page
    → slot < page.num_tuples
    → get_tuple slot (placed meta tuple offset page) ≡ get_tuple slot page
unfolding IsWellFormed
old_tuple meta tuple page offset slot (slots, end, tuples) e live =
    let same =
      put_at_ne page.tuple_info page.num_tuples (info meta tuple offset) slot
        (λ q. omega (arith, q)) in
    let (above, inside) = tuples slot live in
    get_tuple-live slot (placed meta tuple offset page) (omega arith)
      (subst (λ i. i.offset + i.size ≤ page_size) (sym same) inside)
    ∙ ap (λ i. ok (i.meta, read_bytes (write_bytes page.page_start offset tuple) i.offset i.size))
        same
    ∙ ap (λ l. ok ((page.tuple_info slot).meta, l))
        (read_bytes-behind page.page_start offset tuple (page.tuple_info slot).offset
          (page.tuple_info slot).size (omega arith))
    ∙ sym (get_tuple-live slot page live inside)

pub ends_inside : (page : TablePage) → IsWellFormed page → slot_end_offset page ≤ page_size
unfolding IsWellFormed
ends_inside page (slots, end, tuples) = end

-- A tuple that is not empty and finds room between the slots and the tuples of a well-formed page
-- is inserted: it takes the next slot, the page stays well-formed and has one tuple more, the slot
-- gives back the tuple with its meta data, and every older slot gives back what it gave before.
pub insert_tuple-Stored :
    (meta : TupleMeta) (tuple : List ℕ) (page : TablePage)
    → IsWellFormed page
    → 0 < length tuple
    → header_size + tuple_info_size * (page.num_tuples + 1) + length tuple ≤ slot_end_offset page
    → (after : TablePage) × (insert_tuple meta tuple page ≡ ok (some page.num_tuples, after))
      × IsWellFormed after
      × (after.num_tuples ≡ page.num_tuples + 1)
      × (get_tuple page.num_tuples after ≡ ok (meta, tuple))
      × ((slot : ℕ) → slot < page.num_tuples → get_tuple slot after ≡ get_tuple slot page)
insert_tuple-Stored meta tuple page formed positive room = (
  placed meta tuple (slot_end_offset page - length tuple) page,
  insert_tuple-placed meta tuple page formed positive room,
  placed-IsWellFormed meta tuple page (slot_end_offset page - length tuple) formed (omega arith)
      (omega arith),
  refl,
  new_tuple meta tuple page (slot_end_offset page - length tuple)
      (omega (arith, ends_inside page formed)),
  λ slot live.
      old_tuple meta tuple page (slot_end_offset page - length tuple) slot formed (omega arith)
        live,
)

-- A tuple that a page could hold but that finds no room between the slots and the tuples of a
-- well-formed page is refused, and the page is left as it was.
pub insert_tuple-full :
    (meta : TupleMeta) (tuple : List ℕ) (page : TablePage)
    → IsWellFormed page
    → length tuple ≤ page_size - header_size
    → slot_end_offset page < header_size + tuple_info_size * (page.num_tuples + 1) + length tuple
    → insert_tuple meta tuple page ≡ ok (none, page)
unfolding insert_tuple insert_at get_next_tuple_offset IsWellFormed
insert_tuple-full meta tuple page (slots, end, tuples) small full =
    ap (λ r. r >>= insert_at meta tuple page)
      (offset_below-none (slot_end_offset page) (length tuple) page.num_tuples (omega arith) small
        full)
