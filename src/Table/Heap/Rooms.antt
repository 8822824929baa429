-- ===== src/Table/Heap/Rooms.antt =====
-- A page of a table heap that has room for a tuple, and one that has not (Heap, Page).
use gavin_db.Prelude.{
  ℕ, zero, suc, ◌+◌, ◌-◌, ◌*◌, ◌<◌, ◌≤◌, ◌≡◌, refl, sym, ap, ◌∙◌, List, [], ◌∷◌, ◌++◌, length,
  length-append, get_elem?, none, some, ok, ◌⊎◌, inl, inr, arith, dec_lt,
}
use gavin_db.Prelude.Int.{ℤ}
use mathlib.Core.Option.{some-injective, none-ne-some}
use gavin_db.Meta.Values.{page_size}
use gavin_db.Table.Page.{
  TupleMeta, TablePage, header_size, tuple_info_size, slot_end_offset, init, get_next_tuple_offset,
}
use gavin_db.Table.Page
use gavin_db.Table.Page.Insert.{IsWellFormed, placed, offset_below-found, offset_below-none}
use gavin_db.Table.Page.Stored.{placed-IsWellFormed, new_tuple, old_tuple, ends_inside}
use gavin_db.Table.Heap.{zero_page}
use gavin_db.Table.Heap.Contents.{Row, PageHolds}

-- There is room for a tuple of the size between the slots and the tuples.
unfoldable pub HasRoom : ℕ → TablePage → Type 0
unfolding slot_end_offset
HasRoom size page =
    header_size + tuple_info_size * (page.num_tuples + 1) + size ≤ slot_end_offset page

pub room_or_not : (size : ℕ) (page : TablePage) → HasRoom size page ⊎ (¬ HasRoom size page)
unfolding HasRoom
room_or_not size page =
    elim (dec_lt (slot_end_offset page)
      (header_size + tuple_info_size * (page.num_tuples + 1) + size)) [
        | Dec.yes below ↦ inr (λ room. omega (arith, below, room))
        | Dec.no not_below ↦ inl (omega (arith, not_below))
      ]

-- A tuple that an empty page has room for.
abbrev pub IsSmall : List ℕ → Type 0
IsSmall tuple = (0 < length tuple) × (length tuple ≤ page_size - header_size - tuple_info_size)

elements-append :
    (rows : List Row) (row found : Row) (i : ℕ)
    → get_elem? (rows ++ row ∷ []) i ≡ some found
    → ((i ≡ length rows) × (row ≡ found)) ⊎ ((i < length rows) × (get_elem? rows i ≡ some found))
elements-append [] row found zero e = inl (refl, some-injective row found e)
elements-append [] row found (suc i) e = absurd (none-ne-some found e)
elements-append (first ∷ rows) row found zero e = inr (omega arith, e)
elements-append (first ∷ rows) row found (suc i) e = elim (elements-append rows row found i e) [
  | inl (at_end, same) ↦ inl (omega (arith, at_end), same)
  | inr (inside, old) ↦ inr (omega (arith, inside), old)
]

-- The slots of a page with one more tuple.
filled_slot :
    (page : TablePage) (rows : List Row) (meta : TupleMeta) (tuple : List ℕ)
    → PageHolds page rows
    → 0 < length tuple
    → HasRoom (length tuple) page
    → (i : ℕ) (row : Row) → get_elem? (rows ++ (meta, tuple) ∷ []) i ≡ some row
    → Page.get_tuple i (placed meta tuple (slot_end_offset page - length tuple) page) ≡ ok row
unfolding PageHolds HasRoom
filled_slot page rows meta tuple (formed, count, stored) positive room i row e =
    elim (elements-append rows (meta, tuple) row i e) [
      | inl (at_end, same) ↦
          ap (λ n. Page.get_tuple n (placed meta tuple (slot_end_offset page - length tuple) page))
            (at_end ∙ sym count)
          ∙ new_tuple meta tuple page (slot_end_offset page - length tuple)
              (omega (arith, ends_inside page formed))
          ∙ ap ok same
      | inr (inside, old) ↦
          old_tuple meta tuple page (slot_end_offset page - length tuple) i formed (omega arith)
            (omega (arith, inside, count))
          ∙ stored i row old
    ]

pub filled-PageHolds :
    (page : TablePage) (rows : List Row) (meta : TupleMeta) (tuple : List ℕ)
    → PageHolds page rows
    → 0 < length tuple
    → HasRoom (length tuple) page
    → PageHolds
        (placed meta tuple (slot_end_offset page - length tuple) page)
        (rows ++ (meta, tuple) ∷ [])
unfolding PageHolds HasRoom
filled-PageHolds page rows meta tuple (formed, count, stored) positive room = (
  placed-IsWellFormed meta tuple page (slot_end_offset page - length tuple) formed (omega arith)
      (omega arith),
  omega (arith, count, length-append rows ((meta, tuple) ∷ [])),
  filled_slot page rows meta tuple (formed, count, stored) positive room,
)

-- The slot of the tuple that was put there.
pub placed_tuple :
    (page : TablePage) (rows : List Row) (meta : TupleMeta) (tuple : List ℕ)
    → PageHolds page rows
    → 0 < length tuple
    → HasRoom (length tuple) page
    → Page.get_tuple page.num_tuples (placed meta tuple (slot_end_offset page - length tuple) page)
      ≡ ok (meta, tuple)
unfolding PageHolds HasRoom
placed_tuple page rows meta tuple (formed, count, stored) positive room =
    new_tuple meta tuple page (slot_end_offset page - length tuple)
      (omega (arith, ends_inside page formed))

pub get_next_tuple_offset-room :
    (page : TablePage) (size : ℕ)
    → IsWellFormed page
    → 0 < size
    → HasRoom size page
    → get_next_tuple_offset size page ≡ ok (some (slot_end_offset page - size))
unfolding get_next_tuple_offset HasRoom IsWellFormed
get_next_tuple_offset-room page size (slots, end, tuples) positive room =
    offset_below-found (slot_end_offset page) size page.num_tuples end positive room

pub get_next_tuple_offset-full :
    (page : TablePage) (size : ℕ)
    → IsWellFormed page
    → size ≤ page_size - header_size
    → ¬ HasRoom size page
    → get_next_tuple_offset size page ≡ ok none
unfolding get_next_tuple_offset HasRoom IsWellFormed
get_next_tuple_offset-full page size (slots, end, tuples) small full =
    offset_below-none (slot_end_offset page) size page.num_tuples (omega arith) small
      (omega (arith, full))

empty-IsWellFormed : IsWellFormed (init zero_page)
unfolding IsWellFormed init slot_end_offset
empty-IsWellFormed = (omega arith, omega arith, λ slot h. absurd (omega arith))

pub empty-PageHolds : PageHolds (init zero_page) []
unfolding PageHolds init
empty-PageHolds = (empty-IsWellFormed, refl, λ i row e. absurd (none-ne-some row e))

pub empty-HasRoom : (tuple : List ℕ) → IsSmall tuple → HasRoom (length tuple) (init zero_page)
unfolding HasRoom init slot_end_offset
empty-HasRoom tuple (positive, small) = omega arith

-- Where there is no room, there is a tuple.
pub full-some :
    (page : TablePage) (rows : List Row) (tuple : List ℕ)
    → PageHolds page rows
    → IsSmall tuple
    → ¬ HasRoom (length tuple) page
    → 0 < page.num_tuples
unfolding HasRoom slot_end_offset
full-some page rows tuple holds (positive, small) full = ground arith

pub relinked-PageHolds :
    (page : TablePage) (rows : List Row) (next : ℤ)
    → PageHolds page rows
    → PageHolds (record page { next_page_id = next }) rows
unfolding PageHolds IsWellFormed slot_end_offset Page.get_tuple
relinked-PageHolds page rows next holds = holds
