-- ===== src/Btree/Internal.antt =====
-- include/storage/page/btree_internal_page.hpp: an inner page of the tree. The key of index 0 is
-- never read; the child of index i holds the keys from key i on and below key i + 1.
pub mod Routing
pub mod Insert
pub mod Adopt
pub mod Split
use gavin_db.Prelude.{
  ℕ, ◌+◌, ◌-◌, ◌<◌, ◌≡◌, true, false, ◌&&◌, not, ltb, leb, ◌==◌, if◌then◌else◌, put_at, Result, ok,
  err, ◌>>=◌, ◌>>◌, guard, assertion, zero, suc,
}
use gavin_db.Prelude.Int.{ℤ, pos, int_eq}
use gavin_db.Btree.Comparator.{Comparator, is_negative}
use gavin_db.Btree.LowerBound.{lower_bound, move_backward}
use gavin_db.Btree.Page.{BtreePage, internal_page, set_size, increase_size, get_min_size}

-- (PAGE_SIZE - INTERNAL_PAGE_HEADER_SIZE) / sizeof(InternalNode), that is (4096 - 32) / 12.
abbrev pub internal_max_node_size : ℕ
internal_max_node_size = 338

pub record InternalPage (K : Type 0) : Type 0 where
  pub base : BtreePage
  pub node_array : ℕ → K × ℤ

-- The pages of the tree as the buffer pool hands them out: a header for each page number.
abbrev pub Headers : Type 0
Headers = ℤ → BtreePage

abbrev pub set_parent_page_id : ℤ → ℤ → Headers → Headers
set_parent_page_id child parent headers number =
    if int_eq child number
    then record (headers number) { parent_page_id = parent }
    else headers number

module _ {K : Type 0} where
  unfoldable pub init : ℤ → ℤ → InternalPage K → InternalPage K
  init page_id parent_id page = record page {
    base = record {
      page_type = internal_page;
      parent_page_id = parent_id;
      page_id = page_id;
      size = 0;
      max_size = internal_max_node_size;
    };
  }

  abbrev pub key_at : InternalPage K → ℕ → K
  key_at page index = (page.node_array index).0

  abbrev pub value_at : InternalPage K → ℕ → ℤ
  value_at page index = (page.node_array index).1

  abbrev pub set_key_at : ℕ → K → InternalPage K → InternalPage K
  set_key_at index key page = record page {
    node_array = put_at page.node_array index (key, value_at page index);
  }

  abbrev pub set_value_at : ℕ → ℤ → InternalPage K → InternalPage K
  set_value_at index value page = record page {
    node_array = put_at page.node_array index (key_at page index, value);
  }

  -- `std::find_if`: the first index that holds the value, or the size.
  unfoldable pub value_index : ℤ → InternalPage K → ℕ
  value_index value page =
      lower_bound (λ pair. not (int_eq pair.1 value)) page.node_array page.base.size 0

  unfoldable pub populate_new_root : ℤ → K → ℤ → InternalPage K → InternalPage K
  populate_new_root old_value new_key new_value page =
      let filled =
        set_value_at 1 new_value (set_key_at 1 new_key (set_value_at 0 old_value page)) in
      record filled { base = set_size 2 page.base }

  -- The entry is written at the index, after the entries from there on have moved up.
  unfoldable pub place : K → ℤ → ℕ → InternalPage K → InternalPage K
  unfolding move_backward
  place new_key new_value index page = record page {
    base = increase_size 1 page.base;
    node_array =
        put_at (move_backward page.node_array index page.base.size) index (new_key, new_value);
  }

  unfoldable pub insert_node_after : ℤ → K → ℤ → InternalPage K → Result (InternalPage K)
  unfolding place
  insert_node_after old_value new_key new_value page = do
    guard (ltb (value_index old_value page) page.base.size) assertion
    ok (place new_key new_value (value_index old_value page + 1) page)

  -- The loop of `CopyNFrom` over the children from `first` on.
  unfoldable pub adopt : (ℕ → K × ℤ) → ℤ → ℕ → ℕ → Headers → Headers
  adopt array parent zero first headers = headers
  adopt array parent (suc count) first headers =
      adopt array parent count (suc first) (set_parent_page_id (array first).1 parent headers)

  unfoldable pub copy_n_from :
      (ℕ → K × ℤ) → ℕ → ℕ → InternalPage K → Headers → InternalPage K × Headers
  unfolding adopt
  copy_n_from source first count page headers =
      let array = λ (j : ℕ).
        if leb page.base.size j && ltb j (page.base.size + count)
        then source (first + (j - page.base.size))
        else page.node_array j in
      (
        record page { base = increase_size count page.base; node_array = array },
        adopt array page.base.page_id count page.base.size headers,
      )

  -- The page without its upper half, the recipient with it, and the children's headers.
  unfoldable pub move_half_to :
      InternalPage K → InternalPage K → Headers → InternalPage K × InternalPage K × Headers
  unfolding copy_n_from
  move_half_to page recipient headers =
      let start = get_min_size page.base in
      let (filled, headers') =
        copy_n_from page.node_array start (page.base.size - start) recipient headers in
      (record page { base = set_size start page.base }, filled, headers')

module _ {K : Type 0} (c : Comparator K) where
  -- The place among the entries from index 1 on.
  unfoldable pub target_index : K → InternalPage K → ℕ
  target_index key page =
      lower_bound (λ pair. is_negative (c.compare pair.0 key)) page.node_array (page.base.size - 1)
        1

  unfoldable pub lookup : K → InternalPage K → ℤ
  lookup key page =
      let target = target_index key page in
      if target == page.base.size
      then value_at page (page.base.size - 1)
      else if int_eq (c.compare key (key_at page target)) (pos 0)
      then value_at page target
      else value_at page (target - 1)
