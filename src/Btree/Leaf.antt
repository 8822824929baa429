-- ===== src/Btree/Leaf.antt =====
-- include/storage/page/btree_leaf_page.hpp: a leaf of the tree. Its array is a function of the
-- index: beyond `size` stands what earlier operations left there, as in the page's memory.
pub mod Search
pub mod Place
pub mod Insert
pub mod Split
use gavin_db.Prelude.{
  ℕ, zero, ◌+◌, ◌-◌, ◌≤◌, ◌<◌, ◌≡◌, Bool, true, false, ◌&&◌, not, Option, none, some, ltb, leb,
  ◌==◌, if◌then◌else◌, put_at, Result, ok, err, ◌>>=◌, ◌>>◌, guard, runtime, assertion,
}
use gavin_db.Prelude.Int.{ℤ, pos, int_eq}
use gavin_db.Btree.Comparator.{Comparator, is_negative}
use gavin_db.Btree.LowerBound.{lower_bound, move_backward}
use gavin_db.Btree.Page.{
  BtreePage, leaf_page, invalid_page_id, set_size, increase_size, get_min_size,
}

-- (PAGE_SIZE - LEAF_PAGE_HEADER_SIZE) / sizeof(LeafNode), that is (4096 - 40) / 20.
abbrev pub leaf_max_node_size : ℕ
leaf_max_node_size = 202

pub record LeafPage (K V : Type 0) : Type 0 where
  pub base : BtreePage
  pub next_page_id : ℤ
  pub node_array : ℕ → K × V

module _ {K V : Type 0} where
  unfoldable pub init : ℤ → ℤ → LeafPage K V → LeafPage K V
  init page_id parent_id page = record page {
    base = record {
      page_type = leaf_page;
      parent_page_id = parent_id;
      page_id = page_id;
      size = 0;
      max_size = leaf_max_node_size;
    };
    next_page_id = invalid_page_id;
  }

  abbrev pub key_at : LeafPage K V → ℕ → K
  key_at page index = (page.node_array index).0

  abbrev pub value_at : LeafPage K V → ℕ → V
  value_at page index = (page.node_array index).1

  -- The items are those of `source` from `first` on.
  unfoldable pub copy_n_from : (ℕ → K × V) → ℕ → ℕ → LeafPage K V → LeafPage K V
  copy_n_from source first count page = record page {
    base = increase_size count page.base;
    node_array = λ j.
        if leb page.base.size j && ltb j (page.base.size + count)
        then source (first + (j - page.base.size))
        else page.node_array j;
  }

  -- The page without its upper half, and the recipient with it.
  unfoldable pub move_half_to : LeafPage K V → LeafPage K V → LeafPage K V × LeafPage K V
  unfolding copy_n_from
  move_half_to page recipient =
      let start = get_min_size page.base in
      (
        record page { base = set_size start page.base },
        copy_n_from page.node_array start (page.base.max_size - start) recipient,
      )

  -- The write of `Insert`, with the shift that makes room for it.
  unfoldable pub place : K → V → ℕ → LeafPage K V → LeafPage K V
  unfolding move_backward
  place key value key_idx page = record page {
    base = increase_size 1 page.base;
    node_array =
        if key_idx == page.base.size
        then put_at page.node_array key_idx (key, value)
        else put_at (move_backward page.node_array key_idx page.base.size) key_idx (key, value);
  }

module _ {K V : Type 0} (c : Comparator K) where
  -- The assertion on the page's maximum is made by the callers below.
  unfoldable pub find_key_index : K → LeafPage K V → ℕ
  find_key_index key page =
      lower_bound (λ pair. is_negative (c.compare pair.0 key)) page.node_array page.base.size 0

  unfoldable pub insert : K → V → LeafPage K V → Result (LeafPage K V)
  unfolding place
  insert key value page = do
    guard (ltb 0 page.base.max_size) assertion
    guard (not (page.base.size == page.base.max_size)) runtime
    let key_idx = find_key_index key page
    if not (page.base.size == 0) && int_eq (c.compare (key_at page key_idx) key) (pos 0)
        then ok page
        else ok (place key value key_idx page)

  unfoldable pub lookup : K → LeafPage K V → Option V
  lookup key page =
      let target_index = find_key_index key page in
      if ltb target_index page.base.size && c.key_eq (key_at page target_index) key
      then some (value_at page target_index)
      else none
