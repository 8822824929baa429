-- ===== src/Btree/Page.antt =====
-- include/storage/page/btree_page.hpp: the header that every page of the tree has.
use gavin_db.Prelude.{ℕ, ◌+◌, ◌/◌, ◌%◌, ◌^◌, Bool, true, false, if◌then◌else◌}
use gavin_db.Prelude.Int.{ℤ, negsuc, int_eq}

pub data IndexPageType : Type 0 where
  invalid_index_page header_page leaf_page internal_page : IndexPageType

-- INVALID_PAGE_ID, which is -1.
abbrev pub invalid_page_id : ℤ
invalid_page_id = negsuc 0

-- BtreePage. A size is an `idx_t`, of 64 bits.
pub record BtreePage : Type 0 where
  pub page_type : IndexPageType
  pub parent_page_id : ℤ
  pub page_id : ℤ
  pub size : ℕ
  pub max_size : ℕ

abbrev pub set_size : ℕ → BtreePage → BtreePage
set_size n page = record page { size = n }

abbrev pub increase_size : ℕ → BtreePage → BtreePage
increase_size amount page = record page { size = (page.size + amount) % 2 ^ 64 }

abbrev pub is_leaf_page : BtreePage → Bool
is_leaf_page page = elim page.page_type [ leaf_page ↦ true | _ ↦ false ]

abbrev pub is_root_page : BtreePage → Bool
is_root_page page = int_eq page.parent_page_id invalid_page_id

abbrev pub get_min_size : BtreePage → ℕ
get_min_size page =
    if is_leaf_page page then page.max_size / 2 else (page.max_size + 1) % 2 ^ 64 / 2
