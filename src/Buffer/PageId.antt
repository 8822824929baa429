-- ===== src/Buffer/PageId.antt =====
-- include/common/page_id.hpp: a page's number and its table, and maps that are keyed by them.
use gavin_db.Prelude.{
  ◌≡◌, ◌≢◌, ◌↔◌, Bool, true, false, ◌&&◌, Option, none, some, if◌then◌else◌, arith, refl,
}
use gavin_db.Prelude.Int.{ℤ, pos, negsuc, int_eq}

pub record PageId : Type 0 where
  pub page_number : ℤ
  pub table_id : ℤ

-- INVALID_PAGE_ID and INVALID_TABLE_OID are -1.
abbrev pub no_page : PageId
no_page = record { page_number = negsuc 0; table_id = negsuc 0 }

abbrev pub page_id_eq : PageId → PageId → Bool
page_id_eq a b = int_eq a.table_id b.table_id && int_eq a.page_number b.page_number

pub page_id_eq_iff : (a b : PageId) → (page_id_eq a b ≡ true) ↔ (a ≡ b)
page_id_eq_iff a b = ground arith

-- The page numbers that pages are stored under.
abbrev pub is_stored_number : ℤ → Bool
is_stored_number (pos n) = true
is_stored_number (negsuc n) = false

module _ {ℓ} {A : Type ℓ} where
  -- An `unordered_map` from page identifiers: `map[p] = v` and `map.erase(p)`.
  abbrev pub put_id : (PageId → Option A) → PageId → A → PageId → Option A
  put_id table p v q = if page_id_eq p q then some v else table q

  abbrev pub erase_id : (PageId → Option A) → PageId → PageId → Option A
  erase_id table p q = if page_id_eq p q then none else table q

  pub put_id_self : (table : PageId → Option A) (p : PageId) (v : A) → put_id table p v p ≡ some v
  put_id_self table p v = rw ((page_id_eq_iff p p).1 refl) refl

  pub put_id_ne :
      (table : PageId → Option A) (p : PageId) (v : A) (q : PageId)
      → p ≢ q
      → put_id table p v q ≡ table q
  put_id_ne table p v q h = ground (arith, page_id_eq_iff p q)

  pub erase_id_self : (table : PageId → Option A) (p : PageId) → erase_id table p p ≡ none
  erase_id_self table p = rw ((page_id_eq_iff p p).1 refl) refl

  pub erase_id_ne :
      (table : PageId → Option A) (p q : PageId) → p ≢ q → erase_id table p q ≡ table q
  erase_id_ne table p q h = ground (arith, page_id_eq_iff p q)
