-- ===== src/Tree/State.antt =====
-- What BTreeIndex works on: the pages of its table as the buffer pool hands them out, each under its
-- number, with their pins and latches, and the page set of the transaction. A page that is passed
-- by reference is passed by its number.
use gavin_db.Prelude.{
  ℕ, ◌+◌, ◌-◌, ◌%◌, ◌^◌, Bool, true, false, List, Result, ok, err, Error, undefined_behaviour,
  assertion, if◌then◌else◌,
}
use gavin_db.Prelude.Int.{ℤ, pos, int_eq, ◌+ℤ◌}
use gavin_db.Btree.Page.{BtreePage, invalid_page_id}
use gavin_db.Btree.Leaf.{LeafPage}
use gavin_db.Btree.Internal.{InternalPage}

-- What the bytes of a page are read as.
pub data Node (K V : Type 0) : Type 0 where
  blank : Node K V
  leaf : LeafPage K V → Node K V
  internal : InternalPage K → Node K V

-- `header_page_id` is the index's, `root_page_id` stands in the page of that number, and
-- `last_page_id` is the table's last page. Of each page the pins, readers and writers are counted.
pub record Tree (K V : Type 0) : Type 0 where
  pub header_page_id : ℤ
  pub root_page_id : ℤ
  pub last_page_id : ℤ
  pub nodes : ℤ → Node K V
  pub page_set : List ℤ
  pub pins : ℤ → ℕ
  pub readers : ℤ → ℕ
  pub writers : ℤ → ℕ

-- `IndexKeyType` and `RID` of memory that is all zeros.
pub record Zeros (K V : Type 0) : Type 0 where
  pub zero_key : K
  pub zero_value : V

abbrev pub at {ℓ} : {A : Type ℓ} → (ℤ → A) → ℤ → A → ℤ → A
at f page a other = if int_eq page other then a else f other

-- `pin_count_++` of a page, on a `uint16_t`.
abbrev pub pin_more : ℤ → (ℤ → ℕ) → ℤ → ℕ
pin_more page pins = at pins page ((pins page + 1) % 2 ^ 16)

-- A computation on the pages.
abbrev pub M : Type 0 → Type 0 → Type 0 → Type 0
M K V A = Tree K V → Result (A × Tree K V)

module _ {K V : Type 0} where
  infixl 5 ◌>>=◌
  abbrev pub ◌>>=◌ : {A B : Type 0} → M K V A → (A → M K V B) → M K V B
  ◌>>=◌ m f t = elim (m t) [ err e ↦ err e | ok (a, t') ↦ f a t' ]

  infixl 5 ◌>>◌
  abbrev pub ◌>>◌ : {B : Type 0} → M K V (Unit {0}) → M K V B → M K V B
  m >> k = m >>= λ _. k

  abbrev pub return : {A : Type 0} → A → M K V A
  return a t = ok (a, t)

  abbrev pub throw : {A : Type 0} → Error → M K V A
  throw e t = err e

  abbrev pub modify : (Tree K V → Tree K V) → M K V (Unit {0})
  modify f t = ok (tt, f t)

  abbrev pub gets : {A : Type 0} → (Tree K V → A) → M K V A
  gets f t = ok (f t, t)

  abbrev pub assert : Bool → M K V (Unit {0})
  assert holds t = elim holds [ true ↦ ok (tt, t) | false ↦ err assertion ]

  -- The calls of the buffer pool and of the page's latch; `UnpinPage` leaves a count of 0 as it is.
  abbrev pub fetch_page : ℤ → M K V (Unit {0})
  fetch_page page = modify λ t. record t { pins = pin_more page t.pins }

  abbrev pub unpin_page : ℤ → M K V (Unit {0})
  unpin_page page = modify λ t. record t { pins = at t.pins page (t.pins page - 1) }

  abbrev pub r_latch : ℤ → M K V (Unit {0})
  r_latch page = modify λ t. record t { readers = at t.readers page (t.readers page + 1) }

  abbrev pub r_unlatch : ℤ → M K V (Unit {0})
  r_unlatch page = modify λ t. record t { readers = at t.readers page (t.readers page - 1) }

  abbrev pub w_latch : ℤ → M K V (Unit {0})
  w_latch page = modify λ t. record t { writers = at t.writers page (t.writers page + 1) }

  abbrev pub w_unlatch : ℤ → M K V (Unit {0})
  w_unlatch page = modify λ t. record t { writers = at t.writers page (t.writers page - 1) }

  abbrev pub write_node : ℤ → Node K V → M K V (Unit {0})
  write_node page node = modify λ t. record t { nodes = at t.nodes page node }

  -- `TableMeta::IncrementTableDataPageId` and the pool's `NewPage`: a pinned page of zeros.
  unfoldable pub new_page : M K V ℤ
  unfolding ◌+ℤ◌
  new_page t =
      let page = if int_eq t.last_page_id invalid_page_id then pos 0 else t.last_page_id +ℤ pos 1 in
      ok (
        page,
        record t { last_page_id = page; nodes = at t.nodes page blank; pins = at t.pins page 1 },
      )

  abbrev pub as_leaf : Node K V → Result (LeafPage K V)
  as_leaf blank = err undefined_behaviour
  as_leaf (leaf node) = ok node
  as_leaf (internal node) = err undefined_behaviour

  abbrev pub as_internal : Node K V → Result (InternalPage K)
  as_internal blank = err undefined_behaviour
  as_internal (leaf node) = err undefined_behaviour
  as_internal (internal node) = ok node

  abbrev pub lift : {A : Type 0} → Result A → M K V A
  lift (err e) t = err e
  lift (ok a) t = ok (a, t)

  -- A page that is read as a leaf, or as an inner page.
  unfoldable pub leaf_at : ℤ → M K V (LeafPage K V)
  leaf_at page t = lift (as_leaf (t.nodes page)) t

  unfoldable pub internal_at : ℤ → M K V (InternalPage K)
  internal_at page t = lift (as_internal (t.nodes page)) t

  unfoldable pub base_of : Node K V → Result BtreePage
  base_of blank = err undefined_behaviour
  base_of (leaf node) = ok node.base
  base_of (internal node) = ok node.base

  unfoldable pub base_at : ℤ → M K V BtreePage
  unfolding base_of
  base_at page t = lift (base_of (t.nodes page)) t
