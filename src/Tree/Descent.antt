-- ===== src/Tree/Descent.antt =====
-- The way from the root to a leaf, with latch crabbing, and the search for a key: SearchLeafPage,
-- IsSafeNode, the two functions that release latches, and InternalScanKey.
use gavin_db.Prelude.{
  ℕ, zero, suc, Bool, true, false, not, ◌||◌, Option, List, [], ◌∷◌, ◌++◌, Result, ok, err,
  undefined_behaviour, out_of_fuel, assertion, ltb,
}
use gavin_db.Prelude.Int.{ℤ, pos, int_eq, ltb_ℤ}
use gavin_db.Btree.Comparator.{Comparator}
use gavin_db.Btree.Page.{BtreePage, get_min_size}
use gavin_db.Btree.Leaf.{LeafPage}
use gavin_db.Btree.Leaf
use gavin_db.Btree.Internal.{InternalPage}
use gavin_db.Btree.Internal
use gavin_db.Tree.State.{
  Node, blank, leaf, internal, M, ◌>>=◌, ◌>>◌, return, throw, modify, assert, fetch_page,
  unpin_page, r_latch, r_unlatch, w_latch, w_unlatch, leaf_at, base_at,
}

pub data Operation : Type 0 where
  search_op insert_op delete_op : Operation

-- `IsSafeNode`
unfoldable pub is_safe_node : BtreePage → Operation → Result Bool
is_safe_node node search_op = err assertion
is_safe_node node insert_op = ok (ltb node.size node.max_size)
is_safe_node node delete_op = ok (ltb (get_min_size node) node.size)

module _ {K V : Type 0} where
  abbrev pub push_page : ℤ → M K V (Unit {0})
  push_page page = modify λ t. record t { page_set = t.page_set ++ page ∷ [] }

  -- The loop of `ReleaseParentWriteLatches` over the pages that are left.
  unfoldable pub release_pages : List ℤ → M K V (Unit {0})
  release_pages [] = modify λ t. record t { page_set = [] }
  release_pages (page ∷ pages) = w_unlatch page >> (unpin_page page >> release_pages pages)

  unfoldable pub release_parent_write_latches : M K V (Unit {0})
  unfolding release_pages
  release_parent_write_latches t = release_pages t.page_set t

  -- `ReleaseHeaderPageAndMarkDirty`, of a page set; the front of an empty deque is undefined.
  unfoldable pub release_front : List ℤ → M K V (Unit {0})
  release_front [] t = err undefined_behaviour
  release_front (page ∷ pages) t =
      (assert (int_eq page t.header_page_id)
          >> (modify (λ s. record s { page_set = pages }) >> (w_unlatch page >> unpin_page page)))
        t

  unfoldable pub release_header_page : M K V (Unit {0})
  unfolding release_front
  release_header_page t = release_front t.page_set t

  abbrev pub release_if_safe : Result Bool → M K V (Unit {0})
  release_if_safe (err e) = throw e
  release_if_safe (ok true) = release_parent_write_latches
  release_if_safe (ok false) = return tt

  -- The latches of one step of the descent, from the page to its child.
  unfoldable pub crab : Operation → ℤ → ℤ → BtreePage → M K V (Unit {0})
  unfolding is_safe_node
  crab search_op page child node = r_latch child >> (r_unlatch page >> unpin_page page)
  crab insert_op page child node =
      w_latch child >> (push_page page >> release_if_safe (is_safe_node node insert_op))
  crab delete_op page child node =
      w_latch child >> (push_page page >> release_if_safe (is_safe_node node delete_op))

  -- The latches on the root, the header being latched.
  unfoldable pub latch_root : Operation → ℤ → M K V (Unit {0})
  latch_root search_op root = (λ t. r_unlatch t.header_page_id t) >> r_latch root
  latch_root insert_op root = w_latch root
  latch_root delete_op root = w_latch root

module _ {K V : Type 0} (c : Comparator K) where
  -- A round of the loop of `SearchLeafPage` at a page, the later rounds being `rest`.
  unfoldable pub descend_from : (ℤ → M K V ℤ) → K → Operation → ℤ → Bool → Node K V → M K V ℤ
  unfolding crab base_at
  descend_from rest key op page has_parent blank = throw undefined_behaviour
  descend_from rest key op page has_parent (leaf node) =
      assert (not has_parent || ltb_ℤ (pos 0) node.base.parent_page_id) >> return page
  descend_from rest key op page has_parent (internal node) =
      let child = Internal.lookup c key node in
      assert (ltb_ℤ (pos 0) child)
      >> (fetch_page child >> (base_at child >>= λ base. crab op page child base >> rest child))

  -- The loop, with at most so many rounds.
  unfoldable pub descend : ℕ → K → Operation → ℤ → Bool → M K V ℤ
  unfolding descend_from
  descend zero key op page has_parent t = err out_of_fuel
  descend (suc fuel) key op page has_parent t =
      descend_from (λ child. descend fuel key op child true) key op page has_parent (t.nodes page) t

  unfoldable pub search_leaf_page : ℕ → K → Operation → M K V ℤ
  unfolding latch_root descend
  search_leaf_page fuel key op t =
      let root = t.root_page_id in
      (assert (ltb_ℤ (pos 0) root)
          >> (fetch_page root >> (latch_root op root >> descend fuel key op root false)))
        t

  -- `InternalScanKey`: the value that it adds to `values`, if it returns true.
  unfoldable pub scan_key : ℕ → K → M K V (Option V)
  unfolding search_leaf_page leaf_at
  scan_key fuel key t =
      let header = t.header_page_id in
      (fetch_page header
          >> (r_latch header
              >> (search_leaf_page fuel key search_op >>= λ page. leaf_at page >>= λ node.
                  r_unlatch page >> (unpin_page page >> return (Leaf.lookup c key node)))))
        t
