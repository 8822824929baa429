-- ===== src/Tree/Root.antt =====
-- The root of the index: the first one, and what becomes of one that is an inner page and would split.
use gavin_db.Prelude.{ℕ, ◌<◌, ◌≡◌, ap, ◌∙◌, false, [], ok, err, undefined_behaviour}
use gavin_db.Prelude.Int.{ℤ}
use gavin_db.Btree.Comparator.{Comparator}
use gavin_db.Btree.Leaf.{LeafPage}
use gavin_db.Tree.State.{Tree, Zeros, ◌>>◌, fetch_page, new_page}
use gavin_db.Tree.Descent.{
  insert_op, descend, latch_root, search_leaf_page, release_parent_write_latches,
  release_header_page, release_front,
}
use gavin_db.Tree.Insertion.{new_page_unguarded, grow_root}
use gavin_db.Tree.Content.{IsTree, Belongs, IsTree-IsPage}
use gavin_db.Tree.Search.{assert-true}
use gavin_db.Tree.Crabbing.{with_latches}
use gavin_db.Tree.Insert.{at_header, at_root, reached}

module _ {K V : Type 0} (z : Zeros K V) where
  empty_front :
      (s : Tree K V)
      → s.page_set ≡ []
      → (release_header_page >> release_parent_write_latches) s ≡ err undefined_behaviour
  unfolding release_header_page release_front
  empty_front s e = ap (λ l. (release_front l >> release_parent_write_latches) s) e

  -- `InsertIntoParent` of a root wants the header page in the page set.
  grow_root-undefined :
      (original sibling : ℤ) (key : K) (t : Tree K V)
      → t.page_set ≡ []
      → grow_root z original sibling key t ≡ err undefined_behaviour
  unfolding grow_root new_page_unguarded new_page
  grow_root-undefined original sibling key t e = empty_front _ e

module _ {K V : Type 0} (c : Comparator K) (z : Zeros K V) (fuel : ℕ) (key : K) (value : V)
    (t : Tree K V) (height : ℕ) (parent : ℤ) (tree : IsTree c t.nodes height parent t.root_page_id)
    (enough : height < fuel) where
  -- The search of an insertion for a leaf below an inner root, as long as the leaf is not full, ends
  -- with an empty page set: the header is released although the leaf may become full and split. A
  -- root that has to split then, in `InsertIntoParent`, takes the front of the empty set.
  pub search_leaf_page-unlatched :
      t.page_set ≡ []
      → 0 < height
      → ((target : ℤ) (node : LeafPage K V)
          → Belongs c t.nodes key height t.root_page_id target node
          → node.base.size < node.base.max_size)
      → (target : ℤ) × (after : Tree K V) × (search_leaf_page c fuel key insert_op
            (at_header c z fuel key value t)
          ≡ ok (target, after))
        × (after.page_set ≡ [])
        × ((original sibling : ℤ) (risen : K)
            → grow_root z original sibling risen after ≡ err undefined_behaviour)
  unfolding search_leaf_page latch_root
  search_leaf_page-unlatched no_pages inner below_max =
      let r = reached c z fuel key value t height parent tree enough no_pages in
      let s = with_latches (at_root c z fuel key value t) r.new_pins r.new_writers r.pages in
      let empty = r.freed inner (below_max r.target r.node r.belongs) in
      (
        r.target,
        s,
        assert-true
              (fetch_page t.root_page_id
                >> (latch_root insert_op t.root_page_id
                    >> descend c fuel key insert_op t.root_page_id false))
              (at_header c z fuel key value t) (IsTree-IsPage c t.nodes tree)
            ∙ r.result,
        empty,
        λ original sibling risen. grow_root-undefined z original sibling risen s empty,
      )
