-- ===== src/Tree/Insertion.antt =====
-- Insertion into the tree: InternalInsertRecord, InsertIntoLeaf, InsertIntoParent, Split, CreateNewRoot;
-- also InternalDeleteRecord and the constructor.
use gavin_db.Prelude.{
  ℕ, zero, suc, Bool, true, false, not, out_of_fuel, if◌then◌else◌, ltb, leb, ◌==◌,
}
use gavin_db.Prelude.Int.{ℤ, pos, int_eq, ltb_ℤ}
use gavin_db.Btree.Comparator.{Comparator}
use gavin_db.Btree.Page.{BtreePage, invalid_page_id, invalid_index_page, is_root_page, get_min_size}
use gavin_db.Btree.Leaf.{LeafPage}
use gavin_db.Btree.Leaf
use gavin_db.Btree.Internal.{InternalPage, Headers}
use gavin_db.Btree.Internal
use gavin_db.Tree.State.{
  Zeros, Node, blank, leaf, internal, M, ◌>>=◌, ◌>>◌, return, throw, modify, gets, assert, at, lift,
  fetch_page, unpin_page, w_latch, w_unlatch, write_node, new_page, leaf_at, internal_at, base_at,
}
use gavin_db.Tree.Descent.{
  insert_op, delete_op, push_page, release_parent_write_latches, release_header_page,
  search_leaf_page,
}

abbrev zero_base : BtreePage
zero_base = record {
  page_type = invalid_index_page;
  parent_page_id = pos 0;
  page_id = pos 0;
  size = 0;
  max_size = 0;
}

module _ {K V : Type 0} (z : Zeros K V) where
  -- A page of zeros, read as a leaf or as an inner page.
  abbrev pub zero_leaf : LeafPage K V
  zero_leaf = record {
    base = zero_base;
    next_page_id = pos 0;
    node_array = λ _. (z.zero_key, z.zero_value);
  }

  abbrev pub zero_internal : InternalPage K
  zero_internal = record { base = zero_base; node_array = λ _. (z.zero_key, pos 0) }

module _ {K V : Type 0} where
  -- The headers of the pages, and the pages with new headers.
  abbrev pub headers_of : (ℤ → Node K V) → Headers
  headers_of nodes page = elim (nodes page) [
    | blank ↦ zero_base
    | leaf node ↦ node.base
    | internal node ↦ node.base
  ]

  abbrev pub with_base : BtreePage → Node K V → Node K V
  with_base base blank = blank
  with_base base (leaf node) = leaf (record node { base = base })
  with_base base (internal node) = internal (record node { base = base })

  abbrev pub with_headers : Headers → (ℤ → Node K V) → ℤ → Node K V
  with_headers headers nodes page = with_base (headers page) (nodes page)

  abbrev pub set_parent : ℤ → ℤ → M K V (Unit {0})
  set_parent page parent = modify λ t. record t {
    nodes =
        at t.nodes page
          (with_base (record (headers_of t.nodes page) { parent_page_id = parent }) (t.nodes page));
  }

  abbrev pub set_root : ℤ → M K V (Unit {0})
  set_root page = modify λ t. record t { root_page_id = page }

  -- A page by `NewPageGuarded(...).UpgradeWrite().AsMut()`: the guard is a temporary, so the latch and
  -- the pin are gone at the end of the statement.
  unfoldable pub new_page_unguarded : M K V ℤ
  unfolding new_page
  new_page_unguarded =
      new_page >>= λ page. w_latch page >> (w_unlatch page >> (unpin_page page >> return page))

module _ {K V : Type 0} (z : Zeros K V) where
  -- `Split` of a leaf: the page of the new sibling.
  unfoldable pub split_leaf : ℤ → M K V ℤ
  unfolding new_page leaf_at
  split_leaf page = new_page >>= λ sibling.
      assert (ltb_ℤ (pos 0) sibling)
      >> (leaf_at page >>= λ node.
          let halves =
            Leaf.move_half_to node (Leaf.init sibling node.base.parent_page_id (zero_leaf z)) in
          write_node page (leaf halves.0) >> (write_node sibling (leaf halves.1) >> return sibling))

  -- `Split` of an inner page that stands in a buffer: what is left of it, and the new sibling.
  unfoldable pub split_internal : InternalPage K → M K V (InternalPage K × ℤ)
  unfolding new_page
  split_internal node = new_page >>= λ sibling.
      assert (ltb_ℤ (pos 0) sibling)
      >> (gets (λ t. t.nodes) >>= λ nodes.
          let halves =
            Internal.move_half_to node
              (Internal.init sibling node.base.parent_page_id (zero_internal z))
              (headers_of nodes) in
          modify (λ t. record t { nodes = with_headers halves.2 nodes })
          >> (write_node sibling (internal halves.1) >> return (halves.0, sibling)))

  -- `InsertIntoParent` where the node is the root.
  unfoldable pub grow_root : ℤ → ℤ → K → M K V (Unit {0})
  unfolding new_page_unguarded release_header_page release_parent_write_latches
  grow_root original sibling key = new_page_unguarded >>= λ root.
      write_node root (
        internal (
          Internal.populate_new_root original key sibling
            (Internal.init root invalid_page_id (zero_internal z))))
      >> (set_parent original root
          >> (set_parent sibling root
              >> (set_root root >> (release_header_page >> release_parent_write_latches))))

  -- What `memcpy` from the buffer makes of the parent: the header and the lower half.
  abbrev pub copied_back : InternalPage K → InternalPage K → InternalPage K
  copied_back copy parent = record copy {
    node_array =
        λ j. if ltb j (get_min_size copy.base) then copy.node_array j else parent.node_array j;
  }

  -- `InsertIntoParent`, with at most so many levels to rise.
  unfoldable pub insert_into_parent : ℕ → ℤ → ℤ → K → M K V (Unit {0})
  unfolding base_at grow_root internal_at split_internal release_parent_write_latches
  insert_into_parent zero original sibling key = throw out_of_fuel
  insert_into_parent (suc fuel) original sibling key = base_at original >>= λ node.
      elim (is_root_page node) [
        | true ↦ grow_root original sibling key
        | false ↦
            let parent = node.parent_page_id in
            fetch_page parent
            >> (internal_at parent >>= λ parent_node.
                lift (Internal.insert_node_after original key sibling parent_node) >>= λ grown.
                elim (ltb parent_node.base.size parent_node.base.max_size) [
                  | true ↦
                      write_node parent (internal grown)
                      >> (release_parent_write_latches >> unpin_page parent)
                  | false ↦ split_internal grown >>= λ halves.
                      write_node parent (internal (copied_back halves.0 parent_node))
                      >> (internal_at halves.1 >>= λ right.
                          insert_into_parent fuel parent halves.1 (Internal.key_at right 0)
                          >> (unpin_page parent >> unpin_page halves.1))
                ])
      ]

module _ {K V : Type 0} (c : Comparator K) (z : Zeros K V) where
  -- What `InsertIntoLeaf` does after a leaf has become full.
  unfoldable pub split_and_rise : ℕ → ℤ → M K V Bool
  unfolding split_leaf leaf_at insert_into_parent
  split_and_rise fuel page = split_leaf z page >>= λ sibling. leaf_at page >>= λ left.
      leaf_at sibling >>= λ right.
      write_node sibling (leaf (record right { next_page_id = left.next_page_id }))
      >> (write_node page (leaf (record left { next_page_id = sibling }))
          >> (insert_into_parent z fuel page sibling (Leaf.key_at right 0)
              >> (w_unlatch page >> (unpin_page page >> (unpin_page sibling >> return true)))))

  unfoldable pub insert_into_leaf : ℕ → K → V → M K V Bool
  unfolding search_leaf_page leaf_at split_and_rise release_parent_write_latches
  insert_into_leaf fuel key value = search_leaf_page c fuel key insert_op >>= λ page.
      leaf_at page >>= λ node. lift (Leaf.insert c key value node) >>= λ filled.
      write_node page (leaf filled) >> (elim (leb filled.base.max_size filled.base.size) [
        | true ↦ split_and_rise fuel page
        | false ↦
            release_parent_write_latches
            >> (w_unlatch page
                >> (unpin_page page >> return (not (filled.base.size == node.base.size))))
      ])

  unfoldable pub create_new_root : K → V → M K V (Unit {0})
  unfolding new_page_unguarded
  create_new_root key value = new_page_unguarded >>= λ root.
      let empty = Leaf.init root invalid_page_id (zero_leaf z) in
      write_node root (leaf empty)
      >> (assert (ltb_ℤ (pos 0) root)
          >> (set_root root
              >> (lift (Leaf.insert c key value empty) >>= λ filled.
                  write_node root (leaf filled))))

  -- `InternalInsertRecord`
  unfoldable pub insert_record : ℕ → K → V → M K V Bool
  unfolding create_new_root insert_into_leaf release_parent_write_latches
  insert_record fuel key value t =
      let header = t.header_page_id in
      (fetch_page header
          >> (w_latch header
              >> (push_page header >> (elim (int_eq t.root_page_id invalid_page_id) [
                | true ↦ create_new_root key value >> (release_parent_write_latches >> return true)
                | false ↦ insert_into_leaf fuel key value
              ]))))
        t

  -- `InternalDeleteRecord`, which finds the leaf and leaves it at that.
  unfoldable pub delete_record : ℕ → K → M K V Bool
  unfolding search_leaf_page release_parent_write_latches
  delete_record fuel key t =
      let header = t.header_page_id in
      (fetch_page header
          >> (w_latch header
              >> (push_page header >> (elim (int_eq t.root_page_id invalid_page_id) [
                | true ↦ release_parent_write_latches >> return false
                | false ↦ search_leaf_page c fuel key delete_op >>= λ page. return true
              ]))))
        t

module _ {K V : Type 0} where
  -- The constructor of `BTreeIndex`: it makes the header page of an index that has none.
  unfoldable pub open_index : M K V (Unit {0})
  unfolding new_page_unguarded
  open_index t = elim (int_eq t.header_page_id invalid_page_id) [
    | true ↦
        (new_page_unguarded >>= λ header.
        modify (λ s. record s { header_page_id = header; root_page_id = invalid_page_id })
        >> assert (not (ltb_ℤ header (pos 0))))
          t
    | false ↦ assert (not (ltb_ℤ t.header_page_id (pos 0))) t
  ]
