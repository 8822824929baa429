-- ===== src/Tree/Content.antt =====
-- What the pages of the index hold, whatever the latches: trees of pages, and what stands under a key.
use gavin_db.Prelude.{ℕ, zero, suc, ◌<◌, ◌≡◌, ap, true, ok}
use gavin_db.Prelude.Int.{ℤ, pos, ltb_ℤ}
use gavin_db.Btree.Comparator.{Comparator}
use gavin_db.Btree.Page.{BtreePage}
use gavin_db.Btree.Leaf.{LeafPage}
use gavin_db.Btree.Leaf.Insert.{IsLeaf}
use gavin_db.Btree.Internal.{InternalPage, value_at}
use gavin_db.Btree.Internal.Routing.{IsInternal, Covers}
use gavin_db.Tree.State.{Node, leaf, internal, base_of}

-- The numbers of the pages of a tree, page 0 being no node.
abbrev pub IsPage : ℤ → Type 0
IsPage page = ltb_ℤ (pos 0) page ≡ true

module _ {K V : Type 0} (c : Comparator K) (nodes : ℤ → Node K V) where
  -- A tree of a height under a page: leaves and inner pages that are in order, each with its parent.
  pub data IsTree : ℕ → ℤ → ℤ → Type 0 where
    leaf_tree :
        (parent page : ℤ) (node : LeafPage K V)
        → IsPage page
        → nodes page ≡ leaf node
        → node.base.parent_page_id ≡ parent
        → IsLeaf c node
        → IsTree zero parent page
    inner_tree :
        (height : ℕ) (parent page : ℤ) (node : InternalPage K)
        → IsPage page
        → nodes page ≡ internal node
        → node.base.parent_page_id ≡ parent
        → IsInternal c node
        → ((i : ℕ) → i < node.base.size → IsTree height page (value_at node i))
        → IsTree (suc height) parent page

  -- The leaf that the key belongs to, by the keys that each child of an inner page is for.
  pub data Belongs (key : K) : ℕ → ℤ → ℤ → LeafPage K V → Type 0 where
    here :
        (page : ℤ) (node : LeafPage K V) → nodes page ≡ leaf node → Belongs key zero page page node
    below :
        (height : ℕ) (page : ℤ) (inner : InternalPage K) (i : ℕ) (target : ℤ) (node : LeafPage K V)
        → nodes page ≡ internal inner
        → Covers c inner i (c.rank key)
        → Belongs key height (value_at inner i) target node
        → Belongs key (suc height) page target node

  pub IsTree-IsPage : {height : ℕ} {parent page : ℤ} → IsTree height parent page → IsPage page
  IsTree-IsPage (leaf_tree parent page node h e p l) = h
  IsTree-IsPage (inner_tree height parent page node h e p l k) = h

  pub IsTree-base :
      {height : ℕ} {parent page : ℤ}
      → IsTree height parent page
      → (base : BtreePage) × (base_of (nodes page) ≡ ok base)
  unfolding base_of
  IsTree-base (leaf_tree parent page node h e p l) = (node.base, ap base_of e)
  IsTree-base (inner_tree height parent page node h e p l k) = (node.base, ap base_of e)

  pub Belongs-at :
      {key : K} {height : ℕ} {page target : ℤ} {node : LeafPage K V}
      → Belongs key height page target node
      → nodes target ≡ leaf node
  Belongs-at (here page node e) = e
  Belongs-at (below height page inner i target node e v u) = Belongs-at u
