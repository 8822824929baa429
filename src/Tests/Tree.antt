-- ===== src/Tests/Tree.antt =====
-- An index on numbers with one leaf, with an inner root over two leaves, and with none.
use gavin_db.Prelude.{
  ℕ, zero, suc, ◌+◌, ◌<◌, ◌≡◌, ◌≢◌, refl, true, Option, some, none, [], ok, err,
  undefined_behaviour, arith, if◌then◌else◌, ◌==◌, Bool-cases, inl, inr, sym, ap, ◌∙◌,
}
use mathlib.Core.Path.{subst}
use gavin_db.Prelude.Int.{ℤ, pos, negsuc, int_eq}
use gavin_db.Btree.Comparator.{Comparator, timestamp_comparator}
use gavin_db.Btree.Page.{leaf_page, internal_page, invalid_page_id}
use gavin_db.Btree.Leaf.{LeafPage}
use gavin_db.Btree.Leaf
use gavin_db.Btree.Leaf.Insert.{IsLeaf, first_value}
use gavin_db.Btree.Internal.{InternalPage}
use gavin_db.Btree.Internal
use gavin_db.Tree.State.{Tree, Zeros, Node, blank, leaf, internal}
use gavin_db.Tree.Descent.{insert_op, search_leaf_page, scan_key}
use gavin_db.Tree.Insertion.{insert_record, grow_root}
use gavin_db.Tree.Content.{IsTree, leaf_tree, inner_tree, Belongs, here, below}
use gavin_db.Tree.Counts.{one}
use gavin_db.Tree.Scan.{scan_key-Belongs}
use gavin_db.Tree.Replace.{Holds}
use gavin_db.Tree.Insert.{insert_record-Holds, is_new, at_header}
use gavin_db.Tree.Root.{search_leaf_page-unlatched}
use gavin_db.Tree.FirstRoot.{insert_record-first}

abbrev numbers : Comparator ℕ
unfolding timestamp_comparator
numbers = timestamp_comparator

abbrev zeros : Zeros ℕ ℕ
zeros = record { zero_key = 0; zero_value = 0 }

abbrev leaf_of : ℤ → ℤ → ℕ → LeafPage ℕ ℕ
leaf_of page parent first = record {
  base = record {
    page_type = leaf_page;
    parent_page_id = parent;
    page_id = page;
    size = 1;
    max_size = 4;
  };
  next_page_id = negsuc 0;
  node_array = λ i. elim i [ zero ↦ (first, 100) | suc _ ↦ (0, 0) ];
}

abbrev bare : (ℤ → Node ℕ ℕ) → ℤ → Tree ℕ ℕ
bare nodes root = record {
  header_page_id = pos 1;
  root_page_id = root;
  last_page_id = pos 3;
  nodes = nodes;
  page_set = [];
  pins = λ _. 0;
  readers = λ _. 0;
  writers = λ _. 0;
}

abbrev one_leaf : Tree ℕ ℕ
one_leaf = bare (λ _. leaf (leaf_of (pos 2) (negsuc 0) 10)) (pos 2)

leaf_of-IsLeaf : (page parent : ℤ) (first : ℕ) → IsLeaf numbers (leaf_of page parent first)
leaf_of-IsLeaf page parent first = record {
  sorted = λ i j h k. absurd (omega arith);
  positive = omega arith;
  bounded = omega arith;
  word = omega arith;
}

one_leaf-IsTree : IsTree numbers one_leaf.nodes 0 (negsuc 0) (pos 2)
one_leaf-IsTree =
    leaf_tree (negsuc 0) (pos 2) (leaf_of (pos 2) (negsuc 0) 10) refl refl refl
      (leaf_of-IsLeaf (pos 2) (negsuc 0) 10)

scan_key-Belongs_example :
    (target : ℤ) × (node : LeafPage ℕ ℕ) × (pins : ℤ → ℕ) × (readers : ℤ → ℕ) × Belongs numbers
      one_leaf.nodes 10 0 one_leaf.root_page_id target node
    × (scan_key numbers 1 10 one_leaf
        ≡ ok (Leaf.lookup numbers 10 node, record one_leaf { pins = pins; readers = readers }))
    × ((page : ℤ) → pins page ≡ one_leaf.pins page + one one_leaf.header_page_id page)
    × ((page : ℤ) → readers page ≡ one_leaf.readers page)
scan_key-Belongs_example =
    scan_key-Belongs numbers 1 10 one_leaf 0 (negsuc 0) one_leaf-IsTree (omega arith)
      (λ page. omega arith)

leaf_same : {a b : LeafPage ℕ ℕ} → leaf a ≡ leaf b → a ≡ b
leaf_same h = cc

-- The leaf of the key 20 has room, and the slot behind its entry holds 0.
room_for_20 :
    (target : ℤ) (node : LeafPage ℕ ℕ)
    → Belongs numbers one_leaf.nodes 20 0 one_leaf.root_page_id target node
    → (node.base.size + 1 < node.base.max_size)
      × (0 < node.base.size → (Leaf.key_at node node.base.size) ≢ 20)
room_for_20 target node (here _ _ e) =
    subst
      (λ (n : LeafPage ℕ ℕ).
        (n.base.size + 1 < n.base.max_size) × (0 < n.base.size → (Leaf.key_at n n.base.size) ≢ 20))
      (leaf_same e) (omega arith, λ h q. absurd (omega arith))

insert_record-Holds_example :
    (found : Option ℕ) × (after : Tree ℕ ℕ) × Holds numbers one_leaf.nodes 0 one_leaf.root_page_id
      20 found
    × (insert_record numbers zeros 1 20 200 one_leaf ≡ ok (is_new found, after))
    × IsTree numbers after.nodes 0 (negsuc 0) after.root_page_id
    × ((key' : ℕ) (found' : Option ℕ)
        → Holds numbers one_leaf.nodes 0 one_leaf.root_page_id key' found'
        → Holds numbers after.nodes 0 after.root_page_id key'
            (if key' == 20 then first_value found' 200 else found'))
    × (after.page_set ≡ [])
    × ((page : ℤ) → (after.pins page ≡ 0) × (after.writers page ≡ 0))
unfolding numbers
insert_record-Holds_example =
    insert_record-Holds numbers zeros 1 20 200 one_leaf 0 (negsuc 0) one_leaf-IsTree (omega arith)
      refl (λ page. omega arith) room_for_20

abbrev no_root : Tree ℕ ℕ
no_root = bare (λ _. blank) (negsuc 0)

insert_record-first_example :
    (after : Tree ℕ ℕ) × (insert_record numbers zeros 1 5 50 no_root ≡ ok (true, after))
    × IsTree numbers after.nodes 0 invalid_page_id after.root_page_id
    × Holds numbers after.nodes 0 after.root_page_id 5 (some 50)
    × ((key' : ℕ) → key' ≢ 5 → Holds numbers after.nodes 0 after.root_page_id key' none)
    × (after.page_set ≡ [])
    × ((page : ℤ) → (after.pins page ≡ 0) × (after.writers page ≡ 0))
unfolding numbers
insert_record-first_example =
    insert_record-first numbers zeros 1 5 50 no_root refl refl refl refl (λ page. omega arith)

-- A root, page 2, over one leaf, page 3.
abbrev root_node : InternalPage ℕ
root_node = record {
  base = record {
    page_type = internal_page;
    parent_page_id = negsuc 0;
    page_id = pos 2;
    size = 1;
    max_size = 4;
  };
  node_array = λ _. (0, pos 3);
}

abbrev under_root : Tree ℕ ℕ
under_root =
    bare
      (λ page.
        if int_eq page (pos 2) then internal root_node else leaf (leaf_of (pos 3) (pos 2) 10))
      (pos 2)

under_root-IsTree : IsTree numbers under_root.nodes 1 (negsuc 0) (pos 2)
under_root-IsTree =
    inner_tree 0 (negsuc 0) (pos 2) root_node refl refl refl
      (record {
        sorted = λ i j h k l. absurd (omega arith);
        child = omega arith;
        word = omega arith;
      })
      (λ i h.
        leaf_tree (pos 2) (pos 3) (leaf_of (pos 3) (pos 2) 10) refl refl refl
          (leaf_of-IsLeaf (pos 3) (pos 2) 10))

abbrev small : LeafPage ℕ ℕ
small = leaf_of (pos 3) (pos 2) 10

inner_is_no_leaf :
    {a : InternalPage ℕ} {b : LeafPage ℕ ℕ} → ◌≡◌ {A = Node ℕ ℕ} (internal a) (leaf b) → ⊥
inner_is_no_leaf h = cc

below_max :
    (target : ℤ) (node : LeafPage ℕ ℕ)
    → Belongs numbers under_root.nodes 20 1 under_root.root_page_id target node
    → node.base.size < node.base.max_size
below_max target node (below _ _ inner i _ _ e v (here page _ f)) =
    elim (Bool-cases (int_eq (Internal.value_at inner i) (pos 2))) [
      | inl root ↦
          absurd (
            inner_is_no_leaf
              (sym (ap (λ b. if b then internal root_node else leaf small) root) ∙ f))
      | inr other ↦
          subst (λ (n : LeafPage ℕ ℕ). n.base.size < n.base.max_size)
            (leaf_same (sym (ap (λ b. if b then internal root_node else leaf small) other) ∙ f))
            (omega arith)
    ]

search_leaf_page-unlatched_example :
    (target : ℤ) × (after : Tree ℕ ℕ) × (search_leaf_page numbers 2 20 insert_op
        (at_header numbers zeros 2 20 200 under_root)
      ≡ ok (target, after))
    × (after.page_set ≡ [])
    × ((original sibling : ℤ) (risen : ℕ)
        → grow_root zeros original sibling risen after ≡ err undefined_behaviour)
search_leaf_page-unlatched_example =
    search_leaf_page-unlatched numbers zeros 2 20 200 under_root 1 (negsuc 0) under_root-IsTree
      (omega arith) refl (omega arith) below_max
