-- ===== src/Tree/Scan.antt =====
-- `InternalScanKey`: what it returns, and what it leaves pinned and latched.
use gavin_db.Prelude.{ℕ, ◌+◌, ◌-◌, ◌^◌, ◌≤◌, ◌<◌, ◌≡◌, ◌∙◌, false, Option, ok, arith}
use gavin_db.Prelude.Int.{ℤ}
use gavin_db.Btree.Comparator.{Comparator}
use gavin_db.Btree.Leaf.{LeafPage}
use gavin_db.Btree.Leaf
use gavin_db.Tree.State.{
  Tree, M, ◌>>=◌, ◌>>◌, return, at, pin_more, leaf_at, fetch_page, r_unlatch, unpin_page,
}
use gavin_db.Tree.Descent.{search_op, descend, latch_root, search_leaf_page, scan_key}
use gavin_db.Tree.Content.{IsTree, Belongs, IsTree-IsPage}
use gavin_db.Tree.Counts.{one, one-bit, Moved, pin_more-add, at-add, at-sub, one_self}
use gavin_db.Tree.Search.{descend-Found, assert-true, next-ok, leaf_at-ok}

abbrev add_one : ℤ → (ℤ → ℕ) → ℤ → ℕ
add_one page f = at f page (f page + 1)

abbrev sub_one : ℤ → (ℤ → ℕ) → ℤ → ℕ
sub_one page f = at f page (f page - 1)

add_one_self : (page : ℤ) (f : ℤ → ℕ) → 1 ≤ add_one page f page
add_one_self page f = omega (arith, at-add f page page, one_self page)

-- What is left of a count that was raised at one page, went to another and was lowered there.
Moved-back :
    (page target : ℤ) (f g : ℤ → ℕ) (x : ℤ)
    → Moved page target (add_one page f) g
    → sub_one target g x ≡ f x
Moved-back page target f g x moved = omega (arith, moved x, at-add f page x, at-sub g target x)

sub-add : (page : ℤ) (f : ℤ → ℕ) (x : ℤ) → sub_one page (add_one page f) x ≡ f x
sub-add page f x = omega (arith, at-add f page x, at-sub (add_one page f) page x)

module _ {K V : Type 0} (c : Comparator K) (fuel : ℕ) (key : K) (t : Tree K V) where
  abbrev at_header : Tree K V
  at_header = record t {
    pins = pin_more t.header_page_id t.pins;
    readers = add_one t.header_page_id t.readers;
  }

  abbrev at_root : Tree K V
  at_root = record t {
    pins = pin_more t.root_page_id (pin_more t.header_page_id t.pins);
    readers =
        add_one t.root_page_id (sub_one t.header_page_id (add_one t.header_page_id t.readers));
  }

  pinned_header :
      ((page : ℤ) → t.pins page + 3 < 2 ^ 16)
      → (x : ℤ) → at_header.pins x ≡ t.pins x + one t.header_page_id x
  pinned_header few x = pin_more-add t.pins t.header_page_id x (omega (arith, few x))

  search_leaf_page-descend :
      {height : ℕ} {parent : ℤ}
      → IsTree c t.nodes height parent t.root_page_id
      → search_leaf_page c fuel key search_op at_header
        ≡ descend c fuel key search_op t.root_page_id false at_root
  unfolding search_leaf_page latch_root
  search_leaf_page-descend tree =
      assert-true
        (fetch_page t.root_page_id
          >> (latch_root search_op t.root_page_id
              >> descend c fuel key search_op t.root_page_id false))
        at_header (IsTree-IsPage c t.nodes tree)

  -- In a tree of a height below the rounds, whose pages have fewer than 2 ^ 16 - 3 pins each, a search
  -- returns, whatever its key. It gives what the
  -- leaf that the key belongs to holds under it, changes no page, and leaves every latch as it was;
  -- of the pins, one more on the header page remains.
  pub scan_key-Belongs :
      (height : ℕ) (parent : ℤ)
      → IsTree c t.nodes height parent t.root_page_id
      → height < fuel
      → ((page : ℤ) → t.pins page + 3 < 2 ^ 16)
      → (target : ℤ) × (node : LeafPage K V) × (pins : ℤ → ℕ) × (readers : ℤ → ℕ) × Belongs c
          t.nodes key height t.root_page_id target node
        × (scan_key c fuel key t
            ≡ ok (Leaf.lookup c key node, record t { pins = pins; readers = readers }))
        × ((page : ℤ) → pins page ≡ t.pins page + one t.header_page_id page)
        × ((page : ℤ) → readers page ≡ t.readers page)
  unfolding scan_key
  scan_key-Belongs height parent tree enough few =
      let found =
        descend-Found c key at_header.pins
          (λ x. omega (arith, few x, pinned_header few x, one-bit t.header_page_id x)) fuel false
          at_root tree enough (λ h. absurd (cc))
          (λ x.
            pin_more-add at_header.pins t.root_page_id x
              (omega (arith, few x, pinned_header few x, one-bit t.header_page_id x)))
          (add_one_self t.root_page_id (sub_one t.header_page_id at_header.readers)) in
      let t' = record t { pins = found.pins; readers = found.readers } in
      (
        found.target,
        found.node,
        sub_one found.target found.pins,
        sub_one found.target found.readers,
        found.belongs,
        next-ok (search_leaf_page c fuel key search_op) (finish) at_header
              (search_leaf_page-descend tree ∙ found.result)
            ∙ next-ok (leaf_at found.target) (release found.target) t'
                (leaf_at-ok found.target t' found.node found.at_target),
        λ page. omega (
          arith,
          found.pins-Moved page,
          at-sub found.pins found.target page,
          pinned_header few page,
          pin_more-add at_header.pins t.root_page_id page
              (omega (arith, few page, pinned_header few page, one-bit t.header_page_id page)),
        ),
        λ page.
            Moved-back t.root_page_id found.target (sub_one t.header_page_id at_header.readers)
              found.readers page found.readers-Moved
            ∙ sub-add t.header_page_id t.readers page,
      )
    where
      release : ℤ → LeafPage K V → M K V (Option V)
      release page node = r_unlatch page >> (unpin_page page >> return (Leaf.lookup c key node))

      finish : ℤ → M K V (Option V)
      finish page = leaf_at page >>= release page
