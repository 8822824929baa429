-- ===== src/Tree/Search.antt =====
-- The search of the tree finds the leaf that the key belongs to, and holds no more than it.
use gavin_db.Prelude.{
  ℕ, zero, suc, ◌+◌, ◌-◌, ◌^◌, ◌≤◌, ◌<◌, ◌≡◌, refl, ap, ◌∙◌, Bool, true, false, not, ◌||◌, Result,
  ok, err, arith,
}
use gavin_db.Prelude.Int.{ℤ, pos, ltb_ℤ}
use gavin_db.Btree.Comparator.{Comparator}
use gavin_db.Btree.Page.{BtreePage}
use gavin_db.Btree.Leaf.{LeafPage}
use gavin_db.Btree.Internal.{InternalPage, value_at}
use gavin_db.Btree.Internal
use gavin_db.Btree.Internal.Routing.{lookup-Covers, covering}
use gavin_db.Tree.State.{
  Tree, leaf, internal, M, ◌>>=◌, ◌>>◌, return, assert, at, pin_more, lift, as_leaf, fetch_page,
  base_of, base_at, leaf_at,
}
use gavin_db.Tree.Descent.{search_op, crab, descend_from, descend}
use gavin_db.Tree.Content.{
  IsPage, IsTree, leaf_tree, inner_tree, Belongs, here, below, IsTree-IsPage, IsTree-base,
}
use gavin_db.Tree.Counts.{
  one, one-bit, one_self, small_pin, Moved, passed, passed-Moved, passed-child, Moved-trans,
  Moved-refl,
}

pub parent_checked :
    (has_parent : Bool) (parent own : ℤ)
    → (has_parent ≡ true → IsPage parent)
    → own ≡ parent
    → (not has_parent || ltb_ℤ (pos 0) own) ≡ true
parent_checked true parent own h e = ap (λ p. ltb_ℤ (pos 0) p) e ∙ h refl
parent_checked false parent own h e = refl

module _ {K V : Type 0} where
  pub assert-true :
      {A : Type 0} {b : Bool} (k : M K V A) (t : Tree K V) → b ≡ true → (assert b >> k) t ≡ k t
  assert-true k t h = ap (λ b. (assert b >> k) t) h

  pub next-ok :
      {A B : Type 0} (m : M K V A) (f : A → M K V B) (t : Tree K V) {t' : Tree K V} {a : A}
      → m t ≡ ok (a, t')
      → (m >>= f) t ≡ f a t'
  next-ok m f t h = ap (λ r. elim r [ err e ↦ err e | ok (a, t') ↦ f a t' ]) h

  pub base_at-ok :
      (page : ℤ) (t : Tree K V) (base : BtreePage)
      → base_of (t.nodes page) ≡ ok base
      → base_at page t ≡ ok (base, t)
  unfolding base_at
  base_at-ok page t base h = ap (λ r. lift r t) h

  pub leaf_at-ok :
      (page : ℤ) (t : Tree K V) (node : LeafPage K V)
      → t.nodes page ≡ leaf node
      → leaf_at page t ≡ ok (node, t)
  unfolding leaf_at
  leaf_at-ok page t node h = ap (λ n. lift (as_leaf n) t) h

module _ {K V : Type 0} (c : Comparator K) (key : K) where
  -- What the loop of the search ends in.
  pub record Found (height : ℕ) (page : ℤ) (t : Tree K V) (r : Result (ℤ × Tree K V)) : Type 0 where
    pub target : ℤ
    pub node : LeafPage K V
    pub pins : ℤ → ℕ
    pub readers : ℤ → ℕ
    pub result : r ≡ ok (target, record t { pins = pins; readers = readers })
    pub belongs : Belongs c t.nodes key height page target node
    pub at_target : t.nodes target ≡ leaf node
    pub pins-Moved : Moved page target t.pins pins
    pub readers-Moved : Moved page target t.readers readers

  descend_from-inner :
      (fuel : ℕ) (page child : ℤ) (has_parent : Bool) (t : Tree K V) (node : InternalPage K)
      (base : BtreePage)
      → t.nodes page ≡ internal node
      → Internal.lookup c key node ≡ child
      → IsPage child
      → base_of (t.nodes child) ≡ ok base
      → t.pins child + 1 < 2 ^ 16
      → descend c (suc fuel) key search_op page has_parent t
        ≡ descend c fuel key search_op child true
            (record t { pins = passed page child t.pins; readers = passed page child t.readers })
  unfolding descend descend_from crab
  descend_from-inner fuel page child has_parent t node base e l h b few =
      let rest = λ (p : ℤ). descend c fuel key search_op p true in
      let t' = record t { pins = pin_more child t.pins } in
      ap (λ n. descend_from c rest key search_op page has_parent n t) e
      ∙ ap
          (λ p.
            (assert (ltb_ℤ (pos 0) p)
                >> (fetch_page p >> (base_at p >>= λ base. crab search_op page p base >> rest p)))
              t)
          l
      ∙ assert-true
          (fetch_page child
            >> (base_at child >>= λ base. crab search_op page child base >> rest child))
          t h
      ∙ next-ok (base_at child) (λ base. crab search_op page child base >> rest child) t'
          (base_at-ok child t' base b)
      ∙ ap
          (λ n. descend c fuel key search_op child true (record t {
            pins = at (at t.pins child n) page (at t.pins child n page - 1);
            readers = passed page child t.readers;
          }))
          (small_pin (t.pins child) few)

  -- Every page has `before` pins, few enough, and the page that the loop is at one more.
  pub descend-Found :
      (before : ℤ → ℕ)
      → ((x : ℤ) → before x + 2 < 2 ^ 16)
      → (fuel : ℕ) {height : ℕ} {parent page : ℤ} (has_parent : Bool) (t : Tree K V)
      → IsTree c t.nodes height parent page
      → height < fuel
      → (has_parent ≡ true → IsPage parent)
      → ((x : ℤ) → t.pins x ≡ before x + one page x)
      → 1 ≤ t.readers page
      → Found height page t (descend c fuel key search_op page has_parent t)
  unfolding descend descend_from
  descend-Found before few zero has_parent t tree h k p r = absurd (omega arith)
  descend-Found before few (suc fuel) has_parent t (leaf_tree parent page node h e o l) f k p r =
      record {
        target = page;
        node = node;
        pins = t.pins;
        readers = t.readers;
        result =
            ap
              (λ n.
                descend_from c (λ q. descend c fuel key search_op q true) key search_op page
                  has_parent n t)
              e
            ∙ assert-true (return page) t
                (parent_checked has_parent parent node.base.parent_page_id k o);
        belongs = here page node e;
        at_target = e;
        pins-Moved = Moved-refl page t.pins;
        readers-Moved = Moved-refl page t.readers;
      }
  descend-Found before few (suc fuel) has_parent t
        (inner_tree height parent page node h e o l children) f k p r =
      let (i, covers) = covering c key node l in
      let tree = children i covers.inside in
      let (base, b) = IsTree-base c t.nodes tree in
      let child = value_at node i in
      let low : 1 ≤ t.pins page = omega (arith, p page, one_self page) in
      let t' = record t {
        pins = passed page child t.pins;
        readers = passed page child t.readers;
      } in
      let found =
        descend-Found before few fuel true t' tree (omega arith) (λ _. h)
          (λ x. omega (arith, p x, passed-Moved page child t.pins low x))
          (passed-child page child t.readers r) in
      record {
        target = found.target;
        node = found.node;
        pins = found.pins;
        readers = found.readers;
        result =
            descend_from-inner fuel page child has_parent t node base e
              (lookup-Covers c key node l i covers) (IsTree-IsPage c t.nodes tree) b
              (omega (arith, p child, few child, one-bit page child))
            ∙ found.result;
        belongs = below height page node i found.target found.node e covers found.belongs;
        at_target = found.at_target;
        pins-Moved =
            Moved-trans page child found.target t.pins t'.pins found.pins
              (passed-Moved page child t.pins low) found.pins-Moved;
        readers-Moved =
            Moved-trans page child found.target t.readers t'.readers found.readers
              (passed-Moved page child t.readers r) found.readers-Moved;
      }
