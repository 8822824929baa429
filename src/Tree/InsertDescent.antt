-- ===== src/Tree/InsertDescent.antt =====
-- The descent of an insertion reaches the leaf that the key belongs to.
use gavin_db.Prelude.{
  ℕ, zero, suc, ◌+◌, ◌≤◌, ◌<◌, ◌≡◌, refl, sym, ap, ◌∙◌, true, List, [], Result, ok, arith, Bool,
  ℕ_discrete,
}
use mathlib.Core.Path.{subst}
use gavin_db.Prelude.Int.{ℤ, pos, ltb_ℤ}
use gavin_db.Btree.Comparator.{Comparator}
use gavin_db.Btree.Page.{BtreePage}
use gavin_db.Btree.Leaf.{LeafPage}
use gavin_db.Btree.Internal.{InternalPage, value_at}
use gavin_db.Btree.Internal
use gavin_db.Btree.Internal.Routing.{lookup-Covers, covering}
use gavin_db.Tree.State.{
  Tree, leaf, internal, ◌>>=◌, ◌>>◌, return, assert, pin_more, fetch_page, base_of, base_at,
}
use gavin_db.Tree.Descent.{insert_op, crab, descend_from, descend}
use gavin_db.Tree.Content.{
  IsPage, IsTree, leaf_tree, inner_tree, Belongs, here, below, IsTree-IsPage, IsTree-base,
}
use gavin_db.Tree.Search.{assert-true, next-ok, base_at-ok, parent_checked}
use gavin_db.Tree.Crabbing.{Held, with_latches, crab-Crabbed, deeper-Held}

ok-injective : {A : Type 0} {a b : A} → ok a ≡ ok b → a ≡ b
ok-injective h = cc

module _ {K V : Type 0} (c : Comparator K) (key : K) (limit : ℕ) (pins writers : ℤ → ℕ) where
  -- What the loop ends in: the leaf, held with the pages of the page set; where the descent took a
  -- step and the leaf is safe, that set is empty.
  pub record Reached (height : ℕ) (page : ℤ) (t : Tree K V) (r : Result (ℤ × Tree K V))
      : Type 0 where
    pub target : ℤ
    pub node : LeafPage K V
    pub new_pins : ℤ → ℕ
    pub new_writers : ℤ → ℕ
    pub pages : List ℤ
    pub result : r ≡ ok (target, with_latches t new_pins new_writers pages)
    pub belongs : Belongs c t.nodes key height page target node
    pub at_target : t.nodes target ≡ leaf node
    pub held : Held limit pins writers target (with_latches t new_pins new_writers pages)
    pub stayed : height ≡ 0 → (target ≡ page) × (pages ≡ t.page_set)
    pub freed : 0 < height → node.base.size < node.base.max_size → pages ≡ []

  step-inner :
      (fuel : ℕ) (page child : ℤ) (has_parent : Bool) (t t' : Tree K V) (node : InternalPage K)
      (base : BtreePage)
      → t.nodes page ≡ internal node
      → Internal.lookup c key node ≡ child
      → IsPage child
      → base_of (t.nodes child) ≡ ok base
      → crab insert_op page child base (record t { pins = pin_more child t.pins }) ≡ ok (tt, t')
      → descend c (suc fuel) key insert_op page has_parent t
        ≡ descend c fuel key insert_op child true t'
  unfolding descend descend_from
  step-inner fuel page child has_parent t t' node base e l h b crabbed =
      let rest = λ (p : ℤ). descend c fuel key insert_op p true in
      let t1 = record t { pins = pin_more child t.pins } in
      ap (λ n. descend_from c rest key insert_op page has_parent n t) e
      ∙ ap
          (λ p.
            (assert (ltb_ℤ (pos 0) p)
                >> (fetch_page p >> (base_at p >>= λ base. crab insert_op page p base >> rest p)))
              t)
          l
      ∙ assert-true
          (fetch_page child
            >> (base_at child >>= λ base. crab insert_op page child base >> rest child))
          t h
      ∙ next-ok (base_at child) (λ base. crab insert_op page child base >> rest child) t1
          (base_at-ok child t1 base b)
      ∙ next-ok (crab insert_op page child base) (λ _. rest child) t1 crabbed

  leaf_base :
      (child target : ℤ) (t : Tree K V) (base : BtreePage) (node : LeafPage K V)
      → base_of (t.nodes child) ≡ ok base
      → target ≡ child
      → t.nodes target ≡ leaf node
      → node.base ≡ base
  unfolding base_of
  leaf_base child target t base node b e l =
      ok-injective (sym (ap base_of (sym (ap t.nodes e) ∙ l)) ∙ b)

  pub descend-Reached :
      (fuel depth : ℕ) {height : ℕ} {parent page : ℤ} (has_parent : Bool) (t : Tree K V)
      → IsTree c t.nodes height parent page
      → height < fuel
      → (has_parent ≡ true → IsPage parent)
      → depth + height ≤ limit
      → Held depth pins writers page t
      → Reached height page t (descend c fuel key insert_op page has_parent t)
  unfolding descend descend_from
  descend-Reached zero depth has_parent t tree h k below_limit held = absurd (omega arith)
  descend-Reached (suc fuel) depth has_parent t (leaf_tree parent page node h e o l) f k below_limit
        held =
      record {
        target = page;
        node = node;
        new_pins = t.pins;
        new_writers = t.writers;
        pages = t.page_set;
        result =
            ap
              (λ n.
                descend_from c (λ q. descend c fuel key insert_op q true) key insert_op page
                  has_parent n t)
              e
            ∙ assert-true (return page) t
                (parent_checked has_parent parent node.base.parent_page_id k o);
        belongs = here page node e;
        at_target = e;
        held = deeper-Held depth limit pins writers page t (omega (arith, below_limit)) held;
        stayed = λ z. (refl, refl);
        freed = λ z. absurd (omega arith);
      }
  descend-Reached (suc fuel) depth has_parent t
        (inner_tree height parent page node h e o l children) f k below_limit held =
      let (i, covers) = covering c key node l in
      let tree = children i covers.inside in
      let (base, b) = IsTree-base c t.nodes tree in
      let child = value_at node i in
      let crabbed = crab-Crabbed depth pins writers page child base t held in
      let t' = with_latches t crabbed.new_pins crabbed.new_writers crabbed.pages in
      let reached =
        descend-Reached fuel (suc depth) true t' tree (omega arith) (λ _. h)
          (omega (arith, below_limit)) crabbed.held in
      record {
        target = reached.target;
        node = reached.node;
        new_pins = reached.new_pins;
        new_writers = reached.new_writers;
        pages = reached.pages;
        result =
            step-inner fuel page child has_parent t t' node base e
              (lookup-Covers c key node l i covers) (IsTree-IsPage c t.nodes tree) b crabbed.result
            ∙ reached.result;
        belongs = below height page node i reached.target reached.node e covers reached.belongs;
        at_target = reached.at_target;
        held = reached.held;
        stayed = λ z. absurd (omega arith);
        freed = λ z small. elim (ℕ_discrete height 0) [
          | Dec.yes ground_level ↦
              let (same, kept) = reached.stayed ground_level in
              kept
              ∙ crabbed.safe (
                  subst (λ b. b.size < b.max_size)
                    (leaf_base child reached.target t base reached.node b same reached.at_target)
                    small)
          | Dec.no higher ↦ reached.freed (omega (arith, higher)) small
        ];
      }
