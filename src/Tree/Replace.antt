-- ===== src/Tree/Replace.antt =====
-- A leaf of the tree is replaced by one with another entry: what the tree holds then.
use gavin_db.Prelude.{
  ℕ, ◌≡◌, refl, sym, ap, ◌∙◌, true, false, Bool, Option, some, none, if◌then◌else◌, ◌==◌,
  Bool-cases, inl, inr, ltb, ◌&&◌, ==_iff, fun_ext,
}
use gavin_db.Btree.LowerBound.{lower_bound}
use mathlib.Core.Path.{subst}
use gavin_db.Prelude.Int.{ℤ, int_eq, int_eq_iff}
use gavin_db.Btree.Comparator.{Comparator}
use gavin_db.Btree.Leaf.{LeafPage}
use gavin_db.Btree.Leaf
use gavin_db.Btree.Leaf.Insert.{IsLeaf, Inserted, first_value}
use gavin_db.Btree.Internal.{InternalPage, value_at}
use gavin_db.Btree.Internal.Routing.{IsInternal, Covers, lookup-Covers}
use gavin_db.Tree.State.{Node, leaf, internal, at}
use gavin_db.Tree.Content.{IsTree, leaf_tree, inner_tree, Belongs, here, below, Belongs-at}

leaf-injective : {K V : Type 0} {a b : LeafPage K V} → leaf a ≡ leaf b → a ≡ b
leaf-injective h = cc

internal-injective :
    {K V : Type 0} {a b : InternalPage K} → ◌≡◌ {A = Node K V} (internal a) (internal b) → a ≡ b
internal-injective h = cc

pub at_self {ℓ} : {A : Type ℓ} (f : ℤ → A) (page : ℤ) (a : A) → at f page a page ≡ a
at_self f page a = ap (λ b. if b then a else f page) ((int_eq_iff page page).1 refl)

at_other {ℓ} :
    {A : Type ℓ} (f : ℤ → A) (page other : ℤ) (a : A)
    → int_eq page other ≡ false
    → at f page a other ≡ f other
at_other f page other a h = ap (λ b. if b then a else f other) h

true-ne-false : true ≡ false → ⊥
true-ne-false h = cc

leaf-ne-internal : {K V : Type 0} {a : LeafPage K V} {b : InternalPage K} → leaf a ≡ internal b → ⊥
leaf-ne-internal h = cc

module _ {K V : Type 0} (c : Comparator K) (nodes : ℤ → Node K V) (key key' : K)
    (same_rank : c.rank key' ≡ c.rank key) where
  -- The children that two keys of a rank go to are one.
  child_unique :
      (node : InternalPage K) (i j : ℕ)
      → IsInternal c node
      → Covers c node i (c.rank key)
      → Covers c node j (c.rank key')
      → value_at node j ≡ value_at node i
  child_unique node i j inner v w =
      sym (lookup-Covers c key node inner j (subst (Covers c node j) same_rank w))
      ∙ lookup-Covers c key node inner i v

  -- A key belongs to one leaf, and keys of one rank belong to the same.
  pub Belongs-unique :
      {height : ℕ} {parent page : ℤ} (a b : ℤ) (m n : LeafPage K V)
      → IsTree c nodes height parent page
      → Belongs c nodes key height page a m
      → Belongs c nodes key' height page b n
      → (b ≡ a) × (n ≡ m)
  Belongs-unique a b m n (leaf_tree parent page node h e o l) (here _ _ f) (here _ _ g) =
      (refl, leaf-injective (sym g ∙ f))
  Belongs-unique a b m n (inner_tree height parent page node h e o l children)
        (below _ _ inner i _ _ f v u) (below _ _ inner' j _ _ g w x) =
      let first : inner ≡ node = internal-injective {K = K} {V = V} (sym f ∙ e) in
      let second : inner' ≡ node = internal-injective {K = K} {V = V} (sym g ∙ e) in
      let v' = subst (λ q. Covers c q i (c.rank key)) first v in
      let w' = subst (λ q. Covers c q j (c.rank key')) second w in
      Belongs-unique a b m n (children i v'.inside)
        (subst (λ q. Belongs c nodes key height q a m) (ap (λ q. value_at q i) first) u)
        (subst (λ q. Belongs c nodes key' height q b n)
          (ap (λ q. value_at q j) second ∙ child_unique node i j l v' w') x)

module _ {K V : Type 0} (c : Comparator K) (nodes : ℤ → Node K V) (key : K) where
  pub Belongs-IsLeaf :
      {height : ℕ} {parent page : ℤ} (a : ℤ) (m : LeafPage K V)
      → IsTree c nodes height parent page
      → Belongs c nodes key height page a m
      → IsLeaf c m
  Belongs-IsLeaf a m (leaf_tree parent page node h e o l) (here _ _ f) =
      subst (IsLeaf c) (leaf-injective (sym e ∙ f)) l
  Belongs-IsLeaf a m (inner_tree height parent page node h e o l children)
        (below _ _ inner i _ _ f v u) =
      let same : inner ≡ node = internal-injective {K = K} {V = V} (sym f ∙ e) in
      let v' = subst (λ q. Covers c q i (c.rank key)) same v in
      Belongs-IsLeaf a m (children i v'.inside)
        (subst (λ q. Belongs c nodes key height q a m) (ap (λ q. value_at q i) same) u)

module _ {K V : Type 0} (c : Comparator K) (nodes : ℤ → Node K V) (target : ℤ)
    (node filled : LeafPage K V) (at_target : nodes target ≡ leaf node) where
  abbrev replaced : ℤ → Node K V
  replaced = at nodes target (leaf filled)

  inner_kept :
      (page : ℤ) (inner : InternalPage K)
      → nodes page ≡ internal inner
      → replaced page ≡ internal inner
  inner_kept page inner e = elim (Bool-cases (int_eq target page)) [
    | inl same ↦
        absurd (leaf-ne-internal (sym at_target ∙ ap nodes ((int_eq_iff target page).0 same) ∙ e))
    | inr other ↦ at_other nodes target page (leaf filled) other ∙ e
  ]

  pub IsTree-replaced :
      {height : ℕ} {parent page : ℤ}
      → IsLeaf c filled
      → filled.base.parent_page_id ≡ node.base.parent_page_id
      → IsTree c nodes height parent page
      → IsTree c replaced height parent page
  IsTree-replaced l p (leaf_tree parent page n h e o k) = elim (Bool-cases (int_eq target page)) [
    | inl same ↦
        let e' : target ≡ page = (int_eq_iff target page).0 same in
        let n' : n ≡ node = leaf-injective (sym e ∙ sym (ap nodes e') ∙ at_target) in
        leaf_tree parent page filled h (ap replaced (sym e') ∙ at_self nodes target (leaf filled))
          (p ∙ ap (λ q. q.base.parent_page_id) (sym n') ∙ o) l
    | inr other ↦ leaf_tree parent page n h (at_other nodes target page (leaf filled) other ∙ e) o k
  ]
  IsTree-replaced l p (inner_tree height parent page n h e o k children) =
      inner_tree height parent page n h (inner_kept page n e) o k
        (λ i inside. IsTree-replaced l p (children i inside))

  -- Keys belong where they did, to the new leaf instead of the old one.
  pub Belongs-replaced :
      (key : K) {height : ℕ} {page a : ℤ} {m : LeafPage K V}
      → Belongs c nodes key height page a m
      → Belongs c replaced key height page a (if int_eq target a then filled else m)
  Belongs-replaced key (here page m e) =
      here page (if int_eq target page then filled else m) (leaf_there (int_eq target page))
    where
      leaf_there :
          (b : Bool) → (if b then leaf filled else nodes page) ≡ leaf (if b then filled else m)
      leaf_there true = refl
      leaf_there false = e
  Belongs-replaced key (below height page inner i a m e v u) =
      below height page inner i a (if int_eq target a then filled else m) (inner_kept page inner e)
        v (Belongs-replaced key u)

-- A search looks at no more of a key than its rank.
lookup_same_rank :
    {K V : Type 0} (c : Comparator K) (key key' : K) (page : LeafPage K V)
    → c.rank key' ≡ c.rank key
    → Leaf.lookup c key' page ≡ Leaf.lookup c key page
unfolding Leaf.lookup Leaf.find_key_index
lookup_same_rank {K} {V} c key key' page r =
    let index = Leaf.find_key_index c key page in
    ap
      (λ (test : K × V → Bool).
        let target = lower_bound test page.node_array page.base.size 0 in
        if ltb target page.base.size && c.key_eq (Leaf.key_at page target) key'
        then some (Leaf.value_at page target)
        else none)
      (fun_ext λ pair.
        c.compare-lt pair.0 key' ∙ ap (ltb (c.rank pair.0)) r ∙ sym (c.compare-lt pair.0 key))
    ∙ ap (λ b. if ltb index page.base.size && b then some (Leaf.value_at page index) else none)
        (c.key_eq-rank (Leaf.key_at page index) key'
          ∙ ap (λ n. c.rank (Leaf.key_at page index) == n) r
          ∙ sym (c.key_eq-rank (Leaf.key_at page index) key))

-- What the tree under a page holds under a key: what the leaf that the key belongs to holds.
abbrev pub Holds :
    {K V : Type 0} (c : Comparator K) (nodes : ℤ → Node K V) → ℕ → ℤ → K → Option V → Type 0
Holds {K} {V} c nodes height page key found =
    (target : ℤ) × (node : LeafPage K V) × Belongs c nodes key height page target node
    × (Leaf.lookup c key node ≡ found)

module _ {K V : Type 0} (c : Comparator K) (nodes : ℤ → Node K V) (key : K) (value : V) {height : ℕ}
    {parent page : ℤ} (target : ℤ) (node filled : LeafPage K V)
    (tree : IsTree c nodes height parent page)
    (belongs : Belongs c nodes key height page target node) (at_target : nodes target ≡ leaf node)
    (inserted : Inserted c key value node filled) where
  -- After the insertion the tree holds the first value under the key, and all else as before.
  pub Holds-replaced :
      (key' : K) (found : Option V)
      → Holds c nodes height page key' found
      → Holds c
          (at nodes target (leaf filled))
          height
          page
          key'
          (if c.rank key' == c.rank key then first_value found value else found)
  Holds-replaced key' found (a, m, there, e) = (
    a,
    if int_eq target a then filled else m,
    Belongs-replaced c nodes target node filled at_target key' there,
    elim (Bool-cases (int_eq target a)) [
      | inl same ↦
          let a-target : target ≡ a = (int_eq_iff target a).0 same in
          let m-node : m ≡ node =
            leaf-injective (sym (Belongs-at c nodes there) ∙ ap nodes (sym a-target) ∙ at_target) in
          ap (λ b. Leaf.lookup c key' (if b then filled else m)) same
          ∙ inserted.found key'
          ∙ in_target found m-node e
      | inr other ↦
          ap (λ b. Leaf.lookup c key' (if b then filled else m)) other ∙ e ∙ elsewhere other
    ],
  )
    where
      in_target :
          (found : Option V)
          → m ≡ node
          → Leaf.lookup c key' m ≡ found
          → (if c.rank key' == c.rank key
              then first_value (Leaf.lookup c key node) value
              else Leaf.lookup c key' node)
            ≡ (if c.rank key' == c.rank key then first_value found value else found)
      in_target found s e = elim (Bool-cases (c.rank key' == c.rank key)) [
        | inl q ↦
            let found_there : Leaf.lookup c key node ≡ found =
              sym (lookup_same_rank c key key' node ((==_iff _ _).0 q))
              ∙ ap (Leaf.lookup c key') (sym s)
              ∙ e in
            ap
              (λ f.
                if c.rank key' == c.rank key then first_value f value else Leaf.lookup c key' node)
              found_there
            ∙ rw q refl
        | inr q ↦ rw q (ap (Leaf.lookup c key') (sym s) ∙ e)
      ]

      elsewhere :
          int_eq target a ≡ false
          → found ≡ (if c.rank key' == c.rank key then first_value found value else found)
      elsewhere other = elim (Bool-cases (c.rank key' == c.rank key)) [
        | inl q ↦
            let (same, _) =
              Belongs-unique c nodes key key' ((==_iff _ _).0 q) target a node m tree belongs
                there in
            absurd (true-ne-false (sym ((int_eq_iff target a).1 (sym same)) ∙ other))
        | inr q ↦ rw q refl
      ]
