-- ===== src/Btree/Leaf/Split.antt =====
-- `MoveHalfTo` of a leaf: what the two halves hold.
use gavin_db.Prelude.{
  ℕ, zero, suc, ◌+◌, ◌-◌, ◌/◌, ◌≤◌, ◌<◌, ◌≡◌, refl, sym, ap, ◌∙◌, none, some, false, ltb,
  if◌then◌else◌, arith, inl, inr, Bool-cases, Option-cases, ltb→lt, lt→ltb,
}
use native.Mathlib.Nat.{add-zero}
use gavin_db.Btree.Comparator.{Comparator}
use gavin_db.Btree.Page.{leaf_page}
use gavin_db.Btree.Leaf.{LeafPage, key_at, value_at, move_half_to, lookup}
use gavin_db.Btree.Leaf.Search.{
  IsSorted, Lacks, lookup_hit, lookup_miss, lookup-eq-some, Lacks-of_none,
}
use gavin_db.Btree.Leaf.Insert.{IsLeaf}

module _ {K V : Type 0} (c : Comparator K) (page recipient : LeafPage K V) where
  abbrev pub left_half : LeafPage K V
  left_half = (move_half_to page recipient).0

  abbrev pub right_half : LeafPage K V
  right_half = (move_half_to page recipient).1

  -- The rank of the key that rises into the parent.
  abbrev pub risen_rank : ℕ
  risen_rank = c.rank (key_at right_half 0)

  module _ (leaf : IsLeaf c page) (is_leaf : page.base.page_type ≡ leaf_page)
      (full : page.base.size ≡ page.base.max_size) (two : 2 ≤ page.base.max_size)
      (blank : recipient.base.size ≡ 0) where
    abbrev start : ℕ
    start = page.base.max_size / 2

    size-left : left_half.base.size ≡ start
    unfolding move_half_to
    size-left = rw is_leaf refl

    size-right : right_half.base.size ≡ page.base.size - start
    unfolding move_half_to
    size-right = rw (is_leaf, blank) (let w = leaf.word in omega arith)

    left_entry : (j : ℕ) → left_half.node_array j ≡ page.node_array j
    unfolding move_half_to
    left_entry j = refl

    right_entry :
        (j : ℕ) → j < page.base.size - start → right_half.node_array j ≡ page.node_array (start + j)
    unfolding move_half_to
    right_entry j h = rw (is_leaf, blank) (ground arith)

    left-rank : (j : ℕ) → c.rank (key_at left_half j) ≡ c.rank (key_at page j)
    left-rank j = ap (λ (e : K × V). c.rank e.0) (left_entry j)

    right-rank :
        (j : ℕ)
        → j < page.base.size - start
        → c.rank (key_at right_half j) ≡ c.rank (key_at page (start + j))
    right-rank j h = ap (λ (e : K × V). c.rank e.0) (right_entry j h)

    right_first : risen_rank ≡ c.rank (key_at page start)
    right_first = right-rank 0 (omega arith) ∙ ap (λ (i : ℕ). c.rank (key_at page i)) (omega arith)

    left-IsSorted : IsSorted c left_half
    left-IsSorted i j h k =
        let m = leaf.sorted i j h (omega (arith, size-left)) in
        omega (arith, left-rank i, left-rank j)

    right-IsSorted : IsSorted c right_half
    right-IsSorted i j h k =
        let m = leaf.sorted (start + i) (start + j) (omega arith) (omega (arith, size-right)) in
        omega (
          arith,
          right-rank i (omega (arith, size-right)),
          right-rank j (omega (arith, size-right)),
        )

    lookup_left :
        (key : K) (i : ℕ)
        → i < start
        → c.rank (key_at page i) ≡ c.rank key
        → (if ltb (c.rank key) risen_rank then lookup c key left_half else lookup c key right_half)
          ≡ some (value_at page i)
    lookup_left key i h e =
        let m = leaf.sorted i start h (omega arith) in
        let below : c.rank key < risen_rank = omega (arith, right_first) in
        rw (lt→ltb _ _ below) (
          lookup_hit c key left_half left-IsSorted i (omega (arith, size-left)) (left-rank i ∙ e)
          ∙ ap (λ (e : K × V). some e.1) (left_entry i))

    lookup_right :
        (key : K) (j : ℕ)
        → j < page.base.size - start
        → c.rank (key_at page (start + j)) ≡ c.rank key
        → (if ltb (c.rank key) risen_rank then lookup c key left_half else lookup c key right_half)
          ≡ some (value_at page (start + j))
    lookup_right key j h e =
        let above : ltb (c.rank key) risen_rank ≡ false = not_below j h e in
        rw above (
          lookup_hit c key right_half right-IsSorted j (omega (arith, size-right))
            (right-rank j h ∙ e)
          ∙ ap (λ (e : K × V). some e.1) (right_entry j h))
      where
        not_below :
            (j : ℕ)
            → j < page.base.size - start
            → c.rank (key_at page (start + j)) ≡ c.rank key
            → ltb (c.rank key) risen_rank ≡ false
        not_below zero h e =
            ground (arith, right_first, ap (λ (i : ℕ). c.rank (key_at page i)) (add-zero start))
        not_below (suc j) h e =
            let m = leaf.sorted start (start + suc j) (omega arith) (omega arith) in
            ground (arith, right_first)

    lookup_neither :
        (key : K)
        → Lacks c page key
        → (if ltb (c.rank key) risen_rank then lookup c key left_half else lookup c key right_half)
          ≡ none
    lookup_neither key lacks = elim (Bool-cases (ltb (c.rank key) risen_rank)) [
      | inl below ↦ rw below (
          lookup_miss c key left_half
            (λ i h e. lacks i (omega (arith, size-left)) (sym (left-rank i) ∙ e)))
      | inr above ↦ rw above (
          lookup_miss c key right_half (λ i h e.
            lacks (start + i) (omega (arith, size-right))
              (sym (right-rank i (omega (arith, size-right))) ∙ e)))
    ]

    -- Splitting a full leaf loses no entry and invents none: the search for a key below the first of
    -- the right half goes on in the left half, that for any other key in the right half, and finds
    -- there what it found in the whole. Both halves ascend and hold an entry, their sizes add up, and
    -- the slot past the left half's entries still holds the key that rises.
    pub leaf_split :
        ((key : K)
          → lookup c key page ≡ (
              if ltb (c.rank key) risen_rank
              then lookup c key left_half
              else lookup c key right_half))
        × IsSorted c left_half
        × IsSorted c right_half
        × (left_half.base.size + right_half.base.size ≡ page.base.size)
        × (0 < left_half.base.size)
        × (0 < right_half.base.size)
        × (c.rank (key_at left_half left_half.base.size) ≡ risen_rank)
    leaf_split = (
      split_lookup,
      left-IsSorted,
      right-IsSorted,
      omega (arith, size-left, size-right),
      omega (arith, size-left),
      omega (arith, size-right),
      left-rank left_half.base.size
          ∙ ap (λ (i : ℕ). c.rank (key_at page i)) size-left
          ∙ sym right_first,
    )
      where
        split_lookup :
            (key : K)
            → lookup c key page ≡ (
                if ltb (c.rank key) risen_rank
                then lookup c key left_half
                else lookup c key right_half)
        split_lookup key = elim (Option-cases (lookup c key page)) [
          | inl miss ↦ miss ∙ sym (lookup_neither key (Lacks-of_none c key page leaf.sorted miss))
          | inr (v, hit) ↦
              let (i, inside, same, held) = lookup-eq-some c key page hit in
              hit ∙ ap some (sym held) ∙ (elim (Bool-cases (ltb i start)) [
                | inl left ↦ sym (lookup_left key i (ltb→lt _ _ left) same)
                | inr right ↦
                    let e : i ≡ start + (i - start) = ground arith in
                    ap (λ (n : ℕ). some (value_at page n)) e
                    ∙ sym (
                        lookup_right key (i - start) (ground arith)
                          (sym (ap (λ (n : ℕ). c.rank (key_at page n)) e) ∙ same))
              ])
        ]
