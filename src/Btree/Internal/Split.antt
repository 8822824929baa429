-- ===== src/Btree/Internal/Split.antt =====
-- `MoveHalfTo` of an inner page: the routing through the two halves, and the children's parents.
use gavin_db.Prelude.{
  ℕ, zero, suc, ◌+◌, ◌-◌, ◌/◌, ◌%◌, ◌^◌, ◌≤◌, ◌<◌, ◌≡◌, ◌≢◌, refl, sym, ap, ◌∙◌, false, ltb, ◌==◌,
  if◌then◌else◌, arith, inl, inr, Bool-cases, ltb→lt, lt→ltb,
}
use native.Mathlib.Nat.{add-zero}
use mathlib.Core.Path.{subst}
use gavin_db.Prelude.Int.{ℤ}
use gavin_db.Btree.Comparator.{Comparator}
use gavin_db.Btree.Page.{BtreePage, internal_page, get_min_size}
use gavin_db.Btree.Internal.{InternalPage, key_at, value_at, Headers, adopt, move_half_to, lookup}
use gavin_db.Btree.Internal.Adopt.{adopt_in, adopt_out}
use gavin_db.Btree.Internal.Routing.{IsInternal, Covers, lookup-Covers, covering}

module _ {K : Type 0} (c : Comparator K) (page recipient : InternalPage K) (headers : Headers) where
  abbrev pub left_half : InternalPage K
  left_half = (move_half_to page recipient headers).0

  abbrev pub right_half : InternalPage K
  right_half = (move_half_to page recipient headers).1

  -- The rank of the key that rises into the parent.
  abbrev pub risen_rank : ℕ
  risen_rank = c.rank (key_at right_half 0)

  -- The code splits the copy of a full page that one more entry was put into.
  module _ (internal : IsInternal c page) (is_internal : page.base.page_type ≡ internal_page)
      (over : page.base.size ≡ page.base.max_size + 1) (two : 2 ≤ page.base.max_size)
      (blank : recipient.base.size ≡ 0) where
    abbrev start : ℕ
    start = page.base.size / 2

    min_size : (page.base.max_size + 1) % 2 ^ 64 / 2 ≡ start
    min_size = let w = internal.word in omega arith

    size-left : left_half.base.size ≡ start
    unfolding move_half_to
    size-left = rw is_internal min_size

    size-right : right_half.base.size ≡ page.base.size - start
    unfolding move_half_to
    size-right = rw (is_internal, blank) (let w = internal.word in omega (arith, min_size))

    left_entry : (j : ℕ) → left_half.node_array j ≡ page.node_array j
    unfolding move_half_to
    left_entry j = refl

    right_entry :
        (j : ℕ) → j < page.base.size - start → right_half.node_array j ≡ page.node_array (start + j)
    unfolding move_half_to
    right_entry j h = rw (is_internal, blank, min_size) (ground arith)

    left-rank : (j : ℕ) → c.rank (key_at left_half j) ≡ c.rank (key_at page j)
    left-rank j = ap (λ (e : K × ℤ). c.rank e.0) (left_entry j)

    right-rank :
        (j : ℕ)
        → j < page.base.size - start
        → c.rank (key_at right_half j) ≡ c.rank (key_at page (start + j))
    right-rank j h = ap (λ (e : K × ℤ). c.rank e.0) (right_entry j h)

    right_first : risen_rank ≡ c.rank (key_at page start)
    right_first = right-rank 0 (omega arith) ∙ ap (λ (i : ℕ). c.rank (key_at page i)) (omega arith)

    left-IsInternal : IsInternal c left_half
    left-IsInternal = record {
      sorted = λ i j one lt le.
          omega (
            arith,
            internal.sorted i j one lt (omega (arith, size-left)),
            left-rank i,
            left-rank j,
          );
      child = omega (arith, size-left);
      word = let w = internal.word in omega (arith, size-left);
    }

    right-IsInternal : IsInternal c right_half
    right-IsInternal = record {
      sorted = λ i j one lt le.
          let inside : j < page.base.size - start = omega (arith, size-right) in
          omega (
            arith,
            internal.sorted (start + i) (start + j) (omega arith) (omega arith) (omega arith),
            right-rank i (omega arith),
            right-rank j inside,
          );
      child = omega (arith, size-right);
      word = let w = internal.word in omega (arith, size-right);
    }

    route : K → ℤ
    route key =
        if ltb (c.rank key) risen_rank then lookup c key left_half else lookup c key right_half

    route_left :
        (key : K) (i : ℕ) → i < start → Covers c page i (c.rank key) → route key ≡ value_at page i
    unfolding route
    route_left key i h v =
        let inside : suc i < page.base.size = omega arith in
        let under : c.rank key < risen_rank = elim (Bool-cases (suc i == start)) [
          | inl same ↦
              let e : suc i ≡ start = ground arith in
              omega (arith, right_first, ap (λ (n : ℕ). c.rank (key_at page n)) e, v.below inside)
          | inr other ↦
              let lt : suc i < start = ground arith in
              omega (
                arith,
                right_first,
                v.below inside,
                internal.sorted (suc i) start (omega arith) lt (omega arith),
              )
        ] in
        rw (lt→ltb _ _ under) (
          lookup-Covers c key left_half left-IsInternal i (record {
            inside = omega (arith, size-left);
            from = λ k. omega (arith, left-rank i, v.from k);
            below = λ k. omega (arith, left-rank (suc i), v.below inside);
          })
          ∙ ap (λ (e : K × ℤ). e.1) (left_entry i))

    route_right :
        (key : K) (j : ℕ)
        → j < page.base.size - start
        → Covers c page (start + j) (c.rank key)
        → route key ≡ value_at page (start + j)
    unfolding route
    route_right key j h v =
        let over_risen : ltb (c.rank key) risen_rank ≡ false = not_under j h v in
        rw over_risen (
          lookup-Covers c key right_half right-IsInternal j (record {
            inside = omega (arith, size-right);
            from = λ k. omega (arith, right-rank j h, v.from (omega arith));
            below = λ k.
                let more : suc j < page.base.size - start = omega (arith, size-right) in
                omega (
                  arith,
                  right-rank (suc j) more,
                  ap (λ (n : ℕ). c.rank (key_at page n)) (next_index j),
                  v.below (omega arith),
                );
          })
          ∙ ap (λ (e : K × ℤ). e.1) (right_entry j h))
      where
        next_index : (j : ℕ) → start + suc j ≡ suc (start + j)
        next_index j = omega arith

        not_under :
            (j : ℕ)
            → j < page.base.size - start
            → Covers c page (start + j) (c.rank key)
            → ltb (c.rank key) risen_rank ≡ false
        not_under zero h v = ground (
          arith,
          right_first,
          ap (λ (n : ℕ). c.rank (key_at page n)) (add-zero start),
          v.from (omega arith),
        )
        not_under (suc j) h v = ground (
          arith,
          right_first,
          internal.sorted start (start + suc j) (omega arith) (omega arith) (omega arith),
          v.from (omega arith),
        )

    same_route : (key : K) → lookup c key page ≡ route key
    same_route key = go (covering c key page internal)
      where
        go : (i : ℕ) × Covers c page i (c.rank key) → lookup c key page ≡ route key
        go (i, v) = lookup-Covers c key page internal i v ∙ (elim (Bool-cases (ltb i start)) [
          | inl left ↦ sym (route_left key i (ltb→lt _ _ left) v)
          | inr right ↦
              let e : i ≡ start + (i - start) = ground arith in
              let inside = v.inside in
              ap (value_at page) e
              ∙ sym (
                  route_right key (i - start) (ground arith)
                    (subst (λ (n : ℕ). Covers c page n (c.rank key)) e v))
        ])

    -- After the split a key below the risen one is routed by the left half, any other key by the
    -- right half, and either sends it to the child that the whole page sent it to. The halves are
    -- inner pages of their own, and their sizes add up.
    pub inner_page_split :
        ((key : K)
          → lookup c key page ≡ (
              if ltb (c.rank key) risen_rank
              then lookup c key left_half
              else lookup c key right_half))
        × IsInternal c left_half
        × IsInternal c right_half
        × (left_half.base.size + right_half.base.size ≡ page.base.size)
    unfolding route
    inner_page_split =
        (same_route, left-IsInternal, right-IsInternal, omega (arith, size-left, size-right))

    abbrev moved : ℕ
    moved = page.base.size - get_min_size page.base

    moved_lem : moved ≡ right_half.base.size
    unfolding move_half_to
    moved_lem = rw is_internal (omega (arith, min_size, size-right))

    adopted :
        (number : ℤ)
        → (move_half_to page recipient headers).2 number
          ≡ adopt right_half.node_array recipient.base.page_id moved recipient.base.size headers
              number
    unfolding move_half_to
    adopted number = refl

    -- Every child of the right half has that page for its parent afterwards, and the headers of all
    -- other pages are as they were.
    pub split_parents :
        (number : ℤ)
        → ((i : ℕ)
            → i < right_half.base.size
            → value_at right_half i ≡ number
            → ((move_half_to page recipient headers).2 number).parent_page_id
              ≡ recipient.base.page_id)
          × (((i : ℕ) → i < right_half.base.size → value_at right_half i ≢ number)
              → (move_half_to page recipient headers).2 number ≡ headers number)
    split_parents number = (
      λ i h e.
          ap (λ (b : BtreePage). b.parent_page_id) (adopted number)
          ∙ adopt_in right_half.node_array recipient.base.page_id number moved recipient.base.size
              headers i (omega arith) (omega (arith, moved_lem)) e,
      λ other.
          adopted number
          ∙ adopt_out right_half.node_array recipient.base.page_id number moved recipient.base.size
              headers (λ i h k. other i (omega (arith, moved_lem))),
    )
