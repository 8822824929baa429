-- ===== src/Btree/Internal/Insert.antt =====
-- `InsertNodeAfter` of an inner page: the routing afterwards.
use gavin_db.Prelude.{
  ℕ, suc, ◌+◌, ◌^◌, ◌≤◌, ◌<◌, ◌≡◌, refl, ap, ◌∙◌, true, false, ltb, ◌==◌, if◌then◌else◌, arith, inl,
  inr, Bool-cases, ltb→lt, lt→ltb, ok, not,
}
use mathlib.Core.Path.{subst}
use gavin_db.Prelude.Int.{ℤ, int_eq, int_eq_iff}
use gavin_db.Btree.Comparator.{Comparator}
use gavin_db.Btree.LowerBound.{lower_bound_at}
use gavin_db.Btree.Shift.{
  Origin, before, here, after, origin, shifted_before, shifted_here, shifted_after,
}
use gavin_db.Btree.Internal.{
  InternalPage, key_at, value_at, value_index, place, insert_node_after, lookup,
}
use gavin_db.Btree.Internal.Routing.{IsInternal, Covers, lookup-Covers}

module _ {K : Type 0} (c : Comparator K) (new_key : K) (new_value : ℤ) (i : ℕ)
    (page : InternalPage K) where
  abbrev placed : InternalPage K
  placed = place new_key new_value (suc i) page

  module _ (internal : IsInternal c page) (inside : i < page.base.size)
      (fits : page.base.size + 1 < 2 ^ 32)
      (above_left : 0 < i → c.rank (key_at page i) < c.rank new_key)
      (below_right : suc i < page.base.size → c.rank new_key < c.rank (key_at page (suc i))) where
    size-place : placed.base.size ≡ page.base.size + 1
    unfolding place
    size-place = omega arith

    entry_before : (j : ℕ) → j < suc i → placed.node_array j ≡ page.node_array j
    unfolding place
    entry_before = shifted_before page.node_array (suc i) page.base.size (new_key, new_value)

    entry_here : (j : ℕ) → j ≡ suc i → placed.node_array j ≡ (new_key, new_value)
    unfolding place
    entry_here = shifted_here page.node_array (suc i) page.base.size (new_key, new_value)

    entry_after :
        (j : ℕ) → suc i ≤ j → j < page.base.size → placed.node_array (suc j) ≡ page.node_array j
    unfolding place
    entry_after = shifted_after page.node_array (suc i) page.base.size (new_key, new_value)

    rank_before : (j : ℕ) → j < suc i → c.rank (key_at placed j) ≡ c.rank (key_at page j)
    rank_before j h = ap (λ (e : K × ℤ). c.rank e.0) (entry_before j h)

    rank_here : (j : ℕ) → j ≡ suc i → c.rank (key_at placed j) ≡ c.rank new_key
    rank_here j h = ap (λ (e : K × ℤ). c.rank e.0) (entry_here j h)

    rank_after :
        (j : ℕ)
        → suc i ≤ j
        → j < page.base.size
        → c.rank (key_at placed (suc j)) ≡ c.rank (key_at page j)
    rank_after j h k = ap (λ (e : K × ℤ). c.rank e.0) (entry_after j h k)

    -- The old keys around the new one.
    below : (j : ℕ) → 1 ≤ j → j < suc i → c.rank (key_at page j) < c.rank new_key
    below j h k = elim (Bool-cases (j == i)) [
      | inl same ↦
          let e : j ≡ i = ground arith in
          omega (arith, ap (λ (n : ℕ). c.rank (key_at page n)) e, above_left (omega arith))
      | inr other ↦
          let lt : j < i = ground arith in
          omega (arith, internal.sorted j i h lt inside, above_left (omega arith))
    ]

    above : (j : ℕ) → suc i ≤ j → j < page.base.size → c.rank new_key < c.rank (key_at page j)
    above j h k = elim (Bool-cases (j == suc i)) [
      | inl same ↦
          let e : j ≡ suc i = ground arith in
          omega (arith, ap (λ (n : ℕ). c.rank (key_at page n)) e, below_right (omega arith))
      | inr other ↦
          let lt : suc i < j = ground arith in
          omega (arith, internal.sorted (suc i) j (omega arith) lt k, below_right (omega arith))
    ]

    ascends :
        {j k : ℕ}
        → Origin (suc i) j
        → Origin (suc i) k
        → 1 ≤ j
        → j < k
        → k < page.base.size + 1
        → c.rank (key_at placed j) < c.rank (key_at placed k)
    ascends (before j p) (before k q) one lt le =
        omega (arith, internal.sorted j k one lt (omega arith), rank_before j p, rank_before k q)
    ascends (before j p) (here k e) one lt le =
        omega (arith, rank_before j p, rank_here k e, below j one p)
    ascends (before j p) (after k q) one lt le = omega (
      arith,
      rank_before j p,
      rank_after k q (omega arith),
      below j one p,
      above k q (omega arith),
    )
    ascends (here j e) (before k q) one lt le = absurd (omega arith)
    ascends (here j e) (here k d) one lt le = absurd (omega arith)
    ascends (here j e) (after k q) one lt le =
        omega (arith, rank_here j e, rank_after k q (omega arith), above k q (omega arith))
    ascends (after j p) (before k q) one lt le = absurd (omega arith)
    ascends (after j p) (here k e) one lt le = absurd (omega arith)
    ascends (after j p) (after k q) one lt le = omega (
      arith,
      internal.sorted j k (omega arith) (omega arith) (omega arith),
      rank_after j p (omega arith),
      rank_after k q (omega arith),
    )

    place-IsInternal : IsInternal c placed
    place-IsInternal = record {
      sorted = λ j k one lt le.
          ascends (origin (suc i) j) (origin (suc i) k) one lt (rw size-place at le);
      child = omega (arith, size-place);
      word = omega (arith, size-place);
    }

    -- The new page's child for a key, from the old page's.
    Covers-before : (j key_rank : ℕ) → j < i → Covers c page j key_rank → Covers c placed j key_rank
    Covers-before j key_rank h v = record {
      inside = omega (arith, size-place);
      from = λ k. omega (arith, rank_before j (omega arith), v.from k);
      below = λ k. omega (arith, rank_before (suc j) (omega arith), v.below (omega arith));
    }

    Covers-left :
        (key_rank : ℕ)
        → key_rank < c.rank new_key
        → Covers c page i key_rank
        → Covers c placed i key_rank
    Covers-left key_rank h v = record {
      inside = omega (arith, size-place);
      from = λ k. omega (arith, rank_before i (omega arith), v.from k);
      below = λ k. omega (arith, rank_here (suc i) refl);
    }

    Covers-right :
        (key_rank : ℕ)
        → c.rank new_key ≤ key_rank
        → Covers c page i key_rank
        → Covers c placed (suc i) key_rank
    Covers-right key_rank h v = record {
      inside = omega (arith, size-place);
      from = λ k. omega (arith, rank_here (suc i) refl);
      below = λ k.
          let more : suc i < page.base.size = omega (arith, size-place) in
          omega (arith, rank_after (suc i) (omega arith) more, v.below more);
    }

    Covers-after :
        (j key_rank : ℕ) → i < j → Covers c page j key_rank → Covers c placed (suc j) key_rank
    Covers-after j key_rank h v = record {
      inside = let m = v.inside in omega (arith, size-place);
      from = λ k.
          let m = v.inside in omega (arith, rank_after j (omega arith) m, v.from (omega arith));
      below = λ k.
          let more : suc j < page.base.size = omega (arith, size-place) in
          omega (arith, rank_after (suc j) (omega arith) more, v.below more);
    }

    value_of : (j : ℕ) {e : K × ℤ} → placed.node_array j ≡ e → value_at placed j ≡ e.1
    value_of j p = ap (λ (e : K × ℤ). e.1) p

    lookup-place :
        (key : K) (j : ℕ)
        → Covers c page j (c.rank key)
        → lookup c key placed ≡ (
            if j == i
            then (if ltb (c.rank key) (c.rank new_key) then value_at page i else new_value)
            else value_at page j)
    lookup-place key j v = elim (Bool-cases (ltb j i)) [
      | inl less ↦
          let lt : j < i = ltb→lt _ _ less in
          let ne : (j == i) ≡ false = ground arith in
          rw ne (
            lookup-Covers c key placed place-IsInternal j (Covers-before j (c.rank key) lt v)
            ∙ value_of j (entry_before j (omega arith)))
      | inr other ↦ elim (Bool-cases (ltb i j)) [
        | inl more ↦
            let gt : i < j = ltb→lt _ _ more in
            let ne : (j == i) ≡ false = ground arith in
            rw ne (
              lookup-Covers c key placed place-IsInternal (suc j) (Covers-after j (c.rank key) gt v)
              ∙ value_of (suc j) (entry_after j (omega arith) v.inside))
        | inr same ↦ at_left key j (ground arith) v
      ]
    ]
      where
        at_left :
            (key : K) (j : ℕ)
            → j ≡ i
            → Covers c page j (c.rank key)
            → lookup c key placed ≡ (
                if j == i
                then (if ltb (c.rank key) (c.rank new_key) then value_at page i else new_value)
                else value_at page j)
        at_left key j e v =
            let same : (j == i) ≡ true = ground arith in
            let w : Covers c page i (c.rank key) =
              subst (λ (n : ℕ). Covers c page n (c.rank key)) e v in
            rw same (elim (Bool-cases (ltb (c.rank key) (c.rank new_key))) [
              | inl left ↦ rw left (
                  lookup-Covers c key placed place-IsInternal i
                    (Covers-left (c.rank key) (ltb→lt _ _ left) w)
                  ∙ value_of i (entry_before i (omega arith)))
              | inr right ↦ rw right (
                  lookup-Covers c key placed place-IsInternal (suc i)
                    (Covers-right (c.rank key) (ground arith) w)
                  ∙ value_of (suc i) (entry_here (suc i) refl))
            ])

-- What an inner page is after a child was split: the keys of the child that was split go to its left
-- or right half, and all others go where they went.
pub record Routed {K : Type 0} (c : Comparator K) (old_value : ℤ) (new_key : K) (new_value : ℤ)
    (i : ℕ) (page page' : InternalPage K) : Type 0 where
  pub internal : IsInternal c page'
  pub grown : page'.base.size ≡ page.base.size + 1
  pub routes :
      (key : K) (j : ℕ)
      → Covers c page j (c.rank key)
      → lookup c key page' ≡ (
          if j == i
          then (if ltb (c.rank key) (c.rank new_key) then old_value else new_value)
          else value_at page j)

module _ {K : Type 0} (c : Comparator K) (old_value : ℤ) (new_key : K) (new_value : ℤ)
    (page : InternalPage K) where
  value_index_found :
      value_index old_value page < page.base.size
      → value_at page (value_index old_value page) ≡ old_value
  unfolding value_index
  value_index_found h = (int_eq_iff _ _).0 (
      ground (
        arith,
        lower_bound_at (λ (pair : K × ℤ). not (int_eq pair.1 old_value)) page.node_array
            page.base.size 0,
      ))

  -- Inserting after a child that the page holds, with a key between the child's own and the next
  -- one, succeeds, keeps the keys in order and routes as it should.
  pub insert_node_after-Routed :
      IsInternal c page
      → (inside : value_index old_value page < page.base.size) → page.base.size + 1 < 2 ^ 32
      → (0 < value_index old_value page
          → c.rank (key_at page (value_index old_value page)) < c.rank new_key)
      → (suc (value_index old_value page) < page.base.size
          → c.rank new_key < c.rank (key_at page (suc (value_index old_value page))))
      → (page' : InternalPage K) × (insert_node_after old_value new_key new_value page ≡ ok page')
        × Routed c old_value new_key new_value (value_index old_value page) page page'
  unfolding insert_node_after
  insert_node_after-Routed internal inside fits above_left below_right =
      let i = value_index old_value page in
      (
        place new_key new_value (suc i) page,
        rw (lt→ltb _ _ inside) (ap (λ (n : ℕ). ok (place new_key new_value n page)) (omega arith)),
        record {
          internal =
              place-IsInternal c new_key new_value i page internal inside fits above_left
                below_right;
          grown = size-place c new_key new_value i page internal inside fits above_left below_right;
          routes = λ key j v.
              lookup-place c new_key new_value i page internal inside fits above_left below_right
                key j v
              ∙ ap
                  (λ (left : ℤ).
                    if j == i
                    then (if ltb (c.rank key) (c.rank new_key) then left else new_value)
                    else value_at page j)
                  (value_index_found inside);
        },
      )
