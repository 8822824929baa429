-- ===== src/Btree/Internal/Routing.antt =====
-- The child that `Lookup` of an inner page goes to.
use gavin_db.Prelude.{
  ℕ, zero, suc, ◌-◌, ◌≤◌, ◌<◌, ◌≡◌, refl, sym, ap, ◌∙◌, ◌⊎◌, ◌^◌, true, false, ltb, ◌==◌, arith,
  inl, inr, Bool-cases, ltb→lt,
}
use gavin_db.Btree.Comparator.{Comparator, is_negative}
use gavin_db.Btree.LowerBound.{lower_bound-ge, lower_bound-le, lower_bound_before, lower_bound_at}
use gavin_db.Btree.Internal.{InternalPage, key_at, value_at, target_index, lookup}

module _ {K : Type 0} (c : Comparator K) where
  -- The keys from index 1 on ascend strictly, and there is a child.
  pub record IsInternal (page : InternalPage K) : Type 0 where
    pub sorted :
        (i j : ℕ)
        → 1 ≤ i
        → i < j
        → j < page.base.size
        → c.rank (key_at page i) < c.rank (key_at page j)
    pub child : 1 ≤ page.base.size
    pub word : page.base.size < 2 ^ 32

  -- The keys that the child of an index is for.
  pub record Covers (page : InternalPage K) (i key_rank : ℕ) : Type 0 where
    pub inside : i < page.base.size
    pub from : 0 < i → c.rank (key_at page i) ≤ key_rank
    pub below : suc i < page.base.size → key_rank < c.rank (key_at page (suc i))

  module _ (key : K) (page : InternalPage K) (internal : IsInternal page) where
    target_bounds : (1 ≤ target_index c key page) × (target_index c key page ≤ page.base.size)
    unfolding target_index
    target_bounds =
        let h = internal.child in
        (
          lower_bound-ge (λ pair. is_negative (c.compare pair.0 key)) page.node_array
              (page.base.size - 1) 1,
          omega (
            arith,
            lower_bound-le (λ pair. is_negative (c.compare pair.0 key)) page.node_array
                (page.base.size - 1) 1,
          ),
        )

    target_before :
        (i : ℕ) → 1 ≤ i → i < target_index c key page → c.rank (key_at page i) < c.rank key
    unfolding target_index
    target_before i h k = ltb→lt _ _ (
        sym (c.compare-lt (key_at page i) key)
        ∙ lower_bound_before _ page.node_array (page.base.size - 1) 1 i h k)

    target_at :
        target_index c key page < page.base.size
        → c.rank key ≤ c.rank (key_at page (target_index c key page))
    unfolding target_index
    target_at h = ground (
      arith,
      c.compare-lt (key_at page (target_index c key page)) key,
      lower_bound_at (λ pair. is_negative (c.compare pair.0 key)) page.node_array
          (page.base.size - 1) 1,
      internal.child,
    )

    -- The target from a child that covers the key: its own index where the key is its first one,
    -- and the next index otherwise.
    target_of_Covers :
        (i : ℕ)
        → Covers page i (c.rank key)
        → (target_index c key page ≡ suc i)
          ⊎ ((target_index c key page ≡ i) × (0 < i) × (c.rank (key_at page i) ≡ c.rank key))
    target_of_Covers i v = elim (Bool-cases (ltb (target_index c key page) i)) [
      | inl less ↦
          let t : target_index c key page < i = ltb→lt _ _ less in
          let inside = v.inside in
          let m = internal.sorted (target_index c key page) i target_bounds.0 t v.inside in
          absurd (omega (arith, target_at (omega arith), v.from (omega (arith, target_bounds.0))))
      | inr other ↦ elim (Bool-cases (ltb (suc i) (target_index c key page))) [
        | inl more ↦
            let t : suc i < target_index c key page = ltb→lt _ _ more in
            absurd (
              omega (
                arith,
                target_before (suc i) (omega arith) t,
                v.below (omega (arith, target_bounds.1)),
              ))
        | inr near ↦ elim (Bool-cases (target_index c key page == i)) [
          | inl same ↦ inr (at_own i v (ground arith))
          | inr next ↦ inl (ground arith)
        ]
      ]
    ]
      where
        at_own :
            (i : ℕ)
            → Covers page i (c.rank key)
            → target_index c key page ≡ i
            → (target_index c key page ≡ i) × (0 < i) × (c.rank (key_at page i) ≡ c.rank key)
        at_own i v e =
            let positive : 0 < i = omega (arith, target_bounds.0) in
            let inside = v.inside in
            (
              e,
              positive,
              omega (
                arith,
                target_at (omega arith),
                ap (λ (n : ℕ). c.rank (key_at page n)) e,
                v.from positive,
              ),
            )

    -- `Lookup` goes to the child that covers the key.
    pub lookup-Covers : (i : ℕ) → Covers page i (c.rank key) → lookup c key page ≡ value_at page i
    unfolding lookup
    lookup-Covers i v = elim (target_of_Covers i v) [
      | inl next ↦
          let inside = v.inside in
          elim (Bool-cases (suc i == page.base.size)) [
            | inl last ↦ rw (next, last) (ap (value_at page) (ground arith))
            | inr more ↦
                rw (next, more)
                  (ground (arith, c.compare-eq key (key_at page (suc i)), v.below (ground arith)))
          ]
      | inr (own, positive, same) ↦
          let inside = v.inside in rw own (ground (arith, c.compare-eq key (key_at page i)))
    ]

    -- There is such a child.
    pub covering : (i : ℕ) × Covers page i (c.rank key)
    covering = go (Bool-cases (target_index c key page == page.base.size))
      where
        t : ℕ
        t = target_index c key page

        previous :
            (n : ℕ)
            → n ≡ t
            → (t < page.base.size → c.rank key < c.rank (key_at page t))
            → (i : ℕ) × Covers page i (c.rank key)
        previous zero e h = absurd (omega (arith, target_bounds.0))
        previous (suc n) e h = (
          n,
          record {
            inside = omega (arith, target_bounds.1);
            from = λ k. let m = target_before n k (omega arith) in omega arith;
            below = λ k.
                let m = h (omega arith) in omega (arith, ap (λ (i : ℕ). c.rank (key_at page i)) e);
          },
        )

        go :
            (t == page.base.size ≡ true) ⊎ (t == page.base.size ≡ false)
            → (i : ℕ) × Covers page i (c.rank key)
        go (inl end) = previous t refl (λ h. absurd (ground arith))
        go (inr inner) = elim (Bool-cases (c.rank (key_at page t) == c.rank key)) [
          | inl same ↦ (
            t,
            record {
              inside = ground (arith, target_bounds.1);
              from = λ h. ground arith;
              below = λ h.
                  let m = internal.sorted t (suc t) target_bounds.0 (omega arith) h in ground arith;
            },
          )
          | inr other ↦ previous t refl (λ h. ground (arith, target_at h))
        ]
