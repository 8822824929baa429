-- ===== src/Btree/Leaf/Search.antt =====
-- The search of a leaf.
use gavin_db.Prelude.{
  ℕ, ◌≤◌, ◌<◌, ◌≡◌, ◌≢◌, sym, ◌∙◌, none, some, ltb, ◌==◌, arith, inl, inr, Bool-cases, ltb→lt,
}
use gavin_db.Btree.Comparator.{Comparator, is_negative}
use gavin_db.Btree.LowerBound.{lower_bound-le, lower_bound_before, lower_bound_at}
use gavin_db.Btree.Leaf.{LeafPage, key_at, value_at, find_key_index, lookup}

module _ {K V : Type 0} (c : Comparator K) where
  -- The keys of a leaf ascend strictly.
  abbrev pub IsSorted : LeafPage K V → Type 0
  IsSorted page =
      (i j : ℕ) → i < j → j < page.base.size → c.rank (key_at page i) < c.rank (key_at page j)

  abbrev pub Lacks : LeafPage K V → K → Type 0
  Lacks page key = (i : ℕ) → i < page.base.size → c.rank (key_at page i) ≢ c.rank key

  module _ (key : K) (page : LeafPage K V) where
    pub find_key_index-le : find_key_index c key page ≤ page.base.size
    unfolding find_key_index
    find_key_index-le = omega (
      arith,
      lower_bound-le (λ pair. is_negative (c.compare pair.0 key)) page.node_array page.base.size 0,
    )

    pub find_key_index_before :
        (i : ℕ) → i < find_key_index c key page → c.rank (key_at page i) < c.rank key
    unfolding find_key_index
    find_key_index_before i h = ltb→lt _ _ (
        sym (c.compare-lt (key_at page i) key)
        ∙ lower_bound_before _ page.node_array page.base.size 0 i (omega arith) h)

    pub find_key_index_at :
        find_key_index c key page < page.base.size
        → c.rank key ≤ c.rank (key_at page (find_key_index c key page))
    unfolding find_key_index
    find_key_index_at h = ground (
      arith,
      c.compare-lt (key_at page (find_key_index c key page)) key,
      lower_bound_at (λ pair. is_negative (c.compare pair.0 key)) page.node_array page.base.size 0,
    )

    -- From the result on the keys are not below the key that is searched.
    pub find_key_index_after :
        IsSorted page
        → (i : ℕ) → find_key_index c key page ≤ i
        → i < page.base.size
        → c.rank key ≤ c.rank (key_at page i)
    find_key_index_after sorted i h k = elim (Bool-cases (find_key_index c key page == i)) [
      | inl here ↦
          let e : find_key_index c key page ≡ i = ground arith in
          rw e at (find_key_index_at (omega arith))
      | inr later ↦
          let m = sorted (find_key_index c key page) i (ground arith) k in
          omega (arith, find_key_index_at (omega arith))
    ]

    pub lookup_hit :
        IsSorted page
        → (i : ℕ) → i < page.base.size
        → c.rank (key_at page i) ≡ c.rank key
        → lookup c key page ≡ some (value_at page i)
    unfolding lookup
    lookup_hit sorted i h e =
        let here : find_key_index c key page ≡ i =
          elim (Bool-cases (ltb i (find_key_index c key page))) [
            | inl before ↦ absurd (omega (arith, find_key_index_before i (ltb→lt _ _ before)))
            | inr other ↦ elim (Bool-cases (ltb (find_key_index c key page) i)) [
              | inl less ↦
                  let m = sorted (find_key_index c key page) i (ltb→lt _ _ less) h in
                  absurd (omega (arith, find_key_index_at (ground arith)))
              | inr eq ↦ ground arith
            ]
          ] in
        rw here (ground (arith, c.key_eq-rank (key_at page i) key))

    pub lookup_miss : Lacks page key → lookup c key page ≡ none
    unfolding lookup
    lookup_miss lacks = ground (
      arith,
      c.key_eq-rank (key_at page (find_key_index c key page)) key,
      lacks (find_key_index c key page),
    )

    -- A search that finds a value found it at an index that holds the key.
    pub lookup-eq-some :
        {v : V}
        → lookup c key page ≡ some v
        → (i : ℕ) × (i < page.base.size)
          × (c.rank (key_at page i) ≡ c.rank key)
          × (value_at page i ≡ v)
    unfolding lookup
    lookup-eq-some h =
        let i = find_key_index c key page in
        (i, ground arith, ground (arith, c.key_eq-rank (key_at page i) key), ground arith)

-- A search that fails means that no entry holds the key.
pub Lacks-of_none :
    {K V : Type 0} (c : Comparator K) (key : K) (page : LeafPage K V)
    → IsSorted c page
    → lookup c key page ≡ none
    → Lacks c page key
Lacks-of_none c key page sorted miss i h e = cc (lookup_hit c key page sorted i h e)
