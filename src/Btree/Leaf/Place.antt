-- ===== src/Btree/Leaf/Place.antt =====
-- The write that `Insert` makes in a leaf: the order of the keys, and what a search finds.
use gavin_db.Prelude.{
  ℕ, suc, ◌+◌, ◌^◌, ◌≤◌, ◌<◌, ◌≡◌, ◌≢◌, refl, sym, ap, ◌∙◌, some, ltb, ◌==◌, if◌then◌else◌, arith,
  inl, inr, Bool-cases, Option-cases, ltb→lt,
}
use gavin_db.Btree.Comparator.{Comparator}
use gavin_db.Btree.Leaf.{LeafPage, key_at, value_at, find_key_index, place, lookup}
use gavin_db.Btree.Leaf.Search.{
  IsSorted, Lacks, find_key_index-le, find_key_index_before, find_key_index_after, lookup_hit,
  lookup_miss, lookup-eq-some, Lacks-of_none,
}
use gavin_db.Btree.Shift.{Origin, before, here, after, origin}

module _ {K V : Type 0} (key : K) (value : V) (r : ℕ) (page : LeafPage K V) where
  size-place : page.base.size + 1 < 2 ^ 64 → (place key value r page).base.size ≡ page.base.size + 1
  unfolding place
  size-place h = omega arith

  place_before : (j : ℕ) → j < r → (place key value r page).node_array j ≡ page.node_array j
  unfolding place
  place_before j h = ground arith

  place_at : (place key value r page).node_array r ≡ (key, value)
  unfolding place
  place_at = ground arith

  place_after :
      (j : ℕ)
      → r ≤ j
      → j < page.base.size
      → (place key value r page).node_array (suc j) ≡ page.node_array j
  unfolding place
  place_after j h k = ground arith

module _ {K V : Type 0} (c : Comparator K) (key : K) (value : V) (page : LeafPage K V) where
  abbrev r : ℕ
  r = find_key_index c key page

  abbrev placed : LeafPage K V
  placed = place key value r page

  module _ (sorted : IsSorted c page) (lacks : Lacks c page key) where
    -- The keys of the new page around the new one.
    rank_before : (j : ℕ) → j < r → c.rank (key_at placed j) ≡ c.rank (key_at page j)
    rank_before j h = ap (λ (e : K × V). c.rank e.0) (place_before key value r page j h)

    rank_here : (j : ℕ) → j ≡ r → c.rank (key_at placed j) ≡ c.rank key
    rank_here j e =
        ap (λ (i : ℕ). c.rank (key_at placed i)) e
        ∙ ap (λ (e : K × V). c.rank e.0) (place_at key value r page)

    rank_after :
        (j : ℕ)
        → r ≤ j
        → j < page.base.size
        → c.rank (key_at placed (suc j)) ≡ c.rank (key_at page j)
    rank_after j h k = ap (λ (e : K × V). c.rank e.0) (place_after key value r page j h k)

    below : (j : ℕ) → j < r → c.rank (key_at placed j) < c.rank key
    below j h = omega (arith, rank_before j h, find_key_index_before c key page j h)

    above : (j : ℕ) → r ≤ j → j < page.base.size → c.rank key < c.rank (key_at placed (suc j))
    above j h k =
        omega (arith, rank_after j h k, find_key_index_after c key page sorted j h k, lacks j k)

    ascends :
        {i j : ℕ}
        → Origin r i
        → Origin r j
        → i < j
        → j < page.base.size + 1
        → c.rank (key_at placed i) < c.rank (key_at placed j)
    ascends (before i p) (before j q) lt le =
        let m = sorted i j lt (omega (arith, find_key_index-le c key page)) in
        omega (arith, rank_before i p, rank_before j q)
    ascends (before i p) (here j e) lt le = omega (arith, rank_here j e, below i p)
    ascends (before i p) (after j q) lt le = omega (arith, below i p, above j q (omega arith))
    ascends (here i e) (before j q) lt le = absurd (omega arith)
    ascends (here i e) (here j d) lt le = absurd (omega arith)
    ascends (here i e) (after j q) lt le = omega (arith, rank_here i e, above j q (omega arith))
    ascends (after i p) (before j q) lt le = absurd (omega arith)
    ascends (after i p) (here j e) lt le = absurd (omega arith)
    ascends (after i p) (after j q) lt le =
        let m = sorted i j (omega arith) (omega arith) in
        omega (arith, rank_after i p (omega arith), rank_after j q (omega arith))

    module _ (fits : page.base.size + 1 < 2 ^ 64) where
      pub place-IsSorted : IsSorted c placed
      place-IsSorted i j lt le =
          ascends (origin r i) (origin r j) lt (rw (size-place key value r page fits) at le)

      -- The new key is found.
      lookup-place_self : (key' : K) → c.rank key' ≡ c.rank key → lookup c key' placed ≡ some value
      lookup-place_self key' e =
          lookup_hit c key' placed place-IsSorted r
            (rw (size-place key value r page fits) (omega (arith, find_key_index-le c key page)))
            (rank_here r refl ∙ sym e)
          ∙ ap (λ (entry : K × V). some entry.1) (place_at key value r page)

      -- An entry of the page is found in the new one.
      lookup-place_old :
          (key' : K) (i : ℕ)
          → i < page.base.size
          → c.rank (key_at page i) ≡ c.rank key'
          → lookup c key' placed ≡ some (value_at page i)
      lookup-place_old key' i h e = elim (Bool-cases (ltb i r)) [
        | inl less ↦
            let same = place_before key value r page i (ltb→lt _ _ less) in
            lookup_hit c key' placed place-IsSorted i
              (rw (size-place key value r page fits) (omega arith))
              (rank_before i (ltb→lt _ _ less) ∙ e)
            ∙ ap (λ (entry : K × V). some entry.1) same
        | inr more ↦
            let same = place_after key value r page i (ground arith) h in
            lookup_hit c key' placed place-IsSorted (suc i)
              (rw (size-place key value r page fits) (omega arith))
              (rank_after i (ground arith) h ∙ e)
            ∙ ap (λ (entry : K × V). some entry.1) same
      ]

      absent : {key' : K} → Lacks c page key' → c.rank key' ≢ c.rank key → Lacks c placed key'
      absent {key'} none_old other j h =
          go (origin r j) (rw (size-place key value r page fits) at h)
        where
          go :
              {j : ℕ} → Origin r j → j < page.base.size + 1 → c.rank (key_at placed j) ≢ c.rank key'
          go (before j p) h e =
              none_old j (omega (arith, find_key_index-le c key page)) (sym (rank_before j p) ∙ e)
          go (here j d) h e = other (sym e ∙ rank_here j d)
          go (after j p) h e = none_old j (omega arith) (sym (rank_after j p (omega arith)) ∙ e)

      -- What a search finds once a new key stands in the page.
      pub lookup-place :
          (key' : K)
          → lookup c key' placed
            ≡ (if c.rank key' == c.rank key then some value else lookup c key' page)
      lookup-place key' = elim (Bool-cases (c.rank key' == c.rank key)) [
        | inl same ↦ rw same (lookup-place_self key' (ground arith))
        | inr other ↦ rw other (elim (Option-cases (lookup c key' page)) [
          | inl miss ↦ rw miss (
              lookup_miss c key' placed
                (absent (Lacks-of_none c key' page sorted miss) (ground arith)))
          | inr (v, hit) ↦
              let (i, inside, same, held) = lookup-eq-some c key' page hit in
              rw hit (lookup-place_old key' i inside same ∙ ap some held)
        ])
      ]
