-- ===== src/Btree/Internal/Adopt.antt =====
-- The loop of `CopyNFrom` that makes a page the parent of the children it was given.
use gavin_db.Prelude.{
  ℕ, zero, suc, ◌+◌, ◌≤◌, ◌<◌, ◌≡◌, ◌≢◌, refl, ap, ◌∙◌, ◌==◌, arith, inl, inr, Bool-cases,
}
use gavin_db.Prelude.Int.{ℤ, int_eq, int_eq_iff}
use gavin_db.Btree.Internal.{Headers, set_parent_page_id, adopt}

module _ {K : Type 0} (array : ℕ → K × ℤ) (parent number : ℤ) where
  -- The parent of a page that has been adopted stays, whatever is adopted after it.
  adopt_keeps :
      (count first : ℕ) (headers : Headers)
      → (headers number).parent_page_id ≡ parent
      → (adopt array parent count first headers number).parent_page_id ≡ parent
  unfolding adopt
  adopt_keeps zero first headers h = h
  adopt_keeps (suc count) first headers h =
      adopt_keeps count (suc first) (set_parent_page_id (array first).1 parent headers)
        (ground arith)

  pub adopt_in :
      (count first : ℕ) (headers : Headers) (i : ℕ)
      → first ≤ i
      → i < first + count
      → (array i).1 ≡ number
      → (adopt array parent count first headers number).parent_page_id ≡ parent
  unfolding adopt
  adopt_in zero first headers i h k e = absurd (omega arith)
  adopt_in (suc count) first headers i h k e = elim (Bool-cases (first == i)) [
    | inl now ↦
        let here : first ≡ i = ground arith in
        adopt_keeps count (suc first) (set_parent_page_id (array first).1 parent headers)
          (set_self (ap (λ (n : ℕ). (array n).1) here ∙ e))
    | inr later ↦
        adopt_in count (suc first) (set_parent_page_id (array first).1 parent headers) i
          (ground arith) (omega arith) e
  ]
    where
      set_self :
          {child : ℤ}
          → child ≡ number
          → (set_parent_page_id child parent headers number).parent_page_id ≡ parent
      set_self {child} e = rw ((int_eq_iff child number).1 e) refl

  pub adopt_out :
      (count first : ℕ) (headers : Headers)
      → ((i : ℕ) → first ≤ i → i < first + count → (array i).1 ≢ number)
      → adopt array parent count first headers number ≡ headers number
  unfolding adopt
  adopt_out zero first headers other = refl
  adopt_out (suc count) first headers other =
      adopt_out count (suc first) (set_parent_page_id (array first).1 parent headers)
        (λ i h k. other i (omega arith) (omega arith))
      ∙ untouched
    where
      untouched : set_parent_page_id (array first).1 parent headers number ≡ headers number
      untouched = elim (Bool-cases (int_eq (array first).1 number)) [
        | inl same ↦
            absurd
              (other first (omega arith) (omega arith) ((int_eq_iff (array first).1 number).0 same))
        | inr ne ↦ rw ne refl
      ]
