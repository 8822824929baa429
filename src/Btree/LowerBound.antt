-- ===== src/Btree/LowerBound.antt =====
-- `std::lower_bound`, whose result is the first place of a range at which the test fails, and
-- `std::move_backward` by one place.
use gavin_db.Prelude.{
  ℕ, zero, suc, ◌+◌, ◌-◌, ◌≤◌, ◌<◌, ◌≡◌, Bool, true, false, ◌&&◌, ltb, leb, if◌then◌else◌, arith,
  inl, inr, Bool-cases,
}

module _ {ℓ} {A : Type ℓ} where
  -- Over `count` places from `first` on.
  unfoldable pub lower_bound : (A → Bool) → (ℕ → A) → ℕ → ℕ → ℕ
  lower_bound test array zero first = first
  lower_bound test array (suc count) first =
      if test (array first) then lower_bound test array count (suc first) else first

  -- `std::move_backward(array + first, array + last, array + last + 1)`.
  unfoldable pub move_backward : (ℕ → A) → ℕ → ℕ → ℕ → A
  move_backward array first last j = if ltb first j && leb j last then array (j - 1) else array j

module _ {ℓ} {A : Type ℓ} (test : A → Bool) (array : ℕ → A) where
  pub lower_bound-ge : (count first : ℕ) → first ≤ lower_bound test array count first
  unfolding lower_bound
  lower_bound-ge zero first = omega arith
  lower_bound-ge (suc count) first = ground (arith, lower_bound-ge count (suc first))

  pub lower_bound-le : (count first : ℕ) → lower_bound test array count first ≤ first + count
  unfolding lower_bound
  lower_bound-le zero first = omega arith
  lower_bound-le (suc count) first = ground (arith, lower_bound-le count (suc first))

  -- The test holds before the result.
  pub lower_bound_before :
      (count first i : ℕ)
      → first ≤ i
      → i < lower_bound test array count first
      → test (array i) ≡ true
  unfolding lower_bound
  lower_bound_before zero first i h k = absurd (omega arith)
  lower_bound_before (suc count) first i h k = elim (Bool-cases (test (array first))) [
    | inl holds ↦ elim (Bool-cases (leb (suc first) i)) [
      | inl later ↦ lower_bound_before count (suc first) i (ground arith) (rw holds at k)
      | inr here ↦ let e : i ≡ first = ground arith in rw e holds
    ]
    | inr fails ↦ absurd (ground arith)
  ]

  -- And it fails at the result, where that is in the range.
  pub lower_bound_at :
      (count first : ℕ)
      → lower_bound test array count first < first + count
      → test (array (lower_bound test array count first)) ≡ false
  unfolding lower_bound
  lower_bound_at zero first h = absurd (omega arith)
  lower_bound_at (suc count) first h = ground (arith, lower_bound_at count (suc first))
