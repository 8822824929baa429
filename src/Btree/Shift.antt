-- ===== src/Btree/Shift.antt =====
-- An array in which the entries from an index on have moved up, and a new one stands at the index.
use gavin_db.Prelude.{ℕ, zero, suc, ◌≤◌, ◌<◌, ◌≡◌, ltb, ◌==◌, arith, inl, inr, Bool-cases, put_at}
use gavin_db.Btree.LowerBound.{move_backward}

-- Where an index of the new array comes from.
pub data Origin (r : ℕ) : ℕ → Type 0 where
  before : (j : ℕ) → j < r → Origin r j
  here : (j : ℕ) → j ≡ r → Origin r j
  after : (j : ℕ) → r ≤ j → Origin r (suc j)

pub origin : (r j : ℕ) → Origin r j
origin r j = elim (Bool-cases (ltb j r)) [
  | inl less ↦ before j (ground arith)
  | inr other ↦ elim (Bool-cases (j == r)) [
    | inl same ↦ here j (ground arith)
    | inr more ↦ above j (ground arith)
  ]
]
  where
    above : (k : ℕ) → r < k → Origin r k
    above zero h = absurd (omega arith)
    above (suc k) h = after k (omega arith)

module _ {ℓ} {A : Type ℓ} (array : ℕ → A) (first last : ℕ) (entry : A) where
  abbrev pub shifted : ℕ → A
  shifted = put_at (move_backward array first last) first entry

  pub shifted_before : (j : ℕ) → j < first → shifted j ≡ array j
  unfolding move_backward
  shifted_before j h = ground arith

  pub shifted_here : (j : ℕ) → j ≡ first → shifted j ≡ entry
  shifted_here j h = ground arith

  pub shifted_after : (j : ℕ) → first ≤ j → j < last → shifted (suc j) ≡ array j
  unfolding move_backward
  shifted_after j h k = ground arith
