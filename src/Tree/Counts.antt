-- ===== src/Tree/Counts.antt =====
-- Pins and latches as counts: what a step adds and takes.
use gavin_db.Prelude.{
  ℕ, ◌+◌, ◌-◌, ◌≤◌, ◌≡◌, refl, ap, sym, ◌%◌, ◌^◌, ◌<◌, arith, if◌then◌else◌, inl, inr, Bool-cases,
}
use mathlib.Core.Path.{subst}
use gavin_db.Prelude.Int.{ℤ, int_eq, int_eq_iff}
use gavin_db.Tree.State.{at, pin_more}

abbrev pub one : ℤ → ℤ → ℕ
one page other = if int_eq page other then 1 else 0

pub at-add : (f : ℤ → ℕ) (page x : ℤ) → at f page (f page + 1) x ≡ f x + one page x
at-add f page x = elim (Bool-cases (int_eq page x)) [
  | inl same ↦ rw same (ap (λ p. f p + 1) ((int_eq_iff page x).0 same))
  | inr other ↦ rw other (omega arith)
]

pub one-bit : (page x : ℤ) → one page x ≤ 1
one-bit page x = elim (Bool-cases (int_eq page x)) [
  | inl same ↦ rw same (omega arith)
  | inr other ↦ rw other (omega arith)
]

-- A pin more is one more, below 2 ^ 16.
pub pin_more-add :
    (f : ℤ → ℕ) (page x : ℤ) → f x + 1 < 2 ^ 16 → pin_more page f x ≡ f x + one page x
pin_more-add f page x few = elim (Bool-cases (int_eq page x)) [
  | inl same ↦
      let low : f page + 1 < 2 ^ 16 =
        subst (λ p. f p + 1 < 2 ^ 16) (sym ((int_eq_iff page x).0 same)) few in
      rw same (omega (arith, low, ap f ((int_eq_iff page x).0 same)))
  | inr other ↦ rw other (omega arith)
]

pub at-sub : (f : ℤ → ℕ) (page x : ℤ) → at f page (f page - 1) x ≡ f x - one page x
at-sub f page x = elim (Bool-cases (int_eq page x)) [
  | inl same ↦ rw same (ap (λ p. f p - 1) ((int_eq_iff page x).0 same))
  | inr other ↦ rw other (omega arith)
]

-- One count goes from a page to another.
abbrev pub Moved : ℤ → ℤ → (ℤ → ℕ) → (ℤ → ℕ) → Type 0
Moved from to before after = (x : ℤ) → after x + one from x ≡ before x + one to x

pub one_self : (page : ℤ) → one page page ≡ 1
one_self page = ap (λ b. if b then 1 else 0) ((int_eq_iff page page).1 refl)

pub one-le : (f : ℤ → ℕ) (page x : ℤ) → 1 ≤ f page → one page x ≤ f x
one-le f page x h = elim (Bool-cases (int_eq page x)) [
  | inl same ↦ rw same (subst (λ p. 1 ≤ f p) ((int_eq_iff page x).0 same) h)
  | inr other ↦ rw other (omega arith)
]

pub small_pin : (n : ℕ) → n + 1 < 2 ^ 16 → (n + 1) % 2 ^ 16 ≡ n + 1
small_pin n few = omega arith

-- The counts after one more for the child and one less for the page.
abbrev pub passed : ℤ → ℤ → (ℤ → ℕ) → ℤ → ℕ
passed page child f = at (at f child (f child + 1)) page (at f child (f child + 1) page - 1)

pub passed-Moved :
    (page child : ℤ) (f : ℤ → ℕ) → 1 ≤ f page → Moved page child f (passed page child f)
passed-Moved page child f h x =
    let added = at f child (f child + 1) in
    let low = one-le f page x h in omega (arith, at-sub added page x, at-add f child x)

pub passed-child : (page child : ℤ) (f : ℤ → ℕ) → 1 ≤ f page → 1 ≤ passed page child f child
passed-child page child f h =
    let moved = passed-Moved page child f h child in
    let low = one-le f page child h in omega (arith, one_self child)

pub Moved-trans :
    (page child target : ℤ) (f g h : ℤ → ℕ)
    → Moved page child f g
    → Moved child target g h
    → Moved page target f h
Moved-trans page child target f g h first second x = omega (arith, first x, second x)

pub Moved-refl : (page : ℤ) (f : ℤ → ℕ) → Moved page page f f
Moved-refl page f x = refl
