-- ===== src/Btree/Comparator.antt =====
-- The comparator of include/index/index.hpp, as the interface that the pages of the tree use.
use gavin_db.Prelude.{ℕ, ◌≡◌, Bool, true, false, ltb, ◌==◌, if◌then◌else◌, arith}
use gavin_db.Prelude.Int.{ℤ, pos, negsuc, int_eq}

abbrev pub is_negative : ℤ → Bool
is_negative (pos n) = false
is_negative (negsuc n) = true

-- Keys compare as the numbers `rank` do; `key_eq` is the equality of the key arrays.
pub record Comparator (K : Type 0) : Type 0 where
  pub compare : K → K → ℤ
  pub key_eq : K → K → Bool
  pub rank : K → ℕ
  pub compare-lt : (a b : K) → is_negative (compare a b) ≡ ltb (rank a) (rank b)
  pub compare-eq : (a b : K) → int_eq (compare a b) (pos 0) ≡ (rank a == rank b)
  pub key_eq-rank : (a b : K) → key_eq a b ≡ (rank a == rank b)

-- `Compare<uint64_t>`, on the numbers that the eight bytes of two keys stand for.
unfoldable pub compare_u64 : ℕ → ℕ → ℤ
compare_u64 lhs rhs = if ltb lhs rhs then negsuc 0 else if ltb rhs lhs then pos 1 else pos 0

pub compare_u64-lt : (a b : ℕ) → is_negative (compare_u64 a b) ≡ ltb a b
unfolding compare_u64
compare_u64-lt a b = ground arith

pub compare_u64-eq : (a b : ℕ) → int_eq (compare_u64 a b) (pos 0) ≡ (a == b)
unfolding compare_u64
compare_u64-eq a b = ground arith

pub key_eq_u64 : (a b : ℕ) → (a == b) ≡ (a == b)
key_eq_u64 a b = ground arith

-- The comparator that an index on a TIMESTAMP column uses.
unfoldable pub timestamp_comparator : Comparator ℕ
unfolding compare_u64
timestamp_comparator = record {
  compare = compare_u64;
  key_eq = ◌==◌;
  rank = λ a. a;
  compare-lt = compare_u64-lt;
  compare-eq = compare_u64-eq;
  key_eq-rank = key_eq_u64;
}
