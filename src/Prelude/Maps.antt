-- ===== src/Prelude/Maps.antt =====
-- Maps as lists of their entries, over a test for equal keys: `find`, the `insert` and `emplace`
-- that keep an entry that is there, assignment, and `erase`.
use Prim.Native.Nat.{ℕ}
use mathlib.Core.Path.{◌≡◌, refl}
use mathlib.Core.Bool.{Bool, true, false, ◌&&◌}
use mathlib.Core.List.{List, [], ◌∷◌}
use mathlib.Core.Option.{Option, none, some}
use mathlib.Core.Logic.{◌↔◌, ◌≢◌}
use native.Mathlib.Omega.{arith}
use gavin_db.Prelude.Tests.{◌==◌}

-- Names are strings, the lists of their bytes.
unfoldable pub name_eq : List ℕ → List ℕ → Bool
name_eq [] [] = true
name_eq [] (_ ∷ _) = false
name_eq (_ ∷ _) [] = false
name_eq (a ∷ xs) (b ∷ ys) = a == b && name_eq xs ys

module _ {K V : Type 0} (same : K → K → Bool) where
  unfoldable pub find : List (K × V) → K → Option V
  find [] k = none
  find ((key, v) ∷ entries) k = elim (same k key) [ true ↦ some v | false ↦ find entries k ]

  unfoldable pub emplace : List (K × V) → K → V → List (K × V)
  unfolding find
  emplace entries k v = elim (find entries k) [ none ↦ (k, v) ∷ entries | some _ ↦ entries ]

  -- `map[k] = v`
  unfoldable pub put : List (K × V) → K → V → List (K × V)
  put [] k v = (k, v) ∷ []
  put ((key, u) ∷ entries) k v = elim (same k key) [
    | true ↦ (key, v) ∷ entries
    | false ↦ (key, u) ∷ put entries k v
  ]

  unfoldable pub erase : List (K × V) → K → List (K × V)
  erase [] k = []
  erase ((key, u) ∷ entries) k = elim (same k key) [
    | true ↦ erase entries k
    | false ↦ (key, u) ∷ erase entries k
  ]

  pub emplace_new :
      (entries : List (K × V)) (k : K) (v : V)
      → find entries k ≡ none
      → emplace entries k v ≡ (k, v) ∷ entries
  unfolding emplace
  emplace_new entries k v h = rw (h, emplace)

  pub find_here :
      (entries : List (K × V)) (j k : K) (v : V)
      → same j k ≡ true
      → find ((k, v) ∷ entries) j ≡ some v
  unfolding find
  find_here entries j k v h = rw (h, find)

  pub find_there :
      (entries : List (K × V)) (j k : K) (v : V)
      → same j k ≡ false
      → find ((k, v) ∷ entries) j ≡ find entries j
  unfolding find
  find_there entries j k v h = rw (h, find)

pub name_eq_iff : (xs ys : List ℕ) → (name_eq xs ys ≡ true) ↔ (xs ≡ ys)
unfolding name_eq
name_eq_iff [] [] = grind arith
name_eq_iff [] (y ∷ ys) = grind arith
name_eq_iff (x ∷ xs) [] = grind arith
name_eq_iff (x ∷ xs) (y ∷ ys) = grind (arith, name_eq_iff xs ys)

-- A map with numbers as its keys.
module _ {V : Type 0} where
  pub find-put_self :
      (entries : List (ℕ × V)) (k : ℕ) (v : V) → find ◌==◌ (put ◌==◌ entries k v) k ≡ some v
  unfolding find put
  find-put_self [] k v = ground arith
  find-put_self ((key, u) ∷ entries) k v = ground (arith, find-put_self entries k v)

  pub find-put_ne :
      (entries : List (ℕ × V)) (k j : ℕ) (v : V)
      → j ≢ k
      → find ◌==◌ (put ◌==◌ entries k v) j ≡ find ◌==◌ entries j
  unfolding find put
  find-put_ne [] k j v h = ground arith
  find-put_ne ((key, u) ∷ entries) k j v h = ground (arith, find-put_ne entries k j v h)

  pub find-erase_self : (entries : List (ℕ × V)) (k : ℕ) → find ◌==◌ (erase ◌==◌ entries k) k ≡ none
  unfolding find erase
  find-erase_self [] k = refl
  find-erase_self ((key, u) ∷ entries) k = ground (arith, find-erase_self entries k)

  pub find-erase_ne :
      (entries : List (ℕ × V)) (k j : ℕ)
      → j ≢ k
      → find ◌==◌ (erase ◌==◌ entries k) j ≡ find ◌==◌ entries j
  unfolding find erase
  find-erase_ne [] k j h = refl
  find-erase_ne ((key, u) ∷ entries) k j h = ground (arith, find-erase_ne entries k j h)
