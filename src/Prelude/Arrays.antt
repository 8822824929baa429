-- ===== src/Prelude/Arrays.antt =====
-- Arrays and maps as functions: a write at one place, and the tests that it makes.
use Prim.Native.Nat.{ℕ}
use mathlib.Core.Path.{◌≡◌}
use mathlib.Core.Logic.{◌≢◌}
use native.Mathlib.Omega.{arith}
use gavin_db.Prelude.Tests.{◌==◌, if◌then◌else◌}

module _ {ℓ} {A : Type ℓ} where
  -- `array[i] = v`.
  abbrev pub put_at : (ℕ → A) → ℕ → A → ℕ → A
  put_at array i v j = if i == j then v else array j

  pub put_at_self : (array : ℕ → A) (i : ℕ) (v : A) → put_at array i v i ≡ v
  put_at_self array i v = ground arith

  pub put_at_ne : (array : ℕ → A) (i : ℕ) (v : A) (j : ℕ) → i ≢ j → put_at array i v j ≡ array j
  put_at_ne array i v j h = ground arith
