-- ===== src/Buffer/Pool/Init.antt =====
-- The constructor of the pool.
use gavin_db.Prelude.{
  ℕ, zero, suc, ◌+◌, ◌≤◌, ◌<◌, ◌≡◌, inl, inr, refl, true, Option, none, some, arith,
}
use gavin_db.Buffer.PageId.{PageId}
use gavin_db.Buffer.Disk.{DiskOps}
use gavin_db.Buffer.Pool.{frames_from, init}
use gavin_db.Buffer.Pool.Invariant.{In, IsNodup, content, IsConsistent}

frames_bounds :
    (first count f : ℕ) → In f (frames_from first count) → (first ≤ f) × (f < first + count)
unfolding frames_from
frames_bounds first zero f h = absurd h
frames_bounds first (suc count) f (inl e) = omega arith
frames_bounds first (suc count) f (inr h) = omega (arith, frames_bounds (suc first) count f h)

frames-IsNodup : (first count : ℕ) → IsNodup (frames_from first count)
unfolding frames_from
frames-IsNodup first zero = tt
frames-IsNodup first (suc count) = (
  λ h. let b = frames_bounds (suc first) count first h in omega arith,
  frames-IsNodup (suc first) count,
)

module _ (ops : DiskOps) where
  open ops use {Disk, stored}

  -- A new pool is consistent, and stands for the pages of the disk.
  pub init-IsConsistent :
      (pool_size : ℕ) (disk : Disk)
      → IsConsistent ops (init pool_size disk)
        × ((p : PageId) → content ops p (init pool_size disk) ≡ stored p disk)
  unfolding init content
  init-IsConsistent pool_size disk = (
    record {
      resident = λ p f h. absurd (nowhere h);
      writable = λ p f h. absurd (nowhere h);
      free = λ f h. let b = frames_bounds 0 pool_size f h in (omega arith, refl, refl);
      nodup = frames-IsNodup 0 pool_size;
      evictable = λ f h. absurd (unknown h);
    },
    λ p. refl,
  )
    where
      nowhere : {f : ℕ} → ◌≡◌ {A = Option ℕ} none (some f) → ⊥
      nowhere e = cc

      unknown : ◌≡◌ {A = Option _} none (some true) → ⊥
      unknown e = cc
