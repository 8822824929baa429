-- ===== src/Buffer/Replacer.antt =====
-- storage/buffer/random_replacer.cpp: which frames may be evicted.
use gavin_db.Prelude.{ℕ, ◌<◌, ◌≡◌, ◌≢◌, Bool, true, false, Option, none, some, put_at}

-- `frame_store_`: no entry, pinned (false) or evictable (true).
abbrev pub FrameStore : Type 0
FrameStore = ℕ → Option Bool

-- The order in which a `std::unordered_map` is iterated is the library's. The loop of `Evict` stops
-- at the first evictable frame of that order, where there is one; the keys are below `bound`.
pub record Iteration : Type 0 where
  pub first_evictable : ℕ → FrameStore → Option ℕ
  pub first_sound :
      (bound : ℕ) (store : FrameStore) {f : ℕ}
      → first_evictable bound store ≡ some f
      → store f ≡ some true
  pub first_complete :
      (bound : ℕ) (store : FrameStore)
      → first_evictable bound store ≡ none
      → (f : ℕ) → f < bound
      → store f ≢ some true

-- The frame, and the store in which it is evictable no longer.
unfoldable pub evict : Iteration → ℕ → FrameStore → Option ℕ × FrameStore
evict order bound store = elim (order.first_evictable bound store) [
  | none ↦ (none, store)
  | some f ↦ (some f, put_at store f (some false))
]

-- An entry is made, or changed: both leave `false` under the frame.
abbrev pub pin : ℕ → FrameStore → FrameStore
pin f store = put_at store f (some false)

-- A frame that has no entry stays without one.
abbrev pub unpin : ℕ → FrameStore → FrameStore
unpin f store = elim (store f) [ none ↦ store | some _ ↦ put_at store f (some true) ]
