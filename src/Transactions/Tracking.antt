-- ===== src/Transactions/Tracking.antt =====
-- Watermark (Watermark) against the list of the reads that run.
use gavin_db.Prelude.{
  ℕ, zero, suc, ◌+◌, ◌≤◌, ◌<◌, ◌≡◌, refl, ap, sym, ◌∙◌, ◌==◌, ==_iff, ltb, false, List, [], ◌∷◌,
  Option, none, some, ok, ◌>>=◌, if◌then◌else◌, arith, Option-cases, Bool-cases, inl, inr, ◌≢◌,
  ltb→lt,
}
use mathlib.Core.Option.{none-ne-some}
use gavin_db.Prelude.Int.{ℤ, pos}
use gavin_db.Prelude.Maps.{find}
use gavin_db.Transactions.Watermark.{Watermark, Reads, probe, advance}

-- How many of the running reads read at a timestamp.
unfoldable pub occurrences : ℕ → List ℕ → ℕ
occurrences ts [] = 0
occurrences ts (r ∷ running) =
    let rest = occurrences ts running in if ts == r then suc rest else rest

-- The running reads less one of that timestamp.
unfoldable pub remove_one : ℕ → List ℕ → List ℕ
remove_one ts [] = []
remove_one ts (r ∷ running) =
    let rest = remove_one ts running in if ts == r then running else (r ∷ rest)

-- The entry that stands for a number of reads.
unfoldable pub entry_of : ℕ → Option ℤ
entry_of zero = none
entry_of (suc n) = some (pos (suc n))

unfoldable pub Represents : Reads → List ℕ → Type 0
Represents reads running = (ts : ℕ) → find ◌==◌ reads ts ≡ entry_of (occurrences ts running)

abbrev pub IsBelow : ℕ → List ℕ → Type 0
IsBelow m running = (ts : ℕ) → 0 < occurrences ts running → m ≤ ts

-- The oldest of the running reads; with none, the last commit.
unfoldable pub IsOldest : ℕ → List ℕ → ℕ → Type 0
IsOldest commit_ts [] m = m ≡ commit_ts
IsOldest commit_ts (r ∷ running) m = (0 < occurrences m (r ∷ running)) × IsBelow m (r ∷ running)

-- The watermark is one of the running reads, if there are any.
unfoldable pub IsRead : ℕ → List ℕ → Type 0
IsRead m [] = Unit
IsRead m (r ∷ running) = 0 < occurrences m (r ∷ running)

unfoldable pub IsTracking : Watermark → List ℕ → Type 0
unfolding Represents IsRead
IsTracking w running =
    Represents w.current_reads running × IsBelow w.watermark running × IsRead w.watermark running

after_first : (i k : ℕ) → i ≤ k → (k == i) ≡ false → suc i ≤ k
after_first i k a differs = ground arith

swap : (i j : ℕ) → (i == j) ≡ false → (j == i) ≡ false
swap i j h = ground arith

not_less : (a b : ℕ) → ltb a b ≡ false → b ≤ a
not_less a b h = ground arith

pub some_absent : (n : ℕ) → 0 < n → entry_of n ≢ none
unfolding entry_of
some_absent zero h e = absurd (omega arith)
some_absent (suc n) h e = cc

next_round :
    (reads : Reads) (i j : ℕ) (n : ℤ)
    → find ◌==◌ reads i ≡ none
    → find ◌==◌ reads j ≡ some n
    → i ≤ j
    → suc i ≤ j
next_round reads i j n absent e low = elim (Bool-cases (i == j)) [
  | inl same ↦ absurd (none-ne-some n (sym absent ∙ ap (find ◌==◌ reads) ((==_iff i j).0 same) ∙ e))
  | inr differs ↦ after_first i j low (swap i j differs)
]

probe-found :
    (rounds : ℕ) (reads : Reads) (i j : ℕ) (n : ℤ)
    → find ◌==◌ reads j ≡ some n
    → i ≤ j
    → j < i + rounds
    → (m : ℕ) × (probe rounds reads i ≡ ok m)
      × (i ≤ m)
      × ((k : ℤ) × (find ◌==◌ reads m ≡ some k))
      × ((k : ℕ) → i ≤ k → k < m → find ◌==◌ reads k ≡ none)
unfolding probe
probe-found zero reads i j n e low high = absurd (omega arith)
probe-found (suc rounds) reads i j n e low high = elim (Option-cases (find ◌==◌ reads i)) [
  | inr (k, here) ↦ (i, rw (here, probe), omega arith, (k, here), (λ l a b. absurd (omega arith)))
  | inl absent ↦
      let (m, found, above, stored, below) =
        probe-found rounds reads (suc i) j n e (next_round reads i j n absent e low)
          (omega arith) in
      (
        m,
        rw (absent, probe) found,
        omega (arith, above),
        stored,
        (λ k a b. elim (Bool-cases (k == i)) [
          | inl same ↦ ap (find ◌==◌ reads) ((==_iff k i).0 same) ∙ absent
          | inr differs ↦ below k (after_first i k a differs) b
        ]),
      )
]

occurs-entry : (n : ℕ) → 0 < n → entry_of n ≡ some (pos n)
unfolding entry_of
occurs-entry zero h = absurd (omega arith)
occurs-entry (suc n) h = refl

entry-occurs : (n : ℕ) (k : ℤ) → entry_of n ≡ some k → 0 < n
unfolding entry_of
entry-occurs zero k h = cc
entry-occurs (suc n) k h = omega arith

-- The loop ends at the oldest read, which is not below the watermark.
pub advance-IsTracking :
    (rounds : ℕ) (w : Watermark) (r : ℕ) (running : List ℕ) (j : ℕ)
    → Represents w.current_reads (r ∷ running)
    → IsBelow w.watermark (r ∷ running)
    → 0 < occurrences j (r ∷ running)
    → j < w.watermark + rounds
    → (after : Watermark) × (advance rounds w ≡ ok after)
      × IsTracking after (r ∷ running)
      × (after.commit_ts ≡ w.commit_ts)
      × (w.watermark ≤ after.watermark)
unfolding advance IsTracking Represents IsRead
advance-IsTracking rounds w r running j stands below runs high =
    let (m, found, above, (k, stored), none_before) =
      probe-found rounds w.current_reads w.watermark j (pos (occurrences j (r ∷ running)))
        (stands j ∙ occurs-entry (occurrences j (r ∷ running)) runs) (below j runs) high in
    (
      record w { watermark = m },
      ap (λ a. a >>= λ ts. ok (record w { watermark = ts })) found,
      (
        stands,
        (λ ts h. elim (Bool-cases (ltb ts m)) [
          | inl less ↦ absurd (
              some_absent (occurrences ts (r ∷ running)) h
                (sym (stands ts) ∙ none_before ts (below ts h) (ltb→lt ts m less)))
          | inr more ↦ not_less ts m more
        ]),
        entry-occurs (occurrences m (r ∷ running)) k (sym (stands m) ∙ stored),
      ),
      refl,
      above,
    )
