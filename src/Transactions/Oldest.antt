-- ===== src/Transactions/Oldest.antt =====
-- The beginning of a transaction's reads, and how many read at each timestamp (Watermark).
use gavin_db.Prelude.{
  ℕ, zero, suc, ◌+◌, ◌≤◌, ◌<◌, ◌≡◌, ◌≢◌, refl, ap, sym, ◌∙◌, ◌==◌, ==_iff, ltb, false, List, [],
  ◌∷◌, Option, none, some, ok, err, runtime, if◌then◌else◌, arith, Bool-cases, inl, inr,
}
use gavin_db.Prelude.Int.{ℤ, pos, ◌+ℤ◌, ◌-ℤ◌}
use gavin_db.Prelude.Maps.{find, put, find-put_self, find-put_ne}
use gavin_db.Transactions.Watermark.{Watermark, Reads, count_at, advance, add_txn}
use gavin_db.Transactions.Tracking.{
  occurrences, remove_one, entry_of, Represents, IsBelow, IsTracking, advance-IsTracking,
}

pub occurrences_here :
    (ts : ℕ) (running : List ℕ) → occurrences ts (ts ∷ running) ≡ suc (occurrences ts running)
unfolding occurrences
occurrences_here ts running = ground arith

occurrences_there :
    (ts r : ℕ) (running : List ℕ) → ts ≢ r → occurrences ts (r ∷ running) ≡ occurrences ts running
unfolding occurrences
occurrences_there ts r running h = ground arith

pub occurrences-remove_one_self :
    (ts : ℕ) (running : List ℕ)
    → 0 < occurrences ts running
    → suc (occurrences ts (remove_one ts running)) ≡ occurrences ts running
unfolding occurrences remove_one
occurrences-remove_one_self ts [] h = absurd (omega arith)
occurrences-remove_one_self ts (r ∷ running) h = elim (Bool-cases (ts == r)) [
  | inl same ↦ ground arith
  | inr differs ↦ ground (arith, occurrences-remove_one_self ts running)
]

pub occurrences-remove_one_ne :
    (ts other : ℕ) (running : List ℕ)
    → other ≢ ts
    → occurrences other (remove_one ts running) ≡ occurrences other running
unfolding occurrences remove_one
occurrences-remove_one_ne ts other [] h = refl
occurrences-remove_one_ne ts other (r ∷ running) h = elim (Bool-cases (ts == r)) [
  | inl same ↦ ground arith
  | inr differs ↦ ground (arith, occurrences-remove_one_ne ts other running h)
]

pub count_at-occurrences :
    (reads : Reads) (running : List ℕ) (ts : ℕ)
    → Represents reads running
    → count_at reads ts ≡ pos (occurrences ts running)
unfolding count_at Represents entry_of
count_at-occurrences reads running ts stands =
    ap (λ (o : Option ℤ). elim o [ none ↦ pos 0 | some n ↦ n ]) (stands ts)
    ∙ go (occurrences ts running)
  where
    go : (n : ℕ) → elim (entry_of n) [ none ↦ pos 0 | some n ↦ n ] ≡ pos n
    go zero = refl
    go (suc n) = refl

one_more : (n : ℕ) → pos n +ℤ pos 1 ≡ pos (suc n)
unfolding ◌+ℤ◌
one_more n = ground arith

pub one_less : (n : ℕ) → pos (suc n) -ℤ pos 1 ≡ pos n
unfolding ◌-ℤ◌
one_less n = ground arith

pub differ : (a b : ℕ) → (a == b) ≡ false → a ≢ b
differ a b h = ground arith

not_before : (a b : ℕ) → b ≤ a → ltb a b ≡ false
not_before a b h = ground arith

IsBelow-more : (m r : ℕ) (running : List ℕ) → IsBelow m running → m ≤ r → IsBelow m (r ∷ running)
IsBelow-more m r running below h ts occurs = elim (Bool-cases (ts == r)) [
  | inl same ↦ omega (arith, (==_iff ts r).0 same)
  | inr differs ↦ below ts (omega (arith, occurrences_there ts r running (differ ts r differs)))
]

put-Represents :
    (reads : Reads) (running : List ℕ) (ts : ℕ)
    → Represents reads running
    → Represents (put ◌==◌ reads ts (count_at reads ts +ℤ pos 1)) (ts ∷ running)
unfolding Represents entry_of
put-Represents reads running ts stands other = elim (Bool-cases (other == ts)) [
  | inl same ↦
      let e = (==_iff other ts).0 same in
      ap (find ◌==◌ (put ◌==◌ reads ts (count_at reads ts +ℤ pos 1))) e
      ∙ find-put_self reads ts (count_at reads ts +ℤ pos 1)
      ∙ ap (λ n. some (n +ℤ pos 1)) (count_at-occurrences reads running ts stands)
      ∙ ap some (one_more (occurrences ts running))
      ∙ ap entry_of (sym (occurrences_here ts running))
      ∙ ap (λ o. entry_of (occurrences o (ts ∷ running))) (sym e)
  | inr differs ↦
      let ne = differ other ts differs in
      find-put_ne reads ts other (count_at reads ts +ℤ pos 1) ne
      ∙ stands other
      ∙ ap entry_of (sym (occurrences_there other ts running ne))
]

-- A transaction begins to read at a timestamp that is neither below the last commit nor below the watermark,
-- where the rounds suffice to reach it: the operation returns, and the watermark tracks the running reads
-- with the new one, and has not fallen. The last commit is the same.
pub add_txn-IsTracking :
    (rounds read_ts : ℕ) (w : Watermark) (running : List ℕ)
    → IsTracking w running
    → w.commit_ts ≤ read_ts
    → w.watermark ≤ read_ts
    → read_ts < w.watermark + rounds
    → (after : Watermark) × (add_txn rounds read_ts w ≡ ok after)
      × IsTracking after (read_ts ∷ running)
      × (after.commit_ts ≡ w.commit_ts)
      × (w.watermark ≤ after.watermark)
unfolding add_txn IsTracking
add_txn-IsTracking rounds read_ts w running (stands, below, read) committed above high =
    let reads = put ◌==◌ w.current_reads read_ts (count_at w.current_reads read_ts +ℤ pos 1) in
    let (after, returned, tracking, same_commit, risen) =
      advance-IsTracking rounds (record w { current_reads = reads }) read_ts running read_ts
        (put-Represents w.current_reads running read_ts stands)
        (IsBelow-more w.watermark read_ts running below above)
        (omega (arith, occurrences_here read_ts running)) high in
    (
      after,
      ap (λ b. if b then err runtime else advance rounds (record w { current_reads = reads }))
            (not_before read_ts w.commit_ts committed)
          ∙ returned,
      tracking,
      same_commit,
      risen,
    )
