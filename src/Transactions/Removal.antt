-- ===== src/Transactions/Removal.antt =====
-- The end of a transaction's reads, and the watermark that is told (Watermark).
use gavin_db.Prelude.{
  ℕ, zero, suc, ◌+◌, ◌-◌, ◌<◌, ◌≡◌, ◌≢◌, refl, ap, sym, ◌∙◌, ◌==◌, ==_iff, List, [], ◌∷◌, none, ok,
  if◌then◌else◌, arith, Bool-cases, inl, inr,
}
use mathlib.Core.Option.{none-ne-some}
use gavin_db.Prelude.Int.{ℤ, pos, ◌-ℤ◌, int_eq}
use gavin_db.Prelude.Maps.{
  find, put, erase, find-put_self, find-put_ne, find-erase_self, find-erase_ne, find_here,
}
use gavin_db.Transactions.Watermark.{Watermark, Reads, take_read, settle, remove_txn, get_watermark}
use gavin_db.Transactions.Tracking.{
  occurrences, remove_one, entry_of, Represents, IsBelow, IsOldest, IsRead, IsTracking,
  advance-IsTracking, some_absent,
}
use gavin_db.Transactions.Oldest.{
  occurrences_here, occurrences-remove_one_self, occurrences-remove_one_ne, count_at-occurrences,
  one_less, differ,
}

-- What `take_read` leaves, by whether the last of the reads at the timestamp is taken.
taken :
    (n : ℕ) (reads : Reads) (ts : ℕ)
    → (if int_eq (pos n) (pos 0)
        then erase ◌==◌ (put ◌==◌ reads ts (pos n)) ts
        else put ◌==◌ reads ts (pos n))
      ≡ elim n [
        | zero ↦ erase ◌==◌ (put ◌==◌ reads ts (pos 0)) ts
        | suc m ↦ put ◌==◌ reads ts (pos (suc m))
      ]
taken zero reads ts = refl
taken (suc n) reads ts = ground arith

take_read_lem :
    (reads : Reads) (running : List ℕ) (ts n : ℕ)
    → Represents reads running
    → occurrences ts running ≡ suc n
    → take_read reads ts ≡ elim n [
      | zero ↦ erase ◌==◌ (put ◌==◌ reads ts (pos 0)) ts
      | suc m ↦ put ◌==◌ reads ts (pos (suc m))
    ]
unfolding take_read
take_read_lem reads running ts n stands h =
    ap (λ k. if int_eq k (pos 0) then erase ◌==◌ (put ◌==◌ reads ts k) ts else put ◌==◌ reads ts k)
      (ap (λ k. k -ℤ pos 1) (count_at-occurrences reads running ts stands ∙ ap pos h) ∙ one_less n)
    ∙ taken n reads ts

-- The entries after that, at the timestamp and elsewhere.
entry_taken :
    (n : ℕ) (reads : Reads) (ts : ℕ)
    → find ◌==◌
        (elim n [
          | zero ↦ erase ◌==◌ (put ◌==◌ reads ts (pos 0)) ts
          | suc m ↦ put ◌==◌ reads ts (pos (suc m))
        ])
        ts
      ≡ entry_of n
unfolding entry_of
entry_taken zero reads ts = find-erase_self (put ◌==◌ reads ts (pos 0)) ts
entry_taken (suc n) reads ts = find-put_self reads ts (pos (suc n))

entry_left :
    (n : ℕ) (reads : Reads) (ts other : ℕ)
    → other ≢ ts
    → find ◌==◌
        (elim n [
          | zero ↦ erase ◌==◌ (put ◌==◌ reads ts (pos 0)) ts
          | suc m ↦ put ◌==◌ reads ts (pos (suc m))
        ])
        other
      ≡ find ◌==◌ reads other
entry_left zero reads ts other ne =
    find-erase_ne (put ◌==◌ reads ts (pos 0)) ts other ne ∙ find-put_ne reads ts other (pos 0) ne
entry_left (suc n) reads ts other ne = find-put_ne reads ts other (pos (suc n)) ne

take_read-Represents :
    (reads : Reads) (running : List ℕ) (ts n : ℕ)
    → Represents reads running
    → occurrences ts running ≡ suc n
    → Represents (take_read reads ts) (remove_one ts running)
unfolding Represents
take_read-Represents reads running ts n stands h other =
    ap (λ rs. find ◌==◌ rs other) (take_read_lem reads running ts n stands h)
    ∙ elim (Bool-cases (other == ts)) [
      | inl same ↦
          let e = (==_iff other ts).0 same in
          let left : (n ≡ occurrences ts (remove_one ts running)) =
            omega (arith, h, occurrences-remove_one_self ts running) in
          ap
            (find ◌==◌ (elim n [
              | zero ↦ erase ◌==◌ (put ◌==◌ reads ts (pos 0)) ts
              | suc m ↦ put ◌==◌ reads ts (pos (suc m))
            ]))
            e
          ∙ entry_taken n reads ts
          ∙ ap entry_of left
          ∙ ap (λ o. entry_of (occurrences o (remove_one ts running))) (sym e)
      | inr differs ↦
          let ne = differ other ts differs in
          entry_left n reads ts other ne
          ∙ stands other
          ∙ ap entry_of (sym (occurrences-remove_one_ne ts other running ne))
    ]

-- The reads that are left are among those that were running.
remove_one-IsBelow :
    (m ts : ℕ) (running : List ℕ)
    → IsBelow m running
    → 0 < occurrences ts running
    → IsBelow m (remove_one ts running)
remove_one-IsBelow m ts running below occurs other h = elim (Bool-cases (other == ts)) [
  | inl same ↦ omega (arith, (==_iff other ts).0 same, below ts occurs)
  | inr differs ↦
      below other
        (omega (arith, occurrences-remove_one_ne ts other running (differ other ts differs)))
]

present : (ts : ℕ) (n : ℤ) (reads : Reads) → find ◌==◌ ((ts, n) ∷ reads) ts ≢ none
present ts n reads e = none-ne-some n (sym e ∙ find_here ◌==◌ reads ts ts n ((==_iff ts ts).1 refl))

-- What is done when the reads have changed to those that stand for a list.
settle-IsTracking :
    (rounds : ℕ) (reads : Reads) (w : Watermark) (running : List ℕ)
    → Represents reads running
    → IsBelow w.watermark running
    → ((ts : ℕ) → 0 < occurrences ts running → ts < w.watermark + rounds)
    → (after : Watermark) × (settle rounds reads w ≡ ok after) × IsTracking after running
unfolding settle IsTracking Represents IsRead find occurrences entry_of
settle-IsTracking rounds [] w [] stands below high = (
  record w { watermark = w.commit_ts; current_reads = [] },
  refl,
  (stands, (λ ts h. absurd (omega arith)), tt),
)
settle-IsTracking rounds (x ∷ reads) w [] stands below high =
    absurd (present x.0 x.1 reads (stands x.0))
settle-IsTracking rounds [] w (r ∷ running) stands below high = absurd (
    some_absent (occurrences r (r ∷ running)) (omega (arith, occurrences_here r running))
      (sym (stands r)))
settle-IsTracking rounds (x ∷ reads) w (r ∷ running) stands below high =
    let (after, returned, tracking, _, _) =
      advance-IsTracking rounds (record w { current_reads = x ∷ reads }) r running r stands below
        (omega (arith, occurrences_here r running))
        (high r (omega (arith, occurrences_here r running))) in
    (after, returned, tracking)

-- A transaction that runs ends its reads, where the rounds suffice to reach each running read: the operation
-- returns, and the watermark tracks the running reads without that one.
pub remove_txn-IsTracking :
    (rounds read_ts : ℕ) (w : Watermark) (running : List ℕ)
    → IsTracking w running
    → 0 < occurrences read_ts running
    → ((ts : ℕ) → 0 < occurrences ts running → ts < w.watermark + rounds)
    → (after : Watermark) × (remove_txn rounds read_ts w ≡ ok after)
      × IsTracking after (remove_one read_ts running)
unfolding remove_txn IsTracking
remove_txn-IsTracking rounds read_ts w running (stands, below, read) occurs high =
    settle-IsTracking rounds (take_read w.current_reads read_ts) w (remove_one read_ts running)
      (take_read-Represents w.current_reads running read_ts (occurrences read_ts running - 1) stands
        (omega arith))
      (remove_one-IsBelow w.watermark read_ts running below occurs)
      (λ ts h. elim (Bool-cases (ts == read_ts)) [
        | inl same ↦ omega (arith, (==_iff ts read_ts).0 same, high read_ts occurs)
        | inr differs ↦ high ts (
            omega (arith, occurrences-remove_one_ne read_ts ts running (differ ts read_ts differs)))
      ])

told :
    (commit_ts m : ℕ) (reads : Reads) (running : List ℕ)
    → Represents reads running
    → IsBelow m running
    → IsRead m running
    → IsOldest commit_ts running (elim reads [ [] ↦ commit_ts | _ ∷ _ ↦ m ])
unfolding Represents IsRead IsOldest find occurrences entry_of
told commit_ts m [] [] stands below read = refl
told commit_ts m (x ∷ reads) [] stands below read = absurd (present x.0 x.1 reads (stands x.0))
told commit_ts m [] (r ∷ running) stands below read = absurd (
    some_absent (occurrences r (r ∷ running)) (omega (arith, occurrences_here r running))
      (sym (stands r)))
told commit_ts m (x ∷ reads) (r ∷ running) stands below read = (read, below)

-- A watermark that tracks the running reads gives the oldest of them, and the last commit if there is none.
pub get_watermark-IsOldest :
    (w : Watermark) (running : List ℕ)
    → IsTracking w running
    → IsOldest w.commit_ts running (get_watermark w)
unfolding get_watermark IsTracking IsOldest
get_watermark-IsOldest w running (stands, below, read) =
    told w.commit_ts w.watermark w.current_reads running stands below read
