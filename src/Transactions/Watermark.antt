-- ===== src/Transactions/Watermark.antt =====
-- Watermark (src/include/concurrency/watermark.hpp), a function for each method. The search for the next
-- read that runs, which has no end of its own, takes rounds. Timestamps are not negative.
use gavin_db.Prelude.{
  ℕ, zero, suc, ◌==◌, ltb, List, [], ◌∷◌, none, some, Result, ok, err, runtime, out_of_fuel, ◌>>=◌,
  if◌then◌else◌,
}
use gavin_db.Prelude.Int.{ℤ, pos, ◌+ℤ◌, ◌-ℤ◌, int_eq}
use gavin_db.Prelude.Maps.{find, put, erase}

abbrev pub Reads : Type 0
Reads = List (ℕ × ℤ)

pub record Watermark : Type 0 where
  pub commit_ts : ℕ
  pub watermark : ℕ
  pub current_reads : Reads

-- `Watermark(commit_ts)`
abbrev pub new_watermark : ℕ → Watermark
new_watermark commit_ts = record {
  commit_ts = commit_ts;
  watermark = commit_ts;
  current_reads = [];
}

-- `current_reads_[ts]`, which is 0 for a new entry.
unfoldable pub count_at : Reads → ℕ → ℤ
unfolding find
count_at reads ts = elim (find ◌==◌ reads ts) [ none ↦ pos 0 | some n ↦ n ]

-- The loop from a timestamp upwards to one that is read.
unfoldable pub probe : ℕ → Reads → ℕ → Result ℕ
unfolding find
probe zero reads i = err out_of_fuel
probe (suc rounds) reads i =
    let rest = probe rounds reads (suc i) in
    elim (find ◌==◌ reads i) [ some _ ↦ ok i | none ↦ rest ]

-- The end of both operations: the watermark moves up to a read that runs.
unfoldable pub advance : ℕ → Watermark → Result Watermark
unfolding probe
advance rounds w =
    probe rounds w.current_reads w.watermark >>= λ ts. ok (record w { watermark = ts })

unfoldable pub add_txn : ℕ → ℕ → Watermark → Result Watermark
unfolding count_at put advance ◌+ℤ◌
add_txn rounds read_ts w =
    if ltb read_ts w.commit_ts
    then err runtime
    else advance rounds (record w {
      current_reads = put ◌==◌ w.current_reads read_ts (count_at w.current_reads read_ts +ℤ pos 1);
    })

-- The reads with one less at the timestamp, an entry of 0 being erased.
unfoldable pub take_read : Reads → ℕ → Reads
unfolding count_at put erase ◌-ℤ◌
take_read reads ts =
    let n = count_at reads ts -ℤ pos 1 in
    if int_eq n (pos 0) then erase ◌==◌ (put ◌==◌ reads ts n) ts else put ◌==◌ reads ts n

-- What is left to do when the reads have changed.
unfoldable pub settle : ℕ → Reads → Watermark → Result Watermark
unfolding advance
settle rounds [] w = ok (record w { watermark = w.commit_ts; current_reads = [] })
settle rounds (r ∷ reads) w = advance rounds (record w { current_reads = r ∷ reads })

unfoldable pub remove_txn : ℕ → ℕ → Watermark → Result Watermark
unfolding take_read settle
remove_txn rounds read_ts w = settle rounds (take_read w.current_reads read_ts) w

unfoldable pub update_commit_ts : ℕ → Watermark → Watermark
update_commit_ts commit_ts w = record w { commit_ts = commit_ts }

unfoldable pub get_watermark : Watermark → ℕ
get_watermark w = elim (w.current_reads) [ [] ↦ w.commit_ts | _ ∷ _ ↦ w.watermark ]
