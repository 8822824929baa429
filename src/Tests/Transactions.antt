-- ===== src/Tests/Transactions.antt =====
-- Transactions that begin to read at 3 and at 5, and end.
use gavin_db.Prelude.{refl, ℕ, ◌+◌, ◌<◌, ◌≤◌, ◌≡◌, List, [], ◌∷◌, ok, arith}
use gavin_db.Prelude.Int.{pos}
use gavin_db.Prelude.Maps.{find}
use gavin_db.Transactions.Watermark.{Watermark, add_txn, remove_txn, get_watermark}
use gavin_db.Transactions.Tracking.{
  IsTracking, IsOldest, Represents, IsRead, occurrences, remove_one, entry_of,
}
use gavin_db.Transactions.Oldest.{add_txn-IsTracking}
use gavin_db.Transactions.Manager.{
  TransactionManager, new_manager, begin, begun, read_committed, watermark_of,
}
use gavin_db.Transactions.Begin.{IsManager, begin-IsManager, read_times}
use gavin_db.Transactions.Removal.{remove_txn-IsTracking, get_watermark-IsOldest}

abbrev reading : Watermark
reading = record { commit_ts = 2; watermark = 3; current_reads = (3, pos 1) ∷ (5, pos 1) ∷ [] }

abbrev running : List ℕ
running = 3 ∷ 5 ∷ []

running-Represents : Represents reading.current_reads running
unfolding Represents find occurrences entry_of
running-Represents ts = ground arith

running-within : (ts : ℕ) → 0 < occurrences ts running → ts < reading.watermark + 3
unfolding occurrences
running-within ts h = ground arith

reading-IsTracking : IsTracking reading running
unfolding IsTracking IsRead occurrences
reading-IsTracking = (running-Represents, (λ ts h. ground arith), omega arith)

add_txn-IsTracking_example :
    (after : Watermark) × (add_txn 3 5 reading ≡ ok after)
    × IsTracking after (5 ∷ running)
    × (after.commit_ts ≡ 2)
    × (3 ≤ after.watermark)
add_txn-IsTracking_example =
    add_txn-IsTracking 3 5 reading running reading-IsTracking (omega arith) (omega arith)
      (omega arith)

remove_txn-IsTracking_example :
    (after : Watermark) × (remove_txn 3 3 reading ≡ ok after) × IsTracking after (5 ∷ [])
unfolding occurrences remove_one
remove_txn-IsTracking_example =
    remove_txn-IsTracking 3 3 reading running reading-IsTracking (omega arith) running-within

get_watermark-IsOldest_example : IsOldest 2 running 3
unfolding get_watermark
get_watermark-IsOldest_example = get_watermark-IsOldest reading running reading-IsTracking

abbrev manager : TransactionManager
manager = new_manager []

manager-IsManager : IsManager manager
unfolding IsManager IsTracking Represents IsRead occurrences entry_of find read_times
manager-IsManager =
    (((λ ts. refl), (λ ts h. absurd (omega arith)), tt), refl, refl, (λ id txn e. cc))

begin-IsManager_example :
    (after : TransactionManager) × (begin 1 read_committed manager
      ≡ (ok (begun manager read_committed), after))
    × IsManager after
    × (watermark_of after ≡ 0)
begin-IsManager_example = begin-IsManager 1 read_committed manager manager-IsManager (omega arith)
