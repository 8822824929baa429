-- ===== src/Transactions/Begin.antt =====
-- The beginning of a transaction (`Begin` of src/include/concurrency/transaction_manager.hpp).
use gavin_db.Prelude.{
  ℕ, suc, ◌≤◌, ◌<◌, ◌≡◌, sym, ◌∙◌, ◌==◌, ==_iff, List, [], ◌∷◌, none, some, Option-cases,
  Bool-cases, inl, inr, ok, arith,
}
use gavin_db.Prelude.Maps.{find, find_there}
use gavin_db.Transactions.Watermark.{Watermark, add_txn, get_watermark}
use gavin_db.Transactions.Tracking.{IsTracking, IsOldest, IsRead, occurrences}
use gavin_db.Transactions.Oldest.{add_txn-IsTracking, occurrences_here}
use gavin_db.Transactions.Removal.{get_watermark-IsOldest}
use gavin_db.Transactions.Manager.{
  TransactionManager, Transaction, IsolationLevel, begin, begun, register, watermark_of,
}

-- The timestamps at which the transactions read.
unfoldable pub read_times : List (ℕ × Transaction) → List ℕ
read_times [] = []
read_times ((id, txn) ∷ txns) = txn.read_ts ∷ read_times txns

-- The watermark tracks the transactions in the map and stands at the last commit; the next identifier is new.
unfoldable pub IsManager : TransactionManager → Type 0
IsManager m =
    IsTracking m.running_txns (read_times m.txn_map)
    × (m.running_txns.commit_ts ≡ m.last_commit_ts)
    × (m.running_txns.watermark ≡ m.last_commit_ts)
    × ((id : ℕ) (txn : Transaction) → find ◌==◌ m.txn_map id ≡ some txn → id < m.next_txn_id)

-- The manager after `Begin`, by the watermark that it has then.
abbrev begun_manager : TransactionManager → IsolationLevel → Watermark → TransactionManager
begun_manager m level running = record m {
  next_txn_id = suc m.next_txn_id;
  txn_map = (m.next_txn_id, begun m level) ∷ m.txn_map;
  running_txns = running;
}

new_id :
    (m : TransactionManager)
    → ((id : ℕ) (txn : Transaction) → find ◌==◌ m.txn_map id ≡ some txn → id < m.next_txn_id)
    → find ◌==◌ m.txn_map m.next_txn_id ≡ none
new_id m below = elim (Option-cases (find ◌==◌ m.txn_map m.next_txn_id)) [
  | inl absent ↦ absent
  | inr (txn, e) ↦ absurd (omega (arith, below m.next_txn_id txn e))
]

begin-registers :
    (rounds : ℕ) (level : IsolationLevel) (m : TransactionManager) (running : Watermark)
    → find ◌==◌ m.txn_map m.next_txn_id ≡ none
    → add_txn rounds m.last_commit_ts m.running_txns ≡ ok running
    → begin rounds level m ≡ (ok (begun m level), begun_manager m level running)
unfolding begin register
begin-registers rounds level m running absent added = rw (absent, begin, added)

watermark_below :
    (w : Watermark) (ts : ℕ) (running : List ℕ) → IsTracking w (ts ∷ running) → w.watermark ≤ ts
unfolding IsTracking
watermark_below w ts running (stands, below, read) =
    below ts (omega (arith, occurrences_here ts running))

read_runs :
    (w : Watermark) (ts : ℕ) (running : List ℕ)
    → IsTracking w (ts ∷ running)
    → 0 < occurrences w.watermark (ts ∷ running)
unfolding IsTracking IsRead
read_runs w ts running (stands, below, read) = read

-- With a read that runs, the watermark is the one that is told.
watermark_told :
    (w : Watermark) (ts : ℕ) (running : List ℕ)
    → IsTracking w (ts ∷ running)
    → get_watermark w ≡ w.watermark
unfolding IsTracking IsOldest
watermark_told w ts running (stands, below, read) =
    let (runs, oldest) = get_watermark-IsOldest w (ts ∷ running) (stands, below, read) in
    omega (
      arith,
      below (get_watermark w) runs,
      oldest w.watermark (read_runs w ts running (stands, below, read)),
    )

-- Where the watermark tracks the transactions of the map and stands at the last commit, and the next
-- identifier is new, one round is enough for `Begin` to return the transaction, and all that holds of the manager
-- after it as well. The watermark stays at the last commit.
pub begin-IsManager :
    (rounds : ℕ) (level : IsolationLevel) (m : TransactionManager)
    → IsManager m
    → 0 < rounds
    → (after : TransactionManager) × (begin rounds level m ≡ (ok (begun m level), after))
      × IsManager after
      × (watermark_of after ≡ m.last_commit_ts)
unfolding IsManager read_times watermark_of
begin-IsManager rounds level m (tracking, committed, at_commit, below) positive =
    let (running, added, tracks, same_commit, risen) =
      add_txn-IsTracking rounds m.last_commit_ts m.running_txns (read_times m.txn_map) tracking
        (omega (arith, committed)) (omega (arith, at_commit)) (omega (arith, at_commit)) in
    let stands : (running.watermark ≡ m.last_commit_ts) = omega (
      arith,
      risen,
      at_commit,
      watermark_below running m.last_commit_ts (read_times m.txn_map) tracks,
    ) in
    (
      begun_manager m level running,
      begin-registers rounds level m running (new_id m below) added,
      (
        tracks,
        same_commit ∙ committed,
        stands,
        (λ id txn e. elim (Bool-cases (id == m.next_txn_id)) [
          | inl same ↦ omega (arith, (==_iff id m.next_txn_id).0 same)
          | inr differs ↦ omega (
            arith,
            below id txn
                (sym (find_there ◌==◌ m.txn_map id m.next_txn_id (begun m level) differs) ∙ e),
          )
        ]),
      ),
      watermark_told running m.last_commit_ts (read_times m.txn_map) tracks ∙ stands,
    )
