-- ===== src/Transactions/Manager.antt =====
-- TransactionManager and the members of Transaction that it sets (src/include/concurrency). The page set of a
-- transaction is part of the state of the index.
use gavin_db.Prelude.{ℕ, suc, ◌==◌, Bool, true, List, ◌∷◌, none, some, Result, ok, err, runtime}
use gavin_db.Prelude.Maps.{find}
use gavin_db.Transactions.Watermark.{Watermark, new_watermark, add_txn, get_watermark}

pub data IsolationLevel : Type 0 where
  read_uncommitted repeatable_read read_committed : IsolationLevel

-- No timestamp of commit is ever set.
pub record Transaction : Type 0 where
  pub txn_id : ℕ
  pub isolation_level : IsolationLevel
  pub read_ts : ℕ

pub record TransactionManager : Type 0 where
  pub next_txn_id : ℕ
  pub txn_map : List (ℕ × Transaction)
  pub last_commit_ts : ℕ
  pub running_txns : Watermark

-- `TXN_START_ID`
abbrev pub txn_start_id : ℕ
txn_start_id = 4611686018427387904

abbrev pub new_manager : List (ℕ × Transaction) → TransactionManager
new_manager txns = record {
  next_txn_id = txn_start_id;
  txn_map = txns;
  last_commit_ts = 0;
  running_txns = new_watermark 0;
}

-- The transaction that `Begin` makes.
abbrev pub begun : TransactionManager → IsolationLevel → Transaction
begun m level = record {
  txn_id = m.next_txn_id;
  isolation_level = level;
  read_ts = m.last_commit_ts;
}

-- The end of `Begin`: an exception of the watermark leaves the new transaction in the map.
unfoldable pub register :
    Transaction → TransactionManager → Result Watermark → Result Transaction × TransactionManager
register txn m (err e) = (err e, m)
register txn m (ok running) = (ok txn, record m { running_txns = running })

unfoldable pub begin :
    ℕ → IsolationLevel → TransactionManager → Result Transaction × TransactionManager
unfolding find add_txn register
begin rounds level m =
    let counted = record m { next_txn_id = suc m.next_txn_id } in
    elim (find ◌==◌ m.txn_map m.next_txn_id) [
      | some _ ↦ (err runtime, counted)
      | none ↦
          register (begun m level)
            (record counted { txn_map = (m.next_txn_id, begun m level) ∷ m.txn_map })
            (add_txn rounds m.last_commit_ts m.running_txns)
    ]

unfoldable pub watermark_of : TransactionManager → ℕ
unfolding get_watermark
watermark_of m = get_watermark m.running_txns

-- `Commit` and `Abort` leave the transaction among those that run.
unfoldable pub commit : Transaction → TransactionManager → Bool × TransactionManager
commit txn m = (true, m)

unfoldable pub abort : Transaction → TransactionManager → TransactionManager
abort txn m = m
