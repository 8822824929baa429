-- ===== src/Query/Scans.antt =====
-- The executor that scans a table (src/include/query/executors/seq_scan_executor.hpp,
-- src/query/executors/seq_scan_executor.cpp).
pub mod Order
use gavin_db.Prelude.{ℕ, List, true, false, Option, none, some, Result, ok, ◌>>=◌, ◌>>◌}
use gavin_db.Query.Executors.{poll}
use gavin_db.Meta.Columns.{Schema}
use gavin_db.Table.Heap.{Heap, open_heap, get_tuple}
use gavin_db.Table.Tuple.{Tuple, print_tuple}
use gavin_db.Table.Iterator.{TableIterator, make_iterator, is_end, advance}

pub record SeqScanExecutor : Type 0 where
  pub table_heap : Heap
  pub table_iter : TableIterator
  pub output_schema : Schema

-- The constructor, with the table's heap as it is before it is opened.
unfoldable pub seq_scan : Schema → Heap → Result SeqScanExecutor
unfolding open_heap make_iterator
seq_scan output_schema h = open_heap h >>= λ opened. make_iterator opened >>= λ it.
    ok record { table_heap = opened; table_iter = it; output_schema = output_schema }

-- `Next`, whose trace prints the tuple: a tuple and the executor behind it, or none at the end. What `GetTuple` of a heap returns is never none.
unfoldable pub scan_next : SeqScanExecutor → Result (Option (Tuple × SeqScanExecutor))
unfolding get_tuple advance print_tuple
scan_next ex = elim (is_end ex.table_iter) [
  | true ↦ ok none
  | false ↦ get_tuple ex.table_iter.rid ex.table_heap >>= λ (_, tuple).
      print_tuple tuple ex.output_schema
      >> (advance ex.table_heap ex.table_iter >>= λ it.
          ok (some (tuple, record ex { table_iter = it })))
]

-- The loop over the scan of a table.
unfoldable pub scan_table : Schema → ℕ → Heap → Result (List Tuple)
unfolding seq_scan poll scan_next
scan_table output_schema rounds h = seq_scan output_schema h >>= poll scan_next rounds
