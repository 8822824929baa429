-- ===== src/Query/Insertion.antt =====
-- The executor that inserts the rows of a value list into a table (src/query/executors/insert_executor.cpp).
pub mod Rows
use gavin_db.Prelude.{
  ℕ, zero, suc, ◌+◌, ◌%◌, ◌^◌, true, false, Bool, List, [], ◌∷◌, Option, none, some, Result, ok,
  err, out_of_fuel, ◌>>=◌, ◌>>◌,
}
use gavin_db.Meta.Types.{integer}
use gavin_db.Meta.Values.{Value, int32}
use gavin_db.Meta.Columns.{Schema}
use gavin_db.Table.Page.{TupleMeta}
use gavin_db.Table.Heap.{Heap, open_heap, insert_tuple}
use gavin_db.Table.Tuple.{Tuple, make_tuple, print_tuple}
use gavin_db.Query.Executors.{ValuesExecutor, next}

-- The table's heap, the executor of the rows, and the schema of the tuple that counts them.
pub record InsertExecutor : Type 0 where
  pub table : Heap
  pub child_executor : ValuesExecutor
  pub output_schema : Schema
  pub executed : Bool

-- The loop of `Next`, with the number of rows so far; the trace prints each tuple before it is inserted, and the executor counts each tuple in the table's meta data once more.
unfoldable pub insert_rows : ℕ → ValuesExecutor → ℕ → Heap → Result (ℕ × Heap)
unfolding next insert_tuple print_tuple
insert_rows zero child changed_row_count h = err out_of_fuel
insert_rows (suc rounds) child changed_row_count h = next child >>= λ found. elim found [
  | none ↦ ok (changed_row_count, h)
  | some (t, rest) ↦
      print_tuple t child.output_schema
      >> (insert_tuple 2 (record { is_deleted = false }) t h >>= λ (_, after).
          insert_rows rounds rest ((changed_row_count + 1) % 2 ^ 32)
            (record after { tuple_count = (after.tuple_count + 1) % 2 ^ 64 }))
]

-- `Value(TypeId::INTEGER, changed_row_count)`
abbrev pub count_value : ℕ → Value
count_value n = record { type_id = integer; value = int32 n; is_null = false }

-- `Next`, in rounds of its loop: the tuple and the executor afterwards, with its table as it is then. Its child, which is
-- not asked again, is left as it was.
unfoldable pub insert_next : ℕ → InsertExecutor → Result (Option (Tuple × InsertExecutor))
unfolding insert_rows open_heap make_tuple
insert_next rounds ex = elim (ex.executed) [
  | true ↦ ok none
  | false ↦ open_heap ex.table >>= λ opened.
      insert_rows rounds ex.child_executor 0 opened >>= λ (changed_row_count, after).
      make_tuple (count_value changed_row_count ∷ []) ex.output_schema >>= λ tuple.
      ok (some (tuple, record ex { table = after; executed = true }))
]
