-- ===== src/Tests/Insertion.antt =====
-- Two rows of a value list put in a new table.
use gavin_db.Prelude.{
  ℕ, ◌+◌, ◌%◌, ◌^◌, ◌≡◌, refl, List, [], ◌∷◌, ◌++◌, length, none, some, ok, map, false, arith,
}
use gavin_db.Serializer.Reader.{le_bytes}
use gavin_db.Serializer.RoundTrip.{Every}
use gavin_db.Table.Tuple.{print_tuple}
use gavin_db.Table.Heap.{zero_page}
use gavin_db.Table.Heap.Contents.{all_rows}
use gavin_db.Table.Heap.Opening.{open_heap-HeapHolds}
use gavin_db.Table.Heap.Rooms.{IsSmall}
use gavin_db.Query.Plans.{Expression, constant_value}
use gavin_db.Query.Inserts.{count_schema}
use gavin_db.Query.Planner.{for_each}
use gavin_db.Query.Executors.{row_tuple, at_row}
use gavin_db.Query.Insertion.{InsertExecutor, insert_next, count_value}
use gavin_db.Query.Insertion.Rows.{insert_next-scanned}
use gavin_db.Query.Scans.{scan_table}
use gavin_db.Query.Scans.Order.{tuples_of, Prints}

-- The numbers 7 and 300.
abbrev numbers : List (List Expression)
numbers = (constant_value (count_value 7) ∷ []) ∷ (constant_value (count_value 300) ∷ []) ∷ []

abbrev their_tuples : List (List ℕ)
their_tuples = (7 ∷ 0 ∷ 0 ∷ 0 ∷ []) ∷ (44 ∷ 1 ∷ 0 ∷ 0 ∷ []) ∷ []

numbers_made : for_each (row_tuple count_schema) numbers ≡ ok their_tuples
unfolding for_each row_tuple
numbers_made = refl

tuples-IsSmall : Every IsSmall their_tuples
unfolding Every
tuples-IsSmall = ((omega arith, omega arith), ((omega arith, omega arith), tt))

tuples-printed : Every (λ t. print_tuple t count_schema ≡ ok tt) their_tuples
unfolding Every print_tuple
tuples-printed = (refl, (refl, tt))

rows-printed :
    Every
      (Prints count_schema)
      (all_rows [] [] ++ map (λ t. (record { is_deleted = false }, t)) their_tuples)
unfolding Every print_tuple all_rows
rows-printed = (refl, (refl, tt))

insert_next-scanned_example :
    (after : InsertExecutor) × (insert_next 3 record {
      table = (open_heap-HeapHolds 0 0 (λ n. zero_page)).0;
      child_executor = at_row count_schema numbers 0;
      output_schema = count_schema;
      executed = false;
    }
      ≡ ok (some (le_bytes 4 (length their_tuples % 2 ^ 32), after)))
    × (insert_next 3 after ≡ ok none)
    × (scan_table count_schema (length (all_rows [] []) + length their_tuples + 1) after.table
        ≡ ok (tuples_of (all_rows [] []) ++ their_tuples))
insert_next-scanned_example =
    insert_next-scanned count_schema count_schema numbers their_tuples 3 0
      (open_heap-HeapHolds 0 0 (λ n. zero_page)).0 [] []
      (open_heap-HeapHolds 0 0 (λ n. zero_page)).2 numbers_made tuples-IsSmall tuples-printed
      rows-printed (omega arith) (omega arith)
