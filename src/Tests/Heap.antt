-- ===== src/Tests/Heap.antt =====
-- Tuples put in a new table and scanned.
use gavin_db.Prelude.{
  ℕ, ◌+◌, ◌≡◌, refl, sym, List, [], ◌∷◌, length, false, Result, ok, err, exception, arith, ◌>>=◌,
}
use gavin_db.Meta.Types.{integer}
use gavin_db.Meta.Columns.{Schema}
use gavin_db.Table.Page.{TupleMeta}
use mathlib.Core.Path.{subst}
use gavin_db.Serializer.RoundTrip.{Every}
use gavin_db.Table.Tuple.{print_tuple}
use gavin_db.Table.Heap.{Heap, zero_page, open_heap, insert_tuple}
use gavin_db.Table.Heap.Contents.{HeapHolds, all_rows}
use gavin_db.Table.Heap.Insertion.{Inserted, insert_tuple-Inserted}
use gavin_db.Table.Heap.Opening.{no_heap, open_heap-HeapHolds}
use gavin_db.Query.Scans.{scan_table}
use gavin_db.Query.Scans.Order.{tuples_of, Prints, scan_table-all_rows, scan_table-empty}

-- One INTEGER.
abbrev integer_schema : Schema
integer_schema = record {
  columns =
      record {
        column_name = [];
        column_type = integer;
        column_length = 4;
        storage_offset = 0;
        schema_offset = 0;
        is_auto_increment = false;
      }
      ∷ [];
  uninlined_columns = [];
  tuple_inline_part_storage_size = 4;
}

abbrev table : Heap
table = no_heap 0 0 (λ n. zero_page)

abbrev live_meta : TupleMeta
live_meta = record { is_deleted = false }

abbrev row : List ℕ
row = 1 ∷ 2 ∷ 3 ∷ 0 ∷ []

abbrev opened : Heap
opened = (open_heap-HeapHolds 0 0 (λ n. zero_page)).0

opened-HeapHolds : HeapHolds opened 1 [] []
opened-HeapHolds = (open_heap-HeapHolds 0 0 (λ n. zero_page)).2

-- Two tuples, put in the new table and scanned.
abbrev two_rows : Result (List (List ℕ))
two_rows = open_heap table >>= λ h. insert_tuple 2 live_meta row h >>= λ (_, one).
    insert_tuple 2 live_meta (4 ∷ 5 ∷ 0 ∷ 0 ∷ []) one >>= λ (_, two).
    scan_table integer_schema 3 two

two_rows_scanned : two_rows ≡ ok (row ∷ (4 ∷ 5 ∷ 0 ∷ 0 ∷ []) ∷ [])
unfolding open_heap insert_tuple scan_table
two_rows_scanned = refl

insert_tuple-Inserted_example : Inserted 2 opened 1 [] [] (live_meta, row)
insert_tuple-Inserted_example =
    insert_tuple-Inserted 0 opened 1 [] [] live_meta row opened-HeapHolds (omega arith, omega arith)

scan_table-empty_example : scan_table integer_schema 1 opened ≡ err exception
scan_table-empty_example = scan_table-empty integer_schema 0 opened opened-HeapHolds

abbrev with_row : Inserted 2 opened 1 [] [] (live_meta, row)
with_row =
    insert_tuple-Inserted 0 opened 1 [] [] live_meta row opened-HeapHolds (omega arith, omega arith)

with_row-printed : Every (Prints integer_schema) (all_rows with_row.2 with_row.3)
unfolding Every print_tuple all_rows
with_row-printed = subst (Every (Prints integer_schema)) (sym with_row.7) (refl, tt)

scan_table-all_rows_example :
    scan_table integer_schema (length (all_rows with_row.2 with_row.3) + 1) with_row.1
    ≡ ok (tuples_of (all_rows with_row.2 with_row.3))
scan_table-all_rows_example =
    scan_table-all_rows integer_schema 0 with_row.1 with_row.2 with_row.3 with_row.5
      with_row-printed with_row.6
