-- ===== src/Query/Insertion/Rows.antt =====
-- The rows of an INSERT are behind the table's rows in a scan (Insertion).
use gavin_db.Prelude.{
  ℕ, zero, suc, ◌+◌, ◌%◌, ◌^◌, ◌<◌, ◌≡◌, refl, sym, ap, ◌∙◌, List, [], ◌∷◌, ◌++◌, map, length,
  length-append, append_assoc, append-nil, none, some, Result, ok, arith, ◌>>=◌, >>=-returned,
  ok-injective, false, true,
}
use mathlib.Core.Path.{subst}
use gavin_db.Serializer.Reader.{le_bytes}
use gavin_db.Serializer.RoundTrip.{Every}
use gavin_db.Meta.Columns.{Schema}
use gavin_db.Table.Tuple.{Tuple, make_tuple, print_tuple}
use gavin_db.Table.Heap.{Heap, open_heap}
use gavin_db.Table.Heap.Contents.{Row, HeapHolds, all_rows}
use gavin_db.Table.Heap.Rooms.{IsSmall}
use gavin_db.Table.Heap.Insertion.{Inserted, insert_tuple-Inserted}
use gavin_db.Query.Plans.{Expression}
use gavin_db.Query.Planner.{for_each}
use gavin_db.Query.Executors.{row_tuple, next-row, next-end, at_row}
use gavin_db.Query.Insertion.{InsertExecutor, insert_rows, insert_next, count_value}
use gavin_db.Query.Inserts.{count_schema}
use gavin_db.Query.Scans.{scan_table}
use gavin_db.Query.Scans.Order.{tuples_of, Prints, scan_table-all_rows}

abbrev live_row : Tuple → Row
live_row tuple = (record { is_deleted = false }, tuple)

-- The rows of a heap and of the tuples that were inserted behind them.
abbrev Extended : Heap → ℕ → List (List Row) → List Row → List Tuple → Type 0
Extended after first full old tuples =
    (full_after : List (List Row)) × (rows_after : List Row) × HeapHolds after first full_after
      rows_after
    × (0 < length old + length tuples → 0 < length rows_after)
    × (all_rows full_after rows_after ≡ all_rows full old ++ map live_row tuples)

abbrev counted : Heap → ℕ → Heap
counted h count = record h { tuple_count = count }

counted-HeapHolds :
    (h : Heap) (count first : ℕ) (full : List (List Row)) (rows : List Row)
    → HeapHolds h first full rows
    → HeapHolds (counted h count) first full rows
unfolding HeapHolds
counted-HeapHolds h count first full rows (q, d, old_count, pages, same, below, held) =
    (q, d, count, pages, ap (λ (heap : Heap). counted heap count) same, below, held)

count_tuple : (n : ℕ) → make_tuple (count_value n ∷ []) count_schema ≡ ok (le_bytes 4 n)
unfolding make_tuple
count_tuple n = refl

-- The loop of the insertion from a row on.
abbrev InsertedFrom :
    Schema
    → List (List Expression)
    → List (List Expression)
    → List Tuple
    → ℕ
    → ℕ
    → Heap
    → ℕ
    → List (List Row)
    → List Row
    → Type 0
InsertedFrom schema done rest tuples rounds changed h first full old =
    (after : Heap) × (insert_rows rounds (at_row schema (done ++ rest) (length done)) changed h
      ≡ ok ((changed + length tuples) % 2 ^ 32, after))
    × Extended after first full old tuples

-- A row and then the others, where its tuple is inserted.
inserted_row :
    (schema : Schema) (done : List (List Expression)) (row : List Expression)
    (rest : List (List Expression)) (tuple : Tuple) (tuples : List Tuple) (rounds changed : ℕ)
    (h : Heap) (first : ℕ) (full : List (List Row)) (old : List Row)
    → row_tuple schema row ≡ ok tuple
    → print_tuple tuple schema ≡ ok tt
    → changed < 2 ^ 32
    → (inserted : Inserted 2 h first full old (live_row tuple))
    → InsertedFrom schema
        (done ++ row ∷ [])
        rest
        tuples
        rounds
        ((changed + 1) % 2 ^ 32)
        (counted inserted.1 ((inserted.1.tuple_count + 1) % 2 ^ 64))
        first
        inserted.2
        inserted.3
    → InsertedFrom schema done (row ∷ rest) (tuple ∷ tuples) (suc rounds) changed h first full old
unfolding insert_rows
inserted_row schema done row rest tuple tuples rounds changed h first full old made prints few
      (rid, after, full_after, rows_after, put, holds, some_after, appended, stored)
      (last, others, (full_last, rows_last, last_holds, some_last, last_rows)) =
    (
      last,
      rw (next-row schema done row rest, made, prints, put, insert_rows)
          (ap
              (λ rows.
                insert_rows rounds (at_row schema rows (suc (length done))) ((changed + 1) % 2 ^ 32)
                  (counted after ((after.tuple_count + 1) % 2 ^ 64)))
              (sym (append_assoc done (row ∷ []) rest))
            ∙ ap
                (λ n.
                  insert_rows rounds (at_row schema ((done ++ row ∷ []) ++ rest) n)
                    ((changed + 1) % 2 ^ 32) (counted after ((after.tuple_count + 1) % 2 ^ 64)))
                (omega (arith, length-append done (row ∷ [])))
            ∙ others
            ∙ ap (λ n. ok (n, last)) (omega arith)),
      (
        full_last,
        rows_last,
        last_holds,
        λ some_rows. some_last (omega arith),
        last_rows
            ∙ ap (λ rows. rows ++ map live_row tuples) appended
            ∙ append_assoc (all_rows full old) (live_row tuple ∷ []) (map live_row tuples),
      ),
    )

insert_rows-from :
    (schema : Schema) (done rest : List (List Expression)) (tuples : List Tuple)
    (rounds changed : ℕ) (h : Heap) (first : ℕ) (full : List (List Row)) (old : List Row)
    → for_each (row_tuple schema) rest ≡ ok tuples
    → Every IsSmall tuples
    → Every (λ t. print_tuple t schema ≡ ok tt) tuples
    → length rest < rounds
    → changed < 2 ^ 32
    → HeapHolds h first full old
    → InsertedFrom schema done rest tuples rounds changed h first full old
unfolding for_each Every insert_rows
insert_rows-from schema done rest tuples zero changed h first full old made small prints enough few
      holds =
    absurd (omega arith)
insert_rows-from schema done [] tuples (suc rounds) changed h first full old made small prints
      enough few holds =
    subst (λ ts. InsertedFrom schema done [] ts (suc rounds) changed h first full old)
      (ok-injective made)
      (
        h,
        rw (next-end schema done, insert_rows) (ap (λ n. ok (n, h)) (omega arith)),
        (
          full,
          old,
          holds,
          λ some_old. omega (arith, some_old),
          sym (append-nil (all_rows full old)),
        ),
      )
insert_rows-from schema done (row ∷ rest) tuples (suc rounds) changed h first full old made small
      prints enough few holds =
    let (tuple, made_row, others) =
      >>=-returned (row_tuple schema row)
        (λ t. for_each (row_tuple schema) rest >>= λ ts. ok (t ∷ ts)) tuples made in
    let (more, made_rest, same) =
      >>=-returned (for_each (row_tuple schema) rest) (λ ts. ok (tuple ∷ ts)) tuples others in
    let smalls : IsSmall tuple × Every IsSmall more =
      subst (Every IsSmall) (sym (ok-injective same)) small in
    let printed : (print_tuple tuple schema ≡ ok tt)
        × Every (λ t. print_tuple t schema ≡ ok tt) more =
      subst (Every (λ t. print_tuple t schema ≡ ok tt)) (sym (ok-injective same)) prints in
    let inserted : Inserted 2 h first full old (live_row tuple) =
      insert_tuple-Inserted 0 h first full old (record { is_deleted = false }) tuple holds
        smalls.0 in
    let count : ℕ = (inserted.1.tuple_count + 1) % 2 ^ 64 in
    subst (λ ts. InsertedFrom schema done (row ∷ rest) ts (suc rounds) changed h first full old)
      (ok-injective same)
      (inserted_row schema done row rest tuple more rounds changed h first full old made_row
        printed.0 few inserted
        (insert_rows-from schema (done ++ row ∷ []) rest more rounds ((changed + 1) % 2 ^ 32)
          (counted inserted.1 count) first inserted.2 inserted.3 made_rest smalls.1 printed.1
          (omega arith) (omega arith)
          (counted-HeapHolds inserted.1 count first inserted.2 inserted.3 inserted.5)))

open-kept :
    (h : Heap) (first : ℕ) (full : List (List Row)) (rows : List Row)
    → HeapHolds h first full rows
    → open_heap h ≡ ok h
unfolding HeapHolds open_heap
open-kept h first full rows (q, d, count, pages, same, below, held) =
    ap open_heap same ∙ ap ok (sym same)

from_zero : (n : ℕ) → (0 + n) % 2 ^ 32 ≡ n % 2 ^ 32
from_zero n = omega arith

length-live : (tuples : List Tuple) → length (map live_row tuples) ≡ length tuples
length-live [] = refl
length-live (t ∷ tuples) = omega (arith, length-live tuples)

tuples_of-live : (tuples : List Tuple) → tuples_of (map live_row tuples) ≡ tuples
tuples_of-live [] = refl
tuples_of-live (t ∷ tuples) = ap (λ ts. t ∷ ts) (tuples_of-live tuples)

tuples_of-more :
    (rows : List Row) (tuples : List Tuple)
    → tuples_of (rows ++ map live_row tuples) ≡ tuples_of rows ++ tuples
tuples_of-more [] tuples = tuples_of-live tuples
tuples_of-more (row ∷ rows) tuples = ap (λ ts. row.1 ∷ ts) (tuples_of-more rows tuples)

abbrev inserted_executor : Schema → List (List Expression) → Heap → InsertExecutor
inserted_executor schema rows after = record {
  table = after;
  child_executor = at_row schema rows 0;
  output_schema = count_schema;
  executed = true;
}

-- An INSERT of the rows of a value list, at least one, each of which has a tuple that is not empty and that an empty page
-- has room for, into a table whose rows begin on page 1, where each tuple can be printed under the schema of the value list,
-- and each of them and of the table's under that of the scan: the executor gives the number of the rows once, in as many rounds
-- as there are rows and one more, and a scan of the table then gives the tuples that it gave before and after them
-- those of the rows, in their order.
pub insert_next-scanned :
    (schema scanned : Schema) (rows : List (List Expression)) (tuples : List Tuple)
    (rounds more : ℕ) (h : Heap) (full : List (List Row)) (old : List Row)
    → HeapHolds h 1 full old
    → for_each (row_tuple schema) rows ≡ ok tuples
    → Every IsSmall tuples
    → Every (λ t. print_tuple t schema ≡ ok tt) tuples
    → Every (Prints scanned) (all_rows full old ++ map live_row tuples)
    → 0 < length tuples
    → length rows < rounds
    → (after : InsertExecutor) × (insert_next rounds record {
      table = h;
      child_executor = at_row schema rows 0;
      output_schema = count_schema;
      executed = false;
    }
        ≡ ok (some (le_bytes 4 (length tuples % 2 ^ 32), after)))
      × (insert_next rounds after ≡ ok none)
      × (scan_table scanned (length (all_rows full old) + length tuples + suc more) after.table
          ≡ ok (tuples_of (all_rows full old) ++ tuples))
unfolding insert_next
insert_next-scanned schema scanned rows tuples rounds more h full old holds made small prints
      print_all some_rows enough =
    let (after, inserted, (full_after, rows_after, holds_after, some_after, rows_are)) =
      insert_rows-from schema [] rows tuples rounds 0 h 1 full old made small prints enough
        (omega arith) holds in
    (
      inserted_executor schema rows after,
      rw
          (
            open-kept h 1 full old holds,
            inserted ∙ ap (λ n. ok (n, after)) (from_zero (length tuples)),
            insert_next,
          )
          (ap
            (λ (r : Result Tuple).
              r >>= λ tuple. ok (some (tuple, inserted_executor schema rows after)))
            (count_tuple (length tuples % 2 ^ 32))),
      refl,
      ap (λ n. scan_table scanned (n + suc more) after)
            (omega (
              arith,
              ap length rows_are,
              length-append (all_rows full old) (map live_row tuples),
              length-live tuples,
            ))
          ∙ scan_table-all_rows scanned more after full_after rows_after holds_after
              (subst (Every (Prints scanned)) (sym rows_are) print_all) (some_after (omega arith))
          ∙ ap (λ rs. ok (tuples_of rs)) rows_are
          ∙ ap ok (tuples_of-more (all_rows full old) tuples),
    )
