-- ===== src/Query/Scans/Order.antt =====
-- A scan of a table gives its tuples in the order in which they were inserted (Scans).
use gavin_db.Prelude.{
  ℕ, suc, ◌+◌, ◌^◌, ◌<◌, ◌≡◌, refl, sym, ap, ◌∙◌, List, [], ◌∷◌, ◌++◌, map, length, length-append,
  append_assoc, append-nil, get_elem?, some, Result, ok, err, exception, arith, ◌>>=◌, ◌>>◌, ◌⊎◌,
  inl, inr,
}
use gavin_db.Prelude.Int.{pos, negsuc}
use mathlib.Core.Path.{subst}
use gavin_db.Serializer.RoundTrip.{Every}
use gavin_db.Meta.Columns.{Schema}
use gavin_db.Table.Page
use gavin_db.Table.Page.{TablePage, slot_end_offset}
use gavin_db.Table.Page.Insert.{IsWellFormed}
use gavin_db.Table.Tuple.{Tuple, print_tuple}
use gavin_db.Table.Heap.{Heap, get_tuple, open_heap}
use gavin_db.Table.Heap.Contents.{
  Row, PageHolds, Linked, Linked-below, PagesHold, HeapHolds, heap_at, all_rows,
}
use gavin_db.Table.Iterator.{TableIterator, make_iterator, advance}
use gavin_db.Table.Iterator.Steps.{iterator_at, advance-slot, advance-page, advance-end}
use gavin_db.Query.Executors.{poll, collect}
use gavin_db.Query.Scans.{SeqScanExecutor, seq_scan, scan_next, scan_table}

abbrev pub tuples_of : List Row → List Tuple
tuples_of rows = map (λ (_, tuple). tuple) rows

abbrev scan_at : Schema → Heap → TableIterator → SeqScanExecutor
scan_at schema h it = record { table_heap = h; table_iter = it; output_schema = schema }

-- The row's tuple can be printed under a schema.
abbrev pub Prints : Schema → Row → Type 0
Prints schema (_, tuple) = print_tuple tuple schema ≡ ok tt

-- A slot of a page: its tuple is given, and the rest of the scan follows.
poll-slot :
    (schema : Schema) (rounds q d count : ℕ) (pages : ℕ → TablePage) (p i stop : ℕ) (row : Row)
    (it : TableIterator)
    → Page.get_tuple i (pages p) ≡ ok row
    → Prints schema row
    → advance (heap_at q d count pages) (iterator_at (pos p) i q stop) ≡ ok it
    → poll scan_next
        (suc rounds)
        (scan_at schema (heap_at q d count pages) (iterator_at (pos p) i q stop))
      ≡ (poll scan_next rounds (scan_at schema (heap_at q d count pages) it) >>= λ tuples.
          ok (row.1 ∷ tuples))
unfolding poll scan_next collect get_tuple
poll-slot schema rounds q d count pages p i stop row it found prints next = rw (found, prints, next)

element-behind :
    (done : List Row) (row : Row) (rest : List Row)
    → get_elem? (done ++ row ∷ rest) (length done) ≡ some row
element-behind [] row rest = refl
element-behind (x ∷ done) row rest = element-behind done row rest

few_tuples : (page : TablePage) → IsWellFormed page → page.num_tuples < 2 ^ 32
unfolding IsWellFormed
few_tuples page (slots, end, tuples) = omega arith

few_in : (page : TablePage) (rows : List Row) → PageHolds page rows → page.num_tuples < 2 ^ 32
unfolding PageHolds
few_in page rows (formed, counted, stored) = few_tuples page formed

appended_behind :
    (r : Result (List Tuple)) (first : Tuple) (more : List Tuple)
    → ((r >>= λ tuples. ok (more ++ tuples)) >>= λ tuples. ok (first ∷ tuples))
      ≡ (r >>= λ tuples. ok (first ∷ (more ++ tuples)))
appended_behind (ok tuples) first more = refl
appended_behind (err e) first more = refl

-- The slots of a page from one on, and then what is behind the page.
poll-page :
    (schema : Schema) (rounds q d count : ℕ) (pages : ℕ → TablePage) (p stop : ℕ) (done : List Row)
    (row : Row) (rest : List Row) (behind : TableIterator)
    → PageHolds (pages p) (done ++ row ∷ rest)
    → Every (Prints schema) (row ∷ rest)
    → (p < q) ⊎ ((p ≡ q) × ((pages p).num_tuples ≡ stop))
    → ((i : ℕ)
        → i + 1 ≡ (pages p).num_tuples
        → advance (heap_at q d count pages) (iterator_at (pos p) i q stop) ≡ ok behind)
    → poll scan_next
        (length (row ∷ rest) + rounds)
        (scan_at schema (heap_at q d count pages) (iterator_at (pos p) (length done) q stop))
      ≡ (poll scan_next rounds (scan_at schema (heap_at q d count pages) behind) >>= λ tuples.
          ok (tuples_of (row ∷ rest) ++ tuples))
unfolding PageHolds Every
poll-page schema rounds q d count pages p stop done row [] behind (formed, counted, stored)
      (prints, _) where_to last =
    ap
      (λ n.
        poll scan_next n
          (scan_at schema (heap_at q d count pages) (iterator_at (pos p) (length done) q stop)))
      (omega arith)
    ∙ poll-slot schema rounds q d count pages p (length done) stop row behind
        (stored (length done) row (element-behind done row [])) prints
        (last (length done) (omega (arith, counted, length-append done (row ∷ []))))
poll-page schema rounds q d count pages p stop done row (second ∷ rest) behind
      (formed, counted, stored) (prints, more) where_to last =
    let longer : (done ++ row ∷ []) ++ second ∷ rest ≡ done ++ row ∷ second ∷ rest =
      append_assoc done (row ∷ []) (second ∷ rest) in
    ap
      (λ n.
        poll scan_next n
          (scan_at schema (heap_at q d count pages) (iterator_at (pos p) (length done) q stop)))
      (omega arith)
    ∙ poll-slot schema (length (second ∷ rest) + rounds) q d count pages p (length done) stop row
        (iterator_at (pos p) (length done + 1) q stop)
        (stored (length done) row (element-behind done row (second ∷ rest))) prints
        (advance-slot q d count pages p (length done) stop where_to
          (omega (arith, counted, length-append done (row ∷ second ∷ rest)))
          (few_tuples (pages p) formed))
    ∙ ap (λ r. r >>= λ tuples. ok (row.1 ∷ tuples))
        (ap
            (λ n.
              poll scan_next (length (second ∷ rest) + rounds)
                (scan_at schema (heap_at q d count pages) (iterator_at (pos p) n q stop)))
            (omega (arith, length-append done (row ∷ [])))
          ∙ poll-page schema rounds q d count pages p stop (done ++ row ∷ []) second rest behind
              (subst (PageHolds (pages p)) (sym longer) (formed, counted, stored)) more where_to
              last)
    ∙ appended_behind (poll scan_next rounds (scan_at schema (heap_at q d count pages) behind))
        row.1 (tuples_of (second ∷ rest))

-- A page from its first slot on.
poll-rows_of_page :
    (schema : Schema) (rounds q d count : ℕ) (pages : ℕ → TablePage) (p stop : ℕ) (rows : List Row)
    (behind : TableIterator)
    → PageHolds (pages p) rows
    → Every (Prints schema) rows
    → 0 < length rows
    → (p < q) ⊎ ((p ≡ q) × ((pages p).num_tuples ≡ stop))
    → ((i : ℕ)
        → i + 1 ≡ (pages p).num_tuples
        → advance (heap_at q d count pages) (iterator_at (pos p) i q stop) ≡ ok behind)
    → poll scan_next
        (length rows + rounds)
        (scan_at schema (heap_at q d count pages) (iterator_at (pos p) 0 q stop))
      ≡ (poll scan_next rounds (scan_at schema (heap_at q d count pages) behind) >>= λ tuples.
          ok (tuples_of rows ++ tuples))
poll-rows_of_page schema rounds q d count pages p stop [] behind holds prints some_rows where_to
      last =
    absurd (omega arith)
poll-rows_of_page schema rounds q d count pages p stop (row ∷ rest) behind holds prints some_rows
      where_to last =
    poll-page schema rounds q d count pages p stop [] row rest behind holds prints where_to last

tuples_of-append : (a b : List Row) → tuples_of (a ++ b) ≡ tuples_of a ++ tuples_of b
tuples_of-append [] b = refl
tuples_of-append (x ∷ a) b = ap (λ r. x.1 ∷ r) (tuples_of-append a b)

Every-append : (P : Row → Type 0) (a b : List Row) → Every P (a ++ b) → Every P a × Every P b
unfolding Every
Every-append P [] b h = (tt, h)
Every-append P (x ∷ a) b (here, h) =
    let (first, second) = Every-append P a b h in ((here, first), second)

-- The pages from one on, to the end.
poll-pages :
    (schema : Schema) (rounds q d count : ℕ) (pages : ℕ → TablePage) (p : ℕ)
    (full : List (List Row)) (rows : List Row)
    → Linked pages p full q
    → PageHolds (pages q) rows
    → Every (Prints schema) (all_rows full rows)
    → 0 < length rows
    → poll scan_next
        (length (all_rows full rows) + suc rounds)
        (scan_at schema (heap_at q d count pages) (iterator_at (pos p) 0 q (pages q).num_tuples))
      ≡ ok (tuples_of (all_rows full rows))
unfolding Linked all_rows poll scan_next collect
poll-pages schema rounds q d count pages p [] rows same holds prints some_rows =
    let stop : ℕ = (pages q).num_tuples in
    ap
      (λ n.
        poll scan_next (length rows + suc rounds)
          (scan_at schema (heap_at q d count pages) (iterator_at (pos n) 0 q stop)))
      same
    ∙ poll-rows_of_page schema (suc rounds) q d count pages q stop rows
        (iterator_at (negsuc 0) 0 q stop) holds prints some_rows (inr (refl, refl))
        (λ i last. advance-end q d count pages i stop last (few_in (pages q) rows holds))
    ∙ ap ok (append-nil (tuples_of rows))
poll-pages schema rounds q d count pages p (first ∷ full) rows
      (held, some_first, (next, link, above, rest)) holds prints some_rows =
    let (here, later) = Every-append (Prints schema) first (all_rows full rows) prints in
    let stop : ℕ = (pages q).num_tuples in
    ap
      (λ n.
        poll scan_next n (scan_at schema (heap_at q d count pages) (iterator_at (pos p) 0 q stop)))
      (omega (arith, length-append first (all_rows full rows)))
    ∙ poll-rows_of_page schema (length (all_rows full rows) + suc rounds) q d count pages p stop
        first (iterator_at (pos next) 0 q stop) held here some_first
        (inl (omega (arith, Linked-below pages next q full rest)))
        (λ i last.
          advance-page q d count pages p i stop next
            (omega (arith, Linked-below pages next q full rest)) last (few_in (pages p) first held)
            link)
    ∙ ap (λ r. r >>= λ tuples. ok (tuples_of first ++ tuples))
        (poll-pages schema rounds q d count pages next full rows rest holds later some_rows)
    ∙ ap ok (sym (tuples_of-append first (all_rows full rows)))

-- A table heap that holds rows on pages that begin at page 1, with at least one on the last, is scanned in as many rounds
-- as it holds rows and one more, if each of its tuples can be printed under the scan's schema: the tuples of all its rows are given, in their order.
pub scan_table-all_rows :
    (schema : Schema) (rounds : ℕ) (h : Heap) (full : List (List Row)) (rows : List Row)
    → HeapHolds h 1 full rows
    → Every (Prints schema) (all_rows full rows)
    → 0 < length rows
    → scan_table schema (length (all_rows full rows) + suc rounds) h
      ≡ ok (tuples_of (all_rows full rows))
unfolding HeapHolds PagesHold scan_table seq_scan open_heap make_iterator
scan_table-all_rows schema rounds h full rows
      (q, d, count, pages, same, below, (linked, holds, end)) prints some_rows =
    ap (scan_table schema (length (all_rows full rows) + suc rounds)) same
    ∙ poll-pages schema rounds q d count pages 1 full rows linked holds prints some_rows

no_slots : (page : TablePage) → page.num_tuples ≡ 0 → Page.get_tuple 0 page ≡ err exception
unfolding Page.get_tuple
no_slots page none_held = rw (none_held, Page.get_tuple)

-- A scan of a table heap whose one page, page 1, holds no rows ends with an exception.
pub scan_table-empty :
    (schema : Schema) (rounds : ℕ) (h : Heap)
    → HeapHolds h 1 [] []
    → scan_table schema (suc rounds) h ≡ err exception
unfolding HeapHolds PagesHold Linked PageHolds scan_table seq_scan open_heap make_iterator poll
    scan_next collect get_tuple Page.get_tuple
scan_table-empty schema rounds h
      (q, d, count, pages, same, below, (linked, (formed, none_held, stored), end)) =
    ap (scan_table schema (suc rounds)) same
    ∙ ap
        (λ (r : Result Row).
          r
          >>= (λ (_, tuple).
              print_tuple tuple schema
              >> (advance (heap_at q d count pages) (iterator_at (pos 1) 0 q (pages q).num_tuples)
                  >>= λ it. ok (some (tuple, scan_at schema (heap_at q d count pages) it))))
          >>= collect (poll scan_next rounds))
        (no_slots (pages 1) (ap (λ n. (pages n).num_tuples) linked ∙ none_held))
