-- ===== src/Table/Heap/Contents.antt =====
-- The tuples of a table heap (Heap): its pages are linked from the first one to the last.
use gavin_db.Prelude.{
  ℕ, ◌<◌, ◌≤◌, ◌≡◌, refl, sym, ap, ◌∙◌, List, [], ◌∷◌, ◌++◌, length, append_assoc, get_elem?, some,
  ok, arith,
}
use gavin_db.Prelude.Int.{pos, negsuc}
use mathlib.Core.Path.{subst}
use gavin_db.Table.Page.{TupleMeta, TablePage, header_size, tuple_info_size, slot_end_offset}
use gavin_db.Table.Page
use gavin_db.Table.Page.Insert.{IsWellFormed}
use gavin_db.Table.Heap.{Heap}

abbrev pub Row : Type 0
Row = TupleMeta × List ℕ

-- A page holds the rows, each in its slot.
unfoldable pub PageHolds : TablePage → List Row → Type 0
PageHolds page rows =
    IsWellFormed page
    × (page.num_tuples ≡ length rows)
    × ((i : ℕ) (row : Row) → get_elem? rows i ≡ some row → Page.get_tuple i page ≡ ok row)

-- The full pages, from one on up to the page behind them. The pages get higher numbers along the links.
unfoldable pub Linked : (ℕ → TablePage) → ℕ → List (List Row) → ℕ → Type 0
Linked pages p [] q = p ≡ q
Linked pages p (rows ∷ full) q =
    PageHolds (pages p) rows
    × (0 < length rows)
    × ((next : ℕ) × ((pages p).next_page_id ≡ pos next) × (p < next) × Linked pages next full q)

-- A heap with the last page of its tuples and the last page of the table's file.
abbrev pub heap_at : ℕ → ℕ → ℕ → (ℕ → TablePage) → Heap
heap_at q d count pages = record {
  last_table_data_page_id = pos d;
  last_table_heap_data_page_id = pos q;
  tuple_count = count;
  pages = pages;
}

-- The full pages from `first` on, and the rows of the last page.
unfoldable pub PagesHold : (ℕ → TablePage) → ℕ → ℕ → List (List Row) → List Row → Type 0
PagesHold pages first q full rows =
    Linked pages first full q × PageHolds (pages q) rows × ((pages q).next_page_id ≡ negsuc 0)

unfoldable pub HeapHolds : Heap → ℕ → List (List Row) → List Row → Type 0
unfolding PagesHold
HeapHolds h first full rows =
    (q : ℕ) × (d : ℕ) × (count : ℕ) × (pages : ℕ → TablePage) × (h ≡ heap_at q d count pages)
    × (q ≤ d)
    × PagesHold pages first q full rows

-- All the rows of the pages.
unfoldable pub all_rows : List (List Row) → List Row → List Row
all_rows [] last = last
all_rows (rows ∷ full) last = rows ++ all_rows full last

pub all_rows-append :
    (full : List (List Row)) (last more : List Row)
    → all_rows full (last ++ more) ≡ all_rows full last ++ more
unfolding all_rows
all_rows-append [] last more = refl
all_rows-append (rows ∷ full) last more =
    ap (λ r. rows ++ r) (all_rows-append full last more)
    ∙ sym (append_assoc rows (all_rows full last) more)

pub all_rows-next :
    (full : List (List Row)) (last more : List Row)
    → all_rows (full ++ last ∷ []) more ≡ all_rows full last ++ more
unfolding all_rows
all_rows-next [] last more = refl
all_rows-next (rows ∷ full) last more =
    ap (λ r. rows ++ r) (all_rows-next full last more)
    ∙ sym (append_assoc rows (all_rows full last) more)

pub Linked-below :
    (pages : ℕ → TablePage) (p q : ℕ) (full : List (List Row)) → Linked pages p full q → p ≤ q
unfolding Linked
Linked-below pages p q [] same = omega arith
Linked-below pages p q (rows ∷ full) (holds, some_rows, (next, link, above, rest)) =
    omega (arith, Linked-below pages next q full rest)

-- What lies from the last page on may change.
pub Linked-kept :
    (pages changed : ℕ → TablePage) (p q : ℕ) (full : List (List Row))
    → ((n : ℕ) → n < q → changed n ≡ pages n)
    → Linked pages p full q
    → Linked changed p full q
unfolding Linked
Linked-kept pages changed p q [] kept same = same
Linked-kept pages changed p q (rows ∷ full) kept (holds, some_rows, (next, link, above, rest)) =
    let same = sym (kept p (omega (arith, Linked-below pages next q full rest))) in
    (
      subst (λ page. PageHolds page rows) same holds,
      some_rows,
      (
        next,
        subst (λ page. page.next_page_id ≡ pos next) same link,
        above,
        Linked-kept pages changed next q full kept rest,
      ),
    )

-- The last page is linked to one behind it.
pub Linked-next :
    (pages : ℕ → TablePage) (p q next : ℕ) (full : List (List Row)) (rows : List Row)
    → Linked pages p full q
    → PageHolds (pages q) rows
    → 0 < length rows
    → (pages q).next_page_id ≡ pos next
    → q < next
    → Linked pages p (full ++ rows ∷ []) next
unfolding Linked
Linked-next pages p q next [] rows same holds some_rows link above =
    subst
      (λ n.
        PageHolds (pages n) rows
        × (0 < length rows)
        × ((m : ℕ) × ((pages n).next_page_id ≡ pos m) × (n < m) × (m ≡ next)))
      (sym same) (holds, some_rows, (next, link, above, refl))
Linked-next pages p q next (first ∷ full) rows (held, some_first, (n, to_n, above_p, rest)) holds
      some_rows link above =
    (
      held,
      some_first,
      (n, to_n, above_p, Linked-next pages n q next full rows rest holds some_rows link above),
    )
