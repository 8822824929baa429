-- ===== src/Tests/Leaf.antt =====
-- Leaves of an index on a TIMESTAMP column, with small pages.
use gavin_db.Prelude.{ℕ, suc, ◌+◌, ◌<◌, ◌≡◌, refl, ltb, if◌then◌else◌, arith, ok}
use gavin_db.Prelude.Int.{pos, negsuc}
use gavin_db.Btree.Comparator.{Comparator, timestamp_comparator}
use gavin_db.Btree.Page.{leaf_page}
use gavin_db.Btree.Leaf.{LeafPage, key_at, insert, lookup}
use gavin_db.Btree.Leaf.Search.{IsSorted}
use gavin_db.Btree.Leaf.Insert.{IsLeaf, Inserted, insert-Inserted}
use gavin_db.Btree.Leaf.Split.{left_half, right_half, risen_rank, leaf_split}

abbrev c : Comparator ℕ
c = timestamp_comparator

-- Keys 10, 20, 30, … with the values 0, 1, 2, ….
abbrev tens : ℕ → ℕ → ℕ → LeafPage ℕ ℕ
tens size max first = record {
  base = record {
    page_type = leaf_page;
    parent_page_id = negsuc 0;
    page_id = pos 1;
    size = size;
    max_size = max;
  };
  next_page_id = negsuc 0;
  node_array = λ i. ((first + i) + (first + i) + 10, i);
}

tens-IsLeaf :
    (size max first : ℕ) → 0 < max → size < suc max → max < 1000 → IsLeaf c (tens size max first)
unfolding timestamp_comparator
tens-IsLeaf size max first positive bounded small = record {
  sorted = λ i j lt le. omega arith;
  positive = positive;
  bounded = omega arith;
  word = omega arith;
}

insert-Inserted_example :
    (page' : LeafPage ℕ ℕ) × (insert c 13 7 (tens 3 5 0) ≡ ok page')
    × Inserted c 13 7 (tens 3 5 0) page'
unfolding timestamp_comparator
insert-Inserted_example =
    insert-Inserted c 13 7 (tens 3 5 0)
      (tens-IsLeaf 3 5 0 (omega arith) (omega arith) (omega arith)) (omega arith) (λ h. omega arith)

abbrev blank : LeafPage ℕ ℕ
blank = tens 0 4 50

leaf_split_example :
    ((key : ℕ)
      → lookup c key (tens 4 4 0) ≡ (
          if ltb (c.rank key) (risen_rank c (tens 4 4 0) blank)
          then lookup c key (left_half c (tens 4 4 0) blank)
          else lookup c key (right_half c (tens 4 4 0) blank)))
    × IsSorted c (left_half c (tens 4 4 0) blank)
    × IsSorted c (right_half c (tens 4 4 0) blank)
    × ((left_half c (tens 4 4 0) blank).base.size + (right_half c (tens 4 4 0) blank).base.size ≡ 4)
    × (0 < (left_half c (tens 4 4 0) blank).base.size)
    × (0 < (right_half c (tens 4 4 0) blank).base.size)
    × (c.rank (key_at (left_half c (tens 4 4 0) blank) (left_half c (tens 4 4 0) blank).base.size)
        ≡ risen_rank c (tens 4 4 0) blank)
leaf_split_example =
    leaf_split c (tens 4 4 0) blank (tens-IsLeaf 4 4 0 (omega arith) (omega arith) (omega arith))
      refl refl (omega arith) refl
