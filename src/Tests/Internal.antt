-- ===== src/Tests/Internal.antt =====
-- Inner pages of an index on a TIMESTAMP column, with small pages.
use gavin_db.Prelude.{ℕ, ◌+◌, ◌*◌, ◌<◌, ◌≡◌, ◌≢◌, refl, ltb, if◌then◌else◌, arith, ok}
use gavin_db.Prelude.Int.{pos, negsuc}
use gavin_db.Btree.Comparator.{Comparator, timestamp_comparator}
use gavin_db.Btree.LowerBound.{lower_bound}
use gavin_db.Btree.Page.{internal_page}
use gavin_db.Btree.Internal.{
  InternalPage, Headers, value_at, value_index, insert_node_after, lookup, move_half_to,
}
use gavin_db.Btree.Internal.Routing.{IsInternal, Covers, lookup-Covers}
use gavin_db.Btree.Internal.Insert.{Routed, insert_node_after-Routed}
use gavin_db.Btree.Internal.Split.{
  left_half, right_half, risen_rank, inner_page_split, split_parents,
}

abbrev c : Comparator ℕ
c = timestamp_comparator

-- Child `100 + i` holds the keys from `10 * i` on.
abbrev node : ℕ → ℕ → InternalPage ℕ
node size max = record {
  base = record {
    page_type = internal_page;
    parent_page_id = negsuc 0;
    page_id = pos 1;
    size = size;
    max_size = max;
  };
  node_array = λ i. (10 * i, pos (100 + i));
}

node-IsInternal : (size max : ℕ) → 0 < size → size < 1000 → IsInternal c (node size max)
unfolding timestamp_comparator
node-IsInternal size max positive small = record {
  sorted = λ i j one lt le. omega arith;
  child = omega arith;
  word = omega arith;
}

Covers-17 : Covers c (node 3 4) 1 17
unfolding timestamp_comparator
Covers-17 = record { inside = omega arith; from = λ h. omega arith; below = λ h. omega arith }

lookup-Covers_example : lookup c 17 (node 3 4) ≡ pos 101
unfolding timestamp_comparator
lookup-Covers_example =
    lookup-Covers c 17 (node 3 4) (node-IsInternal 3 4 (omega arith) (omega arith)) 1 Covers-17

abbrev headers : Headers
headers number = (node 0 4).base

inner_page_split_example :
    ((key : ℕ)
      → lookup c key (node 5 4) ≡ (
          if ltb (c.rank key) (risen_rank c (node 5 4) (node 0 4) headers)
          then lookup c key (left_half c (node 5 4) (node 0 4) headers)
          else lookup c key (right_half c (node 5 4) (node 0 4) headers)))
    × IsInternal c (left_half c (node 5 4) (node 0 4) headers)
    × IsInternal c (right_half c (node 5 4) (node 0 4) headers)
    × ((left_half c (node 5 4) (node 0 4) headers).base.size
          + (right_half c (node 5 4) (node 0 4) headers).base.size
        ≡ 5)
inner_page_split_example =
    inner_page_split c (node 5 4) (node 0 4) headers
      (node-IsInternal 5 4 (omega arith) (omega arith)) refl refl (omega arith) refl

split_parents_example :
    ((i : ℕ)
      → i < (right_half c (node 5 4) (node 0 4) headers).base.size
      → value_at (right_half c (node 5 4) (node 0 4) headers) i ≡ pos 103
      → ((move_half_to (node 5 4) (node 0 4) headers).2 (pos 103)).parent_page_id ≡ pos 1)
    × (((i : ℕ)
          → i < (right_half c (node 5 4) (node 0 4) headers).base.size
          → value_at (right_half c (node 5 4) (node 0 4) headers) i ≢ pos 103)
        → (move_half_to (node 5 4) (node 0 4) headers).2 (pos 103) ≡ headers (pos 103))
split_parents_example =
    split_parents c (node 5 4) (node 0 4) headers (node-IsInternal 5 4 (omega arith) (omega arith))
      refl refl (omega arith) refl (pos 103)

index_101 : value_index (pos 101) (node 3 4) ≡ 1
unfolding value_index lower_bound
index_101 = refl

insert_node_after-Routed_example :
    (page' : InternalPage ℕ) × (insert_node_after (pos 101) 15 (pos 200) (node 3 4) ≡ ok page')
    × Routed c (pos 101) 15 (pos 200) (value_index (pos 101) (node 3 4)) (node 3 4) page'
unfolding timestamp_comparator value_index lower_bound
insert_node_after-Routed_example =
    insert_node_after-Routed c (pos 101) 15 (pos 200) (node 3 4)
      (node-IsInternal 3 4 (omega arith) (omega arith)) (omega arith) (omega arith)
      (λ h. omega arith) (λ h. omega arith)
