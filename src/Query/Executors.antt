-- ===== src/Query/Executors.antt =====
-- The executor of a value list (src/query/executors/value_executor.cpp) and the loop that asks it for its
-- tuples (`PollExecutor` of src/include/query/execution_engine.hpp), which takes rounds.
use gavin_db.Prelude.{
  ℕ, zero, suc, ◌<◌, ◌≤◌, ◌≡◌, refl, ap, sym, ◌∙◌, true, false, ltb, lt→ltb, List, [], ◌∷◌, ◌++◌,
  length, length-append, append_assoc, Option, none, some, Result, ok, err, out_of_fuel, ◌>>=◌,
  arith,
}
use gavin_db.Meta.Columns.{Schema}
use gavin_db.Table.Tuple.{Tuple, make_tuple, element}
use gavin_db.Query.Plans.{Expression, get_const_value}
use gavin_db.Query.Planner.{for_each}

-- The tuple of a row.
unfoldable pub row_tuple : Schema → List Expression → Result Tuple
unfolding for_each get_const_value make_tuple
row_tuple schema row = for_each get_const_value row >>= λ values. make_tuple values schema

-- `ValuesExecutor`: the plan's schema and rows, and the cursor.
pub record ValuesExecutor : Type 0 where
  pub output_schema : Schema
  pub rows : List (List Expression)
  pub cursor : ℕ

-- `Next`: a tuple and the executor behind it, or none at the end.
unfoldable pub next : ValuesExecutor → Result (Option (Tuple × ValuesExecutor))
unfolding row_tuple
next ex = elim (ltb ex.cursor (length ex.rows)) [
  | false ↦ ok none
  | true ↦ element ex.rows ex.cursor >>= λ row. row_tuple ex.output_schema row >>= λ tuple.
      ok (some (tuple, record ex { cursor = suc ex.cursor }))
]

-- What the loop does with what `Next` gave, by what it does with the executor behind it.
unfoldable pub collect :
    {E : Type 0} → (E → Result (List Tuple)) → Option (Tuple × E) → Result (List Tuple)
collect loop none = ok []
collect loop (some (tuple, ex)) = loop ex >>= λ tuples. ok (tuple ∷ tuples)

-- The loop of `PollExecutor` over an executor with its `Next`.
unfoldable pub poll : {E : Type 0} → (E → Result (Option (Tuple × E))) → ℕ → E → Result (List Tuple)
unfolding collect
poll next_of zero ex = err out_of_fuel
poll next_of (suc rounds) ex = next_of ex >>= collect (poll next_of rounds)

abbrev pub at_row : Schema → List (List Expression) → ℕ → ValuesExecutor
at_row schema rows i = record { output_schema = schema; rows = rows; cursor = i }

element-append :
    (done : List (List Expression)) (row : List Expression) (rest : List (List Expression))
    → element (done ++ (row ∷ rest)) (length done) ≡ ok row
element-append [] row rest = refl
element-append (x ∷ done) row rest = element-append done row rest

not_below : (a b : ℕ) → b ≤ a → ltb a b ≡ false
not_below a b h = ground arith

pub next-end :
    (schema : Schema) (done : List (List Expression))
    → next (at_row schema (done ++ []) (length done)) ≡ ok none
unfolding next
next-end schema done =
    rw (not_below (length done) (length (done ++ [])) (omega (arith, length-append done [])), next)

pub next-row :
    (schema : Schema) (done : List (List Expression)) (row : List Expression)
    (rest : List (List Expression))
    → next (at_row schema (done ++ (row ∷ rest)) (length done)) ≡ (
        row_tuple schema row >>= λ tuple.
        ok (some (tuple, at_row schema (done ++ (row ∷ rest)) (suc (length done)))))
unfolding next
next-row schema done row rest =
    rw
      (
        lt→ltb (length done) (length (done ++ (row ∷ rest)))
            (omega (arith, length-append done (row ∷ rest))),
        next,
      )
      (ap
        (λ r. r >>= λ found. row_tuple schema found >>= λ tuple.
          ok (some (tuple, at_row schema (done ++ (row ∷ rest)) (suc (length done)))))
        (element-append done row rest))

-- A step of the loop, by the tuple of the row and the loop behind it.
collect-row :
    (schema : Schema) (done : List (List Expression)) (row : List Expression)
    (rest : List (List Expression)) (rounds : ℕ) (r : Result Tuple)
    → poll next rounds (at_row schema (done ++ (row ∷ rest)) (suc (length done)))
      ≡ for_each (row_tuple schema) rest
    → (r
        >>= (λ tuple. ok (some (tuple, at_row schema (done ++ (row ∷ rest)) (suc (length done)))))
        >>= collect (poll next rounds))
      ≡ (r >>= λ tuple. for_each (row_tuple schema) rest >>= λ tuples. ok (tuple ∷ tuples))
unfolding collect
collect-row schema done row rest rounds (err e) behind = refl
collect-row schema done row rest rounds (ok tuple) behind =
    ap (λ r. r >>= λ tuples. ok (tuple ∷ tuples)) behind

poll-from :
    (schema : Schema) (rest done : List (List Expression)) (rounds : ℕ)
    → length rest < rounds
    → poll next rounds (at_row schema (done ++ rest) (length done))
      ≡ for_each (row_tuple schema) rest
unfolding poll for_each
poll-from schema [] done zero h = absurd (omega arith)
poll-from schema (row ∷ rest) done zero h = absurd (omega arith)
poll-from schema [] done (suc rounds) h =
    ap (λ r. r >>= collect (poll next rounds)) (next-end schema done)
poll-from schema (row ∷ rest) done (suc rounds) h =
    ap (λ r. r >>= collect (poll next rounds)) (next-row schema done row rest)
    ∙ collect-row schema done row rest rounds (row_tuple schema row) (
        ap (λ rows. poll next rounds (at_row schema rows (suc (length done))))
          (sym (append_assoc done (row ∷ []) rest))
        ∙ ap (λ n. poll next rounds (at_row schema ((done ++ (row ∷ [])) ++ rest) n))
            (omega (arith, length-append done (row ∷ [])))
        ∙ poll-from schema rest (done ++ (row ∷ [])) rounds (omega arith))

-- The loop over a value list ends after as many rounds as there are rows and one more, with the tuples of the
-- rows in their order, or with the exception of the first row that has no tuple.
pub poll-rows :
    (schema : Schema) (rows : List (List Expression)) (rounds : ℕ)
    → length rows < rounds
    → poll next rounds (at_row schema rows 0) ≡ for_each (row_tuple schema) rows
poll-rows schema rows rounds h = poll-from schema rows [] rounds h
