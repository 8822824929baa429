-- ===== src/Query/Planner.antt =====
-- Planner (src/query/planner.cpp), a function for each method.
use gavin_db.Prelude.{
  ℕ, suc, ◌==◌, Bool, true, false, List, [], ◌∷◌, Result, ok, err, exception, not_implemented,
  bad_cast, undefined_behaviour, ◌>>=◌, ◌&&◌, if◌then◌else◌, ◌>>◌, guard,
}
use gavin_db.Meta.Types.{TypeId, integer, is_varchar, type_code}
use gavin_db.Meta.Columns.{Column, Schema, fixed_column, varlen_column, schema_of}
use gavin_db.Meta.Catalog.{Name, Catalog, get_table_by_name}
use gavin_db.Query.Statements.{
  BoundExpression, constant, column_ref, bound_star, binary_op, BoundTableRef, base_table,
  expression_list, empty_ref, other_ref, SelectStatement, InsertStatement, BoundStatement,
  select_statement, insert_statement, create_statement,
}
use gavin_db.Query.Plans.{
  Expression, constant_value, return_type, PlanNode, insert_plan, seq_scan_plan, values_plan,
  output_schema,
}

-- `for` over a vector whose body gives an element each time, or throws.
unfoldable pub for_each : {A B : Type 0} → (A → Result B) → List A → Result (List B)
for_each body [] = ok []
for_each body (x ∷ xs) = body x >>= λ y. for_each body xs >>= λ ys. ok (y ∷ ys)

unfoldable pub plan_expression : BoundExpression → Result Expression
plan_expression (constant val) = ok (constant_value val)
plan_expression (column_ref name) = err not_implemented
plan_expression bound_star = err not_implemented
plan_expression (binary_op op larg rarg) = err not_implemented

-- `VARCHAR_DEFAULT_LENGTH`
abbrev pub varchar_default_length : ℕ
varchar_default_length = 128

-- The name of the only column of an insertion's output: "inserted_rows".
abbrev pub inserted_rows : Name
inserted_rows = 105 ∷ 110 ∷ 115 ∷ 101 ∷ 114 ∷ 116 ∷ 101 ∷ 100 ∷ 95 ∷ 114 ∷ 111 ∷ 119 ∷ 115 ∷ []

-- The types of two lists of columns, one by one: `std::equal` in `TypeMatch`.
unfoldable pub types_match : List Column → List Column → Bool
unfolding type_code
types_match [] [] = true
types_match [] (_ ∷ _) = false
types_match (_ ∷ _) [] = false
types_match (a ∷ xs) (b ∷ ys) =
    type_code a.column_type == type_code b.column_type && types_match xs ys

unfoldable pub type_match : Schema → Schema → Bool
unfolding types_match
type_match a b = types_match a.columns b.columns

-- `fmt::format` of a number is a parameter: its digits.
module _ (digits : ℕ → Name) where
  -- "Temp Col" with the number behind it
  unfoldable pub temp_col_name : ℕ → Name
  temp_col_name i = 84 ∷ 101 ∷ 109 ∷ 112 ∷ 32 ∷ 67 ∷ 111 ∷ 108 ∷ digits i

  unfoldable pub temp_column : ℕ → TypeId → Result Column
  unfolding temp_col_name is_varchar fixed_column varlen_column
  temp_column i type =
      if is_varchar type
      then varlen_column (temp_col_name i) type varchar_default_length
      else fixed_column (temp_col_name i) type

  -- The columns of the first row, from the i-th on.
  unfoldable pub temp_columns : ℕ → List Expression → Result (List Column)
  unfolding temp_column return_type
  temp_columns i [] = ok []
  temp_columns i (e ∷ row) =
      temp_column i (return_type e) >>= λ col. temp_columns (suc i) row >>= λ cols. ok (col ∷ cols)

  -- The node of the rows, whose first gives the schema.
  unfoldable pub values_node : List (List Expression) → Result PlanNode
  unfolding temp_columns schema_of
  values_node [] = err undefined_behaviour
  values_node (row ∷ rows) = temp_columns 0 row >>= λ cols.
      schema_of cols >>= λ schema. ok (values_plan schema (row ∷ rows))

  unfoldable pub plan_expression_list_ref : List (List BoundExpression) → Result PlanNode
  unfolding for_each plan_expression values_node
  plan_expression_list_ref values =
      for_each (λ (row : List BoundExpression). for_each plan_expression row) values
      >>= λ all_exprs. values_node all_exprs

  unfoldable pub plan_table_ref : Catalog → BoundTableRef → Result PlanNode
  unfolding plan_expression_list_ref get_table_by_name schema_of
  plan_table_ref catalog (expression_list values) = plan_expression_list_ref values
  plan_table_ref catalog (base_table ref) = get_table_by_name catalog ref.table >>= λ table.
      schema_of table.schema.columns >>= λ schema.
      ok (seq_scan_plan schema table.table_oid table.name)
  plan_table_ref catalog empty_ref = err not_implemented
  plan_table_ref catalog other_ref = err not_implemented

  unfoldable pub plan_select : Catalog → SelectStatement → Result PlanNode
  unfolding plan_table_ref schema_of
  plan_select catalog statement = elim (statement.table) [
    | empty_ref ↦ schema_of [] >>= λ schema. ok (values_plan schema [])
    | table ↦ plan_table_ref catalog table
  ]

  unfoldable pub plan_insert : Catalog → InsertStatement → Result PlanNode
  unfolding plan_select type_match output_schema fixed_column schema_of
  plan_insert catalog statement = plan_select catalog statement.select >>= λ select.
      guard (type_match statement.table.schema (output_schema select)) exception
      >> (fixed_column inserted_rows integer >>= λ column.
          schema_of (column ∷ []) >>= λ schema. ok (insert_plan schema select statement.table.oid))

  -- The `switch` has no `break` behind the plan of a SELECT: the cast of the next case is reached.
  unfoldable pub plan_query : Catalog → BoundStatement → Result PlanNode
  unfolding plan_select plan_insert
  plan_query catalog (select_statement statement) =
      plan_select catalog statement >>= λ _. err bad_cast
  plan_query catalog (insert_statement statement) = plan_insert catalog statement
  plan_query catalog (create_statement statement) = err not_implemented
