-- ===== src/Query/Literals.antt =====
-- What Binder and Planner make of a row of literals, the values of an INSERT (src/query/binder/binder.cpp,
-- src/query/planner.cpp).
use gavin_db.Prelude.{
  ℕ, suc, ◌*◌, ◌%◌, ◌^◌, ◌<◌, ◌≡◌, refl, ap, ◌∙◌, false, List, [], ◌∷◌, map, length, none, ok,
  ◌>>=◌, arith,
}
use gavin_db.Serializer.RoundTrip.{Every}
use gavin_db.Meta.Types.{TypeId, integer, varchar, is_varchar, type_size}
use gavin_db.Meta.Values.{Value, some_value, int32, string, make_value}
use gavin_db.Meta.Columns.{
  Column, Schema, fixed_column, varlen_column, schema_of, inline_size, is_inlined,
}
use gavin_db.Meta.Catalog.{Name}
use gavin_db.Meta.Layout.{total_size, schema_of-Apart}
use gavin_db.Query.Statements.{
  Expr, literal_int, literal_string, operator, star, other_expr, BoundExpression, constant,
}
use gavin_db.Query.Plans.{Expression, constant_value, return_type, values_plan}
use gavin_db.Query.Binder.{bind_list, bind_next, bind_expression}
use gavin_db.Query.Planner.{
  for_each, plan_expression, temp_column, temp_columns, temp_col_name, plan_expression_list_ref,
  values_node,
}

-- Integer and string literals.
unfoldable pub IsLiteral : Expr → Type 0
IsLiteral (literal_int ival) = Unit
IsLiteral (literal_string name) = Unit
IsLiteral _ = ⊥

-- The value of a literal.
unfoldable pub literal_value : Expr → Value
literal_value (literal_int ival) = some_value integer (int32 (ival % 2 ^ 32))
literal_value (literal_string name) = some_value varchar (string name)
literal_value _ = some_value integer (int32 0)

pub bind_list-literals :
    (size : ℕ) (es : List Expr)
    → Every IsLiteral es
    → bind_list none size es ≡ ok (map (λ e. constant (literal_value e)) es)
unfolding bind_list bind_expression bind_next literal_value IsLiteral Every make_value
bind_list-literals size [] h = refl
bind_list-literals size (literal_int ival ∷ es) (_, hs) =
    ap (λ r. r >>= λ bound. ok (constant (literal_value (literal_int ival)) ∷ bound))
      (bind_list-literals size es hs)
bind_list-literals size (literal_string name ∷ es) (_, hs) =
    ap (λ r. r >>= λ bound. ok (constant (literal_value (literal_string name)) ∷ bound))
      (bind_list-literals size es hs)
bind_list-literals size (operator op l r ∷ es) (h, _) = absurd h
bind_list-literals size (star ∷ es) (h, _) = absurd h
bind_list-literals size (other_expr ∷ es) (h, _) = absurd h

plan-literals :
    (es : List Expr)
    → for_each plan_expression (map (λ e. constant (literal_value e)) es)
      ≡ ok (map (λ e. constant_value (literal_value e)) es)
unfolding for_each plan_expression
plan-literals [] = refl
plan-literals (e ∷ es) =
    ap (λ r. r >>= λ ys. ok (constant_value (literal_value e) ∷ ys)) (plan-literals es)

-- The column that the planner makes for a literal.
abbrev type_length : TypeId → ℕ
type_length varchar = 128
type_length _ = 4

unfoldable pub literal_column : (ℕ → Name) → ℕ → Expr → Column
unfolding literal_value temp_col_name
literal_column digits i e = record {
  column_name = temp_col_name digits i;
  column_type = (literal_value e).type_id;
  column_length = type_length (literal_value e).type_id;
  storage_offset = 0;
  schema_offset = 0;
  is_auto_increment = false;
}

unfoldable pub literal_columns : (ℕ → Name) → ℕ → List Expr → List Column
literal_columns digits i [] = []
literal_columns digits i (e ∷ es) = literal_column digits i e ∷ literal_columns digits (suc i) es

temp_column-literal :
    (digits : ℕ → Name) (i : ℕ) (e : Expr)
    → IsLiteral e
    → temp_column digits i (return_type (constant_value (literal_value e)))
      ≡ ok (literal_column digits i e)
unfolding temp_column return_type literal_value literal_column IsLiteral fixed_column varlen_column
    is_varchar type_size temp_col_name
temp_column-literal digits i (literal_int ival) h = refl
temp_column-literal digits i (literal_string name) h = refl
temp_column-literal digits i (operator op l r) h = absurd h
temp_column-literal digits i star h = absurd h
temp_column-literal digits i other_expr h = absurd h

temp_columns-literals :
    (digits : ℕ → Name) (i : ℕ) (es : List Expr)
    → Every IsLiteral es
    → temp_columns digits i (map (λ e. constant_value (literal_value e)) es)
      ≡ ok (literal_columns digits i es)
unfolding temp_columns literal_columns Every
temp_columns-literals digits i [] h = refl
temp_columns-literals digits i (e ∷ es) (h, hs) =
    ap
      (λ r. r >>= λ col.
        temp_columns digits (suc i) (map (λ e. constant_value (literal_value e)) es) >>= λ cols.
        ok (col ∷ cols))
      (temp_column-literal digits i e h)
    ∙ ap (λ r. r >>= λ cols. ok (literal_column digits i e ∷ cols))
        (temp_columns-literals digits (suc i) es hs)

abbrev HasLength : Column → Type 0
HasLength c = 0 < c.column_length

literal_columns-HasLength :
    (digits : ℕ → Name) (i : ℕ) (es : List Expr)
    → Every IsLiteral es
    → Every HasLength (literal_columns digits i es)
      × (total_size (literal_columns digits i es) ≡ 4 * length es)
unfolding literal_columns literal_column literal_value Every IsLiteral total_size inline_size
    is_inlined is_varchar
literal_columns-HasLength digits i [] h = (tt, omega arith)
literal_columns-HasLength digits i (literal_int ival ∷ es) (h, hs) =
    let (positive, size) = literal_columns-HasLength digits (suc i) es hs in
    ((omega arith, positive), omega (arith, size))
literal_columns-HasLength digits i (literal_string name ∷ es) (h, hs) =
    let (positive, size) = literal_columns-HasLength digits (suc i) es hs in
    ((omega arith, positive), omega (arith, size))
literal_columns-HasLength digits i (operator op l r ∷ es) (h, _) = absurd h
literal_columns-HasLength digits i (star ∷ es) (h, _) = absurd h
literal_columns-HasLength digits i (other_expr ∷ es) (h, _) = absurd h

abbrev pub bound_row : List Expr → List BoundExpression
bound_row es = map (λ e. constant (literal_value e)) es

abbrev pub planned_row : List Expr → List Expression
planned_row es = map (λ e. constant_value (literal_value e)) es

-- The schema of a row of literals.
pub values_node-literals :
    (digits : ℕ → Name) (es : List Expr)
    → Every IsLiteral es
    → length es < 2 ^ 30
    → (schema : Schema) × (schema_of (literal_columns digits 0 es) ≡ ok schema)
      × (plan_expression_list_ref digits (bound_row es ∷ [])
          ≡ ok (values_plan schema (planned_row es ∷ [])))
unfolding plan_expression_list_ref values_node for_each
values_node-literals digits es h short =
    let (positive, size) = literal_columns-HasLength digits 0 es h in
    let (schema, made, _, _, _) =
      schema_of-Apart (literal_columns digits 0 es) positive (omega (arith, size)) in
    (
      schema,
      made,
      ap (λ r. (r >>= λ ys. ok (ys ∷ [])) >>= λ all_exprs. values_node digits all_exprs)
            (plan-literals es)
          ∙ ap
              (λ r. r >>= λ cols.
                schema_of cols >>= λ laid. ok (values_plan laid (planned_row es ∷ [])))
              (temp_columns-literals digits 0 es h)
          ∙ ap (λ r. r >>= λ laid. ok (values_plan laid (planned_row es ∷ []))) made,
    )

pub literal_columns-types :
    (digits : ℕ → Name) (i : ℕ) (es : List Expr)
    → map (λ (c : Column). c.column_type) (literal_columns digits i es)
      ≡ map (λ e. (literal_value e).type_id) es
unfolding literal_columns literal_column
literal_columns-types digits i [] = refl
literal_columns-types digits i (e ∷ es) =
    ap (λ types. (literal_value e).type_id ∷ types) (literal_columns-types digits (suc i) es)
