-- ===== src/Query/InsertLayout.antt =====
-- The row that an INSERT of literals inserts is laid out as its table lays out its tuples (Binder, Planner, and
-- `Schema(columns)` of src/meta/schema.cpp).
use gavin_db.Prelude.{
  ℕ, suc, ◌^◌, ◌<◌, ◌≡◌, refl, ap, sym, ◌∙◌, ==_iff, true, false, ◌&&◌, List, [], ◌∷◌, map, length,
  none, some, ok, err, exception, if◌then◌else◌,
}
use gavin_db.Serializer.RoundTrip.{Every}
use gavin_db.Meta.Types.{TypeId, type_code, is_varchar}
use gavin_db.Meta.Stored.{TableMeta}
use gavin_db.Meta.Columns.{Column, Schema, schema_of, inline_size, is_inlined}
use gavin_db.Meta.SameTypes.{lay_out-types, IsMade, code_width, SameLayout, schema_of-SameLayout}
use gavin_db.Meta.Catalog.{Name, Catalog, get_table_by_name}
use gavin_db.Query.Statements.{
  Expr, literal_int, literal_string, operator, star, other_expr, sql_insert,
}
use gavin_db.Query.Plans.{insert_plan, values_plan}
use gavin_db.Query.Binder.{is_internal}
use gavin_db.Query.Planner.{types_match}
use gavin_db.Query.Literals.{
  IsLiteral, literal_value, literal_column, literal_columns, literal_columns-types,
  values_node-literals, planned_row,
}
use gavin_db.Query.Inserts.{plan_statement, plan_statement-rows, count_schema}

abbrev type_of : Column → TypeId
type_of c = c.column_type

literal_columns-IsMade :
    (digits : ℕ → Name) (i : ℕ) (es : List Expr)
    → Every IsLiteral es
    → Every IsMade (literal_columns digits i es)
unfolding Every IsLiteral IsMade literal_columns literal_column literal_value inline_size is_inlined
    is_varchar code_width type_code
literal_columns-IsMade digits i [] h = tt
literal_columns-IsMade digits i (literal_int ival ∷ es) (_, hs) =
    ((refl, refl), literal_columns-IsMade digits (suc i) es hs)
literal_columns-IsMade digits i (literal_string name ∷ es) (_, hs) =
    ((refl, refl), literal_columns-IsMade digits (suc i) es hs)
literal_columns-IsMade digits i (operator op l r ∷ es) (h, _) = absurd h
literal_columns-IsMade digits i (star ∷ es) (h, _) = absurd h
literal_columns-IsMade digits i (other_expr ∷ es) (h, _) = absurd h

same_types-match :
    (xs ys : List Column) → map type_of xs ≡ map type_of ys → types_match xs ys ≡ true
unfolding types_match
same_types-match [] [] h = refl
same_types-match [] (y ∷ ys) h = cc
same_types-match (x ∷ xs) [] h = cc
same_types-match (x ∷ xs) (y ∷ ys) h =
    let head : (x.column_type ≡ y.column_type) = cc in
    let tail : (map type_of xs ≡ map type_of ys) = cc in
    ap (λ b. b && types_match xs ys)
      ((==_iff (type_code x.column_type) (type_code y.column_type)).1 (ap type_code head))
    ∙ same_types-match xs ys tail

codes :
    (xs : List Column)
    → map type_code (map type_of xs) ≡ map (λ (c : Column). type_code c.column_type) xs
codes [] = refl
codes (x ∷ xs) = ap (λ l. type_code x.column_type ∷ l) (codes xs)

-- An INSERT of fewer than 2 ^ 30 integer and string literals into a table that the catalog has, whose name does
-- not begin with two underscores, whose schema is that of columns that their constructors made, and whose columns
-- have the types of the literals, one by one, is planned. The plan inserts the row of their values, under a schema
-- that keeps each column at the same place as the table's, the same columns outside of the first part, and a first
-- part of the same size.
pub plan_statement-SameLayout :
    (digits : ℕ → Name) (catalog : Catalog) (table_name : Name) (meta : TableMeta) (es : List Expr)
    (columns : List Column)
    → get_table_by_name catalog table_name ≡ ok meta
    → is_internal table_name ≡ false
    → Every IsLiteral es
    → length es < 2 ^ 30
    → schema_of columns ≡ ok meta.schema
    → Every IsMade columns
    → map (λ (c : Column). c.column_type) columns ≡ map (λ e. (literal_value e).type_id) es
    → (rows : Schema) × SameLayout meta.schema rows
      × (plan_statement digits catalog (sql_insert table_name (some es) none)
          ≡ ok (insert_plan count_schema (values_plan rows (planned_row es ∷ [])) meta.table_oid))
unfolding schema_of
plan_statement-SameLayout digits catalog table_name meta es columns found public h short made_table
      is_made types =
    let (rows, made, planned) = values_node-literals digits es h short in
    let same : (map type_of columns ≡ map type_of (literal_columns digits 0 es)) =
      types ∙ sym (literal_columns-types digits 0 es) in
    (
      rows,
      schema_of-SameLayout columns (literal_columns digits 0 es) meta.schema rows is_made
          (literal_columns-IsMade digits 0 es h)
          (sym (codes columns) ∙ ap (map type_code) same ∙ codes (literal_columns digits 0 es))
          made_table made,
      plan_statement-rows digits catalog table_name meta es rows found public h planned
          ∙ ap
              (λ b.
                if b
                then ok (
                    insert_plan count_schema (values_plan rows (planned_row es ∷ []))
                      meta.table_oid)
                else err exception)
              (same_types-match meta.schema.columns rows.columns (
                lay_out-types columns 0 0 meta.schema made_table
                ∙ same
                ∙ sym (lay_out-types (literal_columns digits 0 es) 0 0 rows made))),
    )
