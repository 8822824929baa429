-- ===== src/Query/Inserts.antt =====
-- What becomes of an INSERT of literals and of a SELECT between the parser and the executors
-- (`DB::ExecuteQuery` of src/common/db_instance.cpp, Binder, Planner).
use gavin_db.Prelude.{
  ℕ, ◌^◌, ◌<◌, ◌≡◌, refl, ap, ◌∙◌, Bool, true, false, not, List, [], ◌∷◌, map, length, none, some,
  Result, Error, ok, err, exception, bad_cast, ◌>>=◌, ◌>>◌, guard, if◌then◌else◌,
}
use gavin_db.Serializer.RoundTrip.{Every}
use gavin_db.Meta.Types.{integer, is_varchar, type_size}
use gavin_db.Meta.Stored.{TableMeta}
use gavin_db.Meta.Columns.{
  Column, Schema, fixed_column, schema_of, lay_out, inline_size, is_inlined,
}
use gavin_db.Meta.SameTypes.{lay_out-types}
use gavin_db.Meta.Catalog.{Name, Catalog, get_table_by_name}
use gavin_db.Query.Statements.{
  Expr, BoundBaseTableRef, SqlSelect, SqlStatement, sql_insert, sql_select, select_statement,
  insert_statement, SelectStatement, InsertStatement, expression_list,
}
use gavin_db.Query.Plans.{PlanNode, insert_plan, values_plan, output_schema}
use gavin_db.Query.Binder.{
  bind, bind_select, bind_insert, bind_base_table_ref, is_internal, insert_source, bind_values_list,
  bind_expression_list, select_values, temp_refs,
}
use gavin_db.Query.Planner.{
  plan_expression_list_ref, plan_query, plan_select, plan_insert, plan_table_ref, type_match,
  types_match, inserted_rows,
}
use gavin_db.Query.Literals.{
  IsLiteral, literal_value, literal_columns, bind_list-literals, values_node-literals, bound_row,
  planned_row, literal_columns-types,
}

-- A statement up to its plan, as `ExecuteQuery` has it made.
unfoldable pub plan_statement : (ℕ → Name) → Catalog → SqlStatement → Result PlanNode
unfolding bind plan_query
plan_statement digits catalog stmt =
    bind digits catalog stmt >>= λ bound. plan_query digits catalog bound

abbrev Fails : {A : Type 0} → Result A → Type 0
Fails r = (e : Error) × (r ≡ err e)

bind-Fails :
    {A B : Type 0} (r : Result A) (rest : A → Result B)
    → ((a : A) → Fails (rest a))
    → Fails (r >>= rest)
bind-Fails (err e) rest h = (e, refl)
bind-Fails (ok a) rest h = h a

-- No SELECT gets a plan: whatever it selects, and whatever the catalog holds, it ends in one of the errors of the model,
-- among which are exceptions, failed assertions and what C++ leaves undefined.
pub plan_statement-select :
    (digits : ℕ → Name) (catalog : Catalog) (stmt : SqlSelect)
    → (e : Error) × (plan_statement digits catalog (sql_select stmt) ≡ err e)
unfolding plan_statement bind plan_query
plan_statement-select digits catalog stmt = go (bind_select digits catalog stmt)
  where
    go :
        (r : Result SelectStatement)
        → Fails (r >>= (λ s. ok (select_statement s)) >>= λ bound. plan_query digits catalog bound)
    go (err e) = (e, refl)
    go (ok s) =
        bind-Fails (plan_select digits catalog s) (λ _. err bad_cast) (λ _. (bad_cast, refl))

-- The table that an INSERT names, and what it inserts.
abbrev reference : Name → TableMeta → BoundBaseTableRef
reference table_name meta = record {
  table = table_name;
  oid = meta.table_oid;
  schema = meta.schema;
}

abbrev values_source : (ℕ → Name) → List Expr → SelectStatement
values_source digits es = record {
  table = expression_list (bound_row es ∷ []);
  select_list = temp_refs digits 0 (bound_row es);
}

abbrev values_insert : (ℕ → Name) → Name → TableMeta → List Expr → InsertStatement
values_insert digits table_name meta es = record {
  table = reference table_name meta;
  select = values_source digits es;
}

bind_insert-literals :
    (digits : ℕ → Name) (catalog : Catalog) (table_name : Name) (meta : TableMeta) (es : List Expr)
    → get_table_by_name catalog table_name ≡ ok meta
    → is_internal table_name ≡ false
    → Every IsLiteral es
    → bind_insert digits catalog table_name (some es) none
      ≡ ok (values_insert digits table_name meta es)
unfolding bind_insert insert_source bind_values_list select_values bind_expression_list
    bind_base_table_ref
bind_insert-literals digits catalog table_name meta es found public h =
    let source = insert_source digits catalog (some es) none in
    ap
      (λ r. (r >>= λ (info : TableMeta). ok (reference table_name info)) >>= λ table.
        guard (not (is_internal table.table)) exception
        >> (source >>= λ select. ok record { table = table; select = select }))
      found
    ∙ ap
        (λ b.
          guard (not b) exception
          >> (source >>= λ select.
              ok record { table = reference table_name meta; select = select }))
        public
    ∙ ap
        (λ r. ((r >>= λ row. ok (row ∷ [])) >>= select_values digits) >>= λ select.
          ok record { table = reference table_name meta; select = select })
        (bind_list-literals (length es) es h)

abbrev output_column : Column
output_column = record {
  column_name = inserted_rows;
  column_type = integer;
  column_length = 4;
  storage_offset = 0;
  schema_offset = 0;
  is_auto_increment = false;
}

-- The schema of what an insertion puts out: the number of rows.
abbrev pub count_schema : Schema
count_schema = record {
  columns = output_column ∷ [];
  uninlined_columns = [];
  tuple_inline_part_storage_size = 4;
}

plan_insert-literals :
    (digits : ℕ → Name) (catalog : Catalog) (table_name : Name) (meta : TableMeta) (es : List Expr)
    (rows : Schema)
    → plan_table_ref digits catalog (expression_list (bound_row es ∷ []))
      ≡ ok (values_plan rows (planned_row es ∷ []))
    → plan_insert digits catalog (values_insert digits table_name meta es) ≡ (
        if types_match meta.schema.columns rows.columns
        then ok (insert_plan count_schema (values_plan rows (planned_row es ∷ [])) meta.table_oid)
        else err exception)
unfolding plan_insert plan_select type_match output_schema fixed_column schema_of lay_out
    inline_size is_inlined is_varchar type_size
plan_insert-literals digits catalog table_name meta es rows planned =
    ap
      (λ r. r >>= λ select.
        guard (types_match meta.schema.columns (output_schema select).columns) exception
        >> ok (insert_plan count_schema select meta.table_oid))
      planned
    ∙ either (types_match meta.schema.columns rows.columns)
  where
    either :
        (b : Bool)
        → (guard b exception
            >> ok
                (insert_plan count_schema (values_plan rows (planned_row es ∷ [])) meta.table_oid))
          ≡ (if b
              then ok
                  (insert_plan count_schema (values_plan rows (planned_row es ∷ [])) meta.table_oid)
              else err exception)
    either true = refl
    either false = refl

pub plan_statement-rows :
    (digits : ℕ → Name) (catalog : Catalog) (table_name : Name) (meta : TableMeta) (es : List Expr)
    (rows : Schema)
    → get_table_by_name catalog table_name ≡ ok meta
    → is_internal table_name ≡ false
    → Every IsLiteral es
    → plan_expression_list_ref digits (bound_row es ∷ [])
      ≡ ok (values_plan rows (planned_row es ∷ []))
    → plan_statement digits catalog (sql_insert table_name (some es) none) ≡ (
        if types_match meta.schema.columns rows.columns
        then ok (insert_plan count_schema (values_plan rows (planned_row es ∷ [])) meta.table_oid)
        else err exception)
unfolding plan_statement bind plan_query plan_table_ref
plan_statement-rows digits catalog table_name meta es rows found public h planned =
    ap (λ r. (r >>= λ s. ok (insert_statement s)) >>= λ bound. plan_query digits catalog bound)
      (bind_insert-literals digits catalog table_name meta es found public h)
    ∙ plan_insert-literals digits catalog table_name meta es rows planned

-- An INSERT of fewer than 2 ^ 30 integer and string literals into a table that the catalog has, and whose name
-- does not begin with two underscores, is planned exactly when the types of the table's columns are those of
-- the values of the literals, one by one. The plan inserts one row, of those values, into the table; its
-- schema has the types of the values. With any other columns an exception ends it.
pub plan_statement-insert :
    (digits : ℕ → Name) (catalog : Catalog) (table_name : Name) (meta : TableMeta) (es : List Expr)
    → get_table_by_name catalog table_name ≡ ok meta
    → is_internal table_name ≡ false
    → Every IsLiteral es
    → length es < 2 ^ 30
    → (rows : Schema) × (map (λ (c : Column). c.column_type) rows.columns
        ≡ map (λ e. (literal_value e).type_id) es)
      × (plan_statement digits catalog (sql_insert table_name (some es) none) ≡ (
          if types_match meta.schema.columns rows.columns
          then ok (insert_plan count_schema (values_plan rows (planned_row es ∷ [])) meta.table_oid)
          else err exception))
unfolding schema_of
plan_statement-insert digits catalog table_name meta es found public h short =
    let (rows, made, planned) = values_node-literals digits es h short in
    (
      rows,
      lay_out-types (literal_columns digits 0 es) 0 0 rows made ∙ literal_columns-types digits 0 es,
      plan_statement-rows digits catalog table_name meta es rows found public h planned,
    )
