-- ===== src/Query/Binder.antt =====
-- Binder (src/query/binder/binder.cpp), a function for each method. The scope in which a list is bound is a
-- table, or none: then `scope_` is null, or refers to a table reference that is gone.
use gavin_db.Prelude.{
  ℕ, suc, ◌%◌, ◌^◌, Bool, false, not, ◌==◌, ltb, List, [], ◌∷◌, ◌++◌, map, length, Option, none,
  some, Result, ok, err, exception, not_implemented, undefined_behaviour, guard, ◌>>=◌, ◌>>◌,
  if◌then◌else◌,
}
use gavin_db.Meta.Types.{TypeId, boolean, integer, timestamp, varchar}
use gavin_db.Meta.Values.{int32, string, make_value}
use gavin_db.Meta.Columns.{Column, fixed_column, varlen_column}
use gavin_db.Meta.Catalog.{Name, Catalog, get_table_by_name}
use gavin_db.Query.Statements.{
  SqlOperator, op_plus, op_minus, op_asterisk, op_other, Expr, literal_int, literal_string,
  operator, star, other_expr, SqlType, sql_boolean, sql_int, sql_time, sql_other, sql_varchar,
  ColumnDefinition, SqlSelect, SqlStatement, sql_create_table, sql_create_other,
  sql_other_statement, sql_insert, sql_select, ArithmeticType, plus, minus, multiply,
  BoundExpression, constant, column_ref, bound_star, binary_op, BoundBaseTableRef, base_table,
  expression_list, SelectStatement, InsertStatement, CreateStatement, BoundStatement,
  select_statement, insert_statement, create_statement,
}

-- `HsqlColumnTypeToTypeId`
unfoldable pub sql_type_id : SqlType → Result TypeId
sql_type_id sql_boolean = ok boolean
sql_type_id sql_int = ok integer
sql_type_id sql_time = ok timestamp
sql_type_id (sql_varchar length) = ok varchar
sql_type_id sql_other = err not_implemented

unfoldable pub bind_operator : SqlOperator → Result ArithmeticType
bind_operator op_plus = ok plus
bind_operator op_minus = ok minus
bind_operator op_asterisk = ok multiply
bind_operator op_other = err not_implemented

unfoldable pub bind_expression : Expr → Result BoundExpression
unfolding bind_operator make_value
bind_expression (literal_int ival) =
    make_value integer (int32 (ival % 2 ^ 32)) >>= λ v. ok (constant v)
bind_expression (literal_string name) = make_value varchar (string name) >>= λ v. ok (constant v)
bind_expression (operator op left right) = bind_operator op >>= λ op_type.
    bind_expression left >>= λ larg.
    bind_expression right >>= λ rarg. ok (binary_op op_type larg rarg)
bind_expression star = ok bound_star
bind_expression other_expr = err not_implemented

-- What `*` stands for in the scope.
unfoldable pub columns_of : Option BoundBaseTableRef → Result (List BoundExpression)
columns_of none = err undefined_behaviour
columns_of (some scope) =
    ok (map (λ (c : Column). column_ref (scope.table ∷ c.column_name ∷ [])) scope.schema.columns)

-- The body of the loop of `BindExpressionList` behind the binding of the expression: the size of the whole
-- list, the expression, and what the rest of the loop returns.
unfoldable pub bind_next :
    Option BoundBaseTableRef
    → ℕ
    → BoundExpression
    → Result (List BoundExpression)
    → Result (List BoundExpression)
unfolding columns_of
bind_next scope size bound_star rest = guard (size == 1) exception >> columns_of scope
bind_next scope size (constant v) rest = rest >>= λ bound. ok (constant v ∷ bound)
bind_next scope size (column_ref name) rest = rest >>= λ bound. ok (column_ref name ∷ bound)
bind_next scope size (binary_op op l r) rest = rest >>= λ bound. ok (binary_op op l r ∷ bound)

unfoldable pub bind_list : Option BoundBaseTableRef → ℕ → List Expr → Result (List BoundExpression)
unfolding bind_expression bind_next
bind_list scope size [] = ok []
bind_list scope size (expr ∷ exprs) =
    bind_expression expr >>= λ bound. bind_next scope size bound (bind_list scope size exprs)

unfoldable pub bind_expression_list :
    Option BoundBaseTableRef → List Expr → Result (List BoundExpression)
unfolding bind_list
bind_expression_list scope list = bind_list scope (length list) list

-- The rows of a value list: always one.
unfoldable pub bind_values_list : List Expr → Result (List (List BoundExpression))
unfolding bind_expression_list
bind_values_list list = bind_expression_list none list >>= λ row. ok (row ∷ [])

unfoldable pub bind_base_table_ref : Catalog → Name → Result BoundBaseTableRef
unfolding get_table_by_name
bind_base_table_ref catalog table_name = get_table_by_name catalog table_name >>= λ info.
    ok record { table = table_name; oid = info.table_oid; schema = info.schema }

unfoldable pub bind_column_definition : ColumnDefinition → Result Column
unfolding sql_type_id fixed_column varlen_column
bind_column_definition def = sql_type_id def.sql_type >>= λ type. elim (def.sql_type) [
  | sql_varchar length ↦ varlen_column def.name type (length % 2 ^ 32)
  | _ ↦ fixed_column def.name type
]

-- The loop of `BindCreate`, on the columns and keys that it has so far.
unfoldable pub bind_columns :
    List ColumnDefinition → List Column → List Name → Result (List Column × List Name)
unfolding bind_column_definition
bind_columns [] columns keys = ok (columns, keys)
bind_columns (def ∷ defs) columns keys = bind_column_definition def >>= λ col.
    let primary_key = (if def.has_primary_key then keys ++ (col.column_name ∷ []) else keys) in
    guard (not (ltb 1 (length primary_key))) not_implemented
    >> bind_columns defs (columns ++ (col ∷ [])) primary_key

unfoldable pub bind_create : Name → List ColumnDefinition → Result CreateStatement
unfolding bind_columns
bind_create table defs = bind_columns defs [] [] >>= λ (columns, keys).
    ok record { table_name = table; columns = columns; primary_key = keys }

-- `starts_with("__")`
unfoldable pub is_internal : Name → Bool
is_internal (a ∷ b ∷ _) = if a == 95 then b == 95 else false
is_internal _ = false

-- `fmt::format` of a number is a parameter: its digits.
module _ (digits : ℕ → Name) where
  -- "Temp Col " with the number behind it
  unfoldable pub temp_col : ℕ → Name
  temp_col i = 84 ∷ 101 ∷ 109 ∷ 112 ∷ 32 ∷ 67 ∷ 111 ∷ 108 ∷ 32 ∷ digits i

  -- The loop that refers to the columns of a value list, from the i-th on.
  unfoldable pub temp_refs : ℕ → List BoundExpression → List BoundExpression
  unfolding temp_col
  temp_refs i [] = []
  temp_refs i (_ ∷ row) = column_ref (temp_col i ∷ []) ∷ temp_refs (suc i) row

  -- A SELECT from a value list, whose first row is counted.
  unfoldable pub select_values : List (List BoundExpression) → Result SelectStatement
  unfolding temp_refs
  select_values [] = err undefined_behaviour
  select_values (row ∷ rows) =
      ok record { table = expression_list (row ∷ rows); select_list = temp_refs 0 row }

  -- A SELECT by what its FROM clause and its list are.
  unfoldable pub select_from : Catalog → Option Name → Option (List Expr) → Result SelectStatement
  unfolding bind_values_list select_values bind_base_table_ref bind_expression_list
  select_from catalog none (some list) = bind_values_list list >>= select_values
  select_from catalog (some name) (some list) = bind_base_table_ref catalog name >>= λ from_table.
      bind_expression_list (some from_table) list >>= λ exprs.
      ok record { table = base_table from_table; select_list = exprs }
  select_from catalog _ none = err not_implemented

  unfoldable pub bind_select : Catalog → SqlSelect → Result SelectStatement
  unfolding select_from
  bind_select catalog stmt = select_from catalog stmt.from_table stmt.select_list

  -- The rows that an INSERT inserts, by its `values` and its `select`.
  unfoldable pub insert_source :
      Catalog → Option (List Expr) → Option SqlSelect → Result SelectStatement
  unfolding bind_values_list select_values bind_select
  insert_source catalog (some values) _ = bind_values_list values >>= select_values
  insert_source catalog none (some select) = bind_select catalog select
  insert_source catalog none none = err not_implemented

  unfoldable pub bind_insert :
      Catalog → Name → Option (List Expr) → Option SqlSelect → Result InsertStatement
  unfolding bind_base_table_ref is_internal insert_source
  bind_insert catalog table_name values select = bind_base_table_ref catalog table_name >>= λ table.
      guard (not (is_internal table.table)) exception
      >> (insert_source catalog values select >>= λ source.
          ok record { table = table; select = source })

  unfoldable pub bind : Catalog → SqlStatement → Result BoundStatement
  unfolding bind_create bind_insert bind_select
  bind catalog (sql_create_table table defs) =
      bind_create table defs >>= λ s. ok (create_statement s)
  bind catalog sql_create_other = err not_implemented
  bind catalog sql_other_statement = err not_implemented
  bind catalog (sql_insert table values select) =
      bind_insert catalog table values select >>= λ s. ok (insert_statement s)
  bind catalog (sql_select stmt) = bind_select catalog stmt >>= λ s. ok (select_statement s)
