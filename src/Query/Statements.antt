-- ===== src/Query/Statements.antt =====
-- What the binder reads and what it makes: src/include/query/binder/{expressions,statement,table_ref}. The
-- trees of the SQL parser are given by the members that src/query/binder/binder.cpp reads of them.
use gavin_db.Prelude.{ℕ, Bool, List, Option}
use gavin_db.Meta.Columns.{Column, Schema}
use gavin_db.Meta.Values.{Value}
use gavin_db.Meta.Catalog.{Name}

-- `hsql::OperatorType`
pub data SqlOperator : Type 0 where
  op_plus op_minus op_asterisk op_other : SqlOperator

-- `hsql::Expr`: an integer literal has the bits of its `int64_t`.
pub data Expr : Type 0 where
  literal_int : ℕ → Expr
  literal_string : List ℕ → Expr
  operator : SqlOperator → Expr → Expr → Expr
  star other_expr : Expr

-- `hsql::DataType`, as far as `HsqlColumnTypeToTypeId` has a type for it, with the length of a VARCHAR.
pub data SqlType : Type 0 where
  sql_boolean sql_int sql_time sql_other : SqlType
  sql_varchar : ℕ → SqlType

-- `hsql::ColumnDefinition`
pub record ColumnDefinition : Type 0 where
  pub name : Name
  pub sql_type : SqlType
  pub has_primary_key : Bool

-- `hsql::SelectStatement`: `fromTable` and `selectList`, where they are not null.
pub record SqlSelect : Type 0 where
  pub from_table : Option Name
  pub select_list : Option (List Expr)

-- `hsql::SQLStatement`: `CREATE TABLE`, the other `CREATE` statements, `INSERT`, `SELECT`, and the rest.
pub data SqlStatement : Type 0 where
  sql_create_table : Name → List ColumnDefinition → SqlStatement
  sql_create_other sql_other_statement : SqlStatement
  sql_insert : Name → Option (List Expr) → Option SqlSelect → SqlStatement
  sql_select : SqlSelect → SqlStatement

pub data ArithmeticType : Type 0 where
  plus minus multiply : ArithmeticType

-- A bound expression; its `type_` is told by its constructor.
pub data BoundExpression : Type 0 where
  constant : Value → BoundExpression
  column_ref : List Name → BoundExpression
  bound_star : BoundExpression
  binary_op : ArithmeticType → BoundExpression → BoundExpression → BoundExpression

pub record BoundBaseTableRef : Type 0 where
  pub table : Name
  pub oid : ℕ
  pub schema : Schema

-- A bound table reference; the binder makes none of the types that are left out, but the planner asks for
-- the one of an empty `FROM`.
pub data BoundTableRef : Type 0 where
  base_table : BoundBaseTableRef → BoundTableRef
  expression_list : List (List BoundExpression) → BoundTableRef
  empty_ref other_ref : BoundTableRef

pub record SelectStatement : Type 0 where
  pub table : BoundTableRef
  pub select_list : List BoundExpression

pub record InsertStatement : Type 0 where
  pub table : BoundBaseTableRef
  pub select : SelectStatement

pub record CreateStatement : Type 0 where
  pub table_name : Name
  pub columns : List Column
  pub primary_key : List Name

pub data BoundStatement : Type 0 where
  select_statement : SelectStatement → BoundStatement
  insert_statement : InsertStatement → BoundStatement
  create_statement : CreateStatement → BoundStatement
