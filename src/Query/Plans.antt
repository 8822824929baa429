-- ===== src/Query/Plans.antt =====
-- The nodes of a plan and their expressions: src/include/query/plans and src/include/query/expressions.
-- The planner makes none of the other expressions and nodes that those directories declare.
use gavin_db.Prelude.{
  ℕ, Bool, true, false, not, ◌||◌, if◌then◌else◌, List, Result, ok, err, not_implemented, runtime,
}
use gavin_db.Meta.Types.{TypeId, integer}
use gavin_db.Meta.Values.{Value}
use gavin_db.Meta.Columns.{Schema}
use gavin_db.Meta.Catalog.{Name}
use gavin_db.Query.Statements.{ArithmeticType}

pub data TuplePosition : Type 0 where
  left right invalid_position : TuplePosition

-- `AbstractExpression` and its three classes.
pub data Expression : Type 0 where
  constant_value : Value → Expression
  column_value : TuplePosition → ℕ → TypeId → Expression
  arithmetic : Expression → Expression → ArithmeticType → Expression

-- `GetReturnType`
unfoldable pub return_type : Expression → TypeId
return_type (constant_value val) = val.type_id
return_type (column_value position idx type) = type
return_type (arithmetic lhs rhs op) = integer

unfoldable pub is_integer : TypeId → Bool
is_integer integer = true
is_integer _ = false

-- The constructor of `ArithmeticExpression`
unfoldable pub arithmetic_expression : Expression → Expression → ArithmeticType → Result Expression
unfolding return_type is_integer
arithmetic_expression lhs rhs op =
    if not (is_integer (return_type lhs)) || not (is_integer (return_type rhs))
    then err not_implemented
    else ok (arithmetic lhs rhs op)

-- `GetConstValue`
unfoldable pub get_const_value : Expression → Result Value
get_const_value (constant_value val) = ok val
get_const_value (column_value position idx type) = err runtime
get_const_value (arithmetic lhs rhs op) = err runtime

-- `AbstractPlanNode` and the classes that the planner makes: the output schema, and what the node has.
pub data PlanNode : Type 0 where
  insert_plan : Schema → PlanNode → ℕ → PlanNode
  seq_scan_plan : Schema → ℕ → Name → PlanNode
  values_plan : Schema → List (List Expression) → PlanNode

unfoldable pub output_schema : PlanNode → Schema
output_schema (insert_plan schema child oid) = schema
output_schema (seq_scan_plan schema oid name) = schema
output_schema (values_plan schema rows) = schema
