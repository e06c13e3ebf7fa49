-- ===== src/Plan.antt =====
-- include/plan/logical_plan.hpp: bound expressions, bound predicates and logical plans.
-- A node's relational children are held by value. A subquery is held by a shared pointer to an
-- immutable plan, and the interpreter's cache is keyed by that pointer, so the model keeps the
-- pointer: a `PlanRef`, which a table of subplans resolves.
pub mod Factories
use vectorized_sql_engine.Base.{ℕ, ℤ, Bool, true, false, Bytes, Option, List, [], none, some}
use vectorized_sql_engine.Catalog.{ColumnType}
use vectorized_sql_engine.Sql.Ast.{
  ComparisonOp, AggregateFunction, SortDirection, WindowFunction, WindowFrame,
}

-- The address behind std::shared_ptr<const LogicalPlan>.
abbrev pub PlanRef : Type 0
PlanRef = ℕ

pub record BoundColumnRef : Type 0 where
  pub binding : Bytes
  pub column : Bytes
  pub position : ℕ
  pub type : ColumnType
  -- 0 is the current query block, 1 its immediate parent, and so on.
  pub outer_depth : ℕ

-- BoundScalarExpr::Value
pub data Value : Type 0 where
  column : BoundColumnRef → Value
  int_literal : (value : ℤ) (position : ℕ) → Value
  string_literal : (value : Bytes) (position : ℕ) → Value
  null_literal : (position : ℕ) → Value
  -- BoundScalarSubquery
  subquery : (plan : PlanRef) (position : ℕ) (name : Bytes) → Value

pub record BoundScalarExpr : Type 0 where
  pub value : Value
  pub type : ColumnType

pub record BoundComparisonExpr : Type 0 where
  pub left : BoundScalarExpr
  pub op : ComparisonOp
  pub right : BoundScalarExpr
  pub operator_position : ℕ

-- The struct's `kind` selects which of its fields are in use: here each kind has its own.
pub data BoundPredicate : Type 0 where
  comparison : BoundComparisonExpr → BoundPredicate
  is_null is_not_null : (null_check : BoundScalarExpr) (operator_position : ℕ) → BoundPredicate
  is_in not_in :
      (in_value : BoundScalarExpr) (subquery : PlanRef) (operator_position : ℕ)
      (subquery_name : Bytes)
      → BoundPredicate
  exists not_exists :
      (subquery : PlanRef) (operator_position : ℕ) (subquery_name : Bytes) → BoundPredicate
  both either : (left right : BoundPredicate) (operator_position : ℕ) → BoundPredicate

pub record Projection : Type 0 where
  pub output_name : Bytes
  pub expression : BoundScalarExpr
  pub type : ColumnType

pub record SortKey : Type 0 where
  pub column : BoundColumnRef
  pub direction : SortDirection

pub record AggregateExpression : Type 0 where
  pub output_name : Bytes
  pub function : AggregateFunction
  pub argument : Option BoundColumnRef
  pub position : ℕ
  pub type : ColumnType

pub record WindowExpression : Type 0 where
  pub output_name : Bytes
  pub function : WindowFunction
  pub count_star : Bool
  pub argument : Option BoundColumnRef
  pub partition_keys : List BoundColumnRef
  pub order_keys : List SortKey
  pub frame : WindowFrame
  pub position : ℕ
  pub type : ColumnType

pub data OrderPermission : Type 0 where
  deterministic arbitrary : OrderPermission

pub data JoinKind : Type 0 where
  inner left semi anti null_aware_anti : JoinKind

-- The fields that every kind of node has.
pub record NodeInfo : Type 0 where
  pub order_permission : OrderPermission
  -- Set only on the root of a bound subplan; empty means uncorrelated.
  pub correlation_columns : List BoundColumnRef

-- The struct's `kind` with the fields that its factory for that kind fills.
pub data LogicalPlan : Type 0 where
  scan : (info : NodeInfo) (table binding_name : Bytes) → LogicalPlan
  join :
      (info : NodeInfo) (join_kind : JoinKind) (predicates : List BoundPredicate)
      (null_aware_predicate : Option BoundPredicate) (left right : LogicalPlan)
      → LogicalPlan
  filter : (info : NodeInfo) (predicates : List BoundPredicate) (input : LogicalPlan) → LogicalPlan
  project : (info : NodeInfo) (projections : List Projection) (input : LogicalPlan) → LogicalPlan
  aggregate :
      (info : NodeInfo) (group_keys : List BoundColumnRef)
      (aggregate_expressions : List AggregateExpression) (input : LogicalPlan)
      → LogicalPlan
  window :
      (info : NodeInfo) (window_expressions : List WindowExpression) (input : LogicalPlan)
      → LogicalPlan
  distinct : (info : NodeInfo) (input : LogicalPlan) → LogicalPlan
  sort : (info : NodeInfo) (sort_keys : List SortKey) (input : LogicalPlan) → LogicalPlan
  limit : (info : NodeInfo) (limit_count : ℕ) (input : LogicalPlan) → LogicalPlan
  explain : (info : NodeInfo) (input : LogicalPlan) → LogicalPlan

abbrev pub info_of : LogicalPlan → NodeInfo
info_of (LogicalPlan.scan info _ _) = info
info_of (LogicalPlan.join info _ _ _ _ _) = info
info_of (LogicalPlan.filter info _ _) = info
info_of (LogicalPlan.project info _ _) = info
info_of (LogicalPlan.aggregate info _ _ _) = info
info_of (LogicalPlan.window info _ _) = info
info_of (LogicalPlan.distinct info _) = info
info_of (LogicalPlan.sort info _ _) = info
info_of (LogicalPlan.limit info _ _) = info
info_of (LogicalPlan.explain info _) = info

-- A node as its factory leaves it.
abbrev pub fresh_info : NodeInfo
fresh_info = record { order_permission = deterministic; correlation_columns = [] }
