-- ===== src/Sql/Ast.antt =====
-- include/sql/ast.hpp: the enumerations that the plan, the interpreter and the rewrites share.
pub data ComparisonOp : Type 0 where
  equal not_equal less less_equal greater greater_equal : ComparisonOp

pub data AggregateFunction : Type 0 where
  count sum min max : AggregateFunction

pub data SortDirection : Type 0 where
  asc desc : SortDirection

pub data WindowFunction : Type 0 where
  row_number rank dense_rank count sum min max : WindowFunction

pub data WindowFrame : Type 0 where
  whole_partition range_cumulative rows_cumulative : WindowFrame
