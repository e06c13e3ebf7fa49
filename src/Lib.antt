-- ===== src/Lib.antt =====
-- A verification of the vectorized SQL query engine: its columnar storage, its bound logical plans, its
-- interpreter, which is the oracle of the engine's semantics, its vectorized executor, and the folding of
-- constant predicates.
--
-- The parts and their files. Paths are from the repository's root.
--   Base        numbers, lists, integers with the bounds of int64, orders, byte strings, and C++
--               exceptions as values (Base/Exceptions): a throw is an `err` that carries the
--               exception's class and text, and nothing in the engine catches one.
--   Catalog     include/catalog/catalog.hpp.
--   Storage     include/storage/columnar_batch.hpp and src/storage/columnar_batch.cpp. Column has the
--               values and the validity bytes of Int64Column and StringColumn, which differ only in
--               the type of a value; Batch has ColumnarBatch and equals_i64. Cells and Valid say what
--               a column and a batch stand for; Contract has the promises of the operations.
--   Sql, Plan   the enumerations of include/sql/ast.hpp that plans use, and
--               include/plan/logical_plan.hpp. Each kind of node is a constructor with the fields
--               that its factory fills. Plan/Factories has the two factories that check something.
--   Execution   src/execution/interpreter.cpp. Cell and Truth: Cell, OutputColumn, TruthValue.
--               Context: ExecutionContext as explicit state, with the monad of its users. Scalar,
--               Predicate: evaluate_scalar, evaluate_predicate and their join variants, with the
--               subqueries they materialize. Rows: comparison by keys, stable_sort, DISTINCT, LIMIT.
--               Join, Aggregate, Window: the loops of execute_join, execute_aggregate and
--               execute_window. Prepare: prepare_subqueries. Tables: the class Catalog. Node:
--               execute_node and execute_interpreted.
--               Gives: computations that may add to the cache on the way. Keeps and the files below
--               it: what executing does to the cache of subqueries. JoinSpec, JoinScan,
--               JoinRows, NotInSpec, Membership, FilterRows, Cache and the files below Rows,
--               Aggregate (Totals, Least), Window (PeerSum) and Tables have the theorems.
--   Rewrite     src/optimizer/rewrite.cpp: fold_predicate_tree.
--   Vectorized  src/execution/vectorized.cpp. Cells: TypedCell, MaterializedValueSet, HashKey and their
--               hashes. Scalars, Context: compiled columns and scalars, and the prepared results of
--               subqueries. Predicates: compile_predicate, and the evaluation of compiled predicates
--               on a row or a pair of rows. Masks: the predicate masks. Views: BatchView and
--               execute_filter. JoinLoops: the loops of the hash joins and of the nested loops.
--               JoinScalars: compiled join predicates and split_join_predicates. Joins: the output
--               builder, the six joins, and execute_join on its executed inputs.
--               Keys, FillSet, Sets, Reads, RowReads, MaskOf, MaskBits, ComparisonMask,
--               PredicateMasks, Selections, ScalarSound, ColumnSound, CellCompare, PredicateSound,
--               EqualCells, JoinSides, KeySound, KeyStep, SplitSound, FilterSound, HashTable,
--               HashJoin, ExistenceJoin, Buckets and NullAwareJoin have the theorems.
--   Tests       test data and the theorems at concrete inputs.
--
-- How the state corresponds. The vectors behind the copy-on-write pointers of a column, and the
-- batches behind shared pointers to constants, are held by value. std::map is an association list:
-- the source only looks keys up. A subquery is the pointer to its plan, since the cache is keyed by it:
-- a number, which indexes the list of all subplans, the oldest first. A plan is immutable and made
-- after the subplans it points to, so a subplan runs with the subplans older than it; the recursion is
-- on that list and no fuel is needed. outer_rows is a stack with the innermost frame first. A
-- comparison function, predicate or emit function that the source captures is an argument of the loop.
-- std::stable_sort is an insertion sort that never passes an equal element, and std::sort on int64 an
-- insertion sort; both are determined by what the standard says of them when the comparison is a strict
-- weak ordering. Sizes and row numbers are natural numbers; a counter or a sum that the source checks
-- against int64 is checked.
--
-- In the vectorized executor, a pointer into a batch is the vector it points to. A read past the end of
-- a vector by operator[] is undefined in C++, and gives an error of its own (Exception's `undefined`).
-- std::unordered_map is an association list and std::unordered_set a list: the source only looks keys
-- up. std::hash is an argument. A mask of bytes that starts as zeros, and whose positions are each
-- written once in order, is built in that order. CompiledPredicate and CompiledJoinPredicate are one
-- type, generic in the scalars.
--
-- Not modelled: the parser and the binder (src/sql), the other rewrite rules, the memo and the cost
-- model (src/optimizer), physical plans, and of the vectorized executor the order in which subqueries
-- are prepared, the execution of a node's inputs, and the kernels of projections, sorts, DISTINCT,
-- LIMIT, aggregates and windows; and printing. optimizer::explain is an argument of execute_node.
-- Reserving capacity has no effect on values.
pub mod Base
pub mod Catalog
pub mod Storage
pub mod Sql
pub mod Plan
pub mod Execution
pub mod Rewrite
pub mod Tests
pub mod Vectorized
