-- ===== src/Execution.antt =====
-- src/execution/interpreter.cpp: the interpreter, which is the oracle of the engine's semantics.
pub mod Cell
pub mod Truth
pub mod Context
pub mod Scalar
pub mod Predicate
pub mod Rows
pub mod Join
pub mod Aggregate
pub mod Window
pub mod Tables
pub mod Prepare
pub mod Node
pub mod Gives
pub mod JoinSpec
pub mod JoinScan
pub mod JoinRows
pub mod NotInSpec
pub mod Membership
pub mod FilterRows
pub mod Keeps
pub mod Cache
