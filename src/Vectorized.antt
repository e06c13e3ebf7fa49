-- ===== src/Vectorized.antt =====
-- src/execution/vectorized.cpp: the executor that works on compiled columns and selection vectors.
pub mod Cells
pub mod Keys
pub mod Scalars
pub mod Context
pub mod Reads
pub mod FillSet
pub mod Sets
pub mod Predicates
pub mod Masks
pub mod MaskOf
pub mod RowReads
pub mod MaskBits
pub mod ComparisonMask
pub mod PredicateMasks
pub mod Selections
pub mod ScalarSound
pub mod ColumnSound
pub mod CellCompare
pub mod PredicateSound
pub mod Views
pub mod FilterSound
pub mod JoinLoops
pub mod HashTable
pub mod HashJoin
pub mod ExistenceJoin
pub mod Buckets
pub mod NullAwareJoin
pub mod JoinScalars
pub mod Joins
pub mod EqualCells
pub mod JoinSides
pub mod KeySound
pub mod KeyStep
pub mod SplitSound
