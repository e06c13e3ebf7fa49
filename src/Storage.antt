-- ===== src/Storage.antt =====
-- include/storage/columnar_batch.hpp and src/storage/columnar_batch.cpp: columns and batches.
pub mod Column
pub mod Batch
pub mod Cells
pub mod FilterColumn
pub mod Valid
pub mod FilterBatch
pub mod Contract
