-- ===== src/Tests.antt =====
-- The theorems at concrete inputs.
mod Data
mod Operators
mod Expressions
mod Storage
mod Joins
mod Vectorized
