-- ===== src/Rewrite.antt =====
-- src/optimizer/rewrite.cpp: the rewrites of logical plans.
pub mod Fold
pub mod FoldSound
pub mod FoldStable
pub mod FoldRows
