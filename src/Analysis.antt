-- ===== src/Analysis.antt =====
-- The analysis of schemas: internal/analysis.
pub mod Fuzzy
