-- ===== src/Compatibility.antt =====
-- internal/compatibility: the modes, the results, the orchestration and the Avro checker.
pub mod Result
pub mod Mode
pub mod Checker
pub mod CheckerSpec
pub mod Avro
pub mod Tests
