-- ===== src/Compatibility/Avro.antt =====
-- internal/compatibility/avro/checker.go. What the parsing library returns is read as a data type
-- with a constructor for each schema interface that the checker tells apart.
pub mod Schema
pub mod Check
pub mod Fuel
pub mod Reasons
pub mod SelfRead
