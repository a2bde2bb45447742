-- ===== src/Registry.antt =====
-- internal/registry: the schema registry service, over any storage backend and any parsers.
use axonops_schema_registry.Common.{ℕ_eq, string_eq, ℤ_eq}
pub mod Backend
pub mod Levels
pub mod Modes
pub mod Metadata
pub mod Reserved
pub mod References
pub mod Register
pub mod Checking
pub mod Removal
pub mod Imports
pub mod Reads
pub mod Exporting
pub mod Keys
pub mod InMemory
pub mod Tests
