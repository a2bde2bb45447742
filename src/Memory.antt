-- ===== src/Memory.antt =====
-- internal/storage/memory/store.go: the in-memory store, a module for each group of its methods.
pub mod State
pub mod Lookup
pub mod Create
pub mod Delete
pub mod Import
pub mod Config
pub mod Users
pub mod ApiKeys
pub mod Exporters
pub mod Keks
pub mod Deks
pub mod Listing
pub mod Invariant
pub mod Register
pub mod CreateValid
pub mod DeleteValid
pub mod DeleteSubjectValid
pub mod ImportValid
pub mod Reach
pub mod Behaviour
pub mod Latest
pub mod Duplicates
pub mod DekSecrecy
pub mod DekVersions
pub mod UserIndex
pub mod ReadBack
pub mod Subjects
pub mod Reread
pub mod Tests
