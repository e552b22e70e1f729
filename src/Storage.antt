-- ===== src/Storage.antt =====
-- The in-memory store: core/internal/storage/memory.go, behind the interfaces of store.go.
-- A Go map is a table; the store's values are shared objects, each under one key, and what the
-- program writes through a pointer that it got from the store is written to the table at once.
-- The locks serialise the operations: each operation here is one critical section.
pub mod State
pub mod Identities
pub mod Devices
pub mod Resources
pub mod Adapters
pub mod Policies
pub mod Challenges
pub mod Factors
pub mod AuthTokens
pub mod Profiles
pub mod AuditLog
