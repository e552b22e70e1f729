-- ===== src/Api/Routes.antt =====
-- The other handlers of the HTTP interface: core/internal/api/api.go, by what they are about.
pub mod Identities
pub mod Devices
pub mod Policies
pub mod Adapters
pub mod Factors
pub mod Challenges
pub mod Logs
pub mod Directory
pub mod Collection
