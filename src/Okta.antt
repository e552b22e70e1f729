-- ===== src/Okta.antt =====
-- The adapter that reads Okta's System Log: adapters/okta.
pub mod Events
pub mod State
pub mod Signals
pub mod Memory
pub mod Poll
pub mod Sink
pub mod Pages
pub mod Credential
