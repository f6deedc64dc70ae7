-- ===== src/Scripts.antt =====
-- scripts/: the two programs of the bench, which speak to a running service over the broker.
pub mod SendRequest
pub mod Exchange
pub mod SeedStatus
