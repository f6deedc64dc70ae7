-- ===== src/Timeouts.antt =====
-- meshcore_rpc_services/timeouts: how long a request gets.
pub mod Policy
