-- ===== src/Transport.antt =====
-- meshcore_rpc_services/transport: the MQTT side of the service.
pub mod Adapter
pub mod Bus
pub mod Service
