-- ===== src/Tak.antt =====
-- meshcore_rpc_services/tak: the bridge from the retained MQTT topics to a TAK server.
pub mod Sink
pub mod Cot
pub mod NodeTopic
pub mod Bridge
