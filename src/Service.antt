-- ===== src/Service.antt =====
-- backend/internal/service: the application layer.
pub mod Ports
pub mod Params
pub mod Anomaly
pub mod Engine
pub mod Topology
pub mod Sessions
pub mod Schemas
pub mod Monitors
