-- ===== src/Domain.antt =====
-- backend/internal/domain: the rules of the simulator, with no infrastructure.
pub mod Errors
pub mod Entities
pub mod Geo
pub mod Lora
pub mod PacketLoss
pub mod Packet
pub mod Mesh
pub mod Schema
