-- ===== src/Repository.antt =====
-- backend/internal/repository: the Redis and PostgreSQL repositories.
pub mod Redis
pub mod Keys
pub mod State
pub mod Routes
pub mod Geo
pub mod Postgres
pub mod Sessions
pub mod Edges
pub mod Schemas
pub mod Telemetry
