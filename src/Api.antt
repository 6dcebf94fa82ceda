-- ===== src/Api.antt =====
-- backend/internal/api: the REST interface.
pub mod Response
pub mod Handlers
pub mod Edges
pub mod Router
pub mod Guards
