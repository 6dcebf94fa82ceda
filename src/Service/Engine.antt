-- ===== src/Service/Engine.antt =====
-- service/simulation_engine.go: the virtual ether. A handler is a computation over the interface
-- of Service/Ports.antt; the early returns of a long handler cut it into stages, each a function.
pub mod Cache
pub mod Frames
pub mod Transmit
pub mod Handlers
pub mod Ledger
pub mod Accounting
pub mod Admission
pub mod Guards
