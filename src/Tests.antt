-- ===== src/Tests.antt =====
-- Runs of the model on concrete inputs: an interface to the outside, and an instance of each
-- theorem that the results list names.
mod Sample
mod Mesh
mod Engine
mod Sockets
mod Lifecycle
mod Frames
mod Nodesim
mod Store
mod Rest
mod Wiring
