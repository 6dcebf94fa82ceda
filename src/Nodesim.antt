-- ===== src/Nodesim.antt =====
-- cmd/nodesim/main.go: the simulator of a fleet of ships, which is the program's reference client.
-- Each ship is a state that events change, and the goroutines of a ship are lists in that state.
pub mod Ship
pub mod Payload
pub mod Link
pub mod Reader
pub mod Fleet
