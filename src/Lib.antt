-- ===== src/Lib.antt =====
-- Verification of the LoRa mesh simulation server (backend/): ships put frames on a simulated
-- radio, the server decides what arrives, keeps the routing table, and accounts for every frame.
--
-- The parts, and the files that model them:
-- - Base: Go's strings as lists of bytes (Text), maps as association lists (Dict), `int` where it
--   may be negative (Int), lists and tests. Floats: `float64` as the interface `Float`, with the
--   laws of comparison that the proofs use (`IsIeee`) and an instance that meets them.
-- - Domain (backend/internal/domain): Lora is lora.go, PacketLoss packetloss.go, Geo geo.go, Packet
--   packet.go, Mesh mesh.go (`build_topology` is BuildTopology, with a function for each of its
--   loops), Schema schema.go (`decode_payload` is DecodePayload). Errors holds the sentinel errors.
-- - Protocol (backend/internal/protocol/events.go): the messages.
-- - Service (backend/internal/service): Ports is the interface of what the services call, namely
--   the repositories, the broadcaster, the random source and the clock, over any type of outside
--   states, with the state `Sim` and its monad. Anomaly is anomaly.go. Engine is
--   simulation_engine.go: Transmit cuts HandleTransmit at its early returns, Frames holds the
--   helpers that it ends in, Handlers the other handlers, Cache the edge cache. Monitors is
--   MonitorConnected. Topology is mesh_topology.go, Sessions session_service.go, Schemas
--   schema_service.go, Params EnvParamsFrom.
-- - Ws (backend/internal/ws): Gateway is the dispatch of gateway.go and Jobs its channel, Hub
--   hub.go with the queue and the close of client.go, Books the accounts of a session over
--   histories of frames.
-- - Repository (backend/internal/repository): Redis and Postgres are the interfaces of the two
--   databases, Keys is keys.go, State state_repo.go, Routes route_repo.go, Geo geo_repo.go, Sessions
--   session_repo.go, Edges edge_repo.go, Schemas schema_repo.go, Telemetry telemetry_repo.go.
-- - Api (backend/internal/api): Response is response.go with queryInt, Handlers and Edges are the
--   handlers of handlers.go, Router the routes of router.go.
-- - Server (backend/cmd/server/main.go): `assemble` fills the interface Ports from the
--   repositories, `outside_of` takes the hub for the broadcaster, and Sockets holds the two
--   endpoints of gateway.go. Params, Stops and Weather follow calls through all layers.
-- - Nodesim (backend/cmd/nodesim/main.go): Ship is the state of a virtual ship, Reader its reader,
--   handleReceive and transmitTelemetry, Link transmitWithRetry one step at a time, Payload
--   buildPayload, Fleet the events of `run` and their histories.
--
-- How they interact: a socket's frame becomes a job (Ws/Gateway), a worker dispatches it to a
-- handler of the engine, which reads the session's state through Ports and answers through the
-- broadcaster; the scheduler recomputes the routing tables of the active sessions; the session
-- service starts and stops sessions. Every call that acts on the surroundings is recorded in
-- `Sim.trace`, latest first, and the theorems on the services speak of this record.
--
-- Bounds: the loop over the hop levels runs over the levels 2 to 5, as in the source, and every
-- other loop runs over a list; no definition needs fuel, except that `follow`, which is part of a
-- statement, counts the steps that it takes.
--
-- Not modelled: what SQL statements do in the database (rows and counts are parameters), and that
-- the columns of an SQL text stand in the order of the scan; the expiry of Redis keys other than
-- those of the deduplication; the middleware of the REST interface and its answer to OPTIONS; the
-- texts of messages, the configuration, the socket pumps, the flags and the REST calls of the
-- node simulator, the web dashboard, and the wrap-around of the 64-bit counters. JSON, base64,
-- MessagePack, trigonometry and the random source are parameters. Locks are left out: a method is
-- a single step, although `registerNode` closes the socket that it replaces only after the lock
-- is released. A Go map is walked in the order of its list.
pub mod Base
pub mod Floats
pub mod Domain
pub mod Protocol
pub mod Service
pub mod Repository
pub mod Server
pub mod Api
pub mod Ws
pub mod Nodesim
pub mod Tests
