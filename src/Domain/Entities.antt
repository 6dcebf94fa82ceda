-- ===== src/Domain/Entities.antt =====
-- domain/entities.go, the records of domain/mesh.go and those of domain/packet.go, over a type
-- `W` of floats. Instants of time are whole nanoseconds.
use maritime_simulation.Base.{ℕ, Bool, List, Option}
use maritime_simulation.Base.Int.{ℤ}
use maritime_simulation.Base.Text.{Text}
use maritime_simulation.Base.Dict.{Dict}

-- Session
pub record Session (W : Type 0) : Type 0 where
  pub id : Text
  pub session_name : Text
  pub spreading_factor : ℤ
  pub tx_power_dbm : ℤ
  pub weather_severity : W
  pub is_active : Bool
  pub stats_snapshot : Option (Dict ℤ)
  pub created_at : ℕ
  pub ended_at : Option ℕ

-- Edge
pub record Edge (W : Type 0) : Type 0 where
  pub id : ℕ
  pub edge_code : Text
  pub name : Text
  pub latitude : W
  pub longitude : W
  pub created_at : ℕ
  pub updated_at : ℕ

-- NodePosition
pub record NodePosition (W : Type 0) : Type 0 where
  pub id : Text
  pub lat : W
  pub lng : W

-- RouteStatusRouted and RouteStatusIsolated
pub data RouteStatus : Type 0 where
  routed isolated : RouteStatus

-- RouteEntry
pub record RouteEntry (W : Type 0) : Type 0 where
  pub node_id : Text
  pub parent : Text
  pub parent_is_edge : Bool
  pub distance_km : W
  pub hop_level : ℕ
  pub status : RouteStatus

-- TransmitPacket
pub record TransmitPacket : Type 0 where
  pub event : Text
  pub packet_id : Text
  pub origin_node : Text
  pub target_parent : Text
  pub hop_count : ℤ
  pub routing_path : List Text
  pub binary_payload_b64 : Text
