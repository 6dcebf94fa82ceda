-- ===== src/Protocol.antt =====
-- protocol/events.go: the messages of the WebSocket contract. The `event` discriminator of a
-- message is its constructor, and closed sets of string constants are data types. Of an error
-- event the code is kept and the text left out.
use maritime_simulation.Base.{ℕ, Bool, List}
use maritime_simulation.Base.Int.{ℤ}
use maritime_simulation.Base.Text.{Text}
use maritime_simulation.Domain.Entities.{TransmitPacket, RouteEntry, RouteStatus}
use maritime_simulation.Domain.Schema.{SchemaField}

-- The codes of `ErrorEvent` that the engine and the gateway send.
pub data ErrorCode : Type 0 where
  invalid_coordinates invalid_envelope transmitter_mismatch invalid_base64 : ErrorCode
  session_unavailable invalid_json invalid_ping invalid_transmit invalid_ack unknown_event :
      ErrorCode

-- NodePing
pub record NodePing (W : Type 0) : Type 0 where
  pub node_id : Text
  pub session_id : Text
  pub lat : W
  pub lng : W

-- NodeAck
pub record NodeAck : Type 0 where
  pub packet_id : Text
  pub receiver_node : Text
  pub status : Text

-- RoutingUpdate
pub record RoutingUpdate (W : Type 0) : Type 0 where
  pub parent_target : Text
  pub parent_is_edge : Bool
  pub distance_to_parent_km : W
  pub hop_level : ℕ
  pub status : RouteStatus

-- EnvSyncParams
pub record EnvSyncParams (W : Type 0) : Type 0 where
  pub spreading_factor : ℤ
  pub max_payload_bytes : ℕ
  pub ack_timeout_ms : ℕ
  pub max_retries : ℕ
  pub tx_power_dbm : ℤ
  pub max_range_km : W
  pub weather_severity : W

-- SchemaSync
pub record SchemaSync : Type 0 where
  pub fields : List SchemaField
  pub estimated_packed_bytes : ℕ

-- MeshAck
pub record MeshAck : Type 0 where
  pub packet_id : Text
  pub receiver_node : Text
  pub status : Text
  pub duplicate : Bool

-- The types of packet events that the engine emits.
pub data PacketEventType : Type 0 where
  forward deliver drop duplicate ack ack_drop : PacketEventType

-- The reasons that a packet event carries.
pub data Reason : Type 0 where
  no_reason sf_limit_exceeded max_hops_exceeded transmitter_no_position target_offline : Reason
  target_no_position air_loss out_of_range duplicate_retry_filtered ack_lost_in_the_air : Reason

-- PacketEvent
pub record PacketEvent (W : Type 0) : Type 0 where
  pub type : PacketEventType
  pub packet_id : Text
  pub from_node : Text
  pub to_node : Text
  pub origin_node : Text
  pub hop_count : ℤ
  pub distance_km : W
  pub loss_probability : W
  pub reason : Reason
  pub at : ℕ

-- NodeStatus
pub record NodeStatus : Type 0 where
  pub node_id : Text
  pub online : Bool

-- Every payload that a service hands to the hub.
pub data Message (W : Type 0) : Type 0 where
  error_event : ErrorCode → Message W
  node_ping : NodePing W → Message W
  receive_rf : TransmitPacket → Message W
  mesh_ack : MeshAck → Message W
  packet_event : PacketEvent W → Message W
  env_sync : EnvSyncParams W → Message W
  schema_sync : SchemaSync → Message W
  routing_update : RoutingUpdate W → Message W
  routing_table : List (RouteEntry W) → Message W
  node_status : NodeStatus → Message W
  session_ended : Text → Message W
