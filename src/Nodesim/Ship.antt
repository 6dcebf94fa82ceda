-- ===== src/Nodesim/Ship.antt =====
-- cmd/nodesim/main.go: the state of one virtual ship. The counters of the fleet are shared by its
-- ships, and here they hold what this ship adds to them.
use maritime_simulation.Base.{ℕ, Bool, true, false, ◌||◌, List, [], ◌∷◌, ◌==◌, if◌then◌else◌}
use maritime_simulation.Base.Int.{ℤ, pos}
use maritime_simulation.Base.Text.{Text}
use maritime_simulation.Base.Dict.{Dict}
use maritime_simulation.Domain.Entities.{TransmitPacket}
use maritime_simulation.Domain.Schema.{SchemaField}
use maritime_simulation.Protocol.{NodeAck, NodePing}

-- options, the ones that a ship reads while it runs; `ping_hours` is `pingInterval.Hours()`.
pub record Options (W : Type 0) : Type 0 where
  pub speed_kmh : W
  pub ping_hours : W
  pub ignore_sf : Bool

-- fleetStats
pub record FleetStats : Type 0 where
  pub sent : ℕ
  pub acked : ℕ
  pub retries : ℕ
  pub failed : ℕ
  pub forwarded : ℕ
  pub received : ℕ
  pub dup_seen : ℕ

-- transmitFrame has the fields of the domain's packet.
abbrev pub TransmitFrame : Type 0
TransmitFrame = TransmitPacket

-- Where a run of `transmitWithRetry` stands: before an attempt, after it has put a channel into
-- `waiters` and read the timeout, in its select, or returned, for one of four reasons.
pub data Phase : Type 0 where
  ready : Phase
  registered waiting : ℕ → ℕ → Phase
  acknowledged unwritten cancelled dead : Phase

-- A goroutine in `transmitWithRetry`, with the variable of its loop. `is_relay` tells which of
-- the two callers started it.
pub record Transmit : Type 0 where
  pub frame : TransmitFrame
  pub is_relay : Bool
  pub attempt : ℕ
  pub phase : Phase

-- What a ship writes to its socket.
pub data Outbound (W : Type 0) : Type 0 where
  ack_message : NodeAck → Outbound W
  ping_message : NodePing W → Outbound W
  data_frame : TransmitFrame → Outbound W

-- node, with the channels of `waiters` as numbers: those below `next_chan` were made, and
-- `closed_chans` are closed. `inbox` holds the frames of the goroutines in `handleReceive`,
-- `transmits` those in `transmitWithRetry`. `panicked` says that a closed channel was closed again.
-- `out` is what the socket took, and `heard` the packets of the acknowledgements read, both
-- latest first. `done` is the end of the context, and `running` says that `run` has not returned.
pub record Ship (W : Type 0) : Type 0 where
  pub id : Text
  pub session_id : Text
  pub opt : Options W
  pub stats : FleetStats
  pub lat : W
  pub lng : W
  pub heading : W
  pub parent : Text
  pub parent_is_edge : Bool
  pub is_routed : Bool
  pub ack_timeout : ℕ
  pub max_payload : ℤ
  pub fields : List SchemaField
  pub seen : Dict Bool
  pub waiters : Dict ℕ
  pub pkt_seq : ℕ
  pub next_chan : ℕ
  pub closed_chans : List ℕ
  pub panicked : Bool
  pub inbox : List TransmitFrame
  pub transmits : List Transmit
  pub reading : Bool
  pub done : Bool
  pub running : Bool
  pub out : List (Outbound W)
  pub heard : List Text

abbrev pub no_stats : FleetStats
no_stats = record {
  sent = 0;
  acked = 0;
  retries = 0;
  failed = 0;
  forwarded = 0;
  received = 0;
  dup_seen = 0;
}

-- The literal in `main`.
unfoldable pub launch : {W : Type 0} → Text → Text → Options W → W → W → W → Ship W
launch id session_id opt lat lng heading = record {
  id = id;
  session_id = session_id;
  opt = opt;
  stats = no_stats;
  lat = lat;
  lng = lng;
  heading = heading;
  parent = [];
  parent_is_edge = false;
  is_routed = false;
  ack_timeout = 2000;
  max_payload = pos 242;
  fields = [];
  seen = [];
  waiters = [];
  pkt_seq = 0;
  next_chan = 0;
  closed_chans = [];
  panicked = false;
  inbox = [];
  transmits = [];
  reading = true;
  done = false;
  running = true;
  out = [];
  heard = [];
}

-- The channel is among those.
unfoldable pub has_chan : ℕ → List ℕ → Bool
has_chan c [] = false
has_chan c (d ∷ ds) = d == c || has_chan c ds

module _ {W : Type 0} where
  -- writeJSON, of a socket that takes the message or does not.
  unfoldable pub write_json : Bool → Outbound W → Ship W → Ship W
  write_json ok m s = if ok then record s { out = m ∷ s.out } else s

  -- close
  unfoldable pub close_chan : ℕ → Ship W → Ship W
  close_chan c s =
      if has_chan c s.closed_chans
      then record s { panicked = true }
      else record s { closed_chans = c ∷ s.closed_chans }

-- A run of `transmitWithRetry` before its first attempt.
abbrev pub first_attempt : Bool → TransmitFrame → Transmit
first_attempt is_relay frame = record {
  frame = frame;
  is_relay = is_relay;
  attempt = 0;
  phase = ready;
}

module _ {W : Type 0} where
  -- `go n.transmitWithRetry(...)`, or a call of it at the end of a goroutine.
  unfoldable pub spawn : Bool → TransmitFrame → Ship W → Ship W
  spawn is_relay frame s = record s { transmits = first_attempt is_relay frame ∷ s.transmits }
