-- ===== src/Ws/Hub.antt =====
-- ws/hub.go and the queue and teardown of ws/client.go: the registry of live sockets. A pointer
-- to a client is a number, and the hub's state holds what each of them points to. JSON is a
-- parameter. Each method is one step. In the source the lock covers the registry only: `registerNode`
-- closes the replaced socket, and the other methods close or send to the sockets of a snapshot,
-- after the lock is released. So statements about states hold once the methods begun have returned.
pub mod Registry
pub mod Kept
pub mod Sockets
use maritime_simulation.Base.{
  ℕ, ◌+◌, Bool, true, false, List, [], ◌∷◌, ◌++◌, Option, none, some, ltb, ◌==◌, map, length,
  if◌then◌else◌,
}
use maritime_simulation.Base.Text.{Text}
use maritime_simulation.Base.Dict.{Dict, lookup, insert, erase}
use maritime_simulation.Service.Topology.{sort_texts}

-- clientKind
pub data ClientKind : Type 0 where
  kind_node kind_monitor : ClientKind

-- Client; `send` is its buffered channel, and `closed` says that its channel `done` is closed.
pub record Client : Type 0 where
  pub kind : ClientKind
  pub session_id : Text
  pub node_id : Text
  pub send : List (List ℕ)
  pub closed : Bool

-- Hub, with the clients that exist.
pub record Hub : Type 0 where
  pub send_buffer : ℕ
  pub nodes : Dict (Dict ℕ)
  pub monitors : Dict (List ℕ)
  pub clients : ℕ → Client

-- NewHub; an int that is not positive is 0 here.
unfoldable pub new_hub : ℕ → (ℕ → Client) → Hub
new_hub send_buffer clients = record {
  send_buffer = if send_buffer == 0 then 256 else send_buffer;
  nodes = [];
  monitors = [];
  clients = clients;
}

-- A nil map or set reads as an empty one.
abbrev pub or_empty {ℓ} : {A : Type ℓ} → Option (List A) → List A
or_empty none = []
or_empty (some xs) = xs

abbrev pub set_client : ℕ → Client → Hub → Hub
set_client i c h = record h { clients = λ j. if j == i then c else h.clients j }

-- h.nodes[sessionID][nodeID]
unfoldable pub node_client : Text → Text → Hub → Option ℕ
node_client sid node h = lookup node (or_empty (lookup sid h.nodes))

-- trySend
unfoldable pub try_send : ℕ → List ℕ → Hub → Bool × Hub
try_send i raw h =
    let c = h.clients i in
    if c.closed
    then (false, h)
    else if ltb (length c.send) h.send_buffer
    then (true, set_client i (record c { send = c.send ++ (raw ∷ []) }) h)
    else (false, h)

-- Close
unfoldable pub close : ℕ → Hub → Hub
close i h = set_client i (record (h.clients i) { closed = true }) h

unfoldable pub send_all : List ℕ → List ℕ → Hub → Hub
send_all [] raw h = h
send_all (i ∷ rest) raw h = send_all rest raw (try_send i raw h).1

unfoldable pub close_all : List ℕ → Hub → Hub
close_all [] h = h
close_all (i ∷ rest) h = close_all rest (close i h)

-- snapshotNodes
unfoldable pub snapshot_nodes : Text → Hub → List ℕ
snapshot_nodes sid h = map (λ kv. kv.1) (or_empty (lookup sid h.nodes))

-- snapshotMonitors
unfoldable pub snapshot_monitors : Text → Hub → List ℕ
snapshot_monitors sid h = or_empty (lookup sid h.monitors)

module _ {P : Type 0} (marshal : P → Option (List ℕ)) where
  -- SendToNode
  unfoldable pub send_to_node : Text → Text → P → Hub → Bool × Hub
  send_to_node sid node payload h = elim (marshal payload) [
    | none ↦ (false, h)
    | some raw ↦ elim (node_client sid node h) [ none ↦ (false, h) | some i ↦ try_send i raw h ]
  ]

  -- BroadcastToNodes
  unfoldable pub broadcast_to_nodes : Text → P → Hub → Hub
  broadcast_to_nodes sid payload h = elim (marshal payload) [
    | none ↦ h
    | some raw ↦ send_all (snapshot_nodes sid h) raw h
  ]

  -- BroadcastToMonitors
  unfoldable pub broadcast_to_monitors : Text → P → Hub → Hub
  broadcast_to_monitors sid payload h =
      if length (snapshot_monitors sid h) == 0
      then h
      else elim (marshal payload) [ none ↦ h | some raw ↦ send_all (snapshot_monitors sid h) raw h ]

-- NodeOnline
unfoldable pub node_online : Text → Text → Hub → Bool
node_online sid node h = elim (node_client sid node h) [ none ↦ false | some _ ↦ true ]

-- OnlineNodes
unfoldable pub online_nodes : Text → Hub → List Text
online_nodes sid h = sort_texts (map (λ kv. kv.0) (or_empty (lookup sid h.nodes)))

-- KickSession
unfoldable pub kick_session : Text → Hub → Hub
kick_session sid h = close_all (snapshot_nodes sid h ++ snapshot_monitors sid h) h

abbrev pub close_old : Option ℕ → Hub → Hub
close_old none h = h
close_old (some old) h = close old h

abbrev pub entered : ℕ → Hub → Hub
entered i h =
    let c = h.clients i in
    record h {
      nodes =
          insert c.session_id (insert c.node_id i (or_empty (lookup c.session_id h.nodes))) h.nodes;
    }

-- registerNode
unfoldable pub register_node : ℕ → Hub → Hub
register_node i h =
    let c = h.clients i in close_old (node_client c.session_id c.node_id h) (entered i h)

-- A map of maps or sets after one of its entries has lost a member.
abbrev pub tidy {ℓ} : {A : Type ℓ} → Text → List A → Dict (List A) → Dict (List A)
tidy sid [] d = erase sid d
tidy sid (x ∷ xs) d = insert sid (x ∷ xs) d

abbrev pub points_to : ℕ → Option ℕ → Bool
points_to i none = false
points_to i (some j) = j == i

-- unregisterNode
unfoldable pub unregister_node : ℕ → Hub → Bool × Hub
unregister_node i h =
    let c = h.clients i in
    if points_to i (node_client c.session_id c.node_id h)
    then (
      true,
      record h {
        nodes =
            tidy c.session_id (erase c.node_id (or_empty (lookup c.session_id h.nodes))) h.nodes;
      },
    )
    else (false, h)

abbrev pub without : ℕ → List ℕ → List ℕ
without i [] = []
without i (j ∷ js) = let rest = without i js in if j == i then rest else j ∷ rest

-- registerMonitor
unfoldable pub register_monitor : ℕ → Hub → Hub
register_monitor i h =
    let c = h.clients i in
    record h {
      monitors =
          insert c.session_id (i ∷ without i (or_empty (lookup c.session_id h.monitors)))
            h.monitors;
    }

-- unregisterMonitor
unfoldable pub unregister_monitor : ℕ → Hub → Hub
unregister_monitor i h =
    let c = h.clients i in
    record h {
      monitors =
          tidy c.session_id (without i (or_empty (lookup c.session_id h.monitors))) h.monitors;
    }

abbrev pub all_of {ℓ} : {A : Type ℓ} → Dict (List A) → List A
all_of [] = []
all_of ((sid, xs) ∷ rest) = xs ++ all_of rest

-- Shutdown
unfoldable pub shutdown : Hub → Hub
shutdown h = close_all (map (λ kv. kv.1) (all_of h.nodes) ++ all_of h.monitors) h

abbrev pub total_length {ℓ} : {A : Type ℓ} → ℕ → Dict (List A) → ℕ
total_length n [] = n
total_length n ((sid, xs) ∷ rest) = total_length (n + length xs) rest

-- Counts
unfoldable pub counts : Hub → ℕ × ℕ
counts h = (total_length 0 h.nodes, total_length 0 h.monitors)
