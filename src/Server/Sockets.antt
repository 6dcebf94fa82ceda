-- ===== src/Server/Sockets.antt =====
-- ws/gateway.go: the two endpoints that open a socket, over the hub of ws/hub.go and the server's
-- repositories, and what the end of a read pump does. The pumps themselves are left out: what they
-- read goes through Ws/Jobs.
pub mod Connects
pub mod Stops
use maritime_simulation.Base.{
  ℕ, Bool, true, false, not, ◌||◌, ◌==◌, List, [], ◌∷◌, Option, none, some, if◌then◌else◌, length,
}
use maritime_simulation.Base.Text.{Text}
use maritime_simulation.Floats.{Float}
use maritime_simulation.Protocol.{Message}
use maritime_simulation.Service.Ports.{Ports, Sim}
use maritime_simulation.Service.Engine.Handlers.{session_active, node_connected, node_disconnected}
use maritime_simulation.Service.Monitors.{monitor_connected}
use maritime_simulation.Ws.Gateway.{is_node_id}
use maritime_simulation.Ws.Hub
use maritime_simulation.Ws.Hub.{
  Hub, ClientKind, kind_node, kind_monitor, set_client, register_node, register_monitor, try_send,
  unregister_node, unregister_monitor, close,
}
use maritime_simulation.Server.{Outside, World}

-- The random source, the clock and the base64 decoder, over what they keep.
pub record Env (W E : Type 0) : Type 0 where
  pub rand_float01 : E → W × E
  pub now : E → ℕ × E
  pub decode_base64 : Text → Option (List ℕ)

-- The hub is the `Broadcaster`.
unfoldable pub outside_of :
    {W E : Type 0} → (Message W → Option (List ℕ)) → Env W E → Outside W (Hub × E)
outside_of marshal env = record {
  online_nodes = λ sid x. Hub.online_nodes sid x.0;
  kick_session = λ sid x. (Hub.kick_session sid x.0, x.1);
  send_to_node =
      λ sid node m x. let (b, h) = Hub.send_to_node marshal sid node m x.0 in (b, (h, x.1));
  broadcast_to_nodes = λ sid m x. (Hub.broadcast_to_nodes marshal sid m x.0, x.1);
  broadcast_to_monitors = λ sid m x. (Hub.broadcast_to_monitors marshal sid m x.0, x.1);
  node_online = λ sid node x. Hub.node_online sid node x.0;
  rand_float01 = λ x. let (v, e) = env.rand_float01 x.1 in (v, (x.0, e));
  now = λ x. let (t, e) = env.now x.1 in (t, (x.0, e));
  decode_base64 = env.decode_base64;
}

-- newClient, at the pointer `i`.
unfoldable pub new_client : ℕ → ClientKind → Text → Text → Hub → Hub
new_client i kind sid node h =
    set_client i
      (record { kind = kind; session_id = sid; node_id = node; send = []; closed = false }) h

-- How a request for a socket ends: 400, 404, a failed upgrade, or a socket.
pub data Opening : Type 0 where
  bad_request unknown_session not_upgraded opened : Opening

module _ {W : Type 0} (marshal : Message W → Option (List ℕ)) where
  abbrev prime_one : ℕ → Option (List ℕ) → Hub → Hub
  prime_one i none h = h
  prime_one i (some raw) h = (try_send i raw h).1

  -- The callback `send` of HandleMonitorWS, on each of the messages in turn.
  unfoldable pub prime : ℕ → List (Message W) → Hub → Hub
  prime i [] h = h
  prime i (m ∷ ms) h = prime i ms (prime_one i (marshal m) h)

module _ {W R D E : Type 0} ⦃fl : Float W⦄ (p : Ports W (World R D (Hub × E))) where
  abbrev on_hub : (Hub → Hub) → Sim W (World R D (Hub × E)) → Sim W (World R D (Hub × E))
  on_hub f s = record s {
    world = record s.world { outside = (f s.world.outside.0, s.world.outside.1) };
  }

  unfoldable pub open_node :
      ℕ → Bool → Text → Text → Sim W (World R D (Hub × E)) → Opening × Sim W (World R D (Hub × E))
  open_node i false sid node s = (not_upgraded, s)
  open_node i true sid node s =
      let (_, t) =
        node_connected p sid node
          (on_hub (λ h. register_node i (new_client i kind_node sid node h)) s) in
      (opened, t)

  unfoldable pub admit_node :
      ℕ
      → Bool
      → Text
      → Text
      → Bool × Sim W (World R D (Hub × E))
      → Opening × Sim W (World R D (Hub × E))
  admit_node i up sid node (false, s) = (unknown_session, s)
  admit_node i up sid node (true, s) = open_node i up sid node s

  -- HandleNodeWS; `i` is the new client's pointer, and `up` says whether the upgrade succeeds.
  unfoldable pub handle_node_ws :
      ℕ → Bool → Text → Text → Sim W (World R D (Hub × E)) → Opening × Sim W (World R D (Hub × E))
  handle_node_ws i up sid node s =
      if length sid == 0 || not (is_node_id node)
      then (bad_request, s)
      else admit_node i up sid node (session_active p sid s)

  -- The end of a ship's read pump: the socket is closed, and a ship that has no newer one is gone.
  unfoldable pub end_node :
      ℕ → Text → Text → Sim W (World R D (Hub × E)) → Unit {0} × Sim W (World R D (Hub × E))
  end_node i sid node s =
      let (gone, h) = unregister_node i (close i s.world.outside.0) in
      let t = on_hub (λ _. h) s in if gone then node_disconnected p sid node t else (tt, t)

  -- The end of a monitor's read pump.
  unfoldable pub end_monitor : ℕ → Sim W (World R D (Hub × E)) → Sim W (World R D (Hub × E))
  end_monitor i s = on_hub (λ h. unregister_monitor i (close i h)) s

  module _ (marshal : Message W → Option (List ℕ)) where
    unfoldable pub open_monitor :
        ℕ → Bool → Text → Sim W (World R D (Hub × E)) → Opening × Sim W (World R D (Hub × E))
    open_monitor i false sid s = (not_upgraded, s)
    open_monitor i true sid s =
        let (ms, t) =
          monitor_connected p sid
            (on_hub (λ h. register_monitor i (new_client i kind_monitor sid [] h)) s) in
        (opened, on_hub (prime marshal i ms) t)

    unfoldable pub admit_monitor :
        ℕ → Bool → Text → Bool × Sim W (World R D (Hub × E)) → Opening × Sim W (World R D (Hub × E))
    admit_monitor i up sid (false, s) = (unknown_session, s)
    admit_monitor i up sid (true, s) = open_monitor i up sid s

    -- HandleMonitorWS
    unfoldable pub handle_monitor_ws :
        ℕ → Bool → Text → Sim W (World R D (Hub × E)) → Opening × Sim W (World R D (Hub × E))
    handle_monitor_ws i up sid s =
        if length sid == 0
        then (bad_request, s)
        else admit_monitor i up sid (session_active p sid s)
