-- ===== src/Service/Monitors.antt =====
-- MonitorConnected of service/simulation_engine.go: what a dashboard is sent when it connects.
use maritime_simulation.Base.{List, [], ◌∷◌, ◌++◌}
use maritime_simulation.Base.Text.{Text}
use maritime_simulation.Floats.{Float}
use maritime_simulation.Domain.Errors.{Result, ok, err}
use maritime_simulation.Protocol.{Message, env_sync, routing_table}
use maritime_simulation.Service.Params.{env_params_from}
use maritime_simulation.Service.Ports.{Ports, SessionParams, M, call, pure, ◌>>=◌}
use maritime_simulation.Service.Topology.{TopologySnapshot, snapshot}

module _ {W S : Type 0} ⦃fl : Float W⦄ (p : Ports W S) where
  abbrev prime_params : Result (SessionParams W) → List (Message W)
  prime_params (ok q) = env_sync (env_params_from q) ∷ []
  prime_params (err _) = []

  abbrev prime_routes : Result (TopologySnapshot W) → List (Message W)
  prime_routes (ok snap) = routing_table snap.routes ∷ []
  prime_routes (err _) = []

  -- MonitorConnected; the result is what it hands to `send`, in order.
  unfoldable pub monitor_connected : Text → M W S (List (Message W))
  monitor_connected sid = do
    params ← call (p.get_params sid)
    snap ← snapshot p sid
    pure (prime_params params ++ prime_routes snap)
