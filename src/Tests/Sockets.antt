-- ===== src/Tests/Sockets.antt =====
-- A ship that reconnects before its old socket is torn down.
use maritime_simulation.Base.{ℕ, ◌≡◌, refl, true, false, Any, List, [], ◌∷◌, some, arith, inl}
use maritime_simulation.Base.Text.{codes, text_eq}
use maritime_simulation.Base.Dict.{lookup, insert}
use maritime_simulation.Ws.Hub.{
  Client, Hub, kind_node, new_hub, node_client, register_node, unregister_node, close,
}
use maritime_simulation.Ws.Hub.Sockets.{
  SocketEvent, connect, teardown, on_event, on_events, registered, one_open_socket, reconnect_race,
}
use maritime_simulation.Ws.Jobs.{
  offer, take_job, take_first, on_job_event, JobEvent, arrived, worker_ready, no_jobs,
  on_job_events,
}
use maritime_simulation.Tests.Sample.{job}

abbrev socket : Client
socket = record {
  kind = kind_node;
  session_id = codes "s1";
  node_id = codes "A";
  send = [];
  closed = false;
}

abbrev fresh : Hub
fresh = new_hub 0 (λ _. socket)

abbrev events : List SocketEvent
events = connect 1 ∷ connect 2 ∷ teardown 1 ∷ []

second_open : ((on_events events fresh).clients 2).closed ≡ false
unfolding on_events on_event register_node unregister_node close node_client lookup insert text_eq
    new_hub
second_open = refl

second_connected : Any (λ k. k ≡ 2) (registered events [])
unfolding registered
second_connected = inl refl

one_open_socket_example : ◌≡◌ {A = ℕ} 2 2
one_open_socket_example =
    one_open_socket events fresh 2 2 second_connected second_connected second_open second_open refl
      refl

first_registered : node_client (codes "s1") (codes "A") (register_node 1 fresh) ≡ some 1
unfolding register_node close node_client lookup insert text_eq new_hub
first_registered = refl

reconnect_race_example :
    (((register_node 2 (register_node 1 fresh)).clients 1).closed ≡ true)
    × (unregister_node 1 (register_node 2 (register_node 1 fresh))
        ≡ (false, register_node 2 (register_node 1 fresh)))
    × (node_client (codes "s1") (codes "A") (register_node 2 (register_node 1 fresh)) ≡ some 2)
unfolding register_node node_client lookup new_hub
reconnect_race_example =
    reconnect_race 1 2 (register_node 1 fresh) (λ e. ground arith) first_registered refl refl

-- A worker takes the first of three frames.
abbrev traffic : List JobEvent
traffic = arrived job ∷ worker_ready ∷ arrived job ∷ arrived job ∷ []

one_taken : (on_job_events traffic no_jobs).handed ≡ job ∷ []
unfolding on_job_events on_job_event offer take_job take_first no_jobs
one_taken = refl
