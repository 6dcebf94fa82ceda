-- ===== src/Server/Sockets/Connects.antt =====
-- What a ship that connects finds, and what the hub holds then.
use maritime_simulation.Base.{
  ℕ, Bool, true, false, not, ◌≡◌, ◌≢◌, refl, ap, ◌∙◌, inl, inr, Bool-cases, Option-cases, List, [],
  ◌∷◌, Option, none, some, arith, ◌&&◌, ◌||◌, ◌==◌, length, if◌then◌else◌,
}
use maritime_simulation.Base.Text.{Text, text_eq}
use maritime_simulation.Base.Dict.{lookup}
use maritime_simulation.Domain.Errors.{Result, ok, err}
use maritime_simulation.Domain.Schema.{DynamicSchema}
use maritime_simulation.Domain.Entities.{RouteEntry}
use maritime_simulation.Floats.{Float}
use maritime_simulation.Protocol.{Message}
use maritime_simulation.Service.Ports.{Ports, SessionParams, Sim}
use maritime_simulation.Service.Engine.Handlers.{
  session_active, node_connected, push_params, push_schema, push_route,
}
use maritime_simulation.Repository.Redis.{Redis, Codec}
use maritime_simulation.Repository.Postgres.{Pool, Json}
use maritime_simulation.Ws.Gateway.{is_node_id}
use maritime_simulation.Ws.Hub.{
  Hub, node_client, kind_node, close, close_old, entered, register_node, try_send, send_all,
  send_to_node, broadcast_to_monitors, broadcast_to_nodes, snapshot_monitors, snapshot_nodes,
  or_empty,
}
use maritime_simulation.Ws.Hub.Registry.{register_node-node_client}
use maritime_simulation.Server.{World, assemble}
use maritime_simulation.Server.Sockets.{
  Env, outside_of, new_client, Opening, bad_request, unknown_session, not_upgraded, opened,
  open_node, admit_node, handle_node_ws,
}

-- The same ships and monitors are registered, and the same sockets are closed.
pub record Same (h k : Hub) : Type 0 where
  pub ships : k.nodes ≡ h.nodes
  pub ends : (i : ℕ) → (k.clients i).closed ≡ (h.clients i).closed
  pub dashboards : k.monitors ≡ h.monitors

same : (h : Hub) → Same h h
same h = record { ships = refl; ends = λ i. refl; dashboards = refl }

pub join : (a b c : Hub) → Same a b → Same b c → Same a c
join a b c p q = record {
  ships = q.ships ∙ p.ships;
  ends = λ i. q.ends i ∙ p.ends i;
  dashboards = q.dashboards ∙ p.dashboards;
}

same_entry : (h k : Hub) (x y : Text) → k.nodes ≡ h.nodes → node_client x y k ≡ node_client x y h
unfolding node_client
same_entry h k x y e = ap (λ d. lookup y (or_empty (lookup x d))) e

try_send-Same : (j : ℕ) (raw : List ℕ) (h : Hub) → Same h (try_send j raw h).1
unfolding try_send
try_send-Same j raw h = record {
  ships = ground arith;
  ends = λ i. ground arith;
  dashboards = ground arith;
}

send_all-Same : (js raw : List ℕ) (h : Hub) → Same h (send_all js raw h)
unfolding send_all
send_all-Same [] raw h = same _
send_all-Same (j ∷ js) raw h =
    join h (try_send j raw h).1 _ (try_send-Same j raw h)
      (send_all-Same js raw (try_send j raw h).1)

own :
    (i : ℕ) (sid node : Text) (h : Hub)
    → (new_client i kind_node sid node h).clients i
      ≡ record { kind = kind_node; session_id = sid; node_id = node; send = []; closed = false }
unfolding new_client
own i sid node h = ground arith

register-entries :
    (i : ℕ) (sid node x y : Text) (h : Hub)
    → node_client x y (register_node i (new_client i kind_node sid node h))
      ≡ (if text_eq sid x && text_eq node y then some i else node_client x y h)
unfolding new_client node_client
register-entries i sid node x y h =
    register_node-node_client i x y (new_client i kind_node sid node h) ∙ rw (own i sid node h) refl

close_old-open :
    (o : Option ℕ) (i : ℕ) (h : Hub)
    → o ≢ some i
    → (h.clients i).closed ≡ false
    → ((close_old o h).clients i).closed ≡ false
unfolding close
close_old-open none i h ne e = e
close_old-open (some j) i h ne e = ground arith

register-open :
    (i : ℕ) (sid node : Text) (h : Hub)
    → node_client sid node h ≢ some i
    → ((register_node i (new_client i kind_node sid node h)).clients i).closed ≡ false
unfolding register_node new_client node_client
register-open i sid node h ne =
    let k = new_client i kind_node sid node h in
    close_old-open (node_client (k.clients i).session_id (k.clients i).node_id k) i (entered i k)
      (rw (own i sid node h) ne) (ap (λ x. x.closed) (own i sid node h))

module _ {P : Type 0} (marshal : P → Option (List ℕ)) where
  send_to_node-Same :
      (sid node : Text) (m : P) (h : Hub) → Same h (send_to_node marshal sid node m h).1
  unfolding send_to_node
  send_to_node-Same sid node m h = elim (Option-cases (marshal m)) [
    | inl e ↦ rw (e, send_to_node) (same _)
    | inr (raw, e) ↦
        rw (e, send_to_node)
          (elim (Option-cases (node_client sid node h)) [
            | inl k ↦ rw k (same _)
            | inr (i, k) ↦ rw k (try_send-Same i raw h)
          ])
  ]

  pub broadcast_to_nodes-Same :
      (sid : Text) (m : P) (h : Hub) → Same h (broadcast_to_nodes marshal sid m h)
  unfolding broadcast_to_nodes
  broadcast_to_nodes-Same sid m h = elim (Option-cases (marshal m)) [
    | inl k ↦ rw (k, broadcast_to_nodes) (same _)
    | inr (raw, k) ↦ rw (k, broadcast_to_nodes) (send_all-Same (snapshot_nodes sid h) raw h)
  ]

  pub broadcast_to_monitors-Same :
      (sid : Text) (m : P) (h : Hub) → Same h (broadcast_to_monitors marshal sid m h)
  unfolding broadcast_to_monitors
  broadcast_to_monitors-Same sid m h = elim (Bool-cases (length (snapshot_monitors sid h) == 0)) [
    | inl e ↦ rw e (same _)
    | inr e ↦ rw e (elim (Option-cases (marshal m)) [
      | inl k ↦ rw k (same _)
      | inr (raw, k) ↦ rw k (send_all-Same (snapshot_monitors sid h) raw h)
    ])
  ]

module _ {W R D E : Type 0} ⦃fl : Float W⦄ (r : Redis W R) (c : Codec W) (q : Pool W D)
    (j : Json W) where
  module _ (marshal : Message W → Option (List ℕ)) (env : Env W E) (n : ℕ) where
    -- The hub of a state.
    abbrev pub hub_of : Sim W (World R D (Hub × E)) → Hub
    hub_of s = s.world.outside.0

    abbrev pub server : Ports W (World R D (Hub × E))
    server = assemble r c q j (outside_of marshal env) n

    push_params-Same :
        (a : Result (SessionParams W)) (sid node : Text) (s : Sim W (World R D (Hub × E)))
        → Same (hub_of s) (hub_of (push_params server a sid node s).1)
    unfolding assemble outside_of
    push_params-Same (ok v) sid node s = send_to_node-Same marshal sid node _ (hub_of s)
    push_params-Same (err e) sid node s = same _

    push_schema-Same :
        (a : Result DynamicSchema) (sid node : Text) (s : Sim W (World R D (Hub × E)))
        → Same (hub_of s) (hub_of (push_schema server a sid node s).1)
    unfolding assemble outside_of
    push_schema-Same (ok v) sid node s = send_to_node-Same marshal sid node _ (hub_of s)
    push_schema-Same (err e) sid node s = same _

    push_route-Same :
        (a : Result (RouteEntry W)) (sid node : Text) (s : Sim W (World R D (Hub × E)))
        → Same (hub_of s) (hub_of (push_route server a sid node s).1)
    unfolding assemble outside_of
    push_route-Same (ok v) sid node s = send_to_node-Same marshal sid node _ (hub_of s)
    push_route-Same (err e) sid node s = same _

    node_connected-Same :
        (sid node : Text) (s : Sim W (World R D (Hub × E)))
        → Same (hub_of s) (hub_of (node_connected server sid node s).1)
    unfolding node_connected assemble outside_of
    node_connected-Same sid node s =
        join (hub_of s) _ _ (broadcast_to_monitors-Same marshal sid _ (hub_of s)) (
          join _ _ _ (push_params-Same _ sid node _)
            (join _ _ _ (push_schema-Same _ sid node _) (push_route-Same _ sid node _)))

    -- What a request for a ship's socket does on each of its ends: an invalid identifier, a session
    -- that has no parameters, an upgrade that fails, and none of these. In the last case the new
    -- socket is open, and is the ship's in the registry, where no other entry changed.
    abbrev pub Ends :
        ℕ
        → Bool
        → Text
        → Text
        → Sim W (World R D (Hub × E))
        → Opening
        → Sim W (World R D (Hub × E))
        → Type 0
    Ends i up sid node s bad_request t =
        (length sid == 0 || not (is_node_id node) ≡ true) × (hub_of t ≡ hub_of s)
    Ends i up sid node s unknown_session t =
        (length sid == 0 || not (is_node_id node) ≡ false)
        × ((session_active server sid s).0 ≡ false)
        × (hub_of t ≡ hub_of s)
    Ends i up sid node s not_upgraded t =
        (length sid == 0 || not (is_node_id node) ≡ false)
        × ((session_active server sid s).0 ≡ true)
        × (up ≡ false)
        × (hub_of t ≡ hub_of s)
    Ends i up sid node s opened t =
        (length sid == 0 || not (is_node_id node) ≡ false)
        × ((session_active server sid s).0 ≡ true)
        × (up ≡ true)
        × (((hub_of t).clients i).closed ≡ false)
        × ((x y : Text)
            → node_client x y (hub_of t)
              ≡ (if text_eq sid x && text_eq node y then some i else node_client x y (hub_of s)))

    open_node-Ends :
        (i : ℕ) (up : Bool) (sid node : Text) (s : Sim W (World R D (Hub × E)))
        → node_client sid node (hub_of s) ≢ some i
        → (length sid == 0 || not (is_node_id node) ≡ false)
        → (session_active server sid s).0 ≡ true
        → (let x = open_node server i up sid node (session_active server sid s).1 in
            Ends i up sid node s x.0 x.1)
    unfolding open_node session_active assemble
    open_node-Ends i false sid node s ne v a = (v, a, refl, refl)
    open_node-Ends i true sid node s ne v a =
        let m = node_connected-Same sid node _ in
        (
          v,
          a,
          refl,
          m.ends i ∙ register-open i sid node (hub_of s) ne,
          λ x y. same_entry _ _ x y m.ships ∙ register-entries i sid node x y (hub_of s),
        )

    admit_node-Ends :
        (b : Bool) (i : ℕ) (up : Bool) (sid node : Text) (s : Sim W (World R D (Hub × E)))
        → node_client sid node (hub_of s) ≢ some i
        → (length sid == 0 || not (is_node_id node) ≡ false)
        → (session_active server sid s).0 ≡ b
        → (let x = admit_node server i up sid node (b, (session_active server sid s).1) in
            Ends i up sid node s x.0 x.1)
    unfolding admit_node session_active assemble
    admit_node-Ends true i up sid node s ne v a = open_node-Ends i up sid node s ne v a
    admit_node-Ends false i up sid node s ne v a = (v, a, refl)

    checked-Ends :
        (b : Bool) (i : ℕ) (up : Bool) (sid node : Text) (s : Sim W (World R D (Hub × E)))
        → node_client sid node (hub_of s) ≢ some i
        → (length sid == 0 || not (is_node_id node) ≡ b)
        → (let x =
              if b
              then (bad_request, s)
              else admit_node server i up sid node (session_active server sid s) in
            Ends i up sid node s x.0 x.1)
    checked-Ends true i up sid node s ne v = (v, refl)
    checked-Ends false i up sid node s ne v =
        admit_node-Ends (session_active server sid s).0 i up sid node s ne v refl

    -- A request for a ship's socket ends in exactly one of four ways, each under its condition. It
    -- leaves the hub as it was, or else the new socket is open and is the ship's in the registry,
    -- with no other entry changed, even after the state has been pushed to the ship. The pointer
    -- to the new socket is not the ship's entry before.
    pub handle_node_ws-Ends :
        (i : ℕ) (up : Bool) (sid node : Text) (s : Sim W (World R D (Hub × E)))
        → node_client sid node (hub_of s) ≢ some i
        → (let x = handle_node_ws server i up sid node s in Ends i up sid node s x.0 x.1)
    unfolding handle_node_ws
    handle_node_ws-Ends i up sid node s ne =
        checked-Ends (length sid == 0 || not (is_node_id node)) i up sid node s ne refl
