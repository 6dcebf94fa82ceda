-- ===== src/Server/Sockets/Stops.antt =====
-- What a session leaves behind when it is stopped: session_service.go over the hub and Redis.
use maritime_simulation.Base.{
  ℕ, true, ◌≡◌, ◌⊎◌, inl, inr, refl, sym, ◌∙◌, subst, List, [], ◌∷◌, ◌++◌, Option, none, arith, All,
}
use maritime_simulation.Base.Int.{ℤ}
use maritime_simulation.Base.Text.{Text, text_eq_refl}
use maritime_simulation.Base.Dict.{Dict, lookup, lookup-erase}
use maritime_simulation.Domain.Errors.{ok, err, not_found, failed}
use maritime_simulation.Floats.{Float}
use maritime_simulation.Protocol.{Message, session_ended}
use maritime_simulation.Service.Ports.{Sim}
use maritime_simulation.Service.Sessions.{stop, stop_with, wind_up}
use maritime_simulation.Service.Topology.{remove_session}
use maritime_simulation.Repository.Redis.{
  Redis, Codec, IsRedis, Reply, value, missing, fault, as_result, apply_command, has_key,
}
use maritime_simulation.Repository.Keys.{key_params, key_stats}
use maritime_simulation.Repository.Postgres.{Pool, Json}
use maritime_simulation.Repository.State.{get_params, clear_session, params_of, and_then}
use maritime_simulation.Ws.Hub.{
  Hub, close, close_all, kick_session, snapshot_nodes, snapshot_monitors, broadcast_to_nodes,
  broadcast_to_monitors,
}
use maritime_simulation.Ws.Hub.Kept.{close-Kept, close-closed}
use maritime_simulation.Server.{World, assemble}
use maritime_simulation.Server.Sockets.{Env, outside_of}
use maritime_simulation.Server.Sockets.Connects.{
  Same, join, broadcast_to_nodes-Same, broadcast_to_monitors-Same, hub_of, server,
}

abbrev pub IsClosed : Hub → ℕ → Type 0
IsClosed h i = (h.clients i).closed ≡ true

close_all-keeps : (js : List ℕ) (i : ℕ) (h : Hub) → IsClosed h i → IsClosed (close_all js h) i
unfolding close_all
close_all-keeps [] i h c = c
close_all-keeps (j ∷ js) i h c = close_all-keeps js i (close j h) ((close-Kept j i h).2 c)

close_all-IsClosed : (js : List ℕ) (h : Hub) → All (IsClosed (close_all js h)) js
unfolding close_all
close_all-IsClosed [] h = tt
close_all-IsClosed (j ∷ js) h =
    (close_all-keeps js j (close j h) (close-closed j h), close_all-IsClosed js (close j h))

-- The ships and monitors of the session in this hub.
abbrev pub sockets_of : Text → Hub → List ℕ
sockets_of sid h = snapshot_nodes sid h ++ snapshot_monitors sid h

same_sockets : (sid : Text) (h k : Hub) → Same h k → sockets_of sid k ≡ sockets_of sid h
unfolding snapshot_nodes snapshot_monitors
same_sockets sid h k e = rw (e.ships, e.dashboards) refl

-- A session is kicked after two broadcasts.
kick-IsClosed :
    (sid : Text) (h k : Hub) → Same h k → All (IsClosed (kick_session sid k)) (sockets_of sid h)
unfolding kick_session
kick-IsClosed sid h k e =
    subst (All (IsClosed (close_all (sockets_of sid k) k))) (same_sockets sid h k e)
      (close_all-IsClosed (sockets_of sid k) k)

empty_hash : (d : Dict Text) → ((f : Text) → lookup f d ≡ none) → d ≡ []
unfolding lookup
empty_hash [] h = refl
empty_hash ((k, v) ∷ d) h = let e = h k in let q = text_eq_refl k in ground arith

-- The hash of the parameters is gone once `ClearSession` has succeeded.
read_nothing :
    {W S : Type 0} (r : Redis W S) (c : Codec W) (q : IsRedis r) (sid : Text) (s : S)
    (b : Reply (Dict Text))
    → (r.del (key_params sid ∷ key_stats sid ∷ []) s).0 ≡ value tt
    → (r.hgetall (key_params sid) (r.del (key_params sid ∷ key_stats sid ∷ []) s).1).0 ≡ b
    → (and_then (as_result b) (params_of c) ≡ err not_found) ⊎ (failed (as_result b) ≡ true)
unfolding params_of apply_command has_key
read_nothing r c q sid s missing h k = inr refl
read_nothing r c q sid s fault h k = inr refl
read_nothing r c q sid s (value d) h k =
    let e = empty_hash d (λ f.
      q.hgetall_lem (key_params sid) _ d k f
      ∙ q.del_lem (key_params sid ∷ key_stats sid ∷ []) s h (key_params sid) f
      ∙ rw (text_eq_refl (key_params sid)) refl) in
    inl (rw e refl)

module _ {W R D E : Type 0} ⦃fl : Float W⦄ (r : Redis W R) (c : Codec W) (q : Pool W D) where
  module _ (j : Json W) (marshal : Message W → Option (List ℕ)) (env : Env W E) (n : ℕ) where
    -- The sockets that the session had in this hub are closed, the session is not in the schedule,
    -- and its parameters are not found, unless Redis fails to answer.
    abbrev pub IsGone : Text → Hub → Sim W (World R D (Hub × E)) → Type 0
    IsGone id h t =
        All (IsClosed (hub_of r c q j marshal env n t)) (sockets_of id h)
        × (lookup id t.active ≡ none)
        × (((get_params r c id t.world.stores).0 ≡ err not_found)
            ⊎ (failed (as_result (r.hgetall (key_params id) t.world.stores).0) ≡ true))

    module _ (i : IsRedis r) (deletes : (ks : List Text) (w : R) → (r.del ks w).0 ≡ value tt) where
      wind_up-IsGone :
          (id : Text) (stats : Dict ℤ) (s : Sim W (World R D (Hub × E)))
          → IsGone id
              (hub_of r c q j marshal env n s)
              (wind_up (server r c q j marshal env n) id stats (ok tt) s).1
      unfolding wind_up remove_session assemble outside_of get_params clear_session
      wind_up-IsGone id stats s =
          let h = hub_of r c q j marshal env n s in
          let k = broadcast_to_nodes marshal id (session_ended id) h in
          (
            kick-IsClosed id h (broadcast_to_monitors marshal id (session_ended id) k) (
                join h k _ (broadcast_to_nodes-Same marshal id (session_ended id) h)
                  (broadcast_to_monitors-Same marshal id (session_ended id) k)),
            lookup-erase id id s.active ∙ rw (text_eq_refl id) refl,
            read_nothing r c i id _ _ (deletes _ _) refl,
          )

      -- After a `Stop` for which the counters are read and the database stops the session: every
      -- socket that the hub had for the session is closed, the session is not in the schedule, and
      -- its parameters are not found, unless Redis fails to answer. Redis deletes what it is told.
      pub stop-IsGone :
          (id : Text) (stats : Dict ℤ) (s : Sim W (World R D (Hub × E)))
          → (let p = server r c q j marshal env n in (p.get_stats id s.world).0 ≡ ok stats)
          → (let p = server r c q j marshal env n in
              (p.stop_session id stats (p.get_stats id s.world).1).0 ≡ ok tt)
          → IsGone id (hub_of r c q j marshal env n s) (stop (server r c q j marshal env n) id s).1
      unfolding stop stop_with assemble
      stop-IsGone id stats s g d =
          let p = server r c q j marshal env n in
          let h = hub_of r c q j marshal env n s in
          let u = record s { world = (p.get_stats id s.world).1 } in
          let v = record s { world = (p.stop_session id stats u.world).1 } in
          subst (λ a. IsGone id h (stop_with p id a u).1) (sym g)
            (subst (λ a. IsGone id h (wind_up p id stats a v).1) (sym d)
              (wind_up-IsGone id stats v))
