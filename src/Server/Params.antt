-- ===== src/Server/Params.antt =====
-- The operations of the session service over the server's repositories, and the parameters that
-- the engine reads afterwards.
use maritime_simulation.Base.{ℕ, ◌∷◌, ◌≡◌, ◌⊎◌, Bool, true, false, refl, sym, subst, Option}
use maritime_simulation.Base.Int.{ℤ}
use maritime_simulation.Base.Text.{Text}
use maritime_simulation.Floats.{Float}
use maritime_simulation.Domain.Errors.{Result, ok, err, failed, ok_injective}
use maritime_simulation.Domain.Entities.{Session}
use maritime_simulation.Domain.Lora.{
  validate_spreading_factor, validate_tx_power, validate_weather_severity,
}
use maritime_simulation.Service.Ports.{Ports, Sim, M, Effect, created, saved_params, try_ok}
use maritime_simulation.Service.Sessions.{
  params_of, new_session, cache_params, wrote, start, enter_session, create, broadcast_params,
  sync_params, refresh_and_broadcast, refresh_if, set_weather, update_weather, store_radio,
  set_radio, change_active, change_radio, update_radio_params,
}
use maritime_simulation.Service.Topology.{add_session}
use maritime_simulation.Repository.Redis.{Redis, Codec, IsRedis, IsCodec, as_result}
use maritime_simulation.Repository.Keys.{key_params}
use maritime_simulation.Repository.Postgres.{Pool, Json}
use maritime_simulation.Repository.State.Params.{params_round_trip}
use maritime_simulation.Server.{Outside, World, assemble}

-- The calls of the session service that set the parameters of a session.
pub data Change (W : Type 0) : Type 0 where
  creation : Text → ℤ → ℤ → W → Change W
  weather : Text → W → Change W
  radio : Text → Option ℤ → Option ℤ → Change W

module _ {W S : Type 0} ⦃fl : Float W⦄ (p : Ports W S) where
  unfoldable pub make_change : Change W → M W S (Result (Session W))
  make_change (creation name sf tx ws) = create p name sf tx ws
  make_change (weather id ws) = update_weather p id ws
  make_change (radio id sf tx) = update_radio_params p id sf tx

module _ {W R D H : Type 0} ⦃fl : Float W⦄ (r : Redis W R) (c : Codec W) (q : Pool W D) where
  module _ (j : Json W) (o : Outside W H) (n : ℕ) where
    -- The engine reads the parameters of the session, unless Redis fails.
    abbrev pub IsRead : Session W → World R D H → Type 0
    IsRead sess w =
        (((assemble r c q j o n).get_params sess.id w).0 ≡ ok (params_of sess))
        ⊎ (failed (as_result (r.hgetall (key_params sess.id) w.stores).0) ≡ true)

    abbrev Leaves : Result (Session W) × Sim W (World R D H) → Type 0
    Leaves x = (sess : Session W) → x.0 ≡ ok sess → IsRead sess x.1.world

    checked-Leaves :
        (a b d : Result (Unit {0})) (m : M W (World R D H) (Result (Session W)))
        (s : Sim W (World R D H))
        → Leaves (m s)
        → Leaves (try_ok a (λ _. try_ok b λ _. try_ok d λ _. m) s)
    checked-Leaves (ok _) (ok _) (ok _) m s h sess k = h sess k
    checked-Leaves (ok _) (ok _) (err e) m s h sess k = cc
    checked-Leaves (ok _) (err e) d m s h sess k = cc
    checked-Leaves (err e) b d m s h sess k = cc

    start-Leaves :
        (a : Result (Unit {0})) (sess : Session W) (s : Sim W (World R D H))
        → (a ≡ ok tt → IsRead sess s.world)
        → Leaves (start (assemble r c q j o n) sess a s)
    unfolding start assemble add_session
    start-Leaves (err e) sess s h x k = cc
    start-Leaves (ok _) sess s h x k =
        subst (λ y. IsRead y s.world) (ok_injective sess x k) (h refl)

    broadcast_params-Leaves :
        (a : Result (Unit {0})) (id : Text) (sess : Session W) (s : Sim W (World R D H))
        → (a ≡ ok tt → IsRead sess s.world)
        → Leaves (broadcast_params (assemble r c q j o n) id sess a s)
    unfolding broadcast_params assemble
    broadcast_params-Leaves (err e) id sess s h x k = cc
    broadcast_params-Leaves (ok _) id sess s h x k =
        subst (λ y. IsRead y s.world) (ok_injective sess x k) (h refl)

    module _ (i : IsCodec c) (t : IsRedis r) where
      wrote-ok :
          (a : Result (Unit {0})) (e : Effect W) (s : Sim W (World R D H))
          → (wrote (assemble r c q j o n) a e s).0 ≡ ok tt
          → (a ≡ ok tt)
      unfolding wrote
      wrote-ok (ok _) e s h = refl
      wrote-ok (err x) e s h = cc

      wrote-world :
          (a : Result (Unit {0})) (e : Effect W) (s : Sim W (World R D H))
          → (wrote (assemble r c q j o n) a e s).1.world ≡ s.world
      unfolding wrote
      wrote-world (ok _) e s = refl
      wrote-world (err x) e s = refl

      cache_params-IsRead :
          (sess : Session W) (s : Sim W (World R D H))
          → (cache_params (assemble r c q j o n) sess s).0 ≡ ok tt
          → IsRead sess (cache_params (assemble r c q j o n) sess s).1.world
      unfolding cache_params assemble
      cache_params-IsRead sess s h =
          let p = assemble r c q j o n in
          let a = p.save_params sess.id (params_of sess) s.world in
          let e = saved_params sess.id (params_of sess) in
          let u = record s { world = a.1 } in
          subst (IsRead sess) (sym (wrote-world a.0 e u))
            (params_round_trip c i r t sess.id (params_of sess) s.world.stores (wrote-ok a.0 e u h))

      enter_session-Leaves :
          (a : Result (Session W)) (s : Sim W (World R D H))
          → Leaves (enter_session (assemble r c q j o n) a s)
      unfolding enter_session
      enter_session-Leaves (err e) s sess k = cc
      enter_session-Leaves (ok sess) s x k =
          let u = record s { trace = created sess ∷ s.trace } in
          let b = cache_params (assemble r c q j o n) sess u in
          start-Leaves b.0 sess b.1 (cache_params-IsRead sess u) x k

      sync_params-Leaves :
          (id : Text) (a : Result (Session W)) (s : Sim W (World R D H))
          → Leaves (sync_params (assemble r c q j o n) id a s)
      unfolding sync_params
      sync_params-Leaves id (err e) s sess k = cc
      sync_params-Leaves id (ok sess) s x k =
          let b = cache_params (assemble r c q j o n) sess s in
          broadcast_params-Leaves b.0 id sess b.1 (cache_params-IsRead sess s) x k

      refresh_if-Leaves :
          (id : Text) (e : Effect W) (a : Result (Unit {0})) (s : Sim W (World R D H))
          → Leaves (refresh_if (assemble r c q j o n) id e a s)
      unfolding refresh_if refresh_and_broadcast
      refresh_if-Leaves id e (err z) s sess k = cc
      refresh_if-Leaves id e (ok _) s x k = sync_params-Leaves id _ _ x k

      set_weather-Leaves :
          (id : Text) (severity : W) (a : Result (Unit {0})) (s : Sim W (World R D H))
          → Leaves (set_weather (assemble r c q j o n) id severity a s)
      unfolding set_weather
      set_weather-Leaves id severity (err e) s sess k = cc
      set_weather-Leaves id severity (ok _) s x k = refresh_if-Leaves id _ _ _ x k

      store_radio-Leaves :
          (id : Text) (sf tx : ℤ) (a b : Result (Unit {0})) (s : Sim W (World R D H))
          → Leaves (store_radio (assemble r c q j o n) id sf tx a b s)
      unfolding store_radio
      store_radio-Leaves id sf tx (err e) b s sess k = cc
      store_radio-Leaves id sf tx (ok _) (err e) s sess k = cc
      store_radio-Leaves id sf tx (ok _) (ok _) s x k = refresh_if-Leaves id _ _ _ x k

      change_active-Leaves :
          (id : Text) (sf tx : Option ℤ) (sess : Session W) (b : Bool) (s : Sim W (World R D H))
          → Leaves (change_active (assemble r c q j o n) id sf tx sess b s)
      unfolding change_active set_radio
      change_active-Leaves id sf tx sess false s x k = cc
      change_active-Leaves id sf tx sess true s x k = store_radio-Leaves id _ _ _ _ s x k

      change_radio-Leaves :
          (id : Text) (sf tx : Option ℤ) (a : Result (Session W)) (s : Sim W (World R D H))
          → Leaves (change_radio (assemble r c q j o n) id sf tx a s)
      unfolding change_radio
      change_radio-Leaves id sf tx (err e) s sess k = cc
      change_radio-Leaves id sf tx (ok current) s x k =
          change_active-Leaves id sf tx current current.is_active s x k

      update_weather-Leaves :
          (id : Text) (severity : W) (s : Sim W (World R D H))
          → Leaves (update_weather (assemble r c q j o n) id severity s)
      unfolding update_weather
      update_weather-Leaves id severity s =
          set_weather-Leaves id severity (validate_weather_severity severity) s

      update_radio_params-Leaves :
          (id : Text) (sf tx : Option ℤ) (s : Sim W (World R D H))
          → Leaves (update_radio_params (assemble r c q j o n) id sf tx s)
      unfolding update_radio_params
      update_radio_params-Leaves id sf tx s = change_radio-Leaves id sf tx _ _

      create-Leaves :
          (name : Text) (sf tx : ℤ) (ws : W) (s : Sim W (World R D H))
          → Leaves (create (assemble r c q j o n) name sf tx ws s)
      unfolding create
      create-Leaves name sf tx ws s =
          let p = assemble r c q j o n in
          let a = p.create_session (new_session name sf tx ws) s.world in
          checked-Leaves (validate_spreading_factor sf) (validate_tx_power tx)
            (validate_weather_severity ws)
            (λ t.
              let b = p.create_session (new_session name sf tx ws) t.world in
              enter_session p b.0 (record t { world = b.1 }))
            s (enter_session-Leaves a.0 (record s { world = a.1 }))

      -- After a creation of a session or a change of its weather or radio that succeeds, the
      -- parameters that the engine reads for the session are those of the session returned, unless
      -- Redis fails to answer. Integers and floats are read back as they were written, and Redis
      -- keeps hashes.
      pub make_change-IsRead :
          (ch : Change W) (s : Sim W (World R D H)) (sess : Session W)
          → (make_change (assemble r c q j o n) ch s).0 ≡ ok sess
          → IsRead sess (make_change (assemble r c q j o n) ch s).1.world
      unfolding make_change
      make_change-IsRead (creation name sf tx ws) s sess h = create-Leaves name sf tx ws s sess h
      make_change-IsRead (weather id ws) s sess h = update_weather-Leaves id ws s sess h
      make_change-IsRead (radio id sf tx) s sess h = update_radio_params-Leaves id sf tx s sess h
