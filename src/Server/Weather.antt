-- ===== src/Server/Weather.antt =====
-- PUT /simulations/{id}/weather over the server's repositories: api/handlers.go down to the
-- statement of session_repo.go.
use maritime_simulation.Base.{
  ℕ, zero, suc, Bool, true, false, ◌≡◌, ◌⊎◌, inl, inr, refl, ◌||◌, Option, none, some, Bool-cases,
  if◌then◌else◌,
}
use maritime_simulation.Base.Text.{Text}
use maritime_simulation.Floats.{Float}
use maritime_simulation.Domain.Errors.{session_inactive}
use maritime_simulation.Domain.Entities.{Session}
use maritime_simulation.Domain.Lora.{validate_weather_severity}
use maritime_simulation.Service.Ports.{pure, Sim, Effect, updated_weather}
use maritime_simulation.Service.Sessions.{update_weather, set_weather, refresh_if}
use maritime_simulation.Repository.Redis.{Redis, Codec}
use maritime_simulation.Repository.Postgres.{
  Pool, Json, Answer, done, failed, Failure, affected, update_active_weather,
}
use maritime_simulation.Repository.Sessions
use maritime_simulation.Api.Response.{
  Response, respond, respond_ok, respond_error, respond_domain_error, session_data,
}
use maritime_simulation.Api.Handlers.{
  Backend, handle_update_weather, with_session, with_body, weather_given, answer,
}
use maritime_simulation.Api.Router.{serve, put_weather}
use maritime_simulation.Server.{Outside, World, assemble}

module _ {W R D H : Type 0} ⦃fl : Float W⦄ (r : Redis W R) (c : Codec W) (q : Pool W D) where
  -- What the answer of the database leads to.
  abbrev pub Follows : Answer ℕ → Sim W (World R D H) → Response W × Sim W (World R D H) → Type 0
  Follows a s x =
      ((a ≡ done 0) × (x.0.code ≡ 409) × (x.1.trace ≡ s.trace))
      ⊎ (((f : Failure) × (a ≡ failed f) × (x.0.code ≡ 500) × (x.1.trace ≡ s.trace))
          ⊎ ((n : ℕ) × (a ≡ done (suc n))))

  module _ (j : Json W) (o : Outside W H) (n : ℕ) (b : Backend W (World R D H)) where
    -- The request has no valid id, no severity, or one that is below 0 or above 2.
    abbrev pub IsMalformed : Text → Option (Option W) → Type 0
    IsMalformed id req =
        (b.is_uuid id ≡ false)
        ⊎ ((req ≡ none)
            ⊎ ((req ≡ some none)
                ⊎ ((w : W) × (req ≡ some (some w))
                    × (fl.lt w (fl.lit 0 0) || fl.lt (fl.lit 2 0) w ≡ true))))

    -- A malformed request changes nothing; any other one runs the statement.
    abbrev pub Ends :
        Text → Option (Option W) → Sim W (World R D H) → Response W × Sim W (World R D H) → Type 0
    Ends id req s x =
        (IsMalformed id req × (x.0.code ≡ 400) × (x.1 ≡ s))
        ⊎ ((w : W) × (b.is_uuid id ≡ true)
            × (req ≡ some (some w))
            × (fl.lt w (fl.lit 0 0) || fl.lt (fl.lit 2 0) w ≡ false)
            × Follows (q.exec (update_active_weather id w) s.world.rows).0 s x)

    refresh_if-Follows :
        (a : Answer ℕ) (id : Text) (e : Effect W) (f : Session W → Response W)
        (s : Sim W (World R D H))
        → Follows a s (
            let (y, t) = refresh_if (assemble r c q j o n) id e (affected session_inactive a) s in
            (respond f y, t))
    unfolding refresh_if affected respond respond_domain_error
    refresh_if-Follows (done zero) id e f s = inl (refl, refl, refl)
    refresh_if-Follows (failed g) id e f s = inr (inl (g, refl, refl, refl))
    refresh_if-Follows (done (suc m)) id e f s = inr (inr (m, refl))

    weather_given-Ends :
        (id : Text) (w : W) (s : Sim W (World R D H))
        → b.is_uuid id ≡ true
        → Ends id (some (some w)) s (weather_given (assemble r c q j o n) b id (some w) s)
    unfolding weather_given answer update_weather set_weather validate_weather_severity respond
        respond_domain_error assemble Sessions.update_weather Sessions.update_active
    weather_given-Ends id w s u = elim (Bool-cases (fl.lt w (fl.lit 0 0) || fl.lt (fl.lit 2 0) w)) [
      | inl bad ↦ rw bad (inl (inr (inr (inr (w, refl, bad))), refl, refl))
      | inr good ↦
          let x = q.exec (update_active_weather id w) s.world.rows in
          let t = record s { world = record s.world { rows = x.1 } } in
          rw good (
            inr (
              w,
              u,
              refl,
              good,
              refresh_if-Follows x.0 id (updated_weather id w)
                  (λ sess. respond_ok (session_data sess)) t,
            ))
    ]

    body-Ends :
        (id : Text) (req : Option (Option W)) (s : Sim W (World R D H))
        → b.is_uuid id ≡ true
        → (let p = assemble r c q j o n in
            Ends id req s (with_body p b req (weather_given p b id) s))
    unfolding with_body weather_given
    body-Ends id none s u = inl (inr (inl refl), refl, refl)
    body-Ends id (some none) s u = inl (inr (inr (inl refl)), refl, refl)
    body-Ends id (some (some w)) s u = weather_given-Ends id w s u

    identified-Ends :
        (v : Bool) (id : Text) (req : Option (Option W)) (s : Sim W (World R D H))
        → b.is_uuid id ≡ v
        → (let p = assemble r c q j o n in
            Ends id req s (
              (if v then with_body p b req (weather_given p b id) else pure (respond_error 400)) s))
    identified-Ends true id req s u = body-Ends id req s u
    identified-Ends false id req s u = inl (inl u, refl, refl)

    -- A request to set the weather without a valid id, without a severity, or with one below 0 or
    -- above 2 is answered with 400 and changes nothing. For any other one the database runs the
    -- update of the active session: if no row matches, the answer is 409, and if it fails, 500, and
    -- in neither case is anything recorded or sent.
    pub put_weather-Ends :
        (id : Text) (req : Option (Option W)) (s : Sim W (World R D H))
        → Ends id req s (serve (assemble r c q j o n) b (put_weather id req) s)
    unfolding serve handle_update_weather with_session
    put_weather-Ends id req s = identified-Ends (b.is_uuid id) id req s refl
