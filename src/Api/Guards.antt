-- ===== src/Api/Guards.antt =====
-- What a request went through before the REST interface stored anything.
use maritime_simulation.Base.{
  ℕ, ◌≡◌, ◌≤◌, refl, Bool, true, false, Option, none, some, arith, length, if◌then◌else◌,
}
use maritime_simulation.Base.Int.{ℤ, pos, ◌≤ℤ◌}
use maritime_simulation.Base.Text.{Text}
use maritime_simulation.Floats.{Float}
use maritime_simulation.Domain.Errors.{
  Result, ok, err, Error, not_found, session_inactive, session_still_active, validation, other,
}
use maritime_simulation.Domain.Entities.{Session, Edge}
use maritime_simulation.Domain.Lora.{
  validate_spreading_factor, validate_tx_power, validate_weather_severity,
}
use maritime_simulation.Service.Ports.{Ports, Sim, M, pure, call, try_ok}
use maritime_simulation.Service.Sessions
use maritime_simulation.Api.Response.{
  Response, respond, respond_created, respond_error, respond_domain_error, query_int, edge_data,
}
use maritime_simulation.Api.Handlers.{
  Backend, CreateSimulationRequest, handle_create_simulation, create_named, with_body, answer,
  or_default, bad_length,
}
use maritime_simulation.Api.Edges.{
  CreateEdgeRequest, handle_create_edge, edge_given, place, with_place, within, new_edge,
}

-- A text of 1 to `n` bytes.
abbrev pub IsShort : ℕ → Text → Type 0
IsShort n t = (1 ≤ length t) × (length t ≤ n)

short : (n : ℕ) (t : Text) → bad_length n t ≡ false → IsShort n t
short n t h = ground arith

-- The integer that a query parameter gives lies between the bounds, if the default does.
query_int-bounds :
    (raw : Option (Option ℤ)) (def min max : ℤ)
    → min ≤ℤ def
    → def ≤ℤ max
    → (min ≤ℤ query_int raw def min max) × (query_int raw def min max ≤ℤ max)
unfolding query_int
query_int-bounds none def min max h k = (h, k)
query_int-bounds (some none) def min max h k = (h, k)
query_int-bounds (some (some n)) def min max h k = ground arith

error_code : (V : Type 0) (e : Error) → (respond_domain_error {W = V} e).code ≡ 201 → ⊥
unfolding respond_domain_error
error_code V validation h = absurd (omega arith)
error_code V not_found h = absurd (omega arith)
error_code V session_inactive h = absurd (omega arith)
error_code V session_still_active h = absurd (omega arith)
error_code V other h = absurd (omega arith)

module _ {W : Type 0} where
  respond-ok :
      {A : Type 0} (f : A → Response W) (r : Result A)
      → (respond f r).code ≡ 201
      → (a : A) × (r ≡ ok a)
  unfolding respond
  respond-ok f (err e) h = absurd (error_code W e h)
  respond-ok f (ok a) h = (a, refl)

module _ {W S : Type 0} where
  try_ok-ok :
      {A B : Type 0} (r : Result A) (f : A → M W S (Result B)) (s : Sim W S) (b : B)
      → (try_ok r f s).0 ≡ ok b
      → (a : A) × (r ≡ ok a) × ((f a s).0 ≡ ok b)
  try_ok-ok (err e) f s b h = cc
  try_ok-ok (ok a) f s b h = (a, refl, h)

  if_pass :
      (c : Bool) (m : M W S (Response W)) (s : Sim W S)
      → ((if c then pure (respond_error 400) else m) s).0.code ≡ 201
      → (c ≡ false) × ((m s).0.code ≡ 201)
  if_pass true m s h = absurd (omega arith)
  if_pass false m s h = (refl, h)

  module _ ⦃fl : Float W⦄ (p : Ports W S) (b : Backend W S) where
    open fl use {lit, neg, lt}

    -- The parameters of the session, the defaults where the request leaves them out.
    abbrev pub IsAllowed : CreateSimulationRequest W → Type 0
    IsAllowed r =
        IsShort 150 r.session_name
        × (validate_spreading_factor (or_default r.spreading_factor (pos 7)) ≡ ok tt)
        × (validate_tx_power (or_default r.tx_power_dbm (pos 20)) ≡ ok tt)
        × (validate_weather_severity (or_default r.weather_severity (lit 1 0)) ≡ ok tt)

    create-valid :
        (name : Text) (sf tx : ℤ) (w : W) (s : Sim W S) (sess : Session W)
        → (Sessions.create p name sf tx w s).0 ≡ ok sess
        → (validate_spreading_factor sf ≡ ok tt)
          × (validate_tx_power tx ≡ ok tt)
          × (validate_weather_severity w ≡ ok tt)
    unfolding Sessions.create
    create-valid name sf tx w s sess h =
        let (_, e1, h1) = try_ok-ok (validate_spreading_factor sf) _ s sess h in
        let (_, e2, h2) = try_ok-ok (validate_tx_power tx) _ s sess h1 in
        let (_, e3, h3) = try_ok-ok (validate_weather_severity w) _ s sess h2 in (e1, e2, e3)

    created_named :
        (r : CreateSimulationRequest W) (s : Sim W S)
        → (create_named p b r s).0.code ≡ 201
        → IsAllowed r
    unfolding create_named answer
    created_named r s h =
        let (e, k) = if_pass (bad_length 150 r.session_name) _ s h in
        let (sess, m) = respond-ok _ _ k in
        let (x, y, z) = create-valid r.session_name _ _ _ s sess m in
        (short 150 r.session_name e, x, y, z)

    -- `POST /api/v1/simulations` answers 201 only if the body decodes, the name has 1 to 150 bytes,
    -- and the spreading factor, the power and the severity are valid, the defaults where they are
    -- left out.
    pub handle_create_simulation-IsAllowed :
        (req : Option (CreateSimulationRequest W)) (s : Sim W S)
        → (handle_create_simulation p b req s).0.code ≡ 201
        → (r : CreateSimulationRequest W) × (req ≡ some r) × IsAllowed r
    unfolding handle_create_simulation with_body
    handle_create_simulation-IsAllowed none s h = absurd (omega arith)
    handle_create_simulation-IsAllowed (some r) s h = (r, refl, created_named r s h)

    -- The coordinate is not outside its range; a NaN, which JSON cannot carry, would pass.
    abbrev pub IsWithin : ℕ → W → Type 0
    IsWithin n x = (lt x (neg (lit n 0)) ≡ false) × (lt (lit n 0) x ≡ false)

    within-some :
        (n : ℕ) (o : Option W) (x : W) → within p b n o ≡ some x → (o ≡ some x) × IsWithin n x
    unfolding within
    within-some n none x h = cc
    within-some n (some y) x h = ground arith

    -- What the repository was given, and that it accepted it.
    abbrev pub IsPlaced : CreateEdgeRequest W → Sim W S → Type 0
    IsPlaced r s =
        IsShort 50 r.edge_code
        × IsShort 150 r.name
        × ((lat : W) × (lng : W) × (r.latitude ≡ some lat)
            × (r.longitude ≡ some lng)
            × IsWithin 90 lat
            × IsWithin 180 lng
            × ((e : Edge W) × ((b.create_edge (new_edge p b r.edge_code r.name lat lng) s.world).0
                  ≡ ok e)))

    placed :
        (x y : Option W) (r : CreateEdgeRequest W) (s : Sim W S)
        → within p b 90 r.latitude ≡ x
        → within p b 180 r.longitude ≡ y
        → IsShort 50 r.edge_code
        → IsShort 150 r.name
        → (place p b x y
            (λ lat lng.
              answer p b
                (call (b.create_edge (new_edge p b r.edge_code r.name lat lng)))
                (λ e. respond_created (edge_data e)))
            s).0.code
          ≡ 201
        → IsPlaced r s
    unfolding place answer
    placed none y r s e f i j h = absurd (omega arith)
    placed (some x) none r s e f i j h = absurd (omega arith)
    placed (some x) (some y) r s e f i j h =
        let (a, m) = within-some 90 r.latitude x e in
        let (c, n) = within-some 180 r.longitude y f in (i, j, (x, y, a, c, m, n, respond-ok _ _ h))

    edge_named :
        (r : CreateEdgeRequest W) (s : Sim W S) → (edge_given p b r s).0.code ≡ 201 → IsPlaced r s
    unfolding edge_given with_place
    edge_named r s h =
        let (e, k) = if_pass (bad_length 50 r.edge_code) _ s h in
        let (f, m) = if_pass (bad_length 150 r.name) _ s k in
        placed _ _ r s refl refl (short 50 r.edge_code e) (short 150 r.name f) m

    -- `POST /api/v1/edges` answers 201 only if the body decodes, the code has 1 to 50 bytes and the
    -- name 1 to 150, both coordinates are given and not outside their ranges, and the repository
    -- stored an edge with exactly these values.
    pub handle_create_edge-IsPlaced :
        (req : Option (CreateEdgeRequest W)) (s : Sim W S)
        → (handle_create_edge p b req s).0.code ≡ 201
        → (r : CreateEdgeRequest W) × (req ≡ some r) × IsPlaced r s
    unfolding handle_create_edge with_body
    handle_create_edge-IsPlaced none s h = absurd (omega arith)
    handle_create_edge-IsPlaced (some r) s h = (r, refl, edge_named r s h)
