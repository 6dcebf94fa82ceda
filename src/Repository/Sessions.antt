-- ===== src/Repository/Sessions.antt =====
-- repository/session_repo.go: the rows of the sessions.
pub mod Rows
use maritime_simulation.Base.{ℕ, List, [], ◌∷◌, Option, none, some}
use maritime_simulation.Base.Int.{ℤ}
use maritime_simulation.Base.Text.{Text}
use maritime_simulation.Base.Dict.{Dict}
use maritime_simulation.Domain.Errors.{Result, ok, err, session_inactive, not_found, other}
use maritime_simulation.Domain.Entities.{Session}
use maritime_simulation.Repository.State.{and_then}
use maritime_simulation.Repository.Postgres.{
  Column, text, integer, real, flag, bytes, time, null, Statement, insert_session, select_session,
  select_sessions, select_active_sessions, update_active_weather, update_active_radio, stop_active,
  delete_session_row, Pool, Json, wrapped, found_row, scanned, affected, collect,
}

module _ {W : Type 0} where
  -- The three columns that `Create` reads back into its session.
  unfoldable pub scan_created : Session W → List (Column W) → Option (Session W)
  scan_created s (text id ∷ flag active ∷ time at ∷ []) =
      some (record s { id = id; is_active = active; created_at = at })
  scan_created s _ = none

  -- A nullable time.
  unfoldable pub scan_time : Column W → Option (Option ℕ)
  scan_time null = some none
  scan_time (time at) = some (some at)
  scan_time _ = none

  -- A nullable JSON column; null is the empty one.
  unfoldable pub scan_bytes : Column W → Option (List ℕ)
  scan_bytes null = some []
  scan_bytes (bytes raw) = some raw
  scan_bytes _ = none

  module _ (j : Json W) where
    -- `len(statsRaw) > 0`, and the JSON.
    unfoldable pub read_stats : List ℕ → Result (Option (Dict ℤ))
    read_stats [] = ok none
    read_stats (b ∷ raw) = elim (j.unmarshal_stats (b ∷ raw)) [
      | none ↦ err other
      | some d ↦ ok (some d)
    ]

    abbrev pub with_snapshot : Session W → Result (Option (Dict ℤ)) → Result (Session W)
    with_snapshot s (err e) = err e
    with_snapshot s (ok stats) = ok (record s { stats_snapshot = stats })

    -- The nullable columns have been read.
    unfoldable pub scan_nullable :
        Session W → Option (List ℕ) → Option (Option ℕ) → Result (Session W)
    scan_nullable s none ended = err other
    scan_nullable s (some raw) none = err other
    scan_nullable s (some raw) (some ended) =
        with_snapshot (record s { ended_at = ended }) (read_stats raw)

    -- scanSession, on a row.
    unfoldable pub scan_session : List (Column W) → Result (Session W)
    scan_session
          (text id
            ∷ text name
            ∷ integer sf
            ∷ integer tx
            ∷ real ws
            ∷ flag active
            ∷ stats
            ∷ time at
            ∷ ended
            ∷ []) =
        scan_nullable
          (record {
            id = id;
            session_name = name;
            spreading_factor = sf;
            tx_power_dbm = tx;
            weather_severity = ws;
            is_active = active;
            stats_snapshot = none;
            created_at = at;
            ended_at = none;
          })
          (scan_bytes stats) (scan_time ended)
    scan_session _ = err other

    module _ {S : Type 0} (q : Pool W S) where
      -- Create
      unfoldable pub create_session : Session W → S → Result (Session W) × S
      create_session s w =
          let (a, v) =
            q.query_row
              (insert_session s.session_name s.spreading_factor s.tx_power_dbm s.weather_severity)
              w in
          (and_then (wrapped a) (λ row. scanned (scan_created s row)), v)

      -- GetByID
      unfoldable pub session_by_id : Text → S → Result (Session W) × S
      session_by_id id w =
          let (a, v) = q.query_row (select_session id) w in (and_then (found_row a) scan_session, v)

      -- List
      unfoldable pub list_sessions : ℕ → S → Result (List (Session W)) × S
      list_sessions limit w =
          let (a, v) = q.query (select_sessions limit) w in (collect scan_session a, v)

      -- ListActive
      unfoldable pub list_active : S → Result (List (Session W)) × S
      list_active w = let (a, v) = q.query select_active_sessions w in (collect scan_session a, v)

      -- updateActive
      unfoldable pub update_active : Statement W → S → Result (Unit {0}) × S
      update_active st w = let (a, v) = q.exec st w in (affected session_inactive a, v)

      -- UpdateWeather
      unfoldable pub update_weather : Text → W → S → Result (Unit {0}) × S
      update_weather id severity w = update_active (update_active_weather id severity) w

      -- UpdateRadioParams
      unfoldable pub update_radio_params : Text → ℤ → ℤ → S → Result (Unit {0}) × S
      update_radio_params id sf tx w =
          let (a, v) = q.exec (update_active_radio id sf tx) w in (affected session_inactive a, v)

      unfoldable pub stop_marshalled : Text → Option (List ℕ) → S → Result (Unit {0}) × S
      stop_marshalled id none w = (err other, w)
      stop_marshalled id (some raw) w =
          let (a, v) = q.exec (stop_active id raw) w in (affected session_inactive a, v)

      -- Stop
      unfoldable pub stop_session : Text → Dict ℤ → S → Result (Unit {0}) × S
      stop_session id stats w = stop_marshalled id (j.marshal_stats stats) w

      -- Delete
      unfoldable pub delete_session : Text → S → Result (Unit {0}) × S
      delete_session id w =
          let (a, v) = q.exec (delete_session_row id) w in (affected not_found a, v)
