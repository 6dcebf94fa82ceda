-- ===== src/Tests/Lifecycle.antt =====
-- A session that stops, is deleted, resumes or gets a schema; and a new routing table.
use maritime_simulation.Base.{some, none, ◌≡◌, ◌⊎◌, refl, true, false, List, [], ◌∷◌, All}
use maritime_simulation.Base.Text.{codes}
use maritime_simulation.Base.Dict.{Dict}
use maritime_simulation.Floats.{milli_float, Milli}
use maritime_simulation.Domain.Errors.{failed, ok}
use maritime_simulation.Domain.Entities.{Session, RouteEntry, routed}
use maritime_simulation.Domain.Schema.{validate_schema_fields}
use maritime_simulation.Service.Sessions.{
  update_weather, update_radio_params, delete, resume_active, resume_all, cache_params, wrote,
}
use maritime_simulation.Service.Sessions.Outcomes.{Untouched, IsOver, Deleted, delete-outcome}
use maritime_simulation.Service.Sessions.Resume.{IsScheduled, resume_active-IsScheduled}
use maritime_simulation.Service.Schemas.{set_schema}
use maritime_simulation.Service.Schemas.Outcomes.{Injected, IsRunning, Failure, set_schema-outcome}
use maritime_simulation.Service.Topology.{replace_table}
use maritime_simulation.Service.Topology.Updates.{ReplacedFrom, replace_table-outcome}
use maritime_simulation.Service.Sessions.Validity.{AllValid, updates-AllValid}
use maritime_simulation.Base.Int.{pos}
use maritime_simulation.Tests.Sample.{sid, ports, start, fields}

delete-outcome_example :
    (IsOver (ports false) ((ports false).session_by_id sid tt).0
      × Deleted
          (ports false)
          sid
          (delete (ports false) sid start).0
          start
          (delete (ports false) sid start).1)
    ⊎ (failed (delete (ports false) sid start).0 ≡ true)
      × Untouched (ports false) start (delete (ports false) sid start).1
delete-outcome_example = delete-outcome (ports false) sid start

resumed : (resume_active (ports true) start).0 ≡ ok tt
unfolding resume_active resume_all cache_params wrote
resumed = refl

resume_active-IsScheduled_example :
    (l : List (Session Milli)) × (((ports true).list_active tt).0 ≡ ok l)
    × All (λ sess. IsScheduled sess.id (resume_active (ports true) start).1) l
resume_active-IsScheduled_example = resume_active-IsScheduled (ports true) start resumed

set_schema-outcome_example :
    ((validate_schema_fields fields ≡ ok tt)
      × (sess : Session Milli) × IsRunning (ports true) ((ports true).session_by_id sid tt).0 sess
      × Injected
          (ports true)
          sid
          fields
          sess
          start
          (set_schema (ports true) sid fields start).0
          (set_schema (ports true) sid fields start).1)
    ⊎ Failure
        (ports true)
        start
        (set_schema (ports true) sid fields start).0
        (set_schema (ports true) sid fields start).1
set_schema-outcome_example = set_schema-outcome (ports true) sid fields start

abbrev table : Dict (RouteEntry Milli)
table =
    (
      codes "A",
      record {
        node_id = codes "A";
        parent = codes "E1";
        parent_is_edge = true;
        distance_km = 1000;
        hop_level = 1;
        status = routed;
      },
    )
    ∷ []

replace_table-outcome_example :
    ReplacedFrom
      (ports true)
      sid
      table
      ((ports true).get_table sid tt).0
      start
      (replace_table (ports true) sid table start).1
    ⊎ (failed (replace_table (ports true) sid table start).0 ≡ true)
      × ((replace_table (ports true) sid table start).1.trace ≡ start.trace)
replace_table-outcome_example = replace_table-outcome (ports true) sid table start

updates-AllValid_example :
    AllValid (update_radio_params (ports true) sid (some (pos 9)) none start).1.trace
    × AllValid (update_weather (ports true) sid 1500 start).1.trace
updates-AllValid_example = updates-AllValid (ports true) sid (some (pos 9)) none 1500 start tt
