-- ===== src/Service/Schemas/Outcomes.antt =====
-- What a new schema leads to.
use maritime_simulation.Base.{
  ℕ, ◌≤◌, ◌≡◌, ◌⊎◌, ◌↔◌, inl, inr, Bool, true, false, List, ◌∷◌, none, arith, refl,
}
use maritime_simulation.Base.Int.{ℤ}
use maritime_simulation.Base.Text.{Text}
use maritime_simulation.Domain.Errors.{failed, Result, ok, err}
use maritime_simulation.Domain.Entities.{Session}
use maritime_simulation.Domain.Lora.{max_payload_bytes}
use maritime_simulation.Domain.Schema.{
  DynamicSchema, SchemaField, validate_schema_fields, estimate_packed_bytes,
}
use maritime_simulation.Protocol.{schema_sync}
use maritime_simulation.Service.Ports.{
  Ports, Sim, note, try_ok, created_schema, sent_to_nodes, sent_to_monitors,
}
use maritime_simulation.Service.Schemas.{
  Stored, warning_of, sync_of, push_new, store_schema, store_active, find_session, set_schema,
}

-- There is a warning exactly if the estimate is more than the spreading factor allows.
warning_of-none : (n : ℕ) (sf : ℤ) → (warning_of n sf ≡ none) ↔ (n ≤ max_payload_bytes sf)
unfolding warning_of
warning_of-none n sf = (λ h. ground arith, λ h. ground arith)

module _ {W S : Type 0} (p : Ports W S) where
  -- The schema is stored, and then sent to the ships and the monitors of the session, with the
  -- estimate that is returned; there is a warning unless the estimate fits.
  abbrev pub Injected :
      Text → List SchemaField → Session W → Sim W S → Result Stored → Sim W S → Type 0
  Injected sid fields sess s r t =
      (stored : Stored) × (r ≡ ok stored)
      × (stored.estimate ≡ estimate_packed_bytes fields)
      × ((stored.warning ≡ none)
          ↔ (estimate_packed_bytes fields ≤ max_payload_bytes sess.spreading_factor))
      × (t.trace
          ≡ sent_to_monitors sid (schema_sync (sync_of fields))
            ∷ sent_to_nodes sid (schema_sync (sync_of fields))
            ∷ created_schema sid fields
            ∷ s.trace)

  abbrev pub Failure : {A : Type 0} → Sim W S → Result A → Sim W S → Type 0
  Failure s r t = (failed r ≡ true) × (t.trace ≡ s.trace)

  push_new-outcome :
      (r : Result DynamicSchema) (sid : Text) (fields : List SchemaField) (sess : Session W)
      (s : Sim W S)
      → (let t = (note r (created_schema sid fields) s).1 in
          let (x, u) = push_new p sid fields sess r t in
          Injected sid fields sess s x u ⊎ Failure s x u)
  unfolding push_new
  push_new-outcome (err e) sid fields sess s = inr (refl, refl)
  push_new-outcome (ok schema) sid fields sess s =
      inl
        (_, refl, refl, warning_of-none (estimate_packed_bytes fields) sess.spreading_factor, refl)

  -- An active session, as the database has it.
  abbrev pub IsRunning : Result (Session W) → Session W → Type 0
  IsRunning r sess = (r ≡ ok sess) × (sess.is_active ≡ true)

  store_active-outcome :
      (b : Bool) (sid : Text) (fields : List SchemaField) (sess : Session W) (s : Sim W S)
      → (let (x, u) = store_active p sid fields sess b s in
          ((b ≡ true) × Injected sid fields sess s x u) ⊎ Failure s x u)
  unfolding store_active
  store_active-outcome false sid fields sess s = inr (refl, refl)
  store_active-outcome true sid fields sess s =
      let r = p.create_schema sid fields s.world in
      elim (push_new-outcome r.0 sid fields sess (record s { world = r.1 })) [
        | inl h ↦ inl (refl, h)
        | inr h ↦ inr h
      ]

  store_schema-outcome :
      (r : Result (Session W)) (sid : Text) (fields : List SchemaField) (s : Sim W S)
      → (let (x, u) = store_schema p sid fields r s in
          ((sess : Session W) × IsRunning r sess × Injected sid fields sess s x u) ⊎ Failure s x u)
  unfolding store_schema
  store_schema-outcome (err e) sid fields s = inr (refl, refl)
  store_schema-outcome (ok sess) sid fields s =
      elim (store_active-outcome sess.is_active sid fields sess s) [
        | inl (e, h) ↦ inl (sess, (refl, e), h)
        | inr h ↦ inr h
      ]

  check-outcome :
      (v : Result (Unit {0})) (sid : Text) (fields : List SchemaField) (s : Sim W S)
      → (let (x, u) = try_ok v (λ _. find_session p sid fields) s in
          ((v ≡ ok tt)
            × (sess : Session W) × IsRunning (p.session_by_id sid s.world).0 sess
            × Injected sid fields sess s x u)
          ⊎ Failure s x u)
  unfolding find_session
  check-outcome (err e) sid fields s = inr (refl, refl)
  check-outcome (ok _) sid fields s =
      let r = p.session_by_id sid s.world in
      elim (store_schema-outcome r.0 sid fields (record s { world = r.1 })) [
        | inl (q, a, b) ↦ inl (refl, q, a, b)
        | inr h ↦ inr h
      ]

  -- `SetSchema` either fails and sends nothing, or the fields are valid, the session is known and
  -- active, and the schema is stored, then sent to ships and monitors; the estimate returned is the
  -- one sent, and the warning is empty exactly if it is within the payload limit of the session.
  pub set_schema-outcome :
      (sid : Text) (fields : List SchemaField) (s : Sim W S)
      → (let (x, u) = set_schema p sid fields s in
          ((validate_schema_fields fields ≡ ok tt)
            × (sess : Session W) × IsRunning (p.session_by_id sid s.world).0 sess
            × Injected sid fields sess s x u)
          ⊎ Failure s x u)
  unfolding set_schema
  set_schema-outcome sid fields s = check-outcome (validate_schema_fields fields) sid fields s
