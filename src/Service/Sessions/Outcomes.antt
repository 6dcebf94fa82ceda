-- ===== src/Service/Sessions/Outcomes.antt =====
-- What the operations on a session do on each of their branches.
use maritime_simulation.Base.{◌≡◌, ◌⊎◌, inl, inr, Bool, true, false, ◌∷◌, refl, ap}
use maritime_simulation.Base.Text.{Text}
use maritime_simulation.Domain.Errors.{failed, Result, ok, err}
use maritime_simulation.Domain.Entities.{Session}
use maritime_simulation.Service.Ports.{Ports, Sim, Effect, deleted}
use maritime_simulation.Service.Sessions.{delete, wrote, delete_stopped, delete_inactive}

module _ {W S : Type 0} (p : Ports W S) where
  -- Nothing is recorded, and the schedule stays.
  abbrev pub Untouched : Sim W S → Sim W S → Type 0
  Untouched s t = (t.trace ≡ s.trace) × (t.active ≡ s.active)

  wrote-outcome :
      (r : Result (Unit {0})) (e : Effect W) (s : Sim W S)
      → (wrote p r e s ≡ (ok tt, record s { trace = e ∷ s.trace }))
        ⊎ (failed (wrote p r e s).0 ≡ true) × Untouched s (wrote p r e s).1
  unfolding wrote
  wrote-outcome (ok _) e s = inl refl
  wrote-outcome (err x) e s = inr (refl, (refl, refl))

  -- The row of a session is gone.
  abbrev pub Deleted : Text → Result (Unit {0}) → Sim W S → Sim W S → Type 0
  Deleted id r s t = (r ≡ ok tt) × (t.trace ≡ deleted id ∷ s.trace) × (t.active ≡ s.active)

  delete_stopped-outcome :
      (b : Bool) (id : Text) (s : Sim W S)
      → ((b ≡ false) × Deleted id (delete_stopped p id b s).0 s (delete_stopped p id b s).1)
        ⊎ (failed (delete_stopped p id b s).0 ≡ true) × Untouched s (delete_stopped p id b s).1
  unfolding delete_stopped
  delete_stopped-outcome true id s = inr (refl, (refl, refl))
  delete_stopped-outcome false id s =
      let r = p.delete_session id s.world in
      elim (wrote-outcome r.0 (deleted id) (record s { world = r.1 })) [
        | inl e ↦ inl (refl, (ap (λ x. x.0) e, ap (λ x. x.1.trace) e, ap (λ x. x.1.active) e))
        | inr h ↦ inr h
      ]

  -- A session that the database knows, and that has stopped.
  abbrev pub IsOver : Result (Session W) → Type 0
  IsOver r = (sess : Session W) × (r ≡ ok sess) × (sess.is_active ≡ false)

  delete_inactive-outcome :
      (r : Result (Session W)) (id : Text) (s : Sim W S)
      → (IsOver r × Deleted id (delete_inactive p id r s).0 s (delete_inactive p id r s).1)
        ⊎ (failed (delete_inactive p id r s).0 ≡ true) × Untouched s (delete_inactive p id r s).1
  unfolding delete_inactive
  delete_inactive-outcome (err e) id s = inr (refl, (refl, refl))
  delete_inactive-outcome (ok sess) id s = elim (delete_stopped-outcome sess.is_active id s) [
    | inl (e, d) ↦ inl ((sess, refl, e), d)
    | inr h ↦ inr h
  ]

  -- `Delete` deletes only a session that the database knows and that has stopped; in any other
  -- case it fails and changes nothing.
  pub delete-outcome :
      (id : Text) (s : Sim W S)
      → (IsOver (p.session_by_id id s.world).0 × Deleted id (delete p id s).0 s (delete p id s).1)
        ⊎ (failed (delete p id s).0 ≡ true) × Untouched s (delete p id s).1
  unfolding delete
  delete-outcome id s =
      let r = p.session_by_id id s.world in
      delete_inactive-outcome r.0 id (record s { world = r.1 })
