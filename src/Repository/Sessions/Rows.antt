-- ===== src/Repository/Sessions/Rows.antt =====
-- The errors of the guarded updates.
use Prim.Native.Nat.{zero, suc}
use maritime_simulation.Base.{ℕ, ◌≡◌, ◌↔◌, refl, arith, List, some}
use maritime_simulation.Base.Int.{ℤ}
use maritime_simulation.Base.Text.{Text}
use maritime_simulation.Base.Dict.{Dict}
use maritime_simulation.Domain.Errors.{err, session_inactive, not_found}
use maritime_simulation.Repository.Postgres.{
  Pool, Json, Answer, done, failed, affected, update_active_weather, update_active_radio,
  stop_active, delete_session_row,
}
use maritime_simulation.Repository.Sessions.{
  update_weather, update_radio_params, update_active, stop_session, stop_marshalled, delete_session,
}

module _ {W : Type 0} (j : Json W) where
  -- The error says that no row was affected.
  affected_iff :
      (a : Answer ℕ)
      → ((affected session_inactive a ≡ err session_inactive) ↔ (a ≡ done 0))
        × ((affected not_found a ≡ err not_found) ↔ (a ≡ done 0))
  unfolding affected
  affected_iff (failed f) =
      ((λ h. ground arith, λ h. ground arith), (λ h. ground arith, λ h. ground arith))
  affected_iff (done zero) = ((λ h. refl, λ h. refl), (λ h. refl, λ h. refl))
  affected_iff (done (suc n)) =
      ((λ h. ground arith, λ h. ground arith), (λ h. ground arith, λ h. ground arith))

  module _ {S : Type 0} (q : Pool W S) where
    -- The updates that ask for an active session answer `ErrSessionInactive` exactly if their
    -- statement matched no row, and `Delete` answers `ErrNotFound` exactly then; `Stop` does so if the
    -- statistics have a JSON.
    pub updates_iff :
        (id : Text) (ws : W) (sf tx : ℤ) (stats : Dict ℤ) (raw : List ℕ) (w : S)
        → j.marshal_stats stats ≡ some raw
        → (((update_weather j q id ws w).0 ≡ err session_inactive)
            ↔ ((q.exec (update_active_weather id ws) w).0 ≡ done 0))
          × (((update_radio_params j q id sf tx w).0 ≡ err session_inactive)
              ↔ ((q.exec (update_active_radio id sf tx) w).0 ≡ done 0))
          × (((stop_session j q id stats w).0 ≡ err session_inactive)
              ↔ ((q.exec (stop_active id raw) w).0 ≡ done 0))
          × (((delete_session j q id w).0 ≡ err not_found)
              ↔ ((q.exec (delete_session_row id) w).0 ≡ done 0))
    unfolding update_weather update_active update_radio_params stop_session stop_marshalled
        delete_session
    updates_iff id ws sf tx stats raw w m = (
      (affected_iff (q.exec (update_active_weather id ws) w).0).0,
      (affected_iff (q.exec (update_active_radio id sf tx) w).0).0,
      rw m (affected_iff (q.exec (stop_active id raw) w).0).0,
      (affected_iff (q.exec (delete_session_row id) w).0).1,
    )
