-- ===== src/Repository/State/Params.antt =====
-- The cached parameters of a session, written and read.
use maritime_simulation.Base.{◌≡◌, refl, ◌∙◌, true, [], ◌∷◌, Option, some, ◌⊎◌, inl, inr, arith}
use maritime_simulation.Base.Text.{Text, codes, text_eq, text_eq_refl}
use maritime_simulation.Base.Dict.{Dict, lookup}
use maritime_simulation.Domain.Errors.{ok, failed}
use maritime_simulation.Service.Ports.{SessionParams}
use maritime_simulation.Repository.Redis.{
  Redis, Codec, IsRedis, IsCodec, Reply, value, missing, fault, as_result, apply_command, hset_all,
  Hashes,
}
use maritime_simulation.Repository.Keys.{key_params}
use maritime_simulation.Repository.State.{params_hash, params_of, save_params, get_params, and_then}

pub as_result-value : {A : Type 0} (a : Reply A) (x : A) → as_result a ≡ ok x → a ≡ value x
as_result-value (value a) x h = ground arith
as_result-value missing x h = cc
as_result-value fault x h = cc

own_field :
    (k : Text) (d : Dict Text) (h : Hashes) (f v : Text)
    → lookup f d ≡ some v
    → apply_command (hset_all k d) h k f ≡ some v
unfolding apply_command
own_field k d h f v e = rw (text_eq_refl k, e) refl

module _ {W : Type 0} (c : Codec W) (i : IsCodec c) where
  -- The three fields of the hash are there.
  abbrev Stored : SessionParams W → (Text → Option Text) → Type 0
  Stored p h =
      (h (codes "spreading_factor") ≡ some (c.format_int p.spreading_factor))
      × (h (codes "tx_power_dbm") ≡ some (c.format_int p.tx_power_dbm))
      × (h (codes "weather_severity") ≡ some (c.format_float p.weather_severity))

  params_of-Stored :
      (p : SessionParams W) (d : Dict Text) → Stored p (λ f. lookup f d) → params_of c d ≡ ok p
  unfolding params_of lookup
  params_of-Stored p [] (a, b, e) = ground arith
  params_of-Stored p (x ∷ d) (a, b, e) =
      rw
        (
          a,
          b,
          e,
          i.int_read p.spreading_factor,
          i.int_read p.tx_power_dbm,
          i.float_read p.weather_severity,
        )
        (ground arith)

  module _ {S : Type 0} (r : Redis W S) (q : IsRedis r) where
    hset-Stored :
        (sid : Text) (p : SessionParams W) (s : S)
        → (r.hset (key_params sid) (params_hash c p) s).0 ≡ value tt
        → Stored p (q.hash (r.hset (key_params sid) (params_hash c p) s).1 (key_params sid))
    unfolding params_hash apply_command lookup text_eq
    hset-Stored sid p s h =
        let k = key_params sid in
        let d = params_hash c p in
        let at = q.hset_lem k d s h k in
        (
          at (codes "spreading_factor")
              ∙ own_field k d (q.hash s) (codes "spreading_factor") _ refl,
          at (codes "tx_power_dbm") ∙ own_field k d (q.hash s) (codes "tx_power_dbm") _ refl,
          at (codes "weather_severity")
              ∙ own_field k d (q.hash s) (codes "weather_severity") _ refl,
        )

    read_params :
        (sid : Text) (p : SessionParams W) (t : S) (a : Reply (Dict Text))
        → (r.hgetall (key_params sid) t).0 ≡ a
        → Stored p (q.hash t (key_params sid))
        → (and_then (as_result a) (params_of c) ≡ ok p) ⊎ (failed (as_result a) ≡ true)
    read_params sid p t (value d) h (x, y, z) =
        let at = q.hgetall_lem (key_params sid) t d h in
        inl (
          params_of-Stored p d (
            at (codes "spreading_factor") ∙ x,
            at (codes "tx_power_dbm") ∙ y,
            at (codes "weather_severity") ∙ z,
          ))
    read_params sid p t missing h x = inr refl
    read_params sid p t fault h x = inr refl

    -- After a `SaveParams` that succeeds, `GetParams` returns what was saved, unless Redis fails.
    pub params_round_trip :
        (sid : Text) (p : SessionParams W) (s : S)
        → (save_params r c sid p s).0 ≡ ok tt
        → ((get_params r c sid (save_params r c sid p s).1).0 ≡ ok p)
          ⊎ (failed (as_result (r.hgetall (key_params sid) (save_params r c sid p s).1).0) ≡ true)
    unfolding save_params get_params
    params_round_trip sid p s h =
        read_params sid p _ _ refl (
          hset-Stored sid p s
            (as_result-value (r.hset (key_params sid) (params_hash c p) s).0 tt h))
