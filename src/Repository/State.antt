-- ===== src/Repository/State.antt =====
-- repository/state_repo.go: the volatile state of a session.
pub mod Params
pub mod Dedup
use maritime_simulation.Base.{ℕ, Bool, [], ◌∷◌, Option, none, some, if◌then◌else◌, length, ◌==◌}
use maritime_simulation.Base.Int.{ℤ}
use maritime_simulation.Base.Text.{Text, codes}
use maritime_simulation.Base.Dict.{Dict, lookup}
use maritime_simulation.Domain.Errors.{Result, ok, err, not_found, other}
use maritime_simulation.Service.Ports.{SessionParams}
use maritime_simulation.Repository.Redis.{Redis, Codec, as_result, or_not_found}
use maritime_simulation.Repository.Keys.{
  key_params, key_stats, key_dedup, key_ack_sender, key_ping_limit,
}

-- dedupTTL and ackSenderTTL, in milliseconds.
abbrev pub dedup_ttl : ℕ
dedup_ttl = 30000

abbrev pub ack_sender_ttl : ℕ
ack_sender_ttl = 120000

-- `vals[name]`, where a missing key gives the empty string.
abbrev pub or_empty : Option Text → Text
or_empty none = []
or_empty (some v) = v

-- An error of `strconv`, which wraps no sentinel.
abbrev pub or_corrupt : {A : Type 0} → Option A → Result A
or_corrupt none = err other
or_corrupt (some a) = ok a

-- Runs `f` on the value of a result, and hands an error on.
abbrev pub and_then : {A B : Type 0} → Result A → (A → Result B) → Result B
and_then (ok a) f = f a
and_then (err e) f = err e

module _ {W : Type 0} (c : Codec W) where
  -- The hash that `SaveParams` writes.
  unfoldable pub params_hash : SessionParams W → Dict Text
  params_hash p =
      (codes "spreading_factor", c.format_int p.spreading_factor)
      ∷ (codes "tx_power_dbm", c.format_int p.tx_power_dbm)
      ∷ (codes "weather_severity", c.format_float p.weather_severity)
      ∷ []

  -- What `GetParams` makes of the hash.
  unfoldable pub params_of : Dict Text → Result (SessionParams W)
  params_of vals =
      if length vals == 0
      then err not_found
      else and_then (or_corrupt (c.parse_int (or_empty (lookup (codes "spreading_factor") vals))))
          (λ sf.
            and_then (or_corrupt (c.parse_int (or_empty (lookup (codes "tx_power_dbm") vals))))
              (λ tx.
                and_then
                  (or_corrupt (c.parse_float (or_empty (lookup (codes "weather_severity") vals))))
                  (λ ws.
                    ok (record {
                      spreading_factor = sf;
                      tx_power_dbm = tx;
                      weather_severity = ws;
                    }))))

  abbrev pub keep_stat : Text → Option ℤ → Dict ℤ → Dict ℤ
  keep_stat k none d = d
  keep_stat k (some n) d = (k, n) ∷ d

  -- The loop of `GetStats`, which passes over what is not a number.
  unfoldable pub stats_of : Dict Text → Dict ℤ
  stats_of [] = []
  stats_of ((k, v) ∷ vals) = keep_stat k (c.parse_int v) (stats_of vals)

module _ {W S : Type 0} (r : Redis W S) where
  -- SaveParams
  unfoldable pub save_params : Codec W → Text → SessionParams W → S → Result (Unit {0}) × S
  save_params c sid p s =
      let (a, t) = r.hset (key_params sid) (params_hash c p) s in (as_result a, t)

  -- GetParams
  unfoldable pub get_params : Codec W → Text → S → Result (SessionParams W) × S
  get_params c sid s =
      let (a, t) = r.hgetall (key_params sid) s in (and_then (as_result a) (params_of c), t)

  -- MarkPacketSeen
  unfoldable pub mark_packet_seen : Text → Text → Text → S → Result Bool × S
  mark_packet_seen sid packet_id receiver s =
      let (a, t) = r.set_nx (key_dedup sid packet_id receiver) (codes "1") dedup_ttl s in
      (as_result a, t)

  -- RememberAckSender
  unfoldable pub remember_ack_sender : Text → Text → Text → Text → S → Result (Unit {0}) × S
  remember_ack_sender sid packet_id receiver sender s =
      let (a, t) = r.set_key (key_ack_sender sid packet_id receiver) sender ack_sender_ttl s in
      (as_result a, t)

  -- TakeAckSender
  unfoldable pub take_ack_sender : Text → Text → Text → S → Result Text × S
  take_ack_sender sid packet_id receiver s =
      let (a, t) = r.get_del (key_ack_sender sid packet_id receiver) s in (or_not_found a, t)

  -- AllowPing, with the interval in milliseconds.
  unfoldable pub allow_ping : Text → Text → ℕ → S → Result Bool × S
  allow_ping sid node interval s =
      let (a, t) = r.set_nx (key_ping_limit sid node) (codes "1") interval s in (as_result a, t)

  -- IncrStat
  unfoldable pub incr_stat : Text → Text → S → Result (Unit {0}) × S
  incr_stat sid field s = let (a, t) = r.hincrby (key_stats sid) field 1 s in (as_result a, t)

  -- GetStats
  unfoldable pub get_stats : Codec W → Text → S → Result (Dict ℤ) × S
  get_stats c sid s =
      let (a, t) = r.hgetall (key_stats sid) s in
      (and_then (as_result a) (λ vals. ok (stats_of c vals)), t)

  -- ClearSession
  unfoldable pub clear_session : Text → S → Result (Unit {0}) × S
  clear_session sid s =
      let (a, t) = r.del (key_params sid ∷ key_stats sid ∷ []) s in (as_result a, t)
