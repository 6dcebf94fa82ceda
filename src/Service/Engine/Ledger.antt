-- ===== src/Service/Engine/Ledger.antt =====
-- What the record of effects says of one session: the transmissions counted, their outcomes, the
-- receptions that call for an acknowledgement, and the acknowledgements.
use maritime_simulation.Base.{ℕ, ◌+◌, ◌*◌, ◌≡◌, List, [], ◌∷◌, if◌then◌else◌}
use maritime_simulation.Base.Text.{Text, text_eq}
use maritime_simulation.Protocol.{Message, mesh_ack}
use maritime_simulation.Service.Ports.{
  Effect, Stat, Fault, bumped, sent, logged, transmit_total, dropped_sf_limit, dropped_max_hops,
  dropped_air_loss, dropped_out_of_range, dropped_no_position, dropped_target_offline,
  duplicates_filtered, forwarded_to_node, delivered_to_edge, acks_dropped, edge_lookup_failed,
  geo_read_failed, dedup_check_failed,
}

-- 1 for the session `q`, and 0 for any other.
abbrev pub own : Text → Text → ℕ
own q sid = if text_eq sid q then 1 else 0

abbrev pub is_total : Stat → ℕ
is_total transmit_total = 1
is_total _ = 0

-- The counters of which each transmission belongs to one.
abbrev pub is_outcome : Stat → ℕ
is_outcome dropped_sf_limit = 1
is_outcome dropped_max_hops = 1
is_outcome dropped_air_loss = 1
is_outcome dropped_out_of_range = 1
is_outcome dropped_no_position = 1
is_outcome dropped_target_offline = 1
is_outcome duplicates_filtered = 1
is_outcome forwarded_to_node = 1
is_outcome delivered_to_edge = 1
is_outcome _ = 0

-- The faults of the infrastructure that end a transmission.
abbrev pub is_abort : Fault → ℕ
is_abort edge_lookup_failed = 1
is_abort geo_read_failed = 1
is_abort dedup_check_failed = 1
is_abort _ = 0

-- The receptions that the engine acknowledges itself.
abbrev pub is_reception : Stat → ℕ
is_reception duplicates_filtered = 1
is_reception delivered_to_edge = 1
is_reception _ = 0

abbrev pub is_lost_ack : Stat → ℕ
is_lost_ack acks_dropped = 1
is_lost_ack _ = 0

module _ {W : Type 0} where
  abbrev pub is_ack : Message W → ℕ
  is_ack (mesh_ack _) = 1
  is_ack _ = 0

  abbrev pub total_of : Text → Effect W → ℕ
  total_of q (bumped sid st) = is_total st * own q sid
  total_of q _ = 0

  abbrev pub outcome_of : Text → Effect W → ℕ
  outcome_of q (bumped sid st) = is_outcome st * own q sid
  outcome_of q (logged sid f) = is_abort f * own q sid
  outcome_of q _ = 0

  abbrev pub reception_of : Text → Effect W → ℕ
  reception_of q (bumped sid st) = is_reception st * own q sid
  reception_of q _ = 0

  abbrev pub answer_of : Text → Effect W → ℕ
  answer_of q (bumped sid st) = is_lost_ack st * own q sid
  answer_of q (sent sid node m) = is_ack m * own q sid
  answer_of q _ = 0

  abbrev pub tally : (Effect W → ℕ) → List (Effect W) → ℕ
  tally f [] = 0
  tally f (e ∷ es) = f e + tally f es

  -- `transmit_total` of the session `q`.
  abbrev pub transmissions : Text → List (Effect W) → ℕ
  transmissions q = tally (total_of q)

  -- The outcomes counted, and the transmissions that a fault ended.
  abbrev pub outcomes : Text → List (Effect W) → ℕ
  outcomes q = tally (outcome_of q)

  -- The frames delivered to an edge, and the duplicates.
  abbrev pub receptions : Text → List (Effect W) → ℕ
  receptions q = tally (reception_of q)

  -- The acknowledgements sent, and those counted as lost.
  abbrev pub answers : Text → List (Effect W) → ℕ
  answers q = tally (answer_of q)

  -- From `t` to `t'` the ledger of the session `q` grew by the four numbers, for the session `sid`.
  pub record Grows (q sid : Text) (total outcome reception answer : ℕ) (t t' : List (Effect W))
      : Type 0 where
    pub totals : transmissions q t' ≡ transmissions q t + total * own q sid
    pub outs : outcomes q t' ≡ outcomes q t + outcome * own q sid
    pub receives : receptions q t' ≡ receptions q t + reception * own q sid
    pub answered : answers q t' ≡ answers q t + answer * own q sid

  -- `total` transmissions are counted and `outcome` outcomes; every reception is answered.
  pub record Settles (q sid : Text) (total outcome : ℕ) (t t' : List (Effect W)) : Type 0 where
    pub totals : transmissions q t' ≡ transmissions q t + total * own q sid
    pub outs : outcomes q t' ≡ outcomes q t + outcome * own q sid
    pub answered : receptions q t' + answers q t ≡ receptions q t + answers q t'
