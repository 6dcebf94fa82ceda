-- ===== src/Tests/Store.antt =====
-- Redis in memory, a codec of plain numbers, and the repositories over them.
use Prim.Native.Nat.{zero, suc}
use mathlib.Core.Option.{some-injective}
use maritime_simulation.Base.{
  ℕ, ◌≡◌, ◌⊎◌, refl, sym, ap, ◌∙◌, Bool, true, false, not, List, [], ◌∷◌, ◌++◌, Option, none, some,
  arith, if◌then◌else◌, length, ◌-◌, ◌==◌, ◌&&◌,
}
use maritime_simulation.Base.Int.{ℤ, pos, negsuc}
use maritime_simulation.Base.Text.{Text, codes, text_eq}
use maritime_simulation.Base.Dict.{Dict, lookup, is_some}
use maritime_simulation.Floats.{Milli}
use maritime_simulation.Domain.Errors.{ok, failed}
use maritime_simulation.Domain.Entities.{RouteEntry, RouteStatus, routed, isolated}
use maritime_simulation.Repository.Redis.{
  Redis, Codec, IsRedis, IsTimed, IsCodec, Reply, value, missing, fault, as_result, Command,
  del_keys, hset_all, apply_command, apply_all, over, Hashes, has_key,
}
use maritime_simulation.Repository.Keys.{
  key_params, key_dedup, key_routes_full, key_dedup_injective,
}
use maritime_simulation.Repository.State.{save_params, get_params, mark_packet_seen}
use maritime_simulation.Repository.State.Params.{params_round_trip}
use maritime_simulation.Repository.State.Dedup.{
  mark_all, first_seen, mark_all-first_seen, Pair, remaining,
}
use maritime_simulation.Repository.Routes.{save_table, get_route, full_hash, exec_table}
use maritime_simulation.Repository.Routes.RoundTrip.{found, table_round_trip}
use maritime_simulation.Tests.Sample.{sid, calm}

-- What the server holds: the hashes and the strings.
abbrev pub Memory : Type 0
Memory = (Text → Dict Text) × (Text → Option Text)

abbrev run_command : Command → (Text → Dict Text) → Text → Dict Text
run_command (del_keys ks) h j = if has_key j ks then [] else h j
run_command (hset_all k d) h j = if text_eq k j then d ++ h j else h j

abbrev run_all : List Command → (Text → Dict Text) → Text → Dict Text
run_all [] h = h
run_all (c ∷ cs) h = run_all cs (run_command c h)

abbrev held : Option Text → Reply Text
held none = missing
held (some v) = value v

abbrev pub memory : Redis Milli Memory
memory = record {
  hset = λ k d s. (value tt, (run_command (hset_all k d) s.0, s.1));
  hgetall = λ k s. (value (s.0 k), s);
  hget = λ k f s. (held (lookup f (s.0 k)), s);
  hincrby = λ k f n s. (value tt, s);
  set_nx = λ k v n s. (
    value (not (is_some (s.1 k))),
    (s.0, λ j. if text_eq k j then over (s.1 k) (some v) else s.1 j),
  );
  set_key = λ k v n s. (value tt, (s.0, λ j. if text_eq k j then some v else s.1 j));
  get_del = λ k s. (held (s.1 k), (s.0, λ j. if text_eq k j then none else s.1 j));
  del = λ ks s. (value tt, (run_command (del_keys ks) s.0, s.1));
  exec = λ cs s. (value tt, (run_all cs s.0, s.1));
  geo_add = λ k n lat lng s. (value tt, s);
  z_rem = λ k n s. (value tt, s);
  geo_pos = λ k ns s. (value [], s);
  z_range = λ k s. (value [], s);
}

lookup-append : (f : Text) (d e : Dict Text) → lookup f (d ++ e) ≡ over (lookup f d) (lookup f e)
unfolding lookup
lookup-append f [] e = refl
lookup-append f ((k, v) ∷ d) e = ground (arith, lookup-append f d e)

run_command-lookup :
    (c : Command) (h : Text → Dict Text) (g : Hashes)
    → ((j f : Text) → lookup f (h j) ≡ g j f)
    → (j f : Text) → lookup f (run_command c h j) ≡ apply_command c g j f
unfolding apply_command lookup
run_command-lookup (del_keys ks) h g e j f = ground (arith, e j f)
run_command-lookup (hset_all k d) h g e j f = ground (arith, lookup-append f d (h j), e j f)

run_all-lookup :
    (cs : List Command) (h : Text → Dict Text) (g : Hashes)
    → ((j f : Text) → lookup f (h j) ≡ g j f)
    → (j f : Text) → lookup f (run_all cs h j) ≡ apply_all cs g j f
unfolding apply_all
run_all-lookup [] h g e j f = e j f
run_all-lookup (c ∷ cs) h g e j f =
    run_all-lookup cs (run_command c h) (apply_command c g) (run_command-lookup c h g e) j f

held-value : (o : Option Text) (v : Text) → held o ≡ value v → o ≡ some v
held-value none v e = cc
held-value (some w) v e = ground arith

held-missing : (o : Option Text) → held o ≡ missing → o ≡ none
held-missing none e = refl
held-missing (some w) e = cc

value_injective : {A : Type 0} (a b : A) → value a ≡ value b → a ≡ b
value_injective a b e = ground arith

pub memory-IsRedis : IsRedis memory
memory-IsRedis = record {
  hash = λ s k f. lookup f (s.0 k);
  hset_lem = λ k d s e j f. run_command-lookup (hset_all k d) s.0 _ (λ x y. refl) j f;
  hgetall_lem = λ k s d e f. ap (lookup f) (sym (value_injective (s.0 k) d e));
  hget_lem = λ k f s v e. held-value (lookup f (s.0 k)) v e;
  hget_missing = λ k f s e. held-missing (lookup f (s.0 k)) e;
  del_lem = λ ks s e j f. run_command-lookup (del_keys ks) s.0 _ (λ x y. refl) j f;
  exec_lem = λ cs s e j f. run_all-lookup cs s.0 _ (λ x y. refl) j f;
}

abbrev number : ℤ → Text
number (pos n) = 0 ∷ n ∷ []
number (negsuc n) = 1 ∷ n ∷ []

abbrev read_number : Text → Option ℤ
read_number (zero ∷ n ∷ []) = some (pos n)
read_number (suc k ∷ n ∷ []) = some (negsuc n)
read_number _ = none

read_number-number : (n : ℤ) → read_number (number n) ≡ some n
read_number-number (pos n) = refl
read_number-number (negsuc n) = refl

abbrev read_float : Text → Option Milli
read_float (x ∷ []) = some x
read_float _ = none

abbrev first : ℕ → Text → Text
first zero t = []
first (suc n) [] = []
first (suc n) (c ∷ t) = c ∷ first n t

abbrev behind : ℕ → Text → Text
behind zero t = t
behind (suc n) [] = []
behind (suc n) (c ∷ t) = behind n t

first-append : (a b : Text) → first (length a) (a ++ b) ≡ a
first-append [] b = refl
first-append (c ∷ a) b = ap (λ t. c ∷ t) (first-append a b)

behind-append : (a b : Text) → behind (length a) (a ++ b) ≡ b
behind-append [] b = refl
behind-append (c ∷ a) b = behind-append a b

abbrev flag : Bool → ℕ
flag false = 0
flag true = 1

abbrev unflag : ℕ → Bool
unflag zero = false
unflag (suc n) = true

unflag-flag : (b : Bool) → unflag (flag b) ≡ b
unflag-flag true = refl
unflag-flag false = refl

abbrev mark : RouteStatus → ℕ
mark routed = 0
mark isolated = 1

abbrev unmark : ℕ → RouteStatus
unmark zero = routed
unmark (suc n) = isolated

unmark-mark : (s : RouteStatus) → unmark (mark s) ≡ s
unmark-mark routed = refl
unmark-mark isolated = refl

abbrev write_route : RouteEntry Milli → Text
write_route e =
    flag e.parent_is_edge
    ∷ e.distance_km
    ∷ e.hop_level
    ∷ mark e.status
    ∷ length e.node_id
    ∷ (e.node_id ++ e.parent)

abbrev read_route : Text → Option (RouteEntry Milli)
read_route (b ∷ d ∷ h ∷ s ∷ n ∷ t) = some (record {
  node_id = first n t;
  parent = behind n t;
  parent_is_edge = unflag b;
  distance_km = d;
  hop_level = h;
  status = unmark s;
})
read_route _ = none

read_route-write_route : (e : RouteEntry Milli) → read_route (write_route e) ≡ some e
read_route-write_route e =
    rw
      (
        first-append e.node_id e.parent,
        behind-append e.node_id e.parent,
        unflag-flag e.parent_is_edge,
        unmark-mark e.status,
      )
      refl

abbrev pub plain_codec : Codec Milli
plain_codec = record {
  format_int = number;
  format_float = λ x. x ∷ [];
  parse_int = read_number;
  parse_float = read_float;
  marshal_route = λ e. some (write_route e);
  unmarshal_route = read_route;
}

pub plain_codec-IsCodec : IsCodec plain_codec
plain_codec-IsCodec = record {
  int_read = read_number-number;
  float_read = λ x. refl;
  route_read = λ e t h. ap read_route (sym (some-injective _ _ h)) ∙ read_route-write_route e;
}

abbrev pub empty : Memory
empty = (λ k. [], λ k. none)

params_round_trip_example :
    ((get_params memory plain_codec sid (save_params memory plain_codec sid calm empty).1).0
      ≡ ok calm)
    ⊎ (failed (
          as_result
            (memory.hgetall (key_params sid) (save_params memory plain_codec sid calm empty).1).0)
        ≡ true)
unfolding save_params
params_round_trip_example =
    params_round_trip plain_codec plain_codec-IsCodec memory memory-IsRedis sid calm empty refl

abbrev routes : Dict (RouteEntry Milli)
routes =
    (
      codes "A",
      record {
        node_id = codes "A";
        parent = codes "E1";
        parent_is_edge = true;
        distance_km = 1500;
        hop_level = 1;
        status = routed;
      },
    )
    ∷ []

table_round_trip_example :
    ((get_route plain_codec memory sid
        (codes "A")
        (save_table plain_codec memory sid routes empty).1).0
      ≡ found (lookup (codes "A") routes))
    ⊎ ((memory.hget
          (key_routes_full sid)
          (codes "A")
          (save_table plain_codec memory sid routes empty).1).0
        ≡ fault)
unfolding save_table exec_table full_hash
table_round_trip_example =
    table_round_trip plain_codec memory memory-IsRedis plain_codec-IsCodec sid routes empty
      (codes "A") refl

-- Keys with a lifetime, and nothing else.
abbrev timer : Redis Milli (Text → ℕ)
timer = record {
  hset = λ k d s. (fault, s);
  hgetall = λ k s. (fault, s);
  hget = λ k f s. (fault, s);
  hincrby = λ k f n s. (fault, s);
  set_nx = λ k v n s. (value (s k == 0), λ j. if text_eq k j && (s k == 0) then n else s j);
  set_key = λ k v n s. (fault, s);
  get_del = λ k s. (fault, s);
  del = λ ks s. (fault, s);
  exec = λ cs s. (fault, s);
  geo_add = λ k n lat lng s. (fault, s);
  z_rem = λ k n s. (fault, s);
  geo_pos = λ k ns s. (fault, s);
  z_range = λ k s. (fault, s);
}

timer-IsTimed : IsTimed timer
timer-IsTimed = record {
  left = λ s. s;
  pass = λ n s k. s k - n;
  pass_lem = λ n s k. refl;
  set_nx_reply = λ k v n s b e. sym (value_injective (s k == 0) b e);
  set_nx_lem = λ k v n s b e j. refl;
}

-- The third marking comes 10 seconds after the first one of its pair, and the fourth 31.5 seconds.
abbrev retries : List (ℕ × Pair)
retries =
    (0, (codes "p1", codes "B"))
    ∷ (0, (codes "p1", codes "E1"))
    ∷ (10000, (codes "p1", codes "B"))
    ∷ (21500, (codes "p1", codes "B"))
    ∷ []

mark_all-first_seen_example : true ∷ true ∷ false ∷ true ∷ [] ≡ first_seen retries []
unfolding mark_all mark_packet_seen key_dedup text_eq timer-IsTimed remaining
mark_all-first_seen_example =
    mark_all-first_seen timer timer-IsTimed sid retries [] (λ k. 0)
      (true ∷ true ∷ false ∷ true ∷ [])
      ((refl, (refl, tt)), ((refl, (refl, tt)), ((refl, (refl, tt)), ((refl, (refl, tt)), tt))))
      (λ p u i. refl) refl

key_dedup_injective_example : (sid ≡ sid) × (codes "p1" ≡ codes "p1") × (codes "B" ≡ codes "B")
key_dedup_injective_example =
    key_dedup_injective sid sid (codes "p1") (codes "p1") (codes "B") (codes "B") (refl, (refl, tt))
      (refl, (refl, tt)) (refl, (refl, tt)) (refl, (refl, tt)) refl

-- With a colon in a packet id two pairs share a key: the second pair is taken for a duplicate.
colon_clash : key_dedup sid (codes "a:b") (codes "c") ≡ key_dedup sid (codes "a") (codes "b:c")
unfolding key_dedup
colon_clash = refl
