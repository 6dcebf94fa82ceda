-- ===== src/Repository/Redis.antt =====
-- What the repositories call of the Redis client, of `strconv` and of `encoding/json`, as
-- interfaces over any type of server states, with the documented behaviour that proofs rely on.
use maritime_simulation.Base.{
  ℕ, Bool, List, [], ◌∷◌, Option, none, some, if◌then◌else◌, ◌≡◌, ◌||◌, ◌&&◌, ◌==◌, ◌-◌, false,
}
use maritime_simulation.Base.Int.{ℤ}
use maritime_simulation.Base.Text.{Text, text_eq}
use maritime_simulation.Base.Dict.{Dict, lookup}
use maritime_simulation.Domain.Errors.{Result, ok, err, other, not_found}
use maritime_simulation.Domain.Entities.{RouteEntry}

-- The reply to a command: a value, `redis.Nil`, or another error.
pub data Reply (A : Type 0) : Type 0 where
  value : A → Reply A
  missing fault : Reply A

-- The commands that a transaction queues.
pub data Command : Type 0 where
  del_keys : List Text → Command
  hset_all : Text → Dict Text → Command

-- Lifetimes are milliseconds. `exec` is the end of a `TxPipeline`.
pub record Redis (W S : Type 0) : Type 0 where
  pub hset : Text → Dict Text → S → Reply (Unit {0}) × S
  pub hgetall : Text → S → Reply (Dict Text) × S
  pub hget : Text → Text → S → Reply Text × S
  pub hincrby : Text → Text → ℕ → S → Reply (Unit {0}) × S
  pub set_nx : Text → Text → ℕ → S → Reply Bool × S
  pub set_key : Text → Text → ℕ → S → Reply (Unit {0}) × S
  pub get_del : Text → S → Reply Text × S
  pub del : List Text → S → Reply (Unit {0}) × S
  pub exec : List Command → S → Reply (Unit {0}) × S
  pub geo_add : Text → Text → W → W → S → Reply (Unit {0}) × S
  pub z_rem : Text → Text → S → Reply (Unit {0}) × S
  pub geo_pos : Text → List Text → S → Reply (List (Option (W × W))) × S
  pub z_range : Text → S → Reply (List Text) × S

-- How the client writes an int and a float, strconv.Atoi, strconv.ParseInt and strconv.ParseFloat,
-- and the JSON of a route entry; none for an error.
pub record Codec (W : Type 0) : Type 0 where
  pub format_int : ℤ → Text
  pub format_float : W → Text
  pub parse_int : Text → Option ℤ
  pub parse_float : Text → Option W
  pub marshal_route : RouteEntry W → Option Text
  pub unmarshal_route : Text → Option (RouteEntry W)

-- What is written is read back.
pub record IsCodec {W : Type 0} (c : Codec W) : Type 0 where
  pub int_read : (n : ℤ) → c.parse_int (c.format_int n) ≡ some n
  pub float_read : (x : W) → c.parse_float (c.format_float x) ≡ some x
  pub route_read :
      (e : RouteEntry W) (t : Text) → c.marshal_route e ≡ some t → c.unmarshal_route t ≡ some e

-- The fields of all hashes.
abbrev pub Hashes : Type 0
Hashes = Text → Text → Option Text

unfoldable pub has_key : Text → List Text → Bool
has_key k [] = false
has_key k (j ∷ js) = text_eq j k || has_key k js

abbrev pub over : Option Text → Option Text → Option Text
over (some v) old = some v
over none old = old

-- What a command of a transaction makes of the hashes.
unfoldable pub apply_command : Command → Hashes → Hashes
apply_command (del_keys ks) h j f = if has_key j ks then none else h j f
apply_command (hset_all k d) h j f = if text_eq k j then over (lookup f d) (h j f) else h j f

unfoldable pub apply_all : List Command → Hashes → Hashes
apply_all [] h = h
apply_all (c ∷ cs) h = apply_all cs (apply_command c h)

-- The commands of Redis on hashes, which do not expire: `hash` is what a server state holds. A
-- command that fails is not described.
pub record IsRedis {W S : Type 0} (r : Redis W S) : Type 0 where
  pub hash : S → Hashes
  pub hset_lem :
      (k : Text) (d : Dict Text) (s : S)
      → (r.hset k d s).0 ≡ value tt
      → (j f : Text) → hash (r.hset k d s).1 j f ≡ apply_command (hset_all k d) (hash s) j f
  pub hgetall_lem :
      (k : Text) (s : S) (d : Dict Text)
      → (r.hgetall k s).0 ≡ value d
      → (f : Text) → lookup f d ≡ hash s k f
  pub hget_lem : (k f : Text) (s : S) (v : Text) → (r.hget k f s).0 ≡ value v → hash s k f ≡ some v
  pub hget_missing : (k f : Text) (s : S) → (r.hget k f s).0 ≡ missing → hash s k f ≡ none
  pub del_lem :
      (ks : List Text) (s : S)
      → (r.del ks s).0 ≡ value tt
      → (j f : Text) → hash (r.del ks s).1 j f ≡ apply_command (del_keys ks) (hash s) j f
  pub exec_lem :
      (cs : List Command) (s : S)
      → (r.exec cs s).0 ≡ value tt
      → (j f : Text) → hash (r.exec cs s).1 j f ≡ apply_all cs (hash s) j f

-- The keys with a lifetime, as `SET NX` makes them: `left` is the lifetime that a key has left, or 0
-- where there is none, and `pass` is the passage of a number of milliseconds.
pub record IsTimed {W S : Type 0} (r : Redis W S) : Type 0 where
  pub left : S → Text → ℕ
  pub pass : ℕ → S → S
  pub pass_lem : (n : ℕ) (s : S) (k : Text) → left (pass n s) k ≡ left s k - n
  pub set_nx_reply :
      (k v : Text) (n : ℕ) (s : S) (b : Bool) → (r.set_nx k v n s).0 ≡ value b → b ≡ (left s k == 0)
  pub set_nx_lem :
      (k v : Text) (n : ℕ) (s : S) (b : Bool)
      → (r.set_nx k v n s).0 ≡ value b
      → (j : Text)
      → left (r.set_nx k v n s).1 j ≡ (if text_eq k j && (left s k == 0) then n else left s j)

-- An error of the client wraps no sentinel.
abbrev pub as_result : {A : Type 0} → Reply A → Result A
as_result (value a) = ok a
as_result missing = err other
as_result fault = err other

-- The same, where `redis.Nil` is told apart.
abbrev pub or_not_found : {A : Type 0} → Reply A → Result A
or_not_found (value a) = ok a
or_not_found missing = err not_found
or_not_found fault = err other
