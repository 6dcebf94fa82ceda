-- ===== src/Repository/Routes.antt =====
-- repository/route_repo.go: the routing table of a session, in two hashes.
pub mod RoundTrip
use maritime_simulation.Base.{List, [], ◌∷◌, Option, none, some, if◌then◌else◌, length, ltb}
use maritime_simulation.Base.Text.{Text}
use maritime_simulation.Base.Dict.{Dict}
use maritime_simulation.Domain.Errors.{Result, ok, err, other}
use maritime_simulation.Domain.Entities.{RouteEntry}
use maritime_simulation.Repository.Redis.{
  Redis, Codec, as_result, or_not_found, Command, del_keys, hset_all,
}
use maritime_simulation.Repository.Keys.{key_routes, key_routes_full}
use maritime_simulation.Repository.State.{or_corrupt, and_then}

module _ {W : Type 0} (c : Codec W) where
  -- The two maps of `SaveTable`.
  unfoldable pub plain_hash : Dict (RouteEntry W) → Dict Text
  plain_hash [] = []
  plain_hash ((node, e) ∷ table) = (node, e.parent) ∷ plain_hash table

  abbrev pub add_full : Text → Result Text → Result (Dict Text) → Result (Dict Text)
  add_full node (err e) rest = err e
  add_full node (ok raw) (err e) = err e
  add_full node (ok raw) (ok d) = ok ((node, raw) ∷ d)

  unfoldable pub full_hash : Dict (RouteEntry W) → Result (Dict Text)
  full_hash [] = ok []
  full_hash ((node, e) ∷ table) = add_full node (or_corrupt (c.marshal_route e)) (full_hash table)

  -- What `SaveTable` queues.
  unfoldable pub table_commands : Text → Dict Text → Dict Text → List Command
  table_commands sid plain full =
      del_keys (key_routes sid ∷ key_routes_full sid ∷ [])
      ∷ (if ltb 0 (length plain)
          then hset_all (key_routes sid) plain ∷ hset_all (key_routes_full sid) full ∷ []
          else [])

  abbrev pub add_entry :
      Text → Option (RouteEntry W) → Result (Dict (RouteEntry W)) → Result (Dict (RouteEntry W))
  add_entry node none rest = err other
  add_entry node (some e) (err x) = err x
  add_entry node (some e) (ok table) = ok ((node, e) ∷ table)

  -- The loop of `GetTable`.
  unfoldable pub table_of : Dict Text → Result (Dict (RouteEntry W))
  table_of [] = ok []
  table_of ((node, raw) ∷ vals) = add_entry node (c.unmarshal_route raw) (table_of vals)

  module _ {S : Type 0} (r : Redis W S) where
    unfoldable pub exec_table :
        Text → Dict (RouteEntry W) → Result (Dict Text) → S → Result (Unit {0}) × S
    exec_table sid table (err e) s = (err e, s)
    exec_table sid table (ok full) s =
        let (a, t) = r.exec (table_commands sid (plain_hash table) full) s in (as_result a, t)

    -- SaveTable
    unfoldable pub save_table : Text → Dict (RouteEntry W) → S → Result (Unit {0}) × S
    save_table sid table s = exec_table sid table (full_hash table) s

    -- GetTable
    unfoldable pub get_table : Text → S → Result (Dict (RouteEntry W)) × S
    get_table sid s =
        let (a, t) = r.hgetall (key_routes_full sid) s in (and_then (as_result a) table_of, t)

    -- GetRoute
    unfoldable pub get_route : Text → Text → S → Result (RouteEntry W) × S
    get_route sid node s =
        let (a, t) = r.hget (key_routes_full sid) node s in
        (and_then (or_not_found a) (λ raw. or_corrupt (c.unmarshal_route raw)), t)

    -- Clear
    unfoldable pub clear_routes : Text → S → Result (Unit {0}) × S
    clear_routes sid s =
        let (a, t) = r.del (key_routes sid ∷ key_routes_full sid ∷ []) s in (as_result a, t)
