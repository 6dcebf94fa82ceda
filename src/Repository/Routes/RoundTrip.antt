-- ===== src/Repository/Routes/RoundTrip.antt =====
-- A routing table, written and read.
use Prim.Native.Nat.{suc}
use mathlib.Core.Option.{some-injective}
use maritime_simulation.Base.{
  ℕ, ltb, length, ◌≡◌, refl, sym, ◌∙◌, subst, Bool, true, false, [], ◌∷◌, Option, none, some, ◌⊎◌,
  inl, inr, arith, if◌then◌else◌,
}
use maritime_simulation.Base.Text.{Text, text_eq, text_eq_refl}
use maritime_simulation.Base.Dict.{Dict, lookup}
use maritime_simulation.Domain.Errors.{Result, ok, err, not_found, ok_injective}
use maritime_simulation.Domain.Entities.{RouteEntry}
use maritime_simulation.Repository.Redis.{
  Redis, Codec, IsRedis, IsCodec, Reply, value, missing, fault, or_not_found, apply_command,
  apply_all, hset_all, del_keys, over, Hashes, has_key,
}
use maritime_simulation.Repository.Keys.{key_routes, key_routes_full, key_routes_differ}
use maritime_simulation.Repository.State.{and_then, or_corrupt}
use maritime_simulation.Repository.State.Params.{as_result-value}
use maritime_simulation.Repository.Routes.{
  plain_hash, full_hash, add_full, table_commands, save_table, exec_table, get_route,
}

-- What a reader finds for an entry of the table.
abbrev pub found : {W : Type 0} → Option (RouteEntry W) → Result (RouteEntry W)
found none = err not_found
found (some e) = ok e

zero_lt : (n : ℕ) → ltb 0 (suc n) ≡ true
zero_lt n = ground arith

module _ {W : Type 0} (c : Codec W) where
  -- The entry and its JSON, or neither.
  abbrev Linked : Option (RouteEntry W) → Option Text → Type 0
  Linked none o = o ≡ none
  Linked (some e) o = (raw : Text) × (o ≡ some raw) × (c.marshal_route e ≡ some raw)

  link-cons :
      (b : Bool) (e : RouteEntry W) (raw : Text) (x : Option (RouteEntry W)) (o : Option Text)
      → c.marshal_route e ≡ some raw
      → Linked x o
      → Linked (if b then some e else x) (if b then some raw else o)
  link-cons true e raw x o m l = (raw, refl, m)
  link-cons false e raw x o m l = l

  add_full-Linked :
      (n node : Text) (e : RouteEntry W) (table : Dict (RouteEntry W)) (m : Option Text)
      (rest : Result (Dict Text)) (full : Dict Text)
      → c.marshal_route e ≡ m
      → ((d : Dict Text) → rest ≡ ok d → Linked (lookup n table) (lookup n d))
      → add_full c node (or_corrupt m) rest ≡ ok full
      → Linked (if text_eq node n then some e else lookup n table) (lookup n full)
  unfolding lookup
  add_full-Linked n node e table none rest full m ih h = cc
  add_full-Linked n node e table (some raw) (err x) full m ih h = cc
  add_full-Linked n node e table (some raw) (ok d) full m ih h =
      subst (λ f. Linked (if text_eq node n then some e else lookup n table) (lookup n f))
        (ok_injective ((node, raw) ∷ d) full h)
        (link-cons (text_eq node n) e raw (lookup n table) (lookup n d) m (ih d refl))

  full_hash-Linked :
      (n : Text) (table : Dict (RouteEntry W)) (full : Dict Text)
      → full_hash c table ≡ ok full
      → Linked (lookup n table) (lookup n full)
  unfolding full_hash lookup
  full_hash-Linked n [] full h = ground arith
  full_hash-Linked n ((node, e) ∷ table) full h =
      add_full-Linked n node e table (c.marshal_route e) (full_hash c table) full refl
        (full_hash-Linked n table) h

  over-none : (o : Option Text) → o ≡ none → (a : Option Text) → over a o ≡ a
  over-none o e none = e
  over-none o e (some v) = refl

  has_key-full :
      (sid : Text)
      → has_key (key_routes_full sid) (key_routes sid ∷ key_routes_full sid ∷ []) ≡ true
  unfolding has_key
  has_key-full sid = rw (key_routes_differ sid, text_eq_refl (key_routes_full sid)) refl

  cleared :
      (sid node : Text) (h : Hashes)
      → apply_command
          (del_keys (key_routes sid ∷ key_routes_full sid ∷ []))
          h
          (key_routes_full sid)
          node
        ≡ none
  unfolding apply_command
  cleared sid node h = rw (has_key-full sid) refl

  not_plain :
      (sid node : Text) (plain : Dict Text) (h : Hashes)
      → apply_command (hset_all (key_routes sid) plain) h (key_routes_full sid) node
        ≡ h (key_routes_full sid) node
  unfolding apply_command
  not_plain sid node plain h = rw (key_routes_differ sid) refl

  stored_full :
      (sid node : Text) (full : Dict Text) (h : Hashes)
      → h (key_routes_full sid) node ≡ none
      → apply_command (hset_all (key_routes_full sid) full) h (key_routes_full sid) node
        ≡ lookup node full
  unfolding apply_command
  stored_full sid node full h e =
      rw (text_eq_refl (key_routes_full sid)) (over-none _ e (lookup node full))

  -- What the queued commands leave in the hash of the entries.
  table_commands-hash :
      (sid node : Text) (table : Dict (RouteEntry W)) (full : Dict Text) (h : Hashes)
      → full_hash c table ≡ ok full
      → apply_all (table_commands c sid (plain_hash c table) full) h (key_routes_full sid) node
        ≡ lookup node full
  unfolding table_commands plain_hash full_hash apply_all lookup
  table_commands-hash sid node [] full h e =
      cleared sid node h ∙ subst (λ f. none ≡ lookup node f) (ok_injective [] full e) refl
  table_commands-hash sid node ((n, x) ∷ table) full h e =
      let cmd = del_keys (key_routes sid ∷ key_routes_full sid ∷ []) in
      let plain = (n, x.parent) ∷ plain_hash c table in
      let g1 = apply_command cmd h in
      let g2 = apply_command (hset_all (key_routes sid) plain) g1 in
      rw (zero_lt (length (plain_hash c table)))
        (stored_full sid node full g2 (not_plain sid node plain g1 ∙ cleared sid node h))

  read_reply :
      (i : IsCodec c) (a : Reply Text) (x : Option (RouteEntry W)) (o : Option Text)
      → Linked x o
      → ((v : Text) → a ≡ value v → o ≡ some v)
      → (a ≡ missing → o ≡ none)
      → (and_then (or_not_found a) (λ raw. or_corrupt (c.unmarshal_route raw)) ≡ found x)
        ⊎ (a ≡ fault)
  read_reply i (value v) none o l f g = let e = f v refl in cc
  read_reply i (value v) (some e) o (raw, p, m) f g =
      let same : v ≡ raw = some-injective v raw (sym (f v refl) ∙ p) in
      inl (rw (i.route_read e v (subst (λ q. c.marshal_route e ≡ some q) (sym same) m)) refl)
  read_reply i missing none o l f g = inl refl
  read_reply i missing (some e) o (raw, p, m) f g = let h = g refl in cc
  read_reply i fault x o l f g = inr refl

  module _ {S : Type 0} (r : Redis W S) (q : IsRedis r) (i : IsCodec c) where
    read_route :
        (sid node : Text) (table : Dict (RouteEntry W)) (full : Dict Text) (t : S) (a : Reply Text)
        → (r.hget (key_routes_full sid) node t).0 ≡ a
        → q.hash t (key_routes_full sid) node ≡ lookup node full
        → Linked (lookup node table) (lookup node full)
        → (and_then (or_not_found a) (λ raw. or_corrupt (c.unmarshal_route raw))
            ≡ found (lookup node table))
          ⊎ (a ≡ fault)
    read_route sid node table full t a e h l =
        read_reply i a (lookup node table) (lookup node full) l
          (λ v f. sym h ∙ q.hget_lem (key_routes_full sid) node t v (e ∙ f))
          (λ f. sym h ∙ q.hget_missing (key_routes_full sid) node t (e ∙ f))

    saved :
        (sid : Text) (table : Dict (RouteEntry W)) (f : Result (Dict Text)) (s : S)
        → full_hash c table ≡ f
        → (exec_table c r sid table f s).0 ≡ ok tt
        → (node : Text)
        → let t : S = (exec_table c r sid table f s).1 in
          ((get_route c r sid node t).0 ≡ found (lookup node table))
          ⊎ ((r.hget (key_routes_full sid) node t).0 ≡ fault)
    unfolding exec_table get_route
    saved sid table (err e) s m h node = cc
    saved sid table (ok full) s m h node =
        let cs = table_commands c sid (plain_hash c table) full in
        let k = key_routes_full sid in
        read_route sid node table full _ _ refl
          (q.exec_lem cs s (as_result-value (r.exec cs s).0 tt h) k node
            ∙ table_commands-hash sid node table full (q.hash s) m)
          (full_hash-Linked node table full m)

    -- After a `SaveTable` that succeeds, `GetRoute` returns for every ship its entry in the table,
    -- or not found where it has none, unless Redis fails: no entry of an older table is left.
    pub table_round_trip :
        (sid : Text) (table : Dict (RouteEntry W)) (s : S) (node : Text)
        → (save_table c r sid table s).0 ≡ ok tt
        → ((get_route c r sid node (save_table c r sid table s).1).0 ≡ found (lookup node table))
          ⊎ ((r.hget (key_routes_full sid) node (save_table c r sid table s).1).0 ≡ fault)
    unfolding save_table
    table_round_trip sid table s node h = saved sid table (full_hash c table) s refl h node
