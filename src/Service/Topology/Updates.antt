-- ===== src/Service/Topology/Updates.antt =====
-- Whom a recomputation tells what.
use maritime_simulation.Base.{
  ℕ, ◌+◌, ◌≡◌, ◌⊎◌, inl, inr, true, false, ◌↔◌, ◌&&◌, Bool, Option, some, none, not, ◌||◌, List, [],
  ◌∷◌, arith, refl, ap, ◌∙◌, length, ltb, ◌==◌, if◌then◌else◌, Bool-cases,
}
use maritime_simulation.Base.Text.{Text, text_eq, text_eq_iff}
use maritime_simulation.Base.Dict.{Dict, lookup}
use maritime_simulation.Floats.{Float}
use maritime_simulation.Domain.Errors.{failed, Result, ok, err}
use maritime_simulation.Domain.Entities.{RouteEntry, RouteStatus, routed, isolated}
use maritime_simulation.Protocol.{routing_update, routing_table}
use maritime_simulation.Service.Ports.{Ports, Sim, Effect, saved_table, sent, sent_to_monitors}
use maritime_simulation.Service.Topology.{
  announce, publish, spread, replace, replace_table, route_unchanged, same_status,
  distance_jitter_km, update_of, table_routes,
}

same_status_iff : (a b : RouteStatus) → same_status a b ≡ true ↔ (a ≡ b)
same_status_iff routed routed = (λ _. refl, λ _. refl)
same_status_iff isolated isolated = (λ _. refl, λ _. refl)
same_status_iff routed isolated = (λ h. cc, λ h. cc)
same_status_iff isolated routed = (λ h. cc, λ h. cc)

conjuncts :
    (a b c d : Bool) → (a && b && c && d) ≡ true → (a ≡ true) × (b ≡ true) × (c ≡ true) × (d ≡ true)
conjuncts true true true true h = (refl, refl, refl, refl)
conjuncts a b c d h = ground arith

level_eq : (m n : ℕ) → (m == n) ≡ true ↔ (m ≡ n)
level_eq m n = (λ h. ground arith, λ h. ground arith)

module _ {W : Type 0} ⦃fl : Float W⦄ where
  open fl use {lit, sub, abs, le}

  -- The ship had an entry with this parent, this status and this level, at a distance that
  -- differs by at most 0.05 km.
  abbrev pub IsUnchanged : Dict (RouteEntry W) → Text → RouteEntry W → Type 0
  IsUnchanged old node entry =
      (prev : RouteEntry W) × (lookup node old ≡ some prev)
      × (prev.parent ≡ entry.parent)
      × (prev.status ≡ entry.status)
      × (prev.hop_level ≡ entry.hop_level)
      × (le (abs (sub prev.distance_km entry.distance_km)) (lit 5 2) ≡ true)

  -- The second list has the entries of the first that are not unchanged, in their order.
  pub data Changes (old : Dict (RouteEntry W))
      : Dict (RouteEntry W) → Dict (RouteEntry W) → Type 0 where
    end : Changes old [] []
    same :
        {node : Text} {entry : RouteEntry W} {table ch : Dict (RouteEntry W)}
        → IsUnchanged old node entry
        → Changes old table ch
        → Changes old ((node, entry) ∷ table) ch
    other :
        {node : Text} {entry : RouteEntry W} {table ch : Dict (RouteEntry W)}
        → ¬ IsUnchanged old node entry
        → Changes old table ch
        → Changes old ((node, entry) ∷ table) ((node, entry) ∷ ch)

  found-IsUnchanged :
      (o : Option (RouteEntry W)) (old : Dict (RouteEntry W)) (node : Text) (entry : RouteEntry W)
      → lookup node old ≡ o
      → (elim o [
        | none ↦ false
        | some prev ↦
            text_eq prev.parent entry.parent
            && same_status prev.status entry.status
            && prev.hop_level == entry.hop_level
            && le (abs (sub prev.distance_km entry.distance_km)) distance_jitter_km
      ])
        ≡ true
      → IsUnchanged old node entry
  found-IsUnchanged none old node entry e h = cc
  found-IsUnchanged (some prev) old node entry e h =
      let (a, b, c, d) = conjuncts _ _ _ _ h in
      (
        prev,
        e,
        (text_eq_iff prev.parent entry.parent).0 a,
        (same_status_iff prev.status entry.status).0 b,
        (level_eq prev.hop_level entry.hop_level).0 c,
        d,
      )

  route_unchanged-IsUnchanged :
      (old : Dict (RouteEntry W)) (node : Text) (entry : RouteEntry W)
      → route_unchanged old node entry ≡ true
      → IsUnchanged old node entry
  unfolding route_unchanged
  route_unchanged-IsUnchanged old node entry h =
      found-IsUnchanged (lookup node old) old node entry refl h

  IsUnchanged-route_unchanged :
      (old : Dict (RouteEntry W)) (node : Text) (entry : RouteEntry W)
      → IsUnchanged old node entry
      → route_unchanged old node entry ≡ true
  unfolding route_unchanged
  IsUnchanged-route_unchanged old node entry (prev, e, a, b, c, d) =
      rw
        (
          e,
          route_unchanged,
          (text_eq_iff prev.parent entry.parent).1 a,
          (same_status_iff prev.status entry.status).1 b,
          (level_eq prev.hop_level entry.hop_level).1 c,
          d,
        )
        refl

  -- The ships of the entries are told, in their order, on top of what is recorded.
  unfoldable pub told : Text → Dict (RouteEntry W) → List (Effect W) → List (Effect W)
  told sid [] t = t
  told sid ((node, entry) ∷ rest) t =
      told sid rest (sent sid node (routing_update (update_of entry)) ∷ t)

  -- The monitors get the whole table if any entry changed or the number of ships did.
  abbrev pub shown :
      Text
      → Dict (RouteEntry W)
      → Dict (RouteEntry W)
      → Dict (RouteEntry W)
      → List (Effect W)
      → List (Effect W)
  shown sid old table ch t =
      if ltb 0 (length ch) || not (length table == length old)
      then sent_to_monitors sid (routing_table (table_routes table)) ∷ t
      else t

module _ {W S : Type 0} ⦃fl : Float W⦄ (p : Ports W S) where
  -- The loop counts and tells the changed entries.
  abbrev Announced :
      Text → Dict (RouteEntry W) → Dict (RouteEntry W) → ℕ → List (Effect W) → ℕ × Sim W S → Type 0
  Announced sid old table n t x =
      (ch : Dict (RouteEntry W)) × Changes old table ch
      × (x.0 ≡ n + length ch)
      × (x.1.trace ≡ told sid ch t)

  announce-told :
      (sid : Text) (old table : Dict (RouteEntry W)) (n : ℕ) (s : Sim W S)
      → Announced sid old table n s.trace (announce p sid old table n s)
  unfolding announce told
  announce-told sid old [] n s = ([], end, omega arith, refl)
  announce-told sid old ((node, entry) ∷ rest) n s =
      elim (Bool-cases (route_unchanged old node entry)) [
        | inl kept ↦
            let (ch, c, a, b) = announce-told sid old rest n s in
            rw kept (ch, same (route_unchanged-IsUnchanged old node entry kept) c, a, b)
        | inr new ↦
            let m = routing_update (update_of entry) in
            let t = record s {
              world = (p.send_to_node sid node m s.world).1;
              trace = sent sid node m ∷ s.trace;
            } in
            let (ch, c, a, b) = announce-told sid old rest (n + 1) t in
            rw new (
              (node, entry) ∷ ch,
              other (λ h. let k = IsUnchanged-route_unchanged old node entry h in cc) c,
              a ∙ omega arith,
              b,
            )
      ]

  -- The tables are known, and the new one is stored.
  abbrev pub Replaced :
      Text → Dict (RouteEntry W) → Dict (RouteEntry W) → Sim W S → Sim W S → Type 0
  Replaced sid old table s t =
      (ch : Dict (RouteEntry W)) × Changes old table ch
      × (t.trace ≡ shown sid old table ch (told sid ch (saved_table sid table ∷ s.trace)))

  publish-trace :
      (sid : Text) (old table ch : Dict (RouteEntry W)) (n : ℕ) (s : Sim W S)
      → n ≡ length ch
      → (publish p sid old table n s).1.trace ≡ shown sid old table ch s.trace
  unfolding publish
  publish-trace sid old table ch n s e = ground arith

  spread-outcome :
      (r : Result (Unit {0})) (sid : Text) (old table : Dict (RouteEntry W)) (s : Sim W S)
      → ((r ≡ ok tt) × Replaced sid old table s (spread p sid old table r s).1)
        ⊎ (failed (spread p sid old table r s).0 ≡ true)
          × ((spread p sid old table r s).1.trace ≡ s.trace)
  unfolding spread
  spread-outcome (err e) sid old table s = inr (refl, refl)
  spread-outcome (ok _) sid old table s =
      let t = record s { trace = saved_table sid table ∷ s.trace } in
      let (ch, c, a, b) = announce-told sid old table 0 t in
      let (n, u) = announce p sid old table 0 t in
      inl (
        refl,
        (ch, c, publish-trace sid old table ch n u (omega arith) ∙ ap (shown sid old table ch) b),
      )

  -- The old table was read, and the new one stored in its place.
  abbrev pub ReplacedFrom :
      Text → Dict (RouteEntry W) → Result (Dict (RouteEntry W)) → Sim W S → Sim W S → Type 0
  ReplacedFrom sid table r s t =
      (old : Dict (RouteEntry W)) × (r ≡ ok old)
      × ((p.save_table sid table s.world).0 ≡ ok tt)
      × Replaced sid old table s t

  replace-outcome :
      (r : Result (Dict (RouteEntry W))) (sid : Text) (table : Dict (RouteEntry W)) (s : Sim W S)
      → ReplacedFrom sid table r s (replace p sid table r s).1
        ⊎ (failed (replace p sid table r s).0 ≡ true)
          × ((replace p sid table r s).1.trace ≡ s.trace)
  unfolding replace
  replace-outcome (err e) sid table s = inr (refl, refl)
  replace-outcome (ok old) sid table s =
      let r = p.save_table sid table s.world in
      elim (spread-outcome r.0 sid old table (record s { world = r.1 })) [
        | inl (e, h) ↦ inl (old, refl, e, h)
        | inr h ↦ inr h
      ]

  -- From a new table on, a recomputation either fails and then records nothing, or it replaces the
  -- stored table, then tells each ship that had no entry, or one with another parent, status or
  -- level, or whose distance moved by more than 0.05 km, in the table's order and no other ship,
  -- and then sends the monitors the whole table if and only if some ship was told or the number of
  -- ships is not what it was.
  pub replace_table-outcome :
      (sid : Text) (table : Dict (RouteEntry W)) (s : Sim W S)
      → (let r = p.get_table sid s.world in
          ReplacedFrom sid table r.0 (record s { world = r.1 }) (replace_table p sid table s).1)
        ⊎ (failed (replace_table p sid table s).0 ≡ true)
          × ((replace_table p sid table s).1.trace ≡ s.trace)
  unfolding replace_table
  replace_table-outcome sid table s =
      let r = p.get_table sid s.world in replace-outcome r.0 sid table (record s { world = r.1 })
