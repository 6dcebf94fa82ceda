-- ===== src/Domain/Mesh/Layering.antt =====
-- The invariant of the loops of BuildTopology in domain/mesh.go: what justifies an entry.
use maritime_simulation.Base.{
  ℕ, suc, ◌≤◌, ◌<◌, ◌≡◌, subst, ◌↔◌, ◌⊎◌, inl, inr, Bool, true, false, List, [], ◌∷◌, ◌++◌, Option,
  none, some, arith, if◌then◌else◌, Bool-cases, All, Any, Any-append, append-Any,
}
use maritime_simulation.Base.Text.{Text, text_eq, text_eq_iff, text_eq→eq}
use maritime_simulation.Base.Dict.{Dict, lookup, insert, lookup-insert}
use maritime_simulation.Floats.{Float}
use maritime_simulation.Domain.Entities.{NodePosition, Edge, RouteEntry, routed}
use maritime_simulation.Domain.Geo.{haversine_km}
use maritime_simulation.Domain.Mesh.{Best, Layers, position_of}
use maritime_simulation.Domain.Mesh.Scan.{IsHit, Beaten}

-- The hop level that a table gives a node.
abbrev pub level_of : {W : Type 0} → Text → Dict (RouteEntry W) → Option ℕ
level_of id routes = elim (lookup id routes) [ none ↦ none | some r ↦ some r.hop_level ]

pub level_of-insert :
    {W : Type 0} (k j : Text) (r : RouteEntry W) (d : Dict (RouteEntry W))
    → level_of j (insert k r d) ≡ (if text_eq k j then some r.hop_level else level_of j d)
level_of-insert k j r d = ground (arith, lookup-insert k j r d)

pub level_of-lookup :
    {W : Type 0} (id : Text) (d : Dict (RouteEntry W)) (r : RouteEntry W)
    → lookup id d ≡ some r
    → level_of id d ≡ some r.hop_level
level_of-lookup id d r h = ground arith

-- The two tables agree on the nodes of the levels from 1 up to `bound`, which is not included.
abbrev pub SameLevels : {W : Type 0} → ℕ → Dict (RouteEntry W) → Dict (RouteEntry W) → Type 0
SameLevels bound d d' =
    (id : Text) (k : ℕ) → 1 ≤ k → k < bound → (level_of id d ≡ some k) ↔ (level_of id d' ≡ some k)

pub insert-SameLevels :
    {W : Type 0} (bound : ℕ) (k : Text) (r : RouteEntry W) (d : Dict (RouteEntry W))
    → (r.hop_level ≡ 0) ⊎ (bound ≤ r.hop_level)
    → (level_of k d ≡ none) ⊎ (level_of k d ≡ some r.hop_level)
    → SameLevels bound d (insert k r d)
insert-SameLevels bound k r d e old id m low high = elim (Bool-cases (text_eq k id)) [
  | inl hit ↦
      let same = text_eq→eq k id hit in
      rw (level_of-insert k id r d, hit)
        (subst (λ j. (level_of j d ≡ some m) ↔ (some r.hop_level ≡ some m)) same
          (ground arith, ground arith))
  | inr miss ↦ rw (level_of-insert k id r d, miss) (λ h. h, λ h. h)
]

module _ {W : Type 0} ⦃fl : Float W⦄ (max_range_km : W) where
  open fl use {lt}

  abbrev pub as_best : RouteEntry W → Best W
  as_best r = record { dist = r.distance_km; name = r.parent; found = true }

  module _ (positions : Dict (NodePosition W)) (nodes : List (NodePosition W))
      (edges : List (Edge W)) where
    -- Why `r` stands in the table. A level 1 entry has an edge in range for its parent, at the
    -- distance that the entry states, and no edge is nearer. An entry of level k + 1 has a node
    -- of level k in range for its parent, and no node of that level is nearer.
    pub data Justified (routes : Dict (RouteEntry W)) (r : RouteEntry W) : Type 0 where
      by_edge :
          (n : NodePosition W)
          → Any (λ m. m ≡ n) nodes
          → n.id ≡ r.node_id
          → r.status ≡ routed
          → r.parent_is_edge ≡ true
          → r.hop_level ≡ 1
          → Any
              (λ e.
                IsHit max_range_km e.edge_code
                  (haversine_km n.lat n.lng e.latitude e.longitude)
                  (as_best r))
              edges
          → All
              (λ e.
                Beaten max_range_km e.edge_code
                  (haversine_km n.lat n.lng e.latitude e.longitude)
                  (as_best r))
              edges
          → Justified routes r
      by_node :
          (n : NodePosition W) (k : ℕ)
          → Any (λ m. m ≡ n) nodes
          → n.id ≡ r.node_id
          → r.status ≡ routed
          → r.parent_is_edge ≡ false
          → r.hop_level ≡ suc k
          → 1 ≤ k
          → level_of r.parent routes ≡ some k
          → r.distance_km
            ≡ haversine_km n.lat n.lng
                (position_of r.parent positions).lat
                (position_of r.parent positions).lng
          → lt max_range_km r.distance_km ≡ false
          → ((pid : Text)
              → level_of pid routes ≡ some k
              → Beaten max_range_km pid
                  (haversine_km n.lat n.lng
                    (position_of pid positions).lat
                    (position_of pid positions).lng)
                  (as_best r))
          → Justified routes r

    pub Justified-mono :
        (bound : ℕ) (d d' : Dict (RouteEntry W)) (r : RouteEntry W)
        → SameLevels bound d d'
        → r.hop_level ≤ bound
        → Justified d r
        → Justified d' r
    Justified-mono bound d d' r same low (by_edge n m i s p h x a) = by_edge n m i s p h x a
    Justified-mono bound d d' r same low (by_node n k m i s p h pos l x g near) =
        by_node n k m i s p h pos ((same r.parent k pos (omega arith)).0 l) x g
          (λ pid q. near pid ((same pid k pos (omega arith)).1 q))

    pub Justified-pos :
        (d : Dict (RouteEntry W)) (r : RouteEntry W) → Justified d r → 1 ≤ r.hop_level
    Justified-pos d r (by_edge n m i s p h x a) = omega arith
    Justified-pos d r (by_node n k m i s p h pos l x g near) = omega arith

    -- Every entry stands under its own name, is justified, and lies at most at `level`; the
    -- nodes of that level are those of `layer`.
    pub record Layered (level : ℕ) (routes : Dict (RouteEntry W)) (layer : List Text) : Type 0 where
      pub entries :
          (id : Text) (r : RouteEntry W)
          → lookup id routes ≡ some r
          → (r.node_id ≡ id) × (r.hop_level ≤ level) × Justified routes r
      pub layer_level : (id : Text) → Any (λ j. j ≡ id) layer → level_of id routes ≡ some level
      pub level_layer : (id : Text) → level_of id routes ≡ some level → Any (λ j. j ≡ id) layer

    pub empty-Layered : Layered 1 [] []
    unfolding lookup
    empty-Layered = record {
      entries = λ id r h. cc;
      layer_level = λ id h. absurd h;
      level_layer = λ id h. cc;
    }

    -- A new entry of the current level keeps the table layered.
    pub insert-Layered :
        (level : ℕ) (routes : Dict (RouteEntry W)) (layer : List Text) (r : RouteEntry W)
        → Layered level routes layer
        → r.hop_level ≡ level
        → (level_of r.node_id routes ≡ none) ⊎ (level_of r.node_id routes ≡ some level)
        → Justified routes r
        → Layered level (insert r.node_id r routes) (layer ++ (r.node_id ∷ []))
    insert-Layered level routes layer r v e old j = record {
      entries = λ id r' h. elim (Bool-cases (text_eq r.node_id id)) [
        | inl hit ↦
            let same : r ≡ r' = ground (arith, lookup-insert r.node_id id r routes) in
            subst (λ t. (t.node_id ≡ id) × (t.hop_level ≤ level) × Justified routes' t) same
              (text_eq→eq _ _ hit, omega arith, keep r (omega arith) j)
        | inr miss ↦
            let (n, l, q) = v.entries id r' (ground (arith, lookup-insert r.node_id id r routes)) in
            (n, l, keep r' l q)
      ];
      layer_level = λ id h. elim (Any-append (λ x. x ≡ id) layer (r.node_id ∷ []) h) [
        | inl l ↦ ground (arith, level_of-insert r.node_id id r routes, v.layer_level id l)
        | inr (inl p) ↦
            ground (arith, level_of-insert r.node_id id r routes, text_eq_iff r.node_id id)
        | inr (inr q) ↦ absurd q
      ];
      level_layer = λ id h.
          append-Any (λ x. x ≡ id) layer (r.node_id ∷ [])
            (elim (Bool-cases (text_eq r.node_id id)) [
              | inl hit ↦ inr (inl (text_eq→eq _ _ hit))
              | inr miss ↦
                  inl (v.level_layer id (ground (arith, level_of-insert r.node_id id r routes)))
            ]);
    }
      where
        routes' : Dict (RouteEntry W)
        routes' = insert r.node_id r routes

        keep : (t : RouteEntry W) → t.hop_level ≤ level → Justified routes t → Justified routes' t
        keep t =
            Justified-mono level routes routes' t
              (insert-SameLevels level r.node_id r routes (inr (omega arith)) (ground (arith, old)))

    -- What holds between two rounds: the table is layered, and the unrouted nodes have no entry.
    pub record IsSettled (level : ℕ) (s : Layers W) : Type 0 where
      pub layered : Layered level s.routes s.layer
      pub fresh : (id : Text) (b : Bool) → lookup id s.unrouted ≡ some b → lookup id s.routes ≡ none
