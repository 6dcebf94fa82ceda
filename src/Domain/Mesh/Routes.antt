-- ===== src/Domain/Mesh/Routes.antt =====
-- The finished routing table of domain/mesh.go: its entries, and the paths along the parents.
use maritime_simulation.Base.{
  ℕ, zero, suc, ◌≤◌, ◌≡◌, refl, sym, subst, ◌⊎◌, inl, inr, Bool, true, false, List, [], ◌∷◌, Option,
  none, some, arith, Bool-cases, Option-cases, All, Any, All-map, Any-map,
}
use maritime_simulation.Base.Text.{Text, text_lt, text_eq, text_eq→eq}
use maritime_simulation.Base.Dict.{Dict, lookup, insert, lookup-insert, lookup-keys}
use maritime_simulation.Floats.{Float, IsIeee}
use maritime_simulation.Domain.Entities.{NodePosition, Edge, RouteEntry}
use maritime_simulation.Domain.Mesh.{
  Layers, insert_sorted, sort_by_id, index_positions, build_layers, build_topology, isolate,
  isolated_entry,
}
use maritime_simulation.Domain.Mesh.Layering.{
  level_of, level_of-insert, SameLevels, insert-SameLevels, Justified, by_edge, by_node,
  Justified-mono, empty-Layered, IsSettled,
}
use maritime_simulation.Domain.Mesh.Loops.{first_level-IsSettled, later_levels-IsSettled}

module _ {W : Type 0} where
  insert_sorted-Any :
      (P : NodePosition W → Type 0) (n : NodePosition W) (ns : List (NodePosition W))
      → Any P (insert_sorted n ns)
      → P n ⊎ Any P ns
  unfolding insert_sorted
  insert_sorted-Any P n [] h = h
  insert_sorted-Any P n (m ∷ ns) h = elim (Bool-cases (text_lt m.id n.id)) [
    | inr stop ↦ (rw stop at h)
    | inl later ↦
        let k : P m ⊎ Any P (insert_sorted n ns) = (rw later at h) in
        elim k [
          | inl p ↦ inr (inl p)
          | inr q ↦ elim (insert_sorted-Any P n ns q) [ inl p ↦ inl p | inr r ↦ inr (inr r) ]
        ]
  ]

  -- Sorting brings in no node.
  pub sort_by_id-Any :
      (P : NodePosition W → Type 0) (ns : List (NodePosition W)) → Any P (sort_by_id ns) → Any P ns
  unfolding sort_by_id
  sort_by_id-Any P [] h = h
  sort_by_id-Any P (n ∷ ns) h = elim (insert_sorted-Any P n (sort_by_id ns) h) [
    | inl p ↦ inl p
    | inr q ↦ inr (sort_by_id-Any P ns q)
  ]

  self_in : (ns : List (NodePosition W)) → All (λ n. Any (λ m. m ≡ n) ns) ns
  self_in [] = tt
  self_in (n ∷ ns) = (inl refl, All-map (λ x. Any (λ m. m ≡ x) ns) _ (λ x h. inr h) ns (self_in ns))

-- The first edge on the way from a node along its parents, looked for in at most `fuel` steps.
pub follow : {W : Type 0} → ℕ → Dict (RouteEntry W) → Text → Option Text
follow zero table id = none
follow (suc fuel) table id = elim (lookup id table) [
  | none ↦ none
  | some r ↦ elim r.parent_is_edge [ true ↦ some r.parent | false ↦ follow fuel table r.parent ]
]

module _ {W : Type 0} ⦃fl : Float W⦄ (max_range_km : W) where
  open fl use {lit}

  module _ (positions : Dict (NodePosition W)) (nodes : List (NodePosition W))
      (edges : List (Edge W)) where
    -- An entry of the finished table: routed, justified and within the hop limit, or isolated.
    pub data IsSound (table : Dict (RouteEntry W)) (id : Text) (r : RouteEntry W) : Type 0 where
      routed_within :
          r.node_id ≡ id
          → r.hop_level ≤ 5
          → Justified max_range_km positions nodes edges table r
          → IsSound table id r
      left_isolated : r ≡ isolated_entry id → IsSound table id r

    abbrev pub AllSound : Dict (RouteEntry W) → Type 0
    AllSound table = (id : Text) (r : RouteEntry W) → lookup id table ≡ some r → IsSound table id r

    IsSound-mono :
        (d d' : Dict (RouteEntry W)) (id : Text) (r : RouteEntry W)
        → SameLevels 6 d d'
        → IsSound d id r
        → IsSound d' id r
    IsSound-mono d d' id r same (routed_within n low j) =
        routed_within n low
          (Justified-mono max_range_km positions nodes edges 6 d d' r same (omega arith) j)
    IsSound-mono d d' id r same (left_isolated e) = left_isolated e

    -- The last loop keeps the routed entries, and isolates the rest.
    isolate-AllSound :
        (left : Dict Bool) (routes : Dict (RouteEntry W))
        → All (λ kv. (level_of (kv.0) routes ≡ none) ⊎ (level_of (kv.0) routes ≡ some 0)) left
        → AllSound routes
        → AllSound (isolate left routes)
    unfolding isolate
    isolate-AllSound [] routes old v = v
    isolate-AllSound ((k, b) ∷ left) routes (here, old) v =
        isolate-AllSound left routes'
          (All-map (λ kv. (level_of (kv.0) routes ≡ none) ⊎ (level_of (kv.0) routes ≡ some 0)) _
            (λ kv h. ground (arith, level_of-insert k kv.0 (isolated_entry k) routes)) left old)
          λ id r h. elim (Bool-cases (text_eq k id)) [
            | inl hit ↦ left_isolated (
                subst (λ j. r ≡ isolated_entry j) (text_eq→eq k id hit)
                  (ground (arith, lookup-insert k id (isolated_entry k) routes)))
            | inr miss ↦
                IsSound-mono routes routes' id r
                  (insert-SameLevels 6 k (isolated_entry k) routes (inl refl) here)
                  (v id r (ground (arith, lookup-insert k id (isolated_entry k) routes)))
          ]
      where
        routes' : Dict (RouteEntry W)
        routes' = insert k (isolated_entry k) routes

    Layered-AllSound :
        (level : ℕ) (s : Layers W)
        → level ≤ 5
        → IsSettled max_range_km positions nodes edges level s
        → AllSound (isolate s.unrouted s.routes)
    Layered-AllSound level s high v =
        isolate-AllSound s.unrouted s.routes
          (All-map (λ kv. (b : Bool) × (lookup kv.0 s.unrouted ≡ some b)) _
            (λ kv h. inl (ground (arith, v.fresh kv.0 h.0 h.1))) s.unrouted
            (lookup-keys s.unrouted))
          (λ id r h. let (n, low, j) = v.layered.entries id r h in routed_within n (omega arith) j)

    parent_cases :
        (table : Dict (RouteEntry W)) (k : ℕ) (id : Text) (r : RouteEntry W)
        → AllSound table
        → lookup id table ≡ some r
        → r.hop_level ≡ suc k
        → ((r.parent_is_edge ≡ true) × (k ≡ 0) × Any (λ e. e.edge_code ≡ r.parent) edges)
          ⊎ ((p : RouteEntry W) × (r.parent_is_edge ≡ false)
              × (lookup r.parent table ≡ some p)
              × (p.hop_level ≡ k)
              × (1 ≤ k))
    parent_cases table k id r v h l = elim (v id r h) [
      | left_isolated e ↦ absurd (ground arith)
      | routed_within _ _ (by_edge n m i s p q x a) ↦
          inl (p, omega arith, Any-map _ (λ e. e.edge_code ≡ r.parent) (λ e t. sym t.0) edges x)
      | routed_within _ _ (by_node n j m i s p q low at_parent x g near) ↦
          elim (Option-cases (lookup r.parent table)) [
            | inl e ↦ absurd (ground arith)
            | inr (t, e) ↦ inr (t, p, e, ground arith, omega arith)
          ]
    ]

    -- From a node of level k the parents lead to an edge in k steps.
    follow-AllSound :
        (table : Dict (RouteEntry W)) (k : ℕ) (id : Text) (r : RouteEntry W)
        → AllSound table
        → lookup id table ≡ some r
        → r.hop_level ≡ suc k
        → (code : Text) × (follow (suc k) table id ≡ some code)
          × Any (λ e. e.edge_code ≡ code) edges
    unfolding follow
    follow-AllSound table zero id r v h l = elim (parent_cases table zero id r v h l) [
      | inl (p, _, x) ↦ (r.parent, ground arith, x)
      | inr (t, p, e, q, low) ↦ absurd (omega arith)
    ]
    follow-AllSound table (suc k) id r v h l = elim (parent_cases table (suc k) id r v h l) [
      | inl (p, q, x) ↦ absurd (omega arith)
      | inr (t, p, e, q, low) ↦
          let (code, path, x) = follow-AllSound table k r.parent t v e q in (code, ground arith, x)
    ]

module _ {W : Type 0} ⦃fl : Float W⦄ (ieee : IsIeee W) where
  build_layers-IsSettled :
      (nodes : List (NodePosition W)) (edges : List (Edge W)) (max_range_km : W)
      → let sorted = sort_by_id nodes in
        (level : ℕ) × (level ≤ 5)
        × IsSettled max_range_km
            (index_positions sorted [])
            sorted
            edges
            level
            (build_layers sorted edges max_range_km)
  unfolding build_layers lookup
  build_layers-IsSettled nodes edges max_range_km =
      let sorted = sort_by_id nodes in
      let positions = index_positions sorted [] in
      later_levels-IsSettled ieee max_range_km positions sorted edges 4 1 _ (omega arith)
        (self_in sorted)
        (first_level-IsSettled ieee max_range_km positions sorted edges sorted _ (self_in sorted)
          (record {
            layered = empty-Layered max_range_km positions sorted edges;
            fresh = λ id b h. refl;
          }))

  build_topology-AllSound :
      (nodes : List (NodePosition W)) (edges : List (Edge W)) (max_range_km : W)
      → let sorted = sort_by_id nodes in
        AllSound max_range_km
          (index_positions sorted [])
          sorted
          edges
          (build_topology nodes edges max_range_km)
  unfolding build_topology
  build_topology-AllSound nodes edges max_range_km =
      let sorted = sort_by_id nodes in
      let (level, low, v) = build_layers-IsSettled nodes edges max_range_km in
      Layered-AllSound max_range_km (index_positions sorted []) sorted edges level _ low v

  -- Every entry of the table that `BuildTopology` returns is sound: it is routed at a hop level
  -- from 1 to 5, with an edge in range for its parent such that no edge is nearer, or with a node
  -- of the level below in range for its parent such that no node of that level is nearer, at the
  -- distance that the entry states; or it is isolated, at level 0 and without a parent.
  pub build_topology-IsSound :
      (nodes : List (NodePosition W)) (edges : List (Edge W)) (max_range_km : W) (id : Text)
      (r : RouteEntry W)
      → lookup id (build_topology nodes edges max_range_km) ≡ some r
      → IsSound max_range_km
          (index_positions (sort_by_id nodes) [])
          (sort_by_id nodes)
          edges
          (build_topology nodes edges max_range_km)
          id
          r
  build_topology-IsSound nodes edges max_range_km id r h =
      build_topology-AllSound nodes edges max_range_km id r h

  -- In the table that `BuildTopology` returns, a node whose entry has hop level k + 1 reaches a
  -- registered edge by following parents k + 1 times, and that is at most 5 times.
  pub build_topology-follow :
      (nodes : List (NodePosition W)) (edges : List (Edge W)) (max_range_km : W) (id : Text)
      (r : RouteEntry W) (k : ℕ)
      → lookup id (build_topology nodes edges max_range_km) ≡ some r
      → r.hop_level ≡ suc k
      → (suc k ≤ 5)
        × ((code : Text) × (follow (suc k) (build_topology nodes edges max_range_km) id ≡ some code)
            × Any (λ e. e.edge_code ≡ code) edges)
  build_topology-follow nodes edges max_range_km id r k h l =
      let sound = build_topology-AllSound nodes edges max_range_km in
      (
        hop_bound (sound id r h),
        follow-AllSound max_range_km _ _ edges (build_topology nodes edges max_range_km) k id r
            sound h l,
      )
    where
      hop_bound :
          IsSound max_range_km
            (index_positions (sort_by_id nodes) [])
            (sort_by_id nodes)
            edges
            (build_topology nodes edges max_range_km)
            id
            r
          → suc k ≤ 5
      hop_bound (routed_within _ low _) = omega arith
      hop_bound (left_isolated e) = absurd (ground arith)
