-- ===== src/Domain/Mesh/Entries.antt =====
-- The nodes of domain/mesh.go's BuildTopology, followed through its loops into the table.
use maritime_simulation.Base.{
  if_both, ℕ, zero, suc, ◌≡◌, ◌⊎◌, inl, inr, Bool, true, false, ◌||◌, ◌&&◌, List, [], ◌∷◌, arith,
  All, Any, All-map, All-append, All-at, Bool-cases, ltb, length,
}
use maritime_simulation.Base.Text.{Text, text_eq, text_lt, text_eq_iff, text_eq→eq}
use maritime_simulation.Base.Dict.{
  Dict, lookup, insert, erase, lookup-insert, lookup-erase, is_some, Has, insert-Has,
  insert-Has_self,
}
use maritime_simulation.Floats.{Float}
use maritime_simulation.Domain.Entities.{NodePosition, Edge, RouteEntry}
use maritime_simulation.Domain.Mesh.{
  Best, Layers, insert_sorted, sort_by_id, all_unrouted, attach_edge, first_level, scan_layer,
  attach_node, next_level, level_round, later_levels, erase_all, isolate, isolated_entry,
  build_layers, build_topology, is_unrouted, index_positions, entry_of,
}

module _ {W : Type 0} where
  -- The node has an entry or is still unrouted.
  abbrev IsKnown : Text → Layers W → Type 0
  IsKnown q s = is_some (lookup q s.routes) || is_some (lookup q s.unrouted) ≡ true

  -- The nodes of the current level have entries.
  abbrev IsEntered : Layers W → Type 0
  IsEntered s = All (λ id. Has id s.routes) s.layer

  insert_sorted-All :
      (P : NodePosition W → Type 0) (n : NodePosition W) (ns : List (NodePosition W))
      → All P (insert_sorted n ns)
      → P n × All P ns
  unfolding insert_sorted
  insert_sorted-All P n [] h = h
  insert_sorted-All P n (m ∷ ns) h = elim (Bool-cases (text_lt m.id n.id)) [
    | inr stop ↦ (rw stop at h)
    | inl later ↦
        let k : P m × All P (insert_sorted n ns) = (rw later at h) in
        let (p, ps) = insert_sorted-All P n ns k.1 in (p, (k.0, ps))
  ]

  -- Sorting leaves out no node.
  sort_by_id-All :
      (P : NodePosition W → Type 0) (ns : List (NodePosition W)) → All P (sort_by_id ns) → All P ns
  unfolding sort_by_id
  sort_by_id-All P [] h = h
  sort_by_id-All P (n ∷ ns) h =
      let (p, ps) = insert_sorted-All P n (sort_by_id ns) h in (p, sort_by_id-All P ns ps)

  all_unrouted-Has :
      (q : Text) (ns : List (NodePosition W)) (d : Dict Bool) → Has q d → Has q (all_unrouted ns d)
  unfolding all_unrouted
  all_unrouted-Has q [] d h = h
  all_unrouted-Has q (n ∷ ns) d h =
      all_unrouted-Has q ns (insert n.id true d) (insert-Has q n.id true d h)

  all_unrouted-All :
      (ns : List (NodePosition W)) (d : Dict Bool) → All (λ n. Has n.id (all_unrouted ns d)) ns
  unfolding all_unrouted
  all_unrouted-All [] d = tt
  all_unrouted-All (n ∷ ns) d = (
    all_unrouted-Has n.id ns (insert n.id true d) (insert-Has_self n.id true d),
    all_unrouted-All ns (insert n.id true d),
  )

or_cases : (a b : Bool) → a || b ≡ true → (a ≡ true) ⊎ (b ≡ true)
or_cases a b h = ground arith

or_left : (a b : Bool) → a ≡ true → a || b ≡ true
or_left a b h = ground arith

or_right : (a b : Bool) → b ≡ true → a || b ≡ true
or_right a b h = ground arith

erase_all-Has :
    (q : Text) (ids : List Text) (d : Dict Bool)
    → Has q d
    → Has q (erase_all ids d) ⊎ Any (λ id. id ≡ q) ids
unfolding erase_all
erase_all-Has q [] d h = inl h
erase_all-Has q (id ∷ ids) d h = elim (Bool-cases (text_eq id q)) [
  | inl same ↦ inr (inl (text_eq→eq id q same))
  | inr other ↦ elim (erase_all-Has q ids (erase id d) (ground (arith, lookup-erase id q d))) [
    | inl k ↦ inl k
    | inr k ↦ inr (inr k)
  ]
]

module _ {W : Type 0} ⦃fl : Float W⦄ where
  attach_edge-IsKnown :
      (q : Text) (n : NodePosition W) (best : Best W) (s : Layers W)
      → IsKnown q s
      → IsKnown q (attach_edge n best s)
  unfolding attach_edge
  attach_edge-IsKnown q n best s h = ground (
    arith,
    lookup-insert n.id q (entry_of n.id best true 1) s.routes,
    lookup-erase n.id q s.unrouted,
  )

  first_level-IsKnown :
      (q : Text) (r : W) (edges : List (Edge W)) (ns : List (NodePosition W)) (s : Layers W)
      → IsKnown q s
      → IsKnown q (first_level r edges ns s)
  unfolding first_level
  first_level-IsKnown q r edges [] s h = h
  first_level-IsKnown q r edges (n ∷ ns) s h =
      first_level-IsKnown q r edges ns _ (attach_edge-IsKnown q n _ s h)

  attach_node-IsKnown :
      (q : Text) (level : ℕ) (n : NodePosition W) (best : Best W) (s : Layers W)
      → IsKnown q s
      → IsKnown q (attach_node level n best s)
  unfolding attach_node
  attach_node-IsKnown q level n best s h =
      ground (arith, lookup-insert n.id q (entry_of n.id best false level) s.routes)

  attach_node-IsEntered :
      (level : ℕ) (n : NodePosition W) (best : Best W) (s : Layers W)
      → IsEntered s
      → IsEntered (attach_node level n best s)
  unfolding attach_node
  attach_node-IsEntered level n best s h =
      let d = insert n.id (entry_of n.id best false level) s.routes in
      if_both IsEntered best.found _ s
        (All-append (λ id. Has id d) s.layer (n.id ∷ [])
          (All-map (λ id. Has id s.routes) (λ id. Has id d)
            (λ id. insert-Has id n.id (entry_of n.id best false level) s.routes) s.layer h)
          (insert-Has_self n.id (entry_of n.id best false level) s.routes, tt))
        h

  next_level-Kept :
      (q : Text) (r : W) (positions : Dict (NodePosition W)) (prev : List Text) (level : ℕ)
      (ns : List (NodePosition W)) (s : Layers W)
      → IsKnown q s
      → IsEntered s
      → IsKnown q (next_level r positions prev level ns s)
        × IsEntered (next_level r positions prev level ns s)
  unfolding next_level
  next_level-Kept q r positions prev level [] s h k = (h, k)
  next_level-Kept q r positions prev level (n ∷ ns) s h k =
      let best = scan_layer r n positions prev (record { dist = r; name = []; found = false }) in
      let (h', k') =
        if_both (λ t. IsKnown q t × IsEntered t) (is_unrouted n.id s.unrouted)
          (attach_node level n best s) s
          (attach_node-IsKnown q level n best s h, attach_node-IsEntered level n best s k) (h, k) in
      next_level-Kept q r positions prev level ns _ h' k'

  level_round-IsKnown :
      (q : Text) (r : W) (positions : Dict (NodePosition W)) (ns : List (NodePosition W))
      (level : ℕ) (s : Layers W)
      → IsKnown q s
      → IsKnown q (level_round r positions ns level s)
  unfolding level_round
  level_round-IsKnown q r positions ns level s h =
      let t = next_level r positions s.layer level ns (record s { layer = [] }) in
      let (a, b) = next_level-Kept q r positions s.layer level ns (record s { layer = [] }) h tt in
      elim (or_cases (is_some (lookup q t.routes)) (is_some (lookup q t.unrouted)) a) [
        | inl i ↦ or_left _ _ i
        | inr j ↦ elim (erase_all-Has q t.layer t.unrouted j) [
          | inl k ↦ or_right _ _ k
          | inr m ↦ or_left _ _ (All-at (λ id. Has id t.routes) t.layer q b m)
        ]
      ]

  later_levels-IsKnown :
      (q : Text) (left level : ℕ) (r : W) (positions : Dict (NodePosition W))
      (ns : List (NodePosition W)) (s : Layers W)
      → IsKnown q s
      → IsKnown q (later_levels left level r positions ns s)
  unfolding later_levels
  later_levels-IsKnown q zero level r positions ns s h = h
  later_levels-IsKnown q (suc left) level r positions ns s h =
      if_both (IsKnown q) (ltb 0 (length s.unrouted) && ltb 0 (length s.layer)) _ s
        (later_levels-IsKnown q left (suc level) r positions ns (level_round r positions ns level s)
          (level_round-IsKnown q r positions ns level s h))
        h

  isolate-Has :
      (q : Text) (left : Dict Bool) (routes : Dict (RouteEntry W))
      → is_some (lookup q routes) || is_some (lookup q left) ≡ true
      → Has q (isolate left routes)
  unfolding isolate lookup
  isolate-Has q [] routes h = ground arith
  isolate-Has q ((id, b) ∷ left) routes h =
      isolate-Has q left (insert id (isolated_entry id) routes)
        (ground (arith, lookup-insert id q (isolated_entry id) routes, text_eq_iff id q))

  -- Every node gets an entry in the table that `BuildTopology` returns: none is forgotten.
  pub build_topology-Has :
      (nodes : List (NodePosition W)) (edges : List (Edge W)) (max_range_km : W)
      → All (λ n. Has n.id (build_topology nodes edges max_range_km)) nodes
  unfolding build_topology build_layers lookup
  build_topology-Has nodes edges max_range_km =
      let sorted = sort_by_id nodes in
      let s0 : Layers W = record { routes = []; unrouted = all_unrouted sorted []; layer = [] } in
      let s1 = first_level max_range_km edges sorted s0 in
      let s2 = later_levels 4 2 max_range_km (index_positions sorted []) sorted s1 in
      sort_by_id-All _ nodes (
        All-map (λ (n : NodePosition W). Has n.id (all_unrouted sorted []))
          (λ (n : NodePosition W). Has n.id (isolate s2.unrouted s2.routes))
          (λ (n : NodePosition W) h. isolate-Has n.id s2.unrouted s2.routes (
            later_levels-IsKnown n.id 4 2 max_range_km (index_positions sorted []) sorted s1
              (first_level-IsKnown n.id max_range_km edges sorted s0 (or_right false _ h))))
          sorted (all_unrouted-All sorted []))
