-- ===== src/Domain/Mesh/Loops.antt =====
-- Each loop of `BuildTopology` keeps the table layered.
use maritime_simulation.Base.{
  ℕ, zero, suc, ◌+◌, ◌≤◌, ◌≡◌, refl, sym, subst, ◌↔◌, ◌⊎◌, inl, inr, Bool, true, false, List, [],
  ◌∷◌, none, some, arith, Bool-cases, Option-cases, All, Any, append-Any, Any-find, All-at, ltb,
  length, ◌&&◌,
}
use maritime_simulation.Base.Text.{Text, text_eq, text_eq_iff, text_eq→eq}
use maritime_simulation.Base.Dict.{Dict, lookup, insert, erase, lookup-insert, lookup-erase}
use maritime_simulation.Floats.{Float, IsIeee}
use maritime_simulation.Domain.Entities.{NodePosition, Edge, RouteEntry}
use maritime_simulation.Domain.Geo.{haversine_km}
use maritime_simulation.Domain.Mesh.{
  Best, Layers, position_of, scan_edges, scan_layer, entry_of, attach_edge, attach_node,
  first_level, next_level, level_round, later_levels, erase_all, is_unrouted,
}
use maritime_simulation.Domain.Mesh.Scan.{
  IsHit, Beaten, scan_edges-IsHit, scan_layer-IsHit, scan_edges-Beaten, scan_layer-Beaten,
}
use maritime_simulation.Domain.Mesh.Layering.{
  level_of, level_of-lookup, insert-SameLevels, as_best, Justified, by_edge, by_node, Justified-pos,
  Layered, insert-Layered, IsSettled,
}

pub lookup-erase_all :
    (ids : List Text) (d : Dict Bool) (id : Text) (b : Bool)
    → lookup id (erase_all ids d) ≡ some b
    → (lookup id d ≡ some b) × (Any (λ j. j ≡ id) ids → ⊥)
unfolding erase_all
lookup-erase_all [] d id b h = (h, λ k. k)
lookup-erase_all (x ∷ ids) d id b h =
    let (old, out) = lookup-erase_all ids (erase x d) id b h in
    (
      ground (arith, lookup-erase x id d),
      λ k. elim k [ inl p ↦ ground (arith, lookup-erase x id d, text_eq_iff x id) | inr q ↦ out q ],
    )

module _ {W : Type 0} ⦃fl : Float W⦄ (ieee : IsIeee W) (max_range_km : W) where
  open fl use {lt, lit}

  module _ (positions : Dict (NodePosition W)) (nodes : List (NodePosition W))
      (edges : List (Edge W)) where
    level_cases :
        (level : ℕ) (routes : Dict (RouteEntry W)) (layer : List Text) (id : Text)
        → Layered max_range_km positions nodes edges level routes layer
        → (level_of id routes ≡ none)
          ⊎ ((k : ℕ) × (level_of id routes ≡ some k) × (1 ≤ k) × (k ≤ level))
    level_cases level routes layer id v = elim (Option-cases (lookup id routes)) [
      | inl e ↦ inl (ground arith)
      | inr (r, e) ↦
          let (_, low, j) = v.entries id r e in
          inr (
            r.hop_level,
            level_of-lookup id routes r e,
            Justified-pos max_range_km positions nodes edges routes r j,
            low,
          )
    ]

    best_eta :
        (id : Text) (best : Best W) (b : Bool) (level : ℕ)
        → best.found ≡ true
        → best ≡ as_best max_range_km (entry_of id best b level)
    best_eta id best b level h = ground arith

    attach_edge-IsSettled :
        (n : NodePosition W) (s : Layers W)
        → Any (λ m. m ≡ n) nodes
        → IsSettled max_range_km positions nodes edges 1 s
        → IsSettled max_range_km positions nodes edges 1 (
            attach_edge n
              (scan_edges max_range_km n edges
                (record { dist = lit 0 0; name = []; found = false }))
              s)
    attach_edge-IsSettled n s m v = elim (Bool-cases best.found) [
      | inl found ↦
          unfold attach_edge in
          rw found (record {
            layered =
                insert-Layered max_range_km positions nodes edges 1 s.routes s.layer r v.layered
                  refl
                  (elim (level_cases 1 s.routes s.layer n.id v.layered) [
                    | inl e ↦ inl e
                    | inr (k, e, low, high) ↦ inr (ground arith)
                  ])
                  (by_edge n m refl refl refl refl
                    (elim (scan_edges-IsHit max_range_km n edges start) [
                      | inl same ↦ absurd (ground arith)
                      | inr hit ↦ hit
                    ])
                    (subst
                      (λ b.
                        All
                          (λ e.
                            Beaten max_range_km e.edge_code
                              (haversine_km n.lat n.lng e.latitude e.longitude) b)
                          edges)
                      (best_eta n.id best true 1 found)
                      (scan_edges-Beaten max_range_km ieee n edges start)));
            fresh = λ id b h. ground (
              arith,
              lookup-erase n.id id s.unrouted,
              lookup-insert n.id id r s.routes,
              v.fresh id b,
            );
          })
      | inr missing ↦ unfold attach_edge in rw missing v
    ]
      where
        start : Best W
        start = record { dist = lit 0 0; name = []; found = false }

        best : Best W
        best = scan_edges max_range_km n edges start

        r : RouteEntry W
        r = entry_of n.id best true 1

    pub first_level-IsSettled :
        (rest : List (NodePosition W)) (s : Layers W)
        → All (λ n. Any (λ m. m ≡ n) nodes) rest
        → IsSettled max_range_km positions nodes edges 1 s
        → IsSettled max_range_km positions nodes edges 1 (first_level max_range_km edges rest s)
    unfolding first_level
    first_level-IsSettled [] s ms v = v
    first_level-IsSettled (n ∷ rest) s (m, ms) v =
        first_level-IsSettled rest _ ms (attach_edge-IsSettled n s m v)

    -- What holds inside a round for level k + 1, over the nodes `prev` of level k: an unrouted
    -- node has no entry yet, or got one in this round.
    record IsRound (k : ℕ) (prev : List Text) (s : Layers W) : Type 0 where
      layered : Layered max_range_km positions nodes edges (suc k) s.routes s.layer
      fresh :
          (id : Text) (b : Bool)
          → lookup id s.unrouted ≡ some b
          → (lookup id s.routes ≡ none) ⊎ Any (λ j. j ≡ id) s.layer
      prev_level : (id : Text) → Any (λ j. j ≡ id) prev → level_of id s.routes ≡ some k
      level_prev : (id : Text) → level_of id s.routes ≡ some k → Any (λ j. j ≡ id) prev

    start-IsRound :
        (k : ℕ) (s : Layers W)
        → IsSettled max_range_km positions nodes edges k s
        → IsRound k s.layer (record s { layer = [] })
    start-IsRound k s v = record {
      layered = record {
        entries = λ id r h. let (n, low, j) = v.layered.entries id r h in (n, omega arith, j);
        layer_level = λ id h. absurd h;
        level_layer = λ id h. elim (level_cases k s.routes s.layer id v.layered) [
          | inl e ↦ absurd (ground arith)
          | inr (m, e, low, high) ↦ absurd (ground arith)
        ];
      };
      fresh = λ id b h. inl (v.fresh id b h);
      prev_level = v.layered.layer_level;
      level_prev = v.layered.level_layer;
    }

    end_round :
        (k : ℕ) (prev : List Text) (s : Layers W)
        → IsRound k prev s
        → IsSettled max_range_km positions nodes edges
            (suc k)
            (record s { unrouted = erase_all s.layer s.unrouted })
    end_round k prev s v = record {
      layered = v.layered;
      fresh = λ id b h.
          let (old, out) = lookup-erase_all s.layer s.unrouted id b h in
          elim (v.fresh id b old) [ inl e ↦ e | inr q ↦ absurd (out q) ];
    }

    -- Of a scan over the previous level that found something, the new entry is justified.
    layer-Justified :
        (k : ℕ) (prev : List Text) (n : NodePosition W) (s : Layers W)
        → 1 ≤ k
        → Any (λ m. m ≡ n) nodes
        → IsRound k prev s
        → let best =
            scan_layer max_range_km n positions prev
              (record { dist = max_range_km; name = []; found = false }) in
          best.found ≡ true
          → Justified max_range_km positions nodes edges s.routes (entry_of n.id best false (suc k))
    layer-Justified k prev n s low m v found =
        let start : Best W = record { dist = max_range_km; name = []; found = false } in
        let best = scan_layer max_range_km n positions prev start in
        let hit : Any
            (λ pid.
              IsHit max_range_km pid
                (haversine_km n.lat n.lng (position_of pid positions).lat
                  (position_of pid positions).lng)
                best)
            prev =
          elim (scan_layer-IsHit max_range_km n positions prev start) [
            | inl same ↦ absurd (ground arith)
            | inr hit ↦ hit
          ] in
        let near =
          subst
            (λ b.
              All
                (λ pid.
                  Beaten max_range_km pid
                    (haversine_km n.lat n.lng (position_of pid positions).lat
                      (position_of pid positions).lng)
                    b)
                prev)
            (best_eta n.id best false (suc k) found)
            (scan_layer-Beaten max_range_km ieee n positions prev start) in
        let (pid, is_in, found_at) = Any-find _ prev hit in
        let (name, dist, far) = found_at in
        by_node n k m refl refl refl refl low
          (v.prev_level best.name (subst (λ t. Any (λ j. j ≡ t) prev) (sym name) is_in))
          (subst
            (λ t.
              best.dist
              ≡ haversine_km n.lat n.lng (position_of t positions).lat
                  (position_of t positions).lng)
            (sym name) dist)
          (subst (λ d. lt max_range_km d ≡ false) (sym dist) far)
          (λ id q. All-at _ prev id near (v.level_prev id q))

    attach_node-IsRound :
        (k : ℕ) (prev : List Text) (n : NodePosition W) (s : Layers W)
        → 1 ≤ k
        → Any (λ m. m ≡ n) nodes
        → is_unrouted n.id s.unrouted ≡ true
        → IsRound k prev s
        → IsRound k prev (
            attach_node
              (suc k)
              n
              (scan_layer max_range_km n positions prev
                (record { dist = max_range_km; name = []; found = false }))
              s)
    attach_node-IsRound k prev n s low m open_ v = elim (Bool-cases best.found) [
      | inl found ↦
          unfold attach_node in
          rw found (record {
            layered =
                insert-Layered max_range_km positions nodes edges (suc k) s.routes s.layer r
                  v.layered refl old (layer-Justified k prev n s low m v found);
            fresh = λ id b h. elim (v.fresh id b h) [
              | inr q ↦ inr (append-Any (λ j. j ≡ id) s.layer (n.id ∷ []) (inl q))
              | inl e ↦ elim (Bool-cases (text_eq n.id id)) [
                | inl hit ↦ inr (
                    append-Any (λ j. j ≡ id) s.layer (n.id ∷ [])
                      (inr (inl (text_eq→eq n.id id hit))))
                | inr miss ↦ inl (ground (arith, lookup-insert n.id id r s.routes))
              ]
            ];
            prev_level = λ id q. (same id).0 (v.prev_level id q);
            level_prev = λ id q. v.level_prev id ((same id).1 q);
          })
      | inr missing ↦ unfold attach_node in rw missing v
    ]
      where
        best : Best W
        best =
            scan_layer max_range_km n positions prev
              (record { dist = max_range_km; name = []; found = false })

        r : RouteEntry W
        r = entry_of n.id best false (suc k)

        old : (level_of n.id s.routes ≡ none) ⊎ (level_of n.id s.routes ≡ some (suc k))
        old = elim (Option-cases (lookup n.id s.unrouted)) [
          | inl e ↦ absurd (ground arith)
          | inr (b, e) ↦ elim (v.fresh n.id b e) [
            | inl q ↦ inl (ground arith)
            | inr q ↦ inr (v.layered.layer_level n.id q)
          ]
        ]

        same :
            (id : Text)
            → (level_of id s.routes ≡ some k) ↔ (level_of id (insert n.id r s.routes) ≡ some k)
        same id =
            insert-SameLevels (suc k) n.id r s.routes (inr (omega arith)) old id k low (omega arith)

    next_level-IsRound :
        (k : ℕ) (prev : List Text) (rest : List (NodePosition W)) (s : Layers W)
        → 1 ≤ k
        → All (λ n. Any (λ m. m ≡ n) nodes) rest
        → IsRound k prev s
        → IsRound k prev (next_level max_range_km positions prev (suc k) rest s)
    unfolding next_level
    next_level-IsRound k prev [] s low ms v = v
    next_level-IsRound k prev (n ∷ rest) s low (m, ms) v =
        next_level-IsRound k prev rest _ low ms (elim (Bool-cases (is_unrouted n.id s.unrouted)) [
          | inl e ↦ rw e (attach_node-IsRound k prev n s low m e v)
          | inr e ↦ rw e v
        ])

    level_round-IsSettled :
        (k : ℕ) (s : Layers W)
        → 1 ≤ k
        → All (λ n. Any (λ m. m ≡ n) nodes) nodes
        → IsSettled max_range_km positions nodes edges k s
        → IsSettled max_range_km positions nodes edges
            (suc k)
            (level_round max_range_km positions nodes (suc k) s)
    unfolding level_round
    level_round-IsSettled k s low ms v =
        end_round k s.layer _ (
          next_level-IsRound k s.layer nodes (record s { layer = [] }) low ms (start-IsRound k s v))

    -- After the loop over the levels the table is layered, at most `left` levels higher.
    pub later_levels-IsSettled :
        (left k : ℕ) (s : Layers W)
        → 1 ≤ k
        → All (λ n. Any (λ m. m ≡ n) nodes) nodes
        → IsSettled max_range_km positions nodes edges k s
        → (level : ℕ) × (level ≤ k + left)
          × IsSettled max_range_km positions nodes edges level
              (later_levels left (suc k) max_range_km positions nodes s)
    unfolding later_levels
    later_levels-IsSettled zero k s low ms v = (k, omega arith, v)
    later_levels-IsSettled (suc left) k s low ms v =
        elim (Bool-cases (ltb 0 (length s.unrouted) && ltb 0 (length s.layer))) [
          | inl go_on ↦
              let (level, high, w) =
                later_levels-IsSettled left (suc k)
                  (level_round max_range_km positions nodes (suc k) s) (omega arith) ms
                  (level_round-IsSettled k s low ms v) in
              rw go_on (level, omega arith, w)
          | inr stop ↦ rw stop (k, omega arith, v)
        ]
