-- ===== src/Domain/Mesh/Scan.antt =====
-- What the two scans of `BuildTopology` find: a candidate in range, and a nearest one.
use maritime_simulation.Base.{
  ◌≡◌, refl, ◌∙◌, ◌⊎◌, inl, inr, true, false, List, [], ◌∷◌, arith, All, Any,
}
use maritime_simulation.Base.Text.{Text, text_lt, text_lt_irrefl, text_lt_trans}
use maritime_simulation.Base.Dict.{Dict}
use maritime_simulation.Floats.{Float, IsIeee}
use maritime_simulation.Domain.Entities.{NodePosition, Edge}
use maritime_simulation.Domain.Geo.{haversine_km}
use maritime_simulation.Domain.Mesh.{Best, consider, scan_edges, scan_layer, position_of}

module _ {W : Type 0} ⦃fl : Float W⦄ (max_range_km : W) where
  open fl use {lt, eq}

  -- `best` was taken from the candidate `name` at distance `d`, which is in range.
  abbrev pub IsHit : Text → W → Best W → Type 0
  IsHit name d best = (best.name ≡ name) × (best.dist ≡ d) × (lt max_range_km d ≡ false)

  consider_cases :
      (name : Text) (d : W) (best : Best W)
      → (consider max_range_km name d best ≡ best)
        ⊎ IsHit name d (consider max_range_km name d best)
  unfolding consider
  consider_cases name d best = ground arith

  pub scan_edges-IsHit :
      (n : NodePosition W) (es : List (Edge W)) (best : Best W)
      → (scan_edges max_range_km n es best ≡ best)
        ⊎ Any
            (λ e.
              IsHit e.edge_code
                (haversine_km n.lat n.lng e.latitude e.longitude)
                (scan_edges max_range_km n es best))
            es
  unfolding scan_edges
  scan_edges-IsHit n [] best = inl refl
  scan_edges-IsHit n (e ∷ rest) best =
      let d = haversine_km n.lat n.lng e.latitude e.longitude in
      let b = consider max_range_km e.edge_code d best in
      elim (scan_edges-IsHit n rest b) [
        | inl same ↦ elim (consider_cases e.edge_code d best) [
          | inl kept ↦ inl (same ∙ kept)
          | inr hit ↦ inr (inl (ground (arith, same), ground (arith, same), hit.2))
        ]
        | inr later ↦ inr (inr later)
      ]

  pub scan_layer-IsHit :
      (n : NodePosition W) (positions : Dict (NodePosition W)) (ids : List Text) (best : Best W)
      → (scan_layer max_range_km n positions ids best ≡ best)
        ⊎ Any
            (λ pid.
              let p = position_of pid positions in
              IsHit pid
                (haversine_km n.lat n.lng p.lat p.lng)
                (scan_layer max_range_km n positions ids best))
            ids
  unfolding scan_layer
  scan_layer-IsHit n positions [] best = inl refl
  scan_layer-IsHit n positions (pid ∷ rest) best =
      let p = position_of pid positions in
      let d = haversine_km n.lat n.lng p.lat p.lng in
      let b = consider max_range_km pid d best in
      elim (scan_layer-IsHit n positions rest b) [
        | inl same ↦ elim (consider_cases pid d best) [
          | inl kept ↦ inl (same ∙ kept)
          | inr hit ↦ inr (inl (ground (arith, same), ground (arith, same), hit.2))
        ]
        | inr later ↦ inr (inr later)
      ]

  -- The candidate `name` at distance `d` is out of range, or `best` is at least as near, and at
  -- an equal distance its name does not come later.
  abbrev pub Beaten : Text → W → Best W → Type 0
  Beaten name d best =
      (lt max_range_km d ≡ true)
      ⊎ ((best.found ≡ true)
          × (lt d best.dist ≡ false)
          × ((eq d best.dist ≡ false) ⊎ (text_lt name best.name ≡ false)))

  module _ (ieee : IsIeee W) where
    open ieee use {lt_irrefl, lt_trans, lt-eq, eq-lt, eq_trans}

    consider-Beaten_self :
        (name : Text) (d : W) (best : Best W) → Beaten name d (consider max_range_km name d best)
    unfolding consider
    consider-Beaten_self name d best = ground (arith, lt_irrefl d, text_lt_irrefl name)

    consider-Beaten :
        (m : Text) (c : W) (name : Text) (d : W) (best : Best W)
        → Beaten m c best
        → Beaten m c (consider max_range_km name d best)
    unfolding consider
    consider-Beaten m c name d best h = ground (
      arith,
      lt_trans c d best.dist,
      eq-lt c d best.dist,
      lt-eq c d best.dist,
      eq_trans c d best.dist,
      text_lt_trans m name best.name,
    )

    scan_edges-Beaten_keep :
        (n : NodePosition W) (es : List (Edge W)) (m : Text) (c : W) (best : Best W)
        → Beaten m c best
        → Beaten m c (scan_edges max_range_km n es best)
    unfolding scan_edges
    scan_edges-Beaten_keep n [] m c best h = h
    scan_edges-Beaten_keep n (e ∷ rest) m c best h =
        scan_edges-Beaten_keep n rest m c _ (consider-Beaten m c e.edge_code _ best h)

    -- Every edge is out of range, or the chosen one is at least as near; equal distances go to
    -- the smallest code.
    pub scan_edges-Beaten :
        (n : NodePosition W) (es : List (Edge W)) (best : Best W)
        → All
            (λ e.
              Beaten e.edge_code
                (haversine_km n.lat n.lng e.latitude e.longitude)
                (scan_edges max_range_km n es best))
            es
    unfolding scan_edges
    scan_edges-Beaten n [] best = tt
    scan_edges-Beaten n (e ∷ rest) best = (
      scan_edges-Beaten_keep n rest e.edge_code _ _ (consider-Beaten_self e.edge_code _ best),
      scan_edges-Beaten n rest _,
    )

    scan_layer-Beaten_keep :
        (n : NodePosition W) (positions : Dict (NodePosition W)) (ids : List Text) (m : Text)
        (c : W) (best : Best W)
        → Beaten m c best
        → Beaten m c (scan_layer max_range_km n positions ids best)
    unfolding scan_layer
    scan_layer-Beaten_keep n positions [] m c best h = h
    scan_layer-Beaten_keep n positions (pid ∷ rest) m c best h =
        scan_layer-Beaten_keep n positions rest m c _ (consider-Beaten m c pid _ best h)

    -- So among the nodes of the previous level.
    pub scan_layer-Beaten :
        (n : NodePosition W) (positions : Dict (NodePosition W)) (ids : List Text) (best : Best W)
        → All
            (λ pid.
              let p = position_of pid positions in
              Beaten pid
                (haversine_km n.lat n.lng p.lat p.lng)
                (scan_layer max_range_km n positions ids best))
            ids
    unfolding scan_layer
    scan_layer-Beaten n positions [] best = tt
    scan_layer-Beaten n positions (pid ∷ rest) best = (
      scan_layer-Beaten_keep n positions rest pid _ _ (consider-Beaten_self pid _ best),
      scan_layer-Beaten n positions rest _,
    )
