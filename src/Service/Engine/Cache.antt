-- ===== src/Service/Engine/Cache.antt =====
-- The edge cache of service/simulation_engine.go.
use maritime_simulation.Base.{
  ℕ, ◌-◌, ◌*◌, ◌^◌, Bool, false, List, [], ◌∷◌, Option, none, some, ltb, if◌then◌else◌,
}
use maritime_simulation.Base.Text.{Text}
use maritime_simulation.Base.Dict.{Dict, lookup, insert}
use maritime_simulation.Domain.Errors.{Result, ok, err}
use maritime_simulation.Domain.Entities.{Edge}
use maritime_simulation.Service.Ports.{◌>>=◌, Ports, EdgeCache, M, call}

-- The lifetime that `NewSimulationEngineService` gives the cache, 30 seconds, in nanoseconds.
abbrev pub edge_cache_ttl : ℕ
edge_cache_ttl = 30 * 10 ^ 9

module _ {W : Type 0} where
  -- newEdgeCache
  unfoldable pub new_edge_cache : EdgeCache W
  new_edge_cache = record { by_code = none; loaded_at = 0 }

  unfoldable pub index_edges : List (Edge W) → Dict (Edge W) → Dict (Edge W)
  index_edges [] d = d
  index_edges (e ∷ es) d = index_edges es (insert e.edge_code e d)

  -- `e, ok := c.byCode[code]`, where a nil map holds nothing.
  unfoldable pub cached : EdgeCache W → Text → Option (Edge W)
  cached c code = elim c.by_code [ none ↦ none | some d ↦ lookup code d ]

  -- `c.byCode != nil && time.Since(c.loadedAt) < c.ttl`
  unfoldable pub is_fresh : EdgeCache W → ℕ → Bool
  is_fresh c t = elim c.by_code [ none ↦ false | some _ ↦ ltb (t - c.loaded_at) edge_cache_ttl ]

module _ {W S : Type 0} (p : Ports W S) where
  -- The new map is put in place, and the code looked up in it.
  unfoldable pub store_edges : List (Edge W) → Text → M W S (Result (Option (Edge W)))
  store_edges edges code = do
    t ← call p.now
    λ s.
        let d = index_edges edges [] in
        (ok (lookup code d), record s { cache = record { by_code = some d; loaded_at = t } })

  -- What `get` does with the answer of the repository.
  unfoldable pub refresh : Result (List (Edge W)) → Text → M W S (Result (Option (Edge W)))
  refresh (ok edges) code s = store_edges edges code s
  refresh (err e) code s =
      (elim s.cache.by_code [ none ↦ err e | some _ ↦ ok (cached s.cache code) ], s)

  unfoldable pub reload : Text → M W S (Result (Option (Edge W)))
  reload code = do r ← call p.list_edges; refresh r code

  -- edgeCache.get
  unfoldable pub get_edge : Text → M W S (Result (Option (Edge W)))
  get_edge code = do
    t ← call p.now
    λ s. if is_fresh s.cache t then (ok (cached s.cache code), s) else reload code s
