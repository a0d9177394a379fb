-- ===== src/Er/Routes/Age.antt =====
-- bundler/src/er/mod.rs: how old a route of `resolve_route` may be, over the calls of a client.
use cpsr_lite.Prelude.{
  ℕ, ◌+◌, ◌≤◌, ◌<◌, ◌≡◌, refl, false, Option, none, some, List, [], ◌∷◌, arith, ltb, inl, inr, ◌⊎◌,
  Bool-cases, Option-cases, All,
}
use cpsr_lite.Er.{Url, ErClientConfig}
use cpsr_lite.Er.Routes.{
  stamped, stored, resolved, RouterRpcRoute, Resolved, ok, err, CachedRoute, ErRouteInfo,
  cached_route, choose_route, fetch_route_from_router, resolve_route,
}
use cpsr_lite.Er.Routes.Choice.{choose_route-IsChosen}

-- A call: when it looks at the cache, when its request is answered, and the answer.
pub record Lookup : Type 0 where
  pub now : ℕ
  pub later : ℕ
  pub answer : Option (List RouterRpcRoute)

-- The cached route may be used for `limit` at most.
abbrev IsLimited : ℕ → Option CachedRoute → Type 0
IsLimited limit none = Unit
IsLimited limit (some entry) = entry.ttl ≤ limit

-- A route that a call answers is fresh from the router or the configuration, or younger than both its time and `limit`.
abbrev pub IsYoung : (limit now : ℕ) → Resolved ErRouteInfo → Type 0
IsYoung limit now (err e) = Unit
IsYoung limit now (ok info) =
    (info.ttl ≤ limit)
    × ((info.cache_hit ≡ false)
        ⊎ (now < info.fetched_at + info.ttl) × (now < info.fetched_at + limit))

module _ (parse : List ℕ → Option Url) (cfg : ErClientConfig) where
  -- The calls one after the other, with the cache that they share.
  abbrev pub resolve_all : List Lookup → Option CachedRoute → List (ℕ × Resolved ErRouteInfo)
  resolve_all [] cache = []
  resolve_all (l ∷ ls) cache =
      let (info, kept) = resolve_route parse cfg l.now l.later l.answer cache in
      (l.now, info) ∷ resolve_all ls kept

  fetched_limited :
      (answer : Option (List RouterRpcRoute)) (now : ℕ) (fresh : CachedRoute)
      → fetch_route_from_router parse cfg answer now ≡ ok fresh
      → fresh.ttl ≤ cfg.route_cache_ttl
  unfolding fetch_route_from_router
  fetched_limited none now fresh e = cc e
  fetched_limited (some routes) now fresh e = go (choose_route parse cfg routes) refl e
    where
      go :
          (c : Resolved (Url × ℕ))
          → choose_route parse cfg routes ≡ c
          → stamped now c ≡ ok fresh
          → fresh.ttl ≤ cfg.route_cache_ttl
      go (err x) same f = cc f
      go (ok (endpoint, ttl)) same f =
          let (r, chosen) = choose_route-IsChosen parse cfg routes endpoint ttl same in
          ground (arith, f, chosen.limited)

  stored-IsYoung :
      (now : ℕ) (fetched : Resolved CachedRoute) (kept : Option CachedRoute)
      → ((fresh : CachedRoute) → fetched ≡ ok fresh → fresh.ttl ≤ cfg.route_cache_ttl)
      → IsLimited cfg.route_cache_ttl kept
      → IsYoung cfg.route_cache_ttl now (stored fetched kept).0
        × IsLimited cfg.route_cache_ttl (stored fetched kept).1
  stored-IsYoung now (err e) kept good limited = (tt, limited)
  stored-IsYoung now (ok fresh) kept good limited = ((good fresh refl, inl refl), good fresh refl)

  cached_route-IsYoung :
      (now : ℕ) (fetched : Resolved CachedRoute) (cache : Option CachedRoute)
      → ((fresh : CachedRoute) → fetched ≡ ok fresh → fresh.ttl ≤ cfg.route_cache_ttl)
      → IsLimited cfg.route_cache_ttl cache
      → let r = resolved fetched (cached_route now cache) in
        IsYoung cfg.route_cache_ttl now r.0 × IsLimited cfg.route_cache_ttl r.1
  unfolding cached_route
  cached_route-IsYoung now fetched none good limited = stored-IsYoung now fetched none good tt
  cached_route-IsYoung now fetched (some entry) good limited =
      elim (Bool-cases (ltb now (entry.fetched_at + entry.ttl))) [
        | inl e ↦ rw e ((limited, inr (ground (arith, e), ground (arith, e, limited))), limited)
        | inr e ↦ rw e (stored-IsYoung now fetched none good tt)
      ]

  resolve_route_lem :
      (now later : ℕ) (answer : Option (List RouterRpcRoute)) (cache : Option CachedRoute)
      → IsLimited cfg.route_cache_ttl cache
      → let r = resolve_route parse cfg now later answer cache in
        IsYoung cfg.route_cache_ttl now r.0 × IsLimited cfg.route_cache_ttl r.1
  unfolding resolve_route
  resolve_route_lem now later answer cache limited = elim (Option-cases cfg.endpoint_override) [
    | inl e ↦
        rw (resolve_route, e)
          (cached_route-IsYoung now (fetch_route_from_router parse cfg answer later) cache
            (λ fresh f. fetched_limited answer later fresh f) limited)
    | inr (u, e) ↦ rw (resolve_route, e) ((omega arith, inl refl), limited)
  ]

  resolve_all-IsYoung_from :
      (ls : List Lookup) (cache : Option CachedRoute)
      → IsLimited cfg.route_cache_ttl cache
      → All (λ p. IsYoung cfg.route_cache_ttl p.0 p.1) (resolve_all ls cache)
  resolve_all-IsYoung_from [] cache limited = tt
  resolve_all-IsYoung_from (l ∷ ls) cache limited =
      let h = resolve_route_lem l.now l.later l.answer cache limited in
      (h.0, resolve_all-IsYoung_from ls _ h.1)

  -- Whatever the router answers to the calls of a client, no route that it resolves from its cache has reached its own time or
  -- `route_cache_ttl`, and no route at all has a longer time than `route_cache_ttl`.
  pub resolve_all-IsYoung :
      (ls : List Lookup) → All (λ p. IsYoung cfg.route_cache_ttl p.0 p.1) (resolve_all ls none)
  resolve_all-IsYoung ls = resolve_all-IsYoung_from ls none tt
