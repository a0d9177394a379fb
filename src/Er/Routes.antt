-- ===== src/Er/Routes.antt =====
-- bundler/src/er/mod.rs: which route is used. Parsing a URL is a parameter, and so is the router's answer.
pub mod Choice
pub mod Age
use cpsr_lite.Prelude.{
  ℕ, ◌+◌, ◌≤◌, ◌<◌, ◌≡◌, refl, ap, ◌∙◌, subst, sym, Bool, true, false, ◌||◌, Option, none, some,
  List, [], ◌∷◌, arith, min, ltb, ◌==◌, if◌then◌else◌, select, inl, inr, ◌⊎◌, Bool-cases, leb,
}
use cpsr_lite.Prelude.Sort.{sort_by, In, sort_by-In, In-sort_by}
use cpsr_lite.Prelude.Text.{codes, to_ascii_lowercase}
use cpsr_lite.Er.{Url, ErPrivacyMode, public_mode, private_mode, ErClientConfig, same_text}

pub record RouterRpcRoute : Type 0 where
  pub fqdn : List ℕ
  pub ttl_ms : Option ℕ
  pub privacy : Option (List ℕ)

abbrev pub mode_text : ErPrivacyMode → List ℕ
mode_text public_mode = codes "public"
mode_text private_mode = codes "private"

unfoldable pub matches_privacy : ErPrivacyMode → RouterRpcRoute → Bool
matches_privacy mode route = elim route.privacy [
  | some value ↦ same_text (to_ascii_lowercase value) (to_ascii_lowercase (mode_text mode))
  | none ↦ true
]

-- `Ord` of `String`: byte by byte.
abbrev pub text_le : List ℕ → List ℕ → Bool
text_le [] bs = true
text_le (a ∷ as') [] = false
text_le (a ∷ as') (b ∷ bs) = if a == b then text_le as' bs else ltb a b

abbrev pub by_fqdn : RouterRpcRoute → RouterRpcRoute → Bool
by_fqdn a b = text_le a.fqdn b.fqdn

pub data RouteError : Type 0 where
  no_routes no_private_routes invalid_url unsupported_scheme request_failed : RouteError

pub data Resolved (A : Type 0) : Type 0 where
  ok : A → Resolved A
  err : RouteError → Resolved A

pub record CachedRoute : Type 0 where
  pub endpoint : Url
  pub fetched_at : ℕ
  pub ttl : ℕ

pub record ErRouteInfo : Type 0 where
  pub endpoint : Url
  pub ttl : ℕ
  pub fetched_at : ℕ
  pub cache_hit : Bool

abbrev is_http : List ℕ → Bool
is_http scheme = same_text scheme (codes "http") || same_text scheme (codes "https")

abbrev route_ttl : Option ℕ → ℕ → ℕ
route_ttl none limit = limit
route_ttl (some router_ttl) limit = min router_ttl limit

abbrev pub stamped : ℕ → Resolved (Url × ℕ) → Resolved CachedRoute
stamped now (err e) = err e
stamped now (ok (endpoint, ttl)) = ok record { endpoint = endpoint; fetched_at = now; ttl = ttl }

-- The route of a cache entry that has not expired, and the cache that the look leaves.
unfoldable pub cached_route : ℕ → Option CachedRoute → Option ErRouteInfo × Option CachedRoute
cached_route now none = (none, none)
cached_route now (some entry) =
    if ltb now (entry.fetched_at + entry.ttl)
    then (
      some record {
        endpoint = entry.endpoint;
        ttl = entry.ttl;
        fetched_at = entry.fetched_at;
        cache_hit = true;
      },
      some entry,
    )
    else (none, none)

abbrev pub fresh_info : CachedRoute → ErRouteInfo
fresh_info fresh = record {
  endpoint = fresh.endpoint;
  ttl = fresh.ttl;
  fetched_at = fresh.fetched_at;
  cache_hit = false;
}

-- A fresh route, if one is found, is put into the cache.
abbrev pub stored :
    Resolved CachedRoute → Option CachedRoute → Resolved ErRouteInfo × Option CachedRoute
stored (err e) kept = (err e, kept)
stored (ok fresh) kept = (ok (fresh_info fresh), some fresh)

-- The cached route, or else the one fetched.
abbrev pub resolved :
    Resolved CachedRoute
    → Option ErRouteInfo × Option CachedRoute
    → Resolved ErRouteInfo × Option CachedRoute
resolved fetched (some route, kept) = (ok route, kept)
resolved fetched (none, kept) = stored fetched kept

module _ (parse : List ℕ → Option Url) where
  -- The endpoint of the route, and how long it may be used.
  abbrev accepted : ErClientConfig → RouterRpcRoute → Resolved (Url × ℕ)
  accepted cfg chosen = elim (parse chosen.fqdn) [
    | none ↦ err invalid_url
    | some endpoint ↦
        if is_http endpoint.scheme
        then ok (endpoint, route_ttl chosen.ttl_ms cfg.route_cache_ttl)
        else err unsupported_scheme
  ]

  abbrev first_route : ErClientConfig → List RouterRpcRoute → Resolved (Url × ℕ)
  first_route cfg [] = err no_private_routes
  first_route cfg (chosen ∷ routes) = accepted cfg chosen

  -- The choice of `fetch_route_from_router` among the routes that the router names.
  unfoldable pub choose_route : ErClientConfig → List RouterRpcRoute → Resolved (Url × ℕ)
  unfolding matches_privacy
  choose_route cfg [] = err no_routes
  choose_route cfg (r ∷ routes) =
      first_route cfg (sort_by by_fqdn (select (matches_privacy cfg.privacy_mode) (r ∷ routes)))

  -- `answer` is none when the request fails or its payload has no routes; the route is stamped at `now`.
  unfoldable pub fetch_route_from_router :
      ErClientConfig → Option (List RouterRpcRoute) → ℕ → Resolved CachedRoute
  unfolding choose_route
  fetch_route_from_router cfg none now = err request_failed
  fetch_route_from_router cfg (some routes) now = stamped now (choose_route cfg routes)

  -- The call looks at the cache at `now`; a request that it makes is answered at `later`.
  unfoldable pub resolve_route :
      ErClientConfig
      → (now later : ℕ) → Option (List RouterRpcRoute)
      → Option CachedRoute
      → Resolved ErRouteInfo × Option CachedRoute
  unfolding cached_route fetch_route_from_router
  resolve_route cfg now later answer cache = elim cfg.endpoint_override [
    | some override_url ↦ (
      ok record {
        endpoint = override_url;
        ttl = cfg.route_cache_ttl;
        fetched_at = now;
        cache_hit = false;
      },
      cache,
    )
    | none ↦ resolved (fetch_route_from_router cfg answer later) (cached_route now cache)
  ]
