-- ===== src/Er.antt =====
-- bundler/src/er/mod.rs: the client of the ephemeral rollup's router. HTTP, JSON, the clock and the random numbers are
-- parameters: a reply is given by the parts that the code reads. Messages of errors that are only shown are left out.
pub mod Breaker
pub mod Requests
pub mod Routes
pub mod Execute
pub mod Submit
pub mod Bhfa
use cpsr_lite.Prelude.{
  ℕ, Bool, true, false, ◌&&◌, Option, none, some, List, [], ◌∷◌, ◌==◌, if◌then◌else◌,
}
pub use cpsr_lite.Prelude.Text.{same_text}
use cpsr_lite.Types.{Pubkey}

-- A URL, by the parts that make its origin, and the rest of its text.
pub record Url : Type 0 where
  pub scheme : List ℕ
  pub host_str : Option (List ℕ)
  pub port_or_known_default : Option ℕ
  pub path : List ℕ

abbrev pub same_host : Option (List ℕ) → Option (List ℕ) → Bool
same_host none none = true
same_host (some a) (some b) = same_text a b
same_host _ _ = false

abbrev pub same_port : Option ℕ → Option ℕ → Bool
same_port none none = true
same_port (some a) (some b) = a == b
same_port _ _ = false

unfoldable pub same_origin : Url → Url → Bool
same_origin a b =
    same_text a.scheme b.scheme
    && same_host a.host_str b.host_str
    && same_port a.port_or_known_default b.port_or_known_default

pub data ErPrivacyMode : Type 0 where
  public_mode private_mode : ErPrivacyMode

-- Durations are in the clock's ticks.
pub record ErClientConfig : Type 0 where
  pub endpoint_override : Option Url
  pub retries : ℕ
  pub privacy_mode : ErPrivacyMode
  pub router_url : Url
  pub router_api_key : Option (List ℕ)
  pub route_cache_ttl : ℕ
  pub circuit_breaker_failures : ℕ
  pub circuit_breaker_cooldown : ℕ
  pub require_router : Bool
  pub wiretap_verify_blockhash : Bool
  pub skip_preflight_on_router : Bool
  pub skip_preflight_on_override : Bool

pub record ErHosts : Type 0 where
  pub bhfa : Url
  pub submit : Url

unfoldable pub resolve_hosts : ErClientConfig → ErHosts
resolve_hosts cfg = elim cfg.endpoint_override [
  | some override_url ↦ record { bhfa = cfg.router_url; submit = override_url }
  | none ↦ record { bhfa = cfg.router_url; submit = cfg.router_url }
]

pub data RouterErrorKind : Type 0 where
  timeout dns tls connect request other : RouterErrorKind

-- `Result<_, RouterRequestError>`, an error given by its kind.
pub data Answer (A : Type 0) : Type 0 where
  ok : A → Answer A
  err : RouterErrorKind → Answer A
