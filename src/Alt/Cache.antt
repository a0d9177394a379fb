-- ===== src/Alt/Cache.antt =====
-- bundler/src/alt.rs: the resolutions of the caching manager, its cache and its metrics. The clock, BLAKE3 and the bytes of a key are
-- parameters. A new entry of the `HashMap` hides what was there under its key.
pub mod Coherence
use cpsr_lite.Prelude.{
  ℕ, ◌+◌, ◌-◌, Bool, true, false, ◌||◌, not, Option, none, some, List, [], ◌∷◌, ◌++◌, length, leb,
  ltb, if◌then◌else◌, select, is_empty, map,
}
use cpsr_lite.Prelude.Words.{add64}
use cpsr_lite.Prelude.Text.{same_text}
use cpsr_lite.Prelude.Sort.{sort_by}
use cpsr_lite.Types.{Pubkey, UserIntent}
use cpsr_lite.Chunking.{AltPolicy}
use cpsr_lite.Alt.{
  Table, TableCatalog, tables_for, KeyUsage, build_key_usage, select_offload, estimate_saved_bytes,
  AltUsageStats, catalog_stats,
}

pub record Resolution : Type 0 where
  pub tables : List Table
  pub stats : AltUsageStats
  pub cache_hit : Bool

unfoldable pub no_resolution : Resolution
no_resolution = record {
  tables = [];
  stats = record {
    keys_offloaded = 0;
    readonly_offloaded = 0;
    writable_offloaded = 0;
    estimated_saved_bytes = 0;
  };
  cache_hit = false;
}

pub record CacheEntry : Type 0 where
  pub resolution : Resolution
  pub expires_at : ℕ

abbrev pub Cache : Type 0
Cache = List (List ℕ × CacheEntry)

abbrev pub get : List ℕ → Cache → Option CacheEntry
get k [] = none
get k ((j, e) ∷ cache) = let rest = get k cache in if same_text k j then some e else rest

abbrev pub remove : List ℕ → Cache → Cache
remove k cache = select (λ e. not (same_text k e.0)) cache

pub record AltMetrics : Type 0 where
  pub total_resolutions : ℕ
  pub cache_hits : ℕ
  pub keys_offloaded : ℕ
  pub readonly_offloaded : ℕ
  pub writable_offloaded : ℕ
  pub estimated_saved_bytes : ℕ

pub record CachingAltManager : Type 0 where
  pub policy : AltPolicy
  pub ttl : ℕ
  pub catalog : Option TableCatalog

unfoldable pub with_catalog : TableCatalog → CachingAltManager → CachingAltManager
with_catalog catalog self = record self { catalog = some catalog }

-- The cache and the metrics.
pub record AltState : Type 0 where
  pub cache : Cache
  pub metrics : AltMetrics

unfoldable pub new_state : AltState
new_state = record {
  cache = [];
  metrics = record {
    total_resolutions = 0;
    cache_hits = 0;
    keys_offloaded = 0;
    readonly_offloaded = 0;
    writable_offloaded = 0;
    estimated_saved_bytes = 0;
  };
}

-- The keys to offload, unless the plan bails out. With `max_alt_keys` at 0 it does not, and offloads no key.
unfoldable pub offload_plan :
    (List KeyUsage → List KeyUsage) → AltPolicy → Pubkey → List UserIntent → Option (List KeyUsage)
unfolding build_key_usage select_offload
offload_plan visit policy payer intents =
    let usage = visit (build_key_usage payer intents) in
    let must_keep = length (select (λ u. u.signer) usage) in
    let entries = select (λ u. not u.signer) usage in
    if not policy.enabled
      || leb policy.reserve_message_keys must_keep
      || leb (length entries) (policy.reserve_message_keys - must_keep)
    then none
    else some (select_offload visit policy payer intents)

abbrev by_key : KeyUsage → KeyUsage → Bool
by_key a b = leb a.pubkey b.pubkey

abbrev pub mark : Bool → ℕ
mark writable = if writable then 1 else 0

-- `usize` and `u64` sums.
abbrev count_resolution : Resolution → AltMetrics → AltMetrics
count_resolution r m = record {
  total_resolutions = add64 m.total_resolutions 1;
  cache_hits = if r.cache_hit then add64 m.cache_hits 1 else m.cache_hits;
  keys_offloaded = add64 m.keys_offloaded r.stats.keys_offloaded;
  readonly_offloaded = add64 m.readonly_offloaded r.stats.readonly_offloaded;
  writable_offloaded = add64 m.writable_offloaded r.stats.writable_offloaded;
  estimated_saved_bytes = add64 m.estimated_saved_bytes r.stats.estimated_saved_bytes;
}

-- `of_bytes` is the key that its bytes spell.
module _ (key_bytes : Pubkey → List ℕ) (of_bytes : List ℕ → Pubkey) (blake3 : List ℕ → List ℕ) where
  unfoldable pub cache_key : List KeyUsage → List ℕ
  cache_key [] = []
  cache_key (u ∷ us) = key_bytes u.pubkey ++ mark u.writable ∷ cache_key us

  unfoldable pub joined_keys : List Pubkey → List ℕ
  joined_keys [] = []
  joined_keys (k ∷ ks) = key_bytes k ++ joined_keys ks

  unfoldable pub derive_table_key : List Pubkey → Pubkey
  unfolding joined_keys
  derive_table_key addresses = of_bytes (blake3 (joined_keys addresses))

  -- One table made up for the keys.
  unfoldable pub synthetic : AltPolicy → List KeyUsage → Resolution
  unfolding derive_table_key estimate_saved_bytes
  synthetic policy offload =
      let addresses = map (λ u. u.pubkey) offload in
      record {
        tables = record { key = derive_table_key addresses; addresses = addresses } ∷ [];
        stats = record {
          keys_offloaded = length addresses;
          readonly_offloaded = length (select (λ u. not u.writable) offload);
          writable_offloaded = length (select (λ u. u.writable) offload);
          estimated_saved_bytes = estimate_saved_bytes policy offload;
        };
        cache_hit = false;
      }

  abbrev pub new_entry : CachingAltManager → ℕ → Resolution → CacheEntry
  new_entry self now r = record { resolution = r; expires_at = now + self.ttl }

  -- Without a catalog, for keys in order. The look and the insert are at one time.
  unfoldable pub resolve_synthetic :
      CachingAltManager → ℕ → List KeyUsage → Cache → Resolution × Cache
  unfolding cache_key synthetic
  resolve_synthetic self now offload cache =
      let k = cache_key offload in
      let r = synthetic self.policy offload in
      elim (get k cache) [
        | none ↦ (r, (k, new_entry self now r) ∷ cache)
        | some entry ↦
            if ltb now entry.expires_at
            then (record entry.resolution { cache_hit = true }, cache)
            else (r, (k, new_entry self now r) ∷ remove k cache)
      ]

  unfoldable pub resolve_catalog :
      CachingAltManager → TableCatalog → ℕ → List KeyUsage → Cache → Resolution × Cache
  unfolding tables_for catalog_stats joined_keys no_resolution
  resolve_catalog self catalog now offload cache =
      let (tables, resolvable) = tables_for catalog (map (λ u. u.pubkey) offload) in
      let r : Resolution = record {
        tables = tables;
        stats = catalog_stats self.policy offload resolvable;
        cache_hit = false;
      } in
      if is_empty tables || is_empty resolvable
      then (no_resolution, cache)
      else (r, (joined_keys (sort_by leb resolvable), new_entry self now r) ∷ cache)

  abbrev pub resolve_by :
      CachingAltManager → Option TableCatalog → ℕ → List KeyUsage → Cache → Resolution × Cache
  resolve_by self (some catalog) now offload cache = resolve_catalog self catalog now offload cache
  resolve_by self none now offload cache = resolve_synthetic self now (sort_by by_key offload) cache

  unfoldable pub compute_offload_plan :
      CachingAltManager
      → (List KeyUsage → List KeyUsage)
      → ℕ
      → Pubkey
      → List UserIntent
      → Cache
      → Resolution × Cache
  unfolding offload_plan resolve_synthetic resolve_catalog no_resolution
  compute_offload_plan self visit now payer intents cache =
      elim (offload_plan visit self.policy payer intents) [
        | none ↦ (no_resolution, cache)
        | some offload ↦ resolve_by self self.catalog now offload cache
      ]

  unfoldable pub resolve_tables :
      CachingAltManager
      → (List KeyUsage → List KeyUsage)
      → ℕ
      → Pubkey
      → List UserIntent
      → AltState
      → Resolution × AltState
  unfolding compute_offload_plan
  resolve_tables self visit now payer intents s =
      let (r, cache) = compute_offload_plan self visit now payer intents s.cache in
      (r, record { cache = cache; metrics = count_resolution r s.metrics })
