-- ===== src/Alt.antt =====
-- bundler/src/alt.rs, alt/table_catalog.rs and serializer/precheck.rs: which keys are offloaded to address
-- lookup tables, and the tables that hold them. The `HashMap` of key usages is the list of its
-- entries in the order of first use; `i64` costs are compared without their common subtraction.
pub mod Cache
pub mod Catalog
pub mod Usage
pub mod Offload
pub mod Precheck
use cpsr_lite.Prelude.{
  ℕ, zero, suc, ◌+◌, ◌-◌, ◌*◌, Bool, true, false, ◌&&◌, ◌||◌, not, Option, none, some, List, [],
  ◌∷◌, ◌++◌, length, leb, ltb, ◌==◌, if◌then◌else◌, select, is_empty, map,
}
use cpsr_lite.Prelude.Words.{sat_add32}
use cpsr_lite.Prelude.Sets.{insert_set, contains}
use cpsr_lite.Prelude.Sort.{sort_by}
use cpsr_lite.Types.{Pubkey, AccountMeta, UserIntent}
use cpsr_lite.Chunking.{AltPolicy}

pub record Table : Type 0 where
  pub key : Pubkey
  pub addresses : List Pubkey

pub record TableCatalog : Type 0 where
  pub tables : List Table
  pub reverse : List (Pubkey × (Pubkey × ℕ))

-- `HashMap::insert` hides what was there: the latest entry comes first.
index_addresses :
    Pubkey → ℕ → List Pubkey → List (Pubkey × (Pubkey × ℕ)) → List (Pubkey × (Pubkey × ℕ))
index_addresses table i [] reverse = reverse
index_addresses table i (pk ∷ rest) reverse =
    let more = index_addresses table (suc i) rest ((pk, (table, i)) ∷ reverse) in
    if leb 255 i then reverse else more

index_tables : List Table → List (Pubkey × (Pubkey × ℕ)) → List (Pubkey × (Pubkey × ℕ))
unfolding index_addresses
index_tables [] reverse = reverse
index_tables (t ∷ tables) reverse =
    index_tables tables (index_addresses t.key 0 t.addresses reverse)

unfoldable pub from_tables : List Table → TableCatalog
unfolding index_tables
from_tables tables = record { tables = tables; reverse = index_tables tables [] }

abbrev pub find : Pubkey → List (Pubkey × (Pubkey × ℕ)) → Option (Pubkey × ℕ)
find k [] = none
find k ((j, e) ∷ rest) = let more = find k rest in if k == j then some e else more

unfoldable pub lookup : TableCatalog → Pubkey → Option (Pubkey × ℕ)
lookup self key = find key self.reverse

collect_tables : TableCatalog → List Pubkey → List Pubkey × List Pubkey → List Pubkey × List Pubkey
unfolding lookup insert_set
collect_tables self [] found = found
collect_tables self (k ∷ desired) found = elim (lookup self k) [
  | none ↦ collect_tables self desired found
  | some e ↦ collect_tables self desired (insert_set e.0 found.0, found.1 ++ k ∷ [])
]

unfoldable pub tables_for : TableCatalog → List Pubkey → List Table × List Pubkey
unfolding collect_tables
tables_for self desired =
    let found = collect_tables self desired ([], []) in
    if is_empty found.0
    then ([], [])
    else (select (λ t. contains found.0 t.key) self.tables, found.1)

-- `serializer::precheck`: the first table that is empty, or repeats an address.
pub data AltError : Type 0 where
  no_addresses : (index : ℕ) (table : Pubkey) → AltError
  duplicate_address : (table address : Pubkey) → AltError

abbrev first_duplicate : List Pubkey → List Pubkey → Option Pubkey
first_duplicate seen [] = none
first_duplicate seen (pk ∷ rest) =
    let more = first_duplicate (insert_set pk seen) rest in
    if contains seen pk then some pk else more

abbrev validate_from : ℕ → List Table → Option AltError
validate_from i [] = none
validate_from i (t ∷ tables) =
    let rest = validate_from (suc i) tables in
    if is_empty t.addresses
    then some (no_addresses i t.key)
    else elim (first_duplicate [] t.addresses) [
      | none ↦ rest
      | some pk ↦ some (duplicate_address t.key pk)
    ]

unfoldable pub validate_alt_resolution : List Table → Option AltError
unfolding insert_set
validate_alt_resolution tables = validate_from 0 tables

unfoldable pub prune_empty_tables : List Table → List Table
prune_empty_tables tables = select (λ t. not (is_empty t.addresses)) tables

-- `HashMap<Pubkey, KeyUsage>` is a list of its values. Its iteration, `visit`, is a parameter: it puts them into an order that may differ
-- from call to call.
pub record KeyUsage : Type 0 where
  pub pubkey : Pubkey
  pub writable : Bool
  pub signer : Bool
  pub freq : ℕ

pub use_key : AccountMeta → List KeyUsage → List KeyUsage
use_key m [] =
    record { pubkey = m.pubkey; writable = m.is_writable; signer = m.is_signer; freq = 1 } ∷ []
use_key m (u ∷ us) =
    let rest = use_key m us in
    if u.pubkey == m.pubkey
    then record {
      pubkey = u.pubkey;
      writable = u.writable || m.is_writable;
      signer = u.signer || m.is_signer;
      freq = sat_add32 u.freq 1;
    }
      ∷ us
    else u ∷ rest

pub use_keys : List AccountMeta → List KeyUsage → List KeyUsage
unfolding use_key
use_keys [] us = us
use_keys (m ∷ ms) us = use_keys ms (use_key m us)

pub use_intents : List UserIntent → List KeyUsage → List KeyUsage
unfolding use_keys
use_intents [] us = us
use_intents (i ∷ is) us = use_intents is (use_keys i.ix.accounts us)

unfoldable pub build_key_usage : Pubkey → List UserIntent → List KeyUsage
unfolding use_intents
build_key_usage payer intents = select (λ u. not (u.pubkey == payer)) (use_intents intents [])

-- `key_cost(a) ≥ key_cost(b)`
abbrev costs_as_much : ℕ → KeyUsage → KeyUsage → Bool
costs_as_much per_index a b =
    leb (32 * b.freq + (if b.writable then 8 else 0) + per_index * a.freq)
      (32 * a.freq + (if a.writable then 8 else 0) + per_index * b.freq)

abbrev pub drop : ℕ → List KeyUsage → List KeyUsage
drop zero us = us
drop (suc n) [] = []
drop (suc n) (u ∷ us) = drop n us

abbrev pub take : ℕ → List KeyUsage → List KeyUsage
take zero us = []
take (suc n) [] = []
take (suc n) (u ∷ us) = u ∷ take n us

-- The keys that `compute_offload_plan` moves to tables: none where it bails out.
unfoldable pub select_offload :
    (List KeyUsage → List KeyUsage) → AltPolicy → Pubkey → List UserIntent → List KeyUsage
unfolding build_key_usage
select_offload visit policy payer intents =
    let usage = visit (build_key_usage payer intents) in
    let must_keep = length (select (λ u. u.signer) usage) in
    let entries = select (λ u. not u.signer) usage in
    let reserved_slots = policy.reserve_message_keys - must_keep in
    let sorted = sort_by (costs_as_much policy.per_alt_index_byte) entries in
    if not policy.enabled
    then []
    else if leb policy.reserve_message_keys must_keep
    then []
    else if leb (length entries) reserved_slots
    then []
    else take policy.max_alt_keys (drop reserved_slots sorted)

unfoldable pub estimate_saved_bytes : AltPolicy → List KeyUsage → ℕ
estimate_saved_bytes policy offload =
    32 * length offload
    - (policy.per_alt_index_byte * length offload + policy.per_table_fixed_bytes)

pub record AltUsageStats : Type 0 where
  pub keys_offloaded : ℕ
  pub readonly_offloaded : ℕ
  pub writable_offloaded : ℕ
  pub estimated_saved_bytes : ℕ

-- The statistics of a resolution through the catalog.
unfoldable pub catalog_stats : AltPolicy → List KeyUsage → List Pubkey → AltUsageStats
unfolding estimate_saved_bytes
catalog_stats policy offload resolvable =
    let kept = select (λ u. contains resolvable u.pubkey) offload in
    record {
      keys_offloaded = length resolvable;
      readonly_offloaded = length (select (λ u. not u.writable) kept);
      writable_offloaded = length (select (λ u. u.writable) kept);
      estimated_saved_bytes = estimate_saved_bytes policy kept;
    }
