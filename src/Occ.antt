-- ===== src/Occ.antt =====
-- bundler/src/occ/mod.rs: the capture of account versions, with retries.
-- The fetcher is a parameter that may answer each attempt in its own way; BLAKE3 is one too. Sleeping is
-- the list of the delays, and the jitter of an attempt is a parameter. `usize` counts are in ℕ.
pub mod Targets
pub mod Errors
pub mod Snapshots
pub mod Retries
pub mod RpcFetcher
use cpsr_lite.Prelude.{
  ℕ, zero, suc, ◌+◌, ◌-◌, ◌*◌, Bool, true, false, ◌&&◌, ◌||◌, Option, none, some, List, [], ◌∷◌,
  ◌++◌, min, max, ltb, leb, ◌==◌, if◌then◌else◌, is_empty, not,
}
use cpsr_lite.Prelude.Words.{add64, sat_mul64}
use cpsr_lite.Prelude.Sets.{insert_set}
use cpsr_lite.Prelude.Text.{codes, to_ascii_lowercase, contains_text}
use cpsr_lite.Types.{Pubkey, AccountAccess, UserIntent}
use cpsr_lite.Types.Access.{is_writable_kind}
use cpsr_lite.Types.Version.{AccountVersion}

pub record FetchedAccount : Type 0 where
  pub key : Pubkey
  pub lamports : ℕ
  pub owner : Pubkey
  pub bytes : List ℕ
  pub slot : ℕ

pub record OccConfig : Type 0 where
  pub max_slot_drift : ℕ
  pub max_retries : ℕ
  pub backoff_ms : ℕ
  pub include_readonly : Bool

abbrev pub default_config : OccConfig
default_config = record {
  max_slot_drift = 20;
  max_retries = 4;
  backoff_ms = 80;
  include_readonly = true;
}

abbrev pub Message : Type 0
Message = List ℕ

pub data OccError : Type 0 where
  rpc : Message → OccError
  missing_account : Pubkey → OccError
  unauthorized : Message → OccError
  slot_drift : (lowest highest drift allowed : ℕ) → OccError
  retries_exhausted : OccError

-- `Result<_, OccError>`
pub data Result (A : Type 0) : Type 0 where
  ok : A → Result A
  err : OccError → Result A

pub data Class : Type 0 where
  fatal retriable : Class

abbrev pub names_authorization : Message → Bool
names_authorization m =
    contains_text (codes "unauthorized") m
    || contains_text (codes "forbidden") m
    || contains_text (codes "permission denied") m
    || contains_text (codes "access denied") m

abbrev pub names_missing_account : Message → Bool
names_missing_account m =
    contains_text (codes "account not found") m
    || contains_text (codes "could not find account") m
    || contains_text (codes "no such account") m

unfoldable pub classify_rpc_message : Message → Class
classify_rpc_message msg =
    let m = to_ascii_lowercase msg in
    if names_authorization m then fatal else if names_missing_account m then fatal else retriable

abbrev pub is_fatal_class : Class → Bool
is_fatal_class fatal = true
is_fatal_class retriable = false

unfoldable pub is_fatal : OccError → Bool
unfolding classify_rpc_message
is_fatal (missing_account k) = true
is_fatal (unauthorized m) = true
is_fatal retries_exhausted = true
is_fatal (slot_drift _ _ _ _) = false
is_fatal (rpc msg) = is_fatal_class (classify_rpc_message msg)

unfoldable pub map_rpc_variant : OccError → OccError
unfolding classify_rpc_message
map_rpc_variant (rpc msg) =
    if is_fatal_class (classify_rpc_message msg) && names_authorization (to_ascii_lowercase msg)
    then unauthorized msg
    else rpc msg
map_rpc_variant (missing_account k) = missing_account k
map_rpc_variant (unauthorized m) = unauthorized m
map_rpc_variant (slot_drift l h d a) = slot_drift l h d a
map_rpc_variant retries_exhausted = retries_exhausted

pub record OccSnapshot : Type 0 where
  pub versions : List AccountVersion
  pub min_slot : ℕ
  pub max_slot : ℕ

-- `u64` subtraction; in a snapshot the maximum is at least the minimum.
unfoldable pub within_drift : OccSnapshot → ℕ → Bool
within_drift snap max_drift = leb (snap.max_slot - snap.min_slot) max_drift

collect_accesses : List AccountAccess → Bool → List Pubkey → List Pubkey
unfolding insert_set
collect_accesses [] include_readonly keys = keys
collect_accesses (acc ∷ rest) include_readonly keys =
    collect_accesses rest include_readonly
      (if is_writable_kind acc.access || include_readonly then insert_set acc.pubkey keys else keys)

collect_intents : List UserIntent → Bool → List Pubkey → List Pubkey
unfolding collect_accesses
collect_intents [] include_readonly keys = keys
collect_intents (intent ∷ rest) include_readonly keys =
    collect_intents rest include_readonly (collect_accesses intent.accesses include_readonly keys)

unfoldable pub collect_target_accounts : List UserIntent → Bool → List Pubkey
unfolding collect_intents
collect_target_accounts intents include_readonly = collect_intents intents include_readonly []

-- `OccMetrics`, and the delays slept so far.
pub record Log : Type 0 where
  pub captures : ℕ
  pub retries : ℕ
  pub slot_drift_rejects : ℕ
  pub rpc_errors : ℕ
  pub slept : List ℕ

-- `HashMap::get`
abbrev pub lookup : Pubkey → List (Pubkey × FetchedAccount) → Option FetchedAccount
lookup k [] = none
lookup k ((j, fa) ∷ m) = let rest = lookup k m in if k == j then some fa else rest

-- `u64::from_le_bytes` of the first eight bytes.
abbrev le_value : ℕ → List ℕ → ℕ
le_value zero bs = 0
le_value (suc n) [] = 0
le_value (suc n) (b ∷ bs) = b + 256 * le_value n bs

-- `backoff_ms.saturating_mul(2).min(5_000)`
abbrev next_backoff : ℕ → ℕ
next_backoff backoff_ms = min (sat_mul64 backoff_ms 2) 5_000

-- What a round of the loop does with the outcome of its capture: it returns, or it retries.
pub data Verdict : Type 0 where
  settled : Result OccSnapshot → Verdict
  retry : Verdict

unfoldable pub verdict : OccConfig → ℕ → Result OccSnapshot → Verdict
unfolding map_rpc_variant is_fatal within_drift
verdict cfg attempt (ok snap) =
    if within_drift snap cfg.max_slot_drift
    then settled (ok snap)
    else if leb cfg.max_retries attempt
    then settled (
        err (
          slot_drift snap.min_slot snap.max_slot (snap.max_slot - snap.min_slot)
            cfg.max_slot_drift))
    else retry
verdict cfg attempt (err e0) =
    let e = map_rpc_variant e0 in
    if is_fatal e
    then settled (err e)
    else if leb cfg.max_retries attempt
    then settled (err retries_exhausted)
    else retry

abbrev count_attempt : OccConfig → Result OccSnapshot → Log → Log
count_attempt cfg (ok snap) log = record log {
  captures = add64 log.captures 1;
  slot_drift_rejects =
      if within_drift snap cfg.max_slot_drift
      then log.slot_drift_rejects
      else add64 log.slot_drift_rejects 1;
}
count_attempt cfg (err e) log = record log {
  captures = add64 log.captures 1;
  rpc_errors = add64 log.rpc_errors 1;
}

abbrev count_retry : ℕ → Log → Log
count_retry delay log = record log {
  retries = add64 log.retries 1;
  slept = log.slept ++ delay ∷ [];
}

abbrev after_verdict :
    Verdict → Log → Option (Result OccSnapshot) × Log → Option (Result OccSnapshot) × Log
after_verdict (settled r) log rest = (some r, log)
after_verdict retry log rest = rest

-- `fetch_many`, at each attempt.
abbrev pub Fetcher : Type 0
Fetcher = ℕ → List Pubkey → Result (List (Pubkey × FetchedAccount))

module _ (blake3 : List ℕ → List ℕ) where
  unfoldable pub data_hash64 : List ℕ → ℕ
  data_hash64 bytes = le_value 8 (blake3 bytes)

  abbrev pub version_of : FetchedAccount → AccountVersion
  version_of fa = record {
    key = fa.key;
    lamports = fa.lamports;
    owner = fa.owner;
    data_hash64 = data_hash64 fa.bytes;
    slot = fa.slot;
  }

  -- The loop of `capture_once`, from the versions and the extreme slots so far.
  unfoldable pub capture_keys :
      List (Pubkey × FetchedAccount) → List Pubkey → OccSnapshot → Result OccSnapshot
  capture_keys m [] snap = ok snap
  capture_keys m (key ∷ targets) snap = elim (lookup key m) [
    | none ↦ err (missing_account key)
    | some fa ↦ capture_keys m targets record {
      versions = snap.versions ++ version_of fa ∷ [];
      min_slot = min snap.min_slot fa.slot;
      max_slot = max snap.max_slot fa.slot;
    }
  ]

  abbrev empty_snapshot : OccSnapshot
  empty_snapshot = record { versions = []; min_slot = 0xffff_ffff_ffff_ffff; max_slot = 0 }

  abbrev captured : List Pubkey → Result (List (Pubkey × FetchedAccount)) → Result OccSnapshot
  captured targets (ok m) = capture_keys m targets empty_snapshot
  captured targets (err e) = err e

  -- The call of attempt `attempt`.
  unfoldable pub capture_once : Fetcher → ℕ → List Pubkey → Result OccSnapshot
  capture_once fetch_many attempt targets = captured targets (fetch_many attempt targets)

module _ (blake3 : List ℕ → List ℕ) (fetch_many : Fetcher) (jitter : ℕ → ℕ) where
  -- The loop, at the round of attempt `attempt`; `none` if the fuel is spent.
  unfoldable pub capture_loop :
      ℕ → ℕ → ℕ → OccConfig → List Pubkey → Log → Option (Result OccSnapshot) × Log
  unfolding verdict
  capture_loop zero attempt backoff_ms cfg targets log = (none, log)
  capture_loop (suc fuel) attempt backoff_ms cfg targets log =
      let result = capture_once blake3 fetch_many attempt targets in
      let counted = count_attempt cfg result log in
      let rest =
        capture_loop fuel (suc attempt) (next_backoff backoff_ms) cfg targets
          (count_retry (backoff_ms + jitter attempt) counted) in
      after_verdict (verdict cfg attempt result) counted rest

  -- A round at attempt `max_retries` or later does not retry, so this fuel is enough.
  unfoldable pub capture_with_targets :
      OccConfig → List Pubkey → Log → Option (Result OccSnapshot) × Log
  capture_with_targets cfg targets log =
      let run = capture_loop (max cfg.max_retries 1) 1 (max cfg.backoff_ms 1) cfg targets log in
      if is_empty targets
      then (some (ok record { versions = []; min_slot = 0; max_slot = 0 }), log)
      else run

  unfoldable pub capture_occ_with_retries :
      OccConfig → List UserIntent → Log → Option (Result OccSnapshot) × Log
  unfolding capture_with_targets collect_target_accounts
  capture_occ_with_retries cfg intents log =
      capture_with_targets cfg (collect_target_accounts intents cfg.include_readonly) log

  unfoldable pub capture_occ_with_retries_on_keys :
      OccConfig → List Pubkey → Log → Option (Result OccSnapshot) × Log
  unfolding capture_with_targets
  capture_occ_with_retries_on_keys cfg accounts log = capture_with_targets cfg accounts log
