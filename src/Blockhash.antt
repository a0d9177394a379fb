-- ===== src/Blockhash.antt =====
-- bundler/src/pipeline/blockhash.rs: the lease manager, shared by concurrent callers.
-- A call of `lease` is a task that moves from one critical section to the next, and each move is one
-- step: between two of them another task, or `record_outcome` or `mark_layer_boundary`, may run. Time
-- is in milliseconds. No mutex is poisoned: nothing panics while it holds one.
pub mod Exclusion
pub mod Caller
pub mod Progress
pub mod Hazards
use cpsr_lite.Prelude.{
  ℕ, suc, ◌+◌, ◌-◌, Bool, true, false, ◌&&◌, Option, none, some, List, [], ◌∷◌, ltb, leb, ◌==◌,
  if◌then◌else◌, get_elem?, set,
}
use cpsr_lite.Prelude.Words.{sat_add32, add64}

pub data RefreshReason : Type 0 where
  initial manual age_exceeded quota layer_boundary validation_failed : RefreshReason

pub record BlockhashLease : Type 0 where
  pub hash : ℕ
  pub last_valid_block_height : ℕ
  pub fetched_at : ℕ
  pub refresh_reason : RefreshReason

pub data LeaseOutcome : Type 0 where
  success stale_detected : LeaseOutcome

pub record BlockhashPolicy : Type 0 where
  pub max_age : ℕ
  pub refresh_every : ℕ

abbrev pub default_policy : BlockhashPolicy
default_policy = record { max_age = 8_000; refresh_every = 16 }

pub record BlockhashMetrics : Type 0 where
  pub refresh_initial : ℕ
  pub refresh_manual : ℕ
  pub refresh_age : ℕ
  pub refresh_quota : ℕ
  pub refresh_layer : ℕ
  pub refresh_validation : ℕ
  pub leases_issued : ℕ
  pub stale_detected_count : ℕ

pub record BlockhashState : Type 0 where
  pub lease : BlockhashLease
  pub uses_since_refresh : ℕ

-- What the tasks share: `BlockhashInner`, the metrics and the flag.
pub record Shared : Type 0 where
  pub current : Option BlockhashState
  pub pending_refresh : Option RefreshReason
  pub metrics : BlockhashMetrics
  pub refresh_in_flight : Bool

-- The constants of a manager: its policy, with `refresh_every` at least 1, and `pre_check`.
pub record Settings : Type 0 where
  pub policy : BlockhashPolicy
  pub pre_check : Bool

unfoldable pub new_settings : BlockhashPolicy → Bool → Settings
new_settings policy pre_check = record {
  policy = record policy {
    refresh_every = if policy.refresh_every == 0 then 1 else policy.refresh_every;
  };
  pre_check = pre_check;
}

abbrev pub no_metrics : BlockhashMetrics
no_metrics = record {
  refresh_initial = 0;
  refresh_manual = 0;
  refresh_age = 0;
  refresh_quota = 0;
  refresh_layer = 0;
  refresh_validation = 0;
  leases_issued = 0;
  stale_detected_count = 0;
}

abbrev pub new_shared : Shared
new_shared = record {
  current = none;
  pending_refresh = some initial;
  metrics = no_metrics;
  refresh_in_flight = false;
}

-- What the world answers during a step: the clock, `getLatestBlockhash` and `isBlockhashValid`,
-- each `none` where the RPC fails.
pub record Answers : Type 0 where
  pub now : ℕ
  pub latest : Option (ℕ × ℕ)
  pub valid : Option Bool

unfoldable pub check_policy : BlockhashPolicy → ℕ → BlockhashState → Option RefreshReason
check_policy policy now state =
    if ltb 0 policy.max_age && ltb policy.max_age (now - state.lease.fetched_at)
    then some age_exceeded
    else if leb policy.refresh_every state.uses_since_refresh
    then some quota
    else none

unfoldable pub bump_refresh_metric : RefreshReason → BlockhashMetrics → BlockhashMetrics
bump_refresh_metric initial m = record m { refresh_initial = add64 m.refresh_initial 1 }
bump_refresh_metric manual m = record m { refresh_manual = add64 m.refresh_manual 1 }
bump_refresh_metric age_exceeded m = record m { refresh_age = add64 m.refresh_age 1 }
bump_refresh_metric quota m = record m { refresh_quota = add64 m.refresh_quota 1 }
bump_refresh_metric layer_boundary m = record m { refresh_layer = add64 m.refresh_layer 1 }
bump_refresh_metric validation_failed m = record m {
  refresh_validation = add64 m.refresh_validation 1;
}

-- Where a task stands in `lease`.
pub data Task : Type 0 where
  deciding : Task
  wanting : RefreshReason → Task
  fetching : RefreshReason → Task
  installing : BlockhashLease → Task
  releasing : Task
  failing : Task
  issuing : Task
  checking : BlockhashLease → Task
  invalidating : Task
  granting : BlockhashLease → Task
  returned : BlockhashLease → Task
  failed : Task

-- The placeholder of the branch where no state is left: `Hash::default()`.
abbrev pub default_lease : ℕ → BlockhashLease
default_lease now = record {
  hash = 0;
  last_valid_block_height = 0;
  fetched_at = now;
  refresh_reason = initial;
}

abbrev judged : Shared → Option RefreshReason → Shared × Task
judged sh (some reason) = (sh, wanting reason)
judged sh none = (sh, issuing)

module _ (s : Settings) (a : Answers) where
  -- `need_refresh`, in the first critical section.
  unfoldable pub decide : Shared → Shared × Task
  decide sh = elim sh.pending_refresh [
    | some reason ↦ (record sh { pending_refresh = none }, wanting reason)
    | none ↦ elim sh.current [
      | none ↦ (sh, wanting initial)
      | some state ↦ judged sh (check_policy s.policy a.now state)
    ]
  ]

  unfoldable pub fetch : RefreshReason → Shared → Shared × Task
  unfolding bump_refresh_metric
  fetch reason sh = elim a.latest [
    | none ↦ (sh, failing)
    | some p ↦ (
      record sh { metrics = bump_refresh_metric reason sh.metrics },
      installing record {
        hash = p.0;
        last_valid_block_height = p.1;
        fetched_at = a.now;
        refresh_reason = reason;
      },
    )
  ]

  unfoldable pub issue : Shared → Shared × Task
  issue sh = elim sh.current [
    | none ↦ (record sh { pending_refresh = some initial }, granting (default_lease a.now))
    | some state ↦
        let uses = sat_add32 state.uses_since_refresh 1 in
        (
          record sh { current = some (record state { uses_since_refresh = uses }) },
          if s.pre_check && ltb 1 uses then checking state.lease else granting state.lease,
        )
  ]

  unfoldable pub check : BlockhashLease → Task
  check lease = elim a.valid [
    | none ↦ failed
    | some valid ↦ if valid then granting lease else invalidating
  ]

  -- One step of a task. One that has returned stays.
  unfoldable pub advance : Shared → Task → Shared × Task
  unfolding decide fetch issue check
  advance sh deciding = decide sh
  advance sh (wanting reason) =
      if sh.refresh_in_flight
      then (sh, deciding)
      else (record sh { refresh_in_flight = true }, fetching reason)
  advance sh (fetching reason) = fetch reason sh
  advance sh (installing lease) = (
    record sh {
      current = some record { lease = lease; uses_since_refresh = 0 };
      pending_refresh = none;
    },
    releasing,
  )
  advance sh releasing = (record sh { refresh_in_flight = false }, deciding)
  advance sh failing = (record sh { refresh_in_flight = false }, failed)
  advance sh issuing = issue sh
  advance sh (checking lease) = (sh, check lease)
  advance sh invalidating =
      (record sh { current = none; pending_refresh = some validation_failed }, deciding)
  advance sh (granting lease) = (
    record sh { metrics = record sh.metrics { leases_issued = add64 sh.metrics.leases_issued 1 } },
    returned lease,
  )
  advance sh (returned lease) = (sh, returned lease)
  advance sh failed = (sh, failed)

unfoldable pub record_outcome : LeaseOutcome → Shared → Shared
record_outcome success sh = sh
record_outcome stale_detected sh = record sh {
  current = none;
  pending_refresh = some manual;
  metrics = record sh.metrics { stale_detected_count = add64 sh.metrics.stale_detected_count 1 };
}

unfoldable pub mark_layer_boundary : Shared → Shared
mark_layer_boundary sh = record sh { pending_refresh = some layer_boundary }

-- One task alone, a step for each of the answers.
unfoldable pub run : Settings → List Answers → Shared × Task → Shared × Task
unfolding advance
run s [] st = st
run s (a ∷ as') st = run s as' (advance s a st.0 st.1)
