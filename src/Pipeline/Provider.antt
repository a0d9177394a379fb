-- ===== src/Pipeline/Provider.antt =====
-- bundler/src/pipeline/blockhash.rs: `ErAwareBlockhashProvider`, which asks the rollup's router first, over the lease manager; and with the
-- caching table manager of bundler/src/alt.rs, the services of an attempt in bundler/src/pipeline/rollup.rs. One task calls them.
-- During a call the clock stands still, and the RPC answers each of its requests in one way.
pub mod Recovery
use cpsr_lite.Prelude.{ℕ, suc, Option, none, some, List, replicate}
use cpsr_lite.Prelude.Text.{codes}
use cpsr_lite.Prelude.Words.{add64}
use cpsr_lite.Types.{Pubkey, UserIntent}
use cpsr_lite.Alt.{Table, KeyUsage}
use cpsr_lite.Alt.Cache.{Resolution, CachingAltManager, AltState, resolve_tables}
use cpsr_lite.Blockhash.{
  BlockhashLease, manual, LeaseOutcome, Settings, Shared, Task, Answers, deciding, returned, run,
  record_outcome,
}
use cpsr_lite.Sender.{Message, Result, ok, err}
use cpsr_lite.Er.Bhfa.{
  BhfaConfig, BhfaRequest, Answer, collect_writables_or_payer, get_blockhash_for_accounts,
}
use cpsr_lite.Pipeline.Attempts.{AltResolution, Services}

pub record ErAwareBlockhashProvider : Type 0 where
  pub settings : Settings
  pub cfg : BhfaConfig
  pub payer : Pubkey

-- What a call meets: the router, the RPC with the clock, the text of the RPC's error, and the order in which the hash map of the usages is
-- visited.
pub record Surroundings : Type 0 where
  pub post : BhfaRequest → Answer
  pub answers : Answers
  pub failure : Message
  pub visit : List KeyUsage → List KeyUsage

-- The manager's state, the tables' state, and how many calls have been made.
pub record ServicesState : Type 0 where
  pub shared : Shared
  pub alt : AltState
  pub asked : ℕ

-- A call that has not ended is no answer; 12 steps end it.
abbrev pub leased : Message → Task → Result BlockhashLease
leased failure (returned l) = ok l
leased failure _ = err failure

unfoldable pub manager_lease : Settings → Surroundings → Shared → Result BlockhashLease × Shared
unfolding run
manager_lease s around sh =
    let (sh', task) = run s (replicate 12 around.answers) (sh, deciding) in
    (leased around.failure task, sh')

module _ (to_string : Pubkey → List ℕ) (from_str : List ℕ → Option ℕ) where
  abbrev router_or :
      Settings → Surroundings → Result (ℕ × ℕ) → Shared → Result BlockhashLease × Shared
  router_or s around (ok p) sh = (
    ok record {
      hash = p.0;
      last_valid_block_height = p.1;
      fetched_at = around.answers.now;
      refresh_reason = manual;
    },
    sh,
  )
  router_or s around (err e) sh = manager_lease s around sh

  unfoldable pub lease_for_intents :
      ErAwareBlockhashProvider
      → Surroundings
      → List UserIntent
      → Shared
      → Result BlockhashLease × Shared
  unfolding collect_writables_or_payer get_blockhash_for_accounts manager_lease
  lease_for_intents self around intents sh =
      let accounts = collect_writables_or_payer intents self.payer in
      router_or self.settings around
        (get_blockhash_for_accounts to_string from_str around.post self.cfg accounts) sh

  abbrev tables_only : Resolution → AltResolution Table
  tables_only r = record { tables = r.tables }

  -- The services of an attempt; `network n` is what their call `n` meets.
  unfoldable pub real_services :
      (Pubkey → List ℕ)
      → (List ℕ → Pubkey)
      → (List ℕ → List ℕ)
      → CachingAltManager
      → ErAwareBlockhashProvider
      → (ℕ → Surroundings)
      → Services ServicesState Table
  unfolding lease_for_intents record_outcome resolve_tables
  real_services key_bytes of_bytes blake3 tables self network = record {
    resolve_tables = λ payer intents d.
        let (r, alt) =
          resolve_tables key_bytes of_bytes blake3 tables (network d.asked).visit
            (network d.asked).answers.now payer intents d.alt in
        (tables_only r, record d { alt = alt });
    lease_for_intents = λ intents d.
        let (answer, sh) = lease_for_intents self (network d.asked) intents d.shared in
        (answer, record d { shared = sh; asked = suc d.asked });
    record_outcome = λ lease outcome d. record d { shared = record_outcome outcome d.shared };
  }
