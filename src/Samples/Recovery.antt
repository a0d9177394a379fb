-- ===== src/Samples/Recovery.antt =====
-- A chunk whose blockhash is stale, and the lease after it.
use cpsr_lite.Prelude.{
  ℕ, ◌≡◌, refl, true, false, Option, none, List, [], ◌∷◌, map, arith, replicate,
}
use cpsr_lite.Prelude.Text.{codes}
use cpsr_lite.Prelude.Sort.{sort_by}
use cpsr_lite.Fee.{default_oracle}
use cpsr_lite.Alt.{Table}
use cpsr_lite.Alt.Cache.{new_state}
use cpsr_lite.Blockhash.{check_policy, deciding, run}
use cpsr_lite.Blockhash.Progress.{IsEnded, lease_ends}
use cpsr_lite.Occ as Occ
use cpsr_lite.Sender.{ok, err, stale_message, simulate_build_and_send_with_report, oracle_of}
use cpsr_lite.Sender.Fees.{sender}
use cpsr_lite.Er.Bhfa.{get_blockhash_for_accounts, collect_writables_or_payer, not_sent}
use cpsr_lite.Pipeline.Prepare.{send, failed, ChunkAttemptError, no_diag}
use cpsr_lite.Pipeline.Attempts.{
  ParallelLayerDeps, World, is_stale_blockhash_error, er_plan, capture, process_chunk_once,
}
use cpsr_lite.Pipeline.Provider.{
  ErAwareBlockhashProvider, Surroundings, ServicesState, lease_for_intents, real_services,
}
use cpsr_lite.Pipeline.Provider.Recovery.{attempted, deps, renewed, process_chunk_once-renewed}
use cpsr_lite.Samples.{writer}
use cpsr_lite.Samples.Accounts.{key_bytes, no_hash}
use cpsr_lite.Samples.Commitments.{of_bytes, manager}
use cpsr_lite.Samples.Leases.{settings, leased, answers, no_answer}
use cpsr_lite.Samples.Router.{url}
use cpsr_lite.Samples.Sending.{environment, sender_state, account, prepared, snapshot, er_client}

ends_lease_example :
    IsEnded settings no_answer (run settings (replicate 12 no_answer) (leased, deciding)).1
    × ((run settings (replicate 12 no_answer) (leased, deciding)).0.refresh_in_flight ≡ false)
ends_lease_example = lease_ends settings no_answer leased (omega arith) refl

abbrev provider : ErAwareBlockhashProvider
provider = record {
  settings = settings;
  cfg = record {
    router_url = url 1;
    router_api_key = none;
    http_timeout = 10;
    connect_timeout = 10;
  };
  payer = 1;
}

abbrev network : ℕ → Surroundings
network n = record {
  post = λ request. not_sent;
  answers = answers;
  failure = codes "refused";
  visit = λ us. us;
}

abbrev from_str : List ℕ → Option ℕ
from_str text = none

abbrev base : ParallelLayerDeps (List ℕ) ServicesState Table ℕ
base = record {
  sender = sender default_oracle true (λ n. n) environment;
  payer = 1;
  services = real_services key_bytes from_str key_bytes of_bytes no_hash manager provider network;
  client = er_client;
  er = none;
  occ_config = record Occ.default_config { max_retries = 1 };
  blake3 = λ bytes. [];
  occ_fetcher = λ attempt n keys. Occ.ok (map (λ k. (k, account k)) keys);
  occ_jitter = λ attempt n. 0;
  display = λ e. codes "capture failed";
  environment = λ attempt l alts intents. record environment { blockhash_valid = λ hash. ok false };
}

abbrev world : World (List ℕ) ServicesState
world = record {
  client = [];
  services = record { shared = leased; alt = new_state; asked = 0 };
  sender = sender_state;
  occ = record { captures = 0; retries = 0; slot_drift_rejects = 0; rpc_errors = 0; slept = [] };
}

abbrev stale_failure : ChunkAttemptError
stale_failure = record {
  stage = send;
  message = stale_message;
  retriable = true;
  er_diag = no_diag;
}

captured :
    (capture
      (deps key_bytes from_str provider key_bytes of_bytes no_hash manager network base)
      1
      prepared
      world.occ).0
    ≡ Occ.ok snapshot
unfolding capture Occ.capture_loop Occ.capture_once Occ.capture_keys Occ.data_hash64
captured = refl

stale_attempt :
    (attempted key_bytes from_str provider key_bytes of_bytes no_hash manager network base false 1
      prepared world).0
    ≡ failed stale_failure
unfolding process_chunk_once simulate_build_and_send_with_report oracle_of sort_by capture
    Occ.capture_loop Occ.capture_once Occ.capture_keys Occ.data_hash64 real_services check_policy
stale_attempt = refl

no_plan : er_plan prepared.er_meta ≡ none
unfolding er_plan
no_plan = refl

refused :
    get_blockhash_for_accounts key_bytes from_str
      (network 1).post
      provider.cfg
      (collect_writables_or_payer (writer ∷ []) 1)
    ≡ err (codes "sending getBlockhashForAccounts request")
unfolding get_blockhash_for_accounts
refused = refl

is_stale : is_stale_blockhash_error stale_message ≡ true
unfolding is_stale_blockhash_error
is_stale = refl

renewed_example :
    ((attempted key_bytes from_str provider key_bytes of_bytes no_hash manager network base false 1
        prepared world).1.services.asked
      ≡ 1)
    × ((lease_for_intents key_bytes from_str provider
          (network 1)
          (writer ∷ [])
          (attempted key_bytes from_str provider key_bytes of_bytes no_hash manager network base
            false 1 prepared world).1.services.shared).0
        ≡ ok (renewed (network 1) (77, 5_000)))
renewed_example =
    process_chunk_once-renewed key_bytes from_str provider key_bytes of_bytes no_hash manager
      network base false 1 prepared world snapshot stale_failure (77, 5_000)
      (codes "sending getBlockhashForAccounts request") (omega arith) refl captured no_plan
      stale_attempt refl is_stale refused refl
