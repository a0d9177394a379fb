-- ===== src/Samples/Router.antt =====
-- The ephemeral rollup's client: a router that refuses, one that accepts, and routes.
use cpsr_lite.Prelude.{
  ℕ, zero, suc, ◌≡◌, refl, Bool, true, false, Option, none, some, List, [], ◌∷◌, arith, All, length,
}
use cpsr_lite.Prelude.Sort.{sort_by}
use cpsr_lite.Prelude.Text.{codes}
use cpsr_lite.Samples.{writer}
use cpsr_lite.Types.{Instruction}
use cpsr_lite.Er.{Url, ErClientConfig, private_mode, Answer}
use cpsr_lite.Er.Breaker.{
  Traffic, Reachable, initial, next, start, IsSound, default_circuit, breaker-IsSound, is_tripped,
}
use cpsr_lite.Er.Requests.{Attempt, failed, replied, JsonResponse, send_with_retries}
use cpsr_lite.Er.Requests.Retries.{FirstSettled, IsReply, send_with_retries_lem}
use cpsr_lite.Er.Routes.{RouterRpcRoute, choose_route, ok as found}
use cpsr_lite.Er.Routes.Choice.{IsChosen, choose_route-IsChosen}
use cpsr_lite.Er.Routes.Age.{Lookup, IsYoung, resolve_all, resolve_all-IsYoung}
use cpsr_lite.Er.Execute.{
  ErHttpClient, ErSession, Network, ErOutput, override_then_router_parity_retry, router,
  ok as executed,
}
use cpsr_lite.Er.Submit.{execute_router}
use cpsr_lite.Er.Submit.Keys.{IsHome, execute_router-IsHome}

abbrev pub url : ℕ → Url
url n = record {
  scheme = codes "https";
  host_str = some (n ∷ []);
  port_or_known_default = some 443;
  path = [];
}

abbrev cfg : ErClientConfig
cfg = record {
  endpoint_override = some (url 9);
  retries = 2;
  privacy_mode = private_mode;
  router_url = url 5;
  router_api_key = some (codes "key");
  route_cache_ttl = 1_000;
  circuit_breaker_failures = 3;
  circuit_breaker_cooldown = 500;
  require_router = false;
  wiretap_verify_blockhash = false;
  skip_preflight_on_router = true;
  skip_preflight_on_override = false;
}

abbrev quiet : Traffic
quiet = record { circuit = default_circuit; in_flight = 0; now = 10 }

abbrev waiting : Traffic
waiting = record { circuit = default_circuit; in_flight = 1; now = 12 }

reach_waiting : Reachable 1 500 waiting
unfolding is_tripped
reach_waiting = next quiet waiting (initial 10) (start quiet 12 (omega arith) refl)

breaker_example : IsSound 1 512 waiting.circuit
breaker_example = breaker-IsSound 1 500 (omega arith) (omega arith) waiting reach_waiting

-- The first attempt times out, and the next are answered.
abbrev attempts : ℕ → Attempt ℕ
attempts zero =
    failed record { is_timeout = true; is_connect = false; is_request = false; chain = [] }
attempts (suc n) = replied record { status = 200; retry_after = none; error_code = none; value = 8 }

requests_example :
    (n : ℕ) × (answer : Answer (JsonResponse ℕ)) × FirstSettled attempts (λ i. 7) 3 0 n answer
    × ((send_with_retries attempts (λ i. 7) 2).0 ≡ answer)
    × (length (send_with_retries attempts (λ i. 7) 2).1 ≡ n)
    × IsReply (attempts n) answer
requests_example = send_with_retries_lem attempts (λ i. 7) 2 (omega arith)

abbrev parse : List ℕ → Option Url
parse [] = none
parse (n ∷ text) = some (url n)

abbrev routes : List RouterRpcRoute
routes =
    record { fqdn = 6 ∷ []; ttl_ms = some 4_000; privacy = some (codes "Private") }
    ∷ record { fqdn = 3 ∷ []; ttl_ms = none; privacy = some (codes "public") }
    ∷ []

route_chosen : choose_route parse cfg routes ≡ found (url 6, 1_000)
unfolding choose_route sort_by
route_chosen = refl

route_example : (r : RouterRpcRoute) × IsChosen parse cfg routes (url 6) 1_000 r
route_example = choose_route-IsChosen parse cfg routes (url 6) 1_000 route_chosen

abbrev routed : ErClientConfig
routed = record cfg { endpoint_override = none }

abbrev lookups : List Lookup
lookups =
    record { now = 10; later = 20; answer = some routes }
    ∷ record { now = 900; later = 901; answer = none }
    ∷ []

young_example : All (λ p. IsYoung 1_000 p.0 p.1) (resolve_all parse routed lookups none)
young_example = resolve_all-IsYoung parse routed lookups

abbrev client : ErHttpClient
client = record { cfg = cfg; data_plane_api_key = some (codes "key") }

abbrev session : ErSession
session = record {
  hosts = record { bhfa = url 5; submit = url 9 };
  accounts = 1 ∷ 7 ∷ 8 ∷ [];
  blockhash_plan = none;
}

-- The override does not know the blockhash, and the router accepts the second send.
abbrev net : Network
net = record {
  blockhash_at = λ host. some (77, 5_000, 100);
  simulate_at = λ host. some record { has_error = false; has_program_error = false };
  send_first = λ host. some record {
    error =
        some
          record { code = none; message = some (codes "Blockhash not found"); data_message = none };
    result = none;
  };
  send_again = λ host. some record { error = none; result = some (codes "sig") };
}

abbrev sign : List Instruction → ℕ → Option ℕ
sign ixs hash = some hash

abbrev ready : ℕ → Bool
ready tx = true

keys_example : All (IsHome cfg) (execute_router sign ready client session (writer ∷ []) net false).2
keys_example = execute_router-IsHome client net sign ready session (writer ∷ []) false

abbrev out : ErOutput
out = record {
  settlement_instructions = writer.ix ∷ [];
  settlement_accounts = [];
  blockhash_plan = some record {
    hash = 77;
    last_valid_block_height = 5_000;
    fetched_from = url 5;
    source = router;
    blockhash_fetched_at = 100;
  };
  signature = some (codes "sig");
  preflight_skipped = true;
  submit_policy = override_then_router_parity_retry;
  final_submit_host = url 5;
  parity_retry = true;
}
