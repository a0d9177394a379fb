-- ===== src/Er/Execute.antt =====
-- bundler/src/er/mod.rs: the first part of `execute_router`, up to its blockhash, and the data of both. The network answers for each
-- host; signing is a parameter. Telemetry, logs and the wiretap's files are left out. A blockhash from the
-- network is given parsed. Redirects are followed by the HTTP client, so that a host here is the one that is named in the request. The transaction carries the blockhash that it is signed with.
use cpsr_lite.Prelude.{
  ℕ, suc, Bool, true, false, ◌&&◌, ◌||◌, not, Option, none, some, List, [], ◌∷◌, ◌++◌, ◌==◌,
  if◌then◌else◌, is_empty,
}
use cpsr_lite.Prelude.Int.{ℤ, negsuc, eqb_ℤ}
use cpsr_lite.Prelude.Text.{codes, to_ascii_lowercase, contains_text}
use cpsr_lite.Types.{Pubkey, Instruction, UserIntent}
use cpsr_lite.Er.{Url, same_origin, public_mode, private_mode, ErClientConfig, ErHosts}

pub data BlockhashSource : Type 0 where
  router route_endpoint : BlockhashSource

pub record ErBlockhashPlan : Type 0 where
  pub hash : ℕ
  pub last_valid_block_height : ℕ
  pub fetched_from : Url
  pub source : BlockhashSource
  pub blockhash_fetched_at : ℕ

pub record ErSession : Type 0 where
  pub hosts : ErHosts
  pub accounts : List Pubkey
  pub blockhash_plan : Option ErBlockhashPlan

pub data SubmitPolicy : Type 0 where
  router_no_preflight rpc_simulate_then_send override_then_router_parity_retry : SubmitPolicy

pub record ErOutput : Type 0 where
  pub settlement_instructions : List Instruction
  pub settlement_accounts : List Pubkey
  pub blockhash_plan : Option ErBlockhashPlan
  pub signature : Option (List ℕ)
  pub preflight_skipped : Bool
  pub submit_policy : SubmitPolicy
  pub final_submit_host : Url
  pub parity_retry : Bool

-- `error` of a JSON-RPC reply: its code, and the messages of it and of its data.
pub record RpcFault : Type 0 where
  pub code : Option ℤ
  pub message : Option (List ℕ)
  pub data_message : Option (List ℕ)

pub record Reply : Type 0 where
  pub error : Option RpcFault
  pub result : Option (List ℕ)

pub record SimulationReply : Type 0 where
  pub has_error : Bool
  pub has_program_error : Bool

pub data ErError : Type 0 where
  no_accounts no_intents : ErError
  missing_payload : ℕ → ErError
  bhfa_unavailable sign_failed guard_failed simulate_failed send_failed : ErError
  blockhash_mismatch missing_result : ErError
  rpc_error : RpcFault → ErError

pub data Result (A : Type 0) : Type 0 where
  ok : A → Result A
  err : ErError → Result A

-- The client: its configuration, and the header of the API key.
pub record ErHttpClient : Type 0 where
  pub cfg : ErClientConfig
  pub data_plane_api_key : Option (List ℕ)

-- A request, to its host, with the API key if it is sent.
pub data Call : Type 0 where
  bhfa : Url → Option (List ℕ) → Call
  simulate : Url → Option (List ℕ) → Call
  send : Url → Option (List ℕ) → (skip_preflight : Bool) → Call

-- What `post_json` makes of the requests: `none` when it fails. The second send is the retry.
pub record Network : Type 0 where
  pub blockhash_at : Url → Option (ℕ × ℕ × ℕ)
  pub simulate_at : Url → Option SimulationReply
  pub send_first : Url → Option Reply
  pub send_again : Url → Option Reply

abbrev pub says : List ℕ → Option (List ℕ) → Bool
says words none = false
says words (some m) = contains_text words (to_ascii_lowercase m)

abbrev pub has_code : ℤ → Option ℤ → Bool
has_code code none = false
has_code code (some c) = eqb_ℤ c code

-- The code is -32002.
unfoldable pub is_blockhash_not_found : RpcFault → Bool
is_blockhash_not_found e =
    has_code (negsuc 32_001) e.code
    || says (codes "blockhash not found") e.message
    || says (codes "blockhash not found") e.data_message

unfoldable pub is_blockhash_domain_error : RpcFault → Bool
unfolding is_blockhash_not_found
is_blockhash_domain_error e =
    is_blockhash_not_found e
    || says (codes "blockhash") e.message
    || says (codes "blockhash") e.data_message

abbrev is_missing : Instruction → Bool
is_missing ix = ix.program_id == 0 && is_empty ix.accounts && is_empty ix.bytes

abbrev pub push_front : Instruction → Result (List Instruction) → Result (List Instruction)
push_front ix (ok ixs) = ok (ix ∷ ixs)
push_front ix (err e) = err e

-- The loop of `intents_to_instructions`, from index `idx` on.
unfoldable pub instructions_from : ℕ → List UserIntent → Result (List Instruction)
instructions_from idx [] = ok []
instructions_from idx (i ∷ intents) =
    let rest = push_front i.ix (instructions_from (suc idx) intents) in
    if is_missing i.ix then err (missing_payload idx) else rest

unfoldable pub intents_to_instructions : List UserIntent → Result (List Instruction)
unfolding instructions_from
intents_to_instructions intents =
    if is_empty intents then err no_intents else instructions_from 0 intents

unfoldable pub decide_submit_policy : ErClientConfig → ErHosts → BlockhashSource → SubmitPolicy
decide_submit_policy cfg hosts source =
    if same_origin hosts.submit cfg.router_url then router_no_preflight else elim source [
      | route_endpoint ↦ rpc_simulate_then_send
      | router ↦ elim cfg.endpoint_override [
        | none ↦ rpc_simulate_then_send
        | some override_url ↦
            if same_origin hosts.submit override_url
            then override_then_router_parity_retry
            else rpc_simulate_then_send
      ]
    ]

abbrev pub private_key : ErClientConfig → Option (List ℕ)
private_key cfg = elim cfg.privacy_mode [ public_mode ↦ none | private_mode ↦ cfg.router_api_key ]

-- `None` if the API key is no header value.
unfoldable pub with_http_client : (is_header : List ℕ → Bool) → ErClientConfig → Option ErHttpClient
with_http_client is_header cfg = elim (private_key cfg) [
  | none ↦ some record { cfg = cfg; data_plane_api_key = none }
  | some key ↦
      if is_header key then some record { cfg = cfg; data_plane_api_key = some key } else none
]

-- `api_key_header_for_host`, and the headers of the data plane's requests. A key that the client was made with is a header value.
abbrev pub key_for : ErClientConfig → Option (List ℕ) → Url → Option (List ℕ)
key_for cfg key host = if same_origin host cfg.router_url then key else none

unfoldable pub fetch_blockhash_for_accounts_at :
    ErClientConfig → Network → Url → Option ErBlockhashPlan × Call
fetch_blockhash_for_accounts_at cfg net host = (
  elim (net.blockhash_at host) [
    | none ↦ none
    | some (hash, height, now) ↦ some record {
      hash = hash;
      last_valid_block_height = height;
      fetched_from = host;
      source = if same_origin host cfg.router_url then router else route_endpoint;
      blockhash_fetched_at = now;
    }
  ],
  bhfa host (key_for cfg (private_key cfg) host),
)

-- The plan, the flag `router_bhfa_degraded`, and the requests.
pub record Acquired : Type 0 where
  pub plan : Option ErBlockhashPlan
  pub degraded : Bool
  pub calls : List Call

abbrev pub is_some {ℓ} : {A : Type ℓ} → Option A → Bool
is_some none = false
is_some (some a) = true

-- The request to the router. A failure sets the flag if there is another host to fall back to.
unfoldable pub probe_router : ErClientConfig → Network → Bool → Acquired
unfolding fetch_blockhash_for_accounts_at
probe_router cfg net degraded =
    let (plan, call) = fetch_blockhash_for_accounts_at cfg net cfg.router_url in
    if cfg.require_router || not (is_some cfg.endpoint_override) || not degraded
    then record {
      plan = plan;
      degraded =
          if is_some plan
          then false
          else (is_some cfg.endpoint_override && not cfg.require_router) || degraded;
      calls = call ∷ [];
    }
    else record { plan = none; degraded = degraded; calls = [] }

-- The request to the override.
abbrev pub fallback : ErClientConfig → Network → Acquired → Option Url → Acquired
fallback cfg net probed none = probed
fallback cfg net probed (some override_host) =
    let (plan, call) = fetch_blockhash_for_accounts_at cfg net override_host in
    record probed { plan = plan; calls = probed.calls ++ call ∷ [] }

-- The override is asked if the router gave no plan and is not required.
unfoldable pub acquire : ErClientConfig → Network → Bool → Acquired
unfolding probe_router fetch_blockhash_for_accounts_at
acquire cfg net degraded =
    let probed = probe_router cfg net degraded in
    if is_some probed.plan || cfg.require_router
    then probed
    else fallback cfg net probed cfg.endpoint_override
