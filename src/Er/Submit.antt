-- ===== src/Er/Submit.antt =====
-- bundler/src/er/mod.rs: the second part of `execute_router`, which signs, simulates and sends, and the sessions.
pub mod Keys
pub mod Sends
pub mod Outcome
use cpsr_lite.Prelude.{
  ℕ, Bool, true, false, ◌&&◌, ◌||◌, not, Option, none, some, List, [], ◌∷◌, ◌++◌, if◌then◌else◌,
  is_empty,
}
use cpsr_lite.Types.{Pubkey, Instruction, UserIntent}
use cpsr_lite.Er.{Url, same_origin, ErClientConfig, ErHosts, resolve_hosts}
use cpsr_lite.Er.Routes.{Resolved}
use cpsr_lite.Er.Execute.{
  BlockhashSource, ErBlockhashPlan, ErSession, SubmitPolicy, router_no_preflight,
  rpc_simulate_then_send, override_then_router_parity_retry, ErOutput, RpcFault, Reply,
  SimulationReply, ErError, no_accounts, bhfa_unavailable, sign_failed, guard_failed,
  simulate_failed, send_failed, blockhash_mismatch, missing_result, rpc_error, Result, ok, err,
  ErHttpClient, Call, simulate, send, Network, is_blockhash_not_found, is_blockhash_domain_error,
  intents_to_instructions, decide_submit_policy, key_for, Acquired, acquire, is_some,
}

abbrev pub runs_simulation : SubmitPolicy → ErClientConfig → Bool
runs_simulation router_no_preflight cfg = false
runs_simulation rpc_simulate_then_send cfg = true
runs_simulation override_then_router_parity_retry cfg = not cfg.skip_preflight_on_override

abbrev pub initial_skip_preflight : SubmitPolicy → ErClientConfig → Bool
initial_skip_preflight router_no_preflight cfg = cfg.skip_preflight_on_router
initial_skip_preflight rpc_simulate_then_send cfg = true
initial_skip_preflight override_then_router_parity_retry cfg = cfg.skip_preflight_on_override

-- The reply names a blockhash, and the policy lets it be retried.
abbrev pub asks_retry : SubmitPolicy → Option RpcFault → Bool
asks_retry override_then_router_parity_retry (some e) = is_blockhash_domain_error e
asks_retry _ _ = false

abbrev pub is_simulated : Option SimulationReply → Bool
is_simulated none = false
is_simulated (some r) = not (r.has_error || r.has_program_error)

-- The errors of the reply, or its signature.
unfoldable pub read_reply : ErClientConfig → Reply → Result (List ℕ)
read_reply cfg reply = elim reply.error [
  | some e ↦
      if is_some cfg.endpoint_override && is_blockhash_not_found e && cfg.require_router
      then err blockhash_mismatch
      else err (rpc_error e)
  | none ↦ elim reply.result [ none ↦ err missing_result | some signature ↦ ok signature ]
]

-- What the stage sends and where it ends.
pub record Sent : Type 0 where
  pub signature : Result (List ℕ)
  pub host : Url
  pub retried : Bool
  pub calls : List Call

abbrev pub read_sent : ErClientConfig → Option Reply → Result (List ℕ)
read_sent cfg none = err send_failed
read_sent cfg (some reply) = read_reply cfg reply

-- The end of the stage by the reply to the first request, or the retry through the router.
abbrev pub sent_after : ErHttpClient → SubmitPolicy → Url → Network → Call → Option Reply → Sent
sent_after client policy submit_host net first none = record {
  signature = err send_failed;
  host = submit_host;
  retried = false;
  calls = first ∷ [];
}
sent_after client policy submit_host net first (some reply) =
    if asks_retry policy reply.error
    then record {
      signature = read_sent client.cfg (net.send_again client.cfg.router_url);
      host = client.cfg.router_url;
      retried = true;
      calls = first ∷ send client.cfg.router_url client.data_plane_api_key true ∷ [];
    }
    else record {
      signature = read_reply client.cfg reply;
      host = submit_host;
      retried = false;
      calls = first ∷ [];
    }

unfoldable pub send_stage : ErHttpClient → SubmitPolicy → Url → Network → Sent
unfolding read_reply
send_stage client policy submit_host net =
    let first =
      send submit_host (key_for client.cfg client.data_plane_api_key submit_host)
        (initial_skip_preflight policy client.cfg) in
    sent_after client policy submit_host net first (net.send_first submit_host)

-- The requests before the sends.
abbrev pub simulation_calls : ErHttpClient → SubmitPolicy → Url → List Call
simulation_calls client policy host =
    if runs_simulation policy client.cfg
    then simulate host (key_for client.cfg client.data_plane_api_key host) ∷ []
    else []

abbrev pub output_of :
    List Instruction
    → ErBlockhashPlan
    → SubmitPolicy
    → Bool
    → Sent
    → Result (List ℕ)
    → Result ErOutput
output_of ixs plan policy simulated sent (err e) = err e
output_of ixs plan policy simulated sent (ok signature) = ok record {
  settlement_instructions = ixs;
  settlement_accounts = [];
  blockhash_plan = some plan;
  signature = some signature;
  preflight_skipped = not simulated || sent.retried;
  submit_policy = policy;
  final_submit_host = sent.host;
  parity_retry = sent.retried;
}

module _ {Tx : Type 0} (sign : List Instruction → ℕ → Option Tx) (signature_ready : Tx → Bool) where
  -- From the signed transaction on: the answer and the requests.
  abbrev pub submit_signed :
      ErHttpClient
      → Url
      → List Instruction
      → Network
      → ErBlockhashPlan
      → SubmitPolicy
      → Option Tx
      → Result ErOutput × List Call
  submit_signed client host ixs net plan policy none = (err sign_failed, [])
  submit_signed client host ixs net plan policy (some tx) =
      let simulated = runs_simulation policy client.cfg in
      let before = simulation_calls client policy host in
      let sent = send_stage client policy host net in
      if client.cfg.wiretap_verify_blockhash && not (signature_ready tx)
      then (err guard_failed, [])
      else if simulated && not (is_simulated (net.simulate_at host))
      then (err simulate_failed, before)
      else (output_of ixs plan policy simulated sent sent.signature, before ++ sent.calls)

  unfoldable pub submit :
      ErHttpClient
      → ErHosts
      → List Instruction
      → Network
      → ErBlockhashPlan
      → Result ErOutput × List Call
  unfolding send_stage decide_submit_policy
  submit client hosts ixs net plan =
      submit_signed client hosts.submit ixs net plan
        (decide_submit_policy client.cfg hosts plan.source) (sign ixs plan.hash)

  abbrev pub submit_with :
      ErHttpClient
      → ErHosts
      → List Instruction
      → Network
      → List Call
      → Option ErBlockhashPlan
      → Result ErOutput × List Call
  submit_with client hosts ixs net calls none = (err bhfa_unavailable, calls)
  submit_with client hosts ixs net calls (some plan) =
      let (answer, more) = submit client hosts ixs net plan in (answer, calls ++ more)

  abbrev pub execute_instructions :
      ErHttpClient
      → ErSession
      → Network
      → Bool
      → Result (List Instruction)
      → Result ErOutput × Bool × List Call
  execute_instructions client session net degraded (err e) = (err e, degraded, [])
  execute_instructions client session net degraded (ok ixs) =
      let acquired = acquire client.cfg net degraded in
      let (answer, calls) = submit_with client session.hosts ixs net acquired.calls acquired.plan in
      (answer, acquired.degraded, calls)

  -- The answer, the flag `router_bhfa_degraded`, and the requests.
  unfoldable pub execute_router :
      ErHttpClient
      → ErSession
      → List UserIntent
      → Network
      → Bool
      → Result ErOutput × Bool × List Call
  unfolding intents_to_instructions acquire submit
  execute_router client session intents net degraded =
      execute_instructions client session net degraded (intents_to_instructions intents)

-- `route` tells whether `resolve_route` answers a route. The flag `router_bhfa_degraded` is cleared first.
unfoldable pub begin_session : ErHttpClient → Bool → List Pubkey → Bool → Option ErSession × Bool
unfolding resolve_hosts
begin_session client route accounts degraded = if is_empty accounts then (none, degraded) else (
  (if route
      then some
          record { hosts = resolve_hosts client.cfg; accounts = accounts; blockhash_plan = none }
      else none),
  false,
)
