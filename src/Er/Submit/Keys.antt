-- ===== src/Er/Submit/Keys.antt =====
-- bundler/src/er/mod.rs: where the API key is sent.
use cpsr_lite.Prelude.{
  ℕ, ◌≡◌, refl, ap, Bool, true, ◌&&◌, ◌||◌, not, Option, none, some, List, [], arith, All,
  All-append, if_cases, Bool-cases, inl, inr, ==_iff,
}
use cpsr_lite.Prelude.Text.{same_text-≡}
use cpsr_lite.Types.{Instruction, UserIntent}
use cpsr_lite.Er.{Url, same_origin, same_host, same_port, ErClientConfig, ErHosts}
use cpsr_lite.Er.Execute.{
  ErBlockhashPlan, ErSession, SubmitPolicy, ErOutput, Result, ok, err, ErHttpClient, Call, bhfa,
  simulate, send, Network, Reply, intents_to_instructions, key_for, private_key,
  fetch_blockhash_for_accounts_at, probe_router, acquire, Acquired, decide_submit_policy, fallback,
  is_some,
}
use cpsr_lite.Er.Submit.{
  Sent, send_stage, submit, execute_router, asks_retry, runs_simulation, is_simulated, sent_after,
  simulation_calls, submit_signed, submit_with, execute_instructions,
}

-- The key, if it is sent, goes to the scheme, host and port of the router.
abbrev pub IsHomeKey : ErClientConfig → Url → Option (List ℕ) → Type 0
IsHomeKey cfg host none = Unit
IsHomeKey cfg host (some key) =
    (host.scheme ≡ cfg.router_url.scheme)
    × (host.host_str ≡ cfg.router_url.host_str)
    × (host.port_or_known_default ≡ cfg.router_url.port_or_known_default)

abbrev pub IsHome : ErClientConfig → Call → Type 0
IsHome cfg (bhfa host key) = IsHomeKey cfg host key
IsHome cfg (simulate host key) = IsHomeKey cfg host key
IsHome cfg (send host key skip_preflight) = IsHomeKey cfg host key

same_host-≡ : (a b : Option (List ℕ)) → same_host a b ≡ true → a ≡ b
same_host-≡ none none e = refl
same_host-≡ (some a) (some b) e = ap (λ t. some t) (same_text-≡ a b e)
same_host-≡ none (some b) e = cc e
same_host-≡ (some a) none e = cc e

same_port-≡ : (a b : Option ℕ) → same_port a b ≡ true → a ≡ b
same_port-≡ none none e = refl
same_port-≡ (some a) (some b) e = ap (λ n. some n) ((==_iff a b).0 e)
same_port-≡ none (some b) e = cc e
same_port-≡ (some a) none e = cc e

router_IsHomeKey : (cfg : ErClientConfig) (key : Option (List ℕ)) → IsHomeKey cfg cfg.router_url key
router_IsHomeKey cfg none = tt
router_IsHomeKey cfg (some key) = (refl, refl, refl)

same_origin-IsHomeKey :
    (cfg : ErClientConfig) (host : Url) (key : Option (List ℕ))
    → same_origin host cfg.router_url ≡ true
    → IsHomeKey cfg host key
unfolding same_origin
same_origin-IsHomeKey cfg host none e = tt
same_origin-IsHomeKey cfg host (some key) e = (
  same_text-≡ host.scheme cfg.router_url.scheme (ground arith),
  same_host-≡ host.host_str cfg.router_url.host_str (ground arith),
  same_port-≡ host.port_or_known_default cfg.router_url.port_or_known_default (ground arith),
)

key_for-IsHomeKey :
    (cfg : ErClientConfig) (key : Option (List ℕ)) (host : Url)
    → IsHomeKey cfg host (key_for cfg key host)
key_for-IsHomeKey cfg key host = elim (Bool-cases (same_origin host cfg.router_url)) [
  | inl e ↦ rw e (same_origin-IsHomeKey cfg host key e)
  | inr e ↦ rw e tt
]

module _ (cfg : ErClientConfig) (net : Network) (degraded : Bool) where
  probe_router-IsHome : All (IsHome cfg) (probe_router cfg net degraded).calls
  unfolding probe_router fetch_blockhash_for_accounts_at
  probe_router-IsHome =
      if_cases (λ (a : Acquired). All (IsHome cfg) a.calls)
        (cfg.require_router || not (is_some cfg.endpoint_override) || not degraded) _ _
        (λ _. (key_for-IsHomeKey cfg (private_key cfg) cfg.router_url, tt)) (λ _. tt)

  fallback-IsHome :
      (probed : Acquired) (host : Option Url)
      → All (IsHome cfg) probed.calls
      → All (IsHome cfg) (fallback cfg net probed host).calls
  unfolding fetch_blockhash_for_accounts_at
  fallback-IsHome probed none h = h
  fallback-IsHome probed (some host) h =
      All-append (IsHome cfg) probed.calls _ h (key_for-IsHomeKey cfg (private_key cfg) host, tt)

  acquire-IsHome : All (IsHome cfg) (acquire cfg net degraded).calls
  unfolding acquire
  acquire-IsHome =
      let probed = probe_router cfg net degraded in
      if_cases (λ (a : Acquired). All (IsHome cfg) a.calls)
        (is_some probed.plan || cfg.require_router) _ _ (λ _. probe_router-IsHome)
        (λ _. fallback-IsHome probed cfg.endpoint_override probe_router-IsHome)

module _ (client : ErHttpClient) (net : Network) where
  send_stage-IsHome :
      (policy : SubmitPolicy) (host : Url)
      → All (IsHome client.cfg) (send_stage client policy host net).calls
  unfolding send_stage
  send_stage-IsHome policy host =
      go _ (key_for-IsHomeKey client.cfg client.data_plane_api_key host) (net.send_first host)
    where
      go :
          (first : Call)
          → IsHome client.cfg first
          → (reply : Option Reply)
          → All (IsHome client.cfg) (sent_after client policy host net first reply).calls
      go first h none = (h, tt)
      go first h (some reply) =
          if_cases (λ (s : Sent). All (IsHome client.cfg) s.calls) (asks_retry policy reply.error) _
            _ (λ _. (h, (router_IsHomeKey client.cfg client.data_plane_api_key, tt))) (λ _. (h, tt))

  simulation_calls-IsHome :
      (policy : SubmitPolicy) (host : Url)
      → All (IsHome client.cfg) (simulation_calls client policy host)
  simulation_calls-IsHome policy host =
      if_cases (All (IsHome client.cfg)) (runs_simulation policy client.cfg) _ []
        (λ _. (key_for-IsHomeKey client.cfg client.data_plane_api_key host, tt)) (λ _. tt)

  module _ {Tx : Type 0} (sign : List Instruction → ℕ → Option Tx)
      (signature_ready : Tx → Bool) where
    submit-IsHome :
        (hosts : ErHosts) (ixs : List Instruction) (plan : ErBlockhashPlan)
        → All (IsHome client.cfg) (submit sign signature_ready client hosts ixs net plan).1
    unfolding submit
    submit-IsHome hosts ixs plan =
        go (decide_submit_policy client.cfg hosts plan.source) (sign ixs plan.hash)
      where
        go :
            (policy : SubmitPolicy) (tx : Option Tx)
            → All
                (IsHome client.cfg)
                (submit_signed sign signature_ready client hosts.submit ixs net plan policy tx).1
        go policy none = tt
        go policy (some tx) =
            let before = simulation_calls-IsHome policy hosts.submit in
            if_cases (λ (r : Result ErOutput × List Call). All (IsHome client.cfg) r.1)
              (client.cfg.wiretap_verify_blockhash && not (signature_ready tx)) _ _ (λ _. tt)
              (λ _.
                if_cases (λ (r : Result ErOutput × List Call). All (IsHome client.cfg) r.1)
                  (runs_simulation policy client.cfg
                    && not (is_simulated (net.simulate_at hosts.submit)))
                  _ _ (λ _. before)
                  (λ _.
                    All-append (IsHome client.cfg) _ _ before
                      (send_stage-IsHome policy hosts.submit)))

    -- Whatever the network answers, each request that `execute_router` makes and that carries a key is to a host with the scheme, the
    -- host and the port of the router. Redirects, which the HTTP client follows by itself, are no requests here.
    pub execute_router-IsHome :
        (session : ErSession) (intents : List UserIntent) (degraded : Bool)
        → All
            (IsHome client.cfg)
            (execute_router sign signature_ready client session intents net degraded).2
    unfolding execute_router
    execute_router-IsHome session intents degraded = go (intents_to_instructions intents)
      where
        go :
            (ixs : Result (List Instruction))
            → All
                (IsHome client.cfg)
                (execute_instructions sign signature_ready client session net degraded ixs).2
        go (err e) = tt
        go (ok ixs) =
            planned (acquire client.cfg net degraded) (acquire-IsHome client.cfg net degraded)
          where
            planned :
                (a : Acquired)
                → All (IsHome client.cfg) a.calls
                → All
                    (IsHome client.cfg)
                    (submit_with sign signature_ready client session.hosts ixs net a.calls a.plan).1
            planned a h = with_plan a.plan
              where
                with_plan :
                    (plan : Option ErBlockhashPlan)
                    → All
                        (IsHome client.cfg)
                        (submit_with sign signature_ready client session.hosts ixs net a.calls
                          plan).1
                with_plan none = h
                with_plan (some plan) =
                    All-append (IsHome client.cfg) a.calls _ h
                      (submit-IsHome session.hosts ixs plan)
