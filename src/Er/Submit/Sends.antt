-- ===== src/Er/Submit/Sends.antt =====
-- bundler/src/er/mod.rs: what a successful `execute_router` has sent.
use cpsr_lite.Prelude.{
  ℕ, suc, ◌+◌, ◌≡◌, refl, sym, Bool, true, false, ◌&&◌, ◌||◌, not, Option, none, some, List, [],
  ◌∷◌, ◌++◌, arith, if◌then◌else◌, inl, inr, ◌⊎◌, Option-cases, if_cases, subst,
}
use cpsr_lite.Types.{Instruction}
use cpsr_lite.Er.{Url}
use cpsr_lite.Er.Execute.{
  ErBlockhashPlan, ErSession, SubmitPolicy, override_then_router_parity_retry, router_no_preflight,
  rpc_simulate_then_send, ErOutput, RpcFault, Reply, Result, ok, err, ErHttpClient, Call, bhfa,
  simulate, send, Network,
}
use cpsr_lite.Er.Submit.{
  Sent, sent_after, send_stage, read_reply, read_sent, asks_retry, submit_signed, runs_simulation,
  is_simulated, simulation_calls, output_of,
}

-- How many transactions the requests send.
abbrev pub sends : List Call → ℕ
sends [] = 0
sends (bhfa host key ∷ calls) = sends calls
sends (simulate host key ∷ calls) = sends calls
sends (send host key skip_preflight ∷ calls) = suc (sends calls)

pub sends-append : (xs ys : List Call) → sends (xs ++ ys) ≡ sends xs + sends ys
sends-append [] ys = omega arith
sends-append (bhfa _ _ ∷ xs) ys = sends-append xs ys
sends-append (simulate _ _ ∷ xs) ys = sends-append xs ys
sends-append (send _ _ _ ∷ xs) ys = omega (arith, sends-append xs ys)

module _ (client : ErHttpClient) (submit_host : Url) (net : Network) where
  -- The stage ends with the signature that the last of its sends is answered with, which reports no error. It sends once, or twice under the
  -- policy that retries, and then the second goes to the router.
  pub record IsAnswered (policy : SubmitPolicy) (retried : Bool) (host : Url) (count : ℕ)
      (signature : List ℕ) : Type 0 where
    pub reply : Reply
    pub from_last :
        (if retried then net.send_again client.cfg.router_url else net.send_first submit_host)
        ≡ some reply
    pub no_error : reply.error ≡ none
    pub signed : reply.result ≡ some signature
    pub last_host : host ≡ (if retried then client.cfg.router_url else submit_host)
    pub sent_count : count ≡ (if retried then 2 else 1)
    pub by_policy : (retried ≡ false) ⊎ (policy ≡ override_then_router_parity_retry)

  read_reply_lem :
      (reply : Reply) (signature : List ℕ)
      → read_reply client.cfg reply ≡ ok signature
      → (reply.error ≡ none) × (reply.result ≡ some signature)
  unfolding read_reply
  read_reply_lem reply signature e = elim (Option-cases reply.error) [
    | inr (fault, f) ↦ ground (arith, e, f)
    | inl f ↦ elim (Option-cases reply.result) [
      | inl r ↦ ground (arith, e, f, r)
      | inr (sig, r) ↦ ground (arith, e, f, r)
    ]
  ]

  retry_policy :
      (policy : SubmitPolicy) (e : Option RpcFault)
      → asks_retry policy e ≡ true
      → policy ≡ override_then_router_parity_retry
  retry_policy override_then_router_parity_retry e h = refl
  retry_policy router_no_preflight e h = cc h
  retry_policy rpc_simulate_then_send e h = cc h

  sent_after-IsAnswered :
      (policy : SubmitPolicy) (skip : Bool) (key : Option (List ℕ)) (reply : Option Reply)
      (signature : List ℕ)
      → net.send_first submit_host ≡ reply
      → let s = sent_after client policy submit_host net (send submit_host key skip) reply in
        s.signature ≡ ok signature → IsAnswered policy s.retried s.host (sends s.calls) signature
  sent_after-IsAnswered policy skip key none signature first = λ e. cc e
  sent_after-IsAnswered policy skip key (some r) signature first =
      if_cases
        (λ (s : Sent).
          s.signature ≡ ok signature → IsAnswered policy s.retried s.host (sends s.calls) signature)
        (asks_retry policy r.error) _ _
        (λ asked e. again (net.send_again client.cfg.router_url) refl asked e)
        (λ plain e.
          let (no_error, signed) = read_reply_lem r signature e in
          record {
            reply = r;
            from_last = first;
            no_error = no_error;
            signed = signed;
            last_host = refl;
            sent_count = refl;
            by_policy = inl refl;
          })
    where
      again :
          (second : Option Reply)
          → net.send_again client.cfg.router_url ≡ second
          → asks_retry policy r.error ≡ true
          → read_sent client.cfg second ≡ ok signature
          → IsAnswered policy true client.cfg.router_url 2 signature
      again none same asked e = cc e
      again (some q) same asked e =
          let (no_error, signed) = read_reply_lem q signature e in
          record {
            reply = q;
            from_last = same;
            no_error = no_error;
            signed = signed;
            last_host = refl;
            sent_count = refl;
            by_policy = inr (retry_policy policy r.error asked);
          }

module _ (client : ErHttpClient) (session : ErSession) (net : Network) {Tx : Type 0}
    (sign : List Instruction → ℕ → Option Tx) (signature_ready : Tx → Bool) where
  abbrev pub Reports : List Instruction → ErBlockhashPlan → List Call → ErOutput → Type 0
  Reports ixs plan calls out =
      (out.settlement_instructions ≡ ixs)
      × (out.blockhash_plan ≡ some plan)
      × ((out.preflight_skipped ≡ true)
          ⊎ (is_simulated (net.simulate_at session.hosts.submit) ≡ true))
      × (signature : List ℕ) × (out.signature ≡ some signature)
      × IsAnswered client session.hosts.submit net out.submit_policy out.parity_retry
          out.final_submit_host (sends calls) signature

  output_of_lem :
      (ixs : List Instruction) (plan : ErBlockhashPlan) (policy : SubmitPolicy) (simulated : Bool)
      (s : Sent) (calls : List Call) (answer : Result (List ℕ)) (out : ErOutput)
      → (simulated ≡ false) ⊎ (is_simulated (net.simulate_at session.hosts.submit) ≡ true)
      → ((signature : List ℕ)
          → answer ≡ ok signature
          → IsAnswered client session.hosts.submit net policy s.retried s.host
              (sends calls)
              signature)
      → output_of ixs plan policy simulated s answer ≡ ok out
      → Reports ixs plan calls out
  output_of_lem ixs plan policy simulated s calls (err x) out sim answered e = cc e
  output_of_lem ixs plan policy simulated s calls (ok signature) out sim answered e =
      subst (Reports ixs plan calls) same
        (refl, refl, skipped sim, signature, refl, answered signature refl)
    where
      made : ErOutput
      made = record {
        settlement_instructions = ixs;
        settlement_accounts = [];
        blockhash_plan = some plan;
        signature = some signature;
        preflight_skipped = not simulated || s.retried;
        submit_policy = policy;
        final_submit_host = s.host;
        parity_retry = s.retried;
      }

      same : made ≡ out
      same = cc e

      skipped :
          (simulated ≡ false) ⊎ (is_simulated (net.simulate_at session.hosts.submit) ≡ true)
          → ((not simulated || s.retried) ≡ true)
            ⊎ (is_simulated (net.simulate_at session.hosts.submit) ≡ true)
      skipped (inl no_run) = inl (rw no_run refl)
      skipped (inr ran) = inr ran

  simulation_sends :
      (policy : SubmitPolicy) (calls : List Call)
      → sends (simulation_calls client policy session.hosts.submit ++ calls) ≡ sends calls
  simulation_sends policy calls =
      if_cases (λ (before : List Call). sends (before ++ calls) ≡ sends calls)
        (runs_simulation policy client.cfg) _ [] (λ _. refl) (λ _. refl)

  pub submit_signed_lem :
      (ixs : List Instruction) (plan : ErBlockhashPlan) (policy : SubmitPolicy) (tx : Option Tx)
      (out : ErOutput)
      → let r =
          submit_signed sign signature_ready client session.hosts.submit ixs net plan policy tx in
        r.0 ≡ ok out → Reports ixs plan r.1 out
  submit_signed_lem ixs plan policy none out = λ e. cc e
  submit_signed_lem ixs plan policy (some tx) out =
      if_cases P (client.cfg.wiretap_verify_blockhash && not (signature_ready tx)) _ _ (λ _ e. cc e)
        (λ _.
          if_cases P
            (runs_simulation policy client.cfg
              && not (is_simulated (net.simulate_at session.hosts.submit)))
            _ _ (λ _ e. cc e)
            (λ passed e.
              output_of_lem ixs plan policy (runs_simulation policy client.cfg) sent
                (simulation_calls client policy session.hosts.submit ++ sent.calls) sent.signature
                out (ground (arith, passed))
                (λ signature f.
                  subst
                    (λ n.
                      IsAnswered client session.hosts.submit net policy sent.retried sent.host n
                        signature)
                    (sym (simulation_sends policy sent.calls))
                    (unfold send_stage in
                      sent_after-IsAnswered client session.hosts.submit net policy _ _
                        (net.send_first session.hosts.submit) signature refl f))
                e))
    where
      sent : Sent
      sent = send_stage client policy session.hosts.submit net

      P : Result ErOutput × List Call → Type 0
      P r = r.0 ≡ ok out → Reports ixs plan r.1 out
