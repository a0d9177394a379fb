-- ===== src/Er/Submit/Outcome.antt =====
-- bundler/src/er/mod.rs: what a successful answer of `execute_router` means.
use cpsr_lite.Prelude.{ℕ, map, ◌≡◌, true, false, some, List, ◌⊎◌}
use cpsr_lite.Types.{UserIntent}
use cpsr_lite.Er.{ErClientConfig}
use cpsr_lite.Er.Execute.{
  ErBlockhashPlan, ErSession, ErOutput, ErHttpClient, Call, Network, Acquired,
}
use cpsr_lite.Er.Submit.{submit, is_simulated}
use cpsr_lite.Er.Submit.Sends.{sends, IsAnswered}

-- What the answer `out` of an execution stands for, with the requests `calls`.
pub record IsSubmitted (client : ErHttpClient) (session : ErSession) (intents : List UserIntent)
    (net : Network) (calls : List Call) (out : ErOutput) : Type 0 where
  pub instructions : out.settlement_instructions ≡ map (λ i. i.ix) intents
  pub plan : ErBlockhashPlan
  pub planned : out.blockhash_plan ≡ some plan
  pub required : (client.cfg.require_router ≡ false) ⊎ (plan.fetched_from ≡ client.cfg.router_url)
  pub simulated :
      (out.preflight_skipped ≡ true) ⊎ (is_simulated (net.simulate_at session.hosts.submit) ≡ true)
  pub signature : List ℕ
  pub has_signature : out.signature ≡ some signature
  pub answered :
      IsAnswered client session.hosts.submit net out.submit_policy out.parity_retry
        out.final_submit_host
        (sends calls)
        signature

module _ (cfg : ErClientConfig) (net : Network) where
  -- A plan that a router is required for comes from the router, and nothing is sent for it.
  abbrev IsObtained : Acquired → Type 0
  IsObtained a =
      (sends a.calls ≡ 0)
      × ((plan : ErBlockhashPlan)
          → a.plan ≡ some plan
          → (cfg.require_router ≡ false) ⊎ (plan.fetched_from ≡ cfg.router_url))
