-- ===== src/Samples/Capture.antt =====
-- Captures of the sample intents' accounts.
use cpsr_lite.Prelude.{ℕ, zero, suc, ◌≤◌, ◌≡◌, refl, some, List, [], ◌∷◌, max}
use cpsr_lite.Prelude.Text.{codes}
use cpsr_lite.Types.{Pubkey}
use cpsr_lite.Occ.{
  FetchedAccount, default_config, rpc, Result, ok, err, OccSnapshot, Log, Fetcher,
  capture_with_targets,
}
use cpsr_lite.Occ.Retries.{FirstSettled, IsWithin, capture_with_targets_lem}

-- A hash that keeps the data.
abbrev no_hash : List ℕ → List ℕ
no_hash bytes = bytes

abbrev account : ℕ → ℕ → FetchedAccount
account k slot = record { key = k; lamports = 10; owner = 2; bytes = 1 ∷ 2 ∷ []; slot = slot }

abbrev fetched : List (Pubkey × FetchedAccount)
fetched = (7, account 7 100) ∷ (8, account 8 103) ∷ []

-- The first attempt fails, and the others answer.
abbrev flaky : Fetcher
flaky zero keys = err (rpc (codes "timeout"))
flaky (suc zero) keys = err (rpc (codes "timeout"))
flaky (suc (suc n)) keys = ok fetched

abbrev no_jitter : ℕ → ℕ
no_jitter n = 0

abbrev empty_log : Log
empty_log = record { captures = 0; retries = 0; slot_drift_rejects = 0; rpc_errors = 0; slept = [] }

retries_example :
    (n : ℕ) × (r : Result OccSnapshot) × FirstSettled no_hash flaky default_config
      (7 ∷ 8 ∷ [])
      1
      n
      r
    × IsWithin no_hash flaky default_config (7 ∷ 8 ∷ []) n r
    × (n ≤ max 4 1)
    × ((capture_with_targets no_hash flaky no_jitter default_config (7 ∷ 8 ∷ []) empty_log).0
        ≡ some r)
retries_example =
    capture_with_targets_lem no_hash flaky no_jitter default_config (7 ∷ 8 ∷ []) empty_log refl
