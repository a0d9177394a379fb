-- ===== src/Sender.antt =====
-- bundler/src/sender.rs: simulate, tighten the fee plan, send. Building and signing messages, the RPC and the rank of the
-- 95th percentile (`f64`) are parameters. Durations are left out.
pub mod Fees
use cpsr_lite.Prelude.{
  ℕ, suc, ◌+◌, ◌-◌, ◌*◌, ◌/◌, ◌%◌, Bool, true, false, Option, none, some, List, [], ◌∷◌, ◌++◌, max,
  min, leb, ◌==◌, if◌then◌else◌, length, get_or,
}
use cpsr_lite.Prelude.Sort.{sort_by}
use cpsr_lite.Prelude.Text.{codes}
use cpsr_lite.Prelude.Words.{add64, sat_mul64, to_u32}
use cpsr_lite.Estimator.{CuEstimate, apply_safety_with_cap}
use cpsr_lite.Fee.{FeePlan, BasicFeeOracle, suggest, clamp}

-- `dyn FeeOracle`
pub record FeeOracle : Type 0 where
  pub suggested : FeePlan
  pub clamped : FeePlan → FeePlan

unfoldable pub oracle_of : BasicFeeOracle → FeeOracle
unfolding suggest clamp
oracle_of self = record { suggested = suggest self; clamped = clamp self }

pub record CuStats : Type 0 where
  pub window : List ℕ
  pub cap : ℕ

abbrev pub pop_front : List ℕ → List ℕ
pop_front [] = []
pop_front (x ∷ xs) = xs

unfoldable pub record_used : ℕ → CuStats → CuStats
record_used used self = record self {
  window =
      (if length self.window == self.cap then pop_front self.window else self.window) ++ used ∷ [];
}

-- `rank n` is `ceil(n * 0.95)`.
unfoldable pub p95 : (rank : ℕ → ℕ) → CuStats → Option ℕ
p95 rank self = elim self.window [
  | [] ↦ none
  | x ∷ xs ↦
      let n = suc (length xs) in some (get_or (sort_by leb (x ∷ xs)) (min (rank n - 1) (n - 1)) 0)
]

pub data CuScope : Type 0 where
  global per_scope : CuScope

pub record RpcMetrics : Type 0 where
  pub simulate : ℕ
  pub is_blockhash_valid : ℕ
  pub send_transaction : ℕ

pub record SenderState : Type 0 where
  pub stats : CuStats
  pub metrics : RpcMetrics

unfoldable pub start_scope : CuScope → SenderState → SenderState
start_scope global s = s
start_scope per_scope s = record s { stats = record { window = []; cap = s.stats.cap } }

abbrev pub Message : Type 0
Message = List ℕ

-- `anyhow::Result`, an error given by its message.
pub data Result (A : Type 0) : Type 0 where
  ok : A → Result A
  err : Message → Result A

abbrev pub M : Type 0 → Type 0
M A = SenderState → Result A × SenderState

abbrev pub continue : {A B : Type 0} → (A → M B) → Result A × SenderState → Result B × SenderState
continue f (ok a, s) = f a s
continue f (err e, s) = (err e, s)

infixl 5 ◌>>=◌ ◌>>◌
abbrev pub ◌>>=◌ : {A B : Type 0} → M A → (A → M B) → M B
◌>>=◌ m f s = continue f (m s)

abbrev pub ◌>>◌ : {A B : Type 0} → M A → M B → M B
m >> k = m >>= λ _. k

abbrev pub lift : {A : Type 0} → Result A → M A
lift r s = (r, s)

-- What the code reads of a built message.
pub record VersionedMessage : Type 0 where
  pub message_bytes : ℕ
  pub required_signers : ℕ
  pub recent_blockhash : ℕ

-- The value of a simulation: its error, or the units that it consumed.
pub record Simulation : Type 0 where
  pub error : Option Message
  pub units_consumed : Option ℕ

pub record SendReport : Type 0 where
  pub signature : Option ℕ
  pub used_cu : ℕ
  pub final_plan : FeePlan
  pub message_bytes : ℕ
  pub required_signers : ℕ
  pub base_fee_lamports : ℕ
  pub priority_fee_lamports : ℕ
  pub total_fee_lamports : ℕ

abbrev pub stale_message : Message
stale_message = codes "stale blockhash; rebuild required"

-- Building, signing and the RPC.
pub record Environment (Tx : Type 0) : Type 0 where
  pub build : FeePlan → Result VersionedMessage
  pub sign : VersionedMessage → Result Tx
  pub simulate_transaction : Tx → Result Simulation
  pub blockhash_valid : ℕ → Result Bool
  pub send : Tx → Result ℕ

abbrev pub units : Simulation → Result ℕ
units sim = elim sim.error [
  | some e ↦ err (codes "simulation error: " ++ e)
  | none ↦ elim sim.units_consumed [ none ↦ ok 200_000 | some u ↦ ok (to_u32 u) ]
]

-- A call that is counted when it is answered.
abbrev pub counted : {A : Type 0} → (RpcMetrics → RpcMetrics) → Result A → M A
counted count (ok a) s = (ok a, record s { metrics = count s.metrics })
counted count (err e) s = (err e, s)

abbrev pub value_or : Option ℕ → ℕ → ℕ
value_or none d = d
value_or (some v) d = v

-- `self` is the oracle, the flag `pre_check_blockhash`, and the rank.
pub record ReliableSender : Type 0 where
  pub fee_oracle : FeeOracle
  pub pre_check_blockhash : Bool
  pub rank : ℕ → ℕ

module _ {Tx : Type 0} (self : ReliableSender) (env : Environment Tx) where
  -- The recorded use, and the limit that it asks for.
  unfoldable pub learn : ℕ → M ℕ
  unfolding record_used p95
  learn used s =
      let stats = record_used used s.stats in
      (ok (max (value_or (p95 self.rank stats) used) used), record s { stats = stats })

  unfoldable pub tightened : FeePlan → ℕ → FeePlan
  unfolding apply_safety_with_cap
  tightened plan0 target_limit = self.fee_oracle.clamped record {
    cu_limit =
        (apply_safety_with_cap target_limit 10_000 20 (to_u32 plan0.cu_limit)).cu_with_safety;
    cu_price_microlamports = plan0.cu_price_microlamports;
  }

  abbrev pub require : Bool → M (Unit {0})
  require true s = (ok tt, s)
  require false s = (err stale_message, s)

  abbrev pub count_valid : RpcMetrics → RpcMetrics
  count_valid m = record m { is_blockhash_valid = add64 m.is_blockhash_valid 1 }

  unfoldable pub check_blockhash : VersionedMessage → M (Unit {0})
  check_blockhash vmsg =
      if self.pre_check_blockhash
      then (do
        valid ← counted count_valid (env.blockhash_valid vmsg.recent_blockhash)
        require valid)
      else lift (ok tt)

  unfoldable pub dispatch : Bool → VersionedMessage → M (Option ℕ)
  unfolding check_blockhash
  dispatch true vmsg = lift (ok none)
  dispatch false vmsg = do
    check_blockhash vmsg
    tx ← lift (env.sign vmsg)
    signature ←
        counted (λ m. record m { send_transaction = add64 m.send_transaction 1 }) (env.send tx)
    lift (ok (some signature))

  -- `u64` arithmetic, as a release build computes it.
  unfoldable pub report_of : ℕ → FeePlan → VersionedMessage → Option ℕ → SendReport
  report_of used plan vmsg signature =
      let base = (5_000 * vmsg.required_signers) % 0x1_0000_0000_0000_0000 in
      let priority = sat_mul64 plan.cu_limit plan.cu_price_microlamports / 1_000_000 in
      record {
        signature = signature;
        used_cu = used;
        final_plan = plan;
        message_bytes = vmsg.message_bytes;
        required_signers = vmsg.required_signers;
        base_fee_lamports = base;
        priority_fee_lamports = priority;
        total_fee_lamports = add64 base priority;
      }

  unfoldable pub simulate_build_and_send_with_report : Bool → M SendReport
  unfolding learn tightened dispatch report_of
  simulate_build_and_send_with_report dry_run = do
    let plan0 = self.fee_oracle.clamped self.fee_oracle.suggested
    vmsg0 ← lift (env.build plan0)
    tx0 ← lift (env.sign vmsg0)
    sim ← counted (λ m. record m { simulate = add64 m.simulate 1 }) (env.simulate_transaction tx0)
    used ← lift (units sim)
    target_limit ← learn used
    let plan = tightened plan0 target_limit
    vmsg ← lift (env.build plan)
    signature ← dispatch dry_run vmsg
    lift (ok (report_of used plan vmsg signature))

  abbrev signature_or : Option ℕ → Result ℕ
  signature_or none = err (codes "signature missing in send report")
  signature_or (some sig) = ok sig

  unfoldable pub simulate_and_send : M ℕ
  unfolding simulate_build_and_send_with_report
  simulate_and_send = do
    rep ← simulate_build_and_send_with_report false
    lift (signature_or rep.signature)
