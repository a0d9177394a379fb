-- ===== src/Sender/Fees.antt =====
-- bundler/src/sender.rs: what the report of a send says of its fees.
use cpsr_lite.Prelude.{
  ℕ, ◌+◌, ◌*◌, ◌/◌, ◌≤◌, ◌<◌, ◌≡◌, refl, sym, ◌∙◌, ap, Bool, true, false, not, Option, none, some,
  arith, min, max, subst,
}
use cpsr_lite.Prelude.Words.{u32_mod, sat_mul64, to_u32}
use cpsr_lite.Estimator.{apply_safety_with_cap}
use cpsr_lite.Fee.{FeePlan, BasicFeeOracle, clamp, suggest}
use cpsr_lite.Fee.Bounds.{IsAllowed}
use cpsr_lite.Sender.{
  oracle_of, SenderState, Result, ok, err, M, continue, ◌>>=◌, lift, VersionedMessage, SendReport,
  Environment, ReliableSender, counted, check_blockhash, learn, tightened, dispatch, report_of,
  simulate_build_and_send_with_report, units,
}

-- A step that succeeds after another does so from what the first answers.
pub continue-ok :
    {A B : Type 0} (f : A → M B) (r : Result A × SenderState) (b : B)
    → (continue f r).0 ≡ ok b
    → (a : A) × (s : SenderState) × (r ≡ (ok a, s)) × ((f a s).0 ≡ ok b)
continue-ok f (ok a, s) b e = (a, s, refl, e)
continue-ok f (err x, s) b e = cc e

ok-inj : {A : Type 0} {x y : A} → Path (Result A) (ok x) (ok y) → x ≡ y
ok-inj e = cc e

abbrev is_signed : Option ℕ → Bool
is_signed none = false
is_signed (some signature) = true

-- The least limit that `apply_safety_with_cap` lets pass.
tight_bounds :
    (cu cap : ℕ)
    → cap < u32_mod
    → (min (cu + 10_000) cap ≤ (apply_safety_with_cap cu 10_000 20 cap).cu_with_safety)
      × ((apply_safety_with_cap cu 10_000 20 cap).cu_with_safety ≤ cap)
unfolding apply_safety_with_cap
tight_bounds cu cap word = (ground (arith, word), ground (arith, word))

-- The plan is within the limits of the oracle and at its lowest price, and leaves room for ten thousand units more than were used,
-- or as many as the oracle allows. The total is the fee of the signatures and the priority fee, and there is
-- a signature unless the run is dry.
pub record IsPriced (o : BasicFeeOracle) (dry_run : Bool) (report : SendReport) : Type 0 where
  pub allowed : IsAllowed o report.final_plan
  pub room : min (report.used_cu + 10_000) o.max_cu_limit ≤ report.final_plan.cu_limit
  pub price : report.final_plan.cu_price_microlamports ≡ o.min_cu_price
  pub signed : is_signed report.signature ≡ not dry_run
  pub total :
      report.total_fee_lamports
      ≡ 5_000 * report.required_signers
        + sat_mul64 report.final_plan.cu_limit report.final_plan.cu_price_microlamports / 1_000_000

module _ (o : BasicFeeOracle) (pre_check : Bool) (rank : ℕ → ℕ) {Tx : Type 0}
    (env : Environment Tx) where
  abbrev pub sender : ReliableSender
  sender = record { fee_oracle = oracle_of o; pre_check_blockhash = pre_check; rank = rank }

  learn-le :
      (used limit : ℕ) (s : SenderState) → (learn sender env used s).0 ≡ ok limit → used ≤ limit
  unfolding learn
  learn-le used limit s e = above _ e
    where
      above : (v : ℕ) → Path (Result ℕ) (ok (max v used)) (ok limit) → used ≤ limit
      above v same = ground (arith, same)

  dispatch_signed :
      (dry_run : Bool) (vmsg : VersionedMessage) (s : SenderState) (signature : Option ℕ)
      → (dispatch sender env dry_run vmsg s).0 ≡ ok signature
      → is_signed signature ≡ not dry_run
  unfolding dispatch
  dispatch_signed true vmsg s signature e = signed_of none signature e
    where
      signed_of :
          (given got : Option ℕ)
          → Path (Result (Option ℕ)) (ok given) (ok got)
          → is_signed got ≡ is_signed given
      signed_of given got same = let x : given ≡ got = cc same in ap is_signed (sym x)
  dispatch_signed false vmsg s signature e =
      let (_, s1, _, e1) = continue-ok _ (check_blockhash sender env vmsg s) signature e in
      let (tx, s2, _, e2) = continue-ok _ (env.sign vmsg, s1) signature e1 in
      let (sig, s3, _, e3) = continue-ok _ (counted _ (env.send tx) s2) signature e2 in
      let x : some sig ≡ signature = cc e3 in ap is_signed (sym x)

  abbrev plan0 : FeePlan
  plan0 = record { cu_limit = o.max_cu_limit; cu_price_microlamports = o.min_cu_price }

  plan0_lem :
      o.min_cu_price ≤ o.max_cu_price
      → sender.fee_oracle.clamped sender.fee_oracle.suggested ≡ plan0
  unfolding oracle_of clamp suggest
  plan0_lem ordered = ground arith

  -- The limit that the safety margin gives, and the final plan.
  abbrev tight : ℕ → ℕ
  tight limit = (apply_safety_with_cap limit 10_000 20 o.max_cu_limit).cu_with_safety

  abbrev final : ℕ → FeePlan
  final limit = record { cu_limit = tight limit; cu_price_microlamports = o.min_cu_price }

  clamp_within :
      (w : ℕ)
      → o.min_cu_price ≤ o.max_cu_price
      → w ≤ o.max_cu_limit
      → clamp o record { cu_limit = w; cu_price_microlamports = o.min_cu_price }
        ≡ record { cu_limit = w; cu_price_microlamports = o.min_cu_price }
  unfolding clamp
  clamp_within w ordered le = ground arith

  tightened_lem :
      (limit : ℕ)
      → o.min_cu_price ≤ o.max_cu_price
      → o.max_cu_limit < u32_mod
      → tightened sender env plan0 limit ≡ final limit
  unfolding tightened oracle_of
  tightened_lem limit ordered word =
      let same : to_u32 o.max_cu_limit ≡ o.max_cu_limit = omega (arith, word) in
      ap
        (λ cap. clamp o record {
          cu_limit = (apply_safety_with_cap limit 10_000 20 cap).cu_with_safety;
          cu_price_microlamports = o.min_cu_price;
        })
        same
      ∙ clamp_within (tight limit) ordered (tight_bounds limit o.max_cu_limit word).1

  report-IsPriced :
      (dry_run : Bool) (used limit : ℕ) (vmsg : VersionedMessage) (signature : Option ℕ)
      → o.min_cu_price ≤ o.max_cu_price
      → o.max_cu_limit < u32_mod
      → (report_of sender env used (final limit) vmsg signature).required_signers < 256
      → used ≤ limit
      → is_signed signature ≡ not dry_run
      → IsPriced o dry_run (report_of sender env used (final limit) vmsg signature)
  unfolding report_of
  report-IsPriced dry_run used limit vmsg signature ordered word few le signed =
      let bounds = tight_bounds limit o.max_cu_limit word in
      record {
        allowed = record { limit = bounds.1; floor = omega arith; ceiling = ordered };
        room = omega (arith, bounds, le);
        price = refl;
        signed = signed;
        total = omega (arith, few);
      }

  -- What follows the recording of the units used.
  abbrev send_learned : Bool → ℕ → ℕ → M SendReport
  send_learned dry_run used limit s =
      let plan =
        tightened sender env (sender.fee_oracle.clamped sender.fee_oracle.suggested) limit in
      (lift (env.build plan) >>= λ vmsg. dispatch sender env dry_run vmsg >>= λ signature.
      lift (ok (report_of sender env used plan vmsg signature)))
        s

  send_learned-IsPriced :
      (dry_run : Bool) (used limit : ℕ) (s : SenderState) (report : SendReport)
      → o.min_cu_price ≤ o.max_cu_price
      → o.max_cu_limit < u32_mod
      → report.required_signers < 256
      → used ≤ limit
      → (send_learned dry_run used limit s).0 ≡ ok report
      → IsPriced o dry_run report
  send_learned-IsPriced dry_run used limit s report ordered word few le e =
      let (vmsg, s1, _, e1) = continue-ok _ (env.build _, s) report e in
      let (signature, s2, sent, e2) =
        continue-ok _ (dispatch sender env dry_run vmsg s1) report e1 in
      let plan_same =
        ap (λ p. tightened sender env p limit) (plan0_lem ordered)
        ∙ tightened_lem limit ordered word in
      let same : report_of sender env used (final limit) vmsg signature ≡ report =
        ap (λ p. report_of sender env used p vmsg signature) (sym plan_same) ∙ ok-inj e2 in
      subst (λ r. IsPriced o dry_run r) same
        (report-IsPriced dry_run used limit vmsg signature ordered word
          (subst (λ r. r.required_signers < 256) (sym same) few) le
          (dispatch_signed dry_run vmsg s1 signature (ap (λ r. r.0) sent)))

  send_used-IsPriced :
      (dry_run : Bool) (used : ℕ) (s : SenderState) (report : SendReport)
      → o.min_cu_price ≤ o.max_cu_price
      → o.max_cu_limit < u32_mod
      → report.required_signers < 256
      → ((learn sender env used >>= send_learned dry_run used) s).0 ≡ ok report
      → IsPriced o dry_run report
  send_used-IsPriced dry_run used s report ordered word few e =
      let (limit, s1, learned, e1) = continue-ok _ (learn sender env used s) report e in
      send_learned-IsPriced dry_run used limit s1 report ordered word few
        (learn-le used limit s (ap (λ r. r.0) learned)) e1

  -- When the price limits of a basic oracle are in order and its limit is a `u32`, every report of a send has its plan within the limits of the oracle,
  -- at the lowest price, with room for ten thousand units more than were used or as many as the oracle allows;
  -- its total is the fee of the signatures, fewer than 256, and the priority fee; and it has a signature
  -- unless the run is dry.
  pub simulate_build_and_send-IsPriced :
      (dry_run : Bool) (s : SenderState) (report : SendReport)
      → o.min_cu_price ≤ o.max_cu_price
      → o.max_cu_limit < u32_mod
      → report.required_signers < 256
      → (simulate_build_and_send_with_report sender env dry_run s).0 ≡ ok report
      → IsPriced o dry_run report
  unfolding simulate_build_and_send_with_report
  simulate_build_and_send-IsPriced dry_run s report ordered word few e =
      let (vmsg0, s0, _, e0) = continue-ok _ (env.build _, s) report e in
      let (tx0, s1, _, e1) = continue-ok _ (env.sign vmsg0, s0) report e0 in
      let (sim, s2, _, e2) =
        continue-ok _ (counted _ (env.simulate_transaction tx0) s1) report e1 in
      let (used, s3, _, e3) = continue-ok _ (units sim, s2) report e2 in
      send_used-IsPriced dry_run used s3 report ordered word few e3
