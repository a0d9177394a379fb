-- ===== src/Er/Requests.antt =====
-- bundler/src/er/mod.rs: `send_with_retries` and its delays, and the kinds of errors. An attempt is what the HTTP client makes of
-- the request; its jitter is a parameter. Delays are in milliseconds.
pub mod Retries
use cpsr_lite.Prelude.{
  ℕ, zero, suc, ◌+◌, ◌*◌, ◌/◌, ◌^◌, ◌≤◌, ◌<◌, ◌≡◌, refl, ap, ◌∙◌, subst, sym, Bool, true, false,
  ◌||◌, ◌&&◌, not, Option, none, some, List, [], ◌∷◌, arith, min, max, ltb, leb, ◌==◌,
  if◌then◌else◌, Bool-cases, inl, inr, ◌⊎◌, ◌≢◌, All, if_cases,
}
use cpsr_lite.Prelude.Int.{ℤ, pos, negsuc, eqb_ℤ}
use cpsr_lite.Prelude.Text.{codes, to_ascii_lowercase, contains_text}
use cpsr_lite.Prelude.Words.{sat_add64, sat_mul64}
use cpsr_lite.Er.{RouterErrorKind, timeout, dns, tls, connect, request, other, Answer, ok, err}

abbrev pub names_dns : List ℕ → Bool
names_dns m =
    contains_text (codes "dns") m
    || contains_text (codes "failed to lookup address") m
    || contains_text (codes "name or service not known") m
    || contains_text (codes "no such host") m
    || contains_text (codes "nodename nor servname provided") m
    || contains_text (codes "temporary failure in name resolution") m

abbrev pub names_tls : List ℕ → Bool
names_tls m =
    contains_text (codes "certificate") m
    || contains_text (codes "tls") m
    || contains_text (codes "handshake") m

unfoldable pub classify_error_messages : List (List ℕ) → RouterErrorKind
classify_error_messages [] = connect
classify_error_messages (m ∷ messages) =
    let lower = to_ascii_lowercase m in
    let rest = classify_error_messages messages in
    if names_dns lower then dns else if names_tls lower then tls else rest

-- What `reqwest::Error` says of itself, and the messages of its chain.
pub record ReqwestError : Type 0 where
  pub is_timeout : Bool
  pub is_connect : Bool
  pub is_request : Bool
  pub chain : List (List ℕ)

unfoldable pub classify_reqwest_error : ReqwestError → RouterErrorKind
unfolding classify_error_messages
classify_reqwest_error e =
    if e.is_timeout
    then timeout
    else if e.is_connect
    then classify_error_messages e.chain
    else if e.is_request
    then request
    else other

unfoldable pub is_retryable_jsonrpc : ℤ → Bool
is_retryable_jsonrpc code =
    not (eqb_ℤ code (negsuc 32_599) || eqb_ℤ code (negsuc 32_600) || eqb_ℤ code (negsuc 32_699))

-- A response: its status, the seconds of its `Retry-After`, and `error.code` and the rest of its JSON value.
pub record JsonResponse (V : Type 0) : Type 0 where
  pub status : ℕ
  pub retry_after : Option ℕ
  pub error_code : Option ℤ
  pub value : V

pub data Attempt (V : Type 0) : Type 0 where
  failed : ReqwestError → Attempt V
  unreadable : ReqwestError → Attempt V
  not_json : Attempt V
  replied : JsonResponse V → Attempt V

-- `u64` arithmetic; the sum is small.
unfoldable pub compute_router_backoff : (attempt_idx jitter : ℕ) → ℕ
compute_router_backoff attempt_idx jitter =
    let base_ms = sat_mul64 100 (2 ^ min attempt_idx 4) in min (base_ms + jitter) 1_600

unfoldable pub retry_backoff : (attempt_idx jitter : ℕ) → Option ℕ → ℕ
unfolding compute_router_backoff
retry_backoff attempt_idx jitter none = compute_router_backoff attempt_idx jitter
retry_backoff attempt_idx jitter (some secs) = max secs 1 * 1_000

-- What the loop makes of an attempt: it ends with an answer, or sleeps and goes on.
pub data Verdict (V : Type 0) : Type 0 where
  settled : Answer (JsonResponse V) → Verdict V
  again : RouterErrorKind → ℕ → Verdict V

abbrev pub is_retryable_status : ℕ → Bool
is_retryable_status status = status == 429 || (leb 500 status && ltb status 600)

abbrev pub retryable_code : Option ℤ → Bool
retryable_code none = false
retryable_code (some code) = is_retryable_jsonrpc code

module _ {V : Type 0} where
  unfoldable pub attempt_verdict : (more : Bool) (attempt_idx jitter : ℕ) → Attempt V → Verdict V
  attempt_verdict more i jitter (failed e) =
      if more
      then again (classify_reqwest_error e) (compute_router_backoff i jitter)
      else settled (err (classify_reqwest_error e))
  attempt_verdict more i jitter (unreadable e) = settled (err (classify_reqwest_error e))
  attempt_verdict more i jitter not_json = settled (err other)
  attempt_verdict more i jitter (replied r) =
      if is_retryable_status r.status
      then (if more
          then again request (retry_backoff i jitter r.retry_after)
          else settled (err request))
      else if retryable_code r.error_code && more
      then again request (compute_router_backoff i jitter)
      else settled (ok r)

  module _ (send : ℕ → Attempt V) (jitter : ℕ → ℕ) where
    -- The rounds left, the index of the next, and the kind of the last error. The answer comes with the delays.
    pub retry_loop :
        (rounds attempt_idx : ℕ) → Option RouterErrorKind → Answer (JsonResponse V) × List ℕ
    unfolding attempt_verdict
    retry_loop zero i none = (err other, [])
    retry_loop zero i (some kind) = (err kind, [])
    retry_loop (suc rounds) i last_err =
        elim (attempt_verdict (ltb 0 rounds) i (jitter i) (send i)) [
          | settled answer ↦ (answer, [])
          | again kind delay ↦
              let rest = retry_loop rounds (suc i) (some kind) in (rest.0, delay ∷ rest.1)
        ]

    unfoldable pub send_with_retries : ℕ → Answer (JsonResponse V) × List ℕ
    unfolding retry_loop
    send_with_retries retries = retry_loop (sat_add64 retries 1) 0 none
