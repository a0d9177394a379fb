-- ===== src/Er/Breaker.antt =====
-- bundler/src/er/mod.rs: the circuit breaker, `CircuitState` and its use in `post_json`.
use cpsr_lite.Prelude.{
  ℕ, suc, ◌+◌, ◌≤◌, ◌<◌, ◌≡◌, ap, ◌∙◌, subst, sym, Bool, true, Option, none, some, List, [], ◌∷◌,
  arith, ltb, leb, ◌==◌, if◌then◌else◌, length, Bool-cases, inl, inr,
}
use cpsr_lite.Prelude.Words.{sat_add32, u32_mod}
use cpsr_lite.Er.{Answer, ok, err, RouterErrorKind}

pub record CircuitState : Type 0 where
  pub failures : ℕ
  pub tripped_until : Option ℕ

abbrev pub default_circuit : CircuitState
default_circuit = record { failures = 0; tripped_until = none }

unfoldable pub record_failure : (threshold cooldown now : ℕ) → CircuitState → CircuitState
record_failure threshold cooldown now self =
    let failures = sat_add32 self.failures 1 in
    if threshold == 0
    then self
    else if leb threshold failures
    then record { failures = failures; tripped_until = some (now + cooldown) }
    else record self { failures = failures }

unfoldable pub reset : CircuitState → CircuitState
reset self = default_circuit

unfoldable pub is_tripped : ℕ → CircuitState → Option ℕ × CircuitState
is_tripped now self = elim self.tripped_until [
  | none ↦ (none, self)
  | some until ↦ if ltb now until then (some until, self) else (none, default_circuit)
]

-- What one call of `post_json` answers: the breaker refused it, or the request was sent.
pub data Posted (A : Type 0) : Type 0 where
  refused : ℕ → Posted A
  sent : Answer A → Posted A

abbrev pub settle_circuit :
    {A : Type 0} → (threshold cooldown now : ℕ) → Answer A → CircuitState → CircuitState
settle_circuit threshold cooldown now (ok a) self = reset self
settle_circuit threshold cooldown now (err kind) self = record_failure threshold cooldown now self

-- A call that no other overlaps. It starts at `before`, and its request has the answer `result` at `after`.
unfoldable pub post_json :
    {A : Type 0}
    → (apply_circuit : Bool) (threshold cooldown before after : ℕ) → Answer A
    → CircuitState
    → Posted A × CircuitState
unfolding is_tripped record_failure reset
post_json apply_circuit threshold cooldown before after result self =
    let (until, checked) = is_tripped before self in
    if apply_circuit
    then elim until [
      | some t ↦ (refused t, checked)
      | none ↦ (sent result, settle_circuit threshold cooldown after result checked)
    ]
    else (sent result, self)

-- Calls that overlap, at times that do not go back: the breaker, the requests under way, and the time.
pub record Traffic : Type 0 where
  pub circuit : CircuitState
  pub in_flight : ℕ
  pub now : ℕ

-- The two critical sections of `post_json`, for a breaker that applies: the check before the request, which refuses
-- it or lets it start, and the account of its end.
pub data Step (threshold cooldown : ℕ) : Traffic → Traffic → Type 0 where
  refuse :
      (t : Traffic) (now until : ℕ)
      → t.now ≤ now
      → (is_tripped now t.circuit).0 ≡ some until
      → Step threshold cooldown t (record t { circuit = (is_tripped now t.circuit).1; now = now })
  start :
      (t : Traffic) (now : ℕ)
      → t.now ≤ now
      → (is_tripped now t.circuit).0 ≡ none
      → Step threshold cooldown t
          record { circuit = (is_tripped now t.circuit).1; in_flight = suc t.in_flight; now = now }
  finish :
      (t : Traffic) (now n : ℕ) (result : Answer (Unit {0}))
      → t.now ≤ now
      → t.in_flight ≡ suc n
      → Step threshold cooldown t record {
        circuit = settle_circuit threshold cooldown now result t.circuit;
        in_flight = n;
        now = now;
      }

pub data Reachable (threshold cooldown : ℕ) : Traffic → Type 0 where
  initial :
      (now : ℕ)
      → Reachable threshold cooldown record { circuit = default_circuit; in_flight = 0; now = now }
  next :
      (t u : Traffic)
      → Reachable threshold cooldown t
      → Step threshold cooldown t u
      → Reachable threshold cooldown u

-- The breaker is open once `threshold` failures are counted, until `bound` at most; and closed below.
abbrev IsCounted : (threshold bound failures : ℕ) → Option ℕ → Type 0
IsCounted threshold bound failures none = failures < threshold
IsCounted threshold bound failures (some until) = (threshold ≤ failures) × (until ≤ bound)

abbrev pub IsSound : (threshold bound : ℕ) → CircuitState → Type 0
IsSound threshold bound c = IsCounted threshold bound c.failures c.tripped_until

module _ (threshold cooldown : ℕ) (applies : 1 ≤ threshold) (word : threshold < u32_mod) where
  later-IsCounted :
      (b d failures : ℕ) (until : Option ℕ)
      → b ≤ d
      → IsCounted threshold b failures until
      → IsCounted threshold d failures until
  later-IsCounted b d f none le s = s
  later-IsCounted b d f (some u) le s = omega (arith, le, s)

  is_tripped-IsSound :
      (now bound : ℕ) (c : CircuitState)
      → IsSound threshold bound c
      → IsSound threshold bound (is_tripped now c).1
  unfolding is_tripped
  is_tripped-IsSound now bound c s = go c.failures c.tripped_until s
    where
      go :
          (f : ℕ) (u : Option ℕ)
          → IsCounted threshold bound f u
          → IsSound threshold bound (is_tripped now record { failures = f; tripped_until = u }).1
      go f none h = h
      go f (some u) h = ground (arith, h, applies)

  record_failure-IsSound :
      (now : ℕ) (c : CircuitState)
      → IsSound threshold (now + cooldown) c
      → IsSound threshold (now + cooldown) (record_failure threshold cooldown now c)
  unfolding record_failure
  record_failure-IsSound now c s = go c.failures c.tripped_until s
    where
      go :
          (f : ℕ) (u : Option ℕ)
          → IsCounted threshold (now + cooldown) f u
          → IsSound threshold
              (now + cooldown)
              (record_failure threshold cooldown now record { failures = f; tripped_until = u })
      go f none h = ground (arith, h, applies)
      go f (some u) h = ground (arith, h, applies, word)

  later-IsSound :
      (t : Traffic) (now : ℕ)
      → IsSound threshold (t.now + cooldown) t.circuit
      → t.now ≤ now
      → IsSound threshold (now + cooldown) t.circuit
  later-IsSound t now s le =
      later-IsCounted (t.now + cooldown) (now + cooldown) t.circuit.failures t.circuit.tripped_until
        (omega (arith, le)) s

  Step-IsSound :
      (t u : Traffic)
      → IsSound threshold (t.now + cooldown) t.circuit
      → Step threshold cooldown t u
      → IsSound threshold (u.now + cooldown) u.circuit
  Step-IsSound t _ s (refuse _ now until le e) =
      is_tripped-IsSound now (now + cooldown) t.circuit (later-IsSound t now s le)
  Step-IsSound t _ s (start _ now le e) =
      is_tripped-IsSound now (now + cooldown) t.circuit (later-IsSound t now s le)
  Step-IsSound t _ s (finish _ now n (ok a) le e) = unfold reset in applies
  Step-IsSound t _ s (finish _ now n (err kind) le e) =
      record_failure-IsSound now t.circuit (later-IsSound t now s le)

  -- However the calls overlap, the breaker is open only when at least `threshold` failures have been counted since it was
  -- last reset, it is open at the latest until `cooldown` from the present, and while it is closed it has counted
  -- fewer than `threshold`. The threshold is a `u32` and not zero.
  pub breaker-IsSound :
      (t : Traffic)
      → Reachable threshold cooldown t
      → IsSound threshold (t.now + cooldown) t.circuit
  breaker-IsSound _ (initial now) = omega (arith, applies)
  breaker-IsSound _ (next t u r st) = Step-IsSound t u (breaker-IsSound t r) st

-- Calls that do not overlap and whose requests fail, each with its start, its end and the kind of its error.
abbrev pub Failure : Type 0
Failure = ℕ × ℕ × RouterErrorKind

abbrev pub failing :
    (threshold cooldown : ℕ) → Failure → CircuitState → Posted (Unit {0}) × CircuitState
failing threshold cooldown (before, after, kind) c =
    post_json true threshold cooldown before after (err kind) c

abbrev pub after_failures : (threshold cooldown : ℕ) → List Failure → CircuitState → CircuitState
after_failures threshold cooldown [] c = c
after_failures threshold cooldown (f ∷ fs) c =
    after_failures threshold cooldown fs (failing threshold cooldown f c).1

module _ (threshold cooldown : ℕ) (word : suc threshold < u32_mod) where
  one_more :
      (now n : ℕ)
      → n < threshold
      → record_failure (suc threshold) cooldown now record { failures = n; tripped_until = none }
        ≡ record { failures = n + 1; tripped_until = none }
  unfolding record_failure
  one_more now n low = ground (arith, low, word)

  counting :
      (fs : List Failure) (n : ℕ)
      → n + length fs ≤ threshold
      → after_failures (suc threshold) cooldown fs record { failures = n; tripped_until = none }
        ≡ record { failures = n + length fs; tripped_until = none }
  unfolding post_json
  counting [] n bound = ground arith
  counting ((before, after, kind) ∷ fs) n bound =
      ap (after_failures (suc threshold) cooldown fs) (one_more after n (omega (arith, bound)))
      ∙ counting fs (n + 1) (omega (arith, bound))
      ∙ ap (λ m. record { failures = m; tripped_until = none }) (omega arith)

  opening :
      (before after : ℕ) (kind : RouterErrorKind)
      → (failing
          (suc threshold)
          cooldown
          (before, after, kind)
          record { failures = threshold; tripped_until = none }).1
        ≡ record { failures = suc threshold; tripped_until = some (after + cooldown) }
  unfolding post_json
  opening before after kind = ground (arith, word)

  while_open :
      (until now later : ℕ) (result : Answer (Unit {0}))
      → let c : CircuitState = record { failures = suc threshold; tripped_until = some until } in
        post_json true (suc threshold) cooldown now later result c ≡ (
          if ltb now until
          then (refused until, c)
          else (sent result, settle_circuit (suc threshold) cooldown later result default_circuit))
  unfolding post_json
  while_open until now later result = elim (Bool-cases (ltb now until)) [
    | inl e ↦ ground (arith, e)
    | inr e ↦ ground (arith, e)
  ]

  -- The breaker opens at the failure that makes as many in a row as the threshold, and not before, until `cooldown` after
  -- the end of that one. A call in the meantime is refused and changes nothing. A call after it is sent, and
  -- is accounted for as the first on a new breaker.
  pub breaker_opens :
      (fs : List Failure) (before after now later : ℕ) (kind : RouterErrorKind)
      (result : Answer (Unit {0}))
      → length fs ≡ threshold
      → let closed = after_failures (suc threshold) cooldown fs default_circuit in
        let opened = (failing (suc threshold) cooldown (before, after, kind) closed).1 in
        (closed ≡ record { failures = threshold; tripped_until = none })
        × (opened ≡ record { failures = suc threshold; tripped_until = some (after + cooldown) })
        × (post_json true (suc threshold) cooldown now later result opened ≡ (
            if ltb now (after + cooldown) then (refused (after + cooldown), opened) else (
              sent result,
              settle_circuit (suc threshold) cooldown later result default_circuit,
            )))
  breaker_opens fs before after now later kind result full =
      let counted = counting fs 0 (omega (arith, full)) in
      let full_count : 0 + length fs ≡ threshold = omega (arith, full) in
      let closed_is =
        counted ∙ ap (λ m. record { failures = m; tripped_until = none }) full_count in
      let opened_is =
        ap (λ c. (failing (suc threshold) cooldown (before, after, kind) c).1) closed_is
        ∙ opening before after kind in
      (
        closed_is,
        opened_is,
        subst
            (λ c. post_json true (suc threshold) cooldown now later result c ≡ (
              if ltb now (after + cooldown) then (refused (after + cooldown), c) else (
                sent result,
                settle_circuit (suc threshold) cooldown later result default_circuit,
              )))
            (sym opened_is) (while_open (after + cooldown) now later result),
      )
