-- ===== src/Blockhash/Exclusion.antt =====
-- bundler/src/pipeline/blockhash.rs: `refresh_in_flight` among concurrent tasks.
use cpsr_lite.Prelude.{
  ℕ, zero, suc, ◌+◌, ◌≤◌, ◌≡◌, refl, sym, some, List, [], ◌∷◌, arith, get_elem?, set, if◌then◌else◌,
  Bool-cases, inl, inr,
}
use cpsr_lite.Blockhash.{
  Settings, Shared, Task, Answers, LeaseOutcome, success, stale_detected, deciding, wanting,
  fetching, installing, releasing, failing, issuing, checking, invalidating, granting, returned,
  failed, advance, decide, fetch, issue, check, record_outcome, mark_layer_boundary, new_shared,
}

-- 1 for a task between the acquisition of the flag and its release.
abbrev pub holds_flag : Task → ℕ
holds_flag (fetching r) = 1
holds_flag (installing l) = 1
holds_flag releasing = 1
holds_flag failing = 1
holds_flag _ = 0

abbrev pub holders : List Task → ℕ
holders [] = 0
holders (t ∷ ts) = holds_flag t + holders ts

abbrev pub flag : Shared → ℕ
flag sh = if sh.refresh_in_flight then 1 else 0

-- A step of the manager: of one of the tasks, of a new caller, or of one of the two notifications.
pub data Step (s : Settings) : Shared × List Task → Shared × List Task → Type 0 where
  task_step :
      (sh : Shared) (ts : List Task) (i : ℕ) (t : Task) (a : Answers)
      → get_elem? ts i ≡ some t
      → Step s (sh, ts) ((advance s a sh t).0, set ts i (advance s a sh t).1)
  call : (sh : Shared) (ts : List Task) → Step s (sh, ts) (sh, deciding ∷ ts)
  outcome :
      (sh : Shared) (ts : List Task) (o : LeaseOutcome) → Step s (sh, ts) (record_outcome o sh, ts)
  boundary : (sh : Shared) (ts : List Task) → Step s (sh, ts) (mark_layer_boundary sh, ts)

pub data Reachable (s : Settings) : Shared × List Task → Type 0 where
  start : Reachable s (new_shared, [])
  next : (x y : Shared × List Task) → Reachable s x → Step s x y → Reachable s y

holders-set :
    (ts : List Task) (i : ℕ) (t u : Task)
    → get_elem? ts i ≡ some t
    → holders (set ts i u) + holds_flag t ≡ holders ts + holds_flag u
holders-set [] i t u e = cc
holders-set (x ∷ ts) zero t u e = let same : x ≡ t = ground arith in rw (sym same) (omega arith)
holders-set (x ∷ ts) (suc i) t u e = omega (arith, holders-set ts i t u e)

holds_flag-le :
    (ts : List Task) (i : ℕ) (t : Task) → get_elem? ts i ≡ some t → holds_flag t ≤ holders ts
holds_flag-le [] i t e = cc
holds_flag-le (x ∷ ts) zero t e = let same : x ≡ t = ground arith in rw (sym same) (omega arith)
holds_flag-le (x ∷ ts) (suc i) t e = omega (arith, holds_flag-le ts i t e)

decide-holds :
    (s : Settings) (a : Answers) (sh : Shared)
    → (holds_flag (decide s a sh).1 ≡ 0) × (flag (decide s a sh).0 ≡ flag sh)
unfolding decide
decide-holds s a sh = ground arith

issue-holds :
    (s : Settings) (a : Answers) (sh : Shared)
    → (holds_flag (issue s a sh).1 ≡ 0) × (flag (issue s a sh).0 ≡ flag sh)
unfolding issue
issue-holds s a sh = ground arith

check-holds : (s : Settings) (a : Answers) (l : _) → holds_flag (check s a l) ≡ 0
unfolding check
check-holds s a l = ground arith

-- A step of a task moves the flag along with the task.
pub advance-holds :
    (s : Settings) (a : Answers) (sh : Shared) (t : Task)
    → holds_flag t ≤ flag sh
    → holds_flag (advance s a sh t).1 + flag sh ≡ holds_flag t + flag (advance s a sh t).0
unfolding advance
advance-holds s a sh deciding h = omega (arith, decide-holds s a sh)
advance-holds s a sh (wanting r) h = elim (Bool-cases sh.refresh_in_flight) [
  | inl e ↦ rw e (omega arith)
  | inr e ↦ rw e (omega arith)
]
advance-holds s a sh (fetching r) h = unfold fetch in ground arith
advance-holds s a sh (installing l) h = omega arith
advance-holds s a sh releasing h = ground arith
advance-holds s a sh failing h = ground arith
advance-holds s a sh issuing h = omega (arith, issue-holds s a sh)
advance-holds s a sh (checking l) h = omega (arith, check-holds s a l)
advance-holds s a sh invalidating h = omega arith
advance-holds s a sh (granting l) h = omega arith
advance-holds s a sh (returned l) h = omega arith
advance-holds s a sh failed h = omega arith

Step-holders :
    (s : Settings) (x y : Shared × List Task)
    → Step s x y
    → holders x.1 ≡ flag x.0
    → holders y.1 ≡ flag y.0
unfolding record_outcome mark_layer_boundary
Step-holders s _ _ (task_step sh ts i t a e) inv = omega (
  arith,
  holders-set ts i t (advance s a sh t).1 e,
  advance-holds s a sh t (omega (arith, holds_flag-le ts i t e)),
)
Step-holders s _ _ (call sh ts) inv = omega arith
Step-holders s _ _ (outcome sh ts success) inv = inv
Step-holders s _ _ (outcome sh ts stale_detected) inv = inv
Step-holders s _ _ (boundary sh ts) inv = inv

-- In every reachable state, the tasks that have acquired `refresh_in_flight` and not yet released it
-- are as many as the flag says: one when it is set and none when it is clear. So at most one task is
-- fetching at a time, and the flag is never left set by a task that has ended.
pub one_refresher : (s : Settings) (x : Shared × List Task) → Reachable s x → holders x.1 ≡ flag x.0
one_refresher s _ start = refl
one_refresher s _ (next x y r st) = Step-holders s x y st (one_refresher s x r)
