-- ===== src/Occ/Targets.antt =====
-- bundler/src/occ/mod.rs: which accounts `collect_target_accounts` returns.
use cpsr_lite.Prelude.{
  ℕ, ◌≡◌, refl, ◌∙◌, ap, ◌<◌, Bool, true, false, ◌&&◌, ◌||◌, List, [], ◌∷◌, any, arith, ◌==◌,
  Bool-cases, inl, inr,
}
use cpsr_lite.Prelude.Sets.{insert_set, contains, contains-insert_set}
use cpsr_lite.Types.{Pubkey, AccountAccess, UserIntent}
use cpsr_lite.Types.Access.{is_writable_kind}
use cpsr_lite.Occ.{collect_target_accounts, collect_intents, collect_accesses}

-- Some access of one of the intents is to `k`, and is to be fingerprinted.
abbrev pub touches : Bool → Pubkey → List AccountAccess → Bool
touches include_readonly k accs =
    any (λ a. (is_writable_kind a.access || include_readonly) && (a.pubkey == k)) accs

abbrev pub touched : Bool → Pubkey → List UserIntent → Bool
touched include_readonly k intents = any (λ i. touches include_readonly k i.accesses) intents

-- Ascending keys, without repetition.
abbrev pub IsAscending : List Pubkey → Type 0
IsAscending [] = Unit
IsAscending (x ∷ []) = Unit
IsAscending (x ∷ y ∷ ys) = (x < y) × IsAscending (y ∷ ys)

insert_set-IsAscending : (v : ℕ) (s : List ℕ) → IsAscending s → IsAscending (insert_set v s)
unfolding insert_set
insert_set-IsAscending v [] h = tt
insert_set-IsAscending v (x ∷ []) h = ground arith
insert_set-IsAscending v (x ∷ y ∷ ys) h = ground (arith, insert_set-IsAscending v (y ∷ ys) h.1)

collect_accesses_lem :
    (ro : Bool) (k : Pubkey) (accs : List AccountAccess) (keys : List Pubkey)
    → contains (collect_accesses accs ro keys) k ≡ (contains keys k || touches ro k accs)
unfolding collect_accesses
collect_accesses_lem ro k [] keys = ground arith
collect_accesses_lem ro k (a ∷ accs) keys = ground (
  arith,
  collect_accesses_lem ro k accs keys,
  collect_accesses_lem ro k accs (insert_set a.pubkey keys),
  contains-insert_set a.pubkey k keys,
)

collect_intents_lem :
    (ro : Bool) (k : Pubkey) (intents : List UserIntent) (keys : List Pubkey)
    → contains (collect_intents intents ro keys) k ≡ (contains keys k || touched ro k intents)
unfolding collect_intents
collect_intents_lem ro k [] keys = ground arith
collect_intents_lem ro k (i ∷ intents) keys =
    collect_intents_lem ro k intents (collect_accesses i.accesses ro keys)
    ∙ ap (λ b. b || touched ro k intents) (collect_accesses_lem ro k i.accesses keys)
    ∙ or_assoc (contains keys k) (touches ro k i.accesses) (touched ro k intents)
  where
    or_assoc : (a b c : Bool) → ((a || b) || c) ≡ (a || (b || c))
    or_assoc true b c = refl
    or_assoc false b c = refl

collect_accesses-IsAscending :
    (ro : Bool) (accs : List AccountAccess) (keys : List Pubkey)
    → IsAscending keys
    → IsAscending (collect_accesses accs ro keys)
unfolding collect_accesses
collect_accesses-IsAscending ro [] keys h = h
collect_accesses-IsAscending ro (a ∷ accs) keys h =
    elim (Bool-cases (is_writable_kind a.access || ro)) [
      | inl e ↦
          rw e (collect_accesses-IsAscending ro accs _ (insert_set-IsAscending a.pubkey keys h))
      | inr e ↦ rw e (collect_accesses-IsAscending ro accs keys h)
    ]

collect_intents-IsAscending :
    (ro : Bool) (intents : List UserIntent) (keys : List Pubkey)
    → IsAscending keys
    → IsAscending (collect_intents intents ro keys)
unfolding collect_intents
collect_intents-IsAscending ro [] keys h = h
collect_intents-IsAscending ro (i ∷ intents) keys h =
    collect_intents-IsAscending ro intents _ (collect_accesses-IsAscending ro i.accesses keys h)

-- `collect_target_accounts` returns, in ascending order and without repetition, exactly the accounts
-- that some intent accesses, those that are only read among them if `include_readonly` is set.
pub collect_target_accounts_lem :
    (intents : List UserIntent) (include_readonly : Bool)
    → IsAscending (collect_target_accounts intents include_readonly)
      × ((k : Pubkey)
          → contains (collect_target_accounts intents include_readonly) k
            ≡ touched include_readonly k intents)
unfolding collect_target_accounts
collect_target_accounts_lem intents include_readonly = (
  collect_intents-IsAscending include_readonly intents [] tt,
  λ k. collect_intents_lem include_readonly k intents [],
)
