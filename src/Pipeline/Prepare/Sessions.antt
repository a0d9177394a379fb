-- ===== src/Pipeline/Prepare/Sessions.antt =====
-- bundler/src/pipeline/rollup.rs: the sessions that `prepare_chunk` begins.
use cpsr_lite.Prelude.{
  Bool, true, false, ◌||◌, ◌≡◌, refl, ◌∙◌, ap, List, [], ◌∷◌, is_empty, any, ◌==◌, arith,
}
use cpsr_lite.Prelude.Sets.{contains, insert_set, contains-insert_set}
use cpsr_lite.Types.{Pubkey, AccountAccess, UserIntent}
use cpsr_lite.Er.Execute.{ErSession, ErOutput}
use cpsr_lite.Sender.{Result, ok, err}
use cpsr_lite.Pipeline.Prepare.{
  ErClient, ErExecutionCtx, insert_accesses, insert_intents, collect_session_accounts, executed,
  began, prepare_chunk,
}

abbrev touches : Pubkey → UserIntent → Bool
touches k intent = any (λ a. a.pubkey == k) intent.accesses

insert_accesses_lem :
    (k : Pubkey) (accesses : List AccountAccess) (set : List Pubkey)
    → contains (insert_accesses accesses set) k
      ≡ (contains set k || any (λ a. a.pubkey == k) accesses)
unfolding insert_accesses
insert_accesses_lem k [] set = ground arith
insert_accesses_lem k (a ∷ accesses) set = ground (
  arith,
  insert_accesses_lem k accesses (insert_set a.pubkey set),
  contains-insert_set a.pubkey k set,
)

insert_intents_lem :
    (k : Pubkey) (intents : List UserIntent) (set : List Pubkey)
    → contains (insert_intents intents set) k ≡ (contains set k || any (touches k) intents)
unfolding insert_intents
insert_intents_lem k [] set = ground arith
insert_intents_lem k (i ∷ intents) set = ground (
  arith,
  insert_intents_lem k intents (insert_accesses i.accesses set),
  insert_accesses_lem k i.accesses set,
)

-- The accounts of a session are those of the payer and of the accesses.
collect_session_accounts_lem :
    (payer : Pubkey) (intents : List UserIntent) (k : Pubkey)
    → contains (collect_session_accounts payer intents) k ≡ (payer == k || any (touches k) intents)
unfolding collect_session_accounts
collect_session_accounts_lem payer intents k =
    ground
      (arith, insert_intents_lem k intents (insert_set payer []), contains-insert_set payer k [])

pub accounts_nonempty :
    (payer : Pubkey) (intents : List UserIntent)
    → is_empty (collect_session_accounts payer intents) ≡ false
accounts_nonempty payer intents =
    some_member _ (ground (arith, collect_session_accounts_lem payer intents payer))
  where
    some_member : (s : List Pubkey) → contains s payer ≡ true → is_empty s ≡ false
    some_member [] e = cc e
    some_member (x ∷ s) e = refl

module _ {C : Type 0} (client : ErClient C) (self : ErExecutionCtx) (payer : Pubkey)
    (intents : List UserIntent) where
  executed-ended :
      (session : ErSession) (answer : Result ErOutput × C)
      → (executed client self payer intents session answer).1
        ≡ (client.end_session session answer.1).1
  unfolding executed
  executed-ended session (ok output, c) = refl
  executed-ended session (err e, c) = refl

  pub prepare_chunk-began :
      (c : C)
      → self.enabled ≡ true
      → is_empty intents ≡ false
      → prepare_chunk client self payer intents c
        ≡ began client self payer intents
            (client.begin_session (collect_session_accounts payer intents) c)
  unfolding prepare_chunk
  prepare_chunk-began c enabled nonempty =
      rw enabled (rw nonempty (rw (accounts_nonempty payer intents) refl))

  -- When the rollup is enabled and there are intents, `prepare_chunk` begins one session, for exactly the payer and
  -- the accounts of the intents. A session that begins is given the intents to execute, and is ended once, as the
  -- last call of the client, whatever the execution answers.
  pub prepare_chunk_ends :
      (c c1 : C) (session : ErSession)
      → self.enabled ≡ true
      → is_empty intents ≡ false
      → client.begin_session (collect_session_accounts payer intents) c ≡ (ok session, c1)
      → ((k : Pubkey)
          → contains (collect_session_accounts payer intents) k
            ≡ (payer == k || any (touches k) intents))
        × ((prepare_chunk client self payer intents c).1
            ≡ (client.end_session session (client.execute session intents c1).1).1)
  unfolding began
  prepare_chunk_ends c c1 session enabled nonempty begins = (
    collect_session_accounts_lem payer intents,
    ap (λ r. r.1) (prepare_chunk-began c enabled nonempty)
        ∙ ap (λ a. (began client self payer intents a).1) begins
        ∙ executed-ended session (client.execute session intents c1),
  )
