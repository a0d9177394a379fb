-- ===== src/Dag/Build/Entries.antt =====
-- bundler/src/dag/mod.rs: what the map `by_account` holds.
use cpsr_lite.Prelude.{
  ℕ, zero, suc, ◌+◌, ◌≡◌, refl, sym, ap, ◌⊎◌, inl, inr, some, List, [], ◌∙◌, ◌∷◌, ◌++◌, arith,
  get_elem?, ◌==◌, if◌then◌else◌,
}
use cpsr_lite.Prelude.Sort.{In, In-append, In-append_left, In-append_right}
use cpsr_lite.Types.{Pubkey, AccountAccess, UserIntent}
use cpsr_lite.Dag.Build.{
  Participant, Entry, participant, push_participant, fill_intent, fill_by_account,
}

-- `q` is listed under the account `k`.
abbrev pub Registered : Pubkey → Participant → List Entry → Type 0
Registered k q [] = ⊥
Registered k q ((j, ps) ∷ m) = (j ≡ k) × In q ps ⊎ Registered k q m

pub In-Registered :
    (k : Pubkey) (ps : List Participant) (q : Participant) (m : List Entry)
    → In (k, ps) m
    → In q ps
    → Registered k q m
In-Registered k ps q ((j, qs) ∷ m) (inl e) h =
    inl (ap (λ (x : Entry). x.0) e, rw (ap (λ (x : Entry). x.1) e) h)
In-Registered k ps q ((j, qs) ∷ m) (inr i) h = inr (In-Registered k ps q m i h)
In-Registered k ps q [] i h = absurd i

push_participant-Registered :
    (k k0 : Pubkey) (q p : Participant) (m : List Entry)
    → Registered k q (push_participant k0 p m)
    → Registered k q m ⊎ (k0 ≡ k) × (p ≡ q)
unfolding push_participant
push_participant-Registered k k0 q p [] h = ground arith
push_participant-Registered k k0 q p ((j, ps) ∷ m) h =
    ground (arith, In-append q ps (p ∷ []), push_participant-Registered k k0 q p m)

-- The participants of an account, in the order in which they were pushed.
abbrev pub entry : Pubkey → List Entry → List Participant
entry k [] = []
entry k ((j, ps) ∷ m) = if j == k then ps else entry k m

entry-push_participant :
    (k k0 : Pubkey) (p : Participant) (m : List Entry)
    → entry k (push_participant k0 p m) ≡ (if k0 == k then entry k m ++ p ∷ [] else entry k m)
unfolding push_participant
entry-push_participant k k0 p [] = ground arith
entry-push_participant k k0 p ((j, ps) ∷ m) = ground (arith, entry-push_participant k k0 p m)

pub In-entry :
    (k : Pubkey) (q : Participant) (m : List Entry) → In q (entry k m) → In (k, entry k m) m
In-entry k q [] h = absurd h
In-entry k q ((j, ps) ∷ m) h = ground (arith, In-entry k q m)

-- Where a participant comes from: an access of the intent at its index.
pub record IsFrom (idx : ℕ) (intents : List UserIntent) (k : Pubkey) (q : Participant)
    : Type 0 where
  pub index : ℕ
  pub intent : UserIntent
  pub access : AccountAccess
  pub is_intent : get_elem? intents index ≡ some intent
  pub is_access : In access intent.accesses
  pub on_account : access.pubkey ≡ k
  pub is_participant : q ≡ participant (idx + index) intent access

fill_intent-Registered :
    (idx : ℕ) (intent : UserIntent) (accesses : List AccountAccess) (k : Pubkey) (q : Participant)
    (m : List Entry)
    → Registered k q (fill_intent idx intent accesses m)
    → Registered k q m
      ⊎ ((a : AccountAccess) × In a accesses × (a.pubkey ≡ k) × (q ≡ participant idx intent a))
unfolding fill_intent
fill_intent-Registered idx intent [] k q m h = inl h
fill_intent-Registered idx intent (a ∷ rest) k q m h =
    elim (fill_intent-Registered idx intent rest k q _ h) [
      | inl r ↦ elim (push_participant-Registered k a.pubkey q _ m r) [
        | inl old ↦ inl old
        | inr (on, is) ↦ inr (a, inl refl, on, sym is)
      ]
      | inr (b, here, on, is) ↦ inr (b, inr here, on, is)
    ]

pub participant_at :
    (intent : UserIntent) (a : AccountAccess) (i j : ℕ)
    → i ≡ j
    → participant i intent a ≡ participant j intent a
participant_at intent a i j e = ap (λ n. participant n intent a) e

pub fill_by_account-Registered :
    (idx : ℕ) (intents : List UserIntent) (k : Pubkey) (q : Participant) (m : List Entry)
    → Registered k q (fill_by_account idx intents m)
    → Registered k q m ⊎ IsFrom idx intents k q
unfolding fill_by_account
fill_by_account-Registered idx [] k q m h = inl h
fill_by_account-Registered idx (intent ∷ rest) k q m h =
    elim (fill_by_account-Registered (suc idx) rest k q _ h) [
      | inl r ↦ elim (fill_intent-Registered idx intent intent.accesses k q m r) [
        | inl old ↦ inl old
        | inr (a, here, on, is) ↦ inr (record {
          index = 0;
          intent = intent;
          access = a;
          is_intent = refl;
          is_access = here;
          on_account = on;
          is_participant = is ∙ participant_at intent a idx _ (omega arith);
        })
      ]
      | inr f ↦ inr (record {
        index = suc f.index;
        intent = f.intent;
        access = f.access;
        is_intent = f.is_intent;
        is_access = f.is_access;
        on_account = f.on_account;
        is_participant =
            f.is_participant ∙ participant_at f.intent f.access (suc idx + f.index) _ (omega arith);
      })
    ]

-- Every access is pushed, and nothing is taken out.
In-entry-fill_intent :
    (idx : ℕ) (intent : UserIntent) (accesses : List AccountAccess) (k : Pubkey) (q : Participant)
    (m : List Entry)
    → In q (entry k m)
    → In q (entry k (fill_intent idx intent accesses m))
unfolding fill_intent
In-entry-fill_intent idx intent [] k q m h = h
In-entry-fill_intent idx intent (a ∷ rest) k q m h = In-entry-fill_intent idx intent rest k q _ (
    rw entry-push_participant
      (ground (arith, In-append_left q (entry k m) (participant idx intent a ∷ []) h)))

fill_intent_adds :
    (idx : ℕ) (intent : UserIntent) (accesses : List AccountAccess) (a : AccountAccess)
    (m : List Entry)
    → In a accesses
    → In (participant idx intent a) (entry a.pubkey (fill_intent idx intent accesses m))
unfolding fill_intent
fill_intent_adds idx intent [] a m h = absurd h
fill_intent_adds idx intent (b ∷ rest) a m (inl e) =
    let p = participant idx intent a in
    rw e (
      In-entry-fill_intent idx intent rest a.pubkey p (push_participant a.pubkey p m) (
        rw entry-push_participant
          (ground (arith, In-append_right p (entry a.pubkey m) (p ∷ []) (inl refl)))))
fill_intent_adds idx intent (b ∷ rest) a m (inr h) = fill_intent_adds idx intent rest a _ h

In-entry-fill_by_account :
    (idx : ℕ) (intents : List UserIntent) (k : Pubkey) (q : Participant) (m : List Entry)
    → In q (entry k m)
    → In q (entry k (fill_by_account idx intents m))
unfolding fill_by_account
In-entry-fill_by_account idx [] k q m h = h
In-entry-fill_by_account idx (intent ∷ rest) k q m h =
    In-entry-fill_by_account (suc idx) rest k q _
      (In-entry-fill_intent idx intent intent.accesses k q m h)

pub fill_by_account_adds :
    (idx i : ℕ) (intents : List UserIntent) (intent : UserIntent) (a : AccountAccess)
    (m : List Entry)
    → get_elem? intents i ≡ some intent
    → In a intent.accesses
    → In (participant (idx + i) intent a) (entry a.pubkey (fill_by_account idx intents m))
unfolding fill_by_account
fill_by_account_adds idx i [] intent a m e h = cc
fill_by_account_adds idx zero (x ∷ rest) intent a m e h =
    let same : x ≡ intent = ground arith in
    let here : idx + 0 ≡ idx = omega arith in
    rw (same, here)
      (In-entry-fill_by_account (suc idx) rest a.pubkey (participant idx intent a)
        (fill_intent idx intent intent.accesses m)
        (fill_intent_adds idx intent intent.accesses a m h))
fill_by_account_adds idx (suc i) (x ∷ rest) intent a m e h =
    let there : idx + suc i ≡ suc idx + i = omega arith in
    rw there (fill_by_account_adds (suc idx) i rest intent a (fill_intent idx x x.accesses m) e h)
