-- ===== src/Occ/RpcFetcher.antt =====
-- bundler/src/occ/rpc_fetcher.rs: the fetcher over RPC. A response of `getMultipleAccounts` has one value for
-- each key, in the order of the keys, and is given with the keys. Logging is left out.
use cpsr_lite.Prelude.{
  ℕ, ◌-◌, ◌≤◌, ◌<◌, ◌≡◌, refl, sym, Bool, true, Option, none, some, List, [], ◌∷◌, ◌++◌, arith,
  length, leb, ◌==◌, if◌then◌else◌, min, max, length-append, All, Bool-cases, subst, ap, inl, inr,
}
use cpsr_lite.Prelude.Text.{codes}
use cpsr_lite.Prelude.Words.{u64_mod}
use cpsr_lite.Types.{Pubkey}
use cpsr_lite.Occ.{
  FetchedAccount, OccSnapshot, Message, rpc, missing_account, Result, ok, err, lookup, capture_once,
  within_drift,
}
use cpsr_lite.Occ.Snapshots.{Found, found_none, found_next, lowest, highest, capture_once-slots}

pub record DriftStats : Type 0 where
  pub window : List Bool
  pub cap : ℕ

abbrev new_stats : ℕ → DriftStats
new_stats cap = record { window = []; cap = cap }

-- `window.remove(0)`
abbrev remove_first : List Bool → List Bool
remove_first [] = []
remove_first (b ∷ bs) = bs

unfoldable pub record_drift : Bool → DriftStats → DriftStats
record_drift accepted s = record s {
  window = (if length s.window == s.cap then remove_first s.window else s.window) ++ accepted ∷ [];
}

-- `Account` of the SDK, and the answer of a call.
pub record Account : Type 0 where
  pub lamports : ℕ
  pub owner : Pubkey
  pub bytes : List ℕ

pub data Response (A : Type 0) : Type 0 where
  answered : A → Response A
  refused : Message → Response A

-- The loop that stamps every account with the slot of the response, over what it has so far.
unfoldable pub stamp :
    ℕ
    → List (Pubkey × Option Account)
    → List (Pubkey × FetchedAccount)
    → Result (List (Pubkey × FetchedAccount))
stamp slot [] out = ok out
stamp slot ((key, none) ∷ rest) out = err (missing_account key)
stamp slot ((key, some acc) ∷ rest) out = stamp slot rest (
    (
      key,
      record {
        key = key;
        lamports = acc.lamports;
        owner = acc.owner;
        bytes = acc.bytes;
        slot = slot;
      },
    )
    ∷ out)

-- `slot` and `accounts` are the answers to `get_slot_with_commitment` and
-- `get_multiple_accounts_with_commitment`.
unfoldable pub rpc_fetch_many :
    ℕ
    → Response ℕ
    → (List Pubkey → Response (ℕ × List (Pubkey × Option Account)))
    → DriftStats
    → List Pubkey
    → Result (List (Pubkey × FetchedAccount)) × DriftStats
rpc_fetch_many max_slot_drift (refused m) accounts stats keys =
    (err (rpc (codes "get_slot: " ++ m)), stats)
rpc_fetch_many max_slot_drift (answered latest) accounts stats keys = elim (accounts keys) [
  | refused m ↦ (err (rpc (codes "get_multiple_accounts: " ++ m)), stats)
  | answered r ↦ (stamp r.0 r.1 [], record_drift (leb (latest - r.0) max_slot_drift) stats)
]

-- When the capacity is not zero and the window of the statistics holds at most that many, it still does
-- after a record.
pub record_drift-window :
    (accepted : Bool) (s : DriftStats)
    → 1 ≤ s.cap
    → length s.window ≤ s.cap
    → length (record_drift accepted s).window ≤ s.cap
unfolding record_drift
record_drift-window accepted s some_room fits = elim (Bool-cases (length s.window == s.cap)) [
  | inl e ↦ rw e (
      omega (
        arith,
        some_room,
        fits,
        length-append (remove_first s.window) (accepted ∷ []),
        length-remove_first s.window,
      ))
  | inr e ↦ rw e (grind (arith, some_room, fits, e, length-append s.window (accepted ∷ [])))
]
  where
    length-remove_first : (bs : List Bool) → length (remove_first bs) ≡ length bs - 1
    length-remove_first [] = refl
    length-remove_first (b ∷ bs) = omega arith

abbrev slot_or : ℕ → Option FetchedAccount → ℕ
slot_or d none = d
slot_or d (some fa) = fa.slot

abbrev IsStamped : ℕ → List (Pubkey × FetchedAccount) → Type 0
IsStamped slot m = (k : Pubkey) (fa : FetchedAccount) → lookup k m ≡ some fa → fa.slot ≡ slot

stamp-IsStamped :
    (slot : ℕ) (values : List (Pubkey × Option Account)) (out m : List (Pubkey × FetchedAccount))
    → IsStamped slot out
    → stamp slot values out ≡ ok m
    → IsStamped slot m
unfolding stamp
stamp-IsStamped slot [] out m stamped e =
    let same : out ≡ m = cc in subst (IsStamped slot) same stamped
stamp-IsStamped slot ((key, none) ∷ rest) out m stamped e = cc
stamp-IsStamped slot ((key, some acc) ∷ rest) out m stamped e = stamp-IsStamped slot rest _ m here e
  where
    here : IsStamped slot (
        (
          key,
          record {
            key = key;
            lamports = acc.lamports;
            owner = acc.owner;
            bytes = acc.bytes;
            slot = slot;
          },
        )
        ∷ out)
    here k fa f = elim (Bool-cases (k == key)) [
      | inl y ↦ ap (slot_or slot) (sym (rw y at f))
      | inr n ↦ stamped k fa (rw n at f)
    ]

-- Accounts of one slot do not spread the bounds.
one_slot :
    (t lo hi : ℕ) (fas : List FetchedAccount)
    → All (λ fa. fa.slot ≡ t) fas
    → hi ≤ t
    → t ≤ lo
    → highest hi fas ≤ lowest lo fas
one_slot t lo hi [] same h l = omega (arith, h, l)
one_slot t lo hi (fa ∷ fas) same h l =
    one_slot t (min lo fa.slot) (max hi fa.slot) fas same.1 (omega (arith, h, l, same.0))
      (omega (arith, h, l, same.0))

Found-All :
    (t : ℕ) (m : List (Pubkey × FetchedAccount)) (targets : List Pubkey) (fas : List FetchedAccount)
    → IsStamped t m
    → Found m targets fas
    → All (λ fa. fa.slot ≡ t) fas
Found-All t m _ _ stamped found_none = tt
Found-All t m _ _ stamped (found_next k ks fa fas e found) =
    (stamped k fa e, Found-All t m ks fas stamped found)

module _ (blake3 : List ℕ → List ℕ) where
  -- When both calls of a fetch are answered, with a slot of 64 bits, and its map has every target, the
  -- capture over it succeeds, and passes the check of the slots' drift for the bound zero.
  pub rpc_fetch_many-within_drift :
      (max_slot_drift latest attempt : ℕ)
      (accounts : List Pubkey → Response (ℕ × List (Pubkey × Option Account)))
      (r : ℕ × List (Pubkey × Option Account)) (stats : DriftStats)
      (m : List (Pubkey × FetchedAccount)) (targets : List Pubkey) (fas : List FetchedAccount)
      → accounts targets ≡ answered r
      → r.0 < u64_mod
      → (rpc_fetch_many max_slot_drift (answered latest) accounts stats targets).0 ≡ ok m
      → Found m targets fas
      → (snap : OccSnapshot) × (capture_once blake3
            (λ n keys. (rpc_fetch_many max_slot_drift (answered latest) accounts stats keys).0)
            attempt
            targets
          ≡ ok snap)
        × (within_drift snap 0 ≡ true)
  unfolding rpc_fetch_many within_drift
  rpc_fetch_many-within_drift d latest attempt accounts r stats m targets fas reply small answers
        found =
      (
        _,
        capture_once-slots blake3 _ attempt m targets fas answers found,
        ground (
          arith,
          one_slot r.0 0xffff_ffff_ffff_ffff 0 fas
              (Found-All r.0 m targets fas
                (stamp-IsStamped r.0 r.1 [] m nothing (rw (rpc_fetch_many, reply) at answers))
                found)
              (omega arith) (omega (arith, small)),
        ),
      )
    where
      nothing : IsStamped r.0 []
      nothing k fa e = cc
