-- ===== src/Dag/Build/Reasons.antt =====
-- bundler/src/dag/mod.rs: why one intent must run before another, by the module's description.
use cpsr_lite.Prelude.{
  ◌≢◌, arith, ℕ, ◌<◌, ◌≡◌, Bool, true, ◌&&◌, ◌⊎◌, some, List, any, ◌==◌, get_elem?,
}
use cpsr_lite.Types.{Pubkey, UserIntent}
use cpsr_lite.Types.Access.{is_writable_kind}

abbrev pub writes : Pubkey → UserIntent → Bool
writes k intent = any (λ a. a.pubkey == k && is_writable_kind a.access) intent.accesses

abbrev pub touches : Pubkey → UserIntent → Bool
touches k intent = any (λ a. a.pubkey == k) intent.accesses

-- The order key: the higher priority first, and the lower index among equals.
abbrev pub Precedes : ℕ → UserIntent → ℕ → UserIntent → Type 0
Precedes u first v second =
    (second.priority < first.priority) ⊎ (first.priority ≡ second.priority) × (u < v)

-- The intent `u` comes first by the order key, and writes an account that the intent `v` touches.
pub record MustPrecede (intents : List UserIntent) (u v : ℕ) : Type 0 where
  pub first : UserIntent
  pub second : UserIntent
  pub is_first : get_elem? intents u ≡ some first
  pub is_second : get_elem? intents v ≡ some second
  pub order : Precedes u first v second
  pub account : Pubkey
  pub written : writes account first ≡ true
  pub touched : touches account second ≡ true

pub MustPrecede-ne : (intents : List UserIntent) (u v : ℕ) → MustPrecede intents u v → u ≢ v
MustPrecede-ne intents u v r same = ground (arith, r.order, r.is_first, r.is_second)
