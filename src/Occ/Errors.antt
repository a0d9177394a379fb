-- ===== src/Occ/Errors.antt =====
-- bundler/src/occ/mod.rs: the classification of errors.
use cpsr_lite.Prelude.{◌≡◌, refl, sym, ap, ◌∙◌, Bool, true, false, ◌&&◌, ◌||◌, if◌then◌else◌}
use cpsr_lite.Prelude.Text.{to_ascii_lowercase}
use cpsr_lite.Occ.{
  OccError, rpc, missing_account, unauthorized, slot_drift, retries_exhausted, Message, is_fatal,
  map_rpc_variant, classify_rpc_message, names_authorization, names_missing_account, is_fatal_class,
  fatal, retriable,
}

module _ (msg : Message) where
  abbrev by_authorization : Bool
  by_authorization = names_authorization (to_ascii_lowercase msg)

  abbrev by_account : Bool
  by_account = names_missing_account (to_ascii_lowercase msg)

  class_of : is_fatal_class (classify_rpc_message msg) ≡ (by_authorization || by_account)
  unfolding classify_rpc_message
  class_of = either by_authorization by_account
    where
      either :
          (a b : Bool)
          → is_fatal_class (if a then fatal else if b then fatal else retriable) ≡ (a || b)
      either true b = refl
      either false true = refl
      either false false = refl

  is_fatal_rpc : is_fatal (rpc msg) ≡ (by_authorization || by_account)
  unfolding is_fatal
  is_fatal_rpc = class_of

  renamed : map_rpc_variant (rpc msg) ≡ (if by_authorization then unauthorized msg else rpc msg)
  unfolding map_rpc_variant
  renamed =
      ap (λ c. if c && by_authorization then unauthorized msg else rpc msg) class_of
      ∙ ap (λ c. if c then unauthorized msg else rpc msg) (absorb by_authorization by_account)
    where
      absorb : (a b : Bool) → ((a || b) && a) ≡ a
      absorb true b = refl
      absorb false true = refl
      absorb false false = refl

  renamed-is_fatal : is_fatal (map_rpc_variant (rpc msg)) ≡ is_fatal (rpc msg)
  renamed-is_fatal = ap is_fatal renamed ∙ unchanged by_authorization by_account is_fatal_rpc
    where
      unchanged :
          (a b : Bool)
          → is_fatal (rpc msg) ≡ (a || b)
          → is_fatal (if a then unauthorized msg else rpc msg) ≡ is_fatal (rpc msg)
      unchanged true b e = unfold is_fatal in sym e
      unchanged false b e = refl

-- `map_rpc_variant` renames errors of authorization and changes no error's class: an error is fatal
-- after it exactly when it was before. An RPC error is fatal when its message, in lower case, names
-- an authorization failure or a missing account, and becomes `Unauthorized` exactly in the first case.
pub map_rpc_variant-is_fatal :
    (e : OccError) (msg : Message)
    → (is_fatal (map_rpc_variant e) ≡ is_fatal e)
      × (is_fatal (rpc msg) ≡ (
          names_authorization (to_ascii_lowercase msg)
          || names_missing_account (to_ascii_lowercase msg)))
      × (map_rpc_variant (rpc msg)
          ≡ (if names_authorization (to_ascii_lowercase msg) then unauthorized msg else rpc msg))
map_rpc_variant-is_fatal e msg = (same e, is_fatal_rpc msg, renamed msg)
  where
    same : (x : OccError) → is_fatal (map_rpc_variant x) ≡ is_fatal x
    same (rpc m) = renamed-is_fatal m
    same (missing_account k) = unfold map_rpc_variant in refl
    same (unauthorized m) = unfold map_rpc_variant in refl
    same (slot_drift l h d a) = unfold map_rpc_variant in refl
    same retries_exhausted = unfold map_rpc_variant in refl
