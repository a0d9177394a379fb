-- ===== src/Er/Bhfa.antt =====
-- bundler/src/er/bhfa.rs: the router's blockhash for the accounts that intents write. HTTP, JSON, the text of a key and the parsing of a
-- hash are parameters; the text of an error is the context that it is given.
use cpsr_lite.Prelude.{
  ℕ, Option, none, some, List, [], ◌∷◌, ◌++◌, map, select, is_empty, if◌then◌else◌,
}
use cpsr_lite.Prelude.Text.{codes}
use cpsr_lite.Types.{Pubkey, UserIntent}
use cpsr_lite.Er.{Url}
use cpsr_lite.Sender.{Result, ok, err}

pub record BhfaConfig : Type 0 where
  pub router_url : Url
  pub router_api_key : Option (List ℕ)
  pub http_timeout : ℕ
  pub connect_timeout : ℕ

abbrev pub writables : List UserIntent → List Pubkey
writables [] = []
writables (i ∷ intents) =
    map (λ m. m.pubkey) (select (λ m. m.is_writable) i.ix.accounts) ++ writables intents

abbrev or_payer : List Pubkey → Pubkey → List Pubkey
or_payer [] payer = payer ∷ []
or_payer (k ∷ accounts) payer = k ∷ accounts

unfoldable pub collect_writables_or_payer : List UserIntent → Pubkey → List Pubkey
collect_writables_or_payer intents payer = or_payer (writables intents) payer

-- The request: its address, its header if one is sent, and the texts of the keys.
pub record BhfaRequest : Type 0 where
  pub url : Url
  pub x_api_key : Option (List ℕ)
  pub pubkeys : List (List ℕ)

-- The field `result` by the fields that are read, each `none` where it is missing or has another type.
pub record BhfaResult : Type 0 where
  pub blockhash : Option (List ℕ)
  pub last_valid_block_height : Option ℕ

-- How far the request comes: the client, the request, the decoding, and the reply.
pub data Answer : Type 0 where
  not_built not_sent not_decoded : Answer
  payload : Option BhfaResult → Answer

abbrev header : Option (List ℕ) → Option (List ℕ)
header none = none
header (some key) = if is_empty key then none else some key

unfoldable pub bhfa_request : (Pubkey → List ℕ) → BhfaConfig → List Pubkey → BhfaRequest
bhfa_request to_string cfg accounts = record {
  url = cfg.router_url;
  x_api_key = header cfg.router_api_key;
  pubkeys = map to_string accounts;
}

abbrev with_hash : ℕ → Option ℕ → Result (ℕ × ℕ)
with_hash height none = err (codes "BHFA: invalid blockhash format")
with_hash height (some hash) = ok (hash, height)

abbrev read_result : (List ℕ → Option ℕ) → Option (List ℕ) → Option ℕ → Result (ℕ × ℕ)
read_result from_str none height = err (codes "BHFA: missing blockhash")
read_result from_str (some text) none = err (codes "BHFA: missing lastValidBlockHeight")
read_result from_str (some text) (some height) = with_hash height (from_str text)

unfoldable pub read_answer : (List ℕ → Option ℕ) → Answer → Result (ℕ × ℕ)
read_answer from_str not_built = err (codes "building BHFA client")
read_answer from_str not_sent = err (codes "sending getBlockhashForAccounts request")
read_answer from_str not_decoded = err (codes "decoding getBlockhashForAccounts response")
read_answer from_str (payload none) = err (codes "BHFA: no result field in response")
read_answer from_str (payload (some r)) = read_result from_str r.blockhash r.last_valid_block_height

unfoldable pub get_blockhash_for_accounts :
    (Pubkey → List ℕ)
    → (List ℕ → Option ℕ)
    → (BhfaRequest → Answer)
    → BhfaConfig
    → List Pubkey
    → Result (ℕ × ℕ)
unfolding bhfa_request read_answer
get_blockhash_for_accounts to_string from_str post cfg accounts =
    read_answer from_str (post (bhfa_request to_string cfg accounts))
