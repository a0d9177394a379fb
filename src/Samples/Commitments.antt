-- ===== src/Samples/Commitments.antt =====
-- The identifiers of a chunk, and the manager's cache.
use cpsr_lite.Prelude.{
  ℕ, ◌≡◌, refl, sym, ◌∙◌, none, some, List, [], ◌∷◌, ◌++◌, map, inl, inr, arith,
}
use cpsr_lite.Prelude.Permute.{Permᴰ}
use cpsr_lite.Samples.{intents, writer}
use cpsr_lite.Samples.Accounts.{key_bytes, keys, no_hash, small_policy}
use cpsr_lite.Types.Merkle.{Hash32}
use cpsr_lite.Types.Version.{AccountVersion}
use cpsr_lite.Types.Bundle.{Chunk, normalize, chunk_id, id_bound}
use cpsr_lite.Types.Bundle.Ids.{IsSettled, chunk_id-permuted}
use cpsr_lite.Alt.{KeyUsage}
use cpsr_lite.Alt.Cache.{CachingAltManager, new_state}
use cpsr_lite.Alt.Cache.Coherence.{Request, missed, resolve_all, resolved_anew, resolve_all-missed}

abbrev pub of_bytes : List ℕ → ℕ
of_bytes [] = 0
of_bytes (b ∷ bytes) = b

abbrev low : AccountVersion
low = record { key = 7; lamports = 10; owner = 2; data_hash64 = 5; slot = 50 }

abbrev high : AccountVersion
high = record { key = 8; lamports = 20; owner = 2; data_hash64 = 6; slot = 50 }

abbrev chunk : Chunk
chunk = record {
  intents = writer ∷ [];
  occ_versions = high ∷ low ∷ [];
  merkle_root = 3;
  session_authority = none;
  nonce = 1;
  last_valid_block_height = 4_000;
  est_cu = 20_000;
  est_msg_bytes = 300;
  alt_ro_count = 0;
  alt_wr_count = 0;
  plan_fingerprint = none;
}

chunk-IsSettled : IsSettled (high ∷ low ∷ [])
chunk-IsSettled a b (inl e) (inl f) same slot = sym e ∙ f
chunk-IsSettled a b (inl e) (inr (inl f)) same slot = ground (arith, e, f, same)
chunk-IsSettled a b (inr (inl e)) (inl f) same slot = ground (arith, e, f, same)
chunk-IsSettled a b (inr (inl e)) (inr (inl f)) same slot = sym e ∙ f
chunk-IsSettled a b (inr (inr e)) g same slot = absurd e
chunk-IsSettled a b (inl e) (inr (inr g)) same slot = absurd g
chunk-IsSettled a b (inr (inl e)) (inr (inr g)) same slot = absurd g

ids_example :
    ((root : Hash32) × (chunk_id key_bytes no_hash of_bytes key_bytes chunk ≡ some root))
    × (chunk_id key_bytes no_hash of_bytes key_bytes
          (record chunk { occ_versions = low ∷ high ∷ [] })
        ≡ chunk_id key_bytes no_hash of_bytes key_bytes chunk)
    × (id_bound key_bytes no_hash of_bytes key_bytes
          (record chunk { occ_versions = low ∷ high ∷ [] })
        ≡ id_bound key_bytes no_hash of_bytes key_bytes chunk)
    × (chunk_id key_bytes no_hash of_bytes key_bytes (normalize chunk)
        ≡ chunk_id key_bytes no_hash of_bytes key_bytes chunk)
    × (id_bound key_bytes no_hash of_bytes key_bytes (normalize chunk)
        ≡ id_bound key_bytes no_hash of_bytes key_bytes chunk)
ids_example =
    chunk_id-permuted key_bytes no_hash of_bytes key_bytes chunk (low ∷ high ∷ [])
      (Permᴰ.swap refl refl) chunk-IsSettled

abbrev pub manager : CachingAltManager
manager = record { policy = small_policy; ttl = 100; catalog = none }

abbrev backwards : List KeyUsage → List KeyUsage
backwards [] = []
backwards (u ∷ us) = backwards us ++ u ∷ []

abbrev calls : List Request
calls =
    record { visit = λ us. us; now = 10; payer = 1; intents = intents }
    ∷ record { visit = backwards; now = 20; payer = 1; intents = intents }
    ∷ record { visit = λ us. us; now = 500; payer = 1; intents = intents }
    ∷ []

cache_example :
    map missed (resolve_all key_bytes of_bytes no_hash manager calls new_state)
    ≡ map (resolved_anew key_bytes of_bytes no_hash manager) calls
cache_example = resolve_all-missed key_bytes of_bytes no_hash manager calls keys
