-- ===== src/Occ/Snapshots.antt =====
-- bundler/src/occ/mod.rs: what a snapshot holds.
use cpsr_lite.Prelude.{
  ℕ, ◌≤◌, ◌≡◌, refl, sym, ◌∙◌, ap, none, some, List, [], ◌∷◌, ◌++◌, map, append_assoc, append-nil,
  min, max, arith, All,
}
use cpsr_lite.Types.{Pubkey}
use cpsr_lite.Occ.{
  FetchedAccount, OccSnapshot, ok, err, missing_account, Fetcher, lookup, version_of, capture_keys,
  capture_once, empty_snapshot,
}

-- The accounts fetched for the targets, in the order of the targets.
pub data Found (m : List (Pubkey × FetchedAccount))
    : List Pubkey → List FetchedAccount → Type 0 where
  found_none : Found m [] []
  found_next :
      (k : Pubkey) (ks : List Pubkey) (fa : FetchedAccount) (fas : List FetchedAccount)
      → lookup k m ≡ some fa
      → Found m ks fas
      → Found m (k ∷ ks) (fa ∷ fas)

abbrev pub lowest : ℕ → List FetchedAccount → ℕ
lowest s [] = s
lowest s (fa ∷ fas) = lowest (min s fa.slot) fas

abbrev pub highest : ℕ → List FetchedAccount → ℕ
highest s [] = s
highest s (fa ∷ fas) = highest (max s fa.slot) fas

lowest_bounds :
    (s : ℕ) (fas : List FetchedAccount)
    → (lowest s fas ≤ s) × All (λ fa. lowest s fas ≤ fa.slot) fas
lowest_bounds s [] = (omega arith, tt)
lowest_bounds s (fa ∷ fas) =
    let h = lowest_bounds (min s fa.slot) fas in (omega (arith, h.0), (omega (arith, h.0), h.1))

highest_bounds :
    (s : ℕ) (fas : List FetchedAccount)
    → (s ≤ highest s fas) × All (λ fa. fa.slot ≤ highest s fas) fas
highest_bounds s [] = (omega arith, tt)
highest_bounds s (fa ∷ fas) =
    let h = highest_bounds (max s fa.slot) fas in (omega (arith, h.0), (omega (arith, h.0), h.1))

module _ (blake3 : List ℕ → List ℕ) where
  abbrev extended : OccSnapshot → FetchedAccount → OccSnapshot
  extended snap fa = record {
    versions = snap.versions ++ version_of blake3 fa ∷ [];
    min_slot = min snap.min_slot fa.slot;
    max_slot = max snap.max_slot fa.slot;
  }

  keys-Found :
      (m : List (Pubkey × FetchedAccount)) (targets : List Pubkey) (fas : List FetchedAccount)
      (snap : OccSnapshot)
      → Found m targets fas
      → capture_keys blake3 m targets snap
        ≡ ok record {
          versions = snap.versions ++ map (version_of blake3) fas;
          min_slot = lowest snap.min_slot fas;
          max_slot = highest snap.max_slot fas;
        }
  unfolding capture_keys
  keys-Found m _ _ snap found_none =
      ap (λ vs. ok record { versions = vs; min_slot = snap.min_slot; max_slot = snap.max_slot })
        (sym (append-nil snap.versions))
  keys-Found m _ _ snap (found_next k ks fa fas e found) =
      rw (capture_keys, e)
        (keys-Found m ks fas (extended snap fa) found
          ∙ ap
              (λ vs. ok record {
                versions = vs;
                min_slot = lowest (min snap.min_slot fa.slot) fas;
                max_slot = highest (max snap.max_slot fa.slot) fas;
              })
              (append_assoc snap.versions (version_of blake3 fa ∷ [])
                (map (version_of blake3) fas)))

  keys_missing :
      (m : List (Pubkey × FetchedAccount)) (pre : List Pubkey) (fas : List FetchedAccount)
      (k : Pubkey) (post : List Pubkey) (snap : OccSnapshot)
      → Found m pre fas
      → lookup k m ≡ none
      → capture_keys blake3 m (pre ++ k ∷ post) snap ≡ err (missing_account k)
  unfolding capture_keys
  keys_missing m _ _ k post snap found_none absent = rw (capture_keys, absent) refl
  keys_missing m _ _ k post snap (found_next p ks fa fas e found) absent =
      rw (capture_keys, e) (keys_missing m ks fas k post (extended snap fa) found absent)

  both :
      (lo hi : ℕ) (xs : List FetchedAccount)
      → All (λ fa. lo ≤ fa.slot) xs
      → All (λ fa. fa.slot ≤ hi) xs
      → All (λ fa. (lo ≤ fa.slot) × (fa.slot ≤ hi)) xs
  both lo hi [] l h = tt
  both lo hi (x ∷ xs) l h = ((l.0, h.0), both lo hi xs l.1 h.1)

  -- When the fetch of an attempt answers a map that has every target, the capture is the versions of the
  -- fetched accounts in the order of the targets, and its two slots bound the slot of each of them.
  pub capture_once-Found :
      (fetch_many : Fetcher) (attempt : ℕ) (m : List (Pubkey × FetchedAccount))
      (targets : List Pubkey) (fas : List FetchedAccount)
      → fetch_many attempt targets ≡ ok m
      → Found m targets fas
      → (snap : OccSnapshot) × (capture_once blake3 fetch_many attempt targets ≡ ok snap)
        × (snap.versions ≡ map (version_of blake3) fas)
        × All (λ fa. (snap.min_slot ≤ fa.slot) × (fa.slot ≤ snap.max_slot)) fas
  unfolding capture_once
  capture_once-Found fetch_many attempt m targets fas answers found = (
    record {
      versions = map (version_of blake3) fas;
      min_slot = lowest 0xffff_ffff_ffff_ffff fas;
      max_slot = highest 0 fas;
    },
    rw answers (keys-Found m targets fas (empty_snapshot blake3) found),
    refl,
    both _ _ fas (lowest_bounds 0xffff_ffff_ffff_ffff fas).1 (highest_bounds 0 fas).1,
  )

  -- The capture fails with `MissingAccount` for the first target that the map of the fetch lacks.
  pub capture_once_missing :
      (fetch_many : Fetcher) (attempt : ℕ) (m : List (Pubkey × FetchedAccount))
      (pre post : List Pubkey) (k : Pubkey) (fas : List FetchedAccount)
      → fetch_many attempt (pre ++ k ∷ post) ≡ ok m
      → Found m pre fas
      → lookup k m ≡ none
      → capture_once blake3 fetch_many attempt (pre ++ k ∷ post) ≡ err (missing_account k)
  unfolding capture_once
  capture_once_missing fetch_many attempt m pre post k fas answers found absent =
      rw answers (keys_missing m pre fas k post (empty_snapshot blake3) found absent)

  pub capture_once-slots :
      (fetch_many : Fetcher) (attempt : ℕ) (m : List (Pubkey × FetchedAccount))
      (targets : List Pubkey) (fas : List FetchedAccount)
      → fetch_many attempt targets ≡ ok m
      → Found m targets fas
      → capture_once blake3 fetch_many attempt targets
        ≡ ok record {
          versions = map (version_of blake3) fas;
          min_slot = lowest 0xffff_ffff_ffff_ffff fas;
          max_slot = highest 0 fas;
        }
  unfolding capture_once
  capture_once-slots fetch_many attempt m targets fas answers found =
      rw answers (keys-Found m targets fas (empty_snapshot blake3) found)
