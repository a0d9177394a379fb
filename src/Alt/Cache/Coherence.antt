-- ===== src/Alt/Cache/Coherence.antt =====
-- bundler/src/alt.rs: what the cache of the manager may answer.
use cpsr_lite.Prelude.{
  ℕ, ◌≡◌, ◌≢◌, refl, sym, ◌∙◌, ap, Bool, false, not, Option, none, some, Option-cases, List, [],
  ◌∷◌, ◌++◌, arith, length, ltb, select, map, All, Bool-cases, inl, inr, if_cases,
}
use cpsr_lite.Prelude.Text.{same_text, same_text-≡}
use cpsr_lite.Prelude.Sort.{sort_by}
use cpsr_lite.Types.{Pubkey, UserIntent}
use cpsr_lite.Types.IntentId.{IsKeyBytes, same_keys}
use cpsr_lite.Chunking.{AltPolicy}
use cpsr_lite.Alt.{KeyUsage, estimate_saved_bytes, TableCatalog}
use cpsr_lite.Alt.Cache.{
  Resolution, CacheEntry, Cache, get, remove, CachingAltManager, AltState, new_state, offload_plan,
  by_key, mark, cache_key, synthetic, new_entry, resolve_synthetic, resolve_catalog, resolve_by,
  compute_offload_plan, resolve_tables, no_resolution,
}

-- The resolution but for the flag that tells whether it comes from the cache.
abbrev pub missed : Resolution → Resolution
missed r = record r { cache_hit = false }

-- A call of `resolve_tables`, with the order in which the hash map of the usages is visited in it.
pub record Request : Type 0 where
  pub visit : List KeyUsage → List KeyUsage
  pub now : ℕ
  pub payer : Pubkey
  pub intents : List UserIntent

abbrev marks : List KeyUsage → List (Pubkey × Bool)
marks us = map (λ u. (u.pubkey, u.writable)) us

mark_inj : (a b : Bool) → mark a ≡ mark b → a ≡ b
mark_inj a b e = ground (arith, e)

key_nonempty : (xs rest : List ℕ) → length xs ≡ 32 → xs ++ rest ≢ []
key_nonempty [] rest long same = omega (arith, long)
key_nonempty (x ∷ xs) rest long same = cc same

select-marks :
    (p : Bool → Bool) (us : List KeyUsage)
    → length (select (λ u. p u.writable) us) ≡ length (select (λ m. p m.1) (marks us))
select-marks p [] = refl
select-marks p (u ∷ us) = ground (arith, select-marks p us)

length-marks : (us : List KeyUsage) → length us ≡ length (marks us)
length-marks [] = refl
length-marks (u ∷ us) = ground (arith, length-marks us)

keys-marks : (us : List KeyUsage) → map (λ u. u.pubkey) us ≡ map (λ m. m.0) (marks us)
keys-marks [] = refl
keys-marks (u ∷ us) = ap (λ ks. u.pubkey ∷ ks) (keys-marks us)

module _ (key_bytes : Pubkey → List ℕ) (of_bytes : List ℕ → Pubkey) (blake3 : List ℕ → List ℕ) where
  abbrev key_of : List KeyUsage → List ℕ
  key_of us = cache_key key_bytes of_bytes blake3 us

  abbrev made : AltPolicy → List KeyUsage → Resolution
  made policy us = synthetic key_bytes of_bytes blake3 policy us

  cache_key-marks :
      (us vs : List KeyUsage) → IsKeyBytes key_bytes → key_of us ≡ key_of vs → marks us ≡ marks vs
  unfolding cache_key
  cache_key-marks [] [] keys e = refl
  cache_key-marks [] (v ∷ vs) keys e =
      absurd (key_nonempty (key_bytes v.pubkey) _ (keys.is_long v.pubkey) (sym e))
  cache_key-marks (u ∷ us) [] keys e =
      absurd (key_nonempty (key_bytes u.pubkey) _ (keys.is_long u.pubkey) e)
  cache_key-marks (u ∷ us) (v ∷ vs) keys e =
      let (same, rest) =
        same_keys key_bytes u.pubkey v.pubkey (mark u.writable ∷ key_of us)
          (mark v.writable ∷ key_of vs) keys e in
      let (flag, tail) = same_cons _ _ (key_of us) (key_of vs) rest in
      pair_cons u v same (mark_inj u.writable v.writable flag) (cache_key-marks us vs keys tail)
    where
      same_cons : (m n : ℕ) (xs ys : List ℕ) → m ∷ xs ≡ n ∷ ys → (m ≡ n) × (xs ≡ ys)
      same_cons m n xs ys f = ground (arith, f)

      pair_cons :
          (a b : KeyUsage) {xs ys : List (Pubkey × Bool)}
          → a.pubkey ≡ b.pubkey
          → a.writable ≡ b.writable
          → xs ≡ ys
          → Path (List (Pubkey × Bool)) ((a.pubkey, a.writable) ∷ xs) ((b.pubkey, b.writable) ∷ ys)
      pair_cons a b f g h = cc (f, g, h)

  missed-made : (policy : AltPolicy) (us : List KeyUsage) → missed (made policy us) ≡ made policy us
  unfolding synthetic
  missed-made policy us = refl

  -- A resolution depends on what the cache's key tells, and on no more.
  synthetic-marks :
      (policy : AltPolicy) (us vs : List KeyUsage)
      → marks us ≡ marks vs
      → made policy us ≡ made policy vs
  unfolding synthetic estimate_saved_bytes
  synthetic-marks policy us vs e =
      let n : length us ≡ length vs = length-marks us ∙ ap length e ∙ sym (length-marks vs) in
      let ks : map (λ u. u.pubkey) us ≡ map (λ u. u.pubkey) vs =
        keys-marks us ∙ ap (map (λ m. m.0)) e ∙ sym (keys-marks vs) in
      let ro : length (select (λ u. not u.writable) us) ≡ length (select (λ u. not u.writable) vs) =
        select-marks not us
        ∙ ap (λ ms. length (select (λ m. not m.1) ms)) e
        ∙ sym (select-marks not vs) in
      let wr : length (select (λ u. u.writable) us) ≡ length (select (λ u. u.writable) vs) =
        select-marks (λ b. b) us
        ∙ ap (λ ms. length (select (λ m. m.1) ms)) e
        ∙ sym (select-marks (λ b. b) vs) in
      cc (n, ks, ro, wr)

  -- Each entry has the resolution of any keys that have its key.
  abbrev pub IsCoherent : AltPolicy → Cache → Type 0
  IsCoherent policy cache =
      All (λ p. (us : List KeyUsage) → key_of us ≡ p.0 → missed p.1.resolution ≡ made policy us)
        cache

  get-IsCoherent :
      (policy : AltPolicy) (us : List KeyUsage) (entry : CacheEntry) (cache : Cache)
      → IsCoherent policy cache
      → get (key_of us) cache ≡ some entry
      → missed entry.resolution ≡ made policy us
  get-IsCoherent policy us entry [] c e = cc e
  get-IsCoherent policy us entry ((k, x) ∷ cache) c e =
      elim (Bool-cases (same_text (key_of us) k)) [
        | inl same ↦
            let found : some x ≡ some entry = rw same at e in
            ap missed
              (ap (λ o. elim o [ none ↦ made policy us | some y ↦ y.resolution ]) (sym found))
            ∙ c.0 us (same_text-≡ (key_of us) k same)
        | inr other ↦ get-IsCoherent policy us entry cache c.1 (rw other at e)
      ]

  remove-IsCoherent :
      (policy : AltPolicy) (k : List ℕ) (cache : Cache)
      → IsCoherent policy cache
      → IsCoherent policy (remove k cache)
  remove-IsCoherent policy k [] c = tt
  remove-IsCoherent policy k ((j, x) ∷ cache) c = elim (Bool-cases (same_text k j)) [
    | inl same ↦ rw same (remove-IsCoherent policy k cache c.1)
    | inr other ↦ rw other (c.0, remove-IsCoherent policy k cache c.1)
  ]

  module _ (self : CachingAltManager) (keys : IsKeyBytes key_bytes) where
    inserted-IsCoherent :
        (now : ℕ) (offload : List KeyUsage) (cache : Cache)
        → IsCoherent self.policy cache
        → IsCoherent self.policy (
            (
              key_of offload,
              new_entry key_bytes of_bytes blake3 self now (made self.policy offload),
            )
            ∷ cache)
    unfolding synthetic
    inserted-IsCoherent now offload cache c = (
      (λ us e. synthetic-marks self.policy offload us (cache_key-marks offload us keys (sym e))),
      c,
    )

    resolve_synthetic-IsCoherent :
        (now : ℕ) (offload : List KeyUsage) (cache : Cache)
        → IsCoherent self.policy cache
        → (missed (resolve_synthetic key_bytes of_bytes blake3 self now offload cache).0
            ≡ made self.policy offload)
          × IsCoherent self.policy
              (resolve_synthetic key_bytes of_bytes blake3 self now offload cache).1
    unfolding resolve_synthetic
    resolve_synthetic-IsCoherent now offload cache c =
        elim (Option-cases (get (key_of offload) cache)) [
          | inl e ↦
              rw (resolve_synthetic, e)
                (missed-made self.policy offload, inserted-IsCoherent now offload cache c)
          | inr (entry, e) ↦
              rw (resolve_synthetic, e)
                (if_cases {A = Resolution × Cache}
                  (λ r. (missed r.0 ≡ made self.policy offload) × IsCoherent self.policy r.1)
                  (ltb now entry.expires_at) _ _
                  (λ fresh. (get-IsCoherent self.policy offload entry cache c e, c))
                  (λ stale. (
                    missed-made self.policy offload,
                    inserted-IsCoherent now offload _
                        (remove-IsCoherent self.policy (key_of offload) cache c),
                  )))
        ]

    abbrev compute :
        (List KeyUsage → List KeyUsage) → ℕ → Pubkey → List UserIntent → Cache → Resolution × Cache
    compute visit now payer intents cache =
        compute_offload_plan key_bytes of_bytes blake3 self visit now payer intents cache

    -- With a catalog the cache is only written.
    abbrev pub IsFor : Option TableCatalog → Cache → Type 0
    IsFor none cache = IsCoherent self.policy cache
    IsFor (some catalog) cache = Unit

    catalog_missed :
        (catalog : TableCatalog) (now : ℕ) (offload : List KeyUsage) (cache : Cache)
        → missed (resolve_catalog key_bytes of_bytes blake3 self catalog now offload cache).0
          ≡ (resolve_catalog key_bytes of_bytes blake3 self catalog now offload []).0
    unfolding resolve_catalog no_resolution
    catalog_missed catalog now offload cache = ground arith

    resolve_by-IsFor :
        (catalog : Option TableCatalog) (now : ℕ) (offload : List KeyUsage) (cache : Cache)
        → IsFor catalog cache
        → (missed (resolve_by key_bytes of_bytes blake3 self catalog now offload cache).0
            ≡ (resolve_by key_bytes of_bytes blake3 self catalog now offload []).0)
          × IsFor catalog (resolve_by key_bytes of_bytes blake3 self catalog now offload cache).1
    unfolding resolve_synthetic
    resolve_by-IsFor none now offload cache c =
        resolve_synthetic-IsCoherent now (sort_by by_key offload) cache c
    resolve_by-IsFor (some catalog) now offload cache c =
        (catalog_missed catalog now offload cache, tt)

    compute-IsFor :
        (visit : List KeyUsage → List KeyUsage) (now : ℕ) (payer : Pubkey)
        (intents : List UserIntent) (cache : Cache)
        → IsFor self.catalog cache
        → (missed (compute visit now payer intents cache).0
            ≡ (compute visit now payer intents []).0)
          × IsFor self.catalog (compute visit now payer intents cache).1
    unfolding compute_offload_plan no_resolution
    compute-IsFor visit now payer intents cache c =
        elim (Option-cases (offload_plan visit self.policy payer intents)) [
          | inl e ↦ rw (compute_offload_plan, e) (refl, c)
          | inr (offload, e) ↦
              rw (compute_offload_plan, e) (resolve_by-IsFor self.catalog now offload cache c)
        ]

  -- The calls one after the other.
  abbrev pub resolve_all : CachingAltManager → List Request → AltState → List Resolution
  resolve_all self [] s = []
  resolve_all self (c ∷ calls) s =
      let (r, s') =
        resolve_tables key_bytes of_bytes blake3 self c.visit c.now c.payer c.intents s in
      r ∷ resolve_all self calls s'

  abbrev pub resolved_anew : CachingAltManager → Request → Resolution
  resolved_anew self c =
      (resolve_tables key_bytes of_bytes blake3 self c.visit c.now c.payer c.intents new_state).0

  resolve_all-IsFor :
      (self : CachingAltManager) (calls : List Request) (s : AltState)
      → (keys : IsKeyBytes key_bytes) → IsFor self keys self.catalog s.cache
      → map missed (resolve_all self calls s) ≡ map (resolved_anew self) calls
  unfolding resolve_tables new_state
  resolve_all-IsFor self [] s keys c = refl
  resolve_all-IsFor self (call ∷ calls) s keys c =
      let h = compute-IsFor self keys call.visit call.now call.payer call.intents s.cache c in
      let rest =
        resolve_all-IsFor self calls
          (resolve_tables key_bytes of_bytes blake3 self call.visit call.now call.payer call.intents
            s).1
          keys h.1 in
      cc (h.0, rest)

  -- Whatever calls came before, however their times lie, and in whatever order each call visits the hash map of the usages: a resolution is
  -- the one that a new manager makes for the same payer and intents at that time, visiting in the order of that call, but for the flag
  -- that tells whether it comes from the cache. So the cache changes no resolution, though keys of equal cost may be chosen differently
  -- from call to call. This holds with a catalog and without; the bytes of a key are 32, and differ for different keys.
  pub resolve_all-missed :
      (self : CachingAltManager) (calls : List Request)
      → IsKeyBytes key_bytes
      → map missed (resolve_all self calls new_state) ≡ map (resolved_anew self) calls
  unfolding new_state
  resolve_all-missed self calls keys =
      resolve_all-IsFor self calls new_state keys (empty self.catalog)
    where
      empty : (catalog : Option TableCatalog) → IsFor self keys catalog []
      empty none = tt
      empty (some t) = tt
