-- ===== src/Er/Routes/Choice.antt =====
-- bundler/src/er/mod.rs: the route that `fetch_route_from_router` chooses.
use cpsr_lite.Prelude.{
  ℕ, ◌≤◌, ◌≡◌, refl, sym, ◌∙◌, Bool, true, false, Option, none, some, List, [], ◌∷◌, arith, select,
  inl, inr, ◌⊎◌, Bool-cases, Option-cases, All, subst,
}
use cpsr_lite.Prelude.Sort.{sort_by, In, sort_by-In, In-sort_by, IsSortedBy, sort_by-IsSortedBy}
use cpsr_lite.Prelude.Text.{codes, to_ascii_lowercase, same_text-≡}
use cpsr_lite.Er.{Url, ErClientConfig, ErPrivacyMode, public_mode, private_mode, same_text}
use cpsr_lite.Er.Routes.{
  RouterRpcRoute, matches_privacy, mode_text, text_le, by_fqdn, ok, choose_route, first_route,
  accepted,
}

abbrev label_of : ErPrivacyMode → List ℕ
label_of public_mode = codes "public"
label_of private_mode = codes "private"

lower_label : (mode : ErPrivacyMode) → to_ascii_lowercase (mode_text mode) ≡ label_of mode
lower_label public_mode = refl
lower_label private_mode = refl

same_text_refl : (t : List ℕ) → same_text t t ≡ true
same_text_refl [] = refl
same_text_refl (a ∷ t) = ground (arith, same_text_refl t)

text_le_total : (a b : List ℕ) → text_le a b ≡ false → text_le b a ≡ true
text_le_total [] b h = cc h
text_le_total (a ∷ as') [] h = refl
text_le_total (a ∷ as') (b ∷ bs) h = ground (arith, h, text_le_total as' bs)

text_le_trans : (a b c : List ℕ) → text_le a b ≡ true → text_le b c ≡ true → text_le a c ≡ true
text_le_trans [] b c h k = refl
text_le_trans (a ∷ as') [] c h k = cc h
text_le_trans (a ∷ as') (b ∷ bs) [] h k = cc k
text_le_trans (a ∷ as') (b ∷ bs) (c ∷ cs) h k = ground (arith, h, k, text_le_trans as' bs cs)

text_le_refl : (a : List ℕ) → text_le a a ≡ true
text_le_refl [] = refl
text_le_refl (a ∷ as') = ground (arith, text_le_refl as')

All-of_In : {A : Type 0} (P : A → Type 0) (xs : List A) → ((a : A) → In a xs → P a) → All P xs
All-of_In P [] h = tt
All-of_In P (x ∷ xs) h = (h x (inl refl), All-of_In P xs (λ a i. h a (inr i)))

module _ (p : RouterRpcRoute → Bool) where
  select-In :
      (r : RouterRpcRoute) (rs : List RouterRpcRoute) → In r (select p rs) → In r rs × (p r ≡ true)
  select-In r (x ∷ rs) h = elim (Bool-cases (p x)) [
    | inl e ↦ picked (select-In r rs) e (rw e at h)
    | inr e ↦ let (i, q) = select-In r rs (rw e at h) in (inr i, q)
  ]
    where
      picked :
          (In r (select p rs) → In r rs × (p r ≡ true))
          → p x ≡ true
          → In r (x ∷ select p rs)
          → In r (x ∷ rs) × (p r ≡ true)
      picked rec e (inl same) = (inl same, subst (λ y. p y ≡ true) same e)
      picked rec e (inr k) = let (i, q) = rec k in (inr i, q)
  select-In r [] h = absurd h

  In-select :
      (r : RouterRpcRoute) (rs : List RouterRpcRoute) → In r rs → p r ≡ true → In r (select p rs)
  In-select r (x ∷ rs) (inl same) e =
      let px = subst (λ y. p y ≡ true) (sym same) e in rw px (inl same)
  In-select r (x ∷ rs) (inr h) e = elim (Bool-cases (p x)) [
    | inl px ↦ rw px (inr (In-select r rs h e))
    | inr px ↦ rw px (In-select r rs h e)
  ]
  In-select r [] h e = absurd h

-- The route has no label, or the label is that of the mode, whatever the case of its letters.
abbrev pub IsWanted : ErPrivacyMode → RouterRpcRoute → Type 0
IsWanted mode r =
    (r.privacy ≡ none)
    ⊎ (label : List ℕ) × (r.privacy ≡ some label) × (to_ascii_lowercase label ≡ label_of mode)

matches_privacy-IsWanted :
    (mode : ErPrivacyMode) (r : RouterRpcRoute) → matches_privacy mode r ≡ true → IsWanted mode r
unfolding matches_privacy
matches_privacy-IsWanted mode r e = elim (Option-cases r.privacy) [
  | inl none_given ↦ inl none_given
  | inr (label, given) ↦ inr (
    label,
    given,
    same_text-≡ (to_ascii_lowercase label) (to_ascii_lowercase (mode_text mode)) (rw given at e)
        ∙ lower_label mode,
  )
]

unwanted :
    (mode : ErPrivacyMode) (r : RouterRpcRoute)
    → matches_privacy mode r ≡ false
    → IsWanted mode r
    → ⊥
unfolding matches_privacy
unwanted mode r e (inl none_given) = cc (rw none_given at e)
unwanted mode r e (inr (label, given, same)) =
    let found : same_text (to_ascii_lowercase label) (to_ascii_lowercase (mode_text mode)) ≡ false =
      rw given at e in
    cc (
      found,
      subst (λ t. same_text t (to_ascii_lowercase (mode_text mode)) ≡ true)
          (lower_label mode ∙ sym same) (same_text_refl (to_ascii_lowercase (mode_text mode))),
    )

module _ (parse : List ℕ → Option Url) (cfg : ErClientConfig) where
  -- `r` is a wanted route, none of which has a name before it, and it gives the endpoint and its time.
  pub record IsChosen (routes : List RouterRpcRoute) (endpoint : Url) (ttl : ℕ) (r : RouterRpcRoute)
      : Type 0 where
    pub named : In r routes
    pub wanted : IsWanted cfg.privacy_mode r
    pub least : All (λ q. (IsWanted cfg.privacy_mode q → ⊥) ⊎ (text_le r.fqdn q.fqdn ≡ true)) routes
    pub address : parse r.fqdn ≡ some endpoint
    pub limited : ttl ≤ cfg.route_cache_ttl

  accepted_lem :
      (r : RouterRpcRoute) (endpoint : Url) (ttl : ℕ)
      → accepted parse cfg r ≡ ok (endpoint, ttl)
      → (parse r.fqdn ≡ some endpoint) × (ttl ≤ cfg.route_cache_ttl)
  accepted_lem r endpoint ttl e = elim (Option-cases (parse r.fqdn)) [
    | inl bad ↦ cc (rw (accepted, bad) at e)
    | inr (u, good) ↦ (ground (arith, good, e), ground (arith, good, e))
  ]

  -- When a route is chosen from those that the router names, its label is the wanted privacy, in whatever case, or it has none: a route
  -- without a label is taken in both modes. No such route has a name before its own, and it is used for no longer than `route_cache_ttl`.
  pub choose_route-IsChosen :
      (routes : List RouterRpcRoute) (endpoint : Url) (ttl : ℕ)
      → choose_route parse cfg routes ≡ ok (endpoint, ttl)
      → (r : RouterRpcRoute) × IsChosen routes endpoint ttl r
  unfolding choose_route
  choose_route-IsChosen [] endpoint ttl e = cc e
  choose_route-IsChosen (x ∷ routes) endpoint ttl e =
      let wanted = select (matches_privacy cfg.privacy_mode) (x ∷ routes) in
      go (sort_by by_fqdn wanted) (λ q. In-sort_by by_fqdn q wanted)
        (λ q. sort_by-In by_fqdn q wanted)
        (sort_by-IsSortedBy by_fqdn (λ a b. text_le_total a.fqdn b.fqdn)
          (λ a b c. text_le_trans a.fqdn b.fqdn c.fqdn) wanted)
        e
    where
      go :
          (sorted : List RouterRpcRoute)
          → ((q : RouterRpcRoute)
              → In q (select (matches_privacy cfg.privacy_mode) (x ∷ routes))
              → In q sorted)
          → ((q : RouterRpcRoute)
              → In q sorted
              → In q (select (matches_privacy cfg.privacy_mode) (x ∷ routes)))
          → IsSortedBy by_fqdn sorted
          → first_route parse cfg sorted ≡ ok (endpoint, ttl)
          → (r : RouterRpcRoute) × IsChosen (x ∷ routes) endpoint ttl r
      go [] all back s f = cc f
      go (r ∷ sorted) all back s f =
          let (member, fits) =
            select-In (matches_privacy cfg.privacy_mode) r (x ∷ routes) (back r (inl refl)) in
          let (address, limited) = accepted_lem r endpoint ttl f in
          (
            r,
            record {
              named = member;
              wanted = matches_privacy-IsWanted cfg.privacy_mode r fits;
              least =
                  All-of_In _ (x ∷ routes)
                    (λ q i. before q i (Bool-cases (matches_privacy cfg.privacy_mode q)));
              address = address;
              limited = limited;
            },
          )
        where
          ahead : (q : RouterRpcRoute) → In q (r ∷ sorted) → by_fqdn r q ≡ true
          ahead q (inl same) = subst (λ z. by_fqdn r z ≡ true) same (text_le_refl r.fqdn)
          ahead q (inr i) = s.0 q i

          before :
              (q : RouterRpcRoute)
              → In q (x ∷ routes)
              → (matches_privacy cfg.privacy_mode q ≡ true)
                ⊎ (matches_privacy cfg.privacy_mode q ≡ false)
              → (IsWanted cfg.privacy_mode q → ⊥) ⊎ (text_le r.fqdn q.fqdn ≡ true)
          before q i (inl m) =
              inr
                (ahead q (all q (In-select (matches_privacy cfg.privacy_mode) q (x ∷ routes) i m)))
          before q i (inr m) = inl (unwanted cfg.privacy_mode q m)
