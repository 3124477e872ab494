-- ===== src/Outbox/Loop.antt =====
-- The loop of `claimDispatchable` (storage/src/outbox-file.ts) leases no row of a tenant that has an
-- active lease, and no two rows of one tenant.
use veritio.Prelude.{
  ℕ, suc, ◌+◌, ◌≡◌, refl, String, List, [], ◌∷◌, Bool, true, false, not, ◌&&◌, ◌===◌, ===_refl, any,
  inl, inr, ◌⊎◌, and-eq-true, All, All-map, All-both, Each, Each-All, Pairwise, arith,
}
use veritio.Outbox.{Entry, ClaimOptions, body_bytes}
use veritio.Outbox.File.{
  is_active, has_active_lease, holds, is_candidate, is_due, lease, claim_rows,
}
use veritio.Outbox.Settle.{blocked_tenants}
use veritio.Outbox.Calls.{step-cases, claim_rows-Each}
use veritio.Outbox.Leases.{AreApart, AreApart-intro, is_held}
use veritio.Outbox.Timed.{IsTimed, held-active}

-- A test that some member meets holds of that member.
any-All :
    {A : Type 0} (g : A → Bool) (f : A → String) (es : List A)
    → All (λ e. g e ≡ true → any (λ x. g x && f x === f e) es ≡ true) es
any-All g f [] = tt
any-All g f (x ∷ xs) = (
  λ h. rw (h, ===_refl (f x)) refl,
  All-map _ _ (λ e k h. rw (k h) (ground arith)) xs (any-All g f xs),
)

active-blocked :
    (now : ℕ) (es : List Entry)
    → All (λ e. is_active now e ≡ true → blocked_tenants now es e.tenant_id ≡ true) es
unfolding has_active_lease
active-blocked now es =
    All-map _ _ (λ e h active. ground (arith, h active)) es
      (any-All (is_active now) (λ e. e.tenant_id) es)

-- A tenant with a lease that has not run out is blocked.
pub held-blocked :
    (now : ℕ) (es : List Entry)
    → All IsTimed es
    → All (λ e. is_held now e ≡ true → blocked_tenants now es e.tenant_id ≡ true) es
held-blocked now es timed =
    All-both _ IsTimed _ (λ e h t held. h (held-active now e t held)) es (active-blocked now es)
      timed

module _ (o : ClaimOptions) (now : ℕ) (blocked : String → Bool) where
  candidate-free : (e : Entry) → is_candidate o now blocked e ≡ true → blocked e.tenant_id ≡ false
  unfolding is_candidate
  candidate-free e h =
      let (ready, chosen) = and-eq-true (not (blocked e.tenant_id) && is_due now e) _ h in
      let (free, due) = and-eq-true (not (blocked e.tenant_id)) (is_due now e) ready in ground arith

  -- A row after the pass is as it was, or its tenant was not blocked.
  IsFree : Entry → Entry → Type 0
  IsFree e e' = (e' ≡ e) ⊎ (blocked e'.tenant_id ≡ false)

  -- An active row of a tenant that the pass has claimed for was active before.
  IsSober : List String → Entry → Type 0
  IsSober claimed e =
      is_held now e ≡ true → holds claimed e.tenant_id ≡ true → blocked e.tenant_id ≡ true

  claim_rows-IsSober :
      (claimed : List String) (count bytes : ℕ) (es : List Entry)
      → All (λ e. is_held now e ≡ true → blocked e.tenant_id ≡ true) es
      → All (IsSober claimed) (claim_rows o now blocked claimed count bytes es).0
  unfolding claim_rows IsSober lease
  claim_rows-IsSober claimed count bytes [] seen = tt
  claim_rows-IsSober claimed count bytes (e ∷ es) seen =
      elim (step-cases o now blocked claimed count bytes e) [
        | inl skipped ↦
            rw (skipped, All)
              (λ active held. seen.0 active, claim_rows-IsSober claimed count bytes es seen.1)
        | inr (inl stopped) ↦
            rw (stopped, All)
              (
                λ active held. seen.0 active,
                All-map _ (IsSober claimed) (λ x h active held. h active) es seen.1,
              )
        | inr (inr taken) ↦
            rw (taken.0, All)
              (
                λ active held. let no = taken.1.fresh in cc,
                All-map (IsSober (e.tenant_id ∷ claimed)) (IsSober claimed)
                    (λ x h active held. h active (rw held (ground arith))) _
                    (claim_rows-IsSober (e.tenant_id ∷ claimed) (suc count)
                      (bytes + body_bytes e.payload) es seen.1),
              )
      ]

  claim_rows-IsFree :
      (claimed : List String) (count bytes : ℕ) (es : List Entry)
      → Each IsFree es (claim_rows o now blocked claimed count bytes es).0
  unfolding IsFree lease
  claim_rows-IsFree claimed count bytes es =
      claim_rows-Each o now blocked IsFree claimed count bytes es (λ e. inl refl)
        (λ e due. inr (candidate-free e due))

  keeps-AreApart :
      (e x y : Entry)
      → (is_held now e ≡ true → blocked e.tenant_id ≡ true)
      → IsFree x y
      → AreApart now e x
      → AreApart now e y
  unfolding IsFree
  keeps-AreApart e x y seen (inl same) h = rw same h
  keeps-AreApart e x y seen (inr free) h = AreApart-intro now e y (λ same one second.
      let held = seen one in let free' : blocked e.tenant_id ≡ false = rw same free in cc)

  lease-AreApart :
      (claimed : List String) (e x : Entry)
      → is_candidate o now blocked e ≡ true
      → IsSober (e.tenant_id ∷ claimed) x
      → AreApart now (lease o now e) x
  unfolding IsSober lease
  lease-AreApart claimed e x due sober = AreApart-intro now (lease o now e) x (λ same one second.
      let held = sober second (rw (← same, ===_refl e.tenant_id) refl) in
      let free : blocked x.tenant_id ≡ false = rw (← same) (candidate-free e due) in cc)

  pub claim_rows-AreApart :
      (claimed : List String) (count bytes : ℕ) (es : List Entry)
      → All (λ e. is_held now e ≡ true → blocked e.tenant_id ≡ true) es
      → Pairwise (AreApart now) es
      → Pairwise (AreApart now) (claim_rows o now blocked claimed count bytes es).0
  unfolding claim_rows
  claim_rows-AreApart claimed count bytes [] seen apart = tt
  claim_rows-AreApart claimed count bytes (e ∷ es) seen apart =
      elim (step-cases o now blocked claimed count bytes e) [
        | inl skipped ↦
            rw (skipped, Pairwise)
              (
                Each-All IsFree (AreApart now e) (AreApart now e)
                    (λ x y. keeps-AreApart e x y seen.0) es _
                    (claim_rows-IsFree claimed count bytes es) apart.0,
                claim_rows-AreApart claimed count bytes es seen.1 apart.1,
              )
        | inr (inl stopped) ↦ rw (stopped, Pairwise) apart
        | inr (inr taken) ↦
            rw (taken.0, Pairwise)
              (
                All-map (IsSober (e.tenant_id ∷ claimed)) (AreApart now (lease o now e))
                    (λ x. lease-AreApart claimed e x taken.1.candidate) _
                    (claim_rows-IsSober (e.tenant_id ∷ claimed) (suc count)
                      (bytes + body_bytes e.payload) es seen.1),
                claim_rows-AreApart (e.tenant_id ∷ claimed) (suc count)
                    (bytes + body_bytes e.payload) es seen.1 apart.1,
              )
      ]
