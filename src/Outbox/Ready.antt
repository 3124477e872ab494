-- ===== src/Outbox/Ready.antt =====
-- The rows that `claimDispatchable` (storage/src/outbox-file.ts) may claim, apart from the code's own tests.
use veritio.Prelude.{
  ℕ, ◌≡◌, ◌≢◌, refl, String, Option, none, some, List, [], ◌∷◌, Bool, true, false, not, ◌&&◌, ◌||◌,
  ◌===◌, ===_iff, any, Bool-cases, and-eq-true, inl, inr, ◌⊎◌, All, All-map, arith,
}
use veritio.Outbox.{OutboxStatus, Entry, ClaimOptions, same_status, iso_le}
use veritio.Outbox.File.{
  is_paused_tenant, is_active, has_active_lease, is_due, is_selected, is_candidate,
}
use veritio.Outbox.Settle.{blocked_tenants}

-- A row that does not hold back its tenant's rows at `now`: it is not paused, and its lease, where it
-- has one, has run out.
pub record LetsGo (now : ℕ) (x : Entry) : Type 0 where
  pub unpaused : x.status ≢ OutboxStatus.paused
  pub ended : (x.status ≢ OutboxStatus.leased) ⊎ (iso_le x.available_at now ≡ true)

-- A row that a pass at `now` over the rows of the file may claim.
pub record IsReady (o : ClaimOptions) (now : ℕ) (entries : List Entry) (e : Entry) : Type 0 where
  pub waits : (e.status ≡ OutboxStatus.pending) ⊎ (e.status ≡ OutboxStatus.leased)
  pub due : iso_le e.available_at now ≡ true
  pub chosen : (o.tenant_id ≡ none) ⊎ (o.tenant_id ≡ some e.tenant_id)
  pub free : All (λ x. (x.tenant_id ≢ e.tenant_id) ⊎ LetsGo now x) entries

any-All : {A : Type 0} (f : A → Bool) (xs : List A) → any f xs ≡ false → All (λ x. f x ≡ false) xs
any-All f [] h = tt
any-All f (x ∷ xs) h = elim (Bool-cases (f x)) [
  | inl here ↦ let no = rw here at h in cc
  | inr apart ↦ (apart, any-All f xs (rw apart at h))
]

All-any : {A : Type 0} (f : A → Bool) (xs : List A) → All (λ x. f x ≡ false) xs → any f xs ≡ false
All-any f [] h = refl
All-any f (x ∷ xs) h = rw (h.0) (All-any f xs h.1)

same_status-true :
    (a : OutboxStatus) → same_status a OutboxStatus.leased ≡ true → a ≡ OutboxStatus.leased
same_status-true OutboxStatus.pending h = cc
same_status-true OutboxStatus.leased h = refl
same_status-true OutboxStatus.paused h = cc
same_status-true OutboxStatus.dispatched h = cc
same_status-true OutboxStatus.dead h = cc

waits-cases :
    (s : OutboxStatus)
    → (same_status s OutboxStatus.pending || same_status s OutboxStatus.leased) ≡ true
    → (s ≡ OutboxStatus.pending) ⊎ (s ≡ OutboxStatus.leased)
waits-cases OutboxStatus.pending h = inl refl
waits-cases OutboxStatus.leased h = inr refl
waits-cases OutboxStatus.paused h = cc
waits-cases OutboxStatus.dispatched h = cc
waits-cases OutboxStatus.dead h = cc

not_paused :
    (s : OutboxStatus) → s ≢ OutboxStatus.paused → same_status s OutboxStatus.paused ≡ false
not_paused OutboxStatus.pending h = refl
not_paused OutboxStatus.leased h = refl
not_paused OutboxStatus.paused h = absurd (h refl)
not_paused OutboxStatus.dispatched h = refl
not_paused OutboxStatus.dead h = refl

paused-apart :
    (s : OutboxStatus) → same_status s OutboxStatus.paused ≡ false → s ≢ OutboxStatus.paused
paused-apart s h same = let no = rw (same, same_status) at h in cc

not_leased :
    (s : OutboxStatus) → s ≢ OutboxStatus.leased → same_status s OutboxStatus.leased ≡ false
not_leased OutboxStatus.pending h = refl
not_leased OutboxStatus.leased h = absurd (h refl)
not_leased OutboxStatus.paused h = refl
not_leased OutboxStatus.dispatched h = refl
not_leased OutboxStatus.dead h = refl

leased-apart :
    (s : OutboxStatus) → same_status s OutboxStatus.leased ≡ false → s ≢ OutboxStatus.leased
leased-apart s h same = let no = rw (same, same_status) at h in cc

-- The two tests that block a tenant, on one row.
abbrev pauses : String → Entry → Bool
pauses tenant x = same_status x.status OutboxStatus.paused && x.tenant_id === tenant

abbrev leases : ℕ → String → Entry → Bool
leases now tenant x = is_active now x && x.tenant_id === tenant

tests-LetsGo :
    (now : ℕ) (tenant : String) (x : Entry)
    → pauses tenant x ≡ false
    → leases now tenant x ≡ false
    → (x.tenant_id ≢ tenant) ⊎ LetsGo now x
unfolding is_active
tests-LetsGo now tenant x p l = elim (Bool-cases (x.tenant_id === tenant)) [
  | inr apart ↦ inl (λ same. let here = (===_iff x.tenant_id tenant).1 same in cc)
  | inl here ↦ inr (record {
    unpaused = paused-apart x.status (ground arith);
    ended = elim (Bool-cases (iso_le x.available_at now)) [
      | inl late ↦ inr late
      | inr early ↦ inl (leased-apart x.status (ground arith))
    ];
  })
]

LetsGo-tests :
    (now : ℕ) (tenant : String) (x : Entry)
    → (x.tenant_id ≢ tenant) ⊎ LetsGo now x
    → (pauses tenant x ≡ false) × (leases now tenant x ≡ false)
unfolding is_active
LetsGo-tests now tenant x (inl apart) = elim (Bool-cases (x.tenant_id === tenant)) [
  | inl here ↦ absurd (apart ((===_iff x.tenant_id tenant).0 here))
  | inr other ↦ (ground arith, ground arith)
]
LetsGo-tests now tenant x (inr g) =
    let p = not_paused x.status g.unpaused in
    (
      ground arith,
      elim g.ended [
        | inl idle ↦ let l = not_leased x.status idle in ground arith
        | inr late ↦ ground arith
      ],
    )

free-All :
    (now : ℕ) (entries : List Entry) (tenant : String)
    → blocked_tenants now entries tenant ≡ false
    → All (λ x. (x.tenant_id ≢ tenant) ⊎ LetsGo now x) entries
unfolding is_paused_tenant has_active_lease
free-All now entries tenant h =
    go entries (any-All (pauses tenant) entries (ground arith))
      (any-All (leases now tenant) entries (ground arith))
  where
    go :
        (xs : List Entry)
        → All (λ x. pauses tenant x ≡ false) xs
        → All (λ x. leases now tenant x ≡ false) xs
        → All (λ x. (x.tenant_id ≢ tenant) ⊎ LetsGo now x) xs
    go [] p l = tt
    go (x ∷ xs) p l = (tests-LetsGo now tenant x p.0 l.0, go xs p.1 l.1)

All-free :
    (now : ℕ) (entries : List Entry) (tenant : String)
    → All (λ x. (x.tenant_id ≢ tenant) ⊎ LetsGo now x) entries
    → blocked_tenants now entries tenant ≡ false
unfolding is_paused_tenant has_active_lease
All-free now entries tenant h =
    let p =
      All-any (pauses tenant) entries
        (All-map _ _ (λ x g. (LetsGo-tests now tenant x g).0) entries h) in
    let l =
      All-any (leases now tenant) entries
        (All-map _ _ (λ x g. (LetsGo-tests now tenant x g).1) entries h) in
    ground arith

chosen-cases :
    (asked : Option String) (e : Entry)
    → is_selected asked e ≡ true
    → (asked ≡ none) ⊎ (asked ≡ some e.tenant_id)
chosen-cases none e h = inl refl
chosen-cases (some t) e h = inr (rw ((===_iff e.tenant_id t).0 h) refl)

chosen-is_selected :
    (asked : Option String) (e : Entry)
    → (asked ≡ none) ⊎ (asked ≡ some e.tenant_id)
    → is_selected asked e ≡ true
chosen-is_selected asked e (inl same) = rw same refl
chosen-is_selected asked e (inr same) = rw same ((===_iff e.tenant_id e.tenant_id).1 refl)

module _ (o : ClaimOptions) (now : ℕ) (entries : List Entry) where
  pub candidate-IsReady :
      (e : Entry)
      → is_candidate o now (blocked_tenants now entries) e ≡ true
      → IsReady o now entries e
  unfolding is_candidate
  candidate-IsReady e h =
      let (ready, chosen) =
        and-eq-true (not (blocked_tenants now entries e.tenant_id) && is_due now e) _ h in
      let (free, timely) =
        and-eq-true (not (blocked_tenants now entries e.tenant_id)) (is_due now e) ready in
      let (waits, due) =
        and-eq-true
          (same_status e.status OutboxStatus.pending || same_status e.status OutboxStatus.leased) _
          timely in
      record {
        waits = waits-cases e.status waits;
        due = due;
        chosen = chosen-cases o.tenant_id e chosen;
        free = free-All now entries e.tenant_id (ground arith);
      }

  pub IsReady-candidate :
      (e : Entry)
      → IsReady o now entries e
      → is_candidate o now (blocked_tenants now entries) e ≡ true
  unfolding is_candidate
  IsReady-candidate e r =
      let free = All-free now entries e.tenant_id r.free in
      let due = r.due in
      let chosen = chosen-is_selected o.tenant_id e r.chosen in
      let waits : (same_status e.status OutboxStatus.pending
            || same_status e.status OutboxStatus.leased)
          ≡ true =
        elim r.waits [ inl idle ↦ rw idle refl | inr leased ↦ rw leased refl ] in
      rw (free, waits, due) chosen
