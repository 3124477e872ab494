-- ===== src/Outbox/Leases.antt =====
-- The leases of the file queue (storage/src/outbox-file.ts) as times: when two rows are rivals, and the steps
-- of a row that begin no lease.
use veritio.Prelude.{
  ℕ, ◌≤◌, ◌≡◌, refl, sym, String, Option, Bool, true, false, ◌&&◌, ◌===◌, ===_iff, inl, inr,
  Bool-cases, and-eq-true, arith, ◌∙◌, ltb, none, some,
}
use veritio.Prelude.Results.{ok, >>=-eq-ok, ok-injective}
use veritio.Outbox.{
  OutboxStatus, Entry, Failure, DeliveryDisposition, assert_lease, clear_lease, resolve_disposition,
  same_status,
}
use veritio.Outbox.Settle.{FailOptions, settle_dispatched, settle_failed, resumed, place}

-- Whether a lease end is after `now`.
abbrev pub is_after : ℕ → Option ℕ → Bool
is_after now none = false
is_after now (some end) = ltb now end

-- A row under a lease that ends after `now`, as times, not as texts.
unfoldable pub is_held : ℕ → Entry → Bool
is_held now e = same_status e.status OutboxStatus.leased && is_after now e.lease_expires_at

-- Two rows that are both leased for one tenant.
unfoldable pub are_rivals : ℕ → Entry → Entry → Bool
are_rivals now a b = a.tenant_id === b.tenant_id && is_held now a && is_held now b

abbrev pub AreApart : ℕ → Entry → Entry → Type 0
AreApart now a b = are_rivals now a b ≡ false

pub AreApart-flip : (now : ℕ) (a b : Entry) → AreApart now a b → AreApart now b a
unfolding are_rivals
AreApart-flip now a b h =
    ground (arith, ===_iff a.tenant_id b.tenant_id, ===_iff b.tenant_id a.tenant_id)

pub held-earlier :
    (clock now : ℕ) (e : Entry) → clock ≤ now → is_held now e ≡ true → is_held clock e ≡ true
unfolding is_held
held-earlier clock now e later h =
    let (leased, after) = and-eq-true (same_status e.status OutboxStatus.leased) _ h in
    rw leased (go e.lease_expires_at after)
  where
    go : (end : Option ℕ) → is_after now end ≡ true → is_after clock end ≡ true
    go none h = cc
    go (some at) h = ground arith

-- A change after which the row is leased only if it was.
pub record Calms (clock : ℕ) (e : Entry) (e' : Entry) : Type 0 where
  pub tenant_id : e'.tenant_id ≡ e.tenant_id
  pub active : is_held clock e' ≡ true → is_held clock e ≡ true

pub AreApart-intro :
    (now : ℕ) (a b : Entry)
    → (a.tenant_id ≡ b.tenant_id → is_held now a ≡ true → is_held now b ≡ true → true ≡ false)
    → AreApart now a b
unfolding are_rivals
AreApart-intro now a b h = elim (Bool-cases (are_rivals now a b)) [
  | inl rivals ↦
      let (both, second) = and-eq-true (a.tenant_id === b.tenant_id && is_held now a) _ rivals in
      let (same, one) = and-eq-true (a.tenant_id === b.tenant_id) _ both in
      let no = h ((===_iff a.tenant_id b.tenant_id).0 same) one second in cc
  | inr apart ↦ apart
]

pub AreApart-elim :
    (now : ℕ) (a b : Entry)
    → AreApart now a b
    → a.tenant_id ≡ b.tenant_id
    → is_held now a ≡ true
    → is_held now b ≡ true
    → true ≡ false
unfolding are_rivals
AreApart-elim now a b h same one second = ground (arith, ===_iff a.tenant_id b.tenant_id)

pub calm-AreApart :
    (clock now : ℕ)
    → clock ≤ now
    → (a b x y : Entry) → Calms clock a x
    → Calms clock b y
    → AreApart clock a b
    → AreApart now x y
calm-AreApart clock now later a b x y f g h = AreApart-intro now x y (λ same one second.
    AreApart-elim clock a b h (sym f.tenant_id ∙ same ∙ g.tenant_id)
      (f.active (held-earlier clock now x later one))
      (g.active (held-earlier clock now y later second)))

pub Calms-refl : (clock : ℕ) (e : Entry) → Calms clock e e
Calms-refl clock e = record { tenant_id = refl; active = λ h. h }

pub dispatched-Calms :
    (clock : ℕ) (lease_id : Option String) (at : ℕ) (e x : Entry)
    → settle_dispatched lease_id at e ≡ ok x
    → Calms clock e x
unfolding settle_dispatched clear_lease is_held
dispatched-Calms clock lease_id at e x h =
    let (u, owned, done) = >>=-eq-ok (assert_lease e lease_id) _ h in
    rw (← ok-injective done) (record { tenant_id = refl; active = λ no. cc })

place-Calms :
    (clock : ℕ) (o : FailOptions) (fresh : String) (d : DeliveryDisposition) (e : Entry)
    → Calms clock e (clear_lease (place o fresh d e))
unfolding clear_lease is_held
place-Calms clock o fresh DeliveryDisposition.retry e = record {
  tenant_id = refl;
  active = λ no. cc;
}
place-Calms clock o fresh DeliveryDisposition.pause e = record {
  tenant_id = refl;
  active = λ no. cc;
}
place-Calms clock o fresh DeliveryDisposition.reject e = record {
  tenant_id = refl;
  active = λ no. cc;
}

pub failed-Calms :
    (clock : ℕ) (failure : Failure) (o : FailOptions) (fresh : String) (e x : Entry)
    → settle_failed failure o fresh e ≡ ok x
    → Calms clock e x
unfolding settle_failed is_held
failed-Calms clock failure o fresh e x h =
    let (u, owned, h1) = >>=-eq-ok (assert_lease e o.lease_id) _ h in
    let (d, chosen, done) = >>=-eq-ok (resolve_disposition o.retryable o.disposition) _ h1 in
    rw (← ok-injective done) (
      let c = place-Calms clock o fresh d _ in
      record { tenant_id = c.tenant_id; active = c.active })

pub resumed-Calms : (clock now : ℕ) (e : Entry) → Calms clock e (resumed now e)
unfolding resumed is_held
resumed-Calms clock now e = record { tenant_id = refl; active = λ no. cc }

pub pending-free :
    (clock : ℕ) (e : Entry)
    → e.status ≡ OutboxStatus.pending
    → is_held clock e ≡ true
    → true ≡ false
unfolding is_held
pending-free clock e pending active = let no = rw (pending, is_held) at active in cc
