-- ===== src/Outbox/Evidence.antt =====
-- What the operations of the file queue (storage/src/outbox-file.ts) do to the rows that are there: each
-- row takes one legal step, and none is lost.
use veritio.Prelude.{
  ℕ, zero, suc, ap, sym, ◌≡◌, refl, String, Option, none, some, List, [], ◌∷◌, Bool, true, not, inl,
  inr, Bool-cases, Each, All, ◌⊎◌,
}
use veritio.Prelude.Text.{is_blank}
use veritio.Prelude.Results.{Result, ok, >>=-eq-ok, require-eq-ok, ok-injective, ok-injective_pair}
use veritio.Outbox.{
  Entry, ClaimOptions, OutboxError, is_circuit_id, resolve_circuit_id, validate_claim_options,
  validate_list_options, is_positive_safe,
}
use veritio.Outbox.File.{Callback, is_candidate, lease, read_entries, sort_entries, claim_rows}
use veritio.Outbox.Settle.{
  ResumeOptions, update, settle_dispatched, settle_failed, resumed, is_paused_row, resume_rows,
  has_other_circuit, claim_dispatchable, mark_dispatched, mark_failed, resume_paused,
  blocked_tenants, settle, is_dated, written, rewritten,
}
use veritio.Outbox.Rows.{IsStored, read-eq-ok}
use veritio.Outbox.Steps.{RowStep}
use veritio.Outbox.Calls.{Call, call, second-eq-ok, update-Each, resume_rows-Each, claim_rows-Each}

-- A circuit that the queue makes of a random UUID is well formed.
abbrev pub HasUuid : Call → Type 0
HasUuid (Call.fails id failure o fresh) = is_circuit_id (resolve_circuit_id none fresh) ≡ true
HasUuid _ = Unit

pub resolved :
    (circuit : Option String) (fresh : String)
    → is_circuit_id (resolve_circuit_id none fresh) ≡ true
    → is_circuit_id (resolve_circuit_id circuit fresh) ≡ true
unfolding resolve_circuit_id
resolved none fresh h = h
resolved (some s) fresh h = elim (Bool-cases (is_circuit_id s)) [
  | inl valid ↦ rw (valid, resolve_circuit_id) valid
  | inr invalid ↦ rw (invalid, resolve_circuit_id) h
]

pub named-lease :
    (o : ClaimOptions) → validate_claim_options o ≡ ok tt → not (is_blank o.lease_id) ≡ true
unfolding validate_claim_options
named-lease o h =
    let (u, scoped, h1) = >>=-eq-ok (validate_list_options _) _ h in
    (require-eq-ok (not (is_blank o.lease_id)) OutboxError.lease_id_required _ h1).0

module _ (id_le : String → String → Bool) where
  -- A call that changes rows in place: the file stays, or becomes the sorted rows after their steps.
  pub record Updates (R : Entry → Entry → Type 0) (file after : List Entry) : Type 0 where
    pub stored : All IsStored file
    pub rows : List Entry
    pub each : Each R (sort_entries id_le file) rows
    pub moved : (after ≡ file) ⊎ (after ≡ sort_entries id_le rows)

  -- What a claim pass that returns has done.
  pub record Claims (file : List Entry) (o : ClaimOptions) (now : ℕ) (claims after : List Entry)
      : Type 0 where
    pub stored : All IsStored file
    pub valid : validate_claim_options o ≡ ok tt
    pub dated :
        is_dated o now
          (claim_rows o now
            (blocked_tenants now (sort_entries id_le file))
            []
            0
            0
            (sort_entries id_le file)).1
        ≡ true
    pub outcome :
        (claims, after)
        ≡ written id_le file (
            claim_rows o now
              (blocked_tenants now (sort_entries id_le file))
              []
              0
              0
              (sort_entries id_le file))

  pub claim-eq-ok :
      (file : List Entry) (o : ClaimOptions) (now : ℕ) (claims after : List Entry)
      → claim_dispatchable id_le file o now ≡ ok (claims, after)
      → Claims file o now claims after
  unfolding claim_dispatchable
  claim-eq-ok file o now claims after h =
      let (u, valid, h1) = >>=-eq-ok (validate_claim_options o) _ h in
      let (entries, found, h2) = >>=-eq-ok (read_entries id_le file) _ h1 in
      let (stored, sorted) = read-eq-ok id_le file entries found in
      let (dated, h3) =
        require-eq-ok
          (is_dated o now (claim_rows o now (blocked_tenants now entries) [] 0 0 entries).1)
          OutboxError.invalid_time _ h2 in
      record {
        stored = stored;
        valid = valid;
        dated = rw (← sorted) dated;
        outcome = rw (← sorted) (sym (ok-injective h3));
      }

  pub settle-Updates :
      (R : Entry → Entry → Type 0) (f : Entry → Result OutboxError Entry) (file : List Entry)
      (id : String) (e : Entry) (after : List Entry)
      → ((e : Entry) → R e e)
      → ((e x : Entry) → f e ≡ ok x → R e x)
      → settle id_le f file id ≡ ok (e, after)
      → Updates R file after
  unfolding settle
  settle-Updates R f file id e after keeps steps h =
      let (filled, h1) = require-eq-ok (not (is_blank id)) OutboxError.id_required _ h in
      let (entries, found, h2) = >>=-eq-ok (read_entries id_le file) _ h1 in
      let (stored, sorted) = read-eq-ok id_le file entries found in
      let (rest, changed, done) = >>=-eq-ok (update f id entries) _ h2 in
      let same : sort_entries id_le rest.1 ≡ after = (ok-injective_pair done).1 in
      record {
        stored = stored;
        rows = rest.1;
        each = rw (← sorted) (update-Each R f id entries rest.0 rest.1 keeps steps changed);
        moved = inr (rw same refl);
      }

  written-Updates :
      (R : Entry → Entry → Type 0) (file rows claims : List Entry) {c after : List Entry}
      → All IsStored file
      → Each R (sort_entries id_le file) rows
      → (c, after) ≡ written id_le file (rows, claims)
      → Updates R file after
  written-Updates R file rows [] stored each same = record {
    stored = stored;
    rows = rows;
    each = each;
    moved = inl (ap (λ p. p.1) same);
  }
  written-Updates R file rows (x ∷ xs) stored each same = record {
    stored = stored;
    rows = rows;
    each = each;
    moved = inr (ap (λ p. p.1) same);
  }

  rewritten-Updates :
      (R : Entry → Entry → Type 0) (file rows : List Entry) (n : ℕ) {c : ℕ} {after : List Entry}
      → All IsStored file
      → Each R (sort_entries id_le file) rows
      → rewritten id_le file (rows, n) ≡ (c, after)
      → Updates R file after
  rewritten-Updates R file rows zero stored each same = record {
    stored = stored;
    rows = rows;
    each = each;
    moved = inl (sym (ap (λ p. p.1) same));
  }
  rewritten-Updates R file rows (suc n) stored each same = record {
    stored = stored;
    rows = rows;
    each = each;
    moved = inr (sym (ap (λ p. p.1) same));
  }

  pub resume-Updates :
      (R : Entry → Entry → Type 0) (file : List Entry) (o : ResumeOptions) (now n : ℕ)
      (after : List Entry)
      → ((e : Entry) → R e e)
      → ((e : Entry) → is_paused_row o.tenant_id e ≡ true → R e (resumed now e))
      → resume_paused id_le file o now ≡ ok (n, after)
      → Updates R file after
  unfolding resume_paused
  resume-Updates R file o now n after keeps steps h =
      let (t, h1) = require-eq-ok (not (is_blank o.tenant_id)) OutboxError.tenant_id_required _ h in
      let (c, h2) =
        require-eq-ok (not (is_blank o.expected_circuit_id)) OutboxError.circuit_required _ h1 in
      let (l, h3) = require-eq-ok (is_positive_safe o.limit) OutboxError.not_positive _ h2 in
      let (entries, found, h4) = >>=-eq-ok (read_entries id_le file) _ h3 in
      let (stored, sorted) = read-eq-ok id_le file entries found in
      let (m, h5) =
        require-eq-ok (not (has_other_circuit o entries)) OutboxError.circuit_mismatch _ h4 in
      rewritten-Updates R file (resume_rows o.tenant_id now o.limit entries).0
        (resume_rows o.tenant_id now o.limit entries).1 stored
        (rw (← sorted) (resume_rows-Each R o.tenant_id now o.limit entries keeps steps))
        (ok-injective h5)

  pub claim-Updates :
      (R : Entry → Entry → Type 0) (file : List Entry) (o : ClaimOptions) (now : ℕ)
      (claims after : List Entry)
      → ((e : Entry) → R e e)
      → ((blocked : String → Bool) (e : Entry)
          → is_candidate o now blocked e ≡ true
          → R e (lease o now e))
      → Claims file o now claims after
      → Updates R file after
  claim-Updates R file o now claims after keeps steps c =
      let entries = sort_entries id_le file in
      let blocked = blocked_tenants now entries in
      written-Updates R file (claim_rows o now blocked [] 0 0 entries).0
        (claim_rows o now blocked [] 0 0 entries).1 c.stored
        (claim_rows-Each o now blocked R [] 0 0 entries keeps (steps blocked)) c.outcome

  -- A call outside a transaction takes each row by one legal step.
  pub call-Updates :
      (max : Option ℕ) (file : List Entry) (c : Call) (after : List Entry)
      → HasUuid c
      → call id_le max file c ≡ ok after
      → ((run : Callback) × (c ≡ Call.transacts run)) ⊎ Updates RowStep file after
  unfolding call mark_dispatched mark_failed
  call-Updates max file (Call.transacts run) after fresh h = inl (run, refl)
  call-Updates max file (Call.claims o now) after fresh h =
      let (claims, h1) = second-eq-ok (claim_dispatchable id_le file o now) after h in
      let c = claim-eq-ok file o now claims after h1 in
      inr (
        claim-Updates RowStep file o now claims after (λ e. RowStep.keeps refl)
          (λ blocked e due. RowStep.leases o now blocked (named-lease o c.valid) due refl) c)
  call-Updates max file (Call.dispatches id lease_id at) after fresh h =
      let (e, h1) = second-eq-ok (mark_dispatched id_le file id lease_id at) after h in
      inr (
        settle-Updates RowStep (settle_dispatched lease_id at) file id e after
          (λ e. RowStep.keeps refl) (λ e x k. RowStep.dispatches lease_id at k) h1)
  call-Updates max file (Call.fails id failure o fresh) after named h =
      let (e, h1) = second-eq-ok (mark_failed id_le file id failure o fresh) after h in
      inr (
        settle-Updates RowStep (settle_failed failure o fresh) file id e after
          (λ e. RowStep.keeps refl)
          (λ e x k. RowStep.fails failure o fresh (resolved o.circuit_id fresh named) k) h1)
  call-Updates max file (Call.resumes o now) after fresh h =
      let (n, h1) = second-eq-ok (resume_paused id_le file o now) after h in
      inr (
        resume-Updates RowStep file o now n after (λ e. RowStep.keeps refl)
          (λ e held. RowStep.resumes o.tenant_id now held refl) h1)
