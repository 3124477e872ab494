-- ===== src/Outbox/Survival.antt =====
-- The rows of the file queue (storage/src/outbox-file.ts) over time: no call deletes one or changes its
-- evidence, and a row that is delivered or dead stays as it is while settlements name their leases.
use veritio.Prelude.{
  ℕ, ◌≡◌, refl, String, Option, some, List, [], ◌∷◌, Bool, true, false, not, ◌&&◌, ◌||◌, ◌===◌, inl,
  inr, ◌⊎◌, Bool-cases, and-eq-true, All, All-map, All-Any, Any, Any-append, Each-Any, ◌∙◌,
}
use veritio.Prelude.Results.{ok, Result-cases}
use veritio.Outbox.{OutboxStatus, Entry, ClaimOptions, same_status}
use veritio.Outbox.File.{insert_sorted, sort_entries, compare_entries, is_candidate, is_due, lease}
use veritio.Outbox.Settle.{
  resumed, settle, claim_dispatchable, mark_dispatched, mark_failed, resume_paused,
}
use veritio.Outbox.Steps.{RowStep, IsSameEvidence, step-IsSameEvidence}
use veritio.Outbox.Calls.{Call, call, run, second-eq-ok}
use veritio.Outbox.Evidence.{
  Updates, HasUuid, resolved, named-lease, claim-eq-ok, claim-Updates, settle-Updates,
  resume-Updates,
}
use veritio.Outbox.Enqueue.{transaction-keeps}
use veritio.Outbox.Settled.{owned-eq-ok, settle_row, Settlement, lease_of, settle_row-eq-ok}

-- A status that the queue never moves on from by itself.
unfoldable pub is_final : OutboxStatus → Bool
is_final OutboxStatus.dispatched = true
is_final OutboxStatus.dead = true
is_final _ = false

-- The row is there, and as it was if it was delivered or dead.
pub record Survives (e : Entry) (x : Entry) : Type 0 where
  pub evidence : IsSameEvidence e x
  pub final : is_final e.status ≡ true → x ≡ e

Survives-refl : (e : Entry) → Survives e e
Survives-refl e = record {
  evidence = record { id = refl; tenant_id = refl; payload = refl; created_at = refl };
  final = λ h. refl;
}

Survives-trans : (e x y : Entry) → Survives x y → Survives e x → Survives e y
Survives-trans e x y g f = record {
  evidence = record {
    id = g.evidence.id ∙ f.evidence.id;
    tenant_id = g.evidence.tenant_id ∙ f.evidence.tenant_id;
    payload = g.evidence.payload ∙ f.evidence.payload;
    created_at = g.evidence.created_at ∙ f.evidence.created_at;
  };
  final = λ h. let same = f.final h in g.final (rw same h) ∙ same;
}

leased-open : (s : OutboxStatus) → same_status s OutboxStatus.leased ≡ true → is_final s ≡ false
unfolding is_final
leased-open OutboxStatus.pending h = refl
leased-open OutboxStatus.leased h = refl
leased-open OutboxStatus.paused h = refl
leased-open OutboxStatus.dispatched h = cc
leased-open OutboxStatus.dead h = cc

paused-open : (s : OutboxStatus) → same_status s OutboxStatus.paused ≡ true → is_final s ≡ false
unfolding is_final
paused-open OutboxStatus.pending h = refl
paused-open OutboxStatus.leased h = refl
paused-open OutboxStatus.paused h = refl
paused-open OutboxStatus.dispatched h = cc
paused-open OutboxStatus.dead h = cc

due-open :
    (s : OutboxStatus)
    → (same_status s OutboxStatus.pending || same_status s OutboxStatus.leased) ≡ true
    → is_final s ≡ false
unfolding is_final
due-open OutboxStatus.pending h = refl
due-open OutboxStatus.leased h = refl
due-open OutboxStatus.paused h = refl
due-open OutboxStatus.dispatched h = cc
due-open OutboxStatus.dead h = cc

open-Survives : (e x : Entry) → RowStep e x → is_final e.status ≡ false → Survives e x
open-Survives e x s h = record { evidence = step-IsSameEvidence e x s; final = λ k. cc }

candidate-open :
    (o : ClaimOptions) (now : ℕ) (blocked : String → Bool) (e : Entry)
    → is_candidate o now blocked e ≡ true
    → is_final e.status ≡ false
unfolding is_candidate
candidate-open o now blocked e h =
    let (ready, chosen) = and-eq-true (not (blocked e.tenant_id) && is_due now e) _ h in
    let (free, due) = and-eq-true (not (blocked e.tenant_id)) (is_due now e) ready in
    due-open e.status
      (and-eq-true
        (same_status e.status OutboxStatus.pending || same_status e.status OutboxStatus.leased) _
        due).0

-- A settlement that names its lease.
abbrev pub HasOwnLease : Call → Type 0
HasOwnLease (Call.dispatches id lease_id at) = (l : String) × (lease_id ≡ some l)
HasOwnLease (Call.fails id failure o fresh) = (l : String) × (o.lease_id ≡ some l)
HasOwnLease _ = Unit

settled-open :
    (s : Settlement) (e x : Entry) (l : String)
    → lease_of s ≡ some l
    → settle_row s e ≡ ok x
    → is_final e.status ≡ false
settled-open s e x l own h =
    leased-open e.status (owned-eq-ok e l (rw (← own) (settle_row-eq-ok s e x h).0)).0

module _ (id_le : String → String → Bool) (P : Entry → Type 0) where
  Any-insert : (e : Entry) (es : List Entry) → P e ⊎ Any P es → Any P (insert_sorted id_le e es)
  unfolding insert_sorted
  Any-insert e [] h = h
  Any-insert e (x ∷ xs) h = elim (Bool-cases (compare_entries id_le e x)) [
    | inl before ↦ rw (before, Any) h
    | inr after ↦
        rw (after, Any)
          (elim h [
            | inl here ↦ inr (Any-insert e xs (inl here))
            | inr (inl first) ↦ inl first
            | inr (inr later) ↦ inr (Any-insert e xs (inr later))
          ])
  ]

  Any-sort : (es : List Entry) → Any P es → Any P (sort_entries id_le es)
  unfolding sort_entries
  Any-sort [] h = h
  Any-sort (e ∷ es) (inl here) = Any-insert e (sort_entries id_le es) (inl here)
  Any-sort (e ∷ es) (inr later) = Any-insert e (sort_entries id_le es) (inr (Any-sort es later))

module _ (id_le : String → String → Bool) (e : Entry) where
  Updates-Any :
      (file after : List Entry)
      → Any (Survives e) file
      → Updates id_le Survives file after
      → Any (Survives e) after
  Updates-Any file after here u = elim u.moved [
    | inl same ↦ rw same here
    | inr moved ↦ rw moved (
        Any-sort id_le (Survives e) u.rows (
          Each-Any Survives (Survives e) (Survives e)
            (λ x y step old. Survives-trans e x y step old) _ u.rows u.each
            (Any-sort id_le (Survives e) file here)))
  ]

  settle-Any :
      (s : Settlement) (file : List Entry) (id l : String) (x : Entry) (after : List Entry)
      → lease_of s ≡ some l
      → ((y z : Entry) → settle_row s y ≡ ok z → RowStep y z)
      → Any (Survives e) file
      → settle id_le (settle_row s) file id ≡ ok (x, after)
      → Any (Survives e) after
  settle-Any s file id l x after own steps here h = Updates-Any file after here (
      settle-Updates id_le Survives (settle_row s) file id x after Survives-refl
        (λ y z k. open-Survives y z (steps y z k) (settled-open s y z l own k)) h)

  call-Any :
      (max : Option ℕ) (file : List Entry) (c : Call) (after : List Entry)
      → HasUuid c
      → HasOwnLease c
      → Any (Survives e) file
      → call id_le max file c ≡ ok after
      → Any (Survives e) after
  unfolding call mark_dispatched mark_failed settle_row
  call-Any max file (Call.transacts callback) after fresh own here h =
      transaction-keeps id_le max (Any (Survives e))
        (λ staged input now x next start a.
          rw a.moved
            (Any-sort id_le (Survives e) _ (Any-append (Survives e) staged (x ∷ []) start)))
        (Any-sort id_le (Survives e)) file callback after here h
  call-Any max file (Call.claims o now) after fresh own here h =
      let (claims, h1) = second-eq-ok (claim_dispatchable id_le file o now) after h in
      let c = claim-eq-ok id_le file o now claims after h1 in
      Updates-Any file after here (
        claim-Updates id_le Survives file o now claims after Survives-refl
          (λ blocked x due.
            open-Survives x (lease o now x)
              (RowStep.leases o now blocked (named-lease o c.valid) due refl)
              (candidate-open o now blocked x due))
          c)
  call-Any max file (Call.dispatches id lease_id at) after fresh own here h =
      let (x, h1) = second-eq-ok (mark_dispatched id_le file id lease_id at) after h in
      settle-Any (Settlement.dispatched lease_id at) file id own.0 x after own.1
        (λ y z k. RowStep.dispatches lease_id at k) here h1
  call-Any max file (Call.fails id failure o fresh) after named own here h =
      let (x, h1) = second-eq-ok (mark_failed id_le file id failure o fresh) after h in
      settle-Any (Settlement.failed failure o fresh) file id own.0 x after own.1
        (λ y z k. RowStep.fails failure o fresh (resolved o.circuit_id fresh named) k) here h1
  call-Any max file (Call.resumes o now) after fresh own here h =
      let (n, h1) = second-eq-ok (resume_paused id_le file o now) after h in
      Updates-Any file after here (
        resume-Updates id_le Survives file o now n after Survives-refl
          (λ x held.
            open-Survives x (resumed now x) (RowStep.resumes o.tenant_id now held refl)
              (paused-open x.status (and-eq-true (x.tenant_id === o.tenant_id) _ held).1))
          h1)

  run-Any :
      (max : Option ℕ) (file : List Entry) (cs : List Call)
      → All HasUuid cs
      → All HasOwnLease cs
      → Any (Survives e) file
      → Any (Survives e) (run id_le max file cs)
  unfolding run
  run-Any max file [] fresh own here = here
  run-Any max file (c ∷ cs) fresh own here = elim (Result-cases (call id_le max file c)) [
    | inl (after, done) ↦
        rw (done, run)
          (run-Any max after cs fresh.1 own.1 (call-Any max file c after fresh.0 own.0 here done))
    | inr (error, refused) ↦ rw (refused, run) (run-Any max file cs fresh.1 own.1 here)
  ]

module _ (id_le : String → String → Bool) where
  -- Over any history of calls in which every settlement names a lease and the circuit ids that pauses
  -- make of random UUIDs are well formed: each row of the file stays in it with its id, tenant, payload
  -- and creation time, and a row that was dispatched or dead stays exactly as it was.
  pub rows_survive :
      (max : Option ℕ) (file : List Entry) (cs : List Call)
      → All HasUuid cs
      → All HasOwnLease cs
      → All (λ e. Any (Survives e) (run id_le max file cs)) file
  rows_survive max file cs fresh own =
      All-map (λ e. Any (Survives e) file) (λ e. Any (Survives e) (run id_le max file cs))
        (λ e here. run-Any id_le e max file cs fresh own here) file
        (All-Any Survives Survives-refl file)
