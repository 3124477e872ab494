-- ===== src/Store/Moves.antt =====
-- The calls on a `MemoryAuditStore` (sdks/typescript/src/index.ts), and the transitions that they
-- come down to.
use veritio.Prelude.{ℕ, ◌+◌, ◌≤◌, ◌≡◌, refl, inl, inr, String, Option, some}
use veritio.Prelude.Results.{Result, ok, throws, ok-injective}
use veritio.Protocol.{AuditEvent, AuditRecord, tenant_of}
use veritio.Retention.{Checkpoint, Disposition}
use veritio.Retention.Formats.{max_safe_integer}
use veritio.Retention.Verify.{Platform}
use veritio.Store.{Store, StoreError, AuditChainState, DispositionAttempt, state_of}
use veritio.Store.Append.{AppendOptions, append, advance_retention_policy_fence, with_fence}
use veritio.Store.Compact.{compact_range}
use veritio.Store.Dispose.{prepare_disposition, confirm_disposition, bind_attempt, admit_attempt}
use veritio.Store.Outcomes.{Inserts, append-eq-ok, advance-eq-ok}
use veritio.Store.Settlement.{Confirms, prepare-eq-ok, confirm-eq-ok}
use veritio.Store.Admission.{Compacts, compact_range-Compacts}

pub data Call : Type 0 where
  appends : AuditEvent → AppendOptions → (now : String) → Call
  advances : (tenant : String) (expected : ℕ) → Call
  compacts : (tenant : String) → Checkpoint → (expected : AuditChainState) (fence : ℕ) → Call
  prepares : (tenant hash : String) → DispositionAttempt → (fence : ℕ) → Call
  confirms : (tenant : String) → Disposition → (attempt_id : String) (fence : ℕ) → Call

abbrev pub second : {A : Type 0} → Result StoreError (A × Store) → Result StoreError Store
second (ok (value, after)) = ok after
second (throws e) = throws e

second-eq-ok :
    {A : Type 0} (r : Result StoreError (A × Store)) (after : Store)
    → second r ≡ ok after
    → (value : A) × (r ≡ ok (value, after))
second-eq-ok (ok (value, s)) after h = (value, rw (ok-injective h))
second-eq-ok (throws e) after h = cc

module _ (platform : Platform) where
  unfoldable pub call : Store → Call → Result StoreError Store
  call store (appends event options now) = second (append platform.sha256 store event options now)
  call store (advances tenant expected) =
      second (advance_retention_policy_fence store tenant expected)
  call store (compacts tenant c expected fence) =
      compact_range platform store tenant c expected fence
  call store (prepares tenant hash attempt fence) =
      second (prepare_disposition store tenant hash attempt fence)
  call store (confirms tenant receipt attempt_id fence) =
      confirm_disposition platform store tenant receipt attempt_id fence

-- The tenant that a call is about.
abbrev pub concerns : Call → Option String
concerns (appends event options now) = tenant_of event.scope
concerns (advances tenant expected) = some tenant
concerns (compacts tenant c expected fence) = some tenant
concerns (prepares tenant hash attempt fence) = some tenant
concerns (confirms tenant receipt attempt_id fence) = some tenant

module _ (platform : Platform) where
  -- One transition of the store on behalf of a tenant.
  pub data Moves (store : Store) (tenant : String) (after : Store) : Type 0 where
    stays : after ≡ store → Moves store tenant after
    inserts :
        (event : AuditEvent) (options : AppendOptions) (now : String) (r : AuditRecord)
        → (i : Inserts platform.sha256 store event options now r after) → i.tenant ≡ tenant
        → Moves store tenant after
    fences :
        (next : ℕ)
        → next ≡ (state_of store tenant).retention_policy_fence + 1
        → next ≤ max_safe_integer
        → after ≡ with_fence store tenant (state_of store tenant) next
        → Moves store tenant after
    crops :
        (c : Checkpoint) (expected : AuditChainState) (fence : ℕ)
        → Compacts platform store tenant c expected fence after
        → Moves store tenant after
    binds :
        (hash : String) (attempt : DispositionAttempt) (fence : ℕ)
        → admit_attempt store tenant hash attempt fence ≡ ok tt
        → after ≡ bind_attempt store tenant hash attempt
        → Moves store tenant after
    settles :
        (receipt : Disposition) (attempt_id : String) (fence : ℕ)
        → Confirms platform store tenant receipt attempt_id fence after
        → Moves store tenant after

  pub call-Moves :
      (store : Store) (c : Call) (after : Store)
      → call platform store c ≡ ok after
      → (tenant : String) × (concerns c ≡ some tenant) × Moves store tenant after
  unfolding call
  call-Moves store (appends event options now) after h =
      let (r, h1) = second-eq-ok (append platform.sha256 store event options now) after h in
      elim (append-eq-ok platform.sha256 store event options now r after h1) [
        | inl i ↦ (i.tenant, i.scoped, inserts event options now r i refl)
        | inr s ↦ (s.tenant, s.scoped, stays s.unmoved)
      ]
  call-Moves store (advances tenant expected) after h =
      let (next, h1) =
        second-eq-ok (advance_retention_policy_fence store tenant expected) after h in
      let (current, number, room, moved) = advance-eq-ok store tenant expected next after h1 in
      (tenant, refl, fences next number room moved)
  call-Moves store (compacts tenant c expected fence) after h = (
    tenant,
    refl,
    crops c expected fence (compact_range-Compacts platform store tenant c expected fence after h),
  )
  call-Moves store (prepares tenant hash attempt fence) after h =
      let (value, h1) =
        second-eq-ok (prepare_disposition store tenant hash attempt fence) after h in
      let (admitted, placed) = prepare-eq-ok store tenant hash attempt fence value after h1 in
      elim placed [
        | inl same ↦ (tenant, refl, stays same)
        | inr moved ↦ (tenant, refl, binds hash attempt fence admitted moved)
      ]
  call-Moves store (confirms tenant receipt attempt_id fence) after h =
      elim (confirm-eq-ok platform store tenant receipt attempt_id fence after h) [
        | inl again ↦ (tenant, refl, stays again.unmoved)
        | inr k ↦ (tenant, refl, settles receipt attempt_id fence k)
      ]
