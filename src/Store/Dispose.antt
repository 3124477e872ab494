-- ===== src/Store/Dispose.antt =====
-- `prepareDisposition`, `confirmDisposition` and `listDispositions` of `MemoryAuditStore`
-- (sdks/typescript/src/index.ts).
use veritio.Prelude.{
  ℕ, String, Option, none, some, List, [], ◌∷◌, Bool, true, false, not, ◌&&◌, ltb, ◌==◌, ◌===◌,
  if◌then◌else◌, find,
}
use veritio.Prelude.Text.{same_text, is_sha256_hex}
use veritio.Prelude.Dict.{Dict, get, set}
use veritio.Prelude.Results.{Result, ok, throws, require, ◌>>=◌, ◌>>◌}
use veritio.Json.{Json, Members, num, str, obj, end, member, canonical_json}
use veritio.Retention.{
  RetentionSignature, Checkpoint, Disposition, RetentionResult, accepted, refused,
}
use veritio.Retention.Formats.{is_id}
use veritio.Retention.Verify.{Platform, verify_retention_disposition, no_options}
use veritio.Store.{
  Store, StoreError, tenant_required, invalid_fence, fence_mismatch, checkpoint_hash_required,
  invalid_attempt, binding_mismatch, checkpoint_not_found, already_confirmed, attempt_conflict,
  attempt_id_required, attempt_mismatch, attempt_fence_mismatch, conflicting_receipt,
  attempt_not_pending, invalid_receipt, AttemptStatus, pending, disposed, DispositionAttempt,
  AuditChainState, chain_state, assert_non_empty, is_retention_policy_fence, checkpoints_of,
  attempts_of, dispositions_of,
}

abbrev pub is_pending : AttemptStatus → Bool
is_pending pending = true
is_pending disposed = false

no_keys : List String → Bool
no_keys [] = true
no_keys (k ∷ ks) = false

-- `assertDispositionAttempt`, `false` where it throws.
unfoldable pub is_disposition_attempt : DispositionAttempt → Bool
unfolding no_keys is_id is_sha256_hex is_retention_policy_fence
is_disposition_attempt a =
    no_keys a.other_keys
    && is_id a.attempt_id
    && is_sha256_hex a.checkpoint_hash
    && is_retention_policy_fence a.policy_fence

status_name : AttemptStatus → String
status_name pending = "pending"
status_name disposed = "disposed"

unfoldable pub attempt_json : DispositionAttempt → Json
unfolding status_name
attempt_json a = obj (
    member "attemptId" (str a.attempt_id) (
      member "checkpointHash" (str a.checkpoint_hash) (
        member "policyFence" (num a.policy_fence)
          (member "status" (str (status_name a.status)) end))))

optional_text : String → Option String → Members → Members
optional_text key none rest = rest
optional_text key (some s) rest = member key (str s) rest

signature_json : Option RetentionSignature → Members → Members
signature_json none rest = rest
signature_json (some s) rest =
    member "signature"
      (obj (
        member "algorithm" (str s.algorithm) (
          member "publicKeyFingerprint" (str s.public_key_fingerprint)
            (member "signature" (str s.signature) end))))
      rest

-- A stored or presented receipt with all its keys.
unfoldable pub receipt_json : Disposition → Json
unfolding optional_text signature_json
receipt_json d = obj (
    member "recordType" (str d.record_type) (
      member "schemaVersion" (str d.schema_version) (
        member "dispositionId" (str d.disposition_id) (
          member "tenantId" (str d.tenant_id) (
            member "chainKind" (str d.chain_kind) (
              member "checkpointHash" (str d.checkpoint_hash) (
                member "fromSequence" (num d.from_sequence) (
                  member "throughSequence" (num d.through_sequence) (
                    member "archiveRootHash" (str d.archive_root_hash) (
                      member "method" (str d.method) (
                        member "policyReference" (str d.policy_reference) (
                          member "disposedAt" (str d.disposed_at) (
                            member "canonicalization" (str d.canonicalization) (
                              member "hashAlgorithm" (str d.hash_algorithm) (
                                optional_text "signaturePublicKeyFingerprint" d.fingerprint (
                                  member "hash" (str d.hash)
                                    (signature_json d.signature end)))))))))))))))))

unfoldable pub same_attempt : DispositionAttempt → DispositionAttempt → Bool
unfolding attempt_json same_text
same_attempt a b = same_text (canonical_json (attempt_json a)) (canonical_json (attempt_json b))

knows_keys : Disposition → Bool
unfolding no_keys
knows_keys d =
    no_keys d.other_keys && elim d.signature [ none ↦ true | some s ↦ no_keys s.other_keys ]

-- A stored receipt was verified, so it has no other keys; one with other keys has another text.
unfoldable pub same_receipt : Disposition → Disposition → Bool
unfolding receipt_json same_text knows_keys
same_receipt a b =
    knows_keys b && same_text (canonical_json (receipt_json a)) (canonical_json (receipt_json b))

abbrev pub find_checkpoint : List Checkpoint → String → Option Checkpoint
find_checkpoint checkpoints hash = find (λ c. c.hash === hash) checkpoints

abbrev pub found {ℓ} : {A : Type ℓ} → Option A → StoreError → Result StoreError (Unit {0})
found none error = throws error
found (some a) error = ok tt

abbrev pub missing {ℓ} : {A : Type ℓ} → Option A → StoreError → Result StoreError (Unit {0})
missing none error = ok tt
missing (some a) error = throws error

-- The checks before the stored attempts are read.
unfoldable pub admit_attempt :
    Store → String → String → DispositionAttempt → ℕ → Result StoreError (Unit {0})
admit_attempt store tenant checkpoint_hash attempt fence = do
  assert_non_empty tenant tenant_required
  assert_non_empty checkpoint_hash checkpoint_hash_required
  require (is_disposition_attempt attempt) invalid_attempt
  require (is_retention_policy_fence fence) invalid_fence
  current ← chain_state store tenant
  require (current.retention_policy_fence == fence && attempt.policy_fence == fence) fence_mismatch
  require (is_pending attempt.status && attempt.checkpoint_hash === checkpoint_hash)
      binding_mismatch
  found (find_checkpoint (checkpoints_of store tenant) checkpoint_hash) checkpoint_not_found
  missing (get (dispositions_of store tenant) checkpoint_hash) already_confirmed

unfoldable pub bind_attempt : Store → String → String → DispositionAttempt → Store
bind_attempt store tenant checkpoint_hash attempt = record store {
  attempts = set store.attempts tenant (set (attempts_of store tenant) checkpoint_hash attempt);
}

-- What becomes of an admitted attempt, by the one that the checkpoint has already.
unfoldable pub place_attempt :
    Option DispositionAttempt
    → Store
    → String
    → String
    → DispositionAttempt
    → Result StoreError (DispositionAttempt × Store)
place_attempt none store tenant checkpoint_hash attempt =
    ok (attempt, bind_attempt store tenant checkpoint_hash attempt)
place_attempt (some existing) store tenant checkpoint_hash attempt =
    if same_attempt existing attempt
    then ok (existing, store)
    else if is_pending existing.status && ltb existing.policy_fence attempt.policy_fence
    then ok (attempt, bind_attempt store tenant checkpoint_hash attempt)
    else throws attempt_conflict

unfoldable pub prepare_disposition :
    Store
    → String
    → String
    → DispositionAttempt
    → ℕ
    → Result StoreError (DispositionAttempt × Store)
unfolding admit_attempt place_attempt
prepare_disposition store tenant checkpoint_hash attempt fence = do
  admit_attempt store tenant checkpoint_hash attempt fence
  place_attempt (get (attempts_of store tenant) checkpoint_hash) store tenant checkpoint_hash
      attempt

abbrev pub or_invalid : RetentionResult → Result StoreError (Unit {0})
or_invalid (accepted status) = ok tt
or_invalid (refused index reason status) = throws (invalid_receipt reason)

-- The attempt that a receipt settles.
unfoldable pub claim_attempt :
    Option DispositionAttempt → String → String → ℕ → Result StoreError DispositionAttempt
claim_attempt none checkpoint_hash attempt_id fence = throws attempt_mismatch
claim_attempt (some a) checkpoint_hash attempt_id fence = do
  require (a.attempt_id === attempt_id) attempt_mismatch
  require (a.policy_fence == fence && a.checkpoint_hash === checkpoint_hash) attempt_fence_mismatch
  ok a

unfoldable pub confirm : Store → String → DispositionAttempt → Disposition → Store
confirm store tenant attempt receipt = record store {
  dispositions =
      set store.dispositions tenant
        (set (dispositions_of store tenant) receipt.checkpoint_hash receipt);
  attempts = set store.attempts tenant (
      set (attempts_of store tenant) receipt.checkpoint_hash (record {
        attempt_id = attempt.attempt_id;
        checkpoint_hash = attempt.checkpoint_hash;
        policy_fence = attempt.policy_fence;
        status = disposed;
        other_keys = [];
      }));
}

module _ (platform : Platform) where
  -- The first receipt of a checkpoint, once its attempt was claimed.
  unfoldable pub confirm_first :
      Store → String → DispositionAttempt → Disposition → Checkpoint → Result StoreError Store
  unfolding confirm
  confirm_first store tenant attempt receipt checkpoint = do
    require (is_pending attempt.status) attempt_not_pending
    or_invalid (verify_retention_disposition platform receipt checkpoint no_options)
    ok (confirm store tenant attempt receipt)

  -- A receipt for a checkpoint that has one already is a replay or a conflict.
  unfoldable pub settle_after :
      Option Disposition
      → Store
      → String
      → DispositionAttempt
      → Disposition
      → Checkpoint
      → Result StoreError Store
  settle_after none store tenant attempt receipt checkpoint =
      confirm_first store tenant attempt receipt checkpoint
  settle_after (some existing) store tenant attempt receipt checkpoint =
      if not (is_pending attempt.status) && same_receipt existing receipt
      then ok store
      else throws conflicting_receipt

  unfoldable pub settle :
      Store
      → String
      → DispositionAttempt
      → Disposition
      → Option Checkpoint
      → Result StoreError Store
  unfolding confirm_first settle_after
  settle store tenant attempt receipt none = throws checkpoint_not_found
  settle store tenant attempt receipt (some checkpoint) =
      settle_after (get (dispositions_of store tenant) receipt.checkpoint_hash) store tenant attempt
        receipt checkpoint

  unfoldable pub confirm_on :
      Store → String → Disposition → String → ℕ → AuditChainState → Result StoreError Store
  unfolding settle claim_attempt
  confirm_on store tenant receipt attempt_id fence current = do
    require (current.retention_policy_fence == fence) fence_mismatch
    attempt ←
        claim_attempt (get (attempts_of store tenant) receipt.checkpoint_hash)
          receipt.checkpoint_hash attempt_id fence
    settle store tenant attempt receipt
        (find_checkpoint (checkpoints_of store tenant) receipt.checkpoint_hash)

  unfoldable pub confirm_disposition :
      Store → String → Disposition → String → ℕ → Result StoreError Store
  confirm_disposition store tenant receipt attempt_id fence = do
    assert_non_empty tenant tenant_required
    assert_non_empty attempt_id attempt_id_required
    require (is_retention_policy_fence fence) invalid_fence
    current ← chain_state store tenant
    confirm_on store tenant receipt attempt_id fence current

abbrev receipts : Dict Disposition → List Checkpoint → List Disposition
receipts dispositions [] = []
receipts dispositions (c ∷ cs) = elim (get dispositions c.hash) [
  | none ↦ receipts dispositions cs
  | some d ↦ d ∷ receipts dispositions cs
]

unfoldable pub list_dispositions : Store → String → Result StoreError (List Disposition)
list_dispositions store tenant = do
  assert_non_empty tenant tenant_required
  ok (receipts (dispositions_of store tenant) (checkpoints_of store tenant))
