-- ===== src/Store/Audit.antt =====
-- What a verifier finds in a `MemoryAuditStore` (sdks/typescript/src/index.ts,
-- sdks/typescript/src/retention.ts) after any history of calls.
use veritio.Prelude.{
  ℕ, ◌+◌, ◌≡◌, refl, ◌∙◌, String, some, List, [], ◌∷◌, Bool, true, ===_iff, ==_iff,
  same_or_null_iff, keep, last?, arith, All, All-keep, Bool-cases, inl, inr,
}
use veritio.Prelude.Text.{Text}
use veritio.Prelude.Results.{ok}
use veritio.Protocol.{AuditRecord, tenant_of}
use veritio.Chain.{verified, Tip, tip_after, audit_envelope, verify_audit_records}
use veritio.Chain.Linked.{IsSupported, Extends, Linked, is_of, of_tenant}
use veritio.Chain.Verdict.{IsEvidence, verify_records_iff, truthy-eq-some}
use veritio.Retention.{Checkpoint, SignatureStatus, accepted}
use veritio.Retention.Verify.{
  Platform, VerificationOptions, verify_retention_checkpoint, verify_retained, verify_retained_from,
  verify_audit_records_from_checkpoint,
}
use veritio.Store.{Store, new, records_of, checkpoints_of, belongs_to}
use veritio.Store.Tenant.{base_of, envelopes}
use veritio.Store.Invariant.{IsSound}
use veritio.Store.Moves.{Call}
use veritio.Store.History.{run, history-IsSound}

module _ (sha256 : Text → String) where
  of_tenant-envelopes :
      (tenant : String) (rs : List AuditRecord)
      → of_tenant tenant (envelopes sha256 rs) ≡ envelopes sha256 (keep (belongs_to tenant) rs)
  unfolding is_of belongs_to
  of_tenant-envelopes tenant [] = refl
  of_tenant-envelopes tenant (r ∷ rs) = ground (arith, of_tenant-envelopes tenant rs)

  All-envelopes :
      (rs : List AuditRecord)
      → All (λ r. IsSupported (audit_envelope sha256 r)) rs
      → All IsSupported (envelopes sha256 rs)
  All-envelopes [] h = tt
  All-envelopes (r ∷ rs) h = (h.0, All-envelopes rs h.1)

  uncropped-IsEvidence :
      (store : Store)
      → IsSound sha256 store
      → ((tenant : String) → checkpoints_of store tenant ≡ [])
      → IsEvidence (envelopes sha256 store.records)
  uncropped-IsEvidence store v whole = (
    All-envelopes store.records v.supported,
    λ t. rw (of_tenant-envelopes t store.records) (rw (whole t) at (v.anchored t).linked),
  )

module _ (platform : Platform) where
  open platform use {sha256}

  -- After any history of calls in which nothing was compacted, `verifyAuditRecords` accepts all the
  -- records of the store.
  pub history_verifies :
      (cs : List Call)
      → ((tenant : String) → checkpoints_of (run platform new cs) tenant ≡ [])
      → verify_audit_records platform.sha256 (run platform new cs).records ≡ verified
  history_verifies cs whole =
      (verify_records_iff sha256 (run platform new cs).records []).0.1
        (uncropped-IsEvidence sha256 (run platform new cs) (history-IsSound platform cs) whole)

  verify_retained-ok :
      (tenant : String) (tip : Tip) (hash : String) (r : AuditRecord)
      → tip.previous_hash ≡ some hash
      → belongs_to tenant r ≡ true
      → IsSupported (audit_envelope sha256 r)
      → Extends tip (audit_envelope sha256 r)
      → verify_retained platform tenant tip.sequence hash r ≡ ok tt
  unfolding verify_retained belongs_to
  verify_retained-ok tenant tip hash r before mine s x = rw (
    s.scoped,
    (===_iff s.tenant tenant).1 (mine_is (truthy-eq-some _ _ s.scoped)),
    (===_iff _ _).1 s.algorithm,
    (===_iff _ _).1 s.canonical,
    (==_iff _ _).1 x.sequence,
    (same_or_null_iff r.previous_hash (some hash)).1 (x.previous_hash ∙ before),
    (===_iff _ _).1 x.hash,
  )
    where
      mine_is : tenant_of r.event.scope ≡ some s.tenant → s.tenant ≡ tenant
      mine_is e = ground (arith, same_or_null_iff (tenant_of r.event.scope) (some tenant))

  verify_retained_from-accepted :
      (tenant : String) (status : SignatureStatus) (index : ℕ) (tip : Tip) (hash : String)
      (rs : List AuditRecord)
      → tip.previous_hash ≡ some hash
      → All (λ r. belongs_to tenant r ≡ true) rs
      → All (λ r. IsSupported (audit_envelope sha256 r)) rs
      → Linked tip (envelopes sha256 rs)
      → verify_retained_from platform tenant status index tip.sequence hash rs ≡ accepted status
  unfolding verify_retained_from
  verify_retained_from-accepted tenant status index tip hash [] before mine s l = refl
  verify_retained_from-accepted tenant status index tip hash (r ∷ rs) before mine s l =
      rw (verify_retained-ok tenant tip hash r before mine.0 s.0 l.0, verify_retained_from)
        (verify_retained_from-accepted tenant status (index + 1)
          (tip_after (audit_envelope sha256 r)) r.hash rs refl mine.1 s.1 l.1)

  keep-All : {A : Type 0} (p : A → Bool) (xs : List A) → All (λ x. p x ≡ true) (keep p xs)
  keep-All p [] = tt
  keep-All p (x ∷ xs) = elim (Bool-cases (p x)) [
    | inl holds ↦ rw holds (holds, keep-All p xs)
    | inr fails ↦ rw fails (keep-All p xs)
  ]

  -- After any history of calls, compactions included, `verifyAuditRecordsFromCheckpoint` accepts the
  -- tenant's retained records from its last checkpoint `c`, with the status of the signature, under
  -- any options under which it accepts `c` itself.
  pub history_verifies_from_checkpoint :
      (cs : List Call) (tenant : String) (c : Checkpoint) (options : VerificationOptions)
      (status : SignatureStatus)
      → last? (checkpoints_of (run platform new cs) tenant) ≡ some c
      → verify_retention_checkpoint platform c options ≡ accepted status
      → verify_audit_records_from_checkpoint platform c
          (records_of (run platform new cs) tenant)
          options
        ≡ accepted status
  unfolding verify_audit_records_from_checkpoint
  history_verifies_from_checkpoint cs tenant c options status last h =
      let v = history-IsSound platform cs in
      let store = run platform new cs in
      rw (h, verify_audit_records_from_checkpoint, v.owned tenant c last)
        (verify_retained_from-accepted tenant status 0 (base_of (some c)) c.through_hash
          (records_of store tenant) refl (keep-All (belongs_to tenant) store.records)
          (All-keep (λ r. IsSupported (audit_envelope sha256 r)) (belongs_to tenant) store.records
            v.supported)
          (rw last at (v.anchored tenant).linked))
