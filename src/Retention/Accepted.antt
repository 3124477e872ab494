-- ===== src/Retention/Accepted.antt =====
-- What an accepted checkpoint has met (sdks/typescript/src/retention.ts).
use veritio.Prelude.{
  ℕ, ◌+◌, ◌≤◌, ◌≡◌, [], ◌∷◌, true, ◌&&◌, ◌===◌, ===_iff, arith, and-eq-true, inl, inr,
}
use veritio.Prelude.Text.{is_sha256_hex}
use veritio.Prelude.Results.{
  Result, ok, throws, require-eq-ok, require-eq-ok_last, >>=-eq-ok, Result-cases,
}
use veritio.Retention.{
  Checkpoint, CheckpointInput, RetentionReason, invalid_checkpoint, unsupported_protocol,
  hash_mismatch, SignatureStatus, accepted,
}
use veritio.Retention.Formats.{has_checkpoint_fields, has_exact_range, is_checkpoint_input}
use veritio.Retention.Payloads.{hash_retention_checkpoint}
use veritio.Retention.Verify.{
  Platform, VerificationOptions, is_checkpoint_protocol, checkpoint_gates, verify_checkpoint_at,
  verify_retention_checkpoint,
}

has_exact_range-range :
    (i : CheckpointInput)
    → has_exact_range i ≡ true
    → (i.from_sequence ≤ i.through_sequence)
      × (i.record_count + i.from_sequence ≡ i.through_sequence + 1)
unfolding has_exact_range
has_exact_range-range i h = ground arith

-- The range of a checkpoint is ordered and holds as many records as it says.
pub is_checkpoint_input-range :
    (i : CheckpointInput)
    → is_checkpoint_input i ≡ true
    → (i.from_sequence ≤ i.through_sequence)
      × (i.record_count + i.from_sequence ≡ i.through_sequence + 1)
unfolding is_checkpoint_input
is_checkpoint_input-range i h =
    let (fields, rest) = and-eq-true (has_checkpoint_fields i) _ h in
    has_exact_range-range i (and-eq-true (has_exact_range i) _ rest).0

pub record IsIntact (platform : Platform) (c : Checkpoint) : Type 0 where
  pub protocol : is_checkpoint_protocol platform c ≡ true
  pub input : is_checkpoint_input c.input ≡ true
  pub hash_shape : is_sha256_hex c.hash ≡ true
  pub hash : c.hash ≡ hash_retention_checkpoint platform.sha256 c

checkpoint_gates-IsIntact :
    (platform : Platform) (c : Checkpoint) {u : Unit {0}}
    → checkpoint_gates platform c ≡ ok u
    → IsIntact platform c
unfolding checkpoint_gates
checkpoint_gates-IsIntact platform c h =
    let (u, keys, h1) =
      >>=-eq-ok
        (let keys : Result RetentionReason (Unit {0}) = elim c.other_keys [
          | [] ↦ ok tt
          | k ∷ ks ↦ throws invalid_checkpoint
        ] in
          keys)
        _ h in
    let (protocol, h2) =
      require-eq-ok (is_checkpoint_protocol platform c) unsupported_protocol _ h1 in
    let (input, h3) = require-eq-ok (is_checkpoint_input c.input) invalid_checkpoint _ h2 in
    let hash =
      require-eq-ok_last
        (is_sha256_hex c.hash && c.hash === hash_retention_checkpoint platform.sha256 c)
        hash_mismatch h3 in
    record {
      protocol = protocol;
      input = input;
      hash_shape = (and-eq-true _ _ hash).0;
      hash = (===_iff _ _).0 (and-eq-true _ _ hash).1;
    }

-- An accepted checkpoint passed every gate before its signature.
pub accepted_at-IsIntact :
    (platform : Platform) (c : Checkpoint) (options : VerificationOptions) (index : ℕ)
    {status : SignatureStatus}
    → verify_checkpoint_at platform c options index ≡ accepted status
    → IsIntact platform c
unfolding verify_checkpoint_at
accepted_at-IsIntact platform c options index h =
    elim (Result-cases (checkpoint_gates platform c)) [
      | inl (u, passed) ↦ checkpoint_gates-IsIntact platform c passed
      | inr (reason, stopped) ↦ let no = rw (stopped, verify_checkpoint_at) at h in cc
    ]

pub accepted-IsIntact :
    (platform : Platform) (c : Checkpoint) (options : VerificationOptions)
    {status : SignatureStatus}
    → verify_retention_checkpoint platform c options ≡ accepted status
    → IsIntact platform c
unfolding verify_retention_checkpoint
accepted-IsIntact platform c options h = accepted_at-IsIntact platform c options 0 h
