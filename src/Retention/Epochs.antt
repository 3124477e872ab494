-- ===== src/Retention/Epochs.antt =====
-- `verifyRetentionCheckpointChain` of sdks/typescript/src/retention.ts: what an accepted list of
-- checkpoints is.
use veritio.Prelude.{
  ℕ, ◌+◌, ◌≡◌, refl, Option, none, some, List, [], ◌∷◌, ◌&&◌, ◌==◌, ==→≡, ◌===◌, ===_iff,
  same_or_null, same_or_null_iff, and-eq-true, ◌⊎◌, inl, inr,
}
use veritio.Prelude.Results.{ok, require-eq-ok, require-eq-ok_last, Result-cases}
use veritio.Retention.{
  Checkpoint, SignatureStatus, valid, RetentionReason, epoch_mismatch, tenant_mismatch,
  chain_kind_mismatch, range_mismatch, RetentionResult, accepted, refused,
}
use veritio.Retention.Verify.{
  Platform, VerificationOptions, combine_signature_status, verify_checkpoint_at, link_checkpoint,
  verify_chain_from, verify_retention_checkpoint_chain,
}
use veritio.Retention.Accepted.{IsIntact, accepted_at-IsIntact}

-- The checkpoint `c` takes up the tenant's chain where `p` ended.
pub record Follows (p c : Checkpoint) : Type 0 where
  pub tenant_id : c.tenant_id ≡ p.tenant_id
  pub chain_kind : c.chain_kind ≡ p.chain_kind
  pub from_sequence : c.from_sequence ≡ p.through_sequence + 1
  pub from_previous_hash : c.from_previous_hash ≡ some p.through_hash
  pub previous_checkpoint_hash : c.previous_checkpoint_hash ≡ some p.hash

abbrev pub FollowsFirst : Option Checkpoint → Checkpoint → Type 0
FollowsFirst none c = Unit
FollowsFirst (some p) c = Follows p c

-- Intact checkpoints of epochs `index + 1`, `index + 2` and so on, each after the one before.
abbrev pub IsHistory : Platform → ℕ → Option Checkpoint → List Checkpoint → Type 0
IsHistory platform index previous [] = Unit
IsHistory platform index previous (c ∷ cs) =
    IsIntact platform c
    × (c.epoch ≡ index + 1)
    × FollowsFirst previous c
    × IsHistory platform (index + 1) (some c) cs

module _ (platform : Platform) where
  link-FollowsFirst :
      (index : ℕ) (previous : Option Checkpoint) (c : Checkpoint) {u : Unit {0}}
      → link_checkpoint platform index previous c ≡ ok u
      → (c.epoch ≡ index + 1) × FollowsFirst previous c
  unfolding link_checkpoint
  link-FollowsFirst index none c h = (==→≡ _ _ (require-eq-ok_last _ _ h), tt)
  link-FollowsFirst index (some p) c h =
      let (epoch, h1) = require-eq-ok (c.epoch == index + 1) epoch_mismatch _ h in
      let (tenant, h2) = require-eq-ok (c.tenant_id === p.tenant_id) tenant_mismatch _ h1 in
      let (kind, h3) = require-eq-ok (c.chain_kind === p.chain_kind) chain_kind_mismatch _ h2 in
      let (range, h4) =
        require-eq-ok
          (c.from_sequence == p.through_sequence + 1
            && same_or_null c.from_previous_hash (some p.through_hash))
          range_mismatch _ h3 in
      let (from, hash) = and-eq-true _ _ range in
      (
        ==→≡ _ _ epoch,
        record {
          tenant_id = (===_iff _ _).0 tenant;
          chain_kind = (===_iff _ _).0 kind;
          from_sequence = ==→≡ _ _ from;
          from_previous_hash = (same_or_null_iff _ _).0 hash;
          previous_checkpoint_hash = (same_or_null_iff _ _).0 (require-eq-ok_last _ _ h4);
        },
      )

  RetentionResult-cases :
      (r : RetentionResult)
      → ((s : SignatureStatus) × (r ≡ accepted s))
        ⊎ ((i : ℕ) × (reason : RetentionReason) × (s : SignatureStatus) × (r ≡ refused i reason s))
  RetentionResult-cases (accepted s) = inl (s, refl)
  RetentionResult-cases (refused i reason s) = inr (i, reason, s, refl)

  verify_chain_from-IsHistory :
      (options : VerificationOptions) (index : ℕ) (previous : Option Checkpoint)
      (status final : SignatureStatus) (cs : List Checkpoint)
      → verify_chain_from platform options index previous status cs ≡ accepted final
      → IsHistory platform index previous cs
  unfolding verify_chain_from
  verify_chain_from-IsHistory options index previous status final [] h = tt
  verify_chain_from-IsHistory options index previous status final (c ∷ cs) h =
      elim (RetentionResult-cases (verify_checkpoint_at platform c options index)) [
        | inr (i, reason, next, stopped) ↦ let no = rw (stopped, verify_chain_from) at h in cc
        | inl (next, passed) ↦ elim (Result-cases (link_checkpoint platform index previous c)) [
          | inr (reason, stopped) ↦ let no = rw (passed, stopped, verify_chain_from) at h in cc
          | inl (u, linked) ↦
              let rest : verify_chain_from platform options (index + 1) (some c)
                    (combine_signature_status platform status next) cs
                  ≡ accepted final =
                rw (passed, linked, verify_chain_from) at h in
              let (epoch, follows) = link-FollowsFirst index previous c linked in
              (
                accepted_at-IsIntact platform c options index passed,
                epoch,
                follows,
                verify_chain_from-IsHistory options (index + 1) (some c) _ final cs rest,
              )
        ]
      ]

  -- An accepted list of checkpoints is intact and is numbered from epoch one; each checkpoint is of
  -- the tenant and kind of the one before, its range begins where that one's ended, with that one's
  -- last record hash, and it holds that one's hash.
  pub accepted_chain-IsHistory :
      (cs : List Checkpoint) (options : VerificationOptions) (status : SignatureStatus)
      → verify_retention_checkpoint_chain platform cs options ≡ accepted status
      → IsHistory platform 0 none cs
  unfolding verify_retention_checkpoint_chain
  accepted_chain-IsHistory [] options status h = tt
  accepted_chain-IsHistory (c ∷ cs) options status h =
      verify_chain_from-IsHistory options 0 none valid status (c ∷ cs) h
