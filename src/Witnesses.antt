-- ===== src/Witnesses.antt =====
-- The theorems at concrete inputs.
mod Events
mod Queue
use veritio.Prelude.{
  ◌+◌, arith, ◌%◌, ◌≡◌, ◌↔◌, ◌⊎◌, refl, sym, ap, String, none, some, [], ◌∷◌, ◌++◌, true, ◌==◌,
  ◌===◌, same_or_null, keep, length, last?, map, Bool-cases, inl, inr,
}
use veritio.Prelude.Text.{is_empty, is_lower_hex, Text, is_blank, is_sha256_hex}
use veritio.Prelude.Dict.{get, set}
use veritio.Prelude.Results.{ok, throws}
use veritio.Json.{canonical_json}
use veritio.Protocol.{
  Principal, Resource, EvidenceScope, EvidenceEntity, hash_audit_record, record_json, truthy,
  tenant_of,
}
use veritio.Chain.{
  genesis, tip_of, verified, verify_envelope, verify_from, verify_envelopes, audit_envelope,
  edge_envelope, verify_audit_records, verify_evidence_edge_records,
}
use veritio.Chain.Verdict.{IsEvidence, verify_records_iff}
use veritio.Chain.Removal.{removal_detected}
use veritio.Chain.Modes.{windowed, filtered, verify_scoped_chain}
use veritio.Chain.Filters.{selection_verifies}
use veritio.Retention.{absent, accepted}
use veritio.Retention.Formats.{is_checkpoint_input, is_disposition_input, is_signature_pair}
use veritio.Retention.Payloads.{
  checkpoint_json, hash_retention_checkpoint, create_retention_checkpoint,
  create_retention_disposition,
}
use veritio.Retention.Verify.{
  no_options, verify_detached_signature, checkpoint_gates, verify_checkpoint_at,
  verify_retention_checkpoint, matches_checkpoint, verify_retention_disposition,
  verify_retention_checkpoint_chain, link_checkpoint, verify_audit_records_from_checkpoint,
}
use veritio.Retention.Epochs.{IsHistory, accepted_chain-IsHistory}
use veritio.Retention.Created.{created_verifies}
use veritio.Store.{
  new, records_of, checkpoints_of, state_of, is_retention_policy_fence, is_audit_chain_state,
  same_chain_state, chain_state, belongs_to, idempotency_history_disposed,
}
use veritio.Store.Append.{
  hash_idempotency_key, hash_event, seal, insert, append_to, append_new, append_keyed, append,
}
use veritio.Store.Compact.{
  continues, in_range, covered, retained, sort_by_sequence, dispose_keys, check_covered, admit_on,
  admit_checkpoint, check_range, crop, compact_range,
}
use veritio.Store.Moves.{call, appends, concerns}
use veritio.Store.History.{step, run}
use veritio.Store.Replay.{append_once, answer}
use veritio.Store.Audit.{history_verifies, history_verifies_from_checkpoint}
use veritio.Store.Partition.{compaction_cuts_prefix}
use veritio.Store.Isolation.{SameView, step_isolates}
use veritio.Store.Progress.{Grows, run-Grows}
use veritio.Commit.{
  is_sha256_digest, is_member_record_type, check_member, check_members, sort_by_index,
  same_identity, check_manifest, check_sorted, normalize_commit_members, next_level, root_of,
  compute_records_root, commit_leaf_hash,
}
use veritio.Commit.Ledger.{
  tip_of_commit, seal_commit, create_evidence_commit, verify_commits_from, verify_evidence_commits,
}
use veritio.Commit.Merkle.{compute_records_root_ends}
use veritio.Commit.Extended.{created_commit_extends}
use veritio.Examples.{
  commit_input, commit, member_zero, member_one, digest, platform, event, no_key, now, two_calls,
  two_records, checkpoint_input, checkpoint, compaction, three_calls, compacted, receipt_input,
  receipt, first_record, one_record, second_record,
}

digest_hex : (t : Text) → is_sha256_hex (digest t) ≡ true
unfolding is_sha256_hex
digest_hex t = elim (Bool-cases (length t % 2 == 0)) [ inl even ↦ rw even | inr odd ↦ rw odd ]

compacts_first :
    compact_range platform two_records "t" checkpoint (state_of two_records "t") 0 ≡ ok compacted
unfolding get set is_blank is_sha256_hex canonical_json hash_audit_record record_json truthy
    is_retention_policy_fence is_audit_chain_state same_chain_state chain_state belongs_to
    hash_idempotency_key hash_event seal insert append_to append_new append_keyed append
    is_checkpoint_input checkpoint_json hash_retention_checkpoint verify_detached_signature
    checkpoint_gates verify_checkpoint_at verify_retention_checkpoint same_or_null continues
    in_range covered retained sort_by_sequence dispose_keys check_covered admit_on admit_checkpoint
    check_range crop compact_range call step run
compacts_first = refl

last_checkpoint : last? (checkpoints_of compacted "t") ≡ some checkpoint
unfolding get set is_blank is_sha256_hex canonical_json hash_audit_record record_json truthy
    is_retention_policy_fence is_audit_chain_state same_chain_state chain_state belongs_to
    hash_idempotency_key hash_event seal insert append_to append_new append_keyed append
    is_checkpoint_input checkpoint_json hash_retention_checkpoint verify_detached_signature
    checkpoint_gates verify_checkpoint_at verify_retention_checkpoint same_or_null continues
    in_range covered retained sort_by_sequence dispose_keys check_covered admit_on admit_checkpoint
    check_range crop compact_range call step run
last_checkpoint = refl

no_checkpoints : (tenant : String) → checkpoints_of two_records tenant ≡ []
unfolding get set is_blank is_sha256_hex canonical_json hash_audit_record record_json truthy
    is_retention_policy_fence is_audit_chain_state same_chain_state chain_state belongs_to
    hash_idempotency_key hash_event seal insert append_to append_new append_keyed append
    is_checkpoint_input checkpoint_json hash_retention_checkpoint verify_detached_signature
    checkpoint_gates verify_checkpoint_at verify_retention_checkpoint same_or_null continues
    in_range covered retained sort_by_sequence dispose_keys check_covered admit_on admit_checkpoint
    check_range crop compact_range call step run
no_checkpoints tenant = refl

checkpoint_accepted : verify_retention_checkpoint platform checkpoint no_options ≡ accepted absent
unfolding get set is_blank is_sha256_hex canonical_json hash_audit_record record_json truthy
    is_retention_policy_fence is_audit_chain_state same_chain_state chain_state belongs_to
    hash_idempotency_key hash_event seal insert append_to append_new append_keyed append
    is_checkpoint_input checkpoint_json hash_retention_checkpoint verify_detached_signature
    checkpoint_gates verify_checkpoint_at verify_retention_checkpoint same_or_null continues
    in_range covered retained sort_by_sequence dispose_keys check_covered admit_on admit_checkpoint
    check_range crop compact_range call step run
checkpoint_accepted = refl

first_append : append digest new (event "t" "e") no_key now ≡ ok (first_record, one_record)
unfolding get set is_blank is_sha256_hex canonical_json hash_audit_record record_json truthy
    is_retention_policy_fence is_audit_chain_state same_chain_state chain_state belongs_to
    hash_idempotency_key hash_event seal insert append_to append_new append_keyed append
    is_checkpoint_input checkpoint_json hash_retention_checkpoint verify_detached_signature
    checkpoint_gates verify_checkpoint_at verify_retention_checkpoint same_or_null continues
    in_range covered retained sort_by_sequence dispose_keys check_covered admit_on admit_checkpoint
    check_range crop compact_range call step run
first_append = refl

two_verified : verify_audit_records digest (first_record ∷ second_record ∷ []) ≡ verified
unfolding get set is_blank is_sha256_hex canonical_json hash_audit_record record_json truthy
    is_retention_policy_fence is_audit_chain_state same_chain_state chain_state belongs_to
    hash_idempotency_key hash_event seal insert append_to append_new append_keyed append
    is_checkpoint_input checkpoint_json hash_retention_checkpoint verify_detached_signature
    checkpoint_gates verify_checkpoint_at verify_retention_checkpoint same_or_null continues
    in_range covered retained sort_by_sequence dispose_keys check_covered admit_on admit_checkpoint
    check_range crop compact_range call step run verify_audit_records verify_from verify_envelope
two_verified = refl

envelopes_verified :
    verify_envelopes (map (audit_envelope digest) (first_record ∷ second_record ∷ [])) ≡ verified
unfolding get set is_blank is_sha256_hex canonical_json hash_audit_record record_json truthy
    is_retention_policy_fence is_audit_chain_state same_chain_state chain_state belongs_to
    hash_idempotency_key hash_event seal insert append_to append_new append_keyed append
    is_checkpoint_input checkpoint_json hash_retention_checkpoint verify_detached_signature
    checkpoint_gates verify_checkpoint_at verify_retention_checkpoint same_or_null continues
    in_range covered retained sort_by_sequence dispose_keys check_covered admit_on admit_checkpoint
    check_range crop compact_range call step run verify_from verify_envelope
envelopes_verified = refl

chain_accepted :
    verify_retention_checkpoint_chain platform (checkpoint ∷ []) no_options ≡ accepted absent
unfolding get set is_blank is_sha256_hex canonical_json hash_audit_record record_json truthy
    is_retention_policy_fence is_audit_chain_state same_chain_state chain_state belongs_to
    hash_idempotency_key hash_event seal insert append_to append_new append_keyed append
    is_checkpoint_input checkpoint_json hash_retention_checkpoint verify_detached_signature
    checkpoint_gates verify_checkpoint_at verify_retention_checkpoint same_or_null continues
    in_range covered retained sort_by_sequence dispose_keys check_covered admit_on admit_checkpoint
    check_range crop compact_range call step run verify_retention_checkpoint_chain link_checkpoint
chain_accepted = refl

checkpoint_created : create_retention_checkpoint digest checkpoint_input none ≡ some checkpoint
unfolding get set is_blank is_sha256_hex canonical_json hash_audit_record record_json truthy
    is_retention_policy_fence is_audit_chain_state same_chain_state chain_state belongs_to
    hash_idempotency_key hash_event seal insert append_to append_new append_keyed append
    is_checkpoint_input checkpoint_json hash_retention_checkpoint verify_detached_signature
    checkpoint_gates verify_checkpoint_at verify_retention_checkpoint same_or_null continues
    in_range covered retained sort_by_sequence dispose_keys check_covered admit_on admit_checkpoint
    check_range crop compact_range call step run create_retention_checkpoint is_signature_pair
checkpoint_created = refl

receipt_created : create_retention_disposition digest receipt_input none ≡ some receipt
unfolding get set is_blank is_sha256_hex canonical_json hash_audit_record record_json truthy
    is_retention_policy_fence is_audit_chain_state same_chain_state chain_state belongs_to
    hash_idempotency_key hash_event seal insert append_to append_new append_keyed append
    is_checkpoint_input checkpoint_json hash_retention_checkpoint verify_detached_signature
    checkpoint_gates verify_checkpoint_at verify_retention_checkpoint same_or_null continues
    in_range covered retained sort_by_sequence dispose_keys check_covered admit_on admit_checkpoint
    check_range crop compact_range call step run create_retention_disposition is_disposition_input
    is_signature_pair
receipt_created = refl

receipt_matches : matches_checkpoint platform receipt checkpoint ≡ true
unfolding get set is_blank is_sha256_hex canonical_json hash_audit_record record_json truthy
    is_retention_policy_fence is_audit_chain_state same_chain_state chain_state belongs_to
    hash_idempotency_key hash_event seal insert append_to append_new append_keyed append
    is_checkpoint_input checkpoint_json hash_retention_checkpoint verify_detached_signature
    checkpoint_gates verify_checkpoint_at verify_retention_checkpoint same_or_null continues
    in_range covered retained sort_by_sequence dispose_keys check_covered admit_on admit_checkpoint
    check_range crop compact_range call step run matches_checkpoint
receipt_matches = refl

verify_records_iff_example :
    ((verify_audit_records digest (first_record ∷ second_record ∷ []) ≡ verified)
      ↔ IsEvidence (map (audit_envelope digest) (first_record ∷ second_record ∷ [])))
    × ((verify_evidence_edge_records digest [] ≡ verified)
        ↔ IsEvidence (map (edge_envelope digest) []))
verify_records_iff_example = verify_records_iff digest (first_record ∷ second_record ∷ []) []

history_verifies_from_checkpoint_example :
    verify_audit_records_from_checkpoint platform checkpoint (records_of compacted "t") no_options
    ≡ accepted absent
history_verifies_from_checkpoint_example =
    history_verifies_from_checkpoint platform three_calls "t" checkpoint no_options absent
      last_checkpoint checkpoint_accepted

history_verifies_example : verify_audit_records digest two_records.records ≡ verified
history_verifies_example = history_verifies platform two_calls no_checkpoints

append_once_example :
    let last = run platform one_record (appends (event "t" "ee") no_key now ∷ compaction ∷ []) in
    let same = hash_event digest (event "t" "e") === hash_event digest (event "t" "e") in
    (append digest last (event "t" "e") no_key "later"
      ≡ answer platform last same (ok first_record))
    ⊎ (append digest last (event "t" "e") no_key "later"
        ≡ answer platform last same (throws idempotency_history_disposed))
append_once_example =
    append_once platform new (event "t" "e") no_key now first_record one_record
      (appends (event "t" "ee") no_key now ∷ compaction ∷ []) (event "t" "e") no_key "later"
      first_append refl refl

compaction_cuts_prefix_example :
    (records_of two_records "t"
      ≡ covered "t" checkpoint two_records.records ++ records_of compacted "t")
    × (length (covered "t" checkpoint two_records.records) ≡ 1)
    × ((state_of compacted "t").authoritative_tip_sequence
        ≡ (state_of two_records "t").authoritative_tip_sequence)
    × ((state_of compacted "t").authoritative_tip_hash
        ≡ (state_of two_records "t").authoritative_tip_hash)
    × ((state_of compacted "t").minimum_retained_sequence ≡ 2)
compaction_cuts_prefix_example =
    compaction_cuts_prefix platform two_calls "t" checkpoint (state_of two_records "t") 0 compacted
      compacts_first

same_tenant : tenant_of second_record.event.scope ≡ tenant_of first_record.event.scope
unfolding get insert set seal
same_tenant = refl

removal_detected_example : ¬ (verify_audit_records digest (second_record ∷ []) ≡ verified)
removal_detected_example =
    removal_detected digest [] [] [] first_record second_record same_tenant two_verified

selection_verifies_example :
    (verify_scoped_chain windowed (map (audit_envelope digest) (first_record ∷ second_record ∷ []))
      ≡ verified)
    × (verify_scoped_chain filtered (
          map
            (audit_envelope digest)
            (keep (λ r. r.sequence == 2) (first_record ∷ second_record ∷ [])))
        ≡ verified)
selection_verifies_example =
    selection_verifies (audit_envelope digest) (λ r. r.sequence == 2)
      (first_record ∷ second_record ∷ []) envelopes_verified

other_tenant : ¬ (concerns compaction ≡ some "other")
other_tenant = λ h. cc

step_isolates_example : SameView two_records (step platform two_records compaction) "other"
step_isolates_example = step_isolates platform two_records compaction "other" other_tenant

run-Grows_example : Grows (state_of new "t") (state_of compacted "t")
run-Grows_example = run-Grows platform new three_calls "t"

accepted_chain-IsHistory_example : IsHistory platform 0 none (checkpoint ∷ [])
accepted_chain-IsHistory_example =
    accepted_chain-IsHistory platform (checkpoint ∷ []) no_options absent chain_accepted

created_verifies_example :
    (verify_retention_checkpoint platform checkpoint no_options ≡ accepted absent)
    × (verify_retention_disposition platform receipt checkpoint no_options ≡ accepted absent)
created_verifies_example =
    created_verifies platform digest_hex checkpoint_input none checkpoint absent receipt_input none
      checkpoint receipt checkpoint_created receipt_created checkpoint_accepted receipt_matches

commit_created : create_evidence_commit digest commit_input now ≡ ok commit
unfolding is_blank is_sha256_digest is_member_record_type check_member check_members sort_by_index
    same_identity check_manifest check_sorted normalize_commit_members next_level root_of
    compute_records_root seal_commit create_evidence_commit is_lower_hex
commit_created = refl

no_commits : verify_evidence_commits digest [] ≡ ok []
unfolding verify_commits_from
no_commits = refl

no_stream : tip_of [] "s" ≡ genesis
unfolding get
no_stream = refl

created_commit_extends_example :
    verify_evidence_commits digest ([] ++ commit ∷ []) ≡ ok (set [] "s" (tip_of_commit commit))
created_commit_extends_example =
    created_commit_extends digest [] [] commit_input now commit no_commits commit_created
      (ap (λ t. t.sequence + 1) (sym no_stream)) (ap (λ t. t.previous_hash) (sym no_stream))

compute_records_root_ends_example :
    (root : String) × (compute_records_root digest (member_zero ∷ member_one ∷ []) ≡ some root)
    × (root_of digest 5 (map (commit_leaf_hash digest) (member_zero ∷ member_one ∷ [])) ≡ some root)
compute_records_root_ends_example =
    compute_records_root_ends digest member_zero (member_one ∷ []) 5 (omega arith)
