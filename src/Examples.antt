-- ===== src/Examples.antt =====
-- A platform with a digest that a reader can follow, and a store of sdks/typescript/src/index.ts
-- with two records, then with one of them compacted and its disposal confirmed.
pub mod Events
pub mod Queue
use veritio.Prelude.{◌%◌, String, none, some, List, [], ◌∷◌, if◌then◌else◌, ◌==◌, length}
use veritio.Prelude.Text.{Text, codes}
use veritio.Json.{obj, end}
use veritio.Protocol.{AuditEvent, AuditRecord}
use veritio.Retention.{CheckpointInput, Checkpoint, DispositionInput, Disposition}
use veritio.Retention.Payloads.{
  checkpoint_unsigned, disposition_unsigned, hash_retention_checkpoint, hash_retention_disposition,
}
use veritio.Retention.Verify.{Platform}
use veritio.Store.{Store, DispositionAttempt, pending, new, genesis_state, state_of}
use veritio.Store.Append.{AppendOptions, seal, insert}
use veritio.Store.Dispose.{confirm}
use veritio.Commit.{
  CommitMember, CommitInput, Commit, commit_leaf_hash, node_hash, hash_evidence_commit,
}
use veritio.Commit.Ledger.{unsealed}
use veritio.Store.Moves.{Call, appends, compacts}
use veritio.Store.History.{run}

abbrev pub even_digest : String
even_digest = "aaaaaaaaaaaaaaaaaaaaaaaaaaaaaaaaaaaaaaaaaaaaaaaaaaaaaaaaaaaaaaaa"

abbrev pub odd_digest : String
odd_digest = "bbbbbbbbbbbbbbbbbbbbbbbbbbbbbbbbbbbbbbbbbbbbbbbbbbbbbbbbbbbbbbbb"

-- A digest of 64 hex digits, by the parity of the text's length.
abbrev pub digest : Text → String
digest text = if length text % 2 == 0 then even_digest else odd_digest

abbrev pub platform : Platform
platform = record { sha256 = digest; sha256_bytes = digest; from_base64 = codes }

abbrev pub event : String → String → AuditEvent
event tenant id = record {
  id = id;
  schema_version = "2026-06-10";
  occurred_at = "2026-01-01T00:00:00.000Z";
  actor = record { type = "user"; id = "u"; display = none };
  action = "a";
  target = record { type = "t"; id = "t"; display = none };
  scope = some (record { tenant_id = some tenant; workspace_id = none; environment = none });
  request_id = none;
  purpose = none;
  lawful_basis = none;
  data_categories = none;
  retention = none;
  metadata = obj end;
}

abbrev pub no_key : AppendOptions
no_key = record { idempotency_key = none; expected_previous_hash = none }

abbrev pub now : String
now = "2026-01-01T00:00:01.000Z"

abbrev pub two_calls : List Call
two_calls = appends (event "t" "e") no_key now ∷ appends (event "t" "ee") no_key now ∷ []

abbrev pub two_records : Store
two_records = run platform new two_calls

abbrev pub checkpoint_input : CheckpointInput
checkpoint_input = record {
  checkpoint_id = "c1";
  tenant_id = "t";
  chain_kind = "audit";
  epoch = 1;
  from_sequence = 1;
  from_previous_hash = none;
  through_sequence = 1;
  through_hash = even_digest;
  record_count = 1;
  archive_root_hash = odd_digest;
  previous_checkpoint_hash = none;
  created_at = "2026-01-02T00:00:00.000Z";
  fingerprint = none;
}

abbrev pub checkpoint : Checkpoint
checkpoint =
    let unsigned = checkpoint_unsigned digest checkpoint_input in
    record unsigned { hash = hash_retention_checkpoint digest unsigned }

abbrev pub compaction : Call
compaction = compacts "t" checkpoint (state_of two_records "t") 0

abbrev pub three_calls : List Call
three_calls =
    appends (event "t" "e") no_key now ∷ appends (event "t" "ee") no_key now ∷ compaction ∷ []

abbrev pub compacted : Store
compacted = run platform new three_calls

abbrev pub receipt_input : DispositionInput
receipt_input = record {
  disposition_id = "d1";
  tenant_id = "t";
  chain_kind = "audit";
  checkpoint_hash = checkpoint.hash;
  from_sequence = 1;
  through_sequence = 1;
  archive_root_hash = odd_digest;
  policy_reference = "p";
  disposed_at = "2026-01-03T00:00:00.000Z";
  fingerprint = none;
}

abbrev pub receipt : Disposition
receipt =
    let unsigned = disposition_unsigned digest receipt_input in
    record unsigned { hash = hash_retention_disposition digest unsigned }

abbrev pub attempt : DispositionAttempt
attempt = record {
  attempt_id = "a1";
  checkpoint_hash = checkpoint.hash;
  policy_fence = 0;
  status = pending;
  other_keys = [];
}

-- A store of one compacted record, whose disposal is prepared.
abbrev pub prepared : Store
prepared = record new {
  chain_states =
      (
        "t",
        record genesis_state {
          authoritative_tip_sequence = 1;
          authoritative_tip_hash = some even_digest;
          minimum_retained_sequence = 2;
          latest_checkpoint_hash = some checkpoint.hash;
        },
      )
      ∷ [];
  checkpoints = ("t", checkpoint ∷ []) ∷ [];
  attempts = ("t", (checkpoint.hash, attempt) ∷ []) ∷ [];
}

abbrev pub confirmed : Store
confirmed = confirm prepared "t" attempt receipt

abbrev pub first_record : AuditRecord
first_record = seal digest (event "t" "e") genesis_state now odd_digest

abbrev pub one_record : Store
one_record = insert digest new "t" genesis_state first_record

abbrev pub second_record : AuditRecord
second_record = seal digest (event "t" "ee") (state_of one_record "t") now even_digest

abbrev pub member_zero : CommitMember
member_zero = record {
  index = 0;
  record_type = "audit.record";
  record_id = "e";
  record_hash = "sha256:aaaaaaaaaaaaaaaaaaaaaaaaaaaaaaaaaaaaaaaaaaaaaaaaaaaaaaaaaaaaaaaa";
}

abbrev pub member_one : CommitMember
member_one = record {
  index = 1;
  record_type = "audit.record";
  record_id = "ee";
  record_hash = "sha256:bbbbbbbbbbbbbbbbbbbbbbbbbbbbbbbbbbbbbbbbbbbbbbbbbbbbbbbbbbbbbbbb";
}

-- The members are given out of order.
abbrev pub commit_input : CommitInput
commit_input = record {
  commit_id = "c";
  stream_id = "s";
  sequence = 1;
  previous_commit_hash = none;
  members = member_one ∷ member_zero ∷ [];
}

abbrev pub commit : Commit
commit =
    let root =
      node_hash digest (commit_leaf_hash digest member_zero) (commit_leaf_hash digest member_one) in
    let bare = unsealed digest commit_input (member_zero ∷ member_one ∷ []) root now in
    record bare { hash = hash_evidence_commit digest bare }
