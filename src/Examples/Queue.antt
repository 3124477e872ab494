-- ===== src/Examples/Queue.antt =====
-- A small file queue of storage/src: rows of two tenants, the calls on them, and a dispatcher.
use veritio.Prelude.{ℕ, String, none, some, List, [], ◌∷◌}
use veritio.Prelude.Text.{codes}
use veritio.Json.{Json, num, str, obj, nil, item, end, member}
use veritio.Outbox.{
  OutboxStatus, DeliveryDisposition, Payload, Entry, EnqueueInput, ClaimOptions, Failure, error,
}
use veritio.Outbox.File.{Callback}
use veritio.Outbox.Settle.{FailOptions}
use veritio.Outbox.Calls.{Call}
use veritio.Outbox.Safety.{default_delivery_safety_policy, DeliverySafetyPolicy}
use veritio.Outbox.Pass.{Setup}
use veritio.Outbox.Dispatch.{PermitKind, DispatchPermit, DispatchOptions, EvidenceTarget, Ticks}

abbrev pub payload : String → Payload
payload tenant = record {
  schema_version = "2026-06-23";
  mutation_binding = "best_effort";
  expected_parent_revision_ref = none;
  records = item (obj (member "scope" (obj (member "tenantId" (str tenant) end)) end)) nil;
  edges = nil;
}

abbrev pub input : String → String → EnqueueInput
input tenant id = record {
  id = id;
  tenant_id = tenant;
  payload = payload tenant;
  available_at = none;
}

-- A row that an enqueue at 5 makes.
abbrev pub row : String → String → Entry
row tenant id = record {
  id = id;
  tenant_id = tenant;
  payload = payload tenant;
  available_at = 5;
  status = OutboxStatus.pending;
  attempts = 0;
  created_at = 5;
  updated_at = 5;
  dispatched_at = none;
  last_error = none;
  lease_id = none;
  lease_expires_at = none;
  circuit_id = none;
}

-- A row that a claim at 7 has leased for 10 ms.
abbrev pub leased_row : String → String → Entry
leased_row tenant id = record (row tenant id) {
  available_at = 17;
  status = OutboxStatus.leased;
  updated_at = 7;
  lease_id = some "l";
  lease_expires_at = some 17;
}

abbrev pub dispatched_row : String → String → Entry
dispatched_row tenant id = record (row tenant id) {
  available_at = 17;
  status = OutboxStatus.dispatched;
  updated_at = 9;
  dispatched_at = some 9;
}

abbrev pub options : ClaimOptions
options = record {
  tenant_id = none;
  lease_id = "l";
  lease_ms = 10;
  limit = 2;
  max_payload_bytes = 100;
}

abbrev pub failure : Failure
failure = error (codes "TypeError") (codes "no route\nto host")

abbrev pub pausing : FailOptions
pausing = record {
  lease_id = some "l";
  now = 8;
  available_at = none;
  retryable = none;
  disposition = some DeliveryDisposition.pause;
  circuit_id = none;
}

abbrev pub put : String → String → ℕ → Call
put tenant id now = Call.transacts (Callback.enqueues (input tenant id) now (λ r. Callback.returns))

-- Two enqueues, a claim, a failure that pauses the tenant, its resumption, and a claim again.
abbrev pub calls : List Call
calls =
    put "t" "a" 5
    ∷ (put "t" "b" 6
        ∷ (Call.claims options 7
            ∷ (Call.fails "a" failure pausing "u"
                ∷ (Call.resumes
                      (record { tenant_id = "t"; expected_circuit_id = "local_u"; limit = 1 }) 9
                    ∷ (Call.claims options 30 ∷ (Call.dispatches "a" (some "l") 31 ∷ []))))))

abbrev pub policy_json : Json
policy_json = obj (
    member "recommended"
      (obj (member "queuedBytes" (num 10) (member "rollingSendBytes" (num 10) end)))
      (member "hard"
        (obj (
          member "batchBytes" (num 20) (
            member "queuedBytes" (num 40) (
              member "rollingSendBytes" (num 30) (
                member "rollingRequests" (num 3)
                  (member "windowMs" (num 1000) (member "automaticReplayBatches" (num 0) end)))))))
        end))

abbrev pub policy : DeliverySafetyPolicy
policy = record {
  recommended = record { queued_bytes = 10; rolling_send_bytes = 10 };
  hard = record {
    batch_bytes = 20;
    queued_bytes = 40;
    rolling_send_bytes = 30;
    rolling_requests = 3;
    window_ms = 1000;
    automatic_replay_batches = 0;
  };
}

abbrev pub permit : DispatchPermit
permit = record {
  kind = PermitKind.canary;
  approval_id = none;
  max_entries = 2;
  max_bytes = 200;
  max_elapsed_ms = 50;
  lease_ms = 60;
}

abbrev pub pass_options : DispatchOptions
pass_options = record { tenant_id = "t"; now = none; limit = none; permit = permit }

-- A target that counts what it receives.
abbrev pub target : EvidenceTarget
target = record {
  State = List Json;
  record_event = λ seen x. (x ∷ seen, none);
  record_edge = λ seen x. (x ∷ seen, none);
  caught = λ e. Failure.other;
}

abbrev pub ticks : ℕ → Ticks
ticks index = record {
  elapsed = 10;
  requests = 11;
  bytes = 12;
  claims = 13;
  records = 14;
  settles = 15;
  fails = 16;
}

abbrev pub setup : Setup
setup = record {
  target = target;
  policy = default_delivery_safety_policy;
  options = pass_options;
  started_at = 9;
  ticks = ticks;
  uuid = λ index. "u";
}
