-- ===== src/Witnesses/Queue.antt =====
-- The theorems on the delivery queue and its dispatcher at concrete inputs.
use veritio.Prelude.{
  not, ◌||◌, ◌-◌, ◌≤◌, ◌≡◌, refl, none, some, List, [], ◌∷◌, true, false, All, Any, Pairwise, keep,
  length, every, arith, same_or_null,
}
use veritio.Prelude.Text.{codes, is_white_space, is_alphanumeric, is_blank, text_le}
use veritio.Prelude.Results.{ok, throws}
use veritio.Outbox.{
  OutboxStatus, Entry, OutboxError, is_circuit_id, resolve_circuit_id, same_status, find_entry,
  body_bytes, outbox_payload_byte_length, iso_le, is_extended, validate_claim_options,
  validate_stored_entry, validate_payload, is_mutation_binding, assert_tenants,
  assert_payload_tenant, payload_tenant, has_lease_metadata, validate_list_options, assert_lease,
  clear_lease, create_pending_entry,
}
use veritio.Outbox.Summary.{error_message}
use veritio.Outbox.File.{
  sort_entries, read_entries, lease, backlog, stage_entry, enqueue, is_candidate, claim_rows,
  claim_step, validate_entries, insert_sorted, compare_entries, is_paused_tenant, has_active_lease,
  is_active, is_due,
}
use veritio.Json.{field, stringify}
use veritio.Outbox.Settle.{claim_dispatchable, mark_dispatched, settle, update, settle_dispatched}
use veritio.Outbox.Rows.{IsStored, validate_stored_entry-IsStored}
use veritio.Outbox.Calls.{run}
use veritio.Outbox.Evidence.{HasUuid}
use veritio.Outbox.Queue.{IsQueue, history_reads}
use veritio.Outbox.Leases.{AreApart}
use veritio.Outbox.Exclusive.{leases_exclude}
use veritio.Outbox.Claimed.{claims_bounded, IsClaim}
use veritio.Outbox.Claiming.{total_bytes, HasOtherTenant}
use veritio.Outbox.Settled.{Settlement, mark, settled_once}
use veritio.Outbox.Backlog.{backlog_bounded}
use veritio.Outbox.Survival.{Survives, rows_survive}
use veritio.Outbox.Idempotent.{enqueue_again}
use veritio.Outbox.Policy.{IsFinite, parsed-IsFinite}
use veritio.Outbox.Rolling.{Use, use_ledger, log_of, ledger_exact}
use veritio.Outbox.Safety.{
  record_send, prune, parse_recommended, parse_hard, require_object, require_positive_integer,
  require_automatic_replay_batches, parse_delivery_safety_policy, is_recent, sent_bytes,
  remaining_requests, remaining_bytes, default_delivery_safety_policy,
}
use veritio.Outbox.Accounting.{IsWithin, IsAnswer, logged}
use veritio.Outbox.Dispatch.{
  validate_dispatch_options, dispatch_lease_id, dispatch_outbox_entry, deliver_items,
}
use veritio.Outbox.Pass.{
  dispatch_rounds, dispatch_round, claim_next, claim_options, send_bytes, send_entry,
  settle_delivered, World, dispatch_batch,
}
use veritio.Outbox.Bounded.{in_time, pass_bounded}
use veritio.Outbox.Local.{file_adapter, file_adapter-IsBounded, pass_keeps_queue}
use veritio.Outbox.Messages.{error_message-bounded, is_inline}
use veritio.Examples.Queue.{
  setup, input, row, leased_row, dispatched_row, options, failure, pausing, calls, policy_json,
  policy,
}

local_u-IsCircuit : is_circuit_id (resolve_circuit_id none "u") ≡ true
unfolding is_circuit_id resolve_circuit_id is_alphanumeric
local_u-IsCircuit = refl

calls-AllUuids : All HasUuid calls
calls-AllUuids = (tt, (tt, (tt, (local_u-IsCircuit, (tt, (tt, (tt, tt)))))))

history_reads_example :
    let file = run text_le none [] calls in
    (read_entries text_le file ≡ ok (sort_entries text_le file)) × IsQueue file
history_reads_example = history_reads text_le none calls calls-AllUuids

leases_exclude_example : Pairwise (AreApart 31) (run text_le none [] calls)
leases_exclude_example =
    leases_exclude text_le none calls (tt, (tt, (omega arith, (tt, (tt, (omega arith, (tt, tt)))))))
      (tt, (tt, (omega arith, (tt, (tt, (omega arith, (tt, tt))))))) 31 (omega arith)

row-valid : validate_stored_entry (row "t" "a") ≡ ok tt
unfolding validate_stored_entry validate_payload is_blank is_white_space is_mutation_binding
    assert_tenants assert_payload_tenant payload_tenant has_lease_metadata
row-valid = refl

row-IsStored : IsStored (row "t" "a")
row-IsStored = validate_stored_entry-IsStored (row "t" "a") row-valid

row-claimed :
    claim_dispatchable text_le (row "t" "a" ∷ []) options 7
    ≡ ok (leased_row "t" "a" ∷ [], leased_row "t" "a" ∷ [])
unfolding claim_dispatchable claim_rows claim_step validate_claim_options validate_list_options
    read_entries validate_entries sort_entries insert_sorted compare_entries is_candidate
    is_paused_tenant has_active_lease is_active iso_le is_extended lease body_bytes stringify
    validate_stored_entry validate_payload is_blank is_white_space is_mutation_binding
    assert_tenants assert_payload_tenant payload_tenant has_lease_metadata
row-claimed = refl

claims_bounded_example :
    (1 ≤ 2)
    × (total_bytes (leased_row "t" "a" ∷ []) ≤ 100)
    × All (IsClaim options 7 (sort_entries text_le (row "t" "a" ∷ []))) (leased_row "t" "a" ∷ [])
    × Pairwise HasOtherTenant (leased_row "t" "a" ∷ [])
claims_bounded_example =
    claims_bounded text_le (row "t" "a" ∷ []) options 7 (leased_row "t" "a" ∷ [])
      (leased_row "t" "a" ∷ []) row-claimed

leased-valid : validate_stored_entry (leased_row "t" "a") ≡ ok tt
unfolding validate_stored_entry validate_payload is_blank is_white_space is_mutation_binding
    assert_tenants assert_payload_tenant payload_tenant has_lease_metadata
leased-valid = refl

-- A delivered row, and a row of another tenant whose lease ended at 17.
abbrev late : List Entry
late = leased_row "u" "b" ∷ (dispatched_row "t" "a" ∷ [])

leased-IsQueue : IsQueue (leased_row "t" "a" ∷ [])
leased-IsQueue = record {
  stored = (validate_stored_entry-IsStored (leased_row "t" "a") leased-valid, tt);
  apart = (tt, tt);
}

row-IsQueue : IsQueue (row "t" "a" ∷ [])
row-IsQueue = record { stored = (row-IsStored, tt); apart = (tt, tt) }

leased-dispatched :
    mark text_le (leased_row "t" "a" ∷ []) "a" (Settlement.dispatched (some "l") 9)
    ≡ ok (dispatched_row "t" "a", dispatched_row "t" "a" ∷ [])
unfolding mark mark_dispatched settle update settle_dispatched assert_lease clear_lease same_or_null
    read_entries validate_entries sort_entries insert_sorted compare_entries validate_stored_entry
    validate_payload is_blank is_white_space is_mutation_binding assert_tenants
    assert_payload_tenant payload_tenant has_lease_metadata
leased-dispatched = refl

settled_once_example :
    ((r : Entry) × (find_entry (leased_row "t" "a" ∷ []) "a" ≡ some r)
      × (same_status r.status OutboxStatus.leased ≡ true)
      × (r.lease_id ≡ some "l"))
    × (false ≡ false)
    × ((dispatched_row "t" "a").lease_id ≡ none)
    × (mark text_le (dispatched_row "t" "a" ∷ []) "a" (Settlement.failed failure pausing "u")
        ≡ throws OutboxError.lease_not_active)
settled_once_example =
    settled_once text_le (leased_row "t" "a" ∷ []) "a" (Settlement.dispatched (some "l") 9)
      (Settlement.failed failure pausing "u") (dispatched_row "t" "a") (dispatched_row "t" "a" ∷ [])
      "l" "l" leased-IsQueue tt refl leased-dispatched refl

backlog_bounded_example : backlog (run text_le (some 100) [] calls) ≤ 100
unfolding backlog
backlog_bounded_example =
    backlog_bounded text_le 100 [] calls (tt, (tt, (tt, (("l", refl), (tt, (tt, (tt, tt)))))))
      (omega arith)

rows_survive_example :
    All
      (λ e. Any (Survives e) (run text_le none (row "t" "a" ∷ (dispatched_row "u" "c" ∷ [])) calls))
      (row "t" "a" ∷ (dispatched_row "u" "c" ∷ []))
rows_survive_example =
    rows_survive text_le none (row "t" "a" ∷ (dispatched_row "u" "c" ∷ [])) calls calls-AllUuids
      (tt, (tt, (tt, (("l", refl), (tt, (tt, (("l", refl), tt)))))))

row-enqueued : enqueue text_le (some 100) [] (input "t" "a") 5 ≡ ok (row "t" "a", row "t" "a" ∷ [])
unfolding enqueue stage_entry create_pending_entry validate_payload is_blank is_white_space
    is_mutation_binding assert_tenants assert_payload_tenant payload_tenant body_bytes stringify
    backlog sort_entries insert_sorted
row-enqueued = refl

enqueue_again_example :
    enqueue text_le (some 100) (row "t" "a" ∷ []) (input "t" "a") 9
    ≡ ok (row "t" "a", row "t" "a" ∷ [])
enqueue_again_example =
    enqueue_again text_le (some 100) [] (input "t" "a") 5 9 (row "t" "a") (row "t" "a" ∷ [])
      (record { stored = tt; apart = tt }) row-enqueued

policy-parsed : parse_delivery_safety_policy (some policy_json) ≡ ok policy
unfolding parse_delivery_safety_policy parse_recommended parse_hard require_object
    require_positive_integer require_automatic_replay_batches field
policy-parsed = refl

parsed-IsFinite_example : IsFinite policy
parsed-IsFinite_example = parsed-IsFinite (some policy_json) policy policy-parsed

ledger_exact_example :
    let uses = Use.records 1 10 ∷ (Use.reads 900 ∷ (Use.records 1200 5 ∷ [])) in
    let recent = keep (is_recent policy.hard.window_ms 1500) (log_of uses) in
    (remaining_requests policy.hard 1500 (use_ledger policy.hard [] uses)
      ≡ policy.hard.rolling_requests - length recent)
    × (remaining_bytes policy.hard 1500 (use_ledger policy.hard [] uses)
        ≡ policy.hard.rolling_send_bytes - sent_bytes recent)
ledger_exact_example =
    ledger_exact policy.hard (Use.records 1 10 ∷ (Use.reads 900 ∷ (Use.records 1200 5 ∷ []))) 1500
      (omega arith, (omega arith, (omega arith, omega arith)))

abbrev start : World (file_adapter text_le) setup
start = record { sends = []; queue = row "t" "a" ∷ []; state = [] }

abbrev logged_start : World (logged (file_adapter text_le)) setup
logged_start = record { sends = []; queue = (row "t" "a" ∷ [], []); state = [] }

pass_bounded_example :
    let p = dispatch_batch (logged (file_adapter text_le)) setup logged_start in
    let log : List Entry = p.1.queue.1 in
    (length log ≤ 2)
    × (length log ≤ in_time setup 2 0)
    × (total_bytes log ≤ 200)
    × IsAnswer log p.0
    × IsWithin default_delivery_safety_policy.hard p.1.sends
pass_bounded_example =
    pass_bounded (file_adapter text_le) setup (file_adapter-IsBounded text_le) logged_start refl
      (record { requests = omega arith; bytes = omega arith })

row-backlog : backlog (row "t" "a" ∷ []) ≤ 100
unfolding backlog body_bytes stringify
row-backlog = omega arith

pass_keeps_queue_example :
    let after : List Entry = (dispatch_batch (file_adapter text_le) setup start).1.queue in
    IsQueue after × All (λ e. Any (Survives e) after) (row "t" "a" ∷ []) × (backlog after ≤ 100)
pass_keeps_queue_example =
    pass_keeps_queue text_le setup (λ i. local_u-IsCircuit) start 100 row-IsQueue row-backlog

error_message-bounded_example :
    (length (error_message failure) ≤ 256)
    × ((not (every is_inline (codes "TypeError")) || every is_inline (error_message failure))
        ≡ true)
error_message-bounded_example = error_message-bounded failure

-- The pass delivers the one row and settles it.
pass_sends :
    (dispatch_batch (file_adapter text_le) setup start).0
    ≡ ok (record { dispatched = 1; retried = 0; paused = 0; rejected = 0; bytes = 50 })
unfolding dispatch_batch dispatch_rounds dispatch_round claim_next claim_options send_entry
    send_bytes outbox_payload_byte_length settle_delivered validate_dispatch_options
    dispatch_lease_id dispatch_outbox_entry deliver_items remaining_requests remaining_bytes
    record_send prune claim_dispatchable claim_rows claim_step validate_claim_options
    validate_list_options read_entries validate_entries sort_entries insert_sorted compare_entries
    is_candidate is_paused_tenant has_active_lease is_active iso_le is_extended lease body_bytes
    stringify mark_dispatched settle update settle_dispatched assert_lease clear_lease same_or_null
    validate_stored_entry validate_payload is_blank is_white_space is_mutation_binding
    assert_tenants assert_payload_tenant payload_tenant has_lease_metadata field
pass_sends = refl

-- A date after the year 9999 sorts before the others, so a lease that ends then has run out at once.
far_lease_is_due :
    is_due 8 (record (leased_row "t" "a") {
      available_at = 253402300800007;
      lease_expires_at = some 253402300800007;
    })
    ≡ true
unfolding iso_le is_extended
far_lease_is_due = refl
