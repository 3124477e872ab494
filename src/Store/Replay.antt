-- ===== src/Store/Replay.antt =====
-- Appends that use an idempotency key again (`MemoryAuditStore.append` of
-- sdks/typescript/src/index.ts).
use veritio.Prelude.{
  ◌≡◌, refl, ◌∙◌, String, some, List, Bool, true, false, ◌===◌, if◌then◌else◌, ◌⊎◌, inl, inr,
}
use veritio.Prelude.Text.{is_blank}
use veritio.Prelude.Dict.{get, get-set_self}
use veritio.Prelude.Results.{Result, ok, throws, ◌>>=◌}
use veritio.Protocol.{AuditEvent, AuditRecord, tenant_of}
use veritio.Retention.Verify.{Platform}
use veritio.Store.{
  Store, StoreError, IdempotencyEntry, idempotency_conflict, idempotency_history_disposed,
}
use veritio.Store.Append.{
  AppendOptions, append, append_keyed, replay, hash_event, hash_idempotency_key, or_default, seal,
  insert,
}
use veritio.Store.Compact.{entomb}
use veritio.Store.Outcomes.{Inserts, append-eq-ok}
use veritio.Store.Keys.{run-Survives}
use veritio.Store.Moves.{Call}
use veritio.Store.History.{run}

module _ (platform : Platform) where
  open platform use {sha256}

  -- What a stored or replayed record leaves under its key.
  record Entered (store : Store) (event : AuditEvent) (options : AppendOptions) (r : AuditRecord)
      : Type 0 where
    tenant : String
    key_hash : String
    entry : IdempotencyEntry
    scoped : tenant_of event.scope ≡ some tenant
    filled : is_blank tenant ≡ false
    key :
        hash_idempotency_key sha256 tenant (or_default event.id options.idempotency_key)
        ≡ ok key_hash
    known : get store.idempotency key_hash ≡ some entry
    same_event : entry.event_canonical_hash ≡ hash_event sha256 event
    there : entry.stored ≡ some r

  inserted-Entered :
      {store : Store} {event : AuditEvent} {options : AppendOptions} {now : String}
      {r : AuditRecord} {after : Store}
      → Inserts sha256 store event options now r after
      → Entered after event options r
  unfolding insert seal
  inserted-Entered {store} {r} i = record {
    tenant = i.tenant;
    key_hash = i.key_hash;
    entry = record {
      event_canonical_hash = hash_event sha256 r.event;
      original_sequence = r.sequence;
      original_record_hash = r.hash;
      stored = some r;
    };
    scoped = i.scoped;
    filled = i.filled;
    key = i.key;
    known = rw (i.moved, i.sealed) (get-set_self store.idempotency i.key_hash _);
    same_event = rw i.sealed refl;
    there = refl;
  }

  append_known :
      (store : Store) (event : AuditEvent) (options : AppendOptions) (now tenant key_hash : String)
      (entry : IdempotencyEntry)
      → tenant_of event.scope ≡ some tenant
      → is_blank tenant ≡ false
      → hash_idempotency_key sha256 tenant (or_default event.id options.idempotency_key)
        ≡ ok key_hash
      → get store.idempotency key_hash ≡ some entry
      → append sha256 store event options now
        ≡ (replay entry (hash_event sha256 event) >>= λ r. ok (r, store))
  unfolding append append_keyed
  append_known store event options now tenant key_hash entry scoped filled key known =
      rw (scoped, filled, key, known)

  append-Entered :
      (store : Store) (event : AuditEvent) (options : AppendOptions) (now : String)
      (r : AuditRecord) (after : Store)
      → append sha256 store event options now ≡ ok (r, after)
      → Entered after event options r
  append-Entered store event options now r after h =
      elim (append-eq-ok sha256 store event options now r after h) [
        | inl i ↦ inserted-Entered i
        | inr s ↦ rw s.unmoved (record {
          tenant = s.tenant;
          key_hash = s.key_hash;
          entry = s.existing;
          scoped = s.scoped;
          filled = s.filled;
          key = s.key;
          known = s.known;
          same_event = s.same_event;
          there = s.there;
        })
      ]

  -- The answer to a known key, with the record or without it.
  replay_stored :
      (entry : IdempotencyEntry) (event_hash : String) (r : AuditRecord)
      → entry.stored ≡ some r
      → replay entry event_hash
        ≡ (if entry.event_canonical_hash === event_hash then ok r else throws idempotency_conflict)
  unfolding replay
  replay_stored entry event_hash r h = rw h

  replay_disposed :
      (entry : IdempotencyEntry) (event_hash : String)
      → replay (entomb entry) event_hash ≡ (
          if entry.event_canonical_hash === event_hash
          then throws idempotency_history_disposed
          else throws idempotency_conflict)
  unfolding replay
  replay_disposed entry event_hash = refl

  abbrev pub answer :
      Store → Bool → Result StoreError AuditRecord → Result StoreError (AuditRecord × Store)
  answer store same replayed =
      if same then (replayed >>= λ r. ok (r, store)) else throws idempotency_conflict

  answer-if :
      (store : Store) (same : Bool) (m : Result StoreError AuditRecord)
      → ((if same then m else throws idempotency_conflict) >>= λ r. ok (r, store))
        ≡ answer store same m
  answer-if store true m = refl
  answer-if store false m = refl

  -- Once an append has returned the record `r`, then after any further calls an append of the same
  -- tenant under the same idempotency key, at any later time and with any options, changes nothing:
  -- for the same canonical event it answers `r` again, or throws that the history was disposed of;
  -- for another event it throws a conflict.
  pub append_once :
      (store : Store) (event : AuditEvent) (options : AppendOptions) (now : String)
      (r : AuditRecord) (after : Store) (cs : List Call) (again : AuditEvent)
      (options_again : AppendOptions) (later : String)
      → append sha256 store event options now ≡ ok (r, after)
      → tenant_of again.scope ≡ tenant_of event.scope
      → or_default again.id options_again.idempotency_key
        ≡ or_default event.id options.idempotency_key
      → let last = run platform after cs in
        let same = hash_event sha256 event === hash_event sha256 again in
        (append sha256 last again options_again later ≡ answer last same (ok r))
        ⊎ (append sha256 last again options_again later
            ≡ answer last same (throws idempotency_history_disposed))
  append_once store event options now r after cs again options_again later h tenant key =
      elim (run-Survives platform after cs e.key_hash e.entry (inl e.known)) [
        | inl kept ↦ inl (
            answers e.entry kept
            ∙ rw (replay_stored e.entry (hash_event sha256 again) r e.there, e.same_event)
                (answer-if last (hash_event sha256 event === hash_event sha256 again) (ok r)))
        | inr disposed ↦ inr (
            answers (entomb e.entry) disposed
            ∙ rw (replay_disposed e.entry (hash_event sha256 again), e.same_event)
                (answer-if last (hash_event sha256 event === hash_event sha256 again)
                  (throws idempotency_history_disposed)))
      ]
    where
      e : Entered after event options r
      e = append-Entered store event options now r after h

      last : Store
      last = run platform after cs

      answers :
          (entry : IdempotencyEntry)
          → get last.idempotency e.key_hash ≡ some entry
          → append sha256 last again options_again later
            ≡ (replay entry (hash_event sha256 again) >>= λ x. ok (x, last))
      answers entry found =
          append_known last again options_again later e.tenant e.key_hash entry (tenant ∙ e.scoped)
            e.filled (rw key e.key) found
