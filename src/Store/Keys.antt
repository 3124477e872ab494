-- ===== src/Store/Keys.antt =====
-- What becomes of an idempotency entry of `MemoryAuditStore` (sdks/typescript/src/index.ts) under
-- later calls.
use veritio.Prelude.{
  ◌≡◌, String, Option, none, some, List, [], ◌∷◌, ◌===◌, ===_iff, arith, Bool-cases, Option-cases,
  ◌⊎◌, inl, inr,
}
use veritio.Prelude.Dict.{Dict, get, get-set}
use veritio.Prelude.Results.{Result-cases}
use veritio.Protocol.{AuditRecord}
use veritio.Retention.Verify.{Platform}
use veritio.Store.{Store, IdempotencyEntry}
use veritio.Store.Append.{seal, insert}
use veritio.Store.Compact.{covered, entomb, dispose_key, dispose_keys, crop}
use veritio.Store.Dispose.{bind_attempt, confirm}
use veritio.Store.Outcomes.{Inserts}
use veritio.Store.Moves.{
  Call, call, Moves, stays, inserts, fences, crops, binds, settles, call-Moves,
}
use veritio.Store.History.{step, run}

-- The entry is still there, as it was or without its record.
abbrev pub Survives : IdempotencyEntry → Option IdempotencyEntry → Type 0
Survives entry found = (found ≡ some entry) ⊎ (found ≡ some (entomb entry))

dispose_key-Survives :
    (entries : Dict IdempotencyEntry) (key other : String) (entry : IdempotencyEntry)
    → Survives entry (get entries other)
    → Survives entry (get (dispose_key entries key) other)
unfolding dispose_key
dispose_key-Survives entries key other entry h = elim (Option-cases (get entries key)) [
  | inl missing ↦ rw (missing, dispose_key) h
  | inr (e, found) ↦
      rw (found, dispose_key, get-set entries key other (entomb e))
        (elim (Bool-cases (key === other)) [
          | inl same ↦ rw same (elim (rw (← (===_iff key other).0 same, found) at h) [
            | inl kept ↦ inr (ground arith)
            | inr disposed ↦ inr (ground arith)
          ])
          | inr apart ↦ rw apart h
        ])
]

dispose_keys-Survives :
    (entries : Dict IdempotencyEntry) (rs : List AuditRecord) (key : String)
    (entry : IdempotencyEntry)
    → Survives entry (get entries key)
    → Survives entry (get (dispose_keys entries rs) key)
unfolding dispose_keys
dispose_keys-Survives entries [] key entry h = h
dispose_keys-Survives entries (r ∷ rs) key entry h =
    dispose_keys-Survives (dispose_key entries r.idempotency_key_hash) rs key entry
      (dispose_key-Survives entries r.idempotency_key_hash key entry h)

module _ (platform : Platform) where
  open platform use {sha256}

  -- A stored record is entered under a key that was not there.
  insert-Survives :
      {store : Store} {event : _} {options : _} {now : String} {r : AuditRecord} {after : Store}
      (key : String) (entry : IdempotencyEntry)
      → Inserts sha256 store event options now r after
      → Survives entry (get store.idempotency key)
      → Survives entry (get after.idempotency key)
  unfolding insert seal
  insert-Survives {store} {r} key entry i h =
      rw (i.moved, get-set store.idempotency r.idempotency_key_hash key)
        (elim (Bool-cases (r.idempotency_key_hash === key)) [
          | inl same ↦
              let missing : get store.idempotency key ≡ none =
                rw (← (===_iff r.idempotency_key_hash key).0 same, i.sealed) i.fresh in
              elim h [ inl kept ↦ cc | inr disposed ↦ cc ]
          | inr apart ↦ rw apart h
        ])

  move-Survives :
      (store : Store) (tenant : String) (after : Store) (key : String) (entry : IdempotencyEntry)
      → Moves platform store tenant after
      → Survives entry (get store.idempotency key)
      → Survives entry (get after.idempotency key)
  move-Survives store tenant after key entry (stays same) s = rw same s
  move-Survives store tenant after key entry (inserts event options now r i mine) s =
      insert-Survives key entry i s
  move-Survives store tenant after key entry (fences next number room moved) s = rw moved s
  move-Survives store tenant after key entry (crops c expected fence k) s = rw k.moved (
      unfold crop in
      dispose_keys-Survives store.idempotency (covered tenant c store.records) key entry s)
  move-Survives store tenant after key entry (binds hash attempt fence admitted moved) s =
      rw moved (unfold bind_attempt in s)
  move-Survives store tenant after key entry (settles receipt attempt_id fence k) s =
      rw k.moved (unfold confirm in s)

  step-Survives :
      (store : Store) (c : Call) (key : String) (entry : IdempotencyEntry)
      → Survives entry (get store.idempotency key)
      → Survives entry (get (step platform store c).idempotency key)
  unfolding step
  step-Survives store c key entry s = elim (Result-cases (call platform store c)) [
    | inl (after, h) ↦
        let (tenant, mine, m) = call-Moves platform store c after h in
        rw (h, step) (move-Survives store tenant after key entry m s)
    | inr (e, h) ↦ rw (h, step) s
  ]

  pub run-Survives :
      (store : Store) (cs : List Call) (key : String) (entry : IdempotencyEntry)
      → Survives entry (get store.idempotency key)
      → Survives entry (get (run platform store cs).idempotency key)
  unfolding run
  run-Survives store [] key entry s = s
  run-Survives store (c ∷ cs) key entry s =
      run-Survives (step platform store c) cs key entry (step-Survives store c key entry s)
