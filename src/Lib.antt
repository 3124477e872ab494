-- ===== src/Lib.antt =====
-- A model of the evidence protocol of the TypeScript SDK, sdks/typescript/src, and of the delivery queue
-- in storage/src.
--
-- The SDK seals audit events and evidence edges into per-tenant hash chains, keeps audit records in
-- a store that deduplicates by idempotency key, compacts a verified prefix of a chain behind a
-- retention checkpoint, records the disposal of the compacted archive, and verifies all of it again
-- from the records alone. The queue delivers records to a host's target. Seven parts make it up:
--   * Json and Protocol: the values that are hashed. `canonicalJson`, `normalizeForJson` and the
--     record types and hash functions of sdks/typescript/src/index.ts.
--   * Chain: the verifiers. `verifyAuditRecords` and `verifyEvidenceEdgeRecords` of
--     sdks/typescript/src/index.ts have one body, `verify_envelope`, over the accessors of
--     sdks/typescript/src/export-bundle-chain-modes.ts, whose `verifyScopedChain` is in Chain/Modes.
--     Chain/Linked says what a chain is without the verifier; Chain/Verdict compares the two.
--   * Retention: checkpoints and disposition receipts, sdks/typescript/src/retention.ts. Formats has
--     its assertions, Payloads what it hashes and creates, Verify its verifiers.
--   * Store: `MemoryAuditStore` of sdks/typescript/src/index.ts. A `Store` holds its six private
--     fields; Append, Compact and Dispose have one function for each method. A method is a function
--     from a store to a result with the next store; none of them awaits between a read and a write,
--     and each throws before its first write, so a call is one step. Moves lists the calls and
--     the transitions that they come down to, and History runs any sequence of calls.
--   * Commit: the evidence commits of sdks/typescript/src/index.ts, which bind a manifest of records
--     under a Merkle root and link each stream; Ledger creates and verifies them.
--   * Creation: the vocabulary and the cleaning of values of sdks/typescript/src/index.ts, with the
--     redaction of metadata (Redact), the ends of edges (Entities) and `createAuditEvent` and `createEvidenceEdge` (Events).
--   * Outbox: the delivery queue. Outbox has the rows and helpers of storage/src/outbox-types.ts and
--     storage/src/outbox-shared.ts; File and Settle the file queue of storage/src/outbox-file.ts, whose
--     state is the array of rows in `entries.json`, each method one step under the lock; Safety the
--     policy of storage/src/delivery-safety.ts and the rolling ledger, Dispatch and Pass the dispatcher of
--     storage/src/outbox-dispatcher.ts over any adapter (`OutboxAdapter`) and target (`EvidenceTarget`).
--     Steps has the life of a row, Ready the rows that a pass may claim, Timed the dates of leases,
--     Calls the calls, Local the file queue as the dispatcher's adapter. Accounting has an adapter
--     that logs what it hands out, over which Bounded and Ledgered follow a pass.
-- The store calls the verifiers of Retention, and the records that it makes are read by Chain and by
-- `verifyAuditRecordsFromCheckpoint`. The dispatcher claims rows of a queue, sends their payloads to the
-- target and settles them; its ledger outlives a pass.
--
-- `Platform` stands for node: the SHA-256 digests in hex and the reading of base64. The theorems hold
-- for every digest function; where a digest must have the form of one, that is a hypothesis
-- (`digest_hex`). A `throw` is a constructor of `StoreError`, `CreationError` or `OutboxError`, a `Map`
-- is an association list that keeps the order of insertion, a `null` or an omitted field is `none`, and a number is a natural
-- number, with the tests on safe integers written out. The clock is an argument of the call.
-- Functions are structurally recursive, but for two: the digits of a number take its successor as
-- fuel, which is more than it has digits, and the Merkle loop takes the number of the leaves, which
-- is enough as each pass shortens the level (Commit/Merkle).
--
-- In the queue a timestamp is the milliseconds of a date from 1970 on; `iso_le` compares two as their ISO
-- texts, in which the dates after the year 9999 come before the others, and a claim whose leases would
-- end after the last date of JavaScript throws (`invalid_time`). `localeCompare` of two ids is the
-- parameter `id_le`, the random UUIDs and the readings of the clock are arguments, and a loop over
-- `permit.maxEntries` recurses on that number.
--
-- Not modelled: the SQL queue and the other storage adapters of storage/src, the lock file and the
-- atomic rename of the file queue, interleaved passes of one dispatcher, risk scoring, export bundles,
-- and the server, gateway, command line and framework adapters. Objects of other JavaScript types than
-- the declared ones, which the verifiers refuse, and numbers that are no integers in event metadata are
-- left out.
pub mod Prelude
pub mod Json
pub mod Protocol
pub mod Chain
pub mod Retention
pub mod Store
pub mod Commit
pub mod Creation
pub mod Outbox
pub mod Examples
pub mod Witnesses
