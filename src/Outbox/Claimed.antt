-- ===== src/Outbox/Claimed.antt =====
-- What a pass of `claimDispatchable` (storage/src/outbox-file.ts) claims: how many rows, how many bytes,
-- of which tenants, and that it claims something where it can.
use veritio.Prelude.{
  ℕ, ◌+◌, ◌≤◌, ◌≡◌, refl, ap, String, some, List, [], ◌∷◌, Bool, length, inl, inr, All, All-map,
  Pairwise, arith, Any,
}
use veritio.Prelude.Results.{ok}
use veritio.Outbox.{OutboxStatus, Entry, ClaimOptions, body_bytes, outbox_payload_byte_length}
use veritio.Outbox.File.{sort_entries, lease, claim_rows}
use veritio.Outbox.Settle.{blocked_tenants, written, claim_dispatchable}
use veritio.Outbox.Bytes.{byte_length-stored}
use veritio.Outbox.Rows.{All-sort, IsStored}
use veritio.Outbox.Evidence.{claim-eq-ok}
use veritio.Outbox.Steps.{IsSameEvidence}
use veritio.Outbox.Ready.{IsReady, candidate-IsReady}
use veritio.Outbox.Claiming.{
  total_bytes, HasOtherTenant, IsLeased, claim_rows-IsLeased, claim_rows-length,
  claim_rows-total_bytes, claim_rows-fresh,
}

listed-All :
    (P : Entry → Type 0) (es : List Entry) (e : Entry) → All P es → Any (λ x. x ≡ e) es → P e
listed-All P [] e h k = absurd k
listed-All P (x ∷ xs) e h (inl same) = rw (← same) h.0
listed-All P (x ∷ xs) e h (inr later) = listed-All P xs e h.1 later

-- A claim, and the row of the file that it leases.
pub record IsClaim (o : ClaimOptions) (now : ℕ) (entries : List Entry) (e : Entry) : Type 0 where
  pub row : Entry
  pub listed : Any (λ x. x ≡ row) entries
  pub ready : IsReady o now entries row
  pub evidence : IsSameEvidence row e
  pub bytes : outbox_payload_byte_length e.payload ≡ ok (body_bytes e.payload)
  pub status : e.status ≡ OutboxStatus.leased
  pub lease_id : e.lease_id ≡ some o.lease_id
  pub lease_expires_at : e.lease_expires_at ≡ some (now + o.lease_ms)
  pub available_at : e.available_at ≡ now + o.lease_ms

module _ (id_le : String → String → Bool) where
  written-claims :
      (file : List Entry) (r : List Entry × List Entry) {claims after : List Entry}
      → (claims, after) ≡ written id_le file r
      → claims ≡ r.1
  written-claims file (rows, []) same = ap (λ p. p.0) same
  written-claims file (rows, x ∷ xs) same = ap (λ p. p.0) same

  claimed-IsClaim :
      (o : ClaimOptions) (now : ℕ) (es : List Entry) (e : Entry)
      → All IsStored es
      → IsLeased o now (blocked_tenants now es) es e
      → IsClaim o now es e
  unfolding lease
  claimed-IsClaim o now es e stored l = rw l.same (record {
    row = l.row;
    listed = l.listed;
    ready = candidate-IsReady o now es l.row l.candidate;
    bytes = byte_length-stored l.row (listed-All IsStored es l.row stored l.listed);
    evidence = record { id = refl; tenant_id = refl; payload = refl; created_at = refl };
    status = refl;
    lease_id = refl;
    lease_expires_at = refl;
    available_at = refl;
  })

  -- A claim pass that returns has claimed at most `limit` rows of at most `maxPayloadBytes` bytes in
  -- all, for tenants that all differ. Each claim is a row of the file with its evidence, leased under
  -- the id of the options until `leaseMs` after `now`; the row was pending or leased, its date had
  -- come by `now`, it was of the tenant asked for, and no row of its tenant was paused or had a lease
  -- whose date was after `now`. Dates compare as their ISO texts do.
  pub claims_bounded :
      (file : List Entry) (o : ClaimOptions) (now : ℕ) (claims after : List Entry)
      → claim_dispatchable id_le file o now ≡ ok (claims, after)
      → (length claims ≤ o.limit)
        × (total_bytes claims ≤ o.max_payload_bytes)
        × All (IsClaim o now (sort_entries id_le file)) claims
        × Pairwise HasOtherTenant claims
  claims_bounded file o now claims after h =
      let c = claim-eq-ok id_le file o now claims after h in
      let entries = sort_entries id_le file in
      let blocked = blocked_tenants now entries in
      rw (written-claims file (claim_rows o now blocked [] 0 0 entries) c.outcome) (
        omega (arith, claim_rows-length o now blocked [] 0 0 entries (omega arith)),
        omega (arith, claim_rows-total_bytes o now blocked [] 0 0 entries (omega arith)),
        All-map (IsLeased o now blocked entries) (IsClaim o now entries)
            (λ e. claimed-IsClaim o now entries e (All-sort id_le IsStored file c.stored)) _
            (claim_rows-IsLeased o now blocked [] 0 0 entries),
        (claim_rows-fresh o now blocked [] 0 0 entries).1,
      )
