-- ===== src/Store/Tenant.antt =====
-- What holds of one tenant's records, chain state and checkpoints, and how an append and a crop
-- change the records of a tenant.
use mathlib.Core.List.{append-nil, map-append}
use veritio.Prelude.{
  ◌+◌, ◌≡◌, refl, String, Option, none, some, List, [], ◌∷◌, ◌++◌, Bool, true, false, ◌===◌,
  same_or_null, if◌then◌else◌, keep, keep-append, map,
}
use veritio.Prelude.Text.{Text}
use veritio.Protocol.{AuditRecord, tenant_of, hash_audit_record}
use veritio.Chain.{Envelope, Tip, genesis, audit_envelope}
use veritio.Chain.Linked.{Linked, Linked-append, end_of, end_of-append}
use veritio.Retention.{Checkpoint}
use veritio.Store.{AuditChainState, belongs_to}
use veritio.Store.Compact.{hash_of}

-- Where the retained records begin.
abbrev pub base_of : Option Checkpoint → Tip
base_of none = genesis
base_of (some c) = record { previous_hash = some c.through_hash; sequence = c.through_sequence }

module _ (sha256 : Text → String) where
  abbrev pub envelopes : List AuditRecord → List Envelope
  envelopes rs = map (audit_envelope sha256) rs

  -- The retained records run from the last checkpoint to the authoritative tip.
  pub record IsAnchored (rs : List AuditRecord) (state : AuditChainState) (last : Option Checkpoint)
      : Type 0 where
    pub linked : Linked (base_of last) (envelopes rs)
    pub tip : end_of (base_of last) (envelopes rs) ≡ record {
      previous_hash = state.authoritative_tip_hash;
      sequence = state.authoritative_tip_sequence;
    }
    pub minimum : state.minimum_retained_sequence ≡ (base_of last).sequence + 1
    pub latest : state.latest_checkpoint_hash ≡ hash_of last

  pub IsAnchored-append :
      {rs : List AuditRecord} {state : AuditChainState} {last : Option Checkpoint} (r : AuditRecord)
      → IsAnchored rs state last
      → r.sequence ≡ state.authoritative_tip_sequence + 1
      → r.previous_hash ≡ state.authoritative_tip_hash
      → r.hash ≡ hash_audit_record sha256 r
      → IsAnchored
          (rs ++ r ∷ [])
          (record state {
            authoritative_tip_sequence = r.sequence;
            authoritative_tip_hash = some r.hash;
          })
          last
  IsAnchored-append {rs} {state} {last} r a number link sum = record {
    linked = rw map-append (
        Linked-append (base_of last) (envelopes rs) (audit_envelope sha256 r ∷ []) a.linked
          (rw a.tip (record { sequence = number; previous_hash = link; hash = sum }, tt)));
    tip =
        rw map-append (end_of-append (base_of last) (envelopes rs) (audit_envelope sha256 r ∷ []));
    minimum = a.minimum;
    latest = a.latest;
  }

-- Appending a record of one tenant extends its records, and leaves those of the others.
pub belongs_to-eq :
    (tenant other : String) (r : AuditRecord)
    → tenant_of r.event.scope ≡ some tenant
    → belongs_to other r ≡ (tenant === other)
unfolding belongs_to same_or_null
belongs_to-eq tenant other r h = rw h

append-if :
    (b : Bool) (rs : List AuditRecord) (r : AuditRecord)
    → rs ++ (if b then r ∷ [] else []) ≡ (if b then rs ++ r ∷ [] else rs)
append-if true rs r = refl
append-if false rs r = append-nil rs

pub records_of-append :
    (tenant other : String) (rs : List AuditRecord) (r : AuditRecord)
    → tenant_of r.event.scope ≡ some tenant
    → keep (belongs_to other) (rs ++ r ∷ []) ≡ (
        if tenant === other
        then keep (belongs_to other) rs ++ r ∷ []
        else keep (belongs_to other) rs)
records_of-append tenant other rs r h =
    rw (keep-append, belongs_to-eq tenant other r h) (append-if _ _ r)
