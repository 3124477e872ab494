-- ===== src/Chain/Removal.antt =====
-- Records that are missing from a list that `verifyAuditRecords` of sdks/typescript/src/index.ts is
-- given.
use veritio.Prelude.{
  ◌≡◌, ◌∙◌, String, some, List, [], ◌∷◌, ◌++◌, Bool, true, same_or_null_iff, keep, keep-append, map,
  arith, Bool-cases, inl, inr, All,
}
use mathlib.Core.List.{map-append}
use veritio.Prelude.Text.{Text}
use veritio.Protocol.{AuditRecord, tenant_of}
use veritio.Chain.{
  verified, Envelope, Tip, genesis, tip_after, audit_envelope, verify_audit_records,
}
use veritio.Chain.Linked.{IsSupported, Linked, is_of, of_tenant, end_of}
use veritio.Chain.Verdict.{IsEvidence, verify_records_iff, truthy-eq-some}

Linked-front :
    (tip : Tip) (xs ys : List Envelope) → Linked tip (xs ++ ys) → Linked (end_of tip xs) ys
Linked-front tip [] ys h = h
Linked-front tip (x ∷ xs) ys h = Linked-front (tip_after x) xs ys h.1

-- Without the first of two records, the second does not go on from the tip.
no_gap :
    (tip : Tip) (e f : Envelope) (es : List Envelope)
    → Linked tip (e ∷ f ∷ es)
    → Linked tip (f ∷ es)
    → ⊥
no_gap tip e f es h k = omega (arith, h.0.sequence, h.1.0.sequence, k.0.sequence)

All-middle :
    {A : Type 0} (P : A → Type 0) (xs : List A) (y : A) (ys : List A) → All P (xs ++ y ∷ ys) → P y
All-middle P [] y ys h = h.0
All-middle P (x ∷ xs) y ys h = All-middle P xs y ys h.1

-- A filter that keeps some member keeps a first one.
keep-cons :
    {A : Type 0} (p : A → Bool) (xs : List A) (y : A) (ys : List A)
    → p y ≡ true
    → (z : A) × (zs : List A) × (keep p (xs ++ y ∷ ys) ≡ z ∷ zs)
keep-cons p [] y ys h = (y, keep p ys, rw h)
keep-cons p (x ∷ xs) y ys h = elim (Bool-cases (p x)) [
  | inl holds ↦ (x, keep p (xs ++ y ∷ ys), rw holds)
  | inr fails ↦ rw fails (keep-cons p xs y ys h)
]

is_of-true : (t : String) (e : Envelope) → e.tenant_id ≡ some t → is_of t e ≡ true
unfolding is_of
is_of-true t e h = (same_or_null_iff e.tenant_id (some t)).1 h

module _ (t : String) (xs : List Envelope) (e : Envelope) (ys : List Envelope) where
  of_tenant-with :
      e.tenant_id ≡ some t → of_tenant t (xs ++ e ∷ ys) ≡ of_tenant t xs ++ e ∷ of_tenant t ys
  of_tenant-with h = rw (keep-append (is_of t) xs (e ∷ ys), is_of-true t e h)

envelopes_gap :
    (xs between rest : List Envelope) (e f : Envelope)
    → f.tenant_id ≡ e.tenant_id
    → IsEvidence (xs ++ e ∷ (between ++ f ∷ rest))
    → IsEvidence (xs ++ (between ++ f ∷ rest))
    → ⊥
envelopes_gap xs between rest e f same h k =
    let s = All-middle IsSupported xs e (between ++ f ∷ rest) h.0 in
    let mine : e.tenant_id ≡ some s.tenant = truthy-eq-some e.tenant_id s.tenant s.scoped in
    let (g, gs, later) =
      keep-cons (is_of s.tenant) between f rest (is_of-true s.tenant f (same ∙ mine)) in
    no_gap (end_of genesis (of_tenant s.tenant xs)) e g gs
      (Linked-front genesis (of_tenant s.tenant xs) (e ∷ g ∷ gs)
        (rw (of_tenant-with s.tenant xs e (between ++ f ∷ rest) mine, later) at (h.1 s.tenant)))
      (Linked-front genesis (of_tenant s.tenant xs) (g ∷ gs)
        (rw (keep-append (is_of s.tenant) xs (between ++ f ∷ rest), later) at (k.1 s.tenant)))

module _ (sha256 : Text → String) where
  -- From a list that `verifyAuditRecords` accepts, leaving out one record that a later record of the
  -- same tenant follows gives a list that it does not accept, whatever the digest function.
  pub removal_detected :
      (xs between rest : List AuditRecord) (gone later : AuditRecord)
      → tenant_of later.event.scope ≡ tenant_of gone.event.scope
      → verify_audit_records sha256 (xs ++ gone ∷ (between ++ later ∷ rest)) ≡ verified
      → ¬ (verify_audit_records sha256 (xs ++ (between ++ later ∷ rest)) ≡ verified)
  removal_detected xs between rest gone later same h = λ k.
      let env = audit_envelope sha256 in
      let without = between ++ later ∷ rest in
      envelopes_gap (map env xs) (map env between) (map env rest) (env gone) (env later) same
        (rw (map-append env xs (gone ∷ without), map-append env between (later ∷ rest)) at
          ((verify_records_iff sha256 (xs ++ gone ∷ without) []).0.0 h))
        (rw (map-append env xs without, map-append env between (later ∷ rest)) at
          ((verify_records_iff sha256 (xs ++ without) []).0.0 k))
