-- ===== src/Creation/Events.antt =====
-- `createAuditEvent` and `createEvidenceEdge` of sdks/typescript/src/index.ts. `parse_date` is the host's
-- `Date`: the ISO text of a date, or nothing where the text is no date; `now` is the ISO text of the clock.
use Prim.Native.String.{◌++◌ as text_append}
use veritio.Prelude.{
  ℕ, ◌≡◌, String, Option, none, some, List, [], ◌∷◌, Bool, true, false, not, ◌&&◌, ◌||◌, leb, ◌==◌,
  ◌===◌, if◌then◌else◌, keep, Any,
}
use veritio.Prelude.Text.{Text, codes, is_blank, text_le}
use veritio.Prelude.Results.{
  Result, ok, throws, require, ◌>>=◌, ◌>>◌, >>=-eq-ok, require-eq-ok, ok-injective,
}
use veritio.Json.{Json, Members, obj, end}
use veritio.Protocol.{
  Principal, Resource, EvidenceScope, EvidenceEntity, AuditEvent, EvidenceEdge, truthy,
}
use veritio.Creation.{
  CreationError, clean_principal, clean_resource, clean_scope, clean_evidence_entity,
  is_evidence_edge_relation, evidence_edge_relations,
}
use veritio.Creation.Entities.{IsEntityOf, relation-known, clean-IsEntityOf}
use veritio.Creation.Redact.{redact_metadata}
use veritio.Creation.Hidden.{IsClean, redact_any-IsClean}

pub record AuditEventInput : Type 0 where
  pub id : Option String
  pub occurred_at : Option String
  pub actor : Principal
  pub action : String
  pub target : Resource
  pub scope : Option EvidenceScope
  pub request_id : Option String
  pub purpose : Option String
  pub lawful_basis : Option String
  pub data_categories : Option (List String)
  pub retention : Option String
  pub metadata : Option Members

pub record EvidenceEdgeInput : Type 0 where
  pub id : Option String
  pub occurred_at : Option String
  pub scope : Option EvidenceScope
  pub from : EvidenceEntity
  pub relation : String
  pub to : EvidenceEntity
  pub metadata : Option Members

is_lower : ℕ → Bool
is_lower c = leb b'a' c && leb c b'z'

-- The rest of an action: `opens` at the start of a word, `dotted` after a dot.
is_action_from : (opens dotted : Bool) → Text → Bool
unfolding is_lower
is_action_from opens dotted [] = not opens && dotted
is_action_from true dotted (c ∷ cs) = is_lower c && is_action_from false dotted cs
is_action_from false dotted (c ∷ cs) =
    let word = is_action_from false dotted cs in
    let next = is_action_from true true cs in
    if c == b'.' then next else (is_lower c || leb b'0' c && leb c b'9') && word

-- /^[a-z][a-z0-9]*(\.[a-z][a-z0-9]*)+$/
unfoldable pub is_action : String → Bool
unfolding is_action_from
is_action action = is_action_from true false (codes action)

-- `[...new Set(values)]`: the first of each.
unfoldable pub distinct : List String → List String
distinct [] = []
distinct (x ∷ xs) = x ∷ keep (λ y. not (y === x)) (distinct xs)

unfoldable pub insert_text : String → List String → List String
insert_text x [] = x ∷ []
insert_text x (y ∷ ys) =
    let rest = insert_text x ys in if text_le x y then x ∷ (y ∷ ys) else y ∷ rest

unfoldable pub sort_texts : List String → List String
unfolding insert_text
sort_texts [] = []
sort_texts (x ∷ xs) = insert_text x (sort_texts xs)

abbrev pub categories : Option (List String) → Option (List String)
categories none = none
categories (some []) = none
categories (some (x ∷ xs)) = some (sort_texts (distinct (x ∷ xs)))

abbrev pub metadata_of : Option Members → Json
metadata_of none = obj end
metadata_of (some ms) = obj ms

abbrev pub or_fresh : String → String → Option String → String
or_fresh prefix uuid none = text_append prefix uuid
or_fresh prefix uuid (some id) = id

abbrev pub cleaned : Option EvidenceScope → Option EvidenceScope
cleaned none = none
cleaned (some s) = clean_scope s

module _ (parse_date : String → Option String) (now uuid : String) where
  unfoldable pub normalize_date : Option String → Result CreationError String
  normalize_date none = ok now
  normalize_date (some text) = elim (parse_date text) [
    | none ↦ throws CreationError.invalid_date
    | some iso ↦ ok iso
  ]

  unfoldable pub create_audit_event : AuditEventInput → Result CreationError AuditEvent
  create_audit_event input = do
    require (not (is_blank input.actor.id)) CreationError.id_required
    require (not (is_blank input.actor.type)) CreationError.type_required
    require (not (is_blank input.action)) CreationError.action_required
    require (not (is_blank input.target.id)) CreationError.id_required
    require (not (is_blank input.target.type)) CreationError.type_required
    require (is_action input.action) CreationError.invalid_action
    occurred_at ← normalize_date input.occurred_at
    ok (record {
      id = or_fresh "evt_" uuid input.id;
      schema_version = "2026-06-10";
      occurred_at = occurred_at;
      actor = clean_principal input.actor;
      action = input.action;
      target = clean_resource input.target;
      scope = cleaned input.scope;
      request_id = truthy input.request_id;
      purpose = truthy input.purpose;
      lawful_basis = truthy input.lawful_basis;
      data_categories = categories input.data_categories;
      retention = truthy input.retention;
      metadata = redact_metadata (metadata_of input.metadata);
    })

  unfoldable pub create_evidence_edge : EvidenceEdgeInput → Result CreationError EvidenceEdge
  create_evidence_edge input = do
    from ← clean_evidence_entity input.from
    to ← clean_evidence_entity input.to
    require (is_evidence_edge_relation input.relation) CreationError.unsupported_relation
    occurred_at ← normalize_date input.occurred_at
    ok (record {
      id = or_fresh "edge_" uuid input.id;
      schema_version = "2026-06-13";
      occurred_at = occurred_at;
      scope = cleaned input.scope;
      from = from;
      relation = input.relation;
      to = to;
      metadata = redact_metadata (metadata_of input.metadata);
    })

  -- An event that is created has a dotted lowercase action, an actor and a target with ids that are not
  -- blank, and metadata in which every value under a sensitive key, at any depth, is the mark of
  -- redaction or an envelope of a SHA-256 digest.
  pub created_event-IsClean :
      (input : AuditEventInput) (e : AuditEvent)
      → create_audit_event input ≡ ok e
      → IsClean "" e.metadata
        × (is_action e.action ≡ true)
        × (not (is_blank e.actor.id) ≡ true)
        × (not (is_blank e.target.id) ≡ true)
  unfolding create_audit_event redact_metadata clean_principal clean_resource
  created_event-IsClean input e h =
      let (a, h1) = require-eq-ok (not (is_blank input.actor.id)) CreationError.id_required _ h in
      let (b, h2) =
        require-eq-ok (not (is_blank input.actor.type)) CreationError.type_required _ h1 in
      let (c, h3) =
        require-eq-ok (not (is_blank input.action)) CreationError.action_required _ h2 in
      let (d, h4) = require-eq-ok (not (is_blank input.target.id)) CreationError.id_required _ h3 in
      let (f, h5) =
        require-eq-ok (not (is_blank input.target.type)) CreationError.type_required _ h4 in
      let (g, h6) = require-eq-ok (is_action input.action) CreationError.invalid_action _ h5 in
      let (at, dated, done) = >>=-eq-ok (normalize_date input.occurred_at) _ h6 in
      rw (← ok-injective done) (redact_any-IsClean "" (metadata_of input.metadata), g, a, d)

  -- An edge that is created has a relation of the vocabulary; each of its ends has a type of the
  -- vocabulary, the type and the id of the input, an id that is not blank, and its optional texts,
  -- those alone left out that are empty; and in its metadata every value under a sensitive key, at any
  -- depth, is the mark of redaction or an envelope of a SHA-256 digest.
  pub created_edge-IsClean :
      (input : EvidenceEdgeInput) (e : EvidenceEdge)
      → create_evidence_edge input ≡ ok e
      → IsClean "" e.metadata
        × Any (λ r. r ≡ e.relation) evidence_edge_relations
        × IsEntityOf input.from e.from
        × IsEntityOf input.to e.to
  unfolding create_evidence_edge redact_metadata
  created_edge-IsClean input e h =
      let (from, left, h1) = >>=-eq-ok (clean_evidence_entity input.from) _ h in
      let (to, right, h2) = >>=-eq-ok (clean_evidence_entity input.to) _ h1 in
      let (r, h3) =
        require-eq-ok (is_evidence_edge_relation input.relation) CreationError.unsupported_relation
          _ h2 in
      let (at, dated, done) = >>=-eq-ok (normalize_date input.occurred_at) _ h3 in
      rw (← ok-injective done) (
        redact_any-IsClean "" (metadata_of input.metadata),
        relation-known input.relation r,
        clean-IsEntityOf input.from from left,
        clean-IsEntityOf input.to to right,
      )
