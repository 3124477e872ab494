-- ===== src/Creation.antt =====
-- The values that go into events and edges of sdks/typescript/src/index.ts: `cleanPrincipal`,
-- `cleanResource`, `cleanEvidenceEntity`, `cleanScope` and the public vocabulary. Keys that the type
-- does not have are left out.
pub mod Redact
pub mod Hidden
pub mod Entities
pub mod Events
use veritio.Prelude.{
  ◌≡◌, refl, sym, ap, ◌∙◌, String, Option, none, some, List, [], ◌∷◌, Bool, true, false, not, any,
  ◌===◌, if◌then◌else◌, Bool-cases, some-injective, inl, inr,
}
use veritio.Prelude.Text.{is_blank, is_empty}
use veritio.Prelude.Results.{Result, ok, require, ◌>>◌, require-eq-ok, ok-injective}
use veritio.Protocol.{Principal, Resource, EvidenceScope, EvidenceEntity, truthy}

pub data CreationError : Type 0 where
  type_required id_required unsupported_entity_type : CreationError
  action_required invalid_action invalid_date unsupported_relation : CreationError

abbrev pub evidence_entity_types : List String
evidence_entity_types =
    "tenant" ∷ "principal" ∷ "actor" ∷ "activity" ∷ "change" ∷ "revision" ∷ "assertion" ∷ "record"
    ∷ "evidence_commit" ∷ "data_subject" ∷ "resource" ∷ "data_category" ∷ "purpose" ∷ "policy"
    ∷ "consent" ∷ "processor" ∷ "system" ∷ "repository" ∷ "branch" ∷ "commit" ∷ "pull_request"
    ∷ "file" ∷ "diff_hunk" ∷ "agent_session" ∷ "activity_episode" ∷ "tool_call" ∷ "ci_run"
    ∷ "artifact" ∷ "deployment" ∷ "runtime_event" ∷ "subject_request" ∷ "export_bundle" ∷ []

abbrev pub evidence_edge_relations : List String
evidence_edge_relations =
    "caused_by" ∷ "part_of" ∷ "read" ∷ "modified" ∷ "created" ∷ "deleted" ∷ "derived_from"
    ∷ "reviewed_by" ∷ "approved_by" ∷ "waived_by" ∷ "built_by" ∷ "deployed_as" ∷ "observed_in"
    ∷ "attests_to" ∷ "exports" ∷ "satisfies_policy" ∷ "violates_policy" ∷ "subject_of"
    ∷ "processed_for" ∷ "retained_under" ∷ "sent_to" ∷ "has_activity" ∷ "has_input" ∷ "has_output"
    ∷ "has_assertion" ∷ "resulted_in" ∷ "performed_by" ∷ "used" ∷ "generated" ∷ "based_on"
    ∷ "asserts_about" ∷ "retracts" ∷ "corrects" ∷ "supersedes" ∷ "disputes" ∷ "confirms"
    ∷ "compensates" ∷ []

unfoldable pub is_evidence_entity_type : String → Bool
is_evidence_entity_type value = any (λ t. t === value) evidence_entity_types

unfoldable pub is_evidence_edge_relation : String → Bool
is_evidence_edge_relation value = any (λ r. r === value) evidence_edge_relations

unfoldable pub clean_principal : Principal → Principal
clean_principal p = record p { display = truthy p.display }

unfoldable pub clean_resource : Resource → Resource
clean_resource r = record r { display = truthy r.display }

abbrev pub cleaned_entity : EvidenceEntity → EvidenceEntity
cleaned_entity e = record {
  type = e.type;
  id = e.id;
  actor_type = truthy e.actor_type;
  resource_type = truthy e.resource_type;
  version = truthy e.version;
  path_hash = truthy e.path_hash;
}

unfoldable pub clean_evidence_entity : EvidenceEntity → Result CreationError EvidenceEntity
clean_evidence_entity e = do
  require (not (is_blank e.type)) type_required
  require (not (is_blank e.id)) id_required
  require (is_evidence_entity_type e.type) unsupported_entity_type
  ok (cleaned_entity e)

abbrev pub is_absent : Option String → Bool
is_absent none = true
is_absent (some s) = false

abbrev pub cleaned_scope : EvidenceScope → EvidenceScope
cleaned_scope s = record {
  tenant_id = truthy s.tenant_id;
  workspace_id = truthy s.workspace_id;
  environment = truthy s.environment;
}

-- Whether the object has no key.
unfoldable pub is_unscoped : EvidenceScope → Bool
is_unscoped s =
    if is_absent s.tenant_id
    then (if is_absent s.workspace_id then is_absent s.environment else false)
    else false

unless_unscoped : EvidenceScope → Option EvidenceScope
unfolding is_unscoped
unless_unscoped s = if is_unscoped s then none else some s

unfoldable pub clean_scope : EvidenceScope → Option EvidenceScope
unfolding unless_unscoped
clean_scope s = unless_unscoped (cleaned_scope s)
