-- ===== src/Protocol.antt =====
-- The evidence records of sdks/typescript/src/index.ts and their hashes. `sha256` stands for
-- node:crypto's digest of a text, in hex. An optional field is `none` where the object omits it; a
-- time is the ISO text that the record holds.
use veritio.Prelude.{ℕ, String, Option, none, some, List, [], ◌∷◌, if◌then◌else◌}
use veritio.Prelude.Text.{Text, is_empty}
use veritio.Json.{
  Json, Members, Items, null, num, str, arr, obj, end, member, nil, item, canonical_json,
}

pub record Principal : Type 0 where
  pub type : String
  pub id : String
  pub display : Option String

pub record Resource : Type 0 where
  pub type : String
  pub id : String
  pub display : Option String

pub record EvidenceScope : Type 0 where
  pub tenant_id : Option String
  pub workspace_id : Option String
  pub environment : Option String

pub record AuditEvent : Type 0 where
  pub id : String
  pub schema_version : String
  pub occurred_at : String
  pub actor : Principal
  pub action : String
  pub target : Resource
  pub scope : Option EvidenceScope
  pub request_id : Option String
  pub purpose : Option String
  pub lawful_basis : Option String
  pub data_categories : Option (List String)
  pub retention : Option String
  pub metadata : Json

pub record AuditRecord : Type 0 where
  pub event : AuditEvent
  pub sequence : ℕ
  pub previous_hash : Option String
  pub hash : String
  pub hash_algorithm : String
  pub canonicalization : String
  pub appended_at : String
  pub idempotency_key_hash : String

pub record EvidenceEntity : Type 0 where
  pub type : String
  pub id : String
  pub actor_type : Option String
  pub resource_type : Option String
  pub version : Option String
  pub path_hash : Option String

pub record EvidenceEdge : Type 0 where
  pub id : String
  pub schema_version : String
  pub occurred_at : String
  pub scope : Option EvidenceScope
  pub from : EvidenceEntity
  pub relation : String
  pub to : EvidenceEntity
  pub metadata : Json

pub record EvidenceEdgeRecord : Type 0 where
  pub edge : EvidenceEdge
  pub sequence : ℕ
  pub previous_hash : Option String
  pub hash : String
  pub hash_algorithm : String
  pub canonicalization : String
  pub appended_at : String
  pub idempotency_key_hash : String

abbrev pub sha256_algorithm : String
sha256_algorithm = "sha256"

abbrev pub json_v1 : String
json_v1 = "veritio-json-v1"

-- A string that JavaScript takes for true, where it is there.
unfoldable pub truthy : Option String → Option String
unfolding is_empty
truthy none = none
truthy (some s) = if is_empty s then none else some s

-- `scope?.tenantId`
abbrev pub tenant_of : Option EvidenceScope → Option String
tenant_of none = none
tenant_of (some scope) = scope.tenant_id

-- The object that stands for each record in canonical JSON.

abbrev or_null : Option String → Json
or_null none = null
or_null (some s) = str s

abbrev optional : String → Option String → Members → Members
optional key none rest = rest
optional key (some s) rest = member key (str s) rest

strings : List String → Items
strings [] = nil
strings (s ∷ ss) = item (str s) (strings ss)

abbrev optional_strings : String → Option (List String) → Members → Members
optional_strings key none rest = rest
optional_strings key (some ss) rest = member key (arr (strings ss)) rest

scope_json : EvidenceScope → Json
scope_json s = obj (
    optional "tenantId" s.tenant_id
      (optional "workspaceId" s.workspace_id (optional "environment" s.environment end)))

abbrev optional_scope : Option EvidenceScope → Members → Members
optional_scope none rest = rest
optional_scope (some s) rest = member "scope" (scope_json s) rest

principal_json : Principal → Json
principal_json p =
    obj (member "type" (str p.type) (member "id" (str p.id) (optional "display" p.display end)))

resource_json : Resource → Json
resource_json r =
    obj (member "type" (str r.type) (member "id" (str r.id) (optional "display" r.display end)))

unfoldable pub event_json : AuditEvent → Json
unfolding principal_json resource_json scope_json strings
event_json e = obj (
    member "id" (str e.id) (
      member "schemaVersion" (str e.schema_version) (
        member "occurredAt" (str e.occurred_at) (
          member "actor" (principal_json e.actor) (
            member "action" (str e.action) (
              member "target" (resource_json e.target) (
                member "metadata" e.metadata (
                  optional_scope e.scope (
                    optional "requestId" e.request_id (
                      optional "purpose" e.purpose (
                        optional "lawfulBasis" e.lawful_basis (
                          optional_strings "dataCategories" e.data_categories
                            (optional "retention" e.retention end)))))))))))))

entity_json : EvidenceEntity → Json
entity_json e = obj (
    member "type" (str e.type) (
      member "id" (str e.id) (
        optional "actorType" e.actor_type (
          optional "resourceType" e.resource_type
            (optional "version" e.version (optional "pathHash" e.path_hash end))))))

unfoldable pub edge_json : EvidenceEdge → Json
unfolding entity_json scope_json
edge_json e = obj (
    member "id" (str e.id) (
      member "schemaVersion" (str e.schema_version) (
        member "occurredAt" (str e.occurred_at) (
          member "from" (entity_json e.from) (
            member "relation" (str e.relation) (
              member "to" (entity_json e.to)
                (member "metadata" e.metadata (optional_scope e.scope end))))))))

-- What `hashAuditRecord` hashes: every field but `hash`.
unfoldable pub record_json : AuditRecord → Json
unfolding event_json
record_json r = obj (
    member "event" (event_json r.event) (
      member "sequence" (num r.sequence) (
        member "previousHash" (or_null r.previous_hash) (
          member "hashAlgorithm" (str r.hash_algorithm) (
            member "canonicalization" (str r.canonicalization) (
              member "appendedAt" (str r.appended_at)
                (member "idempotencyKeyHash" (str r.idempotency_key_hash) end)))))))

unfoldable pub edge_record_json : EvidenceEdgeRecord → Json
unfolding edge_json
edge_record_json r = obj (
    member "edge" (edge_json r.edge) (
      member "sequence" (num r.sequence) (
        member "previousHash" (or_null r.previous_hash) (
          member "hashAlgorithm" (str r.hash_algorithm) (
            member "canonicalization" (str r.canonicalization) (
              member "appendedAt" (str r.appended_at)
                (member "idempotencyKeyHash" (str r.idempotency_key_hash) end)))))))

module _ (sha256 : Text → String) where
  unfoldable pub hash_audit_event : AuditEvent → Option String → String
  hash_audit_event event previous_hash = sha256 (
      canonical_json (
        obj
          (member "event" (event_json event) (member "previousHash" (or_null previous_hash) end))))

  unfoldable pub hash_evidence_edge : EvidenceEdge → Option String → String
  hash_evidence_edge edge previous_hash = sha256 (
      canonical_json
        (obj (member "edge" (edge_json edge) (member "previousHash" (or_null previous_hash) end))))

  unfoldable pub hash_audit_record : AuditRecord → String
  hash_audit_record r = sha256 (canonical_json (record_json r))

  unfoldable pub hash_evidence_edge_record : EvidenceEdgeRecord → String
  hash_evidence_edge_record r = sha256 (canonical_json (edge_record_json r))
