-- ===== src/Examples/Events.antt =====
-- An event and an edge with personal values in their metadata.
use veritio.Prelude.{String, Option, none, some, []}
use veritio.Json.{num, str, obj, end, member}
use veritio.Protocol.{AuditEvent, EvidenceEdge, EvidenceEntity}
use veritio.Creation.Events.{AuditEventInput, EvidenceEdgeInput}

abbrev pub any_date : String → Option String
any_date text = some text

abbrev pub event_input : AuditEventInput
event_input = record {
  id = some "e";
  occurred_at = none;
  actor = record { type = "user"; id = "u"; display = some "" };
  action = "user.login";
  target = record { type = "t"; id = "t"; display = none };
  scope = some (record { tenant_id = some "t"; workspace_id = some ""; environment = none });
  request_id = some "";
  purpose = none;
  lawful_basis = none;
  data_categories = some [];
  retention = none;
  metadata =
      some (member "userEmail" (str "a@b.c") (member "n" (obj (member "API-Key" (num 5) end)) end));
}

abbrev pub event_created : AuditEvent
event_created = record {
  id = "e";
  schema_version = "2026-06-10";
  occurred_at = "2026-01-01T00:00:00.000Z";
  actor = record { type = "user"; id = "u"; display = none };
  action = "user.login";
  target = record { type = "t"; id = "t"; display = none };
  scope = some (record { tenant_id = some "t"; workspace_id = none; environment = none });
  request_id = none;
  purpose = none;
  lawful_basis = none;
  data_categories = none;
  retention = none;
  metadata = obj (
      member "n" (obj (member "API-Key" (str "[redacted]") end))
        (member "userEmail" (str "[redacted]") end));
}

abbrev pub entity : String → EvidenceEntity
entity id = record {
  type = "file";
  id = id;
  actor_type = none;
  resource_type = none;
  version = none;
  path_hash = none;
}

abbrev pub edge_input : EvidenceEdgeInput
edge_input = record {
  id = some "e";
  occurred_at = none;
  scope = none;
  from = entity "a";
  relation = "derived_from";
  to = entity "b";
  metadata = some (member "secret" (num 1) end);
}

abbrev pub edge_created : EvidenceEdge
edge_created = record {
  id = "e";
  schema_version = "2026-06-13";
  occurred_at = "2026-01-01T00:00:00.000Z";
  scope = none;
  from = entity "a";
  relation = "derived_from";
  to = entity "b";
  metadata = obj (member "secret" (str "[redacted]") end);
}
