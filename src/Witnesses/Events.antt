-- ===== src/Witnesses/Events.antt =====
-- The theorems on the creation of events and edges at concrete inputs.
use veritio.Prelude.{◌≡◌, refl, true, not, Any}
use veritio.Prelude.Text.{is_blank, is_white_space, is_empty, text_le}
use veritio.Prelude.Results.{ok}
use veritio.Creation.{
  is_unscoped, clean_principal, clean_resource, clean_scope, is_evidence_entity_type,
  clean_evidence_entity, is_evidence_edge_relation, evidence_edge_relations,
}
use veritio.Creation.Entities.{IsEntityOf}
use veritio.Protocol.{truthy}
use veritio.Json.{place, key_le, field}
use veritio.Creation.Redact.{
  redact_metadata, redact_any, redact_items, under_key, is_sensitive_key, sanitize_digest_envelope,
  has_other_fields, envelope_of,
}
use veritio.Creation.Hidden.{IsClean}
use veritio.Creation.Events.{
  create_audit_event, create_evidence_edge, is_action, normalize_date, created_event-IsClean,
  created_edge-IsClean,
}
use veritio.Examples.Events.{any_date, event_input, event_created, edge_input, edge_created}

event-created :
    create_audit_event any_date "2026-01-01T00:00:00.000Z" "u" event_input ≡ ok event_created
unfolding create_audit_event is_blank is_white_space is_action normalize_date clean_principal
    clean_resource clean_scope is_unscoped truthy is_empty text_le redact_metadata redact_any
    redact_items under_key is_sensitive_key sanitize_digest_envelope has_other_fields envelope_of
    place key_le field
event-created = refl

created_event-IsClean_example :
    IsClean "" event_created.metadata
    × (is_action "user.login" ≡ true)
    × (not (is_blank "u") ≡ true)
    × (not (is_blank "t") ≡ true)
created_event-IsClean_example =
    created_event-IsClean any_date "2026-01-01T00:00:00.000Z" "u" event_input event_created
      event-created

edge-created :
    create_evidence_edge any_date "2026-01-01T00:00:00.000Z" "u" edge_input ≡ ok edge_created
unfolding create_evidence_edge clean_evidence_entity is_blank is_white_space is_evidence_entity_type
    is_evidence_edge_relation normalize_date truthy redact_metadata redact_any redact_items
    under_key is_sensitive_key sanitize_digest_envelope has_other_fields envelope_of place key_le
    field
edge-created = refl

created_edge-IsClean_example :
    IsClean "" edge_created.metadata
    × Any (λ r. r ≡ "derived_from") evidence_edge_relations
    × IsEntityOf edge_input.from edge_created.from
    × IsEntityOf edge_input.to edge_created.to
created_edge-IsClean_example =
    created_edge-IsClean any_date "2026-01-01T00:00:00.000Z" "u" edge_input edge_created
      edge-created
