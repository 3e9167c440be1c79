-- ===== src/Tests/DomainRuns.antt =====
-- Runs of the identifiers, the constraints and the canonical JSON.
use scalevault.Prelude.{
  ◌<◌, ◌≡◌, ◌^◌, ◌/◌, ◌%◌, ◌*◌, ◌+◌, refl, true, false, some, ok, pos, ◌↔◌, codes, arith, raise_if,
  raise_first, ℤ,
}
use scalevault.Domain.Identifiers.{Uuid, new_uuid7, require_uuid7, is_uuid7, new_uuid7-is_uuid7}
use scalevault.Domain.Enums.{
  MemoryCategory, OntologicalStatus, MemoryScope, MemoryVisibility, MemoryStatus,
}
use scalevault.Domain.Operations.{SubjectKind, TransportKind}
use scalevault.Domain.Constraints.{
  MemoryConstraintContext, validate_memory_constraints, validate_category_ontology,
}
use scalevault.Domain.Constraints.Matrix.{category_ontology_compatibility}
use scalevault.Domain.Constraints.Rules.{IsAdmissible}
use scalevault.Domain.Constraints.Exact.{validate_memory_constraints-exact}
use scalevault.Domain.CanonicalJson.{
  Item, JsonValue, datetime, mapping, field, done, uuid, json_object, json_field, json_string,
  json_done, normalize_json_value, canonical_json_bytes,
}
use scalevault.Domain.CanonicalJson.Idempotent.{embed, normalize_json_value_idem}
use scalevault.Tests.Samples.{id}
use scalevault.Tests.Platforms.{json_platform, json_platform-IsTextual}

new_uuid7-is_uuid7_example :
    (u : Uuid) × (new_uuid7 (ℤ.pos 1750000000000) (ℤ.pos 12345) ≡ ok u)
    × (u < 2 ^ 128)
    × (require_uuid7 u ≡ ok u)
    × (u / 2 ^ 80 ≡ 1750000000000)
    × (u / 2 ^ 64 % 2 ^ 12 * 2 ^ 62 + u % 2 ^ 62 ≡ 12345)
new_uuid7-is_uuid7_example = new_uuid7-is_uuid7 1750000000000 12345 (omega arith) (omega arith)

-- A scene of an active session, over the relay.
abbrev scene : MemoryConstraintContext
scene = record {
  category = MemoryCategory.episodic_anchor;
  ontological_status = OntologicalStatus.fictional_or_roleplayed_scene;
  scope = MemoryScope.scene_local;
  visibility = MemoryVisibility.private_root;
  status = MemoryStatus.active;
  sensitivity = pos 3;
  subject_kind = SubjectKind.scene;
  origin_session_id = some (id 9);
  origin_session_matches = true;
  structural_anchor_matches = true;
  imported_provenance = false;
  publication_approved = false;
  branch_allows_visibility = true;
  transport_kind = TransportKind.relay;
}

validate_memory_constraints-exact_example :
    (validate_memory_constraints scene ≡ ok tt) ↔ IsAdmissible scene
validate_memory_constraints-exact_example = validate_memory_constraints-exact scene

accepted : validate_memory_constraints scene ≡ ok tt
unfolding validate_memory_constraints validate_category_ontology category_ontology_compatibility
    is_uuid7 raise_if raise_first
accepted = refl

abbrev value : Item
value = mapping (field (codes "at") (datetime 3) (field (codes "id") (uuid (id 4)) done))

abbrev normal : JsonValue
normal = json_object (
    json_field (codes "at") (json_string (codes "3"))
      (json_field (codes "id") (json_string (codes "8")) json_done))

normalizes : normalize_json_value json_platform value ≡ ok normal
unfolding normalize_json_value raise_if
normalizes = refl

normalize_json_value_idem_example :
    (normalize_json_value json_platform (embed normal) ≡ ok normal)
    × (canonical_json_bytes json_platform (embed normal) ≡ canonical_json_bytes json_platform value)
normalize_json_value_idem_example =
    normalize_json_value_idem json_platform json_platform-IsTextual value normal normalizes
