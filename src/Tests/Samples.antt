-- ===== src/Tests/Samples.antt =====
-- A small stream of events: a branch, a memory with evidence, the redaction of the evidence, and
-- the tombstone of the memory.
use scalevault.Prelude.{ℕ, none, some, [], ◌∷◌, codes, ◌+◌, ◌*◌, ◌^◌}
use scalevault.Domain.Identifiers.{Uuid}
use scalevault.Domain.Enums.{
  MemoryCategory, OntologicalStatus, MemoryScope, MemoryVisibility, MemoryStatus,
}
use scalevault.Domain.Operations.{AuthorityClass, EventOperation, SubjectKind}
use scalevault.Domain.CanonicalJson.{done}
use scalevault.Events.States.{MemoryState, EvidenceState, BranchState, ContentProtection, v1}
use scalevault.Events.Payloads.{
  Payload, ForgetMode, memory_created, tombstoned, evidence_redacted, branch_created,
}
use scalevault.Events.Envelope.{MemoryEvent}

-- The UUIDv7 with a timestamp and a random part of `n`.
abbrev pub id : ℕ → Uuid
id n = n * 2 ^ 80 + 7 * 2 ^ 76 + 2 * 2 ^ 62 + n

abbrev pub tenant : Uuid
tenant = id 1

abbrev pub lineage : Uuid
lineage = id 2

abbrev pub branch : Uuid
branch = id 3

abbrev pub memory : Uuid
memory = id 4

abbrev pub branch_state : BranchState
branch_state = record {
  branch_id = branch;
  tenant_id = tenant;
  lineage_id = lineage;
  parent_branch_id = none;
  fork_event_sequence = none;
  name = codes "root";
  visibility_ceiling = MemoryVisibility.restricted;
  created_at = 1;
  sealed_at = none;
}

abbrev pub first : MemoryState
first = record {
  memory_id = memory;
  tenant_id = tenant;
  lineage_id = lineage;
  branch_id = branch;
  subject_id = id 5;
  subject_kind = SubjectKind.project;
  revision = 1;
  category = MemoryCategory.project_decision;
  ontological_status = OntologicalStatus.literal_technical_fact;
  scope = MemoryScope.project;
  visibility = MemoryVisibility.private_root;
  status = MemoryStatus.active;
  statement = some (codes "The store is an event log.");
  reason_to_remember = some (codes "It decides the schema.");
  interpretation_limits = [];
  confidence = 900000;
  salience = 500000;
  durability = 500000;
  sensitivity = 1;
  authority_class = AuthorityClass.explicit_user_statement;
  valid_from = none;
  valid_to = none;
  observed_at = none;
  origin_session_id = none;
  publication_approved_at = none;
  publication_approved_by_actor_id = none;
  content_protection = ContentProtection.plaintext;
  content_key_id = none;
  created_at = 2;
  updated_at = 2;
  fingerprint_version = 1;
  normalized_fingerprint = none;
  metadata = done;
  version = v1;
}

abbrev pub forgotten : MemoryState
forgotten = record first {
  revision = 2;
  status = MemoryStatus.tombstoned;
  statement = none;
  reason_to_remember = none;
  updated_at = 4;
}

abbrev pub item : EvidenceState
item = record {
  evidence_id = id 6;
  tenant_id = tenant;
  lineage_id = lineage;
  branch_id = branch;
  memory_id = memory;
  source_type = codes "conversation";
  source_reference = done;
  excerpt = none;
  occurred_at = none;
  content_sha256 = none;
  trust_classification = codes "verified";
  created_at = 2;
  metadata = done;
}

abbrev pub created_payload : Payload
created_payload = memory_created (record { memory = first; evidence = item ∷ [] })

abbrev pub redacted_payload : Payload
redacted_payload = evidence_redacted (record {
  evidence_id = id 6;
  memory_id = memory;
  redacted_at = 3;
  reason_code = codes "user_request";
})

abbrev pub tombstone_payload : Payload
tombstone_payload =
    tombstoned (record { previous_revision = 1; memory = forgotten }) ForgetMode.logical

abbrev pub branch_payload : Payload
branch_payload = branch_created branch_state

abbrev pub event_1 : MemoryEvent
event_1 = record {
  schema_version = 1;
  payload_version = 1;
  sequence = 1;
  event_id = id 11;
  tenant_id = tenant;
  lineage_id = lineage;
  branch_id = branch;
  actor_id = id 7;
  client_id = id 8;
  operation = EventOperation.branch_created;
  memory_id = none;
  expected_revision = none;
  causation_event_id = none;
  payload = done;
  payload_canonical = codes "{}";
  payload_sha256 = codes "{}";
  command_sha256 = codes "{}";
  created_at = 1;
}

abbrev pub event_2 : MemoryEvent
event_2 = record event_1 {
  sequence = 2;
  event_id = id 12;
  operation = EventOperation.remembered;
  memory_id = some memory;
  causation_event_id = some (id 11);
  created_at = 2;
}

abbrev pub event_3 : MemoryEvent
event_3 = record event_1 {
  sequence = 3;
  event_id = id 13;
  operation = EventOperation.evidence_redacted;
  memory_id = some memory;
  created_at = 3;
}

abbrev pub event_4 : MemoryEvent
event_4 = record event_1 {
  sequence = 4;
  event_id = id 14;
  operation = EventOperation.tombstoned;
  memory_id = some memory;
  expected_revision = some 1;
  created_at = 4;
}
