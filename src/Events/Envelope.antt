-- ===== src/Events/Envelope.antt =====
-- domain/events.py: the event envelope, its target shape, its typed payload and its hashes.
use scalevault.Prelude.{
  ℕ, Bool, true, false, ◌&&◌, not, ◌≡◌, Option, none, some, List, [], ◌∷◌, Result, ok, err, ◌>>=◌,
  ◌>>◌, raise_if, raise_first, or_raise, map_err, elem, is_some, is_none, ◌!=◌, Text, codes, nat_Eq,
  list_Eq, pos, if◌then◌else◌,
}
use scalevault.Domain.Identifiers.{Uuid}
use scalevault.Domain.Operations.{EventOperation, event_operation_Eq}
use scalevault.Domain.CanonicalJson.{
  Item, Fields, null, uuid, string, integer, mapping, done, field, Bytes, JsonValue, json_object,
  CanonicalJsonError, JsonPlatform, normalize_json_value, canonical_json_bytes,
}
use scalevault.Domain.CanonicalJson.Idempotent.{embed, embed_fields}
use scalevault.Events.States.{Time}
use scalevault.Events.Shape.{ShapeError, ContentPlatform}
use scalevault.Events.Payloads.{Payload, PayloadModel, payload_model, is_instance, payload_checks}

-- What the code calls of other packages: pydantic's parsing of a dict into an instance of a class
-- and its dump of an instance, the JSON serializer and SHA-256 (as hexadecimal digits).
pub record Platform : Type 0 where
  pub json : JsonPlatform
  pub content : ContentPlatform
  pub parse : (m : PayloadModel) → Fields → Option ((p : Payload) × (is_instance m p ≡ true))
  pub model_dump : Payload → Item
  pub sha256_hex : Bytes → Text

pub data ContractError : Type 0 where
  target_shape unsupported_payload not_base64 canonical_mismatch : ContractError
  payload_hash_mismatch command_hash_mismatch not_an_object : ContractError

-- The exceptions of the event contract: `EventContractError`, pydantic's `ValidationError` for a
-- field or a validator, and `CanonicalJsonError`.
pub data EventError : Type 0 where
  contract : ContractError → EventError
  unparsed : EventError
  invalid : ShapeError → EventError
  not_canonical : CanonicalJsonError → EventError

pub record MemoryEvent : Type 0 where
  pub schema_version : ℕ
  pub payload_version : ℕ
  pub sequence : ℕ
  pub event_id : Uuid
  pub tenant_id : Uuid
  pub lineage_id : Uuid
  pub branch_id : Uuid
  pub actor_id : Uuid
  pub client_id : Uuid
  pub operation : EventOperation
  pub memory_id : Option Uuid
  pub expected_revision : Option ℕ
  pub causation_event_id : Option Uuid
  pub payload : Fields
  pub payload_canonical : Text
  pub payload_sha256 : Text
  pub command_sha256 : Text
  pub created_at : Time

abbrev pub create_operations : List EventOperation
create_operations = EventOperation.observed ∷ EventOperation.remembered ∷ []

abbrev pub transition_operations : List EventOperation
transition_operations =
    EventOperation.candidate_promoted ∷ EventOperation.candidate_expired ∷ EventOperation.revised
    ∷ EventOperation.superseded ∷ EventOperation.retired ∷ EventOperation.tombstoned
    ∷ EventOperation.visibility_changed ∷ EventOperation.payload_purge_completed ∷ []

abbrev pub evidence_operations : List EventOperation
evidence_operations = EventOperation.evidence_attached ∷ EventOperation.evidence_redacted ∷ []

abbrev pub aggregate_operations : List EventOperation
aggregate_operations =
    EventOperation.linked ∷ EventOperation.unlinked ∷ EventOperation.conflict_opened
    ∷ EventOperation.conflict_resolved ∷ EventOperation.branch_created ∷ []

-- `validate_event_envelope_shape`
unfoldable pub envelope_is_valid : MemoryEvent → Bool
envelope_is_valid e =
    if elem e.operation create_operations
    then is_some e.memory_id && is_none e.expected_revision
    else if elem e.operation transition_operations
    then is_some e.memory_id && is_some e.expected_revision
    else if elem e.operation evidence_operations
    then is_some e.memory_id && is_none e.expected_revision
    else if elem e.operation aggregate_operations
    then is_none e.memory_id && is_none e.expected_revision
    else false

unfoldable pub validate_event_envelope_shape : MemoryEvent → Result ContractError (Unit {0})
unfolding envelope_is_valid
validate_event_envelope_shape e = raise_if (not (envelope_is_valid e)) target_shape

-- `operation.value`
unfoldable pub operation_value : EventOperation → Text
operation_value EventOperation.observed = codes "observed"
operation_value EventOperation.remembered = codes "remembered"
operation_value EventOperation.candidate_promoted = codes "candidate_promoted"
operation_value EventOperation.candidate_expired = codes "candidate_expired"
operation_value EventOperation.revised = codes "revised"
operation_value EventOperation.linked = codes "linked"
operation_value EventOperation.conflict_opened = codes "conflict_opened"
operation_value EventOperation.conflict_resolved = codes "conflict_resolved"
operation_value EventOperation.superseded = codes "superseded"
operation_value EventOperation.retired = codes "retired"
operation_value EventOperation.tombstoned = codes "tombstoned"
operation_value EventOperation.branch_created = codes "branch_created"
operation_value EventOperation.visibility_changed = codes "visibility_changed"
operation_value EventOperation.evidence_attached = codes "evidence_attached"
operation_value EventOperation.evidence_redacted = codes "evidence_redacted"
operation_value EventOperation.unlinked = codes "unlinked"
operation_value EventOperation.payload_purge_completed = codes "payload_purge_completed"

abbrev pub optional_uuid : Option Uuid → Item
optional_uuid none = null
optional_uuid (some u) = uuid u

abbrev pub optional_number : Option ℕ → Item
optional_number none = null
optional_number (some n) = integer (pos n)

-- The dict of `command_material`.
unfoldable pub command_fields :
    Uuid
    → Uuid
    → Uuid
    → Uuid
    → Uuid
    → EventOperation
    → ℕ
    → Option Uuid
    → Option ℕ
    → Option Uuid
    → Fields
    → Item
unfolding operation_value
command_fields tenant lineage branch actor client operation version memory revision cause payload =
    mapping (
      field (codes "tenant_id") (uuid tenant) (
        field (codes "lineage_id") (uuid lineage) (
          field (codes "branch_id") (uuid branch) (
            field (codes "actor_id") (uuid actor) (
              field (codes "client_id") (uuid client) (
                field (codes "operation") (string (operation_value operation)) (
                  field (codes "payload_version") (integer (pos version)) (
                    field (codes "memory_id") (optional_uuid memory) (
                      field (codes "expected_revision") (optional_number revision) (
                        field (codes "causation_event_id") (optional_uuid cause)
                          (field (codes "payload") (mapping payload) done)))))))))))

-- The dict of `event_hash_fields`.
unfoldable pub hash_fields :
    Uuid
    → Uuid
    → Uuid
    → Uuid
    → Uuid
    → EventOperation
    → ℕ
    → Option Uuid
    → Option ℕ
    → Option Uuid
    → Fields
    → Item
unfolding operation_value
hash_fields tenant lineage branch actor client operation version memory revision cause payload =
    mapping (
      field (codes "tenant_id") (uuid tenant) (
        field (codes "lineage_id") (uuid lineage) (
          field (codes "branch_id") (uuid branch) (
            field (codes "actor_id") (uuid actor) (
              field (codes "client_id") (uuid client) (
                field (codes "operation") (string (operation_value operation)) (
                  field (codes "payload_version") (integer (pos version)) (
                    field (codes "memory_id") (optional_uuid memory) (
                      field (codes "expected_revision") (optional_number revision) (
                        field (codes "causation_event_id") (optional_uuid cause)
                          (field (codes "payload") (mapping payload) done)))))))))))

unfoldable pub command_material : MemoryEvent → Item
unfolding command_fields
command_material e =
    command_fields e.tenant_id e.lineage_id e.branch_id e.actor_id e.client_id e.operation
      e.payload_version e.memory_id e.expected_revision e.causation_event_id e.payload

module _ (p : Platform) where
  -- `model.model_validate(self.payload, strict=False)`
  unfoldable pub model_validate : PayloadModel → Fields → Result EventError Payload
  unfolding payload_checks
  model_validate m fields = do
    (payload, _) ← or_raise (p.parse m fields) unparsed
    map_err invalid (raise_first (payload_checks p.content payload))
    ok payload

  unfoldable pub typed_payload : MemoryEvent → Result EventError Payload
  unfolding payload_model model_validate
  typed_payload e = do
    model ←
        or_raise (payload_model e.operation e.schema_version e.payload_version)
          (contract unsupported_payload)
    model_validate model e.payload

  -- `canonical_json_bytes(value.canonical_value())`: the value is normalized, and then again.
  unfoldable pub canonical_bytes : Item → Result EventError Bytes
  unfolding normalize_json_value canonical_json_bytes embed
  canonical_bytes x = do
    v ← map_err not_canonical (normalize_json_value p.json x)
    map_err not_canonical (canonical_json_bytes p.json (embed v))

  unfoldable pub verify_hashes : MemoryEvent → Result EventError (Unit {0})
  unfolding typed_payload canonical_bytes command_material
  verify_hashes e = do
    typed ← typed_payload e
    canonical ← canonical_bytes (p.model_dump typed)
    recorded ← or_raise (p.content.b64decode e.payload_canonical) (contract not_base64)
    raise_if (recorded != canonical) (contract canonical_mismatch)
    raise_if (p.sha256_hex canonical != e.payload_sha256) (contract payload_hash_mismatch)
    command ← canonical_bytes (command_material e)
    raise_if (p.sha256_hex command != e.command_sha256) (contract command_hash_mismatch)

  abbrev pub object_fields : JsonValue → Result EventError Fields
  object_fields (json_object fs) = ok (embed_fields fs)
  object_fields _ = err (contract not_an_object)

  -- `event_hash_fields`: the payload value, its canonical bytes and the two hashes.
  unfoldable pub event_hash_fields :
      EventOperation
      → Payload
      → Uuid
      → Uuid
      → Uuid
      → Uuid
      → Uuid
      → Option Uuid
      → Option ℕ
      → Option Uuid
      → ℕ
      → Result EventError (Fields × Text × Text × Text)
  unfolding embed hash_fields canonical_bytes
  event_hash_fields operation payload tenant lineage branch actor client memory revision cause
        version =
      do
        value ← map_err not_canonical (normalize_json_value p.json (p.model_dump payload))
        fields ← object_fields value
        bytes ← map_err not_canonical (canonical_json_bytes p.json (embed value))
        command ← canonical_bytes (
            hash_fields tenant lineage branch actor client operation version memory revision cause
              fields)
        ok (fields, p.content.b64encode bytes, p.sha256_hex bytes, p.sha256_hex command)
