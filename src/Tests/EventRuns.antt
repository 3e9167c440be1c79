-- ===== src/Tests/EventRuns.antt =====
-- Runs of the event hashes.
use mathlib.Core.List.{flat_map}
use scalevault.Prelude.{◌≡◌, refl, ok, raise_if, or_raise, raise_first}
use scalevault.Domain.Identifiers.{is_uuid7}
use scalevault.Events.Envelope.{verify_hashes, event_hash_fields, typed_payload}
use scalevault.Events.Hashes.{DecodesBase64, event_hash_fields-verify_hashes}
use scalevault.Tests.Samples.{event_2, created_payload}
use scalevault.Tests.Platforms.{platform}

decodes : DecodesBase64 platform
decodes b = refl

hashed :
    event_hash_fields platform event_2.operation created_payload event_2.tenant_id
      event_2.lineage_id event_2.branch_id event_2.actor_id event_2.client_id event_2.memory_id
      event_2.expected_revision event_2.causation_event_id event_2.payload_version
    ≡ ok
        (event_2.payload, event_2.payload_canonical, event_2.payload_sha256, event_2.command_sha256)
unfolding event_hash_fields is_uuid7 raise_if flat_map or_raise
hashed = refl

typed : typed_payload platform event_2 ≡ ok created_payload
unfolding typed_payload is_uuid7 raise_if flat_map or_raise raise_first
typed = refl

event_hash_fields-verify_hashes_example : verify_hashes platform event_2 ≡ ok tt
event_hash_fields-verify_hashes_example =
    event_hash_fields-verify_hashes platform event_2 created_payload decodes hashed typed
