-- ===== src/Fold/Checks.antt =====
-- domain/folding.py: `_check_scoped_after_image`, `_check_target`, `_check_revision` and the
-- lifecycle checks.
use scalevault.Prelude.{
  ℕ, ◌+◌, Bool, true, false, ◌&&◌, ◌||◌, not, Option, none, some, List, [], ◌∷◌, ok, ◌>>=◌, ◌>>◌,
  map_err, ◌==◌, ◌!=◌, elem, is_some, nat_Eq, option_Eq, list_Eq, triple_Eq, codes, pos,
  if◌then◌else◌,
}
use scalevault.Domain.Identifiers.{Uuid}
use scalevault.Domain.Enums.{MemoryStatus, memory_status_Eq}
use scalevault.Domain.Operations.{EventOperation, event_operation_Eq}
use scalevault.Domain.CanonicalJson.{
  Item, string, uuid, integer, null, mapping, done, field, canonical_json_bytes,
}
use scalevault.Events.States.{
  MemoryState, StateVersion, v3, SealedContentEnvelopeState, ContentProtection,
  content_protection_Eq, is_v3, sealed_content_of, candidate_expires_at,
}
use scalevault.Events.Envelope.{MemoryEvent, Platform, not_canonical}
use scalevault.Fold.State.{
  Code, Folded, event_error, ScopeKey, check, scope_of, scope_mismatch, memory_mismatch,
  invalid_sealed_contract, invalid_sealed_binding, expected_revision_mismatch, stale_event_revision,
  invalid_revision, identity_changed, sealed_identity_changed, unsupported_sealed_transition,
  timestamp_mismatch, invalid_lifecycle,
}

-- `_check_scoped_after_image`, at the item's tenant, lineage and branch.
abbrev pub scope_check : MemoryEvent → Uuid → Uuid → Uuid → Bool × Code
scope_check e tenant lineage branch =
    (◌!=◌ {A = ScopeKey} (tenant, lineage, branch) (scope_of e), scope_mismatch)

abbrev pub envelope_eq : SealedContentEnvelopeState → SealedContentEnvelopeState → Bool
envelope_eq a b =
    a.content_key_id == b.content_key_id
    && a.nonce == b.nonce
    && a.ciphertext == b.ciphertext
    && a.aad_sha256 == b.aad_sha256
    && a.safe_summary == b.safe_summary

abbrev pub content_key : Option Uuid → Item
content_key none = null
content_key (some u) = uuid u

-- The additional authenticated data of a sealed memory.
unfoldable pub sealed_aad : MemoryEvent → MemoryState → Item
sealed_aad e m = mapping (
    field (codes "aad_contract") (string (codes "scalevault.sealed-content-aad.v1")) (
      field (codes "algorithm") (string (codes "AES-256-GCM")) (
        field (codes "branch_id") (uuid e.branch_id) (
          field (codes "content_key_id") (content_key m.content_key_id) (
            field (codes "event_id") (uuid e.event_id) (
              field (codes "lineage_id") (uuid e.lineage_id) (
                field (codes "memory_id") (uuid m.memory_id) (
                  field (codes "payload_version") (integer (pos e.payload_version)) (
                    field (codes "revision") (integer (pos m.revision)) (
                      field (codes "schema_version") (integer (pos e.schema_version))
                        (field (codes "tenant_id") (uuid e.tenant_id) done)))))))))))

module _ (p : Platform) (e : MemoryEvent) where
  unfoldable pub check_binding : MemoryState → SealedContentEnvelopeState → Folded (Unit {0})
  unfolding sealed_aad canonical_json_bytes
  check_binding m sealed = do
    check e ((e.schema_version != 3 || e.payload_version != 3, invalid_sealed_contract) ∷ [])
    aad ←
        map_err (λ x. event_error (not_canonical x)) (canonical_json_bytes p.json (sealed_aad e m))
    check e ((p.sha256_hex aad != sealed.aad_sha256, invalid_sealed_binding) ∷ [])

  unfoldable pub check_sealing : MemoryState → StateVersion → Folded (Unit {0})
  unfolding check_binding
  check_sealing m (v3 t sealed) =
      if m.content_protection == ContentProtection.envelope_encrypted
        && elem e.operation (EventOperation.observed ∷ EventOperation.remembered ∷ [])
      then check_binding m sealed
      else ok tt
  check_sealing m _ = ok tt

  -- `_check_target`
  unfoldable pub check_target : MemoryState → Folded (Unit {0})
  unfolding check_sealing
  check_target m = do
    check e (
        scope_check e m.tenant_id m.lineage_id m.branch_id
        ∷ (e.memory_id != some m.memory_id, memory_mismatch)
        ∷ [])
    check_sealing m m.version

abbrev pub purge_operations : List EventOperation
purge_operations = EventOperation.tombstoned ∷ EventOperation.payload_purge_completed ∷ []

abbrev pub same_envelope :
    Option SealedContentEnvelopeState → Option SealedContentEnvelopeState → Bool
same_envelope none none = true
same_envelope (some a) (some b) = envelope_eq a b
same_envelope _ _ = false

-- `_check_revision`
unfoldable pub revision_checks :
    MemoryEvent → MemoryState → ℕ → MemoryState → Bool → List (Bool × Code)
revision_checks e current previous after check_envelope =
    let sealed = is_v3 current || is_v3 after in
    (check_envelope && e.expected_revision != some previous, expected_revision_mismatch)
    ∷ (current.revision != previous, stale_event_revision)
    ∷ (after.revision != previous + 1, invalid_revision)
    ∷ (after.memory_id != current.memory_id, identity_changed)
    ∷ (after.tenant_id != current.tenant_id, identity_changed)
    ∷ (after.lineage_id != current.lineage_id, identity_changed)
    ∷ (after.branch_id != current.branch_id, identity_changed)
    ∷ (after.subject_id != current.subject_id, identity_changed)
    ∷ (after.created_at != current.created_at, identity_changed)
    ∷ (sealed && not (is_v3 current && is_v3 after), sealed_identity_changed)
    ∷ (sealed && not (elem e.operation purge_operations), unsupported_sealed_transition)
    ∷ (
      sealed
          && (after.content_key_id != current.content_key_id
              || not (
                  same_envelope (sealed_content_of after.version)
                    (sealed_content_of current.version))),
      sealed_identity_changed,
    )
    ∷ (after.updated_at != e.created_at, timestamp_mismatch)
    ∷ []

-- `status in {CANDIDATE, ACTIVE, DISPUTED}`
abbrev pub is_live : MemoryStatus → Bool
is_live s = elem s (MemoryStatus.candidate ∷ MemoryStatus.active ∷ MemoryStatus.disputed ∷ [])

-- `_REVISED_TRANSITIONS.get(status, frozenset())`
unfoldable pub revised_transitions : MemoryStatus → List MemoryStatus
revised_transitions MemoryStatus.candidate =
    MemoryStatus.candidate ∷ MemoryStatus.active ∷ MemoryStatus.disputed ∷ []
revised_transitions MemoryStatus.active = MemoryStatus.active ∷ MemoryStatus.disputed ∷ []
revised_transitions MemoryStatus.disputed = MemoryStatus.disputed ∷ MemoryStatus.active ∷ []
revised_transitions _ = []

-- `_check_candidate_lifecycle`
unfoldable pub candidate_checks : MemoryState → MemoryState → MemoryStatus → List (Bool × Code)
candidate_checks current after required =
    (current.status != MemoryStatus.candidate, invalid_lifecycle)
    ∷ (after.status != required, invalid_lifecycle)
    ∷ (is_some (candidate_expires_at after), invalid_lifecycle)
    ∷ []
