-- ===== src/Fold/Memories.antt =====
-- domain/folding.py: `_replace_memory`, `_attach_evidence`, `_create_memory`, `_redact_evidence` and
-- `_attach_candidate_lifecycle_evidence`. A function returns the dicts that the source mutates.
use scalevault.Prelude.{
  Bool, true, ◌&&◌, ◌||◌, not, Option, some, List, [], ◌∷◌, ok, ◌>>=◌, ◌>>◌, or_raise, ◌==◌, ◌!=◌,
  elem, is_some, is_empty, nat_Eq, option_Eq,
}
use scalevault.Prelude.Dict.{Dict, get, put, remove, contains}
use scalevault.Domain.Identifiers.{Uuid}
use scalevault.Domain.Enums.{MemoryStatus, memory_status_Eq}
use scalevault.Domain.Operations.{EventOperation, event_operation_Eq}
use scalevault.Events.States.{MemoryState, EvidenceState}
use scalevault.Events.Payloads.{
  MemoryCreatedPayload, MemoryTransitionPayload, EvidenceRedactedPayload,
}
use scalevault.Events.Envelope.{MemoryEvent, Platform}
use scalevault.Fold.State.{
  Folded, Code, check, fail, missing_memory, invalid_lifecycle, unexpected_revision,
  duplicate_memory, invalid_revision, timestamp_mismatch, evidence_memory_mismatch,
  duplicate_evidence, missing_evidence,
}
use scalevault.Fold.Checks.{check_target, revision_checks, scope_check, is_live}

abbrev pub Memories : Type 0
Memories = Dict Uuid MemoryState

abbrev pub Evidence : Type 0
Evidence = Dict Uuid EvidenceState

-- `required_status is not None and after.status != required_status`, and `preserve_status`
abbrev pub status_checks :
    Option MemoryStatus → Bool → MemoryState → MemoryState → List (Bool × Code)
status_checks required preserve current after =
    (is_some required && some after.status != required, invalid_lifecycle)
    ∷ (preserve && after.status != current.status, invalid_lifecycle)
    ∷ []

unfoldable pub replace_memory :
    Platform
    → MemoryEvent
    → Memories
    → MemoryTransitionPayload
    → Option MemoryStatus
    → Bool
    → Folded Memories
unfolding check_target check or_raise revision_checks get put
replace_memory p e memories t required preserve = do
  check_target p e t.memory
  current ← or_raise (get t.memory.memory_id memories) (fail e missing_memory)
  check e (revision_checks e current t.previous_revision t.memory true)
  check e (status_checks required preserve current t.memory)
  ok (put t.memory.memory_id t.memory memories)

abbrev pub item_checks : MemoryEvent → Uuid → EvidenceState → Evidence → List (Bool × Code)
item_checks e memory item evidence =
    scope_check e item.tenant_id item.lineage_id item.branch_id
    ∷ (item.memory_id != memory, evidence_memory_mismatch)
    ∷ (contains item.evidence_id evidence, duplicate_evidence)
    ∷ (item.created_at != e.created_at, timestamp_mismatch)
    ∷ []

-- The loop over the evidence of a new memory.
unfoldable pub create_evidence :
    MemoryEvent → Uuid → List EvidenceState → Evidence → Folded Evidence
unfolding check get put
create_evidence e memory [] evidence = ok evidence
create_evidence e memory (item ∷ rest) evidence = do
  check e (item_checks e memory item evidence)
  create_evidence e memory rest (put item.evidence_id item evidence)

unfoldable pub creation_checks : MemoryEvent → MemoryState → Memories → List (Bool × Code)
unfolding get
creation_checks e m memories =
    (is_some e.expected_revision, unexpected_revision)
    ∷ (contains m.memory_id memories, duplicate_memory)
    ∷ (m.revision != 1, invalid_revision)
    ∷ (m.created_at != e.created_at || m.updated_at != e.created_at, timestamp_mismatch)
    ∷ (
      e.operation == EventOperation.observed && m.status != MemoryStatus.candidate,
      invalid_lifecycle,
    )
    ∷ (
      e.operation == EventOperation.remembered
          && not (elem m.status (MemoryStatus.candidate ∷ MemoryStatus.active ∷ [])),
      invalid_lifecycle,
    )
    ∷ []

unfoldable pub create_memory :
    Platform
    → MemoryEvent
    → MemoryCreatedPayload
    → Memories
    → Evidence
    → Folded (Memories × Evidence)
unfolding check_target check creation_checks create_evidence put
create_memory p e c memories evidence = do
  check_target p e c.memory
  check e (creation_checks e c.memory memories)
  evidence' ← create_evidence e c.memory.memory_id c.evidence evidence
  ok (put c.memory.memory_id c.memory memories, evidence')

abbrev pub attaching_checks :
    MemoryEvent → EvidenceState → MemoryState → Evidence → List (Bool × Code)
attaching_checks e item target evidence =
    (not (is_live target.status), invalid_lifecycle)
    ∷ (item.created_at != e.created_at, timestamp_mismatch)
    ∷ (contains item.evidence_id evidence, duplicate_evidence)
    ∷ []

-- `item.status != "active"` cannot hold: the class `EvidenceState` has no other status.
unfoldable pub attach_evidence : MemoryEvent → EvidenceState → Memories → Evidence → Folded Evidence
unfolding check or_raise get put
attach_evidence e item memories evidence = do
  check e (
      scope_check e item.tenant_id item.lineage_id item.branch_id
      ∷ (some item.memory_id != e.memory_id, evidence_memory_mismatch)
      ∷ [])
  target ← or_raise (get item.memory_id memories) (fail e missing_memory)
  check e (attaching_checks e item target evidence)
  ok (put item.evidence_id item evidence)

unfoldable pub attach_all : MemoryEvent → List EvidenceState → Memories → Evidence → Folded Evidence
unfolding attach_evidence
attach_all e [] memories evidence = ok evidence
attach_all e (item ∷ rest) memories evidence = do
  evidence' ← attach_evidence e item memories evidence
  attach_all e rest memories evidence'

-- `_attach_candidate_lifecycle_evidence`
unfoldable pub attach_lifecycle_evidence :
    MemoryEvent → List EvidenceState → Memories → Evidence → Folded Evidence
unfolding check attach_all
attach_lifecycle_evidence e items memories evidence = do
  check e (
      (e.operation == EventOperation.candidate_expired && not (is_empty items), invalid_lifecycle)
      ∷ [])
  attach_all e items memories evidence

abbrev pub redaction_checks :
    MemoryEvent → EvidenceRedactedPayload → EvidenceState → List (Bool × Code)
redaction_checks e r current =
    (e.memory_id != some r.memory_id || current.memory_id != r.memory_id, evidence_memory_mismatch)
    ∷ (r.redacted_at != e.created_at, timestamp_mismatch)
    ∷ []

unfoldable pub redact_evidence : MemoryEvent → EvidenceRedactedPayload → Evidence → Folded Evidence
unfolding check or_raise get remove
redact_evidence e r evidence = do
  current ← or_raise (get r.evidence_id evidence) (fail e missing_evidence)
  check e (redaction_checks e r current)
  ok (remove r.evidence_id evidence)
