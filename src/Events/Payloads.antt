-- ===== src/Events/Payloads.antt =====
-- domain/events.py: the payload classes, the table of the classes by operation and version, and the
-- validators.
use scalevault.Prelude.{
  ℕ, Bool, true, false, ◌&&◌, ◌||◌, not, Option, none, some, List, [], ◌∷◌, ◌++◌, map, nat_eq, ltb,
  any, all, all_unique, length, Text, nat_Eq, if◌then◌else◌, leb,
}
use mathlib.Core.List.{flat_map}
use scalevault.Domain.Identifiers.{Uuid, is_uuid7}
use scalevault.Domain.Operations.{EventOperation}
use scalevault.Events.States.{
  MemoryState, StateVersion, v1, v2, v3, EvidenceState, LinkState, ConflictState,
  ConflictMemberState, BranchState, Time,
}
use scalevault.Events.Shape.{
  Checks, require, safe_positive, is_hex_digest, ContentPlatform, too_few_members, foreign_member,
  duplicate_evidence_id,
}
use scalevault.Events.Shape.Memory.{memory_checks}
use scalevault.Events.Shape.Parts.{
  evidence_checks, link_checks, conflict_checks, conflict_member_checks, branch_checks,
}

pub record MemoryCreatedPayload : Type 0 where
  pub memory : MemoryState
  pub evidence : List EvidenceState

pub record MemoryTransitionPayload : Type 0 where
  pub previous_revision : ℕ
  pub memory : MemoryState

pub record CandidateLifecyclePayload : Type 0 where
  pub transition : MemoryTransitionPayload
  pub selection_decision_id : Uuid
  pub policy_rule_code : Text
  pub evidence : List EvidenceState

pub data ForgetMode : Type 0 where
  logical hard : ForgetMode

pub record EvidenceRedactedPayload : Type 0 where
  pub evidence_id : Uuid
  pub memory_id : Uuid
  pub redacted_at : Time
  pub reason_code : Text

-- `AffectedMemory` has the fields of a transition.
abbrev pub AffectedMemory : Type 0
AffectedMemory = MemoryTransitionPayload

-- `ConflictOpenedPayload` and `ConflictResolvedPayload`
pub record ConflictPayload : Type 0 where
  pub conflict : ConflictState
  pub members : List ConflictMemberState
  pub affected_memories : List AffectedMemory

pub record PayloadPurgeCompletedPayload : Type 0 where
  pub transition : MemoryTransitionPayload
  pub content_key_id : Uuid
  pub key_destroyed_at : Time
  pub destruction_receipt_sha256 : Text

-- A payload by its class; the classes of later versions differ in the class of their memory.
pub data Payload : Type 0 where
  memory_created : MemoryCreatedPayload → Payload
  memory_transition : MemoryTransitionPayload → Payload
  candidate_lifecycle : CandidateLifecyclePayload → Payload
  superseded : MemoryTransitionPayload → LinkState → Payload
  tombstoned : MemoryTransitionPayload → ForgetMode → Payload
  evidence_attached : EvidenceState → Payload
  evidence_redacted : EvidenceRedactedPayload → Payload
  linked unlinked : LinkState → Payload
  conflict_opened conflict_resolved : ConflictPayload → Payload
  branch_created : BranchState → Payload
  purge_completed : PayloadPurgeCompletedPayload → Payload

pub data PayloadModel : Type 0 where
  created created_v2 created_v3 transition lifecycle supersession tombstone : PayloadModel
  tombstone_v3 attached redacted link unlink conflict_open conflict_resolve branch : PayloadModel
  purge purge_v3 : PayloadModel

-- `PAYLOAD_MODELS.get((operation, schema_version, payload_version))`
abbrev pub pick : ℕ → ℕ → List (ℕ × PayloadModel) → Option PayloadModel
pick schema version [] = none
pick schema version ((v, m) ∷ rest) =
    if nat_eq schema v && nat_eq version v then some m else pick schema version rest

unfoldable pub payload_model : EventOperation → ℕ → ℕ → Option PayloadModel
payload_model EventOperation.observed s v =
    pick s v ((1, created) ∷ (2, created_v2) ∷ (3, created_v3) ∷ [])
payload_model EventOperation.remembered s v =
    pick s v ((1, created) ∷ (2, created_v2) ∷ (3, created_v3) ∷ [])
payload_model EventOperation.candidate_promoted s v = pick s v ((2, lifecycle) ∷ [])
payload_model EventOperation.candidate_expired s v = pick s v ((2, lifecycle) ∷ [])
payload_model EventOperation.revised s v = pick s v ((1, transition) ∷ [])
payload_model EventOperation.linked s v = pick s v ((1, link) ∷ [])
payload_model EventOperation.evidence_attached s v = pick s v ((1, attached) ∷ [])
payload_model EventOperation.evidence_redacted s v = pick s v ((1, redacted) ∷ [])
payload_model EventOperation.unlinked s v = pick s v ((1, unlink) ∷ [])
payload_model EventOperation.conflict_opened s v = pick s v ((1, conflict_open) ∷ [])
payload_model EventOperation.conflict_resolved s v = pick s v ((1, conflict_resolve) ∷ [])
payload_model EventOperation.superseded s v = pick s v ((1, supersession) ∷ [])
payload_model EventOperation.retired s v = pick s v ((1, transition) ∷ [])
payload_model EventOperation.tombstoned s v = pick s v ((1, tombstone) ∷ (3, tombstone_v3) ∷ [])
payload_model EventOperation.branch_created s v = pick s v ((1, branch) ∷ [])
payload_model EventOperation.visibility_changed s v = pick s v ((1, transition) ∷ [])
payload_model EventOperation.payload_purge_completed s v =
    pick s v ((1, purge) ∷ (3, purge_v3) ∷ [])

abbrev pub has_version : ℕ → StateVersion → Bool
has_version n v1 = nat_eq n 1
has_version n (v2 t) = nat_eq n 2
has_version n (v3 t e) = nat_eq n 3

abbrev pub all_v1 : List AffectedMemory → Bool
all_v1 = all (λ t. has_version 1 t.memory.version)

-- `isinstance(payload, model)`, with the class that the model gives the memory.
abbrev pub is_instance : PayloadModel → Payload → Bool
is_instance created (memory_created c) = has_version 1 c.memory.version
is_instance created_v2 (memory_created c) = has_version 2 c.memory.version
is_instance created_v3 (memory_created c) =
    has_version 3 c.memory.version && nat_eq (length c.evidence) 0
is_instance transition (memory_transition t) = has_version 1 t.memory.version
is_instance lifecycle (candidate_lifecycle c) = has_version 2 c.transition.memory.version
is_instance supersession (superseded t l) = has_version 1 t.memory.version
is_instance tombstone (tombstoned t f) = has_version 1 t.memory.version
is_instance tombstone_v3 (tombstoned t f) = has_version 3 t.memory.version
is_instance attached (evidence_attached e) = true
is_instance redacted (evidence_redacted e) = true
is_instance link (linked l) = true
is_instance unlink (unlinked l) = true
is_instance conflict_open (conflict_opened c) = all_v1 c.affected_memories
is_instance conflict_resolve (conflict_resolved c) = all_v1 c.affected_memories
is_instance branch (branch_created b) = true
is_instance purge (purge_completed p) = has_version 1 p.transition.memory.version
is_instance purge_v3 (purge_completed p) = has_version 3 p.transition.memory.version
is_instance _ _ = false

-- `_validate_conflict_members`
unfoldable pub conflict_membership_checks : ConflictState → List ConflictMemberState → Checks
conflict_membership_checks c members =
    let ids = map (λ (m : ConflictMemberState). m.memory_id) members in
    (ltb (length members) 2 || not (all_unique ids), too_few_members)
    ∷ (any (λ m. not (nat_eq m.conflict_id c.conflict_id)) members, foreign_member)
    ∷ []

abbrev pub is_code_character : ℕ → Bool
is_code_character c = leb b'a' c && leb c b'z' || leb b'0' c && leb c b'9' || nat_eq c b'_'

-- `^[a-z][a-z0-9_]*$` with at most 64 characters
abbrev pub is_code : Text → Bool
is_code [] = false
is_code (c ∷ s) = leb b'a' c && leb c b'z' && all is_code_character s && leb (length (c ∷ s)) 64

module _ (p : ContentPlatform) where
  transition_checks : MemoryTransitionPayload → Checks
  unfolding memory_checks
  transition_checks t = require (safe_positive t.previous_revision) ∷ memory_checks p t.memory

  conflict_payload_checks : ConflictPayload → Checks
  unfolding transition_checks conflict_membership_checks conflict_checks conflict_member_checks
  conflict_payload_checks c =
      conflict_checks c.conflict
      ++ (flat_map conflict_member_checks c.members
          ++ (flat_map transition_checks c.affected_memories
              ++ conflict_membership_checks c.conflict c.members))

  -- The checks of the field types and the validators of a payload's class.
  unfoldable pub payload_checks : Payload → Checks
  unfolding transition_checks conflict_payload_checks memory_checks evidence_checks link_checks
      branch_checks
  payload_checks (memory_created c) =
      memory_checks p c.memory ++ flat_map evidence_checks c.evidence
  payload_checks (memory_transition t) = transition_checks t
  payload_checks (candidate_lifecycle c) =
      transition_checks c.transition
      ++ (flat_map evidence_checks c.evidence
          ++ require (is_uuid7 c.selection_decision_id)
            ∷ require (is_code c.policy_rule_code)
            ∷ require (leb (length c.evidence) 32)
            ∷ (
              not (all_unique (map (λ (e : EvidenceState). e.evidence_id) c.evidence)),
              duplicate_evidence_id,
            )
            ∷ [])
  payload_checks (superseded t l) = transition_checks t ++ link_checks l
  payload_checks (tombstoned t f) = transition_checks t
  payload_checks (evidence_attached e) = evidence_checks e
  payload_checks (evidence_redacted e) =
      require (is_uuid7 e.evidence_id)
      ∷ require (is_uuid7 e.memory_id)
      ∷ require (is_code e.reason_code)
      ∷ []
  payload_checks (linked l) = link_checks l
  payload_checks (unlinked l) = link_checks l
  payload_checks (conflict_opened c) = conflict_payload_checks c
  payload_checks (conflict_resolved c) = conflict_payload_checks c
  payload_checks (branch_created b) = branch_checks b
  payload_checks (purge_completed q) =
      transition_checks q.transition
      ++ require (is_uuid7 q.content_key_id)
        ∷ require (is_hex_digest q.destruction_receipt_sha256)
        ∷ []
