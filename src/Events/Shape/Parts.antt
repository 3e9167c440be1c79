-- ===== src/Events/Shape/Parts.antt =====
-- domain/events.py: the validators of evidence, links, conflicts and branches.
use scalevault.Prelude.{
  ◌&&◌, ◌||◌, not, [], ◌∷◌, ltb, nat_eq, is_some, is_none, holds, list_Eq, nat_Eq,
}
use mathlib.Core.Bool.{xor}
use scalevault.Domain.Identifiers.{is_uuid7}
use scalevault.Domain.Enums.{
  ontological_status_Eq, memory_scope_Eq, memory_visibility_Eq, memory_status_Eq,
}
use scalevault.Domain.Operations.{authority_class_Eq, subject_kind_Eq}
use scalevault.Events.States.{
  content_protection_Eq, EvidenceState, LinkState, ConflictState, ConflictMemberState, BranchState,
}
use scalevault.Events.Shape.{
  Checks, require, safe_positive, sized, optional, is_hex_digest, properties, blank, same_presence,
  is_unlinked, is_resolved, too_many_properties, self_link, unlinked_time, resolution_missing,
  resolution_present, parent_pair, self_parent,
}

unfoldable pub evidence_checks : EvidenceState → Checks
evidence_checks e =
    require (is_uuid7 e.evidence_id)
    ∷ require (is_uuid7 e.tenant_id)
    ∷ require (is_uuid7 e.lineage_id)
    ∷ require (is_uuid7 e.branch_id)
    ∷ require (is_uuid7 e.memory_id)
    ∷ require (sized 1 64 e.source_type)
    ∷ require (optional (sized 1 4096) e.excerpt)
    ∷ require (optional is_hex_digest e.content_sha256)
    ∷ require (sized 1 64 e.trust_classification)
    ∷ (ltb 64 (properties e.source_reference), too_many_properties)
    ∷ (ltb 128 (properties e.metadata), too_many_properties)
    ∷ []

unfoldable pub link_checks : LinkState → Checks
link_checks l =
    require (is_uuid7 l.link_id)
    ∷ require (is_uuid7 l.tenant_id)
    ∷ require (is_uuid7 l.lineage_id)
    ∷ require (is_uuid7 l.branch_id)
    ∷ require (is_uuid7 l.source_memory_id)
    ∷ require (is_uuid7 l.target_memory_id)
    ∷ (nat_eq l.source_memory_id l.target_memory_id, self_link)
    ∷ (xor (is_unlinked l.status) (is_some l.unlinked_at), unlinked_time)
    ∷ (ltb 128 (properties l.metadata), too_many_properties)
    ∷ []

unfoldable pub conflict_member_checks : ConflictMemberState → Checks
conflict_member_checks m =
    require (is_uuid7 m.conflict_id)
    ∷ require (is_uuid7 m.memory_id)
    ∷ require (sized 1 64 m.disposition)
    ∷ []

unfoldable pub conflict_checks : ConflictState → Checks
conflict_checks c =
    require (is_uuid7 c.conflict_id)
    ∷ require (is_uuid7 c.tenant_id)
    ∷ require (is_uuid7 c.lineage_id)
    ∷ require (is_uuid7 c.branch_id)
    ∷ require (is_uuid7 c.subject_id)
    ∷ require (sized 1 4096 c.reason)
    ∷ require (optional (sized 1 64) c.resolution_kind)
    ∷ require (optional (sized 1 4096) c.resolution_rationale)
    ∷ (
      is_resolved c.status && (is_none c.resolved_at || blank c.resolution_kind),
      resolution_missing,
    )
    ∷ (
      not (is_resolved c.status)
          && (is_some c.resolved_at || is_some c.resolution_kind || is_some c.resolution_rationale),
      resolution_present,
    )
    ∷ (ltb 128 (properties c.metadata), too_many_properties)
    ∷ []

unfoldable pub branch_checks : BranchState → Checks
branch_checks b =
    require (is_uuid7 b.branch_id)
    ∷ require (is_uuid7 b.tenant_id)
    ∷ require (is_uuid7 b.lineage_id)
    ∷ require (optional is_uuid7 b.parent_branch_id)
    ∷ require (optional safe_positive b.fork_event_sequence)
    ∷ require (sized 1 255 b.name)
    ∷ (not (same_presence b.parent_branch_id b.fork_event_sequence), parent_pair)
    ∷ (holds (λ p. nat_eq p b.branch_id) b.parent_branch_id, self_parent)
    ∷ []
