-- ===== src/Fold/Operations.antt =====
-- domain/folding.py: the arms of the `match` in `_fold_event`.
use scalevault.Prelude.{
  Bool, true, false, ◌&&◌, not, none, some, List, [], ◌∷◌, ok, ◌>>=◌, ◌>>◌, or_raise, ◌==◌, ◌!=◌,
  elem, any, holds, nat_Eq, option_Eq,
}
use scalevault.Prelude.Dict.{get, values}
use scalevault.Domain.Enums.{MemoryStatus, memory_status_Eq, memory_visibility_Eq}
use scalevault.Events.States.{
  MemoryState, EvidenceState, LinkState, BranchState, ContentProtection, content_protection_Eq,
}
use scalevault.Events.Payloads.{
  MemoryCreatedPayload, MemoryTransitionPayload, CandidateLifecyclePayload, ForgetMode,
  EvidenceRedactedPayload, ConflictPayload, PayloadPurgeCompletedPayload,
}
use scalevault.Events.Envelope.{MemoryEvent, Platform}
use scalevault.Fold.State.{
  Folded, Code, ProjectionState, check, assertion_error, invalid_lifecycle, unchanged_visibility,
  hard_forget_unprotected, unsanitized_tombstone, invalid_purge, timestamp_mismatch,
}
use scalevault.Fold.Checks.{candidate_checks, revised_transitions, is_live}
use scalevault.Fold.Memories.{
  replace_memory, create_memory, attach_evidence, attach_lifecycle_evidence, redact_evidence,
}
use scalevault.Fold.Links.{add_link, unlink, create_branch}
use scalevault.Fold.Conflicts.{open_conflict, resolve_conflict}

-- The checks of `REVISED` and of `VISIBILITY_CHANGED` on the current and the next memory.
unfoldable pub revised_checks : MemoryState → MemoryState → List (Bool × Code)
unfolding revised_transitions
revised_checks current after =
    (not (elem after.status (revised_transitions current.status)), invalid_lifecycle) ∷ []

abbrev pub changed_checks : MemoryState → MemoryState → List (Bool × Code)
changed_checks current after =
    (current.status == MemoryStatus.tombstoned, invalid_lifecycle)
    ∷ (after.visibility == current.visibility, unchanged_visibility)
    ∷ []

abbrev pub is_hard : ForgetMode → Bool
is_hard ForgetMode.logical = false
is_hard ForgetMode.hard = true

abbrev pub is_encrypted : MemoryState → Bool
is_encrypted m = m.content_protection == ContentProtection.envelope_encrypted

abbrev pub can_be_destroyed : MemoryState → MemoryState → Bool
can_be_destroyed after current =
    is_encrypted current && is_encrypted after && after.content_key_id == current.content_key_id

module _ (s : ProjectionState) where
  -- The check on the current memory that `RETIRED` and `SUPERSEDED` make, if there is one.
  abbrev pub ended_check : MemoryTransitionPayload → List (Bool × Code)
  ended_check t =
      (
        holds (λ (m : MemoryState). not (is_live m.status)) (get t.memory.memory_id s.memories),
        invalid_lifecycle,
      )
      ∷ []

  -- `TOMBSTONED`: before the replacement, and of the evidence behind it.
  abbrev pub tombstone_checks : MemoryTransitionPayload → ForgetMode → List (Bool × Code)
  tombstone_checks t mode =
      let current = get t.memory.memory_id s.memories in
      (holds (λ (m : MemoryState). m.status == MemoryStatus.tombstoned) current, invalid_lifecycle)
      ∷ (is_hard mode && not (holds (can_be_destroyed t.memory) current), hard_forget_unprotected)
      ∷ []

  abbrev pub sanitized_checks : MemoryTransitionPayload → List (Bool × Code)
  sanitized_checks t =
      (
        any (λ (i : EvidenceState). i.memory_id == t.memory.memory_id) (values s.evidence),
        unsanitized_tombstone,
      )
      ∷ []

  abbrev pub purge_checks : MemoryEvent → PayloadPurgeCompletedPayload → List (Bool × Code)
  purge_checks e q =
      let after = q.transition.memory in
      let current = get after.memory_id s.memories in
      (
        not (holds (λ (m : MemoryState). m.status == MemoryStatus.tombstoned) current),
        invalid_lifecycle,
      )
      ∷ (not (holds is_encrypted current), invalid_purge)
      ∷ (after.content_protection != ContentProtection.cryptographically_erased, invalid_purge)
      ∷ (after.content_key_id != some q.content_key_id, invalid_purge)
      ∷ (q.key_destroyed_at != e.created_at, timestamp_mismatch)
      ∷ []

module _ (p : Platform) (e : MemoryEvent) (s : ProjectionState) where
  unfoldable pub apply_created : MemoryCreatedPayload → Folded ProjectionState
  unfolding create_memory
  apply_created c = do
    (memories, evidence) ← create_memory p e c s.memories s.evidence
    ok (record s { memories = memories; evidence = evidence })

  -- `CANDIDATE_PROMOTED` and `CANDIDATE_EXPIRED`
  unfoldable pub apply_candidate : CandidateLifecyclePayload → MemoryStatus → Folded ProjectionState
  unfolding replace_memory candidate_checks attach_lifecycle_evidence
  apply_candidate c required = do
    memories ← replace_memory p e s.memories c.transition none false
    current ← or_raise (get c.transition.memory.memory_id s.memories) assertion_error
    check e (candidate_checks current c.transition.memory required)
    evidence ← attach_lifecycle_evidence e c.evidence memories s.evidence
    ok (record s { memories = memories; evidence = evidence })

  unfoldable pub apply_revised : MemoryTransitionPayload → Folded ProjectionState
  unfolding replace_memory revised_checks
  apply_revised t = do
    memories ← replace_memory p e s.memories t none false
    current ← or_raise (get t.memory.memory_id s.memories) assertion_error
    check e (revised_checks current t.memory)
    ok (record s { memories = memories })

  unfoldable pub apply_visibility_changed : MemoryTransitionPayload → Folded ProjectionState
  unfolding replace_memory
  apply_visibility_changed t = do
    memories ← replace_memory p e s.memories t none true
    current ← or_raise (get t.memory.memory_id s.memories) assertion_error
    check e (changed_checks current t.memory)
    ok (record s { memories = memories })

  unfoldable pub apply_retired : MemoryTransitionPayload → Folded ProjectionState
  unfolding replace_memory
  apply_retired t = do
    check e (ended_check s t)
    memories ← replace_memory p e s.memories t (some MemoryStatus.retired) false
    ok (record s { memories = memories })

  unfoldable pub apply_superseded : MemoryTransitionPayload → LinkState → Folded ProjectionState
  unfolding replace_memory add_link
  apply_superseded t l = do
    check e (ended_check s t)
    memories ← replace_memory p e s.memories t (some MemoryStatus.superseded) false
    links ← add_link e l memories s.links
    ok (record s { memories = memories; links = links })

  unfoldable pub apply_tombstoned : MemoryTransitionPayload → ForgetMode → Folded ProjectionState
  unfolding replace_memory values
  apply_tombstoned t mode = do
    check e (tombstone_checks s t mode)
    memories ← replace_memory p e s.memories t (some MemoryStatus.tombstoned) false
    check e (sanitized_checks s t)
    ok (record s { memories = memories })

  unfoldable pub apply_purged : PayloadPurgeCompletedPayload → Folded ProjectionState
  unfolding replace_memory
  apply_purged q = do
    check e (purge_checks s e q)
    memories ← replace_memory p e s.memories q.transition (some MemoryStatus.tombstoned) false
    ok (record s { memories = memories })

  unfoldable pub apply_opened : ConflictPayload → Folded ProjectionState
  unfolding open_conflict
  apply_opened c = do
    (memories, conflicts, members) ← open_conflict e c s.memories s.conflicts s.conflict_members
    ok (record s { memories = memories; conflicts = conflicts; conflict_members = members })

  unfoldable pub apply_resolved : ConflictPayload → Folded ProjectionState
  unfolding resolve_conflict
  apply_resolved c = do
    (memories, conflicts, members) ← resolve_conflict e c s.memories s.conflicts s.conflict_members
    ok (record s { memories = memories; conflicts = conflicts; conflict_members = members })

  unfoldable pub apply_branch : BranchState → Folded ProjectionState
  unfolding create_branch
  apply_branch b = do
    branches ← create_branch e b s.branches s.sequence_scopes
    ok (record s { branches = branches })

  unfoldable pub apply_attached : EvidenceState → Folded ProjectionState
  unfolding attach_evidence
  apply_attached i = do
    evidence ← attach_evidence e i s.memories s.evidence
    ok (record s { evidence = evidence })

  unfoldable pub apply_redacted : EvidenceRedactedPayload → Folded ProjectionState
  unfolding redact_evidence
  apply_redacted r = do
    evidence ← redact_evidence e r s.evidence
    ok (record s { evidence = evidence })

  unfoldable pub apply_linked : LinkState → Folded ProjectionState
  unfolding add_link
  apply_linked l = do links ← add_link e l s.memories s.links; ok (record s { links = links })

  unfoldable pub apply_unlinked : LinkState → Folded ProjectionState
  unfolding unlink
  apply_unlinked l = do links ← unlink e l s.links; ok (record s { links = links })
