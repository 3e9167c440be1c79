-- ===== src/Fold/Change/Event.antt =====
-- What an event does to the memories, by its operation.
use scalevault.Prelude.{
  ◌≡◌, refl, ap, Bool, true, false, ok, found, >>=-eq-ok, >>-eq-ok, [], ◌∷◌, ◌∙◌, ok-injective, ◌⊎◌,
  inl, inr, nat_Eq, pair_Eq, arith,
}
use scalevault.Prelude.Dict.{get}
use scalevault.Domain.Enums.{MemoryStatus}
use scalevault.Domain.Operations.{EventOperation}
use scalevault.Events.States.{BranchState, EvidenceState, LinkState}
use scalevault.Events.Payloads.{
  Payload, MemoryCreatedPayload, EvidenceRedactedPayload, ConflictPayload, memory_created,
  candidate_lifecycle, superseded, tombstoned, evidence_attached, evidence_redacted, linked,
  unlinked, conflict_opened, conflict_resolved, branch_created, purge_completed,
}
use scalevault.Events.Envelope.{MemoryEvent, Platform}
use scalevault.Fold.State.{ProjectionState, checked, fail, assertion_error, missing_conflict}
use scalevault.Fold.Memories.{Memories, create_memory}
use scalevault.Fold.Conflicts.{
  open_conflict, resolve_conflict, apply_affected, Conflicts, Members, opening_checks,
  joining_checks, affected_check, conflict_scope, resolution_checks, check_joined, check_subjects,
  member_ids, join_members,
}
use scalevault.Fold.Operations.{
  apply_created, apply_opened, apply_resolved, apply_branch, apply_attached, apply_redacted,
  apply_linked, apply_unlinked, apply_revised, apply_visibility_changed, apply_retired,
}
use scalevault.Fold.Step.{apply_operation, transition_of}
use scalevault.Fold.Change.{Changes, Changes-refl, follows, lives_on}
use scalevault.Fold.Change.Affected.{affected-Changes}
use scalevault.Fold.Change.Arms.{
  create_memory-Changes, candidate-Changes, revised-Changes, visibility_changed-Changes,
  retired-Changes, superseded-Changes, tombstoned-Changes, purged-Changes,
}

-- Only `TOMBSTONED` may forget a memory.
abbrev pub allowed : EventOperation → MemoryStatus → MemoryStatus → Bool
allowed EventOperation.tombstoned = follows
allowed _ = lives_on

module _ (p : Platform) (e : MemoryEvent) (s r : ProjectionState) where
  -- An arm that keeps the memories.
  pub same_memories : r.memories ≡ s.memories → Changes lives_on e s.memories r.memories
  same_memories h = rw h (Changes-refl lives_on e s.memories)

  created-Changes :
      (c : MemoryCreatedPayload)
      → (e.operation ≡ EventOperation.observed) ⊎ (e.operation ≡ EventOperation.remembered)
      → apply_created p e s c ≡ ok r
      → Changes lives_on e s.memories r.memories
  unfolding apply_created
  created-Changes c op h =
      let ((memories, evidence), h1, h2) =
        >>=-eq-ok (create_memory p e c s.memories s.evidence) _ h in
      rw (ap (λ (x : ProjectionState). x.memories) (ok-injective h2))
        (create_memory-Changes p e c s.memories memories s.evidence evidence op h1)

  pub opened-Changes :
      (c : ConflictPayload) → apply_opened p e s c ≡ ok r → Changes lives_on e s.memories r.memories
  unfolding apply_opened open_conflict
  opened-Changes c h =
      let ((memories, conflicts, members), h1, h2) =
        >>=-eq-ok (open_conflict e c s.memories s.conflicts s.conflict_members) _ h in
      let (checks, h3) = checked e (opening_checks e c.conflict s.conflicts) _ h1 in
      let ((ids, after), h4, h5) =
        >>=-eq-ok (apply_affected e true c.affected_memories [] s.memories) _ h3 in
      let (joining, h6) = checked e (joining_checks e ids c.members) _ h5 in
      let (subjects, h7) =
        >>-eq-ok (check_subjects e c.conflict.subject_id (member_ids c.members) after) _ h6 in
      let (joined, h8, h9) = >>=-eq-ok (join_members e c.members s.conflict_members) _ h7 in
      let same : r.memories ≡ after =
        ap (λ (x : ProjectionState). x.memories) (ok-injective h2)
        ∙ ap (λ (x : Memories × Conflicts × Members). x.0) (ok-injective h9) in
      rw same (affected-Changes p e true c.affected_memories ids s.memories after h4)

  pub resolved-Changes :
      (c : ConflictPayload)
      → apply_resolved p e s c ≡ ok r
      → Changes lives_on e s.memories r.memories
  unfolding apply_resolved resolve_conflict
  resolved-Changes c h =
      let ((memories, conflicts, members), h1, h2) =
        >>=-eq-ok (resolve_conflict e c s.memories s.conflicts s.conflict_members) _ h in
      let (scope, h3) = checked e (conflict_scope e c.conflict) _ h1 in
      let (current, held, h4) =
        found (get c.conflict.conflict_id s.conflicts) (fail e missing_conflict) _ h3 in
      let (checks, h5) = checked e (resolution_checks e c current s.conflict_members) _ h4 in
      let (joined, h6) = >>-eq-ok (check_joined e c.members s.conflict_members) _ h5 in
      let ((ids, after), h7, h8) =
        >>=-eq-ok (apply_affected e false c.affected_memories [] s.memories) _ h6 in
      let (agreed, h9) = checked e (affected_check ids c.members ∷ []) _ h8 in
      let same : r.memories ≡ after =
        ap (λ (x : ProjectionState). x.memories) (ok-injective h2)
        ∙ ap (λ (x : Memories × Conflicts × Members). x.0) (ok-injective h9) in
      rw same (affected-Changes p e false c.affected_memories ids s.memories after h7)

  pub branch-same : (b : BranchState) → apply_branch p e s b ≡ ok r → r.memories ≡ s.memories
  unfolding apply_branch
  branch-same b h = ground arith

  pub attached-same : (i : EvidenceState) → apply_attached p e s i ≡ ok r → r.memories ≡ s.memories
  unfolding apply_attached
  attached-same i h = ground arith

  pub redacted-same :
      (x : EvidenceRedactedPayload) → apply_redacted p e s x ≡ ok r → r.memories ≡ s.memories
  unfolding apply_redacted
  redacted-same x h = ground arith

  pub linked-same : (l : LinkState) → apply_linked p e s l ≡ ok r → r.memories ≡ s.memories
  unfolding apply_linked
  linked-same l h = ground arith

  pub unlinked-same : (l : LinkState) → apply_unlinked p e s l ≡ ok r → r.memories ≡ s.memories
  unfolding apply_unlinked
  unlinked-same l h = ground arith

  pub operation-Changes :
      (op : EventOperation) (payload : Payload)
      → e.operation ≡ op
      → apply_operation p e s op payload ≡ ok r
      → Changes (allowed op) e s.memories r.memories
  unfolding apply_operation
  operation-Changes EventOperation.observed (memory_created c) o h = created-Changes c (inl o) h
  operation-Changes EventOperation.remembered (memory_created c) o h = created-Changes c (inr o) h
  operation-Changes EventOperation.candidate_promoted (candidate_lifecycle c) o h =
      candidate-Changes p e s r c MemoryStatus.active refl h
  operation-Changes EventOperation.candidate_expired (candidate_lifecycle c) o h =
      candidate-Changes p e s r c MemoryStatus.retired refl h
  operation-Changes EventOperation.revised payload o h =
      let (t, class, k) = found (transition_of payload) assertion_error (apply_revised p e s) h in
      revised-Changes p e s r t k
  operation-Changes EventOperation.visibility_changed payload o h =
      let (t, class, k) =
        found (transition_of payload) assertion_error (apply_visibility_changed p e s) h in
      visibility_changed-Changes p e s r t k
  operation-Changes EventOperation.retired payload o h =
      let (t, class, k) = found (transition_of payload) assertion_error (apply_retired p e s) h in
      retired-Changes p e s r t k
  operation-Changes EventOperation.superseded (superseded t l) o h =
      superseded-Changes p e s r t l h
  operation-Changes EventOperation.tombstoned (tombstoned t mode) o h =
      tombstoned-Changes p e s r t mode h
  operation-Changes EventOperation.evidence_attached (evidence_attached i) o h =
      same_memories (attached-same i h)
  operation-Changes EventOperation.evidence_redacted (evidence_redacted x) o h =
      same_memories (redacted-same x h)
  operation-Changes EventOperation.linked (linked l) o h = same_memories (linked-same l h)
  operation-Changes EventOperation.unlinked (unlinked l) o h = same_memories (unlinked-same l h)
  operation-Changes EventOperation.conflict_opened (conflict_opened c) o h = opened-Changes c h
  operation-Changes EventOperation.conflict_resolved (conflict_resolved c) o h =
      resolved-Changes c h
  operation-Changes EventOperation.branch_created (branch_created b) o h =
      same_memories (branch-same b h)
  operation-Changes EventOperation.payload_purge_completed (purge_completed q) o h =
      purged-Changes p e s r q h
  operation-Changes _ _ o h = cc
