-- ===== src/Fold/Ceiling/Arms.antt =====
-- The arms of the fold write the after-images of the payload and nothing else.
use scalevault.Prelude.{
  ◌≡◌, ap, ◌∙◌, Bool, true, false, not, Option, none, some, [], ◌∷◌, ok, arith, found, >>=-eq-ok,
  ok-injective, >>-eq-ok, nat_Eq,
}
use scalevault.Prelude.Dict.{get}
use scalevault.Domain.Enums.{MemoryStatus, memory_status_Eq}
use scalevault.Domain.Operations.{EventOperation, event_operation_Eq}
use scalevault.Events.States.{MemoryState, LinkState}
use scalevault.Events.Payloads.{
  Payload, MemoryCreatedPayload, ConflictPayload, MemoryTransitionPayload,
  CandidateLifecyclePayload, ForgetMode, PayloadPurgeCompletedPayload, memory_created,
  candidate_lifecycle, superseded, tombstoned, evidence_attached, evidence_redacted, linked,
  unlinked, conflict_opened, conflict_resolved, branch_created, purge_completed,
}
use scalevault.Events.Envelope.{MemoryEvent, Platform}
use scalevault.Fold.State.{ProjectionState, checked, fail, assertion_error}
use scalevault.Fold.Checks.{candidate_checks}
use scalevault.Fold.Memories.{Memories, create_memory, attach_lifecycle_evidence, replace_memory}
use scalevault.Fold.Operations.{
  apply_created, apply_candidate, apply_revised, apply_visibility_changed, apply_retired,
  apply_superseded, apply_tombstoned, apply_purged, apply_opened, apply_resolved, tombstone_checks,
  ended_check, revised_checks, changed_checks, purge_checks, sanitized_checks,
}
use scalevault.Fold.Step.{apply_operation, transition_of}
use scalevault.Prelude.{any}
use scalevault.Fold.State.{missing_conflict}
use scalevault.Fold.Visibility.{after_images}
use scalevault.Fold.Links.{add_link}
use scalevault.Fold.Conflicts.{
  Conflicts, Members, open_conflict, resolve_conflict, apply_affected, opening_checks,
  joining_checks, check_subjects, member_ids, join_members, conflict_scope, resolution_checks,
  check_joined, affected_check,
}
use scalevault.Fold.Change.Event.{
  branch-same, attached-same, redacted-same, linked-same, unlinked-same,
}
use scalevault.Fold.Ceiling.{
  Writes, Writes-refl, replace_memory-Writes, create_memory-Writes, affected-Writes, AllPass,
}

module _ (q : MemoryState → Bool) (p : Platform) (e : MemoryEvent) (s r : ProjectionState) where
  abbrev Wrote : Type 0
  Wrote = Writes q s.memories r.memories

  -- An arm whose memories are those of a replacement.
  by_replacing :
      (t : MemoryTransitionPayload) (required : Option MemoryStatus) (preserve : Bool)
      (memories : Memories)
      → q t.memory ≡ true
      → replace_memory p e s.memories t required preserve ≡ ok memories
      → r.memories ≡ memories
      → Wrote
  by_replacing t required preserve memories h k same =
      rw same (replace_memory-Writes q p e s.memories memories t required preserve h k)

  unwritten : r.memories ≡ s.memories → Wrote
  unwritten same = rw same (Writes-refl q s.memories)

  created-Writes :
      (c : MemoryCreatedPayload) → q c.memory ≡ true → apply_created p e s c ≡ ok r → Wrote
  unfolding apply_created
  created-Writes c pass h =
      let ((memories, evidence), h1, h2) =
        >>=-eq-ok (create_memory p e c s.memories s.evidence) _ h in
      rw (ap (λ (x : ProjectionState). x.memories) (ok-injective h2))
        (create_memory-Writes q p e c s.memories memories s.evidence evidence pass h1)

  candidate-Writes :
      (c : CandidateLifecyclePayload) (required : MemoryStatus)
      → q c.transition.memory ≡ true
      → apply_candidate p e s c required ≡ ok r
      → Wrote
  unfolding apply_candidate
  candidate-Writes c required pass h =
      let t = c.transition in
      let (memories, h1, h2) = >>=-eq-ok (replace_memory p e s.memories t none false) _ h in
      let (current, held, h3) = found (get t.memory.memory_id s.memories) assertion_error _ h2 in
      let (checks, h4) = checked e (candidate_checks current t.memory required) _ h3 in
      let (evidence, attached, h5) =
        >>=-eq-ok (attach_lifecycle_evidence e c.evidence memories s.evidence) _ h4 in
      by_replacing t none false memories pass h1
        (ap (λ (x : ProjectionState). x.memories) (ok-injective h5))

  revised-Writes :
      (t : MemoryTransitionPayload) → q t.memory ≡ true → apply_revised p e s t ≡ ok r → Wrote
  unfolding apply_revised
  revised-Writes t pass h =
      let (memories, h1, h2) = >>=-eq-ok (replace_memory p e s.memories t none false) _ h in
      let (current, held, h3) = found (get t.memory.memory_id s.memories) assertion_error _ h2 in
      let (checks, h4) = checked e (revised_checks current t.memory) _ h3 in
      by_replacing t none false memories pass h1
        (ap (λ (x : ProjectionState). x.memories) (ok-injective h4))

  changed-Writes :
      (t : MemoryTransitionPayload)
      → q t.memory ≡ true
      → apply_visibility_changed p e s t ≡ ok r
      → Wrote
  unfolding apply_visibility_changed
  changed-Writes t pass h =
      let (memories, h1, h2) = >>=-eq-ok (replace_memory p e s.memories t none true) _ h in
      let (current, held, h3) = found (get t.memory.memory_id s.memories) assertion_error _ h2 in
      let (checks, h4) = checked e (changed_checks current t.memory) _ h3 in
      by_replacing t none true memories pass h1
        (ap (λ (x : ProjectionState). x.memories) (ok-injective h4))

  retired-Writes :
      (t : MemoryTransitionPayload) → q t.memory ≡ true → apply_retired p e s t ≡ ok r → Wrote
  unfolding apply_retired
  retired-Writes t pass h =
      let (checks, h1) = checked e (ended_check s t) _ h in
      let (memories, h2, h3) =
        >>=-eq-ok (replace_memory p e s.memories t (some MemoryStatus.retired) false) _ h1 in
      by_replacing t (some MemoryStatus.retired) false memories pass h2
        (ap (λ (x : ProjectionState). x.memories) (ok-injective h3))

  superseded-Writes :
      (t : MemoryTransitionPayload) (l : LinkState)
      → q t.memory ≡ true
      → apply_superseded p e s t l ≡ ok r
      → Wrote
  unfolding apply_superseded
  superseded-Writes t l pass h =
      let (checks, h1) = checked e (ended_check s t) _ h in
      let (memories, h2, h3) =
        >>=-eq-ok (replace_memory p e s.memories t (some MemoryStatus.superseded) false) _ h1 in
      let (links, added, h4) = >>=-eq-ok (add_link e l memories s.links) _ h3 in
      by_replacing t (some MemoryStatus.superseded) false memories pass h2
        (ap (λ (x : ProjectionState). x.memories) (ok-injective h4))

  tombstoned-Writes :
      (t : MemoryTransitionPayload) (mode : ForgetMode)
      → q t.memory ≡ true
      → apply_tombstoned p e s t mode ≡ ok r
      → Wrote
  unfolding apply_tombstoned
  tombstoned-Writes t mode pass h =
      let (checks, h1) = checked e (tombstone_checks s t mode) _ h in
      let (memories, h2, h3) =
        >>=-eq-ok (replace_memory p e s.memories t (some MemoryStatus.tombstoned) false) _ h1 in
      let (clean, h4) = checked e (sanitized_checks s t) _ h3 in
      by_replacing t (some MemoryStatus.tombstoned) false memories pass h2
        (ap (λ (x : ProjectionState). x.memories) (ok-injective h4))

  purged-Writes :
      (x : PayloadPurgeCompletedPayload)
      → q x.transition.memory ≡ true
      → apply_purged p e s x ≡ ok r
      → Wrote
  unfolding apply_purged
  purged-Writes x pass h =
      let (checks, h1) = checked e (purge_checks s e x) _ h in
      let (memories, h2, h3) =
        >>=-eq-ok (replace_memory p e s.memories x.transition (some MemoryStatus.tombstoned) false)
          _ h1 in
      by_replacing x.transition (some MemoryStatus.tombstoned) false memories pass h2
        (ap (λ (x : ProjectionState). x.memories) (ok-injective h3))

  opened-Writes :
      (c : ConflictPayload) → AllPass q c.affected_memories → apply_opened p e s c ≡ ok r → Wrote
  unfolding apply_opened open_conflict
  opened-Writes c pass h =
      let ((memories, conflicts, members), h1, h2) =
        >>=-eq-ok (open_conflict e c s.memories s.conflicts s.conflict_members) _ h in
      let (checks, h3) = checked e (opening_checks e c.conflict s.conflicts) _ h1 in
      let ((ids, after), h4, h5) =
        >>=-eq-ok (apply_affected e true c.affected_memories [] s.memories) _ h3 in
      let (joining, h6) = checked e (joining_checks e ids c.members) _ h5 in
      let (subjects, h7) =
        >>-eq-ok (check_subjects e c.conflict.subject_id (member_ids c.members) after) _ h6 in
      let (joined, h8, h9) = >>=-eq-ok (join_members e c.members s.conflict_members) _ h7 in
      let same : r.memories ≡ after =
        ap (λ (x : ProjectionState). x.memories) (ok-injective h2)
        ∙ ap (λ (x : Memories × Conflicts × Members). x.0) (ok-injective h9) in
      rw same (affected-Writes q e true c.affected_memories [] ids s.memories after pass h4)

  resolved-Writes :
      (c : ConflictPayload) → AllPass q c.affected_memories → apply_resolved p e s c ≡ ok r → Wrote
  unfolding apply_resolved resolve_conflict
  resolved-Writes c pass h =
      let ((memories, conflicts, members), h1, h2) =
        >>=-eq-ok (resolve_conflict e c s.memories s.conflicts s.conflict_members) _ h in
      let (scope, h3) = checked e (conflict_scope e c.conflict) _ h1 in
      let (current, held, h4) =
        found (get c.conflict.conflict_id s.conflicts) (fail e missing_conflict) _ h3 in
      let (checks, h5) = checked e (resolution_checks e c current s.conflict_members) _ h4 in
      let (joined, h6) = >>-eq-ok (check_joined e c.members s.conflict_members) _ h5 in
      let ((ids, after), h7, h8) =
        >>=-eq-ok (apply_affected e false c.affected_memories [] s.memories) _ h6 in
      let (agreed, h9) = checked e (affected_check ids c.members ∷ []) _ h8 in
      let same : r.memories ≡ after =
        ap (λ (x : ProjectionState). x.memories) (ok-injective h2)
        ∙ ap (λ (x : Memories × Conflicts × Members). x.0) (ok-injective h9) in
      rw same (affected-Writes q e false c.affected_memories [] ids s.memories after pass h7)

  one : (m : MemoryState) → any (λ m. not (q m)) (m ∷ []) ≡ false → q m ≡ true
  one m h = ground arith

  transition-passes :
      (payload : Payload) (t : MemoryTransitionPayload)
      → transition_of payload ≡ some t
      → any (λ m. not (q m)) (after_images payload) ≡ false
      → q t.memory ≡ true
  unfolding after_images
  transition-passes payload t h v = ground arith

  -- If all after-images of the payload pass a test, so does every memory that the operation wrote.
  pub operation-Writes :
      (op : EventOperation) (payload : Payload)
      → any (λ m. not (q m)) (after_images payload) ≡ false
      → apply_operation p e s op payload ≡ ok r
      → Writes q s.memories r.memories
  unfolding apply_operation after_images
  operation-Writes EventOperation.observed (memory_created c) v h =
      created-Writes c (one c.memory v) h
  operation-Writes EventOperation.remembered (memory_created c) v h =
      created-Writes c (one c.memory v) h
  operation-Writes EventOperation.candidate_promoted (candidate_lifecycle c) v h =
      candidate-Writes c MemoryStatus.active (one c.transition.memory v) h
  operation-Writes EventOperation.candidate_expired (candidate_lifecycle c) v h =
      candidate-Writes c MemoryStatus.retired (one c.transition.memory v) h
  operation-Writes EventOperation.revised payload v h =
      let (t, class, k) = found (transition_of payload) assertion_error (apply_revised p e s) h in
      revised-Writes t (transition-passes payload t class v) k
  operation-Writes EventOperation.visibility_changed payload v h =
      let (t, class, k) =
        found (transition_of payload) assertion_error (apply_visibility_changed p e s) h in
      changed-Writes t (transition-passes payload t class v) k
  operation-Writes EventOperation.retired payload v h =
      let (t, class, k) = found (transition_of payload) assertion_error (apply_retired p e s) h in
      retired-Writes t (transition-passes payload t class v) k
  operation-Writes EventOperation.superseded (superseded t l) v h =
      superseded-Writes t l (one t.memory v) h
  operation-Writes EventOperation.tombstoned (tombstoned t mode) v h =
      tombstoned-Writes t mode (one t.memory v) h
  operation-Writes EventOperation.evidence_attached (evidence_attached i) v h =
      unwritten (attached-same p e s r i h)
  operation-Writes EventOperation.evidence_redacted (evidence_redacted x) v h =
      unwritten (redacted-same p e s r x h)
  operation-Writes EventOperation.linked (linked l) v h = unwritten (linked-same p e s r l h)
  operation-Writes EventOperation.unlinked (unlinked l) v h = unwritten (unlinked-same p e s r l h)
  operation-Writes EventOperation.conflict_opened (conflict_opened c) v h = opened-Writes c v h
  operation-Writes EventOperation.conflict_resolved (conflict_resolved c) v h =
      resolved-Writes c v h
  operation-Writes EventOperation.branch_created (branch_created b) v h =
      unwritten (branch-same p e s r b h)
  operation-Writes EventOperation.payload_purge_completed (purge_completed x) v h =
      purged-Writes x (one x.transition.memory v) h
  operation-Writes _ _ v h = cc
