-- ===== src/Fold/Laws/Evidence/Arms.antt =====
-- The evidence over each arm of the fold, over one event, and over a stream of events.
use mathlib.Core.Path.{subst}
use scalevault.Prelude.{
  ◌≡◌, refl, sym, ap, true, false, ◌==◌, ◌!=◌, not, none, some, List, [], ◌∷◌, ok, arith, Passed,
  found, >>=-eq-ok, ok-injective, >>-eq-ok, inl, inr, ◌⊎◌, nat_Eq, elem, is_empty, ◌&&◌,
}
use scalevault.Prelude.Dict.{get, put, get-put, get-any, get-empty, get-put_self}
use scalevault.Domain.Identifiers.{Uuid}
use scalevault.Domain.Enums.{MemoryStatus, memory_status_Eq}
use scalevault.Domain.Operations.{EventOperation, event_operation_Eq}
use scalevault.Events.States.{MemoryState, EvidenceState}
use scalevault.Events.Payloads.{
  Payload, MemoryCreatedPayload, EvidenceRedactedPayload, MemoryTransitionPayload,
  CandidateLifecyclePayload, ForgetMode, memory_created, candidate_lifecycle, superseded,
  tombstoned, evidence_attached, evidence_redacted, linked, unlinked, conflict_opened,
  conflict_resolved, branch_created, purge_completed,
}
use scalevault.Events.Envelope.{MemoryEvent, Platform}
use scalevault.Fold.State.{
  Folded, ProjectionState, checked, assertion_error, invalid_lifecycle, initial,
}
use scalevault.Prelude.Returns.{Returns-ok}
use scalevault.Fold.Checks.{check_target, candidate_checks}
use scalevault.Fold.Memories.{
  Memories, Evidence, create_memory, creation_checks, create_evidence, attach_evidence,
  attach_lifecycle_evidence, replace_memory, redact_evidence,
}
use scalevault.Fold.Operations.{
  apply_created, apply_candidate, apply_revised, apply_visibility_changed, apply_retired,
  apply_superseded, apply_tombstoned, apply_purged, apply_opened, apply_resolved, apply_branch,
  apply_attached, apply_redacted, apply_linked, apply_unlinked, tombstone_checks, sanitized_checks,
}
use scalevault.Fold.Step.{
  apply_operation, transition_of, recorded, fold_event, rebuild_from, rebuild,
}
use scalevault.Fold.Step.Accepted.{fold_step-Accepted}
use scalevault.Fold.Change.{Changes, lives_on}
use scalevault.Fold.Change.Replace.{replace_memory-Replaced}
use scalevault.Fold.Change.Arms.{
  create_memory-Changes, candidate-Changes, revised-Changes, visibility_changed-Changes,
  retired-Changes, superseded-Changes, purged-Changes,
}
use scalevault.Fold.Change.Event.{
  same_memories, linked-same, unlinked-same, branch-same, opened-Changes, resolved-Changes,
}
use scalevault.Fold.Laws.Evidence.{
  IsSanitized, is_remembered, IsSanitized-Changes, IsSanitized-Adds, create_evidence-Adds,
  attach_evidence-IsSanitized, attach_all-IsSanitized, redact_evidence-IsSanitized,
}
use scalevault.Fold.Laws.Evidence.Untouched.{
  SameEvidence, Untouched, revised-Untouched, changed-Untouched, retired-Untouched,
  superseded-Untouched, purged-Untouched, opened-Untouched, resolved-Untouched, branch-Untouched,
  linked-Untouched, unlinked-Untouched,
}

abbrev pub Sanitized : ProjectionState → Type 0
Sanitized s = IsSanitized s.memories s.evidence

module _ (p : Platform) (e : MemoryEvent) (s r : ProjectionState) (clean : Sanitized s) where
  -- An arm that forgets nothing and leaves the evidence alone.
  untouched :
      (m : Folded ProjectionState)
      → Untouched p e s m
      → Changes lives_on e s.memories r.memories
      → m ≡ ok r
      → Sanitized r
  untouched m u c h =
      subst (λ d. IsSanitized r.memories d) (sym (Returns-ok (SameEvidence p e s) m u h))
        (IsSanitized-Changes e s.memories r.memories s.evidence c clean)

  fresh-remembered :
      (m : MemoryState) (memories : Memories)
      → Passed (creation_checks e m memories)
      → (e.operation ≡ EventOperation.observed) ⊎ (e.operation ≡ EventOperation.remembered)
      → (m.status != MemoryStatus.tombstoned) ≡ true
  unfolding creation_checks
  fresh-remembered m memories checks op = ground arith

  created-Sanitized :
      (c : MemoryCreatedPayload)
      → (e.operation ≡ EventOperation.observed) ⊎ (e.operation ≡ EventOperation.remembered)
      → apply_created p e s c ≡ ok r
      → Sanitized r
  unfolding apply_created create_memory
  created-Sanitized c op h =
      let m = c.memory in
      let ((memories, evidence), h1, h2) =
        >>=-eq-ok (create_memory p e c s.memories s.evidence) _ h in
      let (target, h3) = >>-eq-ok (check_target p e m) _ h1 in
      let (checks, h4) = checked e (creation_checks e m s.memories) _ h3 in
      let (more, added, h5) =
        >>=-eq-ok (create_evidence e m.memory_id c.evidence s.evidence) _ h4 in
      let stored : memories ≡ put m.memory_id m s.memories =
        ap (λ (x : Memories × Evidence). x.0) (ok-injective h5) in
      let items : evidence ≡ more = ap (λ (x : Memories × Evidence). x.1) (ok-injective h5) in
      let living : is_remembered memories m.memory_id ≡ true =
        rw (stored, get-put_self) (fresh-remembered m s.memories checks op) in
      let kept =
        IsSanitized-Changes e s.memories memories s.evidence
          (create_memory-Changes p e c s.memories memories s.evidence evidence op h1) clean in
      let all =
        IsSanitized-Adds memories m.memory_id s.evidence more living
          (create_evidence-Adds e m.memory_id c.evidence s.evidence more added) kept in
      subst Sanitized (sym (ok-injective h2)) (subst (IsSanitized memories) (sym items) all)

  candidate-Sanitized :
      (c : CandidateLifecyclePayload) (required : MemoryStatus)
      → elem required (MemoryStatus.active ∷ MemoryStatus.retired ∷ []) ≡ true
      → apply_candidate p e s c required ≡ ok r
      → Sanitized r
  unfolding apply_candidate attach_lifecycle_evidence
  candidate-Sanitized c required q h =
      let t = c.transition in
      let changes = candidate-Changes p e s r c required q h in
      let (memories, h1, h2) = >>=-eq-ok (replace_memory p e s.memories t none false) _ h in
      let (current, held, h3) = found (get t.memory.memory_id s.memories) assertion_error _ h2 in
      let (checks, h4) = checked e (candidate_checks current t.memory required) _ h3 in
      let (evidence, attached, h5) =
        >>=-eq-ok (attach_lifecycle_evidence e c.evidence memories s.evidence) _ h4 in
      let (allowed, h6) =
        checked e
          ((
            e.operation == EventOperation.candidate_expired && not (is_empty c.evidence),
            invalid_lifecycle,
          )
            ∷ [])
          _ attached in
      let same : r.memories ≡ memories =
        ap (λ (x : ProjectionState). x.memories) (ok-injective h5) in
      let kept =
        IsSanitized-Changes e s.memories memories s.evidence
          (subst (Changes lives_on e s.memories) same changes) clean in
      subst Sanitized (sym (ok-injective h5))
        (attach_all-IsSanitized e c.evidence memories s.evidence evidence h6 kept)

  attached-Sanitized : (i : EvidenceState) → apply_attached p e s i ≡ ok r → Sanitized r
  unfolding apply_attached
  attached-Sanitized i h =
      let (evidence, h1, h2) = >>=-eq-ok (attach_evidence e i s.memories s.evidence) _ h in
      subst Sanitized (sym (ok-injective h2))
        (attach_evidence-IsSanitized e i s.memories s.evidence evidence h1 clean)

  redacted-Sanitized : (x : EvidenceRedactedPayload) → apply_redacted p e s x ≡ ok r → Sanitized r
  unfolding apply_redacted
  redacted-Sanitized x h =
      let (evidence, h1, h2) = >>=-eq-ok (redact_evidence e x s.evidence) _ h in
      subst Sanitized (sym (ok-injective h2))
        (redact_evidence-IsSanitized e x s.memories s.evidence evidence h1 clean)

  other : (a b : Uuid) → (a == b) ≡ false → (b == a) ≡ false
  other a b h = ground arith

  tombstoned-Sanitized :
      (t : MemoryTransitionPayload) (mode : ForgetMode)
      → apply_tombstoned p e s t mode ≡ ok r
      → Sanitized r
  unfolding apply_tombstoned
  tombstoned-Sanitized t mode h =
      let (checks, h1) = checked e (tombstone_checks s t mode) _ h in
      let (memories, h2, h3) =
        >>=-eq-ok (replace_memory p e s.memories t (some MemoryStatus.tombstoned) false) _ h1 in
      let (none_left, h4) = checked e (sanitized_checks s t) _ h3 in
      let x =
        replace_memory-Replaced p e s.memories memories t (some MemoryStatus.tombstoned) false h2 in
      let kept : IsSanitized memories s.evidence = λ k i held.
        let apart =
          get-any (λ (i : EvidenceState). i.memory_id == t.memory.memory_id) k i s.evidence
            none_left.0 held in
        rw (x.result, get-put, other i.memory_id t.memory.memory_id apart) (clean k i held) in
      subst Sanitized (sym (ok-injective h4)) kept

  operation-Sanitized :
      (op : EventOperation) (payload : Payload)
      → e.operation ≡ op
      → apply_operation p e s op payload ≡ ok r
      → Sanitized r
  unfolding apply_operation
  operation-Sanitized EventOperation.observed (memory_created c) o h = created-Sanitized c (inl o) h
  operation-Sanitized EventOperation.remembered (memory_created c) o h =
      created-Sanitized c (inr o) h
  operation-Sanitized EventOperation.candidate_promoted (candidate_lifecycle c) o h =
      candidate-Sanitized c MemoryStatus.active refl h
  operation-Sanitized EventOperation.candidate_expired (candidate_lifecycle c) o h =
      candidate-Sanitized c MemoryStatus.retired refl h
  operation-Sanitized EventOperation.revised payload o h =
      let (t, class, k) = found (transition_of payload) assertion_error (apply_revised p e s) h in
      untouched (apply_revised p e s t) (revised-Untouched p e s t) (revised-Changes p e s r t k) k
  operation-Sanitized EventOperation.visibility_changed payload o h =
      let (t, class, k) =
        found (transition_of payload) assertion_error (apply_visibility_changed p e s) h in
      untouched (apply_visibility_changed p e s t) (changed-Untouched p e s t)
        (visibility_changed-Changes p e s r t k) k
  operation-Sanitized EventOperation.retired payload o h =
      let (t, class, k) = found (transition_of payload) assertion_error (apply_retired p e s) h in
      untouched (apply_retired p e s t) (retired-Untouched p e s t) (retired-Changes p e s r t k) k
  operation-Sanitized EventOperation.superseded (superseded t l) o h =
      untouched (apply_superseded p e s t l) (superseded-Untouched p e s t l)
        (superseded-Changes p e s r t l h) h
  operation-Sanitized EventOperation.tombstoned (tombstoned t mode) o h =
      tombstoned-Sanitized t mode h
  operation-Sanitized EventOperation.evidence_attached (evidence_attached i) o h =
      attached-Sanitized i h
  operation-Sanitized EventOperation.evidence_redacted (evidence_redacted x) o h =
      redacted-Sanitized x h
  operation-Sanitized EventOperation.linked (linked l) o h =
      untouched (apply_linked p e s l) (linked-Untouched p e s l)
        (same_memories p e s r (linked-same p e s r l h)) h
  operation-Sanitized EventOperation.unlinked (unlinked l) o h =
      untouched (apply_unlinked p e s l) (unlinked-Untouched p e s l)
        (same_memories p e s r (unlinked-same p e s r l h)) h
  operation-Sanitized EventOperation.conflict_opened (conflict_opened c) o h =
      untouched (apply_opened p e s c) (opened-Untouched p e s c) (opened-Changes p e s r c h) h
  operation-Sanitized EventOperation.conflict_resolved (conflict_resolved c) o h =
      untouched (apply_resolved p e s c) (resolved-Untouched p e s c) (resolved-Changes p e s r c h)
        h
  operation-Sanitized EventOperation.branch_created (branch_created b) o h =
      untouched (apply_branch p e s b) (branch-Untouched p e s b)
        (same_memories p e s r (branch-same p e s r b h)) h
  operation-Sanitized EventOperation.payload_purge_completed (purge_completed q) o h =
      untouched (apply_purged p e s q) (purged-Untouched p e s q) (purged-Changes p e s r q h) h
  operation-Sanitized _ _ o h = cc

-- An event keeps this: each item of evidence belongs to a memory that is there and that is not a
-- tombstone.
fold_event-IsSanitized :
    (p : Platform) (s r : ProjectionState) (e : MemoryEvent)
    → IsSanitized s.memories s.evidence
    → fold_event p s e ≡ ok r
    → IsSanitized r.memories r.evidence
unfolding fold_event recorded
fold_event-IsSanitized p s r e clean h =
    let a = fold_step-Accepted p e s true r h in
    subst Sanitized (sym a.becomes)
      (operation-Sanitized p e s a.applied clean e.operation a.payload refl a.applies)

rebuild_from-IsSanitized :
    (p : Platform) (events : List MemoryEvent) (s r : ProjectionState)
    → Sanitized s
    → rebuild_from p s events ≡ ok r
    → Sanitized r
unfolding rebuild_from
rebuild_from-IsSanitized p [] s r clean h = subst Sanitized (sym (ok-injective h)) clean
rebuild_from-IsSanitized p (e ∷ rest) s r clean h =
    let (next, folded, h1) = >>=-eq-ok (fold_event p s e) _ h in
    rebuild_from-IsSanitized p rest next r (fold_event-IsSanitized p s next e clean folded) h1

-- A rebuilt projection holds no evidence of a tombstone: each item belongs to a memory that is there
-- and that is not forgotten.
pub rebuild-IsSanitized :
    (p : Platform) (events : List MemoryEvent) (r : ProjectionState)
    → rebuild p events ≡ ok r
    → (k : Uuid) (i : EvidenceState) → get k r.evidence ≡ some i
    → is_remembered r.memories i.memory_id ≡ true
unfolding rebuild initial
rebuild-IsSanitized p events r h =
    rebuild_from-IsSanitized p events initial r
      (λ k i held. let e = get-empty {V = EvidenceState} k in cc (held, e)) h
