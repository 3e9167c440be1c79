-- ===== src/Fold/Ceiling/Branches.antt =====
-- The arms of the fold that leave the branches alone.
use scalevault.Prelude.{◌≡◌, false, ◌==◌, nat_Eq, or_raise, ◌>>=◌, ◌>>◌}
use scalevault.Domain.Enums.{MemoryStatus, memory_status_Eq}
use scalevault.Domain.Operations.{EventOperation, event_operation_Eq}
use scalevault.Events.States.{EvidenceState, LinkState}
use scalevault.Events.Payloads.{
  Payload, MemoryCreatedPayload, EvidenceRedactedPayload, ConflictPayload, MemoryTransitionPayload,
  CandidateLifecyclePayload, ForgetMode, PayloadPurgeCompletedPayload, memory_created,
  candidate_lifecycle, superseded, tombstoned, evidence_attached, evidence_redacted, linked,
  unlinked, conflict_opened, conflict_resolved, branch_created, purge_completed,
}
use scalevault.Events.Envelope.{MemoryEvent, Platform}
use scalevault.Fold.State.{Folded, ProjectionState, assertion_error}
use scalevault.Prelude.Returns.{Returns, Returns->>=, Returns->>}
use scalevault.Fold.Operations.{
  apply_created, apply_candidate, apply_revised, apply_visibility_changed, apply_retired,
  apply_superseded, apply_tombstoned, apply_purged, apply_opened, apply_resolved, apply_attached,
  apply_redacted, apply_linked, apply_unlinked,
}
use scalevault.Fold.Step.{apply_operation, transition_of}

module _ (p : Platform) (e : MemoryEvent) (s : ProjectionState) where
  -- Arms that leave the branches alone.
  abbrev pub SameBranches : ProjectionState → Type 0
  SameBranches r = r.branches ≡ s.branches

  abbrev pub Rooted : Folded ProjectionState → Type 0
  Rooted = Returns SameBranches

  after :
      {A : Type 0} (m : Folded A) (f : A → Folded ProjectionState)
      → ((a : A) → Rooted (f a))
      → Rooted (m >>= f)
  after = Returns->>= SameBranches

  behind : (m : Folded (Unit {0})) (k : Folded ProjectionState) → Rooted k → Rooted (m >> k)
  behind = Returns->> SameBranches

  pub revised-Rooted : (t : MemoryTransitionPayload) → Rooted (apply_revised p e s t)
  unfolding apply_revised
  revised-Rooted t = search (after, behind)

  pub changed-Rooted : (t : MemoryTransitionPayload) → Rooted (apply_visibility_changed p e s t)
  unfolding apply_visibility_changed
  changed-Rooted t = search (after, behind)

  pub retired-Rooted : (t : MemoryTransitionPayload) → Rooted (apply_retired p e s t)
  unfolding apply_retired
  retired-Rooted t = search (after, behind)

  pub superseded-Rooted :
      (t : MemoryTransitionPayload) (l : LinkState) → Rooted (apply_superseded p e s t l)
  unfolding apply_superseded
  superseded-Rooted t l = search (after, behind)

  pub purged-Rooted : (q : PayloadPurgeCompletedPayload) → Rooted (apply_purged p e s q)
  unfolding apply_purged
  purged-Rooted q = search (after, behind)

  pub opened-Rooted : (c : ConflictPayload) → Rooted (apply_opened p e s c)
  unfolding apply_opened
  opened-Rooted c = search (after)

  pub resolved-Rooted : (c : ConflictPayload) → Rooted (apply_resolved p e s c)
  unfolding apply_resolved
  resolved-Rooted c = search (after)

  pub created-Rooted : (c : MemoryCreatedPayload) → Rooted (apply_created p e s c)
  unfolding apply_created
  created-Rooted c = search (after)

  pub candidate-Rooted :
      (c : CandidateLifecyclePayload) (q : MemoryStatus) → Rooted (apply_candidate p e s c q)
  unfolding apply_candidate
  candidate-Rooted c q = search (after, behind)

  pub tombstoned-Rooted :
      (t : MemoryTransitionPayload) (m : ForgetMode) → Rooted (apply_tombstoned p e s t m)
  unfolding apply_tombstoned
  tombstoned-Rooted t m = search (after, behind)

  pub attached-Rooted : (i : EvidenceState) → Rooted (apply_attached p e s i)
  unfolding apply_attached
  attached-Rooted i = search (after)

  pub redacted-Rooted : (x : EvidenceRedactedPayload) → Rooted (apply_redacted p e s x)
  unfolding apply_redacted
  redacted-Rooted x = search (after)

  pub linked-Rooted : (l : LinkState) → Rooted (apply_linked p e s l)
  unfolding apply_linked
  linked-Rooted l = search (after)

  pub unlinked-Rooted : (l : LinkState) → Rooted (apply_unlinked p e s l)
  unfolding apply_unlinked
  unlinked-Rooted l = search (after)

  -- No operation but `BRANCH_CREATED` changes the branches.
  pub operation-Rooted :
      (op : EventOperation) (payload : Payload)
      → (op == EventOperation.branch_created) ≡ false
      → Rooted (apply_operation p e s op payload)
  unfolding apply_operation
  operation-Rooted EventOperation.observed (memory_created c) o = created-Rooted c
  operation-Rooted EventOperation.remembered (memory_created c) o = created-Rooted c
  operation-Rooted EventOperation.candidate_promoted (candidate_lifecycle c) o =
      candidate-Rooted c MemoryStatus.active
  operation-Rooted EventOperation.candidate_expired (candidate_lifecycle c) o =
      candidate-Rooted c MemoryStatus.retired
  operation-Rooted EventOperation.revised x o =
      after (or_raise (transition_of x) assertion_error) _ revised-Rooted
  operation-Rooted EventOperation.visibility_changed x o =
      after (or_raise (transition_of x) assertion_error) _ changed-Rooted
  operation-Rooted EventOperation.retired x o =
      after (or_raise (transition_of x) assertion_error) _ retired-Rooted
  operation-Rooted EventOperation.superseded (superseded t l) o = superseded-Rooted t l
  operation-Rooted EventOperation.tombstoned (tombstoned t m) o = tombstoned-Rooted t m
  operation-Rooted EventOperation.evidence_attached (evidence_attached i) o = attached-Rooted i
  operation-Rooted EventOperation.evidence_redacted (evidence_redacted x) o = redacted-Rooted x
  operation-Rooted EventOperation.linked (linked l) o = linked-Rooted l
  operation-Rooted EventOperation.unlinked (unlinked l) o = unlinked-Rooted l
  operation-Rooted EventOperation.conflict_opened (conflict_opened c) o = opened-Rooted c
  operation-Rooted EventOperation.conflict_resolved (conflict_resolved c) o = resolved-Rooted c
  operation-Rooted EventOperation.branch_created (branch_created b) o = cc o
  operation-Rooted EventOperation.payload_purge_completed (purge_completed q) o = purged-Rooted q
  operation-Rooted _ _ o = tt
