-- ===== src/Fold/Frame.antt =====
-- What the arms of the fold leave alone: the sequence and the record of the events.
use scalevault.Prelude.{◌≡◌, ◌>>=◌, ◌>>◌, or_raise, ok}
use scalevault.Domain.Enums.{MemoryStatus}
use scalevault.Domain.Operations.{EventOperation}
use scalevault.Events.States.{BranchState, EvidenceState, LinkState}
use scalevault.Events.Payloads.{
  Payload, MemoryCreatedPayload, EvidenceRedactedPayload, ConflictPayload, MemoryTransitionPayload,
  CandidateLifecyclePayload, ForgetMode, PayloadPurgeCompletedPayload, memory_created,
  candidate_lifecycle, superseded, tombstoned, evidence_attached, evidence_redacted, linked,
  unlinked, conflict_opened, conflict_resolved, branch_created, purge_completed,
}
use scalevault.Events.Envelope.{MemoryEvent, Platform}
use scalevault.Fold.State.{Folded, ProjectionState, assertion_error}
use scalevault.Prelude.Returns.{Returns, Returns->>=, Returns->>, Returns-ok}
use scalevault.Fold.Operations.{
  apply_created, apply_candidate, apply_revised, apply_visibility_changed, apply_retired,
  apply_superseded, apply_tombstoned, apply_purged, apply_opened, apply_resolved, apply_branch,
  apply_attached, apply_redacted, apply_linked, apply_unlinked,
}
use scalevault.Fold.Step.{apply_operation, transition_of}

pub record Framed (s r : ProjectionState) : Type 0 where
  pub sequence : r.sequence ≡ s.sequence
  pub events : r.event_scopes ≡ s.event_scopes
  pub sequences : r.sequence_scopes ≡ s.sequence_scopes

module _ (p : Platform) (e : MemoryEvent) (s : ProjectionState) where
  abbrev Keeps : Folded ProjectionState → Type 0
  Keeps = Returns (Framed s)

  -- An arm whose last step replaces only memories, evidence, links, conflicts or branches.
  updates :
      {A : Type 0} (m : Folded A) (f : A → Folded ProjectionState)
      → ((a : A) → Keeps (f a))
      → Keeps (m >>= f)
  updates = Returns->>= (Framed s)

  -- A state that differs from `s` in its memories and what hangs on them.
  abbrev same :
      {r : ProjectionState}
      → r.sequence ≡ s.sequence
      → r.event_scopes ≡ s.event_scopes
      → r.sequence_scopes ≡ s.sequence_scopes
      → Framed s r
  same a b c = record { sequence = a; events = b; sequences = c }

  behind : (m : Folded (Unit {0})) (k : Folded ProjectionState) → Keeps k → Keeps (m >> k)
  behind = Returns->> (Framed s)

  created-Keeps : (c : MemoryCreatedPayload) → Keeps (apply_created p e s c)
  unfolding apply_created
  created-Keeps c = search (updates, same)

  candidate-Keeps :
      (c : CandidateLifecyclePayload) (q : MemoryStatus) → Keeps (apply_candidate p e s c q)
  unfolding apply_candidate
  candidate-Keeps c q = search (updates, behind, same)

  revised-Keeps : (t : MemoryTransitionPayload) → Keeps (apply_revised p e s t)
  unfolding apply_revised
  revised-Keeps t = search (updates, behind, same)

  changed-Keeps : (t : MemoryTransitionPayload) → Keeps (apply_visibility_changed p e s t)
  unfolding apply_visibility_changed
  changed-Keeps t = search (updates, behind, same)

  retired-Keeps : (t : MemoryTransitionPayload) → Keeps (apply_retired p e s t)
  unfolding apply_retired
  retired-Keeps t = search (updates, behind, same)

  superseded-Keeps :
      (t : MemoryTransitionPayload) (l : LinkState) → Keeps (apply_superseded p e s t l)
  unfolding apply_superseded
  superseded-Keeps t l = search (updates, behind, same)

  tombstoned-Keeps :
      (t : MemoryTransitionPayload) (m : ForgetMode) → Keeps (apply_tombstoned p e s t m)
  unfolding apply_tombstoned
  tombstoned-Keeps t m = search (updates, behind, same)

  purged-Keeps : (q : PayloadPurgeCompletedPayload) → Keeps (apply_purged p e s q)
  unfolding apply_purged
  purged-Keeps q = search (updates, behind, same)

  opened-Keeps : (c : ConflictPayload) → Keeps (apply_opened p e s c)
  unfolding apply_opened
  opened-Keeps c = search (updates, same)

  resolved-Keeps : (c : ConflictPayload) → Keeps (apply_resolved p e s c)
  unfolding apply_resolved
  resolved-Keeps c = search (updates, same)

  branch-Keeps : (b : BranchState) → Keeps (apply_branch p e s b)
  unfolding apply_branch
  branch-Keeps b = search (updates, same)

  attached-Keeps : (i : EvidenceState) → Keeps (apply_attached p e s i)
  unfolding apply_attached
  attached-Keeps i = search (updates, same)

  redacted-Keeps : (x : EvidenceRedactedPayload) → Keeps (apply_redacted p e s x)
  unfolding apply_redacted
  redacted-Keeps x = search (updates, same)

  linked-Keeps : (l : LinkState) → Keeps (apply_linked p e s l)
  unfolding apply_linked
  linked-Keeps l = search (updates, same)

  unlinked-Keeps : (l : LinkState) → Keeps (apply_unlinked p e s l)
  unfolding apply_unlinked
  unlinked-Keeps l = search (updates, same)

  operation-Keeps :
      (op : EventOperation) (payload : Payload) → Keeps (apply_operation p e s op payload)
  unfolding apply_operation
  operation-Keeps EventOperation.observed (memory_created c) = created-Keeps c
  operation-Keeps EventOperation.remembered (memory_created c) = created-Keeps c
  operation-Keeps EventOperation.candidate_promoted (candidate_lifecycle c) =
      candidate-Keeps c MemoryStatus.active
  operation-Keeps EventOperation.candidate_expired (candidate_lifecycle c) =
      candidate-Keeps c MemoryStatus.retired
  operation-Keeps EventOperation.revised x =
      updates (or_raise (transition_of x) assertion_error) _ revised-Keeps
  operation-Keeps EventOperation.visibility_changed x =
      updates (or_raise (transition_of x) assertion_error) _ changed-Keeps
  operation-Keeps EventOperation.retired x =
      updates (or_raise (transition_of x) assertion_error) _ retired-Keeps
  operation-Keeps EventOperation.superseded (superseded t l) = superseded-Keeps t l
  operation-Keeps EventOperation.tombstoned (tombstoned t m) = tombstoned-Keeps t m
  operation-Keeps EventOperation.evidence_attached (evidence_attached i) = attached-Keeps i
  operation-Keeps EventOperation.evidence_redacted (evidence_redacted x) = redacted-Keeps x
  operation-Keeps EventOperation.linked (linked l) = linked-Keeps l
  operation-Keeps EventOperation.unlinked (unlinked l) = unlinked-Keeps l
  operation-Keeps EventOperation.conflict_opened (conflict_opened c) = opened-Keeps c
  operation-Keeps EventOperation.conflict_resolved (conflict_resolved c) = resolved-Keeps c
  operation-Keeps EventOperation.branch_created (branch_created b) = branch-Keeps b
  operation-Keeps EventOperation.payload_purge_completed (purge_completed q) = purged-Keeps q
  operation-Keeps _ _ = tt

pub operation-Framed :
    (p : Platform) (e : MemoryEvent) (s r : ProjectionState) (op : EventOperation)
    (payload : Payload)
    → apply_operation p e s op payload ≡ ok r
    → Framed s r
operation-Framed p e s r op payload h =
    Returns-ok (Framed s) (apply_operation p e s op payload) (operation-Keeps p e s op payload) h
