-- ===== src/Fold/Laws/Evidence/Untouched.antt =====
-- The arms of the fold that leave the evidence alone.
use scalevault.Prelude.{◌≡◌, nat_Eq, ◌>>=◌, ◌>>◌}
use scalevault.Domain.Enums.{memory_status_Eq}
use scalevault.Domain.Operations.{event_operation_Eq}
use scalevault.Events.States.{BranchState, LinkState}
use scalevault.Events.Payloads.{
  ConflictPayload, MemoryTransitionPayload, PayloadPurgeCompletedPayload,
}
use scalevault.Events.Envelope.{MemoryEvent, Platform}
use scalevault.Fold.State.{Folded, ProjectionState}
use scalevault.Prelude.Returns.{Returns, Returns->>=, Returns->>}
use scalevault.Fold.Operations.{
  apply_revised, apply_visibility_changed, apply_retired, apply_superseded, apply_purged,
  apply_opened, apply_resolved, apply_branch, apply_linked, apply_unlinked,
}

module _ (p : Platform) (e : MemoryEvent) (s : ProjectionState) where
  -- Arms that leave the evidence alone.
  abbrev pub SameEvidence : ProjectionState → Type 0
  SameEvidence r = r.evidence ≡ s.evidence

  abbrev pub Untouched : Folded ProjectionState → Type 0
  Untouched = Returns SameEvidence

  after :
      {A : Type 0} (m : Folded A) (f : A → Folded ProjectionState)
      → ((a : A) → Untouched (f a))
      → Untouched (m >>= f)
  after = Returns->>= SameEvidence

  behind : (m : Folded (Unit {0})) (k : Folded ProjectionState) → Untouched k → Untouched (m >> k)
  behind = Returns->> SameEvidence

  pub revised-Untouched : (t : MemoryTransitionPayload) → Untouched (apply_revised p e s t)
  unfolding apply_revised
  revised-Untouched t = search (after, behind)

  pub changed-Untouched :
      (t : MemoryTransitionPayload) → Untouched (apply_visibility_changed p e s t)
  unfolding apply_visibility_changed
  changed-Untouched t = search (after, behind)

  pub retired-Untouched : (t : MemoryTransitionPayload) → Untouched (apply_retired p e s t)
  unfolding apply_retired
  retired-Untouched t = search (after, behind)

  pub superseded-Untouched :
      (t : MemoryTransitionPayload) (l : LinkState) → Untouched (apply_superseded p e s t l)
  unfolding apply_superseded
  superseded-Untouched t l = search (after, behind)

  pub purged-Untouched : (q : PayloadPurgeCompletedPayload) → Untouched (apply_purged p e s q)
  unfolding apply_purged
  purged-Untouched q = search (after, behind)

  pub opened-Untouched : (c : ConflictPayload) → Untouched (apply_opened p e s c)
  unfolding apply_opened
  opened-Untouched c = search (after)

  pub resolved-Untouched : (c : ConflictPayload) → Untouched (apply_resolved p e s c)
  unfolding apply_resolved
  resolved-Untouched c = search (after)

  pub branch-Untouched : (b : BranchState) → Untouched (apply_branch p e s b)
  unfolding apply_branch
  branch-Untouched b = search (after)

  pub linked-Untouched : (l : LinkState) → Untouched (apply_linked p e s l)
  unfolding apply_linked
  linked-Untouched l = search (after)

  pub unlinked-Untouched : (l : LinkState) → Untouched (apply_unlinked p e s l)
  unfolding apply_unlinked
  unlinked-Untouched l = search (after)
