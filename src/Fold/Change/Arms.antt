-- ===== src/Fold/Change/Arms.antt =====
-- What each arm of the fold does to the memories.
use mathlib.Core.Path.{subst}
use scalevault.Prelude.{
  ◌≡◌, ap, Bool, true, false, Option, none, some, [], ◌∷◌, ok, arith, Passed, found, ◌⊎◌, >>-eq-ok,
  >>=-eq-ok, ok-injective, Bool-cases, inl, inr, nat_Eq, ◌==◌, elem,
}
use scalevault.Prelude.Dict.{get, put, get-put}
use scalevault.Domain.Identifiers.{Uuid}
use scalevault.Domain.Enums.{MemoryStatus, memory_status_Eq}
use scalevault.Domain.Operations.{EventOperation}
use scalevault.Events.States.{MemoryState, LinkState}
use scalevault.Events.Payloads.{
  MemoryTransitionPayload, MemoryCreatedPayload, CandidateLifecyclePayload, ForgetMode,
  PayloadPurgeCompletedPayload,
}
use scalevault.Events.Envelope.{MemoryEvent, Platform}
use scalevault.Fold.State.{checked, ProjectionState, assertion_error}
use scalevault.Fold.Checks.{check_target, candidate_checks}
use scalevault.Fold.Memories.{
  Memories, Evidence, create_memory, creation_checks, create_evidence, status_checks,
  replace_memory, attach_lifecycle_evidence,
}
use scalevault.Fold.Links.{add_link}
use scalevault.Fold.Operations.{
  apply_candidate, apply_revised, apply_visibility_changed, apply_retired, apply_superseded,
  apply_tombstoned, apply_purged, ended_check, revised_checks, changed_checks, tombstone_checks,
  sanitized_checks, purge_checks,
}
use scalevault.Fold.Change.{Begins, Changes, kept, begun, lives_on, follows}
use scalevault.Fold.Change.Replace.{check_target-InScope, replace_memory-Replaced, Replaced-Changes}

module _ (p : Platform) (e : MemoryEvent) where
  creation-Begins :
      (m : MemoryState) (memories : Memories)
      → (e.operation ≡ EventOperation.observed) ⊎ (e.operation ≡ EventOperation.remembered)
      → Passed (creation_checks e m memories)
      → Begins e m × (get m.memory_id memories ≡ none)
  unfolding creation_checks
  creation-Begins m memories op h = (
    record {
      revision = ground arith;
      created = ground arith;
      updated = ground arith;
      status = ground arith;
    },
    ground arith,
  )

  pub create_memory-Changes :
      (c : MemoryCreatedPayload) (memories after : Memories) (evidence evidence' : Evidence)
      → (e.operation ≡ EventOperation.observed) ⊎ (e.operation ≡ EventOperation.remembered)
      → create_memory p e c memories evidence ≡ ok (after, evidence')
      → Changes lives_on e memories after
  unfolding create_memory
  create_memory-Changes c memories after evidence evidence' op h id =
      let m = c.memory in
      let (target, h1) = >>-eq-ok (check_target p e m) _ h in
      let (checks, h2) = checked e (creation_checks e m memories) _ h1 in
      let (more, added, h3) = >>=-eq-ok (create_evidence e m.memory_id c.evidence evidence) _ h2 in
      let stored : after ≡ put m.memory_id m memories = ground arith in
      let (begins, fresh) = creation-Begins m memories op checks in
      let (scope, _) = check_target-InScope p e m target in
      elim (Bool-cases (m.memory_id == id)) [
        | inl same ↦
            let k : m.memory_id ≡ id = ground arith in
            begun m (subst (λ i. get i memories ≡ none) k fresh) (rw (stored, get-put, same)) k
              scope begins
        | inr apart ↦ kept (rw (stored, get-put, apart))
      ]

module _ (p : Platform) (e : MemoryEvent) (s r : ProjectionState) where
  -- The change that a replacement makes, from what the arm knows of the current memory.
  replaced :
      (allow : MemoryStatus → MemoryStatus → Bool) (t : MemoryTransitionPayload)
      (required : Option MemoryStatus) (preserve : Bool) (memories : Memories)
      → r.memories ≡ memories
      → replace_memory p e s.memories t required preserve ≡ ok memories
      → ((current : MemoryState)
          → get t.memory.memory_id s.memories ≡ some current
          → Passed (status_checks required preserve current t.memory)
          → allow current.status t.memory.status ≡ true)
      → Changes allow e s.memories r.memories
  replaced allow t required preserve memories same h allowed =
      let x = replace_memory-Replaced p e s.memories memories t required preserve h in
      rw same (
        Replaced-Changes p e allow s.memories memories t required preserve x
          (allowed x.current x.held x.statuses))

  -- A memory that an arm looked up is the current one.
  found_again :
      (id : Uuid) (a b : MemoryState)
      → get id s.memories ≡ some a
      → get id s.memories ≡ some b
      → a ≡ b
  found_again id a b h k = cc

  pub candidate-Changes :
      (c : CandidateLifecyclePayload) (required : MemoryStatus)
      → elem required (MemoryStatus.active ∷ MemoryStatus.retired ∷ []) ≡ true
      → apply_candidate p e s c required ≡ ok r
      → Changes lives_on e s.memories r.memories
  unfolding apply_candidate candidate_checks
  candidate-Changes c required q h =
      let t = c.transition in
      let (memories, h1, h2) = >>=-eq-ok (replace_memory p e s.memories t none false) _ h in
      let (current, held, h3) = found (get t.memory.memory_id s.memories) assertion_error _ h2 in
      let (checks, h4) = checked e (candidate_checks current t.memory required) _ h3 in
      let (evidence, attached, h5) =
        >>=-eq-ok (attach_lifecycle_evidence e c.evidence memories s.evidence) _ h4 in
      let same : r.memories ≡ memories =
        ap (λ (x : ProjectionState). x.memories) (ok-injective h5) in
      replaced lives_on t none false memories same h1
        (λ a there _. rw (found_again t.memory.memory_id a current there held) (ground arith))

  pub revised-Changes :
      (t : MemoryTransitionPayload)
      → apply_revised p e s t ≡ ok r
      → Changes lives_on e s.memories r.memories
  unfolding apply_revised revised_checks
  revised-Changes t h =
      let (memories, h1, h2) = >>=-eq-ok (replace_memory p e s.memories t none false) _ h in
      let (current, held, h3) = found (get t.memory.memory_id s.memories) assertion_error _ h2 in
      let (checks, h4) = checked e (revised_checks current t.memory) _ h3 in
      let same : r.memories ≡ memories =
        ap (λ (x : ProjectionState). x.memories) (ok-injective h4) in
      replaced lives_on t none false memories same h1
        (λ a there _. rw (found_again t.memory.memory_id a current there held) (ground arith))

  pub visibility_changed-Changes :
      (t : MemoryTransitionPayload)
      → apply_visibility_changed p e s t ≡ ok r
      → Changes lives_on e s.memories r.memories
  unfolding apply_visibility_changed
  visibility_changed-Changes t h =
      let (memories, h1, h2) = >>=-eq-ok (replace_memory p e s.memories t none true) _ h in
      let (current, held, h3) = found (get t.memory.memory_id s.memories) assertion_error _ h2 in
      let (checks, h4) = checked e (changed_checks current t.memory) _ h3 in
      let same : r.memories ≡ memories =
        ap (λ (x : ProjectionState). x.memories) (ok-injective h4) in
      replaced lives_on t none true memories same h1 (λ a there checks. ground arith)

  pub retired-Changes :
      (t : MemoryTransitionPayload)
      → apply_retired p e s t ≡ ok r
      → Changes lives_on e s.memories r.memories
  unfolding apply_retired
  retired-Changes t h =
      let (checks, h1) = checked e (ended_check s t) _ h in
      let (memories, h2, h3) =
        >>=-eq-ok (replace_memory p e s.memories t (some MemoryStatus.retired) false) _ h1 in
      let same : r.memories ≡ memories =
        ap (λ (x : ProjectionState). x.memories) (ok-injective h3) in
      replaced lives_on t (some MemoryStatus.retired) false memories same h2
        (λ a there checks. ground arith)

  pub superseded-Changes :
      (t : MemoryTransitionPayload) (l : LinkState)
      → apply_superseded p e s t l ≡ ok r
      → Changes lives_on e s.memories r.memories
  unfolding apply_superseded
  superseded-Changes t l h =
      let (checks, h1) = checked e (ended_check s t) _ h in
      let (memories, h2, h3) =
        >>=-eq-ok (replace_memory p e s.memories t (some MemoryStatus.superseded) false) _ h1 in
      let (links, added, h4) = >>=-eq-ok (add_link e l memories s.links) _ h3 in
      let same : r.memories ≡ memories =
        ap (λ (x : ProjectionState). x.memories) (ok-injective h4) in
      replaced lives_on t (some MemoryStatus.superseded) false memories same h2
        (λ a there checks. ground arith)

  pub tombstoned-Changes :
      (t : MemoryTransitionPayload) (mode : ForgetMode)
      → apply_tombstoned p e s t mode ≡ ok r
      → Changes follows e s.memories r.memories
  unfolding apply_tombstoned
  tombstoned-Changes t mode h =
      let (checks, h1) = checked e (tombstone_checks s t mode) _ h in
      let (memories, h2, h3) =
        >>=-eq-ok (replace_memory p e s.memories t (some MemoryStatus.tombstoned) false) _ h1 in
      let (clean, h4) = checked e (sanitized_checks s t) _ h3 in
      let same : r.memories ≡ memories =
        ap (λ (x : ProjectionState). x.memories) (ok-injective h4) in
      replaced follows t (some MemoryStatus.tombstoned) false memories same h2
        (λ a there checks. ground arith)

  pub purged-Changes :
      (q : PayloadPurgeCompletedPayload)
      → apply_purged p e s q ≡ ok r
      → Changes lives_on e s.memories r.memories
  unfolding apply_purged
  purged-Changes q h =
      let t = q.transition in
      let (checks, h1) = checked e (purge_checks s e q) _ h in
      let (memories, h2, h3) =
        >>=-eq-ok (replace_memory p e s.memories t (some MemoryStatus.tombstoned) false) _ h1 in
      let same : r.memories ≡ memories =
        ap (λ (x : ProjectionState). x.memories) (ok-injective h3) in
      replaced lives_on t (some MemoryStatus.tombstoned) false memories same h2
        (λ a there checks. ground arith)
