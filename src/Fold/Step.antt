-- ===== src/Fold/Step.antt =====
-- domain/folding.py: `_fold_event`, `fold_event` and `rebuild`.
pub mod Accepted
use scalevault.Prelude.{
  ℕ, ◌+◌, Bool, true, false, ◌&&◌, ◌||◌, not, Option, none, some, List, [], ◌∷◌, Result, ok, err,
  ◌>>=◌, ◌>>◌, or_raise, map_err, leb, ◌==◌, ◌!=◌, any, nat_Eq, option_Eq, triple_Eq, if◌then◌else◌,
}
use scalevault.Prelude.Dict.{Dict, get, put, contains, values}
use scalevault.Domain.Identifiers.{Uuid}
use scalevault.Domain.Enums.{MemoryStatus}
use scalevault.Domain.Operations.{EventOperation, event_operation_Eq}
use scalevault.Events.States.{BranchState}
use scalevault.Events.Payloads.{
  Payload, MemoryCreatedPayload, MemoryTransitionPayload, memory_created, memory_transition,
  candidate_lifecycle, superseded, tombstoned, evidence_attached, evidence_redacted, linked,
  unlinked, conflict_opened, conflict_resolved, branch_created, purge_completed,
}
use scalevault.Events.Envelope.{
  MemoryEvent, Platform, envelope_is_valid, typed_payload, verify_hashes,
}
use scalevault.Fold.State.{
  Folded, Failure, Code, ScopeKey, ProjectionState, initial, check, fail, scope_of, event_error,
  assertion_error, key_error, sequence_gap, sequence_not_increasing, invalid_envelope,
  duplicate_event, missing_branch, branch_scope_mismatch, missing_causation,
  causation_scope_mismatch, tenant_scope_mismatch,
}
use scalevault.Fold.Visibility.{visibility_checks}
use scalevault.Fold.Operations.{
  apply_created, apply_candidate, apply_revised, apply_visibility_changed, apply_retired,
  apply_superseded, apply_tombstoned, apply_purged, apply_opened, apply_resolved, apply_branch,
  apply_attached, apply_redacted, apply_linked, apply_unlinked,
}

-- `isinstance(payload, MemoryTransitionPayload)`, with the parts that the class has.
abbrev pub transition_of : Payload → Option MemoryTransitionPayload
transition_of (memory_transition t) = some t
transition_of (candidate_lifecycle c) = some c.transition
transition_of (superseded t l) = some t
transition_of (tombstoned t f) = some t
transition_of (purge_completed q) = some q.transition
transition_of _ = none

module _ (p : Platform) (e : MemoryEvent) (s : ProjectionState) where
  -- The `match` on the operation; each arm first asserts the class of the payload.
  unfoldable pub apply_operation : EventOperation → Payload → Folded ProjectionState
  unfolding apply_created apply_candidate apply_revised apply_visibility_changed apply_retired
      apply_superseded apply_tombstoned apply_purged apply_opened apply_resolved apply_branch
      apply_attached apply_redacted apply_linked apply_unlinked or_raise
  apply_operation EventOperation.observed (memory_created c) = apply_created p e s c
  apply_operation EventOperation.remembered (memory_created c) = apply_created p e s c
  apply_operation EventOperation.candidate_promoted (candidate_lifecycle c) =
      apply_candidate p e s c MemoryStatus.active
  apply_operation EventOperation.candidate_expired (candidate_lifecycle c) =
      apply_candidate p e s c MemoryStatus.retired
  apply_operation EventOperation.revised payload = do
    t ← or_raise (transition_of payload) assertion_error
    apply_revised p e s t
  apply_operation EventOperation.visibility_changed payload = do
    t ← or_raise (transition_of payload) assertion_error
    apply_visibility_changed p e s t
  apply_operation EventOperation.retired payload = do
    t ← or_raise (transition_of payload) assertion_error
    apply_retired p e s t
  apply_operation EventOperation.superseded (superseded t l) = apply_superseded p e s t l
  apply_operation EventOperation.tombstoned (tombstoned t mode) = apply_tombstoned p e s t mode
  apply_operation EventOperation.evidence_attached (evidence_attached i) = apply_attached p e s i
  apply_operation EventOperation.evidence_redacted (evidence_redacted r) = apply_redacted p e s r
  apply_operation EventOperation.linked (linked l) = apply_linked p e s l
  apply_operation EventOperation.unlinked (unlinked l) = apply_unlinked p e s l
  apply_operation EventOperation.conflict_opened (conflict_opened c) = apply_opened p e s c
  apply_operation EventOperation.conflict_resolved (conflict_resolved c) = apply_resolved p e s c
  apply_operation EventOperation.branch_created (branch_created b) = apply_branch p e s b
  apply_operation EventOperation.payload_purge_completed (purge_completed q) = apply_purged p e s q
  apply_operation _ _ = err assertion_error

  abbrev pub is_branch_created : Bool
  is_branch_created = e.operation == EventOperation.branch_created

  -- The event's branch exists and lies in the event's tenant and lineage.
  unfoldable pub check_branch : Folded (Unit {0})
  unfolding check or_raise get
  check_branch = if is_branch_created then ok tt else do
    branch ← or_raise (get e.branch_id s.branches) (fail e missing_branch)
    check e (
        (
          branch.tenant_id != e.tenant_id || branch.lineage_id != e.lineage_id,
          branch_scope_mismatch,
        )
        ∷ [])

  unfoldable pub check_cause : Option Uuid → Folded (Unit {0})
  unfolding check or_raise get
  check_cause none = ok tt
  check_cause (some id) = do
    cause ← or_raise (get id s.event_scopes) (fail e missing_causation)
    check e ((cause.0 != e.tenant_id || cause.1 != e.lineage_id, causation_scope_mismatch) ∷ [])

  unfoldable pub check_visibility : Payload → Folded (Unit {0})
  unfolding check or_raise get visibility_checks
  check_visibility payload = if is_branch_created then ok tt else do
    branch ← or_raise (get e.branch_id s.branches) key_error
    check e (visibility_checks branch payload)

  -- The event is recorded, at its sequence.
  unfoldable pub recorded : ProjectionState → ProjectionState
  unfolding put
  recorded r = record r {
    sequence = e.sequence;
    event_scopes = put e.event_id (scope_of e) r.event_scopes;
    sequence_scopes = put e.sequence (scope_of e) r.sequence_scopes;
  }

  abbrev pub sequence_checks : Bool → List (Bool × Code)
  sequence_checks contiguous =
      (contiguous && e.sequence != s.sequence + 1, sequence_gap)
      ∷ (not contiguous && leb e.sequence s.sequence, sequence_not_increasing)
      ∷ (not (envelope_is_valid e), invalid_envelope)
      ∷ []

  abbrev pub duplicate_check : List (Bool × Code)
  duplicate_check = (contains e.event_id s.event_scopes, duplicate_event) ∷ []

  -- `_fold_event`
  unfoldable pub fold_step : Bool → Folded ProjectionState
  unfolding check envelope_is_valid verify_hashes check_branch check_cause typed_payload
      check_visibility apply_operation recorded get
  fold_step contiguous = do
    check e (sequence_checks contiguous)
    map_err event_error (verify_hashes p e)
    check e duplicate_check
    check_branch
    check_cause e.causation_event_id
    payload ← map_err event_error (typed_payload p e)
    check_visibility payload
    r ← apply_operation e.operation payload
    ok (recorded r)

-- `fold_event`
unfoldable pub fold_event : Platform → ProjectionState → MemoryEvent → Folded ProjectionState
unfolding fold_step
fold_event p s e = fold_step p e s true

-- `rebuild`
unfoldable pub rebuild_from : Platform → ProjectionState → List MemoryEvent → Folded ProjectionState
unfolding fold_event
rebuild_from p s [] = ok s
rebuild_from p s (e ∷ rest) = do next ← fold_event p s e; rebuild_from p next rest

unfoldable pub rebuild : Platform → List MemoryEvent → Folded ProjectionState
unfolding rebuild_from initial
rebuild p = rebuild_from p initial
