-- ===== src/Fold/State.antt =====
-- domain/folding.py: the projection, its errors, and the scope of an event.
use scalevault.Prelude.{
  ℕ, Bool, List, Result, map_err, raise_first, ok, ◌≡◌, ◌>>◌, >>-eq-ok, map_err-eq-ok, Passed,
  passed, triple_Eq, pair_Eq, nat_Eq,
}
use scalevault.Prelude.Dict.{Dict, empty}
use scalevault.Domain.Identifiers.{Uuid}
use scalevault.Events.States.{
  MemoryState, EvidenceState, LinkState, ConflictState, ConflictMemberState, BranchState,
}
use scalevault.Events.Envelope.{MemoryEvent, EventError}

-- The codes of `FoldError`.
pub data Code : Type 0 where
  sequence_gap sequence_not_increasing invalid_envelope duplicate_event missing_branch : Code
  branch_scope_mismatch missing_causation causation_scope_mismatch branch_visibility_forbidden :
      Code
  scope_mismatch memory_mismatch invalid_sealed_contract invalid_sealed_binding : Code
  expected_revision_mismatch stale_event_revision invalid_revision identity_changed : Code
  sealed_identity_changed unsupported_sealed_transition timestamp_mismatch invalid_lifecycle : Code
  missing_memory unexpected_revision duplicate_memory evidence_memory_mismatch : Code
  duplicate_evidence invalid_evidence_state missing_evidence duplicate_link : Code
  invalid_link_state missing_link_endpoint missing_link duplicate_conflict_member : Code
  duplicate_conflict invalid_conflict_state conflict_member_mismatch : Code
  conflict_subject_mismatch missing_conflict branch_mismatch duplicate_branch : Code
  missing_parent_branch invalid_fork_sequence unchanged_visibility hard_forget_unprotected : Code
  unsanitized_tombstone invalid_purge tenant_scope_mismatch : Code

-- What a fold may raise: a `FoldError` with its sequence, an exception of the event contract, and
-- two that would be defects of the fold, `AssertionError` and `KeyError`, and the `ValueError`
-- of a tenant replay.
pub data Failure : Type 0 where
  fold_error : Code → ℕ → Failure
  event_error : EventError → Failure
  assertion_error key_error value_error : Failure

abbrev pub Folded {ℓ} : Type ℓ → Type ℓ
Folded = Result Failure

-- Tenant, lineage and branch.
abbrev pub ScopeKey : Type 0
ScopeKey = Uuid × Uuid × Uuid

abbrev pub MemberKey : Type 0
MemberKey = Uuid × Uuid

pub record ProjectionState : Type 0 where
  pub sequence : ℕ
  pub memories : Dict Uuid MemoryState
  pub evidence : Dict Uuid EvidenceState
  pub links : Dict Uuid LinkState
  pub conflicts : Dict Uuid ConflictState
  pub conflict_members : Dict MemberKey ConflictMemberState
  pub branches : Dict Uuid BranchState
  pub event_scopes : Dict Uuid ScopeKey
  pub sequence_scopes : Dict ℕ ScopeKey

-- `ProjectionState()`
unfoldable pub initial : ProjectionState
unfolding empty
initial = record {
  sequence = 0;
  memories = empty;
  evidence = empty;
  links = empty;
  conflicts = empty;
  conflict_members = empty;
  branches = empty;
  event_scopes = empty;
  sequence_scopes = empty;
}

-- `_fail`
abbrev pub fail : MemoryEvent → Code → Failure
fail e code = fold_error code e.sequence

-- `if b: raise _fail(event, code, ...)` for each entry in turn
unfoldable pub check : MemoryEvent → List (Bool × Code) → Folded (Unit {0})
unfolding raise_first
check e l = map_err (fail e) (raise_first l)

-- `_scope`
abbrev pub scope_of : MemoryEvent → ScopeKey
scope_of e = (e.tenant_id, e.lineage_id, e.branch_id)

-- Checks that were passed before the rest of a computation.
pub checked :
    {B : Type 0} (e : MemoryEvent) (l : List (Bool × Code)) (k : Folded B) {r : B}
    → (check e l >> k) ≡ ok r
    → Passed l × (k ≡ ok r)
unfolding check
checked e l k h =
    let (p, q) = >>-eq-ok (check e l) k h in
    (passed l (map_err-eq-ok (fail e) (raise_first l) p), q)

-- Checks that end a computation.
pub checked_last : (e : MemoryEvent) (l : List (Bool × Code)) → check e l ≡ ok tt → Passed l
unfolding check
checked_last e l h = passed l (map_err-eq-ok (fail e) (raise_first l) h)
