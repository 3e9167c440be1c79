-- ===== src/Policy/Lifecycle.antt =====
-- policy/lifecycle.py: promotion and expiry of candidates.
use scalevault.Prelude.{
  Bool, not, ◌&&◌, ◌||◌, Option, none, some, List, [], ◌∷◌, Text, codes, ◌==◌, leb, ltb, any, elem,
  dedup, length, nat_Eq, list_Eq, if◌then◌else◌,
}
use scalevault.Domain.Enums.{MemoryStatus, memory_status_Eq}
use scalevault.Policy.Vocabulary.{
  ContentSignal, content_signal_Eq, EvidenceKind, evidence_kind_Eq, EvidenceTrust,
  evidence_trust_Eq, SelectionBasis, selection_basis_Eq, LifecycleAction, LifecycleReasonCode,
}
use scalevault.Policy.Contracts.{
  CandidateLifecycleState, ExpiryEvaluation, LifecycleDecision, LoadedSelectionPolicy,
}
use scalevault.Policy.Evaluator.{evidence_keys}

-- `_CONTENT_SIGNALS_BY_RULE_ID`
unfoldable pub signal_of_rule_id : Text → Option ContentSignal
signal_of_rule_id id =
    if id == codes "guardrail.roleplayed_scene"
    then some ContentSignal.roleplayed_scene
    else if id == codes "guardrail.assistant_preference_like"
    then some ContentSignal.assistant_preference_like
    else if id == codes "guardrail.subjective_experience_claim"
    then some ContentSignal.subjective_experience_claim
    else none

-- The set as a list, in the order of the identifiers.
unfoldable pub content_signals_from_rule_ids : List Text → List ContentSignal
content_signals_from_rule_ids [] = []
content_signals_from_rule_ids (id ∷ ids) = elim (signal_of_rule_id id) [
  | none ↦ content_signals_from_rule_ids ids
  | some s ↦ s ∷ content_signals_from_rule_ids ids
]

-- `_decision`
abbrev lifecycle_decision :
    LoadedSelectionPolicy → LifecycleAction → LifecycleReasonCode → LifecycleDecision
lifecycle_decision l action reason = record {
  action = action;
  reason_code = reason;
  policy_profile_sha256 = l.sha256_hex;
}

unfoldable pub profile_matches : CandidateLifecycleState → LoadedSelectionPolicy → Bool
profile_matches c l =
    c.policy_profile_version == codes "selection-v1" && c.policy_profile_sha256 == l.sha256_hex

-- Roleplay, claims of experience, and imports are not promoted by observation.
unfoldable pub is_protected : CandidateLifecycleState → Bool
is_protected c =
    c.selection_basis == SelectionBasis.imported_legacy
    || elem ContentSignal.roleplayed_scene c.content_signals
    || elem ContentSignal.subjective_experience_claim c.content_signals

unfoldable pub evaluate_promotion :
    CandidateLifecycleState → LoadedSelectionPolicy → LifecycleDecision
evaluate_promotion c l =
    if not (c.status == MemoryStatus.candidate)
    then lifecycle_decision l LifecycleAction.no_op LifecycleReasonCode.not_candidate
    else if not (profile_matches c l)
    then lifecycle_decision l LifecycleAction.no_op LifecycleReasonCode.policy_profile_mismatch
    else if any (λ e. e.kind == EvidenceKind.user_confirmation && e.trust == EvidenceTrust.trusted)
        c.evidence
    then lifecycle_decision l LifecycleAction.promote LifecycleReasonCode.trusted_user_confirmation
    else if is_protected c
    then lifecycle_decision l LifecycleAction.no_op LifecycleReasonCode.protected_candidate
    else if leb 2 (
        length (
          dedup (
            evidence_keys
              (λ e.
                e.kind == EvidenceKind.assistant_observation && e.trust == EvidenceTrust.trusted)
              c.evidence)))
    then lifecycle_decision l LifecycleAction.promote LifecycleReasonCode.independent_observations
    else lifecycle_decision l LifecycleAction.no_op LifecycleReasonCode.insufficient_evidence

unfoldable pub evaluate_expiry : ExpiryEvaluation → LoadedSelectionPolicy → LifecycleDecision
evaluate_expiry e l =
    if not (e.candidate.status == MemoryStatus.candidate)
    then lifecycle_decision l LifecycleAction.no_op LifecycleReasonCode.not_candidate
    else if not (profile_matches e.candidate l)
    then lifecycle_decision l LifecycleAction.no_op LifecycleReasonCode.policy_profile_mismatch
    else if ltb e.evaluated_at e.deadline
    then lifecycle_decision l LifecycleAction.no_op LifecycleReasonCode.expiry_not_due
    else lifecycle_decision l LifecycleAction.retire LifecycleReasonCode.candidate_expired
