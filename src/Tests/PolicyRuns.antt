-- ===== src/Tests/PolicyRuns.antt =====
-- A decision of the policy under the profile selection-v1, and the theorems there.
use scalevault.Prelude.{
  ◌≡◌, ◌↔◌, ◌≤◌, refl, true, some, [], ◌∷◌, codes, ok, inl, All, raise_if, raise_first, or_raise,
  Text, elem,
}
use scalevault.Domain.Enums.{
  MemoryCategory, OntologicalStatus, MemoryScope, MemoryVisibility, MemoryStatus,
}
use scalevault.Domain.Operations.{AuthorityClass}
use scalevault.Domain.Constraints.Matrix.{category_ontology_compatibility}
use scalevault.Policy.Vocabulary.{
  SelectionBasis, ContentSignal, content_signal_Eq, EpistemicQualifier, EvidenceKind, EvidenceTrust,
  PolicyOutcome, PolicyReasonCode, LifecycleAction,
}
use scalevault.Policy.Contracts.{
  SelectionRequest, BasisRule, LoadedSelectionPolicy, PolicyDecision, CandidateLifecycleState,
  ExpiryEvaluation, profile_checks, basis_rule_checks, guardrail_checks, decision_checks,
  is_sha256_hex,
}
use scalevault.Policy.Evaluator.{
  evaluate_selection, conclude, decision, verdict, keep_under, accepted, first_rule,
  applicable_guardrails, first_violation, guardrail_violation, ordered_qualifiers, forced_ttls,
  minimum_of, evidence_satisfies,
}
use scalevault.Policy.Lifecycle.{
  content_signals_from_rule_ids, evaluate_promotion, evaluate_expiry, profile_matches, is_protected,
}
use scalevault.Policy.Profile.{selection_v1}
use scalevault.Policy.Signals.{content_signals_from_rule_ids-evaluate_selection}
use scalevault.Policy.Total.{evaluate_selection_total}
use scalevault.Policy.Kept.{Warranted, Forces, evaluate_selection-Warranted}
use scalevault.Policy.Promotion.{Promotable, evaluate_promotion-exact, evaluate_expiry-exact}

abbrev digest : Text
digest = codes "e3b0c44298fc1c149afbf4c8996fb92427ae41e4649b934ca495991b7852b855"

abbrev loaded : LoadedSelectionPolicy
loaded = record { profile = selection_v1; sha256_hex = digest }

selection_v1-valid : profile_checks loaded.profile ≡ true
unfolding profile_checks basis_rule_checks guardrail_checks
selection_v1-valid = refl

digest_hex : is_sha256_hex loaded.sha256_hex ≡ true
unfolding is_sha256_hex
digest_hex = refl

-- An observation of a pattern that reads like a preference.
abbrev observation : SelectionRequest
observation = record {
  basis = SelectionBasis.assistant_observation;
  category = MemoryCategory.assistant_preference_like_pattern;
  ontological_status = OntologicalStatus.observed_assistant_behavior;
  scope = MemoryScope.persona;
  visibility = MemoryVisibility.private_root;
  effective_authority_class = AuthorityClass.assistant_observation;
  content_signals = ContentSignal.assistant_preference_like ∷ [];
  epistemic_qualifiers = EpistemicQualifier.assistant_pattern_not_subjective_experience ∷ [];
  reason_to_remember = some (codes "It returns.");
  interpretation_limits = codes "One pattern." ∷ [];
  evidence =
      record {
        evidence_key = codes "a";
        kind = EvidenceKind.assistant_observation;
        trust = EvidenceTrust.trusted;
      }
      ∷ [];
}

evaluate_selection_total_example :
    (d : PolicyDecision) × (evaluate_selection observation loaded ≡ ok d)
evaluate_selection_total_example =
    evaluate_selection_total observation loaded selection_v1-valid digest_hex

abbrev observed : PolicyDecision
observed = record {
  profile_sha256 = digest;
  outcome = PolicyOutcome.candidate;
  reason_codes = PolicyReasonCode.assistant_observation_candidate ∷ [];
  matched_rule_ids =
      codes "basis.assistant_observation" ∷ codes "guardrail.assistant_preference_like" ∷ [];
  required_qualifiers = EpistemicQualifier.assistant_pattern_not_subjective_experience ∷ [];
  candidate_ttl_days = some 180;
}

run_observation : evaluate_selection observation loaded ≡ ok observed
unfolding evaluate_selection conclude decision verdict keep_under accepted first_rule
    applicable_guardrails first_violation guardrail_violation ordered_qualifiers forced_ttls
    minimum_of evidence_satisfies category_ontology_compatibility decision_checks is_sha256_hex
    raise_if raise_first or_raise
run_observation = refl

evaluate_selection-Warranted_example :
    (r : BasisRule) × (first_rule observation loaded.profile.basis_rules ≡ some r)
    × Warranted observation (applicable_guardrails observation loaded.profile) r
    × All
        (Forces observed.outcome observed.candidate_ttl_days)
        (applicable_guardrails observation loaded.profile)
evaluate_selection-Warranted_example =
    evaluate_selection-Warranted observation loaded observed (inl refl) run_observation

-- It was observed twice, under two keys.
abbrev candidate : CandidateLifecycleState
candidate = record {
  status = MemoryStatus.candidate;
  selection_basis = SelectionBasis.assistant_observation;
  content_signals = [];
  evidence =
      record {
        evidence_key = codes "b";
        kind = EvidenceKind.assistant_observation;
        trust = EvidenceTrust.trusted;
      }
      ∷ observation.evidence;
  policy_profile_version = codes "selection-v1";
  policy_profile_sha256 = digest;
}

run_promotion : (evaluate_promotion candidate loaded).action ≡ LifecycleAction.promote
unfolding evaluate_promotion profile_matches is_protected
run_promotion = refl

evaluate_promotion-exact_example :
    ((evaluate_promotion candidate loaded).action ≡ LifecycleAction.promote)
    ↔ Promotable candidate loaded
evaluate_promotion-exact_example = evaluate_promotion-exact candidate loaded

abbrev expiry : ExpiryEvaluation
expiry = record { candidate = candidate; deadline = 5; evaluated_at = 6 }

evaluate_expiry-exact_example :
    ((evaluate_expiry expiry loaded).action ≡ LifecycleAction.retire) ↔ (
      (candidate.status ≡ MemoryStatus.candidate)
      × (candidate.policy_profile_version ≡ codes "selection-v1")
      × (candidate.policy_profile_sha256 ≡ loaded.sha256_hex)
      × (expiry.deadline ≤ expiry.evaluated_at))
evaluate_expiry-exact_example = evaluate_expiry-exact expiry loaded

content_signals_from_rule_ids-evaluate_selection_example :
    elem ContentSignal.assistant_preference_like
      (content_signals_from_rule_ids observed.matched_rule_ids)
    ≡ elem ContentSignal.assistant_preference_like observation.content_signals
content_signals_from_rule_ids-evaluate_selection_example =
    content_signals_from_rule_ids-evaluate_selection observation digest observed
      ContentSignal.assistant_preference_like (inl refl) run_observation
