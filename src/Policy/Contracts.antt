-- ===== src/Policy/Contracts.antt =====
-- policy/contracts.py: the facts that the policy decides on, its rules and its decisions, with the
-- validators that the models run when they are built.
use scalevault.Prelude.{
  ℕ, Bool, true, not, ◌&&◌, ◌||◌, Option, none, some, List, [], ◌∷◌, ◌++◌, Text, ◌==◌, leb, all,
  all_unique, same_set, length, is_some, nat_Eq, list_Eq,
}
use scalevault.Domain.Enums.{
  MemoryCategory, memory_category_Eq, OntologicalStatus, ontological_status_Eq, MemoryScope,
  memory_scope_Eq, MemoryVisibility, memory_visibility_Eq, MemoryStatus,
}
use scalevault.Domain.Operations.{AuthorityClass}
use scalevault.Policy.Vocabulary.{
  SelectionBasis, selection_basis_Eq, ContentSignal, content_signal_Eq, EpistemicQualifier,
  epistemic_qualifier_Eq, EvidenceKind, evidence_kind_Eq, EvidenceTrust, evidence_trust_Eq,
  PolicyOutcome, policy_outcome_Eq, LifecycleAction, LifecycleReasonCode, PolicyReasonCode,
  policy_reason_code_Eq,
}

pub record EvidenceSummary : Type 0 where
  pub evidence_key : Text
  pub kind : EvidenceKind
  pub trust : EvidenceTrust

pub record SelectionRequest : Type 0 where
  pub basis : SelectionBasis
  pub category : MemoryCategory
  pub ontological_status : OntologicalStatus
  pub scope : MemoryScope
  pub visibility : MemoryVisibility
  pub effective_authority_class : AuthorityClass
  pub content_signals : List ContentSignal
  pub epistemic_qualifiers : List EpistemicQualifier
  pub reason_to_remember : Option Text
  pub interpretation_limits : List Text
  pub evidence : List EvidenceSummary

pub record EvidenceRequirement : Type 0 where
  pub kinds : List EvidenceKind
  pub trusts : List EvidenceTrust
  pub minimum : ℕ

pub record BasisRule : Type 0 where
  pub rule_id : Text
  pub basis : SelectionBasis
  pub outcome : PolicyOutcome
  pub reason_code : PolicyReasonCode
  pub allowed_categories : List MemoryCategory
  pub required_authority : Option AuthorityClass
  pub evidence_requirement : Option EvidenceRequirement
  pub required_qualifiers : List EpistemicQualifier
  pub requires_interpretation_limits : Bool
  pub candidate_ttl_days : Option ℕ

-- `Field(ge=1, le=3650)` on an optional number of days.
abbrev pub is_ttl : Option ℕ → Bool
is_ttl none = true
is_ttl (some n) = leb 1 n && leb n 3650

-- `Field(min_length=1, max_length=n)`
abbrev pub is_length : {A : Type 0} → ℕ → List A → Bool
is_length n xs = leb 1 (length xs) && leb (length xs) n

-- The fields' types and `validate_rule`: a rule never rejects, and has a TTL exactly if its outcome is
-- a candidate.
unfoldable pub basis_rule_checks : BasisRule → Bool
basis_rule_checks r =
    not (r.outcome == PolicyOutcome.reject)
    && is_ttl r.candidate_ttl_days
    && leb (length r.allowed_categories) 16
    && leb (length r.required_qualifiers) 16
    && all_unique r.allowed_categories
    && all_unique r.required_qualifiers
    && (r.outcome == PolicyOutcome.candidate && is_some r.candidate_ttl_days
        || not (r.outcome == PolicyOutcome.candidate) && not (is_some r.candidate_ttl_days))

pub record SignalGuardrail : Type 0 where
  pub rule_id : Text
  pub signal : ContentSignal
  pub allowed_categories : List MemoryCategory
  pub allowed_ontologies : List OntologicalStatus
  pub allowed_scopes : List MemoryScope
  pub allowed_visibilities : List MemoryVisibility
  pub required_qualifiers : List EpistemicQualifier
  pub requires_interpretation_limits : Bool
  pub force_candidate : Bool
  pub forced_candidate_ttl_days : Option ℕ
  pub violation_code : PolicyReasonCode

-- `validate_unique_values`, and the range of the TTL.
unfoldable pub guardrail_checks : SignalGuardrail → Bool
guardrail_checks g =
    is_ttl g.forced_candidate_ttl_days
    && is_length 16 g.allowed_categories
    && is_length 8 g.allowed_ontologies
    && is_length 6 g.allowed_scopes
    && is_length 4 g.allowed_visibilities
    && is_length 16 g.required_qualifiers
    && all_unique g.allowed_categories
    && all_unique g.allowed_ontologies
    && all_unique g.allowed_scopes
    && all_unique g.allowed_visibilities
    && all_unique g.required_qualifiers
    && (g.force_candidate && is_some g.forced_candidate_ttl_days
        || not g.force_candidate && not (is_some g.forced_candidate_ttl_days))

pub record SelectionPolicyProfile : Type 0 where
  pub basis_rules : List BasisRule
  pub signal_guardrails : List SignalGuardrail

abbrev pub all_bases : List SelectionBasis
all_bases =
    SelectionBasis.routine_banter ∷ SelectionBasis.explicit_user_correction
    ∷ SelectionBasis.explicit_user_preference ∷ SelectionBasis.explicit_user_permission
    ∷ SelectionBasis.verified_project_decision ∷ SelectionBasis.assistant_observation
    ∷ SelectionBasis.assistant_interpretation ∷ SelectionBasis.imported_legacy
    ∷ SelectionBasis.meaningful_episodic_anchor ∷ SelectionBasis.explicit_user_request ∷ []

abbrev pub all_signals : List ContentSignal
all_signals =
    ContentSignal.roleplayed_scene ∷ ContentSignal.assistant_preference_like
    ∷ ContentSignal.subjective_experience_claim ∷ []

abbrev pub basis_rule_ids : List BasisRule → List Text
basis_rule_ids [] = []
basis_rule_ids (r ∷ rules) = r.rule_id ∷ basis_rule_ids rules

abbrev pub guardrail_ids : List SignalGuardrail → List Text
guardrail_ids [] = []
guardrail_ids (g ∷ guardrails) = g.rule_id ∷ guardrail_ids guardrails

abbrev pub bases_of : List BasisRule → List SelectionBasis
bases_of [] = []
bases_of (r ∷ rules) = r.basis ∷ bases_of rules

abbrev pub signals_of : List SignalGuardrail → List ContentSignal
signals_of [] = []
signals_of (g ∷ guardrails) = g.signal ∷ signals_of guardrails

-- `validate_complete_profile`, on a profile whose rules passed their own validators. The precedence,
-- the identifier and the defaults are fixed by their types.
unfoldable pub profile_checks : SelectionPolicyProfile → Bool
profile_checks p =
    is_length 32 p.basis_rules
    && is_length 16 p.signal_guardrails
    && all basis_rule_checks p.basis_rules
    && all guardrail_checks p.signal_guardrails
    && all_unique (bases_of p.basis_rules)
    && same_set (bases_of p.basis_rules) all_bases
    && all_unique (signals_of p.signal_guardrails)
    && same_set (signals_of p.signal_guardrails) all_signals
    && all_unique (basis_rule_ids p.basis_rules ++ guardrail_ids p.signal_guardrails)

-- `profile_version` is always "selection-v1".
pub record LoadedSelectionPolicy : Type 0 where
  pub profile : SelectionPolicyProfile
  pub sha256_hex : Text

pub record PolicyDecision : Type 0 where
  pub profile_sha256 : Text
  pub outcome : PolicyOutcome
  pub reason_codes : List PolicyReasonCode
  pub matched_rule_ids : List Text
  pub required_qualifiers : List EpistemicQualifier
  pub candidate_ttl_days : Option ℕ

-- A full match of `[0-9a-f]{64}`.
unfoldable pub is_sha256_hex : Text → Bool
is_sha256_hex s = length s == 64 && all (λ c. leb 48 c && leb c 57 || leb 97 c && leb c 102) s

-- The fields' patterns and bounds, and `validate_decision`.
unfoldable pub decision_checks : PolicyDecision → Bool
unfolding is_sha256_hex
decision_checks d =
    is_sha256_hex d.profile_sha256
    && leb 1 (length d.reason_codes)
    && leb (length d.reason_codes) 8
    && leb (length d.matched_rule_ids) 16
    && leb (length d.required_qualifiers) 16
    && is_ttl d.candidate_ttl_days
    && all_unique d.reason_codes
    && all_unique d.matched_rule_ids
    && all_unique d.required_qualifiers
    && (d.outcome == PolicyOutcome.candidate && is_some d.candidate_ttl_days
        || not (d.outcome == PolicyOutcome.candidate) && not (is_some d.candidate_ttl_days))

pub record CandidateLifecycleState : Type 0 where
  pub status : MemoryStatus
  pub selection_basis : SelectionBasis
  pub content_signals : List ContentSignal
  pub evidence : List EvidenceSummary
  pub policy_profile_version : Text
  pub policy_profile_sha256 : Text

pub record ExpiryEvaluation : Type 0 where
  pub candidate : CandidateLifecycleState
  pub deadline : ℕ
  pub evaluated_at : ℕ

pub record LifecycleDecision : Type 0 where
  pub action : LifecycleAction
  pub reason_code : LifecycleReasonCode
  pub policy_profile_sha256 : Text
