-- ===== src/Policy/Vocabulary.antt =====
-- The vocabularies of policy/contracts.py. The tag of a member is its place in the source's order.
use scalevault.Prelude.{ℕ, ◌≡◌, arith, Eq, tag_Eq}

pub data SelectionBasis : Type 0 where
  routine_banter explicit_user_correction explicit_user_preference explicit_user_permission :
      SelectionBasis
  verified_project_decision assistant_observation assistant_interpretation imported_legacy :
      SelectionBasis
  meaningful_episodic_anchor explicit_user_request : SelectionBasis

abbrev pub selection_basis_tag : SelectionBasis → ℕ
selection_basis_tag SelectionBasis.routine_banter = 0
selection_basis_tag SelectionBasis.explicit_user_correction = 1
selection_basis_tag SelectionBasis.explicit_user_preference = 2
selection_basis_tag SelectionBasis.explicit_user_permission = 3
selection_basis_tag SelectionBasis.verified_project_decision = 4
selection_basis_tag SelectionBasis.assistant_observation = 5
selection_basis_tag SelectionBasis.assistant_interpretation = 6
selection_basis_tag SelectionBasis.imported_legacy = 7
selection_basis_tag SelectionBasis.meaningful_episodic_anchor = 8
selection_basis_tag SelectionBasis.explicit_user_request = 9

pub selection_basis_apart :
    (a b : SelectionBasis) → selection_basis_tag a ≡ selection_basis_tag b → a ≡ b
selection_basis_apart a b h = ground arith

instance abbrev pub selection_basis_Eq : Eq SelectionBasis
selection_basis_Eq = tag_Eq selection_basis_tag selection_basis_apart

pub data ContentSignal : Type 0 where
  roleplayed_scene assistant_preference_like subjective_experience_claim : ContentSignal

abbrev pub content_signal_tag : ContentSignal → ℕ
content_signal_tag ContentSignal.roleplayed_scene = 0
content_signal_tag ContentSignal.assistant_preference_like = 1
content_signal_tag ContentSignal.subjective_experience_claim = 2

pub content_signal_apart :
    (a b : ContentSignal) → content_signal_tag a ≡ content_signal_tag b → a ≡ b
content_signal_apart a b h = ground arith

instance abbrev pub content_signal_Eq : Eq ContentSignal
content_signal_Eq = tag_Eq content_signal_tag content_signal_apart

pub data EpistemicQualifier : Type 0 where
  roleplay_not_literal assistant_pattern_not_subjective_experience single_episode_not_stable_pattern
        subjective_experience_unresolved :
      EpistemicQualifier
  imported_source_unreconciled : EpistemicQualifier

abbrev pub epistemic_qualifier_tag : EpistemicQualifier → ℕ
epistemic_qualifier_tag EpistemicQualifier.roleplay_not_literal = 0
epistemic_qualifier_tag EpistemicQualifier.assistant_pattern_not_subjective_experience = 1
epistemic_qualifier_tag EpistemicQualifier.single_episode_not_stable_pattern = 2
epistemic_qualifier_tag EpistemicQualifier.subjective_experience_unresolved = 3
epistemic_qualifier_tag EpistemicQualifier.imported_source_unreconciled = 4

pub epistemic_qualifier_apart :
    (a b : EpistemicQualifier) → epistemic_qualifier_tag a ≡ epistemic_qualifier_tag b → a ≡ b
epistemic_qualifier_apart a b h = ground arith

instance abbrev pub epistemic_qualifier_Eq : Eq EpistemicQualifier
epistemic_qualifier_Eq = tag_Eq epistemic_qualifier_tag epistemic_qualifier_apart

pub data EvidenceKind : Type 0 where
  user_statement user_correction user_confirmation project_source : EvidenceKind
  assistant_observation import_manifest conversation_episode : EvidenceKind

abbrev pub evidence_kind_tag : EvidenceKind → ℕ
evidence_kind_tag EvidenceKind.user_statement = 0
evidence_kind_tag EvidenceKind.user_correction = 1
evidence_kind_tag EvidenceKind.user_confirmation = 2
evidence_kind_tag EvidenceKind.project_source = 3
evidence_kind_tag EvidenceKind.assistant_observation = 4
evidence_kind_tag EvidenceKind.import_manifest = 5
evidence_kind_tag EvidenceKind.conversation_episode = 6

pub evidence_kind_apart : (a b : EvidenceKind) → evidence_kind_tag a ≡ evidence_kind_tag b → a ≡ b
evidence_kind_apart a b h = ground arith

instance abbrev pub evidence_kind_Eq : Eq EvidenceKind
evidence_kind_Eq = tag_Eq evidence_kind_tag evidence_kind_apart

pub data EvidenceTrust : Type 0 where
  trusted corroborated unverified : EvidenceTrust

abbrev pub evidence_trust_tag : EvidenceTrust → ℕ
evidence_trust_tag EvidenceTrust.trusted = 0
evidence_trust_tag EvidenceTrust.corroborated = 1
evidence_trust_tag EvidenceTrust.unverified = 2

pub evidence_trust_apart :
    (a b : EvidenceTrust) → evidence_trust_tag a ≡ evidence_trust_tag b → a ≡ b
evidence_trust_apart a b h = ground arith

instance abbrev pub evidence_trust_Eq : Eq EvidenceTrust
evidence_trust_Eq = tag_Eq evidence_trust_tag evidence_trust_apart

pub data PolicyOutcome : Type 0 where
  omit reject candidate active : PolicyOutcome

abbrev pub policy_outcome_tag : PolicyOutcome → ℕ
policy_outcome_tag PolicyOutcome.omit = 0
policy_outcome_tag PolicyOutcome.reject = 1
policy_outcome_tag PolicyOutcome.candidate = 2
policy_outcome_tag PolicyOutcome.active = 3

pub policy_outcome_apart :
    (a b : PolicyOutcome) → policy_outcome_tag a ≡ policy_outcome_tag b → a ≡ b
policy_outcome_apart a b h = ground arith

instance abbrev pub policy_outcome_Eq : Eq PolicyOutcome
policy_outcome_Eq = tag_Eq policy_outcome_tag policy_outcome_apart

pub data LifecycleAction : Type 0 where
  no_op promote retire : LifecycleAction

pub data LifecycleReasonCode : Type 0 where
  not_candidate policy_profile_mismatch trusted_user_confirmation independent_observations :
      LifecycleReasonCode
  protected_candidate insufficient_evidence expiry_not_due candidate_expired : LifecycleReasonCode

pub data PolicyReasonCode : Type 0 where
  no_matching_rule routine_banter_omitted explicit_user_correction explicit_user_preference :
      PolicyReasonCode
  explicit_user_permission verified_project_decision assistant_observation_candidate
        assistant_interpretation_candidate :
      PolicyReasonCode
  imported_legacy_candidate meaningful_episodic_anchor explicit_user_request reason_required :
      PolicyReasonCode
  evidence_required authority_not_established basis_category_incompatible
        category_ontology_incompatible :
      PolicyReasonCode
  roleplay_literalization roleplay_scope_forbidden roleplay_visibility_forbidden
        epistemic_qualification_required :
      PolicyReasonCode
  sentience_overclaim : PolicyReasonCode

abbrev policy_reason_code_tag : PolicyReasonCode → ℕ
policy_reason_code_tag PolicyReasonCode.no_matching_rule = 0
policy_reason_code_tag PolicyReasonCode.routine_banter_omitted = 1
policy_reason_code_tag PolicyReasonCode.explicit_user_correction = 2
policy_reason_code_tag PolicyReasonCode.explicit_user_preference = 3
policy_reason_code_tag PolicyReasonCode.explicit_user_permission = 4
policy_reason_code_tag PolicyReasonCode.verified_project_decision = 5
policy_reason_code_tag PolicyReasonCode.assistant_observation_candidate = 6
policy_reason_code_tag PolicyReasonCode.assistant_interpretation_candidate = 7
policy_reason_code_tag PolicyReasonCode.imported_legacy_candidate = 8
policy_reason_code_tag PolicyReasonCode.meaningful_episodic_anchor = 9
policy_reason_code_tag PolicyReasonCode.explicit_user_request = 10
policy_reason_code_tag PolicyReasonCode.reason_required = 11
policy_reason_code_tag PolicyReasonCode.evidence_required = 12
policy_reason_code_tag PolicyReasonCode.authority_not_established = 13
policy_reason_code_tag PolicyReasonCode.basis_category_incompatible = 14
policy_reason_code_tag PolicyReasonCode.category_ontology_incompatible = 15
policy_reason_code_tag PolicyReasonCode.roleplay_literalization = 16
policy_reason_code_tag PolicyReasonCode.roleplay_scope_forbidden = 17
policy_reason_code_tag PolicyReasonCode.roleplay_visibility_forbidden = 18
policy_reason_code_tag PolicyReasonCode.epistemic_qualification_required = 19
policy_reason_code_tag PolicyReasonCode.sentience_overclaim = 20

pub policy_reason_code_apart :
    (a b : PolicyReasonCode) → policy_reason_code_tag a ≡ policy_reason_code_tag b → a ≡ b
policy_reason_code_apart a b h = ground arith

instance abbrev pub policy_reason_code_Eq : Eq PolicyReasonCode
policy_reason_code_Eq = tag_Eq policy_reason_code_tag policy_reason_code_apart
