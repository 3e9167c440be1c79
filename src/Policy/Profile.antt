-- ===== src/Policy/Profile.antt =====
-- policy/profiles/selection-v1.json, as the loader of policy/loader.py reads it.
use scalevault.Prelude.{true, false, none, some, [], ◌∷◌, codes}
use scalevault.Domain.Enums.{MemoryCategory, OntologicalStatus, MemoryScope, MemoryVisibility}
use scalevault.Domain.Operations.{AuthorityClass}
use scalevault.Policy.Vocabulary.{
  SelectionBasis, ContentSignal, EpistemicQualifier, EvidenceKind, EvidenceTrust, PolicyOutcome,
  PolicyReasonCode,
}
use scalevault.Policy.Contracts.{BasisRule, SignalGuardrail, SelectionPolicyProfile}

abbrev routine_banter_rule : BasisRule
routine_banter_rule = record {
  rule_id = codes "basis.routine_banter";
  basis = SelectionBasis.routine_banter;
  outcome = PolicyOutcome.omit;
  reason_code = PolicyReasonCode.routine_banter_omitted;
  allowed_categories = [];
  required_authority = none;
  evidence_requirement = none;
  required_qualifiers = [];
  requires_interpretation_limits = false;
  candidate_ttl_days = none;
}

abbrev explicit_user_correction_rule : BasisRule
explicit_user_correction_rule = record {
  rule_id = codes "basis.explicit_user_correction";
  basis = SelectionBasis.explicit_user_correction;
  outcome = PolicyOutcome.active;
  reason_code = PolicyReasonCode.explicit_user_correction;
  allowed_categories =
      MemoryCategory.stable_fact ∷ MemoryCategory.user_preference
      ∷ MemoryCategory.boundary_or_permission ∷ MemoryCategory.interaction_convention
      ∷ MemoryCategory.project_decision ∷ MemoryCategory.project_state ∷ MemoryCategory.procedure
      ∷ [];
  required_authority = some AuthorityClass.explicit_user_correction;
  evidence_requirement = some (record {
    kinds = EvidenceKind.user_correction ∷ [];
    trusts = EvidenceTrust.trusted ∷ [];
    minimum = 1;
  });
  required_qualifiers = [];
  requires_interpretation_limits = false;
  candidate_ttl_days = none;
}

abbrev explicit_user_preference_rule : BasisRule
explicit_user_preference_rule = record {
  rule_id = codes "basis.explicit_user_preference";
  basis = SelectionBasis.explicit_user_preference;
  outcome = PolicyOutcome.active;
  reason_code = PolicyReasonCode.explicit_user_preference;
  allowed_categories = MemoryCategory.user_preference ∷ [];
  required_authority = some AuthorityClass.explicit_user_statement;
  evidence_requirement = some (record {
    kinds = EvidenceKind.user_statement ∷ [];
    trusts = EvidenceTrust.trusted ∷ [];
    minimum = 1;
  });
  required_qualifiers = [];
  requires_interpretation_limits = false;
  candidate_ttl_days = none;
}

abbrev explicit_user_permission_rule : BasisRule
explicit_user_permission_rule = record {
  rule_id = codes "basis.explicit_user_permission";
  basis = SelectionBasis.explicit_user_permission;
  outcome = PolicyOutcome.active;
  reason_code = PolicyReasonCode.explicit_user_permission;
  allowed_categories = MemoryCategory.boundary_or_permission ∷ [];
  required_authority = some AuthorityClass.explicit_user_statement;
  evidence_requirement = some (record {
    kinds = EvidenceKind.user_statement ∷ [];
    trusts = EvidenceTrust.trusted ∷ [];
    minimum = 1;
  });
  required_qualifiers = [];
  requires_interpretation_limits = false;
  candidate_ttl_days = none;
}

abbrev verified_project_decision_rule : BasisRule
verified_project_decision_rule = record {
  rule_id = codes "basis.verified_project_decision";
  basis = SelectionBasis.verified_project_decision;
  outcome = PolicyOutcome.active;
  reason_code = PolicyReasonCode.verified_project_decision;
  allowed_categories = MemoryCategory.project_decision ∷ [];
  required_authority = some AuthorityClass.verified_project_source;
  evidence_requirement = some (record {
    kinds = EvidenceKind.project_source ∷ [];
    trusts = EvidenceTrust.trusted ∷ EvidenceTrust.corroborated ∷ [];
    minimum = 1;
  });
  required_qualifiers = [];
  requires_interpretation_limits = false;
  candidate_ttl_days = none;
}

abbrev pub assistant_observation_rule : BasisRule
assistant_observation_rule = record {
  rule_id = codes "basis.assistant_observation";
  basis = SelectionBasis.assistant_observation;
  outcome = PolicyOutcome.candidate;
  reason_code = PolicyReasonCode.assistant_observation_candidate;
  allowed_categories =
      MemoryCategory.assistant_preference_like_pattern ∷ MemoryCategory.relationship_pattern
      ∷ MemoryCategory.emergent_tendency ∷ MemoryCategory.episodic_anchor
      ∷ MemoryCategory.interpretation ∷ [];
  required_authority = some AuthorityClass.assistant_observation;
  evidence_requirement = some (record {
    kinds = EvidenceKind.assistant_observation ∷ EvidenceKind.conversation_episode ∷ [];
    trusts = EvidenceTrust.trusted ∷ EvidenceTrust.corroborated ∷ [];
    minimum = 1;
  });
  required_qualifiers = [];
  requires_interpretation_limits = false;
  candidate_ttl_days = some 180;
}

abbrev assistant_interpretation_rule : BasisRule
assistant_interpretation_rule = record {
  rule_id = codes "basis.assistant_interpretation";
  basis = SelectionBasis.assistant_interpretation;
  outcome = PolicyOutcome.candidate;
  reason_code = PolicyReasonCode.assistant_interpretation_candidate;
  allowed_categories =
      MemoryCategory.assistant_preference_like_pattern ∷ MemoryCategory.relationship_pattern
      ∷ MemoryCategory.emergent_tendency ∷ MemoryCategory.episodic_anchor
      ∷ MemoryCategory.open_question ∷ MemoryCategory.interpretation ∷ [];
  required_authority = some AuthorityClass.assistant_interpretation;
  evidence_requirement = some (record {
    kinds = EvidenceKind.conversation_episode ∷ [];
    trusts = EvidenceTrust.trusted ∷ EvidenceTrust.corroborated ∷ [];
    minimum = 1;
  });
  required_qualifiers = EpistemicQualifier.single_episode_not_stable_pattern ∷ [];
  requires_interpretation_limits = true;
  candidate_ttl_days = some 90;
}

abbrev imported_legacy_rule : BasisRule
imported_legacy_rule = record {
  rule_id = codes "basis.imported_legacy";
  basis = SelectionBasis.imported_legacy;
  outcome = PolicyOutcome.candidate;
  reason_code = PolicyReasonCode.imported_legacy_candidate;
  allowed_categories = [];
  required_authority = some AuthorityClass.imported_legacy_memory;
  evidence_requirement = some (record {
    kinds = EvidenceKind.import_manifest ∷ [];
    trusts = EvidenceTrust.trusted ∷ EvidenceTrust.corroborated ∷ [];
    minimum = 1;
  });
  required_qualifiers = EpistemicQualifier.imported_source_unreconciled ∷ [];
  requires_interpretation_limits = true;
  candidate_ttl_days = some 365;
}

abbrev meaningful_episodic_anchor_rule : BasisRule
meaningful_episodic_anchor_rule = record {
  rule_id = codes "basis.meaningful_episodic_anchor";
  basis = SelectionBasis.meaningful_episodic_anchor;
  outcome = PolicyOutcome.candidate;
  reason_code = PolicyReasonCode.meaningful_episodic_anchor;
  allowed_categories = MemoryCategory.episodic_anchor ∷ [];
  required_authority = none;
  evidence_requirement = some (record {
    kinds = EvidenceKind.conversation_episode ∷ [];
    trusts = EvidenceTrust.trusted ∷ EvidenceTrust.corroborated ∷ [];
    minimum = 1;
  });
  required_qualifiers = [];
  requires_interpretation_limits = false;
  candidate_ttl_days = some 365;
}

abbrev explicit_user_request_rule : BasisRule
explicit_user_request_rule = record {
  rule_id = codes "basis.explicit_user_request";
  basis = SelectionBasis.explicit_user_request;
  outcome = PolicyOutcome.active;
  reason_code = PolicyReasonCode.explicit_user_request;
  allowed_categories = [];
  required_authority = some AuthorityClass.explicit_user_statement;
  evidence_requirement = some (record {
    kinds = EvidenceKind.user_statement ∷ [];
    trusts = EvidenceTrust.trusted ∷ [];
    minimum = 1;
  });
  required_qualifiers = [];
  requires_interpretation_limits = false;
  candidate_ttl_days = none;
}

abbrev roleplayed_scene_guardrail : SignalGuardrail
roleplayed_scene_guardrail = record {
  rule_id = codes "guardrail.roleplayed_scene";
  signal = ContentSignal.roleplayed_scene;
  allowed_categories = MemoryCategory.episodic_anchor ∷ [];
  allowed_ontologies = OntologicalStatus.fictional_or_roleplayed_scene ∷ [];
  allowed_scopes = MemoryScope.episodic ∷ MemoryScope.scene_local ∷ [];
  allowed_visibilities = MemoryVisibility.private_root ∷ MemoryVisibility.restricted ∷ [];
  required_qualifiers = EpistemicQualifier.roleplay_not_literal ∷ [];
  requires_interpretation_limits = true;
  force_candidate = true;
  forced_candidate_ttl_days = some 180;
  violation_code = PolicyReasonCode.roleplay_literalization;
}

abbrev assistant_preference_like_guardrail : SignalGuardrail
assistant_preference_like_guardrail = record {
  rule_id = codes "guardrail.assistant_preference_like";
  signal = ContentSignal.assistant_preference_like;
  allowed_categories = MemoryCategory.assistant_preference_like_pattern ∷ [];
  allowed_ontologies =
      OntologicalStatus.assistant_self_description ∷ OntologicalStatus.observed_assistant_behavior
      ∷ OntologicalStatus.hypothesis ∷ OntologicalStatus.uncertain ∷ [];
  allowed_scopes =
      MemoryScope.persona ∷ MemoryScope.relationship ∷ MemoryScope.episodic
      ∷ MemoryScope.scene_local ∷ [];
  allowed_visibilities =
      MemoryVisibility.private_root ∷ MemoryVisibility.restricted ∷ MemoryVisibility.shareable ∷ [];
  required_qualifiers = EpistemicQualifier.assistant_pattern_not_subjective_experience ∷ [];
  requires_interpretation_limits = true;
  force_candidate = true;
  forced_candidate_ttl_days = some 180;
  violation_code = PolicyReasonCode.epistemic_qualification_required;
}

abbrev subjective_experience_claim_guardrail : SignalGuardrail
subjective_experience_claim_guardrail = record {
  rule_id = codes "guardrail.subjective_experience_claim";
  signal = ContentSignal.subjective_experience_claim;
  allowed_categories =
      MemoryCategory.assistant_preference_like_pattern ∷ MemoryCategory.open_question
      ∷ MemoryCategory.interpretation ∷ [];
  allowed_ontologies = OntologicalStatus.hypothesis ∷ OntologicalStatus.uncertain ∷ [];
  allowed_scopes =
      MemoryScope.persona ∷ MemoryScope.relationship ∷ MemoryScope.episodic
      ∷ MemoryScope.scene_local ∷ [];
  allowed_visibilities = MemoryVisibility.private_root ∷ MemoryVisibility.restricted ∷ [];
  required_qualifiers = EpistemicQualifier.subjective_experience_unresolved ∷ [];
  requires_interpretation_limits = true;
  force_candidate = true;
  forced_candidate_ttl_days = some 90;
  violation_code = PolicyReasonCode.sentience_overclaim;
}

abbrev pub selection_v1 : SelectionPolicyProfile
selection_v1 = record {
  basis_rules =
      routine_banter_rule ∷ explicit_user_correction_rule ∷ explicit_user_preference_rule
      ∷ explicit_user_permission_rule ∷ verified_project_decision_rule ∷ assistant_observation_rule
      ∷ assistant_interpretation_rule ∷ imported_legacy_rule ∷ meaningful_episodic_anchor_rule
      ∷ explicit_user_request_rule ∷ [];
  signal_guardrails =
      roleplayed_scene_guardrail ∷ assistant_preference_like_guardrail
      ∷ subjective_experience_claim_guardrail ∷ [];
}
