-- ===== src/Domain/Constraints/Matrix.antt =====
-- `CATEGORY_ONTOLOGY_COMPATIBILITY` of domain/constraints.py.
use scalevault.Prelude.{List, [], ◌∷◌, ◌!=◌, keep}
use scalevault.Domain.Enums.{MemoryCategory, OntologicalStatus, ontological_status_Eq}

unfoldable pub all_ontological_statuses : List OntologicalStatus
all_ontological_statuses =
    OntologicalStatus.literal_user_fact ∷ OntologicalStatus.literal_technical_fact
    ∷ OntologicalStatus.assistant_self_description ∷ OntologicalStatus.observed_assistant_behavior
    ∷ OntologicalStatus.interaction_convention ∷ OntologicalStatus.fictional_or_roleplayed_scene
    ∷ OntologicalStatus.hypothesis ∷ OntologicalStatus.uncertain ∷ []

unfoldable pub category_ontology_compatibility : MemoryCategory → List OntologicalStatus
unfolding all_ontological_statuses
category_ontology_compatibility MemoryCategory.stable_fact =
    OntologicalStatus.literal_user_fact ∷ OntologicalStatus.literal_technical_fact ∷ []
category_ontology_compatibility MemoryCategory.user_preference =
    OntologicalStatus.literal_user_fact ∷ OntologicalStatus.uncertain ∷ []
category_ontology_compatibility MemoryCategory.assistant_preference_like_pattern =
    OntologicalStatus.assistant_self_description ∷ OntologicalStatus.observed_assistant_behavior
    ∷ OntologicalStatus.hypothesis ∷ OntologicalStatus.uncertain ∷ []
category_ontology_compatibility MemoryCategory.boundary_or_permission =
    OntologicalStatus.literal_user_fact ∷ OntologicalStatus.interaction_convention
    ∷ OntologicalStatus.uncertain ∷ []
category_ontology_compatibility MemoryCategory.interaction_convention =
    OntologicalStatus.interaction_convention ∷ OntologicalStatus.literal_user_fact
    ∷ OntologicalStatus.uncertain ∷ []
category_ontology_compatibility MemoryCategory.relationship_pattern =
    OntologicalStatus.observed_assistant_behavior ∷ OntologicalStatus.interaction_convention
    ∷ OntologicalStatus.hypothesis ∷ OntologicalStatus.uncertain ∷ []
category_ontology_compatibility MemoryCategory.emergent_tendency =
    OntologicalStatus.assistant_self_description ∷ OntologicalStatus.observed_assistant_behavior
    ∷ OntologicalStatus.hypothesis ∷ OntologicalStatus.uncertain ∷ []
category_ontology_compatibility MemoryCategory.episodic_anchor =
    keep (λ s. s != OntologicalStatus.hypothesis) all_ontological_statuses
category_ontology_compatibility MemoryCategory.project_decision =
    OntologicalStatus.literal_technical_fact ∷ OntologicalStatus.uncertain ∷ []
category_ontology_compatibility MemoryCategory.project_state =
    OntologicalStatus.literal_technical_fact ∷ OntologicalStatus.uncertain ∷ []
category_ontology_compatibility MemoryCategory.procedure =
    OntologicalStatus.literal_technical_fact ∷ OntologicalStatus.interaction_convention
    ∷ OntologicalStatus.uncertain ∷ []
category_ontology_compatibility MemoryCategory.open_question =
    OntologicalStatus.hypothesis ∷ OntologicalStatus.uncertain ∷ []
category_ontology_compatibility MemoryCategory.interpretation =
    OntologicalStatus.hypothesis ∷ OntologicalStatus.uncertain ∷ []
category_ontology_compatibility MemoryCategory.external_fact =
    OntologicalStatus.literal_technical_fact ∷ OntologicalStatus.hypothesis
    ∷ OntologicalStatus.uncertain ∷ []
