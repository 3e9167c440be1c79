-- ===== src/Domain/Enums.antt =====
-- The vocabularies of a memory: category, ontology, scope, visibility and status, of domain/enums.py.
-- The tag of a member is its place in the source's order; members are compared by it.
use scalevault.Prelude.{ℕ, ◌≡◌, arith, Eq, tag_Eq}

pub data MemoryCategory : Type 0 where
  stable_fact user_preference assistant_preference_like_pattern : MemoryCategory
  boundary_or_permission interaction_convention relationship_pattern : MemoryCategory
  emergent_tendency episodic_anchor project_decision project_state procedure : MemoryCategory
  open_question interpretation external_fact : MemoryCategory

abbrev pub memory_category_tag : MemoryCategory → ℕ
memory_category_tag MemoryCategory.stable_fact = 0
memory_category_tag MemoryCategory.user_preference = 1
memory_category_tag MemoryCategory.assistant_preference_like_pattern = 2
memory_category_tag MemoryCategory.boundary_or_permission = 3
memory_category_tag MemoryCategory.interaction_convention = 4
memory_category_tag MemoryCategory.relationship_pattern = 5
memory_category_tag MemoryCategory.emergent_tendency = 6
memory_category_tag MemoryCategory.episodic_anchor = 7
memory_category_tag MemoryCategory.project_decision = 8
memory_category_tag MemoryCategory.project_state = 9
memory_category_tag MemoryCategory.procedure = 10
memory_category_tag MemoryCategory.open_question = 11
memory_category_tag MemoryCategory.interpretation = 12
memory_category_tag MemoryCategory.external_fact = 13

pub memory_category_apart :
    (a b : MemoryCategory) → memory_category_tag a ≡ memory_category_tag b → a ≡ b
memory_category_apart a b h = ground arith

instance abbrev pub memory_category_Eq : Eq MemoryCategory
memory_category_Eq = tag_Eq memory_category_tag memory_category_apart

pub data OntologicalStatus : Type 0 where
  literal_user_fact literal_technical_fact assistant_self_description : OntologicalStatus
  observed_assistant_behavior interaction_convention fictional_or_roleplayed_scene :
      OntologicalStatus
  hypothesis uncertain : OntologicalStatus

abbrev pub ontological_status_tag : OntologicalStatus → ℕ
ontological_status_tag OntologicalStatus.literal_user_fact = 0
ontological_status_tag OntologicalStatus.literal_technical_fact = 1
ontological_status_tag OntologicalStatus.assistant_self_description = 2
ontological_status_tag OntologicalStatus.observed_assistant_behavior = 3
ontological_status_tag OntologicalStatus.interaction_convention = 4
ontological_status_tag OntologicalStatus.fictional_or_roleplayed_scene = 5
ontological_status_tag OntologicalStatus.hypothesis = 6
ontological_status_tag OntologicalStatus.uncertain = 7

pub ontological_status_apart :
    (a b : OntologicalStatus) → ontological_status_tag a ≡ ontological_status_tag b → a ≡ b
ontological_status_apart a b h = ground arith

instance abbrev pub ontological_status_Eq : Eq OntologicalStatus
ontological_status_Eq = tag_Eq ontological_status_tag ontological_status_apart

pub data MemoryScope : Type 0 where
  global persona relationship project episodic scene_local : MemoryScope

abbrev pub memory_scope_tag : MemoryScope → ℕ
memory_scope_tag MemoryScope.global = 0
memory_scope_tag MemoryScope.persona = 1
memory_scope_tag MemoryScope.relationship = 2
memory_scope_tag MemoryScope.project = 3
memory_scope_tag MemoryScope.episodic = 4
memory_scope_tag MemoryScope.scene_local = 5

pub memory_scope_apart : (a b : MemoryScope) → memory_scope_tag a ≡ memory_scope_tag b → a ≡ b
memory_scope_apart a b h = ground arith

instance abbrev pub memory_scope_Eq : Eq MemoryScope
memory_scope_Eq = tag_Eq memory_scope_tag memory_scope_apart

pub data MemoryVisibility : Type 0 where
  private_root restricted shareable public_seed : MemoryVisibility

abbrev pub memory_visibility_tag : MemoryVisibility → ℕ
memory_visibility_tag MemoryVisibility.private_root = 0
memory_visibility_tag MemoryVisibility.restricted = 1
memory_visibility_tag MemoryVisibility.shareable = 2
memory_visibility_tag MemoryVisibility.public_seed = 3

pub memory_visibility_apart :
    (a b : MemoryVisibility) → memory_visibility_tag a ≡ memory_visibility_tag b → a ≡ b
memory_visibility_apart a b h = ground arith

instance abbrev pub memory_visibility_Eq : Eq MemoryVisibility
memory_visibility_Eq = tag_Eq memory_visibility_tag memory_visibility_apart

pub data MemoryStatus : Type 0 where
  candidate active disputed superseded retired tombstoned : MemoryStatus

abbrev pub memory_status_tag : MemoryStatus → ℕ
memory_status_tag MemoryStatus.candidate = 0
memory_status_tag MemoryStatus.active = 1
memory_status_tag MemoryStatus.disputed = 2
memory_status_tag MemoryStatus.superseded = 3
memory_status_tag MemoryStatus.retired = 4
memory_status_tag MemoryStatus.tombstoned = 5

pub memory_status_apart : (a b : MemoryStatus) → memory_status_tag a ≡ memory_status_tag b → a ≡ b
memory_status_apart a b h = ground arith

instance abbrev pub memory_status_Eq : Eq MemoryStatus
memory_status_Eq = tag_Eq memory_status_tag memory_status_apart
