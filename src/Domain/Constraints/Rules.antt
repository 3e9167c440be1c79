-- ===== src/Domain/Constraints/Rules.antt =====
-- The rules of domain/constraints.py, stated for each scope, visibility and transport.
use scalevault.Prelude.{ℕ, ◌≤◌, ◌≡◌, ◌≢◌, ◌⊎◌, Bool, true, Option, none, some, ℤ, pos, negsuc, elem}
use scalevault.Domain.Enums.{
  OntologicalStatus, MemoryScope, MemoryVisibility, MemoryStatus, ontological_status_Eq,
}
use scalevault.Domain.Operations.{SubjectKind, TransportKind}
use scalevault.Domain.Identifiers.{Uuid, is_uuid7}
use scalevault.Domain.Constraints.Matrix.{category_ontology_compatibility}
use scalevault.Domain.Constraints.{MemoryConstraintContext}

-- The sensitivity is a number from 0 to `bound`.
abbrev pub AtMost : ℕ → ℤ → Type 0
AtMost bound (pos n) = n ≤ bound
AtMost bound (negsuc n) = ⊥

-- A given session is a UUIDv7.
abbrev pub SessionRule : Option Uuid → Type 0
SessionRule none = Unit
SessionRule (some u) = is_uuid7 u ≡ true

-- There is a session, and it matches.
abbrev pub FromSession : Option Uuid → Bool → Type 0
FromSession none matches = ⊥
FromSession (some u) matches = matches ≡ true

abbrev pub ScopeRule : MemoryScope → MemoryConstraintContext → Type 0
ScopeRule MemoryScope.global c =
    (c.subject_kind ≡ SubjectKind.global)
    × (c.ontological_status ≢ OntologicalStatus.fictional_or_roleplayed_scene)
ScopeRule MemoryScope.persona c =
    (c.subject_kind ≡ SubjectKind.persona) × (c.structural_anchor_matches ≡ true)
ScopeRule MemoryScope.relationship c =
    (c.subject_kind ≡ SubjectKind.relationship) × (c.structural_anchor_matches ≡ true)
ScopeRule MemoryScope.project c =
    (c.subject_kind ≡ SubjectKind.project) × (c.structural_anchor_matches ≡ true)
ScopeRule MemoryScope.episodic c =
    (c.subject_kind ≡ SubjectKind.episode)
    × (c.structural_anchor_matches ≡ true)
    × (FromSession c.origin_session_id c.origin_session_matches ⊎ (c.imported_provenance ≡ true))
ScopeRule MemoryScope.scene_local c =
    (c.subject_kind ≡ SubjectKind.scene)
    × (c.structural_anchor_matches ≡ true)
    × FromSession c.origin_session_id c.origin_session_matches
    × (c.visibility ≢ MemoryVisibility.shareable)
    × (c.visibility ≢ MemoryVisibility.public_seed)

abbrev pub VisibilityRule : MemoryVisibility → MemoryConstraintContext → Type 0
VisibilityRule MemoryVisibility.private_root c = Unit
VisibilityRule MemoryVisibility.restricted c = Unit
VisibilityRule MemoryVisibility.shareable c = AtMost 1 c.sensitivity
VisibilityRule MemoryVisibility.public_seed c =
    (c.status ≡ MemoryStatus.active) × AtMost 0 c.sensitivity × (c.publication_approved ≡ true)

abbrev pub TransportRule : TransportKind → MemoryConstraintContext → Type 0
TransportRule TransportKind.github_ingress c =
    (c.scope ≢ MemoryScope.global) × (c.scope ≢ MemoryScope.scene_local)
TransportRule TransportKind.relay c = AtMost 3 c.sensitivity
TransportRule _ c = Unit

pub record IsAdmissible (c : MemoryConstraintContext) : Type 0 where
  pub session : SessionRule c.origin_session_id
  pub compatible : elem c.ontological_status (category_ontology_compatibility c.category) ≡ true
  pub sensitivity : AtMost 4 c.sensitivity
  pub branch : c.branch_allows_visibility ≡ true
  pub scope : ScopeRule c.scope c
  pub visibility : VisibilityRule c.visibility c
  pub transport : TransportRule c.transport_kind c
