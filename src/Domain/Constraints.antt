-- ===== src/Domain/Constraints.antt =====
-- domain/constraints.py: the closed matrix of categories and ontological statuses, and the
-- structural rules of a memory. `Rules` states the rules one by one, `Exact` that the code decides
-- them.
pub mod Matrix
pub mod Rules
pub mod Exact
use scalevault.Prelude.{
  Bool, true, false, ◌&&◌, ◌||◌, not, Option, none, some, ◌∷◌, [], Result, ok, err, ◌>>◌, List,
  raise_if, raise_first, nat_eq, ◌==◌, ◌!=◌, elem, is_some, is_none, holds, ℤ, pos, negsuc, within,
  if◌then◌else◌,
}
use scalevault.Domain.Enums.{
  MemoryCategory, OntologicalStatus, MemoryScope, MemoryVisibility, MemoryStatus,
  ontological_status_Eq, memory_scope_Eq, memory_visibility_Eq, memory_status_Eq,
}
use scalevault.Domain.Operations.{SubjectKind, TransportKind, subject_kind_Eq, transport_kind_Eq}
use scalevault.Domain.Identifiers.{Uuid, is_uuid7}
use Matrix.{category_ontology_compatibility}

-- The codes of `DomainConstraintError`. `invalid_contract_enum` and `invalid_context_flag` have no
-- counterpart: a field of the context has its enumeration, or `Bool`, as its type.
pub data ConstraintCode : Type 0 where
  category_ontology_incompatible invalid_origin_session sensitivity_out_of_range : ConstraintCode
  branch_visibility_forbidden scope_subject_mismatch global_roleplay_forbidden : ConstraintCode
  scope_anchor_mismatch episodic_origin_missing scene_origin_mismatch : ConstraintCode
  scene_visibility_forbidden shareable_sensitive public_seed_not_active : ConstraintCode
  public_seed_sensitive public_seed_unapproved github_scope_forbidden : ConstraintCode
  relay_sensitivity_forbidden : ConstraintCode

pub record MemoryConstraintContext : Type 0 where
  pub category : MemoryCategory
  pub ontological_status : OntologicalStatus
  pub scope : MemoryScope
  pub visibility : MemoryVisibility
  pub status : MemoryStatus
  pub sensitivity : ℤ
  pub subject_kind : SubjectKind
  pub origin_session_id : Option Uuid
  pub origin_session_matches : Bool
  pub structural_anchor_matches : Bool
  pub imported_provenance : Bool
  pub publication_approved : Bool
  pub branch_allows_visibility : Bool
  pub transport_kind : TransportKind

abbrev pub Checked : Type 0
Checked = Result ConstraintCode (Unit {0})

unfoldable pub validate_category_ontology : MemoryCategory → OntologicalStatus → Checked
validate_category_ontology category status =
    raise_if (not (elem status (category_ontology_compatibility category)))
      category_ontology_incompatible

-- `SCOPED_SUBJECT_KINDS`; the other scopes have no entry.
unfoldable pub scoped_subject_kind : MemoryScope → Option SubjectKind
scoped_subject_kind MemoryScope.persona = some SubjectKind.persona
scoped_subject_kind MemoryScope.relationship = some SubjectKind.relationship
scoped_subject_kind MemoryScope.project = some SubjectKind.project
scoped_subject_kind MemoryScope.episodic = some SubjectKind.episode
scoped_subject_kind _ = none

abbrev is_four : ℤ → Bool
is_four (pos n) = nat_eq n 4
is_four (negsuc n) = false

-- The checks behind the one on the category, in the source's order.
unfoldable pub structural_checks : MemoryConstraintContext → List (Bool × ConstraintCode)
unfolding scoped_subject_kind
structural_checks c =
    let global = c.scope == MemoryScope.global in
    let expected = scoped_subject_kind c.scope in
    let episodic = c.scope == MemoryScope.episodic in
    let scene = c.scope == MemoryScope.scene_local in
    let origin_matches = is_some c.origin_session_id && c.origin_session_matches in
    let public = c.visibility == MemoryVisibility.public_seed in
    (not (within 4 c.sensitivity), sensitivity_out_of_range)
    ∷ (not c.branch_allows_visibility, branch_visibility_forbidden)
    ∷ (global && c.subject_kind != SubjectKind.global, scope_subject_mismatch)
    ∷ (
      global && c.ontological_status == OntologicalStatus.fictional_or_roleplayed_scene,
      global_roleplay_forbidden,
    )
    ∷ (is_some expected && not (holds (λ k. c.subject_kind == k) expected), scope_subject_mismatch)
    ∷ (is_some expected && not c.structural_anchor_matches, scope_anchor_mismatch)
    ∷ (episodic && not (origin_matches || c.imported_provenance), episodic_origin_missing)
    ∷ (scene && c.subject_kind != SubjectKind.scene, scope_subject_mismatch)
    ∷ (scene && not c.structural_anchor_matches, scope_anchor_mismatch)
    ∷ (scene && not origin_matches, scene_origin_mismatch)
    ∷ (
      scene && elem c.visibility (MemoryVisibility.shareable ∷ MemoryVisibility.public_seed ∷ []),
      scene_visibility_forbidden,
    )
    ∷ (
      c.visibility == MemoryVisibility.shareable && not (within 1 c.sensitivity),
      shareable_sensitive,
    )
    ∷ (public && c.status != MemoryStatus.active, public_seed_not_active)
    ∷ (public && not (within 0 c.sensitivity), public_seed_sensitive)
    ∷ (public && not c.publication_approved, public_seed_unapproved)
    ∷ (
      c.transport_kind == TransportKind.github_ingress
          && elem c.scope (MemoryScope.global ∷ MemoryScope.scene_local ∷ []),
      github_scope_forbidden,
    )
    ∷ (
      c.transport_kind == TransportKind.relay && is_four c.sensitivity,
      relay_sensitivity_forbidden,
    )
    ∷ []

unfoldable pub validate_memory_constraints : MemoryConstraintContext → Checked
unfolding structural_checks
validate_memory_constraints c = do
  raise_first (
      (
        is_some c.origin_session_id && not (holds is_uuid7 c.origin_session_id),
        invalid_origin_session,
      )
      ∷ [])
  validate_category_ontology c.category c.ontological_status
  raise_first (structural_checks c)
