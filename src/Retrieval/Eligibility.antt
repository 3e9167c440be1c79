-- ===== src/Retrieval/Eligibility.antt =====
-- retrieval/eligibility.py.
use scalevault.Prelude.{
  ℕ, Bool, true, false, not, ◌&&◌, ◌||◌, Option, none, some, List, [], ◌∷◌, Text, codes, Eq, ◌==◌,
  ltb, leb, all, elem, is_empty, is_none, length, holds, nat_Eq, list_Eq, option_Eq, Result, ok,
  err, raise_first,
}
use scalevault.Domain.Identifiers.{Uuid}
use scalevault.Domain.Enums.{
  MemoryCategory, memory_category_Eq, OntologicalStatus, ontological_status_Eq, MemoryScope,
  memory_scope_Eq, MemoryVisibility, memory_visibility_Eq, MemoryStatus, memory_status_Eq,
}
use scalevault.Domain.Operations.{SubjectKind, subject_kind_Eq}
use scalevault.Retrieval.Contracts.{
  QueryPrincipal, MemoryFilters, no_filters, DirectReadQuery, common, context_pack, search, get,
  timeline, conflicts, lineage, selection_history,
}

-- `_REQUIRED_SCOPES[query.OPERATION]`
unfoldable pub required_scope : DirectReadQuery → Text
required_scope (context_pack q query scopes budget) = codes "memory.read.context"
required_scope (search q query filters limit explain) = codes "memory.read.search"
required_scope (get q memory_id include_conflicts) = codes "memory.read.get"
required_scope (timeline q window filters limit) = codes "memory.read.timeline"
required_scope (conflicts q query subject_id limit) = codes "memory.read.conflicts"
required_scope (lineage q) = codes "memory.read.lineage"
required_scope (selection_history q limit) = codes "memory.read.selection_history"

pub data EligibilityReason : Type 0 where
  eligible unauthorized_operation tenant_mismatch lineage_mismatch : EligibilityReason
  branch_mismatch terminal_status candidate_not_allowed scope_not_authorized : EligibilityReason
  scope_not_requested visibility_not_authorized visibility_not_requested : EligibilityReason
  sensitivity_not_authorized subject_not_requested session_not_eligible : EligibilityReason
  outside_validity_window category_not_requested ontology_not_requested : EligibilityReason
  subject_kind_not_requested : EligibilityReason

pub record ResolvedReadContext : Type 0 where
  pub tenant_id : Uuid
  pub lineage_id : Uuid
  pub branch_id : Uuid
  pub logical_session_id : Option Uuid
  pub project_subject_id : Option Uuid
  pub relationship_subject_id : Option Uuid

pub record EligibilityCandidate : Type 0 where
  pub tenant_id : Uuid
  pub lineage_id : Uuid
  pub branch_id : Uuid
  pub memory_id : Uuid
  pub subject_id : Uuid
  pub subject_kind : SubjectKind
  pub category : MemoryCategory
  pub ontological_status : OntologicalStatus
  pub scope : MemoryScope
  pub visibility : MemoryVisibility
  pub sensitivity : ℕ
  pub status : MemoryStatus
  pub origin_session_id : Option Uuid
  pub valid_from : Option ℕ
  pub valid_to : Option ℕ

pub record EligibilityDecision : Type 0 where
  pub is_eligible : Bool
  pub reason : EligibilityReason

unfoldable pub operation_authorized : QueryPrincipal → DirectReadQuery → Bool
operation_authorized p q = elem (required_scope q) p.scopes || elem (codes "memory:read") p.scopes

unfoldable pub filters_for_query : DirectReadQuery → MemoryFilters
filters_for_query (context_pack q query scopes budget) = record no_filters { scopes = scopes }
filters_for_query (search q query filters limit explain) = filters
filters_for_query (timeline q window filters limit) = filters
filters_for_query _ = no_filters

-- `filters.xs and x not in filters.xs`
abbrev pub excluded : {A : Type 0} ⦃e : Eq A⦄ → A → List A → Bool
excluded x xs = not (is_empty xs) && not (elem x xs)

-- `anchor is None or x != anchor`
abbrev pub unanchored : Option Uuid → Option Uuid → Bool
unanchored anchor x = is_none anchor || not (x == anchor)

abbrev pub valid_time : MemoryFilters → ℕ → ℕ
valid_time f evaluated_at = elim f.valid_at [ none ↦ evaluated_at | some at ↦ at ]

-- The rejections in order, each with its test.
abbrev pub rejections :
    QueryPrincipal
    → ResolvedReadContext
    → EligibilityCandidate
    → DirectReadQuery
    → MemoryFilters
    → ℕ
    → List (Bool × EligibilityReason)
rejections p x c q f evaluated_at =
    (not (operation_authorized p q), unauthorized_operation)
    ∷ (not (p.tenant_id == x.tenant_id) || not (c.tenant_id == p.tenant_id), tenant_mismatch)
    ∷ (not (c.lineage_id == x.lineage_id), lineage_mismatch)
    ∷ (
      not (c.branch_id == x.branch_id) || not (c.branch_id == (common q).branch_id),
      branch_mismatch,
    )
    ∷ (
      elem c.status (MemoryStatus.superseded ∷ MemoryStatus.retired ∷ MemoryStatus.tombstoned ∷ []),
      terminal_status,
    )
    ∷ (
      c.status == MemoryStatus.candidate && not (p.allow_candidates && f.include_candidates),
      candidate_not_allowed,
    )
    ∷ (not (elem c.scope p.allowed_memory_scopes), scope_not_authorized)
    ∷ (excluded c.scope f.scopes, scope_not_requested)
    ∷ (not (elem c.visibility p.allowed_visibilities), visibility_not_authorized)
    ∷ (excluded c.visibility f.visibilities, visibility_not_requested)
    ∷ (ltb p.max_sensitivity c.sensitivity, sensitivity_not_authorized)
    ∷ (excluded c.subject_id f.subject_ids, subject_not_requested)
    ∷ (excluded c.subject_kind f.subject_kinds, subject_kind_not_requested)
    ∷ (excluded c.category f.categories, category_not_requested)
    ∷ (excluded c.ontological_status f.ontological_statuses, ontology_not_requested)
    ∷ (
      c.scope == MemoryScope.project && unanchored x.project_subject_id (some c.subject_id),
      subject_not_requested,
    )
    ∷ (
      c.scope == MemoryScope.relationship
          && unanchored x.relationship_subject_id (some c.subject_id),
      subject_not_requested,
    )
    ∷ (
      elem c.scope (MemoryScope.episodic ∷ MemoryScope.scene_local ∷ [])
          && unanchored x.logical_session_id c.origin_session_id,
      session_not_eligible,
    )
    ∷ (holds (λ from. ltb (valid_time f evaluated_at) from) c.valid_from, outside_validity_window)
    ∷ (holds (λ to. ltb to (valid_time f evaluated_at)) c.valid_to, outside_validity_window)
    ∷ []

-- `return _reject(reason)` for the first test that holds.
abbrev pub decide : Result EligibilityReason (Unit {0}) → EligibilityDecision
decide (ok _) = record { is_eligible = true; reason = eligible }
decide (err reason) = record { is_eligible = false; reason = reason }

unfoldable pub evaluate_eligibility :
    QueryPrincipal
    → ResolvedReadContext
    → EligibilityCandidate
    → DirectReadQuery
    → MemoryFilters
    → ℕ
    → EligibilityDecision
evaluate_eligibility p x c q f evaluated_at =
    decide (raise_first (rejections p x c q f evaluated_at))

unfoldable pub conflict_group_eligible : List EligibilityDecision → Bool
conflict_group_eligible decisions = leb 2 (length decisions) && all (λ d. d.is_eligible) decisions
