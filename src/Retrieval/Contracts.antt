-- ===== src/Retrieval/Contracts.antt =====
-- retrieval/contracts.py: the reader's authority, the filters, and the queries of the seven reads.
-- A frozenset is the list of its members, an instant a number.
use scalevault.Prelude.{ℕ, Bool, false, Option, none, List, [], Text}
use scalevault.Domain.Identifiers.{Uuid}
use scalevault.Domain.Enums.{MemoryCategory, OntologicalStatus, MemoryScope, MemoryVisibility}
use scalevault.Domain.Operations.{SubjectKind}

pub record QueryPrincipal : Type 0 where
  pub tenant_id : Uuid
  pub actor_id : Uuid
  pub client_id : Uuid
  pub transport_binding_id : Uuid
  pub scopes : List Text
  pub allowed_memory_scopes : List MemoryScope
  pub allowed_visibilities : List MemoryVisibility
  pub max_sensitivity : ℕ
  pub allow_candidates : Bool
  pub ingress_id : Option Uuid

pub record MemoryFilters : Type 0 where
  pub subject_ids : List Uuid
  pub subject_kinds : List SubjectKind
  pub categories : List MemoryCategory
  pub ontological_statuses : List OntologicalStatus
  pub scopes : List MemoryScope
  pub visibilities : List MemoryVisibility
  pub include_candidates : Bool
  pub valid_at : Option ℕ

-- `MemoryFilters()`
abbrev pub no_filters : MemoryFilters
no_filters = record {
  subject_ids = [];
  subject_kinds = [];
  categories = [];
  ontological_statuses = [];
  scopes = [];
  visibilities = [];
  include_candidates = false;
  valid_at = none;
}

-- The fields that all queries share; the version of the contract is a constant.
pub record SemanticReadQuery : Type 0 where
  pub persona_id : Uuid
  pub branch_id : Uuid
  pub logical_session_id : Option Uuid
  pub project_ref : Option Text
  pub relationship_ref : Option Text

pub record TimeWindow : Type 0 where
  pub starts_at : ℕ
  pub ends_at : ℕ

-- The union `DirectReadQuery`, each class with the fields that it adds.
pub data DirectReadQuery : Type 0 where
  context_pack :
      SemanticReadQuery
      → (query : Text) (requested_memory_scopes : List MemoryScope) (token_budget : ℕ)
      → DirectReadQuery
  search :
      SemanticReadQuery
      → (query : Text) (filters : MemoryFilters) (limit : ℕ) (explain : Bool) → DirectReadQuery
  get : SemanticReadQuery → (memory_id : Uuid) (include_conflicts : Bool) → DirectReadQuery
  timeline :
      SemanticReadQuery
      → (window : TimeWindow) (filters : MemoryFilters) (limit : ℕ) → DirectReadQuery
  conflicts :
      SemanticReadQuery
      → (query : Option Text) (subject_id : Option Uuid) (limit : ℕ) → DirectReadQuery
  lineage : SemanticReadQuery → DirectReadQuery
  selection_history : SemanticReadQuery → (limit : ℕ) → DirectReadQuery

abbrev pub common : DirectReadQuery → SemanticReadQuery
common (context_pack q query scopes budget) = q
common (search q query filters limit explain) = q
common (get q memory_id include_conflicts) = q
common (timeline q window filters limit) = q
common (conflicts q query subject_id limit) = q
common (lineage q) = q
common (selection_history q limit) = q
