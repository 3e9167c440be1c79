-- ===== src/Tests/RetrievalRuns.antt =====
-- A reader of a project memory, and the theorems on eligibility there.
use scalevault.Prelude.{
  ◌≡◌, ◌↔◌, refl, true, false, none, some, [], ◌∷◌, codes, raise_first, list_Eq, nat_Eq,
}
use scalevault.Domain.Enums.{
  MemoryCategory, OntologicalStatus, MemoryScope, MemoryVisibility, MemoryStatus,
}
use scalevault.Domain.Operations.{SubjectKind}
use scalevault.Retrieval.Contracts.{QueryPrincipal, MemoryFilters, no_filters, DirectReadQuery}
use scalevault.Retrieval.Eligibility.{
  ResolvedReadContext, EligibilityCandidate, EligibilityDecision, evaluate_eligibility,
  conflict_group_eligible, operation_authorized, required_scope, filters_for_query,
}
use scalevault.Retrieval.Authority.{Authorized, Requested, evaluate_eligibility-exact}
use scalevault.Tests.Samples.{id, tenant, lineage, branch, memory}

abbrev principal : QueryPrincipal
principal = record {
  tenant_id = tenant;
  actor_id = id 11;
  client_id = id 12;
  transport_binding_id = id 13;
  scopes = codes "memory.read.search" ∷ [];
  allowed_memory_scopes = MemoryScope.project ∷ [];
  allowed_visibilities = MemoryVisibility.private_root ∷ [];
  max_sensitivity = 2;
  allow_candidates = false;
  ingress_id = none;
}

abbrev context : ResolvedReadContext
context = record {
  tenant_id = tenant;
  lineage_id = lineage;
  branch_id = branch;
  logical_session_id = none;
  project_subject_id = some (id 5);
  relationship_subject_id = none;
}

abbrev project_memory : EligibilityCandidate
project_memory = record {
  tenant_id = tenant;
  lineage_id = lineage;
  branch_id = branch;
  memory_id = memory;
  subject_id = id 5;
  subject_kind = SubjectKind.project;
  category = MemoryCategory.project_decision;
  ontological_status = OntologicalStatus.literal_technical_fact;
  scope = MemoryScope.project;
  visibility = MemoryVisibility.private_root;
  sensitivity = 1;
  status = MemoryStatus.active;
  origin_session_id = none;
  valid_from = some 3;
  valid_to = none;
}

abbrev filters : MemoryFilters
filters = record no_filters { categories = MemoryCategory.project_decision ∷ [] }

abbrev query : DirectReadQuery
query =
    DirectReadQuery.search
      (record {
        persona_id = id 14;
        branch_id = branch;
        logical_session_id = none;
        project_ref = none;
        relationship_ref = none;
      })
      (codes "store") filters 20 true

run_eligible :
    (evaluate_eligibility principal context project_memory query filters 7).is_eligible ≡ true
unfolding evaluate_eligibility operation_authorized required_scope raise_first
run_eligible = refl

run_filters : filters_for_query query ≡ filters
unfolding filters_for_query
run_filters = refl

evaluate_eligibility-exact_example :
    ((evaluate_eligibility principal context project_memory query filters 7).is_eligible ≡ true)
    ↔ (Authorized principal context query project_memory × Requested filters 7 project_memory)
evaluate_eligibility-exact_example =
    evaluate_eligibility-exact principal context project_memory query filters 7

abbrev decision : EligibilityDecision
unfolding evaluate_eligibility
decision = evaluate_eligibility principal context project_memory query filters 7

-- A group of one is not a conflict to expand, and one of two readable members is.
run_groups :
    (conflict_group_eligible (decision ∷ []) ≡ false)
    × (conflict_group_eligible (decision ∷ decision ∷ []) ≡ true)
unfolding conflict_group_eligible evaluate_eligibility operation_authorized required_scope
    raise_first
run_groups = (refl, refl)
