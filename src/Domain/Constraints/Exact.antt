-- ===== src/Domain/Constraints/Exact.antt =====
-- The validator accepts exactly the contexts that the rules admit.
use scalevault.Prelude.{
  ◌≡◌, refl, ◌↔◌, ok, true, raise_if, passed, preceding_checks, passes, raise_first, >>-eq-ok,
  Passed, arith,
}
use scalevault.Domain.Enums.{MemoryScope, MemoryVisibility, ontological_status_Eq}
use scalevault.Domain.Operations.{TransportKind}
use scalevault.Domain.Constraints.{
  MemoryConstraintContext, validate_memory_constraints, validate_category_ontology,
  structural_checks,
}
use scalevault.Domain.Constraints.Rules.{
  IsAdmissible, AtMost, ScopeRule, VisibilityRule, TransportRule,
}

module _ (c : MemoryConstraintContext) (h : Passed (structural_checks c)) where
  scope_rule : (s : MemoryScope) → c.scope ≡ s → ScopeRule s c
  unfolding structural_checks
  scope_rule MemoryScope.global e = ground arith
  scope_rule _ e = ground arith

  visibility_rule : (v : MemoryVisibility) → c.visibility ≡ v → VisibilityRule v c
  unfolding structural_checks
  visibility_rule MemoryVisibility.private_root e = tt
  visibility_rule MemoryVisibility.restricted e = tt
  visibility_rule _ e = ground arith

  transport_rule : (t : TransportKind) → c.transport_kind ≡ t → TransportRule t c
  unfolding structural_checks
  transport_rule TransportKind.relay e = ground arith
  transport_rule TransportKind.github_ingress e = ground arith
  transport_rule _ e = tt

  sensitivity_rule : AtMost 4 c.sensitivity
  unfolding structural_checks
  sensitivity_rule = ground arith

  branch_rule : c.branch_allows_visibility ≡ true
  unfolding structural_checks
  branch_rule = ground arith

module _ (c : MemoryConstraintContext) where
  validate-IsAdmissible : validate_memory_constraints c ≡ ok tt → IsAdmissible c
  unfolding validate_memory_constraints validate_category_ontology raise_if
  validate-IsAdmissible h0 =
      let (session, h1) = preceding_checks _ _ h0 in
      let (category, h2) =
        >>-eq-ok (validate_category_ontology c.category c.ontological_status) _ h1 in
      let checks = passed (structural_checks c) h2 in
      record {
        session = ground arith;
        compatible = ground arith;
        sensitivity = sensitivity_rule c checks;
        branch = branch_rule c checks;
        scope = scope_rule c checks c.scope refl;
        visibility = visibility_rule c checks c.visibility refl;
        transport = transport_rule c checks c.transport_kind refl;
      }

  IsAdmissible-Passed : IsAdmissible c → Passed (structural_checks c)
  unfolding structural_checks
  IsAdmissible-Passed h = ground arith

  IsAdmissible-validate : IsAdmissible c → validate_memory_constraints c ≡ ok tt
  unfolding validate_memory_constraints validate_category_ontology raise_first raise_if
  IsAdmissible-validate h = ground (arith, passes (structural_checks c) (IsAdmissible-Passed h))

  -- A memory context passes `validate_memory_constraints` exactly if it meets the rule of its
  -- session, category, sensitivity, branch, scope, visibility and transport.
  pub validate_memory_constraints-exact : (validate_memory_constraints c ≡ ok tt) ↔ IsAdmissible c
  validate_memory_constraints-exact = (validate-IsAdmissible, IsAdmissible-validate)
