-- ===== src/Policy/Evaluator.antt =====
-- policy/evaluator.py. `return _reject(...)` is a stop of the computation, and the decision is built
-- from where it stopped.
use scalevault.Prelude.{
  ℕ, Bool, true, not, ◌&&◌, ◌||◌, Option, none, some, List, [], ◌∷◌, ◌++◌, Text, ◌==◌, leb, any,
  elem, keep, dedup, subset, length, is_some, is_none, is_empty, nat_Eq, list_Eq, option_Eq, Result,
  ok, err, ◌>>=◌, ◌>>◌, raise_if, raise_first, or_raise, map_err, if◌then◌else◌,
}
use scalevault.Domain.Enums.{
  memory_category_Eq, ontological_status_Eq, memory_scope_Eq, memory_visibility_Eq,
}
use scalevault.Domain.Operations.{authority_class_Eq}
use scalevault.Domain.Constraints.Matrix.{category_ontology_compatibility}
use scalevault.Policy.Vocabulary.{
  ContentSignal, content_signal_Eq, EpistemicQualifier, epistemic_qualifier_Eq, evidence_kind_Eq,
  evidence_trust_Eq, selection_basis_Eq, PolicyOutcome, policy_outcome_Eq, PolicyReasonCode,
}
use scalevault.Policy.Contracts.{
  EvidenceSummary, SelectionRequest, BasisRule, SignalGuardrail, SelectionPolicyProfile,
  LoadedSelectionPolicy, PolicyDecision, decision_checks, guardrail_ids,
}

-- The qualifiers in the order of their values.
abbrev pub qualifiers_by_value : List EpistemicQualifier
qualifiers_by_value =
    EpistemicQualifier.assistant_pattern_not_subjective_experience
    ∷ EpistemicQualifier.imported_source_unreconciled ∷ EpistemicQualifier.roleplay_not_literal
    ∷ EpistemicQualifier.single_episode_not_stable_pattern
    ∷ EpistemicQualifier.subjective_experience_unresolved ∷ []

-- `sorted(set(values), key=value)`: each member once, in the order of the values.
unfoldable pub ordered_qualifiers : List EpistemicQualifier → List EpistemicQualifier
ordered_qualifiers values = keep (λ q. elem q values) qualifiers_by_value

unfoldable pub first_rule : SelectionRequest → List BasisRule → Option BasisRule
first_rule q [] = none
first_rule q (r ∷ rules) =
    let rest = first_rule q rules in if r.basis == q.basis then some r else rest

unfoldable pub guardrail_violation : SelectionRequest → SignalGuardrail → Option PolicyReasonCode
guardrail_violation q g =
    if not (elem q.category g.allowed_categories)
    then some g.violation_code
    else if not (elem q.ontological_status g.allowed_ontologies)
    then some g.violation_code
    else if not (elem q.scope g.allowed_scopes)
    then (if g.signal == ContentSignal.roleplayed_scene
        then some PolicyReasonCode.roleplay_scope_forbidden
        else some g.violation_code)
    else if not (elem q.visibility g.allowed_visibilities)
    then (if g.signal == ContentSignal.roleplayed_scene
        then some PolicyReasonCode.roleplay_visibility_forbidden
        else some g.violation_code)
    else none

abbrev pub evidence_keys : (EvidenceSummary → Bool) → List EvidenceSummary → List Text
evidence_keys p [] = []
evidence_keys p (e ∷ es) =
    let rest = evidence_keys p es in if p e then e.evidence_key ∷ rest else rest

unfoldable pub evidence_satisfies : SelectionRequest → BasisRule → Bool
evidence_satisfies q r = elim r.evidence_requirement [
  | none ↦ true
  | some n ↦ leb n.minimum (
      length (dedup (evidence_keys (λ e. elem e.kind n.kinds && elem e.trust n.trusts) q.evidence)))
]

abbrev pub qualifiers_of : List SignalGuardrail → List EpistemicQualifier
qualifiers_of [] = []
qualifiers_of (g ∷ guardrails) = g.required_qualifiers ++ qualifiers_of guardrails

unfoldable pub first_violation : SelectionRequest → List SignalGuardrail → Option PolicyReasonCode
first_violation q [] = none
first_violation q (g ∷ guardrails) = elim (guardrail_violation q g) [
  | some v ↦ some v
  | none ↦ first_violation q guardrails
]

-- The TTLs of the guardrails that force a candidate.
unfoldable pub forced_ttls : List SignalGuardrail → List ℕ
forced_ttls [] = []
forced_ttls (g ∷ guardrails) =
    let rest = forced_ttls guardrails in
    if g.force_candidate
    then elim g.forced_candidate_ttl_days [ none ↦ rest | some n ↦ n ∷ rest ]
    else rest

-- `min(values)`, which raises for no values.
unfoldable pub minimum_of : List ℕ → Option ℕ
minimum_of [] = none
minimum_of (n ∷ ns) = elim (minimum_of ns) [
  | none ↦ some n
  | some m ↦ some (if leb n m then n else m)
]

pub data Stop : Type 0 where
  rejected : PolicyReasonCode → List Text → List EpistemicQualifier → Stop
  value_error : Stop

-- What a decision that is not a rejection says.
pub record Verdict : Type 0 where
  pub outcome : PolicyOutcome
  pub reason : PolicyReasonCode
  pub matched_rule_ids : List Text
  pub required_qualifiers : List EpistemicQualifier
  pub candidate_ttl_days : Option ℕ

unfoldable pub applicable_guardrails :
    SelectionRequest → SelectionPolicyProfile → List SignalGuardrail
applicable_guardrails q p = keep (λ g. elem g.signal q.content_signals) p.signal_guardrails

-- The tests behind the guardrails: authority, evidence, category and reason.
abbrev pub basis_checks : SelectionRequest → BasisRule → List (Bool × PolicyReasonCode)
basis_checks q r =
    (
      is_some r.required_authority
          && not (r.required_authority == some q.effective_authority_class),
      PolicyReasonCode.authority_not_established,
    )
    ∷ (not (evidence_satisfies q r), PolicyReasonCode.evidence_required)
    ∷ (
      not (is_empty r.allowed_categories) && not (elem q.category r.allowed_categories),
      PolicyReasonCode.basis_category_incompatible,
    )
    ∷ (is_none q.reason_to_remember, PolicyReasonCode.reason_required)
    ∷ []

-- The outcome of a request that passed all tests.
unfoldable pub accepted :
    BasisRule → List SignalGuardrail → List Text → List EpistemicQualifier → Result Stop Verdict
accepted r gs ids required =
    if any (λ g. g.force_candidate) gs
    then (do
      days ← or_raise (minimum_of (forced_ttls gs)) value_error
      ok (record {
        outcome = PolicyOutcome.candidate;
        reason = r.reason_code;
        matched_rule_ids = ids;
        required_qualifiers = required;
        candidate_ttl_days = some days;
      }))
    else ok (record {
      outcome = r.outcome;
      reason = r.reason_code;
      matched_rule_ids = ids;
      required_qualifiers = required;
      candidate_ttl_days = r.candidate_ttl_days;
    })

-- A test that holds stops with its reason.
abbrev pub rejecting :
    List (Bool × PolicyReasonCode) → List Text → List EpistemicQualifier → Result Stop (Unit {0})
rejecting checks ids required = map_err (λ code. rejected code ids required) (raise_first checks)

abbrev pub no_violation :
    Option PolicyReasonCode → List Text → List EpistemicQualifier → Result Stop (Unit {0})
no_violation none ids required = ok tt
no_violation (some code) ids required = err (rejected code ids required)

-- The evaluation under a basis rule that keeps content.
unfoldable pub keep_under :
    SelectionRequest → SelectionPolicyProfile → BasisRule → Result Stop Verdict
keep_under q p r =
    let gs = applicable_guardrails q p in
    let ids = r.rule_id ∷ guardrail_ids gs in
    let required = ordered_qualifiers (qualifiers_of gs) in
    let all_required = ordered_qualifiers (r.required_qualifiers ++ required) in
    let needs_limits =
      r.requires_interpretation_limits || any (λ g. g.requires_interpretation_limits) gs in
    do
      no_violation (first_violation q gs) ids required
      rejecting (basis_checks q r) ids required
      raise_if
          (not (subset all_required q.epistemic_qualifiers)
            || needs_limits && is_empty q.interpretation_limits)
          (rejected PolicyReasonCode.epistemic_qualification_required ids all_required)
      accepted r gs ids all_required

-- An omission: the guardrails and the tests are not asked.
abbrev pub omitted : BasisRule → Verdict
omitted r = record {
  outcome = PolicyOutcome.omit;
  reason = r.reason_code;
  matched_rule_ids = r.rule_id ∷ [];
  required_qualifiers = [];
  candidate_ttl_days = none;
}

unfoldable pub verdict : SelectionRequest → SelectionPolicyProfile → Result Stop Verdict
verdict q p = do
  raise_if (not (elem q.ontological_status (category_ontology_compatibility q.category)))
      (rejected PolicyReasonCode.category_ontology_incompatible [] [])
  r ← or_raise (first_rule q p.basis_rules) (rejected PolicyReasonCode.no_matching_rule [] [])
  if r.outcome == PolicyOutcome.omit then ok (omitted r) else keep_under q p r

pub data PolicyError : Type 0 where
  validation_error minimum_of_nothing : PolicyError

-- What `_decision` builds.
abbrev pub decided : LoadedSelectionPolicy → Verdict → PolicyDecision
decided l v = record {
  profile_sha256 = l.sha256_hex;
  outcome = v.outcome;
  reason_codes = v.reason ∷ [];
  matched_rule_ids = v.matched_rule_ids;
  required_qualifiers = v.required_qualifiers;
  candidate_ttl_days = v.candidate_ttl_days;
}

-- `_decision`: the decision, if its validators pass.
unfoldable pub decision : LoadedSelectionPolicy → Verdict → Result PolicyError PolicyDecision
decision l v = do raise_if (not (decision_checks (decided l v))) validation_error; ok (decided l v)

-- `_reject`
abbrev pub rejection : PolicyReasonCode → List Text → List EpistemicQualifier → Verdict
rejection reason ids required = record {
  outcome = PolicyOutcome.reject;
  reason = reason;
  matched_rule_ids = ids;
  required_qualifiers = required;
  candidate_ttl_days = none;
}

-- The decision of a computation, by where it ended.
unfoldable pub conclude :
    LoadedSelectionPolicy → Result Stop Verdict → Result PolicyError PolicyDecision
conclude l (ok v) = decision l v
conclude l (err (rejected reason ids required)) = decision l (rejection reason ids required)
conclude l (err value_error) = err minimum_of_nothing

unfoldable pub evaluate_selection :
    SelectionRequest → LoadedSelectionPolicy → Result PolicyError PolicyDecision
evaluate_selection q l = conclude l (verdict q l.profile)
