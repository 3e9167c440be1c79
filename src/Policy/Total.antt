-- ===== src/Policy/Total.antt =====
-- Under a valid profile the evaluation of policy/evaluator.py always ends in a decision.
use scalevault.Prelude.{
  ℕ, ◌≡◌, ◌≤◌, Bool, true, false, not, ◌&&◌, ◌||◌, Option, none, some, List, [], ◌∷◌, ◌++◌, Text,
  ◌==◌, all, any, length, all_unique, is_some, arith, refl, inl, inr, Bool-cases, Result, ok, err,
  if◌then◌else◌, ◌>>=◌, ◌>>◌, raise_if, raise_first, or_raise, list_Eq, nat_Eq,
}
use scalevault.Policy.Vocabulary.{
  EpistemicQualifier, epistemic_qualifier_Eq, PolicyOutcome, policy_outcome_Eq, PolicyReasonCode,
}
use scalevault.Policy.Contracts.{
  SelectionRequest, BasisRule, SignalGuardrail, SelectionPolicyProfile, LoadedSelectionPolicy,
  PolicyDecision, decision_checks, is_sha256_hex, profile_checks, basis_rule_checks,
  guardrail_checks, is_ttl, guardrail_ids,
}
use scalevault.Policy.Evaluator.{
  Stop, rejected, value_error, Verdict, decided, rejection, omitted, rejecting, no_violation,
  keep_under, verdict, conclude, decision, evaluate_selection, accepted, applicable_guardrails,
  first_rule, ordered_qualifiers, qualifiers_of,
}
use scalevault.Policy.Rules.{
  Matched, guardrail_ids-Matched, first_rule-checks, all-keep, ordered_qualifiers_unique,
  length-ordered_qualifiers, forced_ttl,
}

-- A TTL is there exactly for a candidate, and in its range.
abbrev FitsTtl : PolicyOutcome → Option ℕ → Type 0
FitsTtl o t =
    (is_ttl t
      && (o == PolicyOutcome.candidate && is_some t
          || not (o == PolicyOutcome.candidate) && not (is_some t)))
    ≡ true

decided-checks :
    (l : LoadedSelectionPolicy) (v : Verdict)
    → is_sha256_hex l.sha256_hex ≡ true
    → Matched v.matched_rule_ids
    → all_unique v.required_qualifiers ≡ true
    → length v.required_qualifiers ≤ 5
    → FitsTtl v.outcome v.candidate_ttl_days
    → decision_checks (decided l v) ≡ true
unfolding decision_checks
decided-checks l v x m u n t = ground (arith, x, m.unique, m.few, u, n, t)

module _ (l : LoadedSelectionPolicy) (digest : is_sha256_hex l.sha256_hex ≡ true) where
  -- Where the computation ends, a decision can be built.
  abbrev Ends : Result Stop Verdict → Type 0
  Ends (ok v) = decision_checks (decided l v) ≡ true
  Ends (err (rejected code ids required)) =
      decision_checks (decided l (rejection code ids required)) ≡ true
  Ends (err value_error) = ⊥

  module _ (ids : List Text) (m : Matched ids) (qs : List EpistemicQualifier) where
    rejected-Ends :
        (code : PolicyReasonCode)
        → decision_checks (decided l (rejection code ids (ordered_qualifiers qs))) ≡ true
    rejected-Ends code =
        decided-checks l _ digest m (ordered_qualifiers_unique qs) (length-ordered_qualifiers qs)
          refl

    raise_if-Ends :
        (b : Bool) (code : PolicyReasonCode) (k : Result Stop Verdict)
        → Ends k
        → Ends (raise_if b (rejected code ids (ordered_qualifiers qs)) >> k)
    unfolding raise_if
    raise_if-Ends true code k h = rejected-Ends code
    raise_if-Ends false code k h = h

    rejecting-Ends :
        (checks : List (Bool × PolicyReasonCode)) (k : Result Stop Verdict)
        → Ends k
        → Ends (rejecting checks ids (ordered_qualifiers qs) >> k)
    unfolding raise_first
    rejecting-Ends [] k h = h
    rejecting-Ends ((true, code) ∷ checks) k h = rejected-Ends code
    rejecting-Ends ((false, code) ∷ checks) k h = rejecting-Ends checks k h

    no_violation-Ends :
        (o : Option PolicyReasonCode) (k : Result Stop Verdict)
        → Ends k
        → Ends (no_violation o ids (ordered_qualifiers qs) >> k)
    no_violation-Ends none k h = h
    no_violation-Ends (some code) k h = rejected-Ends code

    accepted-Ends :
        (r : BasisRule) (gs : List SignalGuardrail)
        → basis_rule_checks r ≡ true
        → all guardrail_checks gs ≡ true
        → Ends (accepted r gs ids (ordered_qualifiers qs))
    unfolding accepted or_raise basis_rule_checks
    accepted-Ends r gs c a = elim (Bool-cases (any (λ g. g.force_candidate) gs)) [
      | inl y ↦
          let (n, least, range) = forced_ttl gs a y in
          rw (Ends, y, least)
            (decided-checks l _ digest m (ordered_qualifiers_unique qs)
              (length-ordered_qualifiers qs) (ground (arith, range)))
      | inr n ↦
          rw (Ends, n)
            (decided-checks l _ digest m (ordered_qualifiers_unique qs)
              (length-ordered_qualifiers qs) (ground (arith, c)))
    ]

  keep_under-Ends :
      (q : SelectionRequest) (p : SelectionPolicyProfile) (r : BasisRule)
      → profile_checks p ≡ true
      → first_rule q p.basis_rules ≡ some r
      → basis_rule_checks r ≡ true
      → all guardrail_checks (applicable_guardrails q p) ≡ true
      → Ends (keep_under q p r)
  unfolding keep_under
  keep_under-Ends q p r v h c a =
      let m = guardrail_ids-Matched q p r v h in
      let gs = applicable_guardrails q p in
      let ids = r.rule_id ∷ guardrail_ids gs in
      let required = r.required_qualifiers ++ ordered_qualifiers (qualifiers_of gs) in
      no_violation-Ends ids m (qualifiers_of gs) _ _ (
        rejecting-Ends ids m (qualifiers_of gs) _ _
          (raise_if-Ends ids m required _ _ _ (accepted-Ends ids m required r gs c a)))

  -- A rejection before any rule matched.
  unmatched-Ends :
      (code : PolicyReasonCode) → decision_checks (decided l (rejection code [] [])) ≡ true
  unmatched-Ends code =
      decided-checks l _ digest (record { unique = refl; few = omega arith }) refl (omega arith)
        refl

  stop_if-Ends :
      (b : Bool) (code : PolicyReasonCode) (k : Result Stop Verdict)
      → Ends k
      → Ends (raise_if b (rejected code [] []) >> k)
  unfolding raise_if
  stop_if-Ends true code k h = unmatched-Ends code
  stop_if-Ends false code k h = h

  rule-Ends :
      (o : Option BasisRule) (code : PolicyReasonCode) (k : BasisRule → Result Stop Verdict)
      → ((r : BasisRule) → o ≡ some r → Ends (k r))
      → Ends (or_raise o (rejected code [] []) >>= k)
  unfolding or_raise
  rule-Ends none code k h = unmatched-Ends code
  rule-Ends (some r) code k h = h r refl

  under-Ends :
      (q : SelectionRequest) (p : SelectionPolicyProfile) (r : BasisRule)
      → profile_checks p ≡ true
      → first_rule q p.basis_rules ≡ some r
      → Ends (if r.outcome == PolicyOutcome.omit then ok (omitted r) else keep_under q p r)
  unfolding profile_checks applicable_guardrails
  under-Ends q p r v h = elim (Bool-cases (r.outcome == PolicyOutcome.omit)) [
    | inl y ↦
        rw (Ends, y)
          (decided-checks l _ digest (record { unique = refl; few = omega arith }) refl
            (omega arith) refl)
    | inr n ↦
        rw (Ends, n)
          (keep_under-Ends q p r v h (first_rule-checks q p.basis_rules r (ground (arith, v)) h)
            (all-keep _ guardrail_checks p.signal_guardrails (ground (arith, v))))
  ]

  verdict-Ends :
      (q : SelectionRequest) (p : SelectionPolicyProfile)
      → profile_checks p ≡ true
      → Ends (verdict q p)
  unfolding verdict
  verdict-Ends q p v = stop_if-Ends _ PolicyReasonCode.category_ontology_incompatible _ (
      rule-Ends (first_rule q p.basis_rules) PolicyReasonCode.no_matching_rule _
        λ r h. under-Ends q p r v h)

  concluded : (r : Result Stop Verdict) → Ends r → (d : PolicyDecision) × (conclude l r ≡ ok d)
  unfolding conclude decision raise_if
  concluded (ok v) h = (decided l v, rw h refl)
  concluded (err (rejected code ids required)) h =
      (decided l (rejection code ids required), rw h refl)
  concluded (err value_error) h = absurd h

-- Under a profile that passed its validators and whose digest is 64 hexadecimal digits, every request
-- gets a decision: none of the decision's own validators fails, and the least of the forced TTLs is
-- never taken of nothing.
pub evaluate_selection_total :
    (q : SelectionRequest) (l : LoadedSelectionPolicy)
    → profile_checks l.profile ≡ true
    → is_sha256_hex l.sha256_hex ≡ true
    → (d : PolicyDecision) × (evaluate_selection q l ≡ ok d)
unfolding evaluate_selection
evaluate_selection_total q l v digest =
    concluded l digest (verdict q l.profile) (verdict-Ends l digest q l.profile v)
