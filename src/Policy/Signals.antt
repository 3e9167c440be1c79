-- ===== src/Policy/Signals.antt =====
-- The signals that policy/lifecycle.py reads back from the rule identifiers of a decision
-- that keeps content.
use mathlib.Core.Path.{subst}
use scalevault.Prelude.{
  ◌≡◌, refl, ap, sym, ◌∙◌, Bool, some, none, List, [], ◌∷◌, All, keep, elem, Bool-cases, inl, inr,
  arith, ◌==◌, Text, ◌&&◌, true, ==→eq, any, found, ok, ok-injective, >>-eq-ok, raise_if,
}
use scalevault.Policy.Vocabulary.{
  ContentSignal, content_signal_Eq, selection_basis_Eq, EpistemicQualifier, PolicyOutcome,
  policy_outcome_Eq,
}
use scalevault.Policy.Contracts.{
  SelectionRequest, BasisRule, SignalGuardrail, guardrail_ids, signals_of, SelectionPolicyProfile,
  PolicyDecision, LoadedSelectionPolicy,
}
use scalevault.Policy.Evaluator.{
  applicable_guardrails, first_rule, Verdict, value_error, accepted, minimum_of, forced_ttls,
  keep_under, no_violation, rejecting, verdict, evaluate_selection,
}
use scalevault.Policy.Kept.{IsKept, not_omitted, concluded_kept}
use scalevault.Policy.Lifecycle.{signal_of_rule_id, content_signals_from_rule_ids}
use scalevault.Policy.Profile.{selection_v1}

abbrev IsNamed : SignalGuardrail → Type 0
IsNamed g = signal_of_rule_id g.rule_id ≡ some g.signal

All-keep :
    (p : SignalGuardrail → Bool) (gs : List SignalGuardrail)
    → All IsNamed gs
    → All IsNamed (keep p gs)
All-keep p [] a = tt
All-keep p (g ∷ gs) a = elim (Bool-cases (p g)) [
  | inl y ↦ rw (All, y) (a.0, All-keep p gs a.1)
  | inr n ↦ rw (All, n) (All-keep p gs a.1)
]

known_id :
    (i : Text) (ids : List Text) (s : ContentSignal)
    → signal_of_rule_id i ≡ some s
    → content_signals_from_rule_ids (i ∷ ids) ≡ s ∷ content_signals_from_rule_ids ids
unfolding content_signals_from_rule_ids
known_id i ids s h = ground (arith, h)

unknown_id :
    (i : Text) (ids : List Text)
    → signal_of_rule_id i ≡ none
    → content_signals_from_rule_ids (i ∷ ids) ≡ content_signals_from_rule_ids ids
unfolding content_signals_from_rule_ids
unknown_id i ids h = ground (arith, h)

signals_named :
    (gs : List SignalGuardrail)
    → All IsNamed gs
    → content_signals_from_rule_ids (guardrail_ids gs) ≡ signals_of gs
unfolding content_signals_from_rule_ids
signals_named [] a = refl
signals_named (g ∷ gs) a =
    known_id g.rule_id _ g.signal a.0 ∙ ap (λ l. g.signal ∷ l) (signals_named gs a.1)

named : All IsNamed selection_v1.signal_guardrails
unfolding signal_of_rule_id
named = (refl, (refl, (refl, tt)))

-- No basis rule names a signal.
first_rule-unnamed :
    (q : SelectionRequest) (rules : List BasisRule) (r : BasisRule)
    → All (λ s. signal_of_rule_id s.rule_id ≡ none) rules
    → first_rule q rules ≡ some r
    → signal_of_rule_id r.rule_id ≡ none
unfolding first_rule
first_rule-unnamed q [] r a h = cc
first_rule-unnamed q (s ∷ rules) r a h = elim (Bool-cases (s.basis == q.basis)) [
  | inl y ↦
      let same : s ≡ r = ground (arith, y, h) in
      subst (λ x. signal_of_rule_id x.rule_id ≡ none) same a.0
  | inr n ↦ first_rule-unnamed q rules r a.1 (ground (arith, n, h))
]

unnamed :
    (q : SelectionRequest) (r : BasisRule)
    → first_rule q selection_v1.basis_rules ≡ some r
    → signal_of_rule_id r.rule_id ≡ none
unfolding signal_of_rule_id
unnamed q r =
    first_rule-unnamed q selection_v1.basis_rules r
      (refl, (refl, (refl, (refl, (refl, (refl, (refl, (refl, (refl, (refl, tt))))))))))

-- The guardrails that apply carry the signals that the request and the profile share.
elem-applicable :
    (qs : List ContentSignal) (gs : List SignalGuardrail) (s : ContentSignal)
    → elem s (signals_of (keep (λ g. elem g.signal qs) gs)) ≡ (elem s (signals_of gs) && elem s qs)
elem-applicable qs [] s = refl
elem-applicable qs (g ∷ gs) s =
    let rest = elem-applicable qs gs s in
    elim (Bool-cases (s == g.signal)) [
      | inl same ↦
          let both = ap (λ x. elem x qs) (==→eq s g.signal same) in
          elim (Bool-cases (elem g.signal qs)) [
            | inl y ↦ rw (y, same, both) (sym y)
            | inr n ↦ rw (n, same, both) (ground (arith, rest, both, n))
          ]
      | inr apart ↦ elim (Bool-cases (elem g.signal qs)) [
        | inl y ↦ rw (y, apart) rest
        | inr n ↦ rw (n, apart) rest
      ]
    ]

every_signal : (s : ContentSignal) → elem s (signals_of selection_v1.signal_guardrails) ≡ true
every_signal ContentSignal.roleplayed_scene = refl
every_signal ContentSignal.assistant_preference_like = refl
every_signal ContentSignal.subjective_experience_claim = refl

accepted_ids :
    (r : BasisRule) (gs : List SignalGuardrail) (ids : List Text) (qs : List EpistemicQualifier)
    (v : Verdict)
    → accepted r gs ids qs ≡ ok v
    → v.matched_rule_ids ≡ ids
unfolding accepted
accepted_ids r gs ids qs v h = elim (Bool-cases (any (λ g. g.force_candidate) gs)) [
  | inl y ↦
      let (m, least, e) = found (minimum_of (forced_ttls gs)) value_error _ (rw y at h) in
      ap (λ (v : Verdict). v.matched_rule_ids) (ok-injective e)
  | inr n ↦ ap (λ (v : Verdict). v.matched_rule_ids) (ok-injective (rw n at h))
]

-- The identifiers of a verdict behind the guardrails and the tests.
keep_under_ids :
    (q : SelectionRequest) (p : SelectionPolicyProfile) (r : BasisRule) (v : Verdict)
    → keep_under q p r ≡ ok v
    → v.matched_rule_ids ≡ r.rule_id ∷ guardrail_ids (applicable_guardrails q p)
unfolding keep_under
keep_under_ids q p r v h =
    let (_, h1) = >>-eq-ok (no_violation _ _ _) _ h in
    let (_, h2) = >>-eq-ok (rejecting _ _ _) _ h1 in
    let (_, h3) = >>-eq-ok (raise_if _ _) _ h2 in
    accepted_ids r (applicable_guardrails q p) _ _ v h3

verdict_ids :
    (q : SelectionRequest) (p : SelectionPolicyProfile) (v : Verdict)
    → IsKept v.outcome
    → verdict q p ≡ ok v
    → (r : BasisRule) × (first_rule q p.basis_rules ≡ some r)
      × (v.matched_rule_ids ≡ r.rule_id ∷ guardrail_ids (applicable_guardrails q p))
unfolding verdict
verdict_ids q p v k h =
    let (_, h1) = >>-eq-ok (raise_if _ _) _ h in
    let (r, there, h2) = found (first_rule q p.basis_rules) _ _ h1 in
    elim (Bool-cases (r.outcome == PolicyOutcome.omit)) [
      | inl y ↦ absurd (not_omitted (ap (λ (x : Verdict). x.outcome) (ok-injective (rw y at h2))) k)
      | inr n ↦ (r, there, keep_under_ids q p r v (rw n at h2))
    ]

-- Under selection-v1, if a decision keeps content, the rule identifiers that it records give back the
-- content signals of the request: a signal is read from them exactly if the request carried it.
pub content_signals_from_rule_ids-evaluate_selection :
    (q : SelectionRequest) (sha256_hex : Text) (d : PolicyDecision) (s : ContentSignal)
    → IsKept d.outcome
    → evaluate_selection q (record { profile = selection_v1; sha256_hex = sha256_hex }) ≡ ok d
    → elem s (content_signals_from_rule_ids d.matched_rule_ids) ≡ elem s q.content_signals
unfolding evaluate_selection applicable_guardrails
content_signals_from_rule_ids-evaluate_selection q sha256_hex d s k h =
    let l : LoadedSelectionPolicy = record { profile = selection_v1; sha256_hex = sha256_hex } in
    let (v, ends, e) = concluded_kept l (verdict q selection_v1) d k h in
    let (r, there, recorded) =
      verdict_ids q selection_v1 v (subst (λ d. IsKept d.outcome) e k) ends in
    let gs = applicable_guardrails q selection_v1 in
    let read =
      unknown_id r.rule_id (guardrail_ids gs) (unnamed q r there)
      ∙ signals_named gs
          (All-keep (λ g. elem g.signal q.content_signals) selection_v1.signal_guardrails named) in
    let ids = ap (λ (d : PolicyDecision). d.matched_rule_ids) e ∙ recorded in
    ap (λ ids. elem s (content_signals_from_rule_ids ids)) ids
    ∙ ap (elem s) read
    ∙ elem-applicable q.content_signals selection_v1.signal_guardrails s
    ∙ rw (every_signal s) refl
