-- ===== src/Policy/Kept.antt =====
-- What policy/evaluator.py keeps, and what it asks for.
use mathlib.Core.Path.{subst}
use scalevault.Prelude.{
  ℕ, ◌≡◌, ◌≤◌, ◌⊎◌, Bool, true, false, not, ◌&&◌, ◌||◌, Option, none, some, List, [], ◌∷◌, ◌++◌,
  Text, ◌==◌, any, dedup, length, elem, All, is_some, is_empty, subset, arith, refl, inl, inr,
  Bool-cases, Option-cases, Result, ok, err, raise_if, raise_first, >>-eq-ok, found, passed,
  map_err-eq-ok, ok-injective, list_Eq, nat_Eq, sym, ap, if◌then◌else◌, option_Eq, ==→eq,
}
use scalevault.Domain.Enums.{
  memory_category_Eq, ontological_status_Eq, memory_scope_Eq, memory_visibility_Eq,
}
use scalevault.Domain.Operations.{authority_class_Eq, AuthorityClass}
use scalevault.Domain.Constraints.Matrix.{category_ontology_compatibility}
use scalevault.Policy.Vocabulary.{
  content_signal_Eq, evidence_kind_Eq, evidence_trust_Eq, EpistemicQualifier,
  epistemic_qualifier_Eq, PolicyOutcome, policy_outcome_Eq, PolicyReasonCode, selection_basis_Eq,
}
use scalevault.Policy.Contracts.{
  SelectionRequest, BasisRule, SignalGuardrail, SelectionPolicyProfile, LoadedSelectionPolicy,
  PolicyDecision, guardrail_ids, EvidenceRequirement,
}
use scalevault.Policy.Evaluator.{
  Stop, rejected, value_error, Verdict, decided, rejection, rejecting, no_violation, keep_under,
  verdict, conclude, decision, evaluate_selection, accepted, applicable_guardrails, first_rule,
  ordered_qualifiers, minimum_of, forced_ttls, qualifiers_of, guardrail_violation, first_violation,
  evidence_satisfies, evidence_keys, basis_checks,
}

-- The request is what a guardrail allows.
pub record Allows (q : SelectionRequest) (g : SignalGuardrail) : Type 0 where
  pub category : elem q.category g.allowed_categories ≡ true
  pub ontology : elem q.ontological_status g.allowed_ontologies ≡ true
  pub scope : elem q.scope g.allowed_scopes ≡ true
  pub visibility : elem q.visibility g.allowed_visibilities ≡ true

-- Every qualifier of a list is declared in the request.
abbrev pub Declares : SelectionRequest → List EpistemicQualifier → Type 0
Declares q l = (x : EpistemicQualifier) → elem x l ≡ true → elem x q.epistemic_qualifiers ≡ true

-- What holds of a request under its basis rule if the decision keeps content.
pub record Warranted (q : SelectionRequest) (gs : List SignalGuardrail) (r : BasisRule)
    : Type 0 where
  pub basis : r.basis ≡ q.basis
  pub ontology : elem q.ontological_status (category_ontology_compatibility q.category) ≡ true
  pub guarded : All (Allows q) gs
  pub authority :
      (a : AuthorityClass) → r.required_authority ≡ some a → q.effective_authority_class ≡ a
  pub evidence :
      (n : EvidenceRequirement)
      → r.evidence_requirement ≡ some n
      → n.minimum
        ≤ length
            (dedup (evidence_keys (λ e. elem e.kind n.kinds && elem e.trust n.trusts) q.evidence))
  pub category :
      (is_empty r.allowed_categories ≡ true) ⊎ (elem q.category r.allowed_categories ≡ true)
  pub reason : is_some q.reason_to_remember ≡ true
  pub rule_qualifiers : Declares q r.required_qualifiers
  pub guardrail_qualifiers : All (λ g. Declares q g.required_qualifiers) gs
  pub limits :
      (r.requires_interpretation_limits ≡ true)
        ⊎ (any (λ g. g.requires_interpretation_limits) gs ≡ true)
      → is_empty q.interpretation_limits ≡ false

first_rule-basis :
    (q : SelectionRequest) (rules : List BasisRule) (r : BasisRule)
    → first_rule q rules ≡ some r
    → r.basis ≡ q.basis
unfolding first_rule
first_rule-basis q [] r h = cc
first_rule-basis q (s ∷ rules) r h = elim (Bool-cases (s.basis == q.basis)) [
  | inl y ↦
      let same : s ≡ r = ground (arith, y, h) in
      subst (λ x. x.basis ≡ q.basis) same (==→eq s.basis q.basis y)
  | inr n ↦ first_rule-basis q rules r (ground (arith, n, h))
]

guardrail_violation-Allows :
    (q : SelectionRequest) (g : SignalGuardrail) → guardrail_violation q g ≡ none → Allows q g
unfolding guardrail_violation
guardrail_violation-Allows q g h = record {
  category = ground (arith, h);
  ontology = ground (arith, h);
  scope = ground (arith, h);
  visibility = ground (arith, h);
}

first_violation-Allows :
    (q : SelectionRequest) (gs : List SignalGuardrail)
    → first_violation q gs ≡ none
    → All (Allows q) gs
unfolding first_violation
first_violation-Allows q [] h = tt
first_violation-Allows q (g ∷ gs) h = elim (Option-cases (guardrail_violation q g)) [
  | inl n ↦ (guardrail_violation-Allows q g n, first_violation-Allows q gs (ground (arith, h, n)))
  | inr (v, e) ↦ absurd (ground (arith, h, e))
]

elem-ordered_qualifiers :
    (x : EpistemicQualifier) (l : List EpistemicQualifier)
    → elem x l ≡ true
    → elem x (ordered_qualifiers l) ≡ true
unfolding ordered_qualifiers
elem-ordered_qualifiers EpistemicQualifier.roleplay_not_literal l h = ground (arith, h)
elem-ordered_qualifiers EpistemicQualifier.assistant_pattern_not_subjective_experience l h =
    ground (arith, h)
elem-ordered_qualifiers EpistemicQualifier.single_episode_not_stable_pattern l h = ground (arith, h)
elem-ordered_qualifiers EpistemicQualifier.subjective_experience_unresolved l h = ground (arith, h)
elem-ordered_qualifiers EpistemicQualifier.imported_source_unreconciled l h = ground (arith, h)

elem-subset :
    (x : EpistemicQualifier) (l m : List EpistemicQualifier)
    → subset l m ≡ true
    → elem x l ≡ true
    → elem x m ≡ true
elem-subset x [] m s h = cc
elem-subset x (y ∷ l) m s h = elim (Bool-cases (x == y)) [
  | inl same ↦ rw (==→eq x y same) (ground (arith, s))
  | inr apart ↦ elem-subset x l m (ground (arith, s)) (ground (arith, h, apart))
]

subset-Declares :
    (q : SelectionRequest) (l : List EpistemicQualifier)
    → subset (ordered_qualifiers l) q.epistemic_qualifiers ≡ true
    → Declares q l
subset-Declares q l s x h = elem-subset x _ _ s (elem-ordered_qualifiers x l h)

elem-++ :
    (x : EpistemicQualifier) (l m : List EpistemicQualifier)
    → elem x (l ++ m) ≡ (elem x l || elem x m)
elem-++ x [] m = refl
elem-++ x (y ∷ l) m = ground (arith, elem-++ x l m)

qualifiers_of-Declares :
    (q : SelectionRequest) (gs : List SignalGuardrail)
    → Declares q (qualifiers_of gs)
    → All (λ g. Declares q g.required_qualifiers) gs
qualifiers_of-Declares q [] d = tt
qualifiers_of-Declares q (g ∷ gs) d = (
  λ x h. d x (ground (arith, h, elem-++ x g.required_qualifiers (qualifiers_of gs))),
  qualifiers_of-Declares q gs
      λ x h. d x (ground (arith, h, elem-++ x g.required_qualifiers (qualifiers_of gs))),
)

minimum_of_some : (k : ℕ) (ns : List ℕ) → minimum_of (k ∷ ns) ≡ none → ⊥
unfolding minimum_of
minimum_of_some k ns h = elim (Option-cases (minimum_of ns)) [
  | inl e ↦ ground (arith, h, e)
  | inr (l, e) ↦ ground (arith, h, e)
]

All-weaken : {m l : ℕ} (ns : List ℕ) → m ≤ l → All (λ n. l ≤ n) ns → All (λ n. m ≤ n) ns
All-weaken [] h a = tt
All-weaken (n ∷ ns) h a = (omega (arith, h, a.0), All-weaken ns h a.1)

-- The least of the forced TTLs is under each of them.
minimum_of-least : (ns : List ℕ) (m : ℕ) → minimum_of ns ≡ some m → All (λ n. m ≤ n) ns
unfolding minimum_of
minimum_of-least [] m h = tt
minimum_of-least (n ∷ []) m h = (ground (arith, h), tt)
minimum_of-least (n ∷ k ∷ ns) m h = elim (Option-cases (minimum_of (k ∷ ns))) [
  | inl e ↦ absurd (minimum_of_some k ns e)
  | inr (l, e) ↦ (
    ground (arith, h, e),
    All-weaken (k ∷ ns) (ground (arith, h, e)) (minimum_of-least (k ∷ ns) l e),
  )
]

-- The outcome and the TTL that the guardrails leave to a kept request: one that forces a candidate
-- makes it a candidate, with at most its TTL.
abbrev pub Forces : PolicyOutcome → Option ℕ → SignalGuardrail → Type 0
Forces outcome days g =
    g.force_candidate ≡ true
    → (outcome ≡ PolicyOutcome.candidate)
      × ((n m : ℕ) → g.forced_candidate_ttl_days ≡ some n → days ≡ some m → m ≤ n)

module _ (m : ℕ) where
  head_ttl :
      (b : Bool) (o : Option ℕ) (rest : List ℕ)
      → All (λ n. m ≤ n) (if b then elim o [ none ↦ rest | some n ↦ n ∷ rest ] else rest)
      → ((n : ℕ) → b ≡ true → o ≡ some n → m ≤ n) × All (λ n. m ≤ n) rest
  head_ttl true none rest a = (λ n y e. cc, a)
  head_ttl true (some k) rest a = (λ n y e. ground (arith, a.0, e), a.1)
  head_ttl false o rest a = (λ n y e. cc, a)

  least_Forces :
      (gs : List SignalGuardrail) (v : Verdict)
      → v.outcome ≡ PolicyOutcome.candidate
      → v.candidate_ttl_days ≡ some m
      → All (λ n. m ≤ n) (forced_ttls gs)
      → All (Forces v.outcome v.candidate_ttl_days) gs
  unfolding forced_ttls
  least_Forces [] v o t a = tt
  least_Forces (g ∷ gs) v o t a =
      let (head, rest) =
        head_ttl g.force_candidate g.forced_candidate_ttl_days (forced_ttls gs) a in
      (λ f. (o, λ n k e i. ground (arith, head n f e, i, t)), least_Forces gs v o t rest)

none_Forces :
    (gs : List SignalGuardrail) (v : Verdict)
    → any (λ g. g.force_candidate) gs ≡ false
    → All (Forces v.outcome v.candidate_ttl_days) gs
none_Forces [] v n = tt
none_Forces (g ∷ gs) v n =
    (λ f. absurd (ground (arith, n, f)), none_Forces gs v (ground (arith, n)))

accepted-Forces :
    (r : BasisRule) (gs : List SignalGuardrail) (ids : List Text) (qs : List EpistemicQualifier)
    (v : Verdict)
    → accepted r gs ids qs ≡ ok v
    → All (Forces v.outcome v.candidate_ttl_days) gs
unfolding accepted
accepted-Forces r gs ids qs v h = elim (Bool-cases (any (λ g. g.force_candidate) gs)) [
  | inl y ↦
      let (m, least, e) = found (minimum_of (forced_ttls gs)) value_error _ (rw y at h) in
      let same = ok-injective e in
      least_Forces m gs v (ap (λ x. x.outcome) same) (ap (λ x. x.candidate_ttl_days) same)
        (minimum_of-least (forced_ttls gs) m least)
  | inr n ↦ none_Forces gs v n
]

raise_if-false : {E : Type 0} (b : Bool) (e : E) → raise_if b e ≡ ok tt → b ≡ false
unfolding raise_if
raise_if-false true e h = cc
raise_if-false false e h = refl

no_violation-none :
    (o : Option PolicyReasonCode) (ids : List Text) (qs : List EpistemicQualifier)
    → no_violation o ids qs ≡ ok tt
    → o ≡ none
no_violation-none none ids qs h = refl
no_violation-none (some code) ids qs h = cc

authority_met :
    (o : Option AuthorityClass) (b : AuthorityClass)
    → (is_some o && not (o == some b)) ≡ false
    → (a : AuthorityClass) → o ≡ some a
    → b ≡ a
authority_met none b h a e = cc
authority_met (some c) b h a e = ground (arith, e, ==→eq c b (ground (arith, h)))

evidence_met :
    (q : SelectionRequest) (r : BasisRule)
    → evidence_satisfies q r ≡ true
    → (n : EvidenceRequirement) → r.evidence_requirement ≡ some n
    → n.minimum
      ≤ length
          (dedup (evidence_keys (λ e. elem e.kind n.kinds && elem e.trust n.trusts) q.evidence))
unfolding evidence_satisfies
evidence_met q r h n e = ground (arith, h, e)

keep_under-Warranted :
    (q : SelectionRequest) (p : SelectionPolicyProfile) (r : BasisRule) (v : Verdict)
    → elem q.ontological_status (category_ontology_compatibility q.category) ≡ true
    → r.basis ≡ q.basis
    → keep_under q p r ≡ ok v
    → Warranted q (applicable_guardrails q p) r
      × All (Forces v.outcome v.candidate_ttl_days) (applicable_guardrails q p)
unfolding keep_under
keep_under-Warranted q p r v o b h =
    let gs = applicable_guardrails q p in
    let ids = r.rule_id ∷ guardrail_ids gs in
    let required = ordered_qualifiers (qualifiers_of gs) in
    let (none_violated, h1) = >>-eq-ok (no_violation (first_violation q gs) ids required) _ h in
    let (checked, h2) = >>-eq-ok (rejecting (basis_checks q r) ids required) _ h1 in
    let (qualified, h3) = >>-eq-ok (raise_if _ _) _ h2 in
    let tests =
      passed (basis_checks q r) (map_err-eq-ok _ (raise_first (basis_checks q r)) checked) in
    let test = raise_if-false _ _ qualified in
    let all_declared =
      subset-Declares q (r.required_qualifiers ++ required) (ground (arith, test)) in
    (
      record {
        basis = b;
        ontology = o;
        guarded = first_violation-Allows q gs (no_violation-none _ _ _ none_violated);
        authority = authority_met r.required_authority q.effective_authority_class tests.0;
        evidence = evidence_met q r (ground (arith, tests.1.0));
        category = ground (arith, tests.1.1.0);
        reason = ground (arith, tests.1.1.1.0);
        rule_qualifiers =
            λ x m. all_declared x (ground (arith, m, elem-++ x r.required_qualifiers required));
        guardrail_qualifiers = qualifiers_of-Declares q gs λ x m. all_declared x (
            ground (
              arith,
              elem-++ x r.required_qualifiers required,
              elem-ordered_qualifiers x (qualifiers_of gs) m,
            ));
        limits = λ n. ground (arith, n, test);
      },
      accepted-Forces r gs ids _ v h3,
    )

abbrev pub IsKept : PolicyOutcome → Type 0
IsKept o = (o ≡ PolicyOutcome.candidate) ⊎ (o ≡ PolicyOutcome.active)

pub not_omitted : {o : PolicyOutcome} → o ≡ PolicyOutcome.omit → IsKept o → ⊥
not_omitted e (inl k) = cc (e, k)
not_omitted e (inr k) = cc (e, k)

verdict-Warranted :
    (q : SelectionRequest) (p : SelectionPolicyProfile) (v : Verdict)
    → IsKept v.outcome
    → verdict q p ≡ ok v
    → (r : BasisRule) × (first_rule q p.basis_rules ≡ some r)
      × Warranted q (applicable_guardrails q p) r
      × All (Forces v.outcome v.candidate_ttl_days) (applicable_guardrails q p)
unfolding verdict
verdict-Warranted q p v k h =
    let (compatible, h1) = >>-eq-ok (raise_if _ _) _ h in
    let (r, there, h2) = found (first_rule q p.basis_rules) _ _ h1 in
    elim (Bool-cases (r.outcome == PolicyOutcome.omit)) [
      | inl y ↦ absurd (not_omitted (ap (λ x. x.outcome) (ok-injective (rw y at h2))) k)
      | inr n ↦
          let (w, f) =
            keep_under-Warranted q p r v (ground (arith, raise_if-false _ _ compatible))
              (first_rule-basis q p.basis_rules r there) (rw n at h2) in
          (r, there, w, f)
    ]

decision-decided :
    (l : LoadedSelectionPolicy) (v : Verdict) (d : PolicyDecision)
    → decision l v ≡ ok d
    → d ≡ decided l v
unfolding decision
decision-decided l v d h = ok-injective (>>-eq-ok (raise_if _ _) _ h).1

not_rejected : {o : PolicyOutcome} → o ≡ PolicyOutcome.reject → IsKept o → ⊥
not_rejected e (inl k) = cc (e, k)
not_rejected e (inr k) = cc (e, k)

-- The verdict behind a decision that keeps content.
pub concluded_kept :
    (l : LoadedSelectionPolicy) (m : Result Stop Verdict) (d : PolicyDecision)
    → IsKept d.outcome
    → conclude l m ≡ ok d
    → (v : Verdict) × (m ≡ ok v) × (d ≡ decided l v)
unfolding conclude
concluded_kept l (ok v) d k h = (v, refl, decision-decided l v d h)
concluded_kept l (err (rejected code ids qs)) d k h =
    absurd (not_rejected (ap (λ d. d.outcome) (decision-decided l (rejection code ids qs) d h)) k)
concluded_kept l (err value_error) d k h = cc

-- A decision keeps content, as active or as a candidate, only if the profile has a rule for the
-- request's basis and the request has what the rule asks for: the ontology fits the category, the
-- request is what each guardrail allows whose signal it carries, and has the rule's authority, evidence
-- of the kinds and trusts that the rule counts under as many keys as it asks for, its category, a
-- reason, and every qualifier and the limits that the rule and those guardrails require. If one of those
-- guardrails forces a candidate, the memory is a candidate, with a TTL of at most that guardrail's.
pub evaluate_selection-Warranted :
    (q : SelectionRequest) (l : LoadedSelectionPolicy) (d : PolicyDecision)
    → IsKept d.outcome
    → evaluate_selection q l ≡ ok d
    → (r : BasisRule) × (first_rule q l.profile.basis_rules ≡ some r)
      × Warranted q (applicable_guardrails q l.profile) r
      × All (Forces d.outcome d.candidate_ttl_days) (applicable_guardrails q l.profile)
unfolding evaluate_selection
evaluate_selection-Warranted q l d k h =
    let (v, ends, e) = concluded_kept l (verdict q l.profile) d k h in
    let (r, there, w, f) =
      verdict-Warranted q l.profile v (subst (λ d. IsKept d.outcome) e k) ends in
    (
      r,
      there,
      w,
      subst (λ d. All (Forces d.outcome d.candidate_ttl_days) (applicable_guardrails q l.profile))
          (sym e) f,
    )
