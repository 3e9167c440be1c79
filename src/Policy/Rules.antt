-- ===== src/Policy/Rules.antt =====
-- Facts about the rules of a valid profile, and about the lists that policy/evaluator.py makes of them.
use scalevault.Prelude.{
  ℕ, suc, ◌≡◌, ◌≤◌, Bool, true, false, not, ◌&&◌, ◌||◌, some, List, [], ◌∷◌, ◌++◌, Text, ◌==◌, leb,
  all, any, elem, keep, length, length-keep, all_unique, is_empty, if◌then◌else◌, arith, refl, ap,
  inl, inr, Bool-cases, list_Eq, nat_Eq, ==_refl, ==→eq,
}
use scalevault.Policy.Vocabulary.{
  ContentSignal, content_signal_Eq, content_signal_tag, EpistemicQualifier, epistemic_qualifier_Eq,
  policy_outcome_Eq, selection_basis_Eq,
}
use scalevault.Policy.Contracts.{
  SelectionRequest, BasisRule, SignalGuardrail, SelectionPolicyProfile, basis_rule_checks,
  guardrail_checks, profile_checks, basis_rule_ids, guardrail_ids, signals_of, is_ttl,
}
use scalevault.Policy.Evaluator.{
  first_rule, ordered_qualifiers, qualifiers_by_value, applicable_guardrails, forced_ttls,
  minimum_of,
}

-- A rule and its identifier stand in the profile.
pub first_rule-checks :
    (q : SelectionRequest) (rules : List BasisRule) (r : BasisRule)
    → all basis_rule_checks rules ≡ true
    → first_rule q rules ≡ some r
    → basis_rule_checks r ≡ true
unfolding first_rule
first_rule-checks q [] r a h = cc
first_rule-checks q (s ∷ rules) r a h = elim (Bool-cases (s.basis == q.basis)) [
  | inl y ↦ ground (arith, y, h, a)
  | inr n ↦ first_rule-checks q rules r (ground (arith, a)) (ground (arith, n, h))
]

first_rule-elem :
    (q : SelectionRequest) (rules : List BasisRule) (r : BasisRule)
    → first_rule q rules ≡ some r
    → elem r.rule_id (basis_rule_ids rules) ≡ true
unfolding first_rule
first_rule-elem q [] r h = cc
first_rule-elem q (s ∷ rules) r h = elim (Bool-cases (s.basis == q.basis)) [
  | inl y ↦ ground (arith, y, h, ==_refl r.rule_id)
  | inr n ↦ ground (arith, n, h, first_rule-elem q rules r)
]

module _ (p : SignalGuardrail → Bool) where
  pub all-keep :
      (c : SignalGuardrail → Bool) (gs : List SignalGuardrail)
      → all c gs ≡ true
      → all c (keep p gs) ≡ true
  all-keep c [] a = refl
  all-keep c (g ∷ gs) a = ground (arith, a, all-keep c gs)

  elem-keep_ids :
      (i : Text) (gs : List SignalGuardrail)
      → elem i (guardrail_ids (keep p gs)) ≡ true
      → elem i (guardrail_ids gs) ≡ true
  elem-keep_ids i [] h = h
  elem-keep_ids i (g ∷ gs) h = ground (arith, h, elem-keep_ids i gs)

  keep_unique_ids :
      (gs : List SignalGuardrail)
      → all_unique (guardrail_ids gs) ≡ true
      → all_unique (guardrail_ids (keep p gs)) ≡ true
  keep_unique_ids [] u = refl
  keep_unique_ids (g ∷ gs) u = ground (arith, u, keep_unique_ids gs, elem-keep_ids g.rule_id gs)

elem-++ : (i : Text) (xs ys : List Text) → elem i (xs ++ ys) ≡ (elem i xs || elem i ys)
elem-++ i [] ys = refl
elem-++ i (x ∷ xs) ys = ground (arith, elem-++ i xs ys)

unique_apart :
    (xs ys : List Text) (i : Text)
    → all_unique (xs ++ ys) ≡ true
    → elem i xs ≡ true
    → (elem i ys ≡ false) × (all_unique ys ≡ true)
unique_apart [] ys i u h = cc
unique_apart (x ∷ xs) ys i u h = elim (Bool-cases (i == x)) [
  | inl y ↦
      rw (==→eq i x y) (ground (arith, u, elem-++ x xs ys), unique_behind xs ys (ground (arith, u)))
  | inr n ↦ unique_apart xs ys i (ground (arith, u)) (ground (arith, n, h))
]
  where
    unique_behind : (xs ys : List Text) → all_unique (xs ++ ys) ≡ true → all_unique ys ≡ true
    unique_behind [] ys u = u
    unique_behind (x ∷ xs) ys u = unique_behind xs ys (ground (arith, u))

tag_bound : (s : ContentSignal) → content_signal_tag s ≤ 2
tag_bound s = ground arith

four_tags :
    (a b c d : ℕ) (p q r s : Bool)
    → a ≤ 2
    → b ≤ 2
    → c ≤ 2
    → d ≤ 2
    → (not (a == b || (a == c || (a == d || p)))
        && (not (b == c || (b == d || q)) && (not (c == d || r) && s)))
      ≡ true
    → ⊥
four_tags a b c d p q r s i j k l h = ground (arith, h)

-- Three signals exist, so a list without repetition has three at most.
unique_signals : (l : List ContentSignal) → all_unique l ≡ true → length l ≤ 3
unique_signals [] u = omega arith
unique_signals (a ∷ []) u = omega arith
unique_signals (a ∷ b ∷ []) u = omega arith
unique_signals (a ∷ b ∷ c ∷ []) u = omega arith
unique_signals (a ∷ b ∷ c ∷ d ∷ l) u = absurd (
    four_tags (content_signal_tag a) (content_signal_tag b) (content_signal_tag c)
      (content_signal_tag d) (elem a l) (elem b l) (elem c l) (not (elem d l) && all_unique l)
      (tag_bound a) (tag_bound b) (tag_bound c) (tag_bound d) u)

length-guardrail_ids : (gs : List SignalGuardrail) → length (guardrail_ids gs) ≡ length gs
length-guardrail_ids [] = refl
length-guardrail_ids (g ∷ gs) = ap suc (length-guardrail_ids gs)

length-signals_of : (gs : List SignalGuardrail) → length (signals_of gs) ≡ length gs
length-signals_of [] = refl
length-signals_of (g ∷ gs) = ap suc (length-signals_of gs)

-- The identifiers that a decision names are distinct, and four at most.
pub record Matched (ids : List Text) : Type 0 where
  pub unique : all_unique ids ≡ true
  pub few : length ids ≤ 4

pub guardrail_ids-Matched :
    (q : SelectionRequest) (p : SelectionPolicyProfile) (r : BasisRule)
    → profile_checks p ≡ true
    → first_rule q p.basis_rules ≡ some r
    → Matched (r.rule_id ∷ guardrail_ids (applicable_guardrails q p))
unfolding profile_checks applicable_guardrails
guardrail_ids-Matched q p r v h =
    let wanted = λ (g : SignalGuardrail). elem g.signal q.content_signals in
    let ids = guardrail_ids p.signal_guardrails in
    let (apart, unique) =
      unique_apart (basis_rule_ids p.basis_rules) ids r.rule_id (ground (arith, v))
        (first_rule-elem q p.basis_rules r h) in
    record {
      unique = ground (
        arith,
        apart,
        keep_unique_ids wanted p.signal_guardrails unique,
        elem-keep_ids wanted r.rule_id p.signal_guardrails,
      );
      few = omega (
        arith,
        length-guardrail_ids (keep wanted p.signal_guardrails),
        length-keep wanted p.signal_guardrails,
        length-signals_of p.signal_guardrails,
        unique_signals (signals_of p.signal_guardrails) (ground (arith, v)),
      );
    }

keep_unique :
    (p : EpistemicQualifier → Bool) (xs : List EpistemicQualifier)
    → all_unique xs ≡ true
    → all_unique (keep p xs) ≡ true
keep_unique p [] u = refl
keep_unique p (x ∷ xs) u = ground (arith, u, keep_unique p xs, elem-keep x xs)
  where
    elem-keep :
        (x : EpistemicQualifier) (xs : List EpistemicQualifier)
        → elem x (keep p xs) ≡ true
        → elem x xs ≡ true
    elem-keep x [] h = h
    elem-keep x (y ∷ xs) h = ground (arith, h, elem-keep x xs)

pub ordered_qualifiers_unique :
    (qs : List EpistemicQualifier) → all_unique (ordered_qualifiers qs) ≡ true
unfolding ordered_qualifiers
ordered_qualifiers_unique qs = keep_unique (λ q. elem q qs) qualifiers_by_value refl

pub length-ordered_qualifiers : (qs : List EpistemicQualifier) → length (ordered_qualifiers qs) ≤ 5
unfolding ordered_qualifiers
length-ordered_qualifiers qs = length-keep (λ q. elem q qs) qualifiers_by_value

abbrev in_range : ℕ → Bool
in_range n = is_ttl (some n)

forced_ttls-in_range :
    (gs : List SignalGuardrail)
    → all guardrail_checks gs ≡ true
    → all in_range (forced_ttls gs) ≡ true
unfolding guardrail_checks forced_ttls
forced_ttls-in_range [] a = refl
forced_ttls-in_range (g ∷ gs) a = ground (arith, a, forced_ttls-in_range gs)

forced_ttls-is_empty :
    (gs : List SignalGuardrail)
    → all guardrail_checks gs ≡ true
    → any (λ g. g.force_candidate) gs ≡ true
    → is_empty (forced_ttls gs) ≡ false
unfolding guardrail_checks forced_ttls
forced_ttls-is_empty [] a f = cc
forced_ttls-is_empty (g ∷ gs) a f = ground (arith, a, f, forced_ttls-is_empty gs)

minimum_of-in_range :
    (ns : List ℕ)
    → is_empty ns ≡ false
    → all in_range ns ≡ true
    → (n : ℕ) × (minimum_of ns ≡ some n) × (in_range n ≡ true)
unfolding minimum_of
minimum_of-in_range [] e a = cc
minimum_of-in_range (n ∷ []) e a = (n, refl, ground (arith, a))
minimum_of-in_range (n ∷ m ∷ ns) e a =
    let (k, h, i) = minimum_of-in_range (m ∷ ns) refl (ground (arith, a)) in
    (if leb n k then n else k, rw h refl, ground (arith, a, i))

-- The least of the forced TTLs, over valid guardrails.
pub forced_ttl :
    (gs : List SignalGuardrail)
    → all guardrail_checks gs ≡ true
    → any (λ g. g.force_candidate) gs ≡ true
    → (n : ℕ) × (minimum_of (forced_ttls gs) ≡ some n) × (is_ttl (some n) ≡ true)
forced_ttl gs a f =
    minimum_of-in_range (forced_ttls gs) (forced_ttls-is_empty gs a f) (forced_ttls-in_range gs a)
