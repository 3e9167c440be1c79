-- ===== src/Policy/Observed.antt =====
-- The different keys of the observations that policy/lifecycle.py counts.
use scalevault.Prelude.{
  ◌≡◌, ◌≢◌, ◌≤◌, ◌↔◌, ◌⊎◌, ◌∙◌, Bool, true, false, ◌&&◌, List, [], ◌∷◌, Text, ◌==◌, elem, dedup,
  length, arith, inl, inr, refl, ap, sym, ==→eq, ==_refl, Bool-cases, list_Eq, nat_Eq, list_eq_iff,
}
use scalevault.Policy.Vocabulary.{EvidenceKind, evidence_kind_Eq, EvidenceTrust, evidence_trust_Eq}
use scalevault.Policy.Contracts.{EvidenceSummary}
use scalevault.Policy.Evaluator.{evidence_keys}

elem-dedup : (a : Text) (xs : List Text) → elem a (dedup xs) ≡ elem a xs
elem-dedup a [] = refl
elem-dedup a (x ∷ xs) =
    let rest = elem-dedup a xs in
    elim (Bool-cases (elem x (dedup xs))) [
      | inl y ↦ elim (Bool-cases (a == x)) [
        | inl same ↦ rw (y, same) ((ap (λ z. elem z (dedup xs)) (==→eq a x same)) ∙ y)
        | inr apart ↦ rw (y, apart) rest
      ]
      | inr n ↦ rw (n, rest) refl
    ]

first_of : (xs : List Text) → 1 ≤ length xs → (a : Text) × (elem a xs ≡ true)
first_of [] h = absurd (omega (arith, h))
first_of (x ∷ xs) h = let same : (x == x) ≡ true = ==_refl x in (x, ground (arith, same))

apart_of : (x a : Text) (xs : List Text) → elem x xs ≡ false → elem a xs ≡ true → x ≢ a
apart_of x a xs n h e = absurd (ground (arith, ap (λ z. elem z xs) e, n, h))

two_of :
    (xs : List Text)
    → 2 ≤ length (dedup xs)
    → (a b : Text) × (elem a xs ≡ true) × (elem b xs ≡ true) × (a ≢ b)
two_of [] h = absurd (omega (arith, h))
two_of (x ∷ xs) h = elim (Bool-cases (elem x (dedup xs))) [
  | inl y ↦
      let (a, b, here, there, apart) = two_of xs (ground (arith, h, y)) in
      (a, b, ground (arith, here), ground (arith, there), apart)
  | inr n ↦
      let (b, there) = first_of (dedup xs) (ground (arith, h, n)) in
      let same : (x == x) ≡ true = ==_refl x in
      (
        x,
        b,
        ground (arith, same),
        ground (arith, sym (elem-dedup b xs) ∙ there),
        apart_of x b (dedup xs) n there,
      )
]

two_apart :
    (xs : List Text) (a b : Text) → elem a xs ≡ true → elem b xs ≡ true → a ≢ b → 2 ≤ length xs
two_apart [] a b h k n = cc
two_apart (x ∷ []) a b h k n =
    absurd (n (==→eq a x (ground (arith, h)) ∙ sym (==→eq b x (ground (arith, k)))))
two_apart (x ∷ y ∷ xs) a b h k n = omega arith

two_keys :
    (xs : List Text)
    → (2 ≤ length (dedup xs)) ↔ ((a b : Text) × (elem a xs ≡ true) × (elem b xs ≡ true) × (a ≢ b))
two_keys xs = (
  two_of xs,
  λ (a, b, here, there, apart).
      two_apart (dedup xs) a b (elem-dedup a xs ∙ here) (elem-dedup b xs ∙ there) apart,
)

-- A list has a trusted observation of the assistant under a key.
abbrev pub IsObserved : Text → List EvidenceSummary → Type 0
IsObserved key [] = ⊥
IsObserved key (e ∷ es) =
    ((e.kind ≡ EvidenceKind.assistant_observation)
      × (e.trust ≡ EvidenceTrust.trusted)
      × (e.evidence_key ≡ key))
    ⊎ IsObserved key es

abbrev pub is_observation : EvidenceSummary → Bool
is_observation e = e.kind == EvidenceKind.assistant_observation && e.trust == EvidenceTrust.trusted

elem-IsObserved :
    (key : Text) (es : List EvidenceSummary)
    → (elem key (evidence_keys is_observation es) ≡ true) ↔ IsObserved key es
elem-IsObserved key [] = (λ h. cc, λ h. absurd h)
elem-IsObserved key (e ∷ es) =
    let rest = elem-IsObserved key es in
    let kinds = evidence_kind_Eq.equals_iff e.kind EvidenceKind.assistant_observation in
    let keys = list_eq_iff key e.evidence_key in
    (
      λ h. elim (Bool-cases (is_observation e)) [
        | inl y ↦ elim (Bool-cases (key == e.evidence_key)) [
          | inl same ↦ inl (kinds.0 (ground (arith, y)), ground (arith, y), sym (keys.0 same))
          | inr apart ↦ inr (rest.0 (ground (arith, h, y, apart)))
        ]
        | inr n ↦ inr (rest.0 (ground (arith, h, n)))
      ],
      λ t. elim t [
        | inl (kind, trust, same) ↦ ground (arith, kinds.1 kind, trust, keys.1 (sym same))
        | inr there ↦ ground (arith, rest.1 there)
      ],
    )

-- Two trusted observations of the assistant with different keys.
pub two_observations :
    (es : List EvidenceSummary)
    → (2 ≤ length (dedup (evidence_keys is_observation es)))
      ↔ ((a b : Text) × IsObserved a es × IsObserved b es × (a ≢ b))
two_observations es =
    let keys = two_keys (evidence_keys is_observation es) in
    (
      λ h.
          let (a, b, here, there, apart) = keys.0 h in
          (a, b, (elem-IsObserved a es).0 here, (elem-IsObserved b es).0 there, apart),
      λ (a, b, here, there, apart).
          keys.1 (a, b, (elem-IsObserved a es).1 here, (elem-IsObserved b es).1 there, apart),
    )
