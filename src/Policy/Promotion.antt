-- ===== src/Policy/Promotion.antt =====
-- When policy/lifecycle.py promotes or retires a candidate.
use scalevault.Prelude.{
  ◌≡◌, ◌≤◌, ◌≢◌, elem, ◌↔◌, ◌⊎◌, Bool, true, false, ◌&&◌, List, [], ◌∷◌, codes, Text, ◌==◌, any,
  arith, inl, inr, Bool-cases, nat_Eq, list_Eq, list_eq_iff,
}
use scalevault.Domain.Enums.{MemoryStatus, memory_status_Eq}
use scalevault.Policy.Vocabulary.{
  content_signal_Eq, EvidenceKind, evidence_kind_Eq, EvidenceTrust, evidence_trust_Eq,
  ContentSignal, SelectionBasis, selection_basis_Eq, LifecycleAction,
}
use scalevault.Policy.Contracts.{
  EvidenceSummary, CandidateLifecycleState, ExpiryEvaluation, LoadedSelectionPolicy,
}
use scalevault.Policy.Observed.{IsObserved, two_observations}
use scalevault.Policy.Lifecycle.{evaluate_promotion, evaluate_expiry, profile_matches, is_protected}

-- A list has an item of trusted evidence of a kind.
abbrev HasTrusted : EvidenceKind → List EvidenceSummary → Type 0
HasTrusted k [] = ⊥
HasTrusted k (e ∷ es) = ((e.kind ≡ k) × (e.trust ≡ EvidenceTrust.trusted)) ⊎ HasTrusted k es

abbrev is_trusted : EvidenceKind → EvidenceSummary → Bool
is_trusted k e = e.kind == k && e.trust == EvidenceTrust.trusted

any-HasTrusted :
    (k : EvidenceKind) (es : List EvidenceSummary)
    → (any (is_trusted k) es ≡ true) ↔ HasTrusted k es
any-HasTrusted k [] = (λ h. cc, λ h. absurd h)
any-HasTrusted k (e ∷ es) =
    let same = evidence_kind_Eq.equals_iff e.kind k in
    let rest = any-HasTrusted k es in
    (
      λ h. elim (Bool-cases (is_trusted k e)) [
        | inl y ↦ inl (same.0 (ground (arith, y)), ground (arith, y))
        | inr n ↦ inr (rest.0 (ground (arith, h, n)))
      ],
      λ t. elim t [
        | inl here ↦ ground (arith, same.1 here.0, here.1)
        | inr there ↦ ground (arith, rest.1 there)
      ],
    )

-- A candidate that observation may promote: neither imported, nor roleplay, nor a claim of experience.
pub record Unprotected (c : CandidateLifecycleState) : Type 0 where
  pub basis : c.selection_basis ≢ SelectionBasis.imported_legacy
  pub roleplay : elem ContentSignal.roleplayed_scene c.content_signals ≡ false
  pub claim : elem ContentSignal.subjective_experience_claim c.content_signals ≡ false

unprotected : (c : CandidateLifecycleState) → (is_protected c ≡ false) ↔ Unprotected c
unfolding is_protected
unprotected c =
    let imported = selection_basis_Eq.equals_iff c.selection_basis SelectionBasis.imported_legacy in
    (
      λ h. record {
        basis = λ e. absurd (ground (arith, h, imported.1 e));
        roleplay = ground (arith, h);
        claim = ground (arith, h);
      },
      λ u. elim (Bool-cases (c.selection_basis == SelectionBasis.imported_legacy)) [
        | inl y ↦ absurd (u.basis (imported.0 y))
        | inr n ↦ ground (arith, n, u.roleplay, u.claim)
      ],
    )

-- What a promotion rests on: a candidate of the current policy that a user confirmed, or one that
-- is not protected and was observed under two keys.
pub record Promotable (c : CandidateLifecycleState) (l : LoadedSelectionPolicy) : Type 0 where
  pub status : c.status ≡ MemoryStatus.candidate
  pub version : c.policy_profile_version ≡ codes "selection-v1"
  pub digest : c.policy_profile_sha256 ≡ l.sha256_hex
  pub grounds :
      HasTrusted EvidenceKind.user_confirmation c.evidence
      ⊎ (Unprotected c
          × ((a b : Text) × IsObserved a c.evidence × IsObserved b c.evidence × (a ≢ b)))

-- A candidate is promoted exactly if it is one of the current policy, and a trusted user confirmation
-- is among its evidence or, unless it was imported, carries roleplay or claims an experience, trusted
-- observations with two different keys.
pub evaluate_promotion-exact :
    (c : CandidateLifecycleState) (l : LoadedSelectionPolicy)
    → ((evaluate_promotion c l).action ≡ LifecycleAction.promote) ↔ Promotable c l
unfolding evaluate_promotion profile_matches
evaluate_promotion-exact c l =
    let confirmed = any-HasTrusted EvidenceKind.user_confirmation c.evidence in
    let seen = two_observations c.evidence in
    (
      λ h. record {
        status = ground (arith, h);
        version =
            (list_eq_iff c.policy_profile_version (codes "selection-v1")).0 (ground (arith, h));
        digest = (list_eq_iff c.policy_profile_sha256 l.sha256_hex).0 (ground (arith, h));
        grounds = elim (Bool-cases (any (is_trusted EvidenceKind.user_confirmation) c.evidence)) [
          | inl y ↦ inl (confirmed.0 y)
          | inr n ↦ inr ((unprotected c).0 (ground (arith, h, n)), seen.0 (ground (arith, h, n)))
        ];
      },
      λ p.
          let version = (list_eq_iff c.policy_profile_version (codes "selection-v1")).1 p.version in
          let digest = (list_eq_iff c.policy_profile_sha256 l.sha256_hex).1 p.digest in
          elim p.grounds [
            | inl t ↦ ground (arith, p.status, version, digest, confirmed.1 t)
            | inr (u, n) ↦ ground (arith, p.status, version, digest, (unprotected c).1 u, seen.1 n)
          ],
    )

-- A candidate is retired exactly if it is one of the current policy and its deadline has come.
pub evaluate_expiry-exact :
    (e : ExpiryEvaluation) (l : LoadedSelectionPolicy)
    → ((evaluate_expiry e l).action ≡ LifecycleAction.retire) ↔ (
        (e.candidate.status ≡ MemoryStatus.candidate)
        × (e.candidate.policy_profile_version ≡ codes "selection-v1")
        × (e.candidate.policy_profile_sha256 ≡ l.sha256_hex)
        × (e.deadline ≤ e.evaluated_at))
unfolding evaluate_expiry profile_matches
evaluate_expiry-exact e l = ground (
  arith,
  list_eq_iff e.candidate.policy_profile_version (codes "selection-v1"),
  list_eq_iff e.candidate.policy_profile_sha256 l.sha256_hex,
)
