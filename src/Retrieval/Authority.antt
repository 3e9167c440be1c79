-- ===== src/Retrieval/Authority.antt =====
-- What retrieval/eligibility.py asks of a memory: the reader's authority, and the reader's filters.
use scalevault.Prelude.{
  ℕ, ◌≡◌, ◌≢◌, ◌≤◌, ◌↔◌, ◌⊎◌, true, false, Option, none, some, List, codes, Eq, ltb, elem, is_empty,
  holds, nat_Eq, list_Eq, option_Eq, Result, ok, err, Passed, passed, passes, arith, refl,
}
use scalevault.Domain.Identifiers.{Uuid}
use scalevault.Domain.Enums.{
  memory_category_Eq, ontological_status_Eq, MemoryScope, memory_scope_Eq, memory_visibility_Eq,
  MemoryStatus, memory_status_Eq,
}
use scalevault.Domain.Operations.{subject_kind_Eq}
use scalevault.Retrieval.Contracts.{QueryPrincipal, MemoryFilters, DirectReadQuery, common}
use scalevault.Retrieval.Eligibility.{
  EligibilityReason, ResolvedReadContext, EligibilityCandidate, required_scope,
  operation_authorized, unanchored, valid_time, rejections, decide, evaluate_eligibility,
}

-- The reader's authority over a memory. No filter of the caller occurs in it.
pub record Authorized (p : QueryPrincipal) (x : ResolvedReadContext) (q : DirectReadQuery)
    (c : EligibilityCandidate) : Type 0 where
  pub operation :
      (elem (required_scope q) p.scopes ≡ true) ⊎ (elem (codes "memory:read") p.scopes ≡ true)
  pub tenant : (p.tenant_id ≡ x.tenant_id) × (c.tenant_id ≡ p.tenant_id)
  pub lineage : c.lineage_id ≡ x.lineage_id
  pub branch : (c.branch_id ≡ x.branch_id) × (c.branch_id ≡ (common q).branch_id)
  pub live :
      (c.status ≢ MemoryStatus.superseded)
      × (c.status ≢ MemoryStatus.retired)
      × (c.status ≢ MemoryStatus.tombstoned)
  pub candidate : c.status ≡ MemoryStatus.candidate → p.allow_candidates ≡ true
  pub scope : elem c.scope p.allowed_memory_scopes ≡ true
  pub visibility : elem c.visibility p.allowed_visibilities ≡ true
  pub sensitivity : c.sensitivity ≤ p.max_sensitivity
  pub project : c.scope ≡ MemoryScope.project → x.project_subject_id ≡ some c.subject_id
  pub relationship :
      c.scope ≡ MemoryScope.relationship → x.relationship_subject_id ≡ some c.subject_id
  pub session :
      (c.scope ≡ MemoryScope.episodic) ⊎ (c.scope ≡ MemoryScope.scene_local)
      → (s : Uuid) × (x.logical_session_id ≡ some s) × (c.origin_session_id ≡ some s)

-- An empty filter asks for nothing.
abbrev pub Wanted : {A : Type 0} ⦃e : Eq A⦄ → A → List A → Type 0
Wanted a xs = (is_empty xs ≡ true) ⊎ (elem a xs ≡ true)

-- What the caller's filters ask for.
pub record Requested (f : MemoryFilters) (evaluated_at : ℕ) (c : EligibilityCandidate)
    : Type 0 where
  pub candidate : c.status ≡ MemoryStatus.candidate → f.include_candidates ≡ true
  pub scope : Wanted c.scope f.scopes
  pub visibility : Wanted c.visibility f.visibilities
  pub subject : Wanted c.subject_id f.subject_ids
  pub subject_kind : Wanted c.subject_kind f.subject_kinds
  pub category : Wanted c.category f.categories
  pub ontology : Wanted c.ontological_status f.ontological_statuses
  pub started : (from : ℕ) → c.valid_from ≡ some from → from ≤ valid_time f evaluated_at
  pub ended : (to : ℕ) → c.valid_to ≡ some to → valid_time f evaluated_at ≤ to

same_session :
    (a o : Option Uuid) → unanchored a o ≡ false → (s : Uuid) × (a ≡ some s) × (o ≡ some s)
same_session none o h = cc
same_session (some s) none h = cc
same_session (some s) (some t) h = (s, refl, ground (arith, h))

not_after : (o : Option ℕ) (t : ℕ) → ((n : ℕ) → o ≡ some n → n ≤ t) → holds (λ n. ltb t n) o ≡ false
not_after none t h = refl
not_after (some n) t h = ground (arith, h n refl)

not_before :
    (o : Option ℕ) (t : ℕ) → ((n : ℕ) → o ≡ some n → t ≤ n) → holds (λ n. ltb n t) o ≡ false
not_before none t h = refl
not_before (some n) t h = ground (arith, h n refl)

module _ (p : QueryPrincipal) (x : ResolvedReadContext) (c : EligibilityCandidate)
    (q : DirectReadQuery) (f : MemoryFilters) (at : ℕ) where
  Passed-Authorized : Passed (rejections p x c q f at) → Authorized p x q c
  unfolding operation_authorized
  Passed-Authorized t = record {
    operation = ground (arith, t.0);
    tenant = ground (arith, t.1.0);
    lineage = ground (arith, t.1.1.0);
    branch = ground (arith, t.1.1.1.0);
    live = ground (arith, t.1.1.1.1.0);
    candidate = ground (arith, t.1.1.1.1.1.0);
    scope = ground (arith, t.1.1.1.1.1.1.0);
    visibility = ground (arith, t.1.1.1.1.1.1.1.1.0);
    sensitivity = ground (arith, t.1.1.1.1.1.1.1.1.1.1.0);
    project = ground (arith, t.1.1.1.1.1.1.1.1.1.1.1.1.1.1.1.0);
    relationship = ground (arith, t.1.1.1.1.1.1.1.1.1.1.1.1.1.1.1.1.0);
    session = λ e.
        same_session x.logical_session_id c.origin_session_id
          (ground (arith, e, t.1.1.1.1.1.1.1.1.1.1.1.1.1.1.1.1.1.0));
  }

  Passed-Requested : Passed (rejections p x c q f at) → Requested f at c
  Passed-Requested t = record {
    candidate = ground (arith, t.1.1.1.1.1.0);
    scope = ground (arith, t.1.1.1.1.1.1.1.0);
    visibility = ground (arith, t.1.1.1.1.1.1.1.1.1.0);
    subject = ground (arith, t.1.1.1.1.1.1.1.1.1.1.1.0);
    subject_kind = ground (arith, t.1.1.1.1.1.1.1.1.1.1.1.1.0);
    category = ground (arith, t.1.1.1.1.1.1.1.1.1.1.1.1.1.0);
    ontology = ground (arith, t.1.1.1.1.1.1.1.1.1.1.1.1.1.1.0);
    started = ground (arith, t.1.1.1.1.1.1.1.1.1.1.1.1.1.1.1.1.1.1.0);
    ended = ground (arith, t.1.1.1.1.1.1.1.1.1.1.1.1.1.1.1.1.1.1.1.0);
  }

  Authorized-Passed : Authorized p x q c → Requested f at c → Passed (rejections p x c q f at)
  unfolding operation_authorized
  Authorized-Passed a r = (
    ground (arith, a.operation),
    (
      ground (arith, a.tenant),
      (
        ground (arith, a.lineage),
        (
          ground (arith, a.branch),
          (
            ground (arith, a.live),
            (
              ground (arith, a.candidate, r.candidate),
              (
                ground (arith, a.scope),
                (
                  ground (arith, r.scope),
                  (
                    ground (arith, a.visibility),
                    (
                      ground (arith, r.visibility),
                      (
                        ground (arith, a.sensitivity),
                        (
                          ground (arith, r.subject),
                          (
                            ground (arith, r.subject_kind),
                            (
                              ground (arith, r.category),
                              (
                                ground (arith, r.ontology),
                                (
                                  ground (arith, a.project),
                                  (
                                    ground (arith, a.relationship),
                                    (
                                      ground (arith, a.session),
                                      (
                                        not_after c.valid_from _ r.started,
                                        (not_before c.valid_to _ r.ended, tt),
                                      ),
                                    ),
                                  ),
                                ),
                              ),
                            ),
                          ),
                        ),
                      ),
                    ),
                  ),
                ),
              ),
            ),
          ),
        ),
      ),
    ),
  )

  decided : (m : Result EligibilityReason (Unit {0})) → (decide m).is_eligible ≡ true → m ≡ ok tt
  decided (ok _) h = refl
  decided (err reason) h = cc

  -- A memory is eligible exactly if the reader has authority over it and the filters ask for it.
  pub evaluate_eligibility-exact :
      ((evaluate_eligibility p x c q f at).is_eligible ≡ true)
      ↔ (Authorized p x q c × Requested f at c)
  unfolding evaluate_eligibility
  evaluate_eligibility-exact = (
    λ h.
        let t = passed (rejections p x c q f at) (decided _ h) in
        (Passed-Authorized t, Passed-Requested t),
    λ (a, r). rw (passes (rejections p x c q f at) (Authorized-Passed a r)) refl,
  )
