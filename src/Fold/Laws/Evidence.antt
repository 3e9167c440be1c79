-- ===== src/Fold/Laws/Evidence.antt =====
-- domain/folding.py: the evidence of the projection and the memories that it belongs to.
pub mod Untouched
pub mod Arms
use mathlib.Core.Path.{subst}
use scalevault.Prelude.{
  ℕ, ◌≡◌, refl, sym, ap, ◌∙◌, Bool, true, false, ◌==◌, ◌!=◌, not, Option, none, some, List, [], ◌∷◌,
  ok, arith, holds, Passed, found, >>=-eq-ok, ok-injective, >>-eq-ok, inl, inr, ◌⊎◌, nat_Eq,
  option_Eq, Bool-cases, elem, if◌then◌else◌,
}
use scalevault.Prelude.Dict.{Dict, get, put, get-put, contains, remove, get-remove}
use scalevault.Domain.Identifiers.{Uuid}
use scalevault.Domain.Enums.{MemoryStatus, memory_status_Eq}
use scalevault.Events.States.{MemoryState, EvidenceState}
use scalevault.Events.Payloads.{EvidenceRedactedPayload}
use scalevault.Events.Envelope.{MemoryEvent, Platform}
use scalevault.Fold.State.{
  ProjectionState, check, checked, fail, missing_memory, missing_evidence, evidence_memory_mismatch,
}
use scalevault.Fold.Checks.{is_live, scope_check}
use scalevault.Fold.Memories.{
  Memories, Evidence, attach_evidence, attach_all, attach_lifecycle_evidence, create_evidence,
  redact_evidence, attaching_checks, item_checks, redaction_checks,
}
use scalevault.Fold.Change.{Changes, Change, kept, begun, revised, lives_on}

-- There is such a memory, and it is not a tombstone.
abbrev pub is_remembered : Memories → Uuid → Bool
is_remembered memories id =
    holds (λ (m : MemoryState). m.status != MemoryStatus.tombstoned) (get id memories)

-- Every item of evidence is of a memory that is there and not forgotten.
abbrev pub IsSanitized : Memories → Evidence → Type 0
IsSanitized memories evidence =
    (k : Uuid) (i : EvidenceState)
    → get k evidence ≡ some i
    → is_remembered memories i.memory_id ≡ true

abbrev unforgotten : Option MemoryState → Bool
unforgotten = holds (λ (m : MemoryState). m.status != MemoryStatus.tombstoned)

alive :
    (a b : MemoryStatus)
    → lives_on a b ≡ true
    → (a != MemoryStatus.tombstoned) ≡ true
    → (b != MemoryStatus.tombstoned) ≡ true
alive a b f h = ground arith

unforgotten-Change :
    (e : MemoryEvent) (id : Uuid) (before after : Option MemoryState)
    → Change lives_on e id before after
    → unforgotten before ≡ true
    → unforgotten after ≡ true
unforgotten-Change e id before after (kept same) h = rw (same, h)
unforgotten-Change e id before after (begun m fresh stored k scope begins) h =
    let impossible : unforgotten none ≡ true = subst (λ o. unforgotten o ≡ true) fresh h in
    cc impossible
unforgotten-Change e id before after (revised a b held stored k scope revises f) h =
    rw stored (alive a.status b.status f (subst (λ o. unforgotten o ≡ true) held h))

-- A change that forgets nothing leaves a memory remembered.
pub remembered-Changes :
    (e : MemoryEvent) (before after : Memories) (id : Uuid)
    → Changes lives_on e before after
    → is_remembered before id ≡ true
    → is_remembered after id ≡ true
remembered-Changes e before after id c h =
    unforgotten-Change e id (get id before) (get id after) (c id) h

pub IsSanitized-Changes :
    (e : MemoryEvent) (before after : Memories) (evidence : Evidence)
    → Changes lives_on e before after
    → IsSanitized before evidence
    → IsSanitized after evidence
IsSanitized-Changes e before after evidence c h k i held =
    remembered-Changes e before after i.memory_id c (h k i held)

-- `after` has the items of `before` and items of the memory `id`.
abbrev pub Adds : Uuid → Evidence → Evidence → Type 0
Adds id before after =
    (k : Uuid) (i : EvidenceState)
    → get k after ≡ some i
    → (i.memory_id ≡ id) ⊎ (get k before ≡ some i)

unremoved :
    {A : Type 0} (b : Bool) (i : A) (o : Option A) → (if b then none else o) ≡ some i → o ≡ some i
unremoved true i o h = cc h
unremoved false i o h = h

picked :
    {A : Type 0} (b : Bool) (x i : A) (o : Option A)
    → (if b then some x else o) ≡ some i
    → (x ≡ i) ⊎ (o ≡ some i)
picked true x i o h = inl (cc h)
picked false x i o h = inr h

pub put-Adds :
    (item : EvidenceState) (evidence : Evidence)
    → Adds item.memory_id evidence (put item.evidence_id item evidence)
put-Adds item evidence k i h =
    elim (picked (item.evidence_id == k) item i (get k evidence)
      (sym (get-put k item.evidence_id item evidence) ∙ h)) [
        | inl same ↦ inl (ap (λ (x : EvidenceState). x.memory_id) (sym same))
        | inr old ↦ inr old
      ]

Adds-trans : (id : Uuid) (a b c : Evidence) → Adds id a b → Adds id b c → Adds id a c
Adds-trans id a b c x y k i h = elim (y k i h) [ inl new ↦ inl new | inr old ↦ x k i old ]

pub IsSanitized-Adds :
    (memories : Memories) (id : Uuid) (before after : Evidence)
    → is_remembered memories id ≡ true
    → Adds id before after
    → IsSanitized memories before
    → IsSanitized memories after
IsSanitized-Adds memories id before after r a s k i held = elim (a k i held) [
  | inl same ↦ subst (λ x. is_remembered memories x ≡ true) (sym same) r
  | inr old ↦ s k i old
]

module _ (e : MemoryEvent) where
  live-remembered :
      (m : MemoryState)
      → not (is_live m.status) ≡ false
      → (m.status != MemoryStatus.tombstoned) ≡ true
  live-remembered m h = ground arith

  pub attach_evidence-IsSanitized :
      (item : EvidenceState) (memories : Memories) (before after : Evidence)
      → attach_evidence e item memories before ≡ ok after
      → IsSanitized memories before
      → IsSanitized memories after
  unfolding attach_evidence
  attach_evidence-IsSanitized item memories before after h s =
      let (scope, h1) =
        checked e
          (scope_check e item.tenant_id item.lineage_id item.branch_id
            ∷ (some item.memory_id != e.memory_id, evidence_memory_mismatch)
            ∷ [])
          _ h in
      let (target, held, h2) = found (get item.memory_id memories) (fail e missing_memory) _ h1 in
      let (checks, h3) = checked e (attaching_checks e item target before) _ h2 in
      rw (ok-injective h3) (
        IsSanitized-Adds memories item.memory_id before (put item.evidence_id item before)
          (rw held (live-remembered target checks.0)) (put-Adds item before) s)

  pub attach_all-IsSanitized :
      (items : List EvidenceState) (memories : Memories) (before after : Evidence)
      → attach_all e items memories before ≡ ok after
      → IsSanitized memories before
      → IsSanitized memories after
  unfolding attach_all
  attach_all-IsSanitized [] memories before after h s = rw (ok-injective h) s
  attach_all-IsSanitized (item ∷ rest) memories before after h s =
      let (next, h1, h2) = >>=-eq-ok (attach_evidence e item memories before) _ h in
      attach_all-IsSanitized rest memories next after h2
        (attach_evidence-IsSanitized item memories before next h1 s)

  pub create_evidence-Adds :
      (memory : Uuid) (items : List EvidenceState) (before after : Evidence)
      → create_evidence e memory items before ≡ ok after
      → Adds memory before after
  unfolding create_evidence
  create_evidence-Adds memory [] before after h = rw (ok-injective h) (λ k i x. inr x)
  create_evidence-Adds memory (item ∷ rest) before after h =
      let (checks, h1) = checked e (item_checks e memory item before) _ h in
      let same : item.memory_id ≡ memory = let c = checks.1.0 in ground arith in
      Adds-trans memory before (put item.evidence_id item before) after
        (subst (λ m. Adds m before (put item.evidence_id item before)) same (put-Adds item before))
        (create_evidence-Adds memory rest (put item.evidence_id item before) after h1)

  pub redact_evidence-IsSanitized :
      (x : EvidenceRedactedPayload) (memories : Memories) (before after : Evidence)
      → redact_evidence e x before ≡ ok after
      → IsSanitized memories before
      → IsSanitized memories after
  unfolding redact_evidence
  redact_evidence-IsSanitized x memories before after h s k i held =
      let (current, there, h1) = found (get x.evidence_id before) (fail e missing_evidence) _ h in
      let (checks, h2) = checked e (redaction_checks e x current) _ h1 in
      let left : get k (remove x.evidence_id before) ≡ some i =
        subst (λ d. get k d ≡ some i) (ok-injective h2) held in
      s k i (
        unremoved (x.evidence_id == k) i (get k before)
          (sym (get-remove k x.evidence_id before) ∙ left))
