-- ===== src/Fold/Change/Affected.antt =====
-- The memories that a conflict affects change once each.
use scalevault.Prelude.{
  ◌≡◌, ◌∙◌, Bool, true, false, some, List, [], ◌∷◌, ok, arith, Passed, found, Bool-cases, inl, inr,
  nat_Eq, ◌==◌, elem,
}
use mathlib.Core.Path.{subst}
use scalevault.Prelude.Dict.{get, put, get-put}
use scalevault.Domain.Identifiers.{Uuid}
use scalevault.Domain.Enums.{memory_status_Eq}
use scalevault.Events.States.{MemoryState}
use scalevault.Events.Payloads.{AffectedMemory}
use scalevault.Events.Envelope.{MemoryEvent, Platform}
use scalevault.Fold.State.{checked, fail, missing_memory}
use scalevault.Fold.Checks.{revision_checks}
use scalevault.Fold.Memories.{Memories}
use scalevault.Fold.Conflicts.{apply_affected, affected_checks, conflict_status_checks}
use scalevault.Fold.Change.{Change, Changes, revised, lives_on}
use scalevault.Fold.Change.Replace.{revision_checks-Revises}

-- A memory that is already in `ids` keeps its value; any other changes at most once.
abbrev Once : MemoryEvent → List Uuid → Memories → Memories → Type 0
Once e ids before after =
    (id : Uuid)
    → (elem id ids ≡ true → get id after ≡ get id before)
      × Change lives_on e id (get id before) (get id after)

module _ (p : Platform) (e : MemoryEvent) (opening : Bool) where
  status_allowed :
      (a b : MemoryState)
      → Passed (conflict_status_checks opening a b)
      → lives_on a.status b.status ≡ true
  status_allowed a b h = ground arith

  affected-Once :
      (l : List AffectedMemory) (ids ids' : List Uuid) (before after : Memories)
      → apply_affected e opening l ids before ≡ ok (ids', after)
      → Once e ids before after
  unfolding apply_affected
  affected-Once [] ids ids' before after h id = ground arith
  affected-Once (c ∷ rest) ids ids' before after h id =
      let m = c.memory in
      let (fresh, h1) = checked e (affected_checks e m ids) _ h in
      let (current, held, h2) = found (get m.memory_id before) (fail e missing_memory) _ h1 in
      let (revision, h3) = checked e (revision_checks e current c.previous_revision m false) _ h2 in
      let (statuses, h4) = checked e (conflict_status_checks opening current m) _ h3 in
      let (same, change) =
        affected-Once rest (m.memory_id ∷ ids) ids' (put m.memory_id m before) after h4 id in
      elim (Bool-cases (m.memory_id == id)) [
        | inl eq ↦
            let k : m.memory_id ≡ id = ground arith in
            let stored : get id after ≡ some m = same (ground arith) ∙ rw (get-put, eq) in
            let old = subst (λ i. elem i ids ≡ false) k fresh.0 in
            (
              λ again. cc (again, old),
              revised current m (subst (λ i. get i before ≡ some current) k held) stored k
                  (ground arith)
                  (revision_checks-Revises p e current m c.previous_revision false revision)
                  (status_allowed current m statuses),
            )
        | inr ne ↦
            let there : get id (put m.memory_id m before) ≡ get id before = rw (get-put, ne) in
            (
              λ again. same (ground arith) ∙ there,
              subst (λ o. Change lives_on e id o (get id after)) there change,
            )
      ]

  -- The affected memories of a conflict change once each, and no other memory changes.
  pub affected-Changes :
      (l : List AffectedMemory) (ids' : List Uuid) (before after : Memories)
      → apply_affected e opening l [] before ≡ ok (ids', after)
      → Changes lives_on e before after
  affected-Changes l ids' before after h id = (affected-Once l [] ids' before after h id).1
