-- ===== src/Fold/Ceiling.antt =====
-- domain/folding.py: the visibility of the memories, and the ceilings of their branches.
pub mod Branches
pub mod Arms
pub mod Within
use mathlib.Core.Path.{subst}
use scalevault.Prelude.{
  ℕ, ◌≡◌, refl, sym, ap, ◌∙◌, Bool, true, false, ◌==◌, not, Option, none, some, List, [], ◌∷◌, any,
  map, Result, ok, err, ◌>>=◌, ◌>>◌, or_raise, arith, Passed, found, >>=-eq-ok, >>-eq-ok,
  ok-injective, inl, inr, ◌⊎◌, nat_Eq, if◌then◌else◌,
}
use scalevault.Prelude.Dict.{get, put, get-put}
use scalevault.Domain.Identifiers.{Uuid}
use scalevault.Domain.Enums.{MemoryStatus}
use scalevault.Events.States.{MemoryState}
use scalevault.Events.Payloads.{MemoryTransitionPayload, MemoryCreatedPayload, AffectedMemory}
use scalevault.Events.Envelope.{MemoryEvent, Platform}
use scalevault.Fold.State.{ProjectionState, Folded, check, checked, fail, missing_memory}
use scalevault.Fold.Checks.{revision_checks, check_target}
use scalevault.Fold.Memories.{
  Memories, Evidence, replace_memory, create_memory, create_evidence, creation_checks,
}
use scalevault.Fold.Conflicts.{apply_affected, affected_checks, conflict_status_checks}
use scalevault.Fold.Change.Replace.{replace_memory-Replaced}

module _ (q : MemoryState → Bool) where
  -- Every memory of `after` is one of `before`, in its place, or passes the test `q`.
  abbrev pub Writes : Memories → Memories → Type 0
  Writes before after =
      (id : Uuid) (m : MemoryState)
      → get id after ≡ some m
      → (get id before ≡ some m) ⊎ (q m ≡ true)

  pub Writes-refl : (memories : Memories) → Writes memories memories
  Writes-refl memories id m h = inl h

  pub Writes-trans : (a b c : Memories) → Writes a b → Writes b c → Writes a c
  Writes-trans a b c x y id m h = elim (y id m h) [ inl old ↦ x id m old | inr new ↦ inr new ]

  chosen :
      (b : Bool) (x m : MemoryState) (o : Option MemoryState)
      → q x ≡ true
      → (if b then some x else o) ≡ some m
      → (o ≡ some m) ⊎ (q m ≡ true)
  chosen true x m o h k = let same : x ≡ m = cc k in inr (subst (λ z. q z ≡ true) same h)
  chosen false x m o h k = inl k

  pub put-Writes :
      (x : MemoryState) (memories : Memories)
      → q x ≡ true
      → Writes memories (put x.memory_id x memories)
  put-Writes x memories h id m k =
      chosen (x.memory_id == id) x m (get id memories) h
        (sym (get-put id x.memory_id x memories) ∙ k)

  pub replace_memory-Writes :
      (p : Platform) (e : MemoryEvent) (before after : Memories) (t : MemoryTransitionPayload)
      (required : Option MemoryStatus) (preserve : Bool)
      → q t.memory ≡ true
      → replace_memory p e before t required preserve ≡ ok after
      → Writes before after
  replace_memory-Writes p e before after t required preserve h k =
      let x = replace_memory-Replaced p e before after t required preserve k in
      rw x.result (put-Writes t.memory before h)

  pub create_memory-Writes :
      (p : Platform) (e : MemoryEvent) (c : MemoryCreatedPayload) (before after : Memories)
      (evidence evidence' : Evidence)
      → q c.memory ≡ true
      → create_memory p e c before evidence ≡ ok (after, evidence')
      → Writes before after
  unfolding create_memory
  create_memory-Writes p e c before after evidence evidence' h k =
      let m = c.memory in
      let (target, h1) = >>-eq-ok (check_target p e m) _ k in
      let (checks, h2) = checked e (creation_checks e m before) _ h1 in
      let (more, added, h3) = >>=-eq-ok (create_evidence e m.memory_id c.evidence evidence) _ h2 in
      rw (ap (λ (x : Memories × Evidence). x.0) (ok-injective h3)) (put-Writes m before h)

  -- The after-images of a conflict all pass the test.
  abbrev pub AllPass : List AffectedMemory → Type 0
  AllPass l = any (λ m. not (q m)) (map (λ (t : MemoryTransitionPayload). t.memory) l) ≡ false

  pub affected-Writes :
      (e : MemoryEvent) (opening : Bool) (l : List AffectedMemory) (ids ids' : List Uuid)
      (before after : Memories)
      → AllPass l
      → apply_affected e opening l ids before ≡ ok (ids', after)
      → Writes before after
  unfolding apply_affected
  affected-Writes e opening [] ids ids' before after h k =
      rw (ap (λ (x : List Uuid × Memories). x.1) (ok-injective k)) (Writes-refl before)
  affected-Writes e opening (c ∷ rest) ids ids' before after h k =
      let m = c.memory in
      let (fresh, h1) = checked e (affected_checks e m ids) _ k in
      let (current, held, h2) = found (get m.memory_id before) (fail e missing_memory) _ h1 in
      let (revision, h3) = checked e (revision_checks e current c.previous_revision m false) _ h2 in
      let (statuses, h4) = checked e (conflict_status_checks opening current m) _ h3 in
      let passes : q m ≡ true = ground arith in
      let others : AllPass rest = ground arith in
      Writes-trans before (put m.memory_id m before) after (put-Writes m before passes) (
        affected-Writes e opening rest (m.memory_id ∷ ids) ids' (put m.memory_id m before) after
          others h4)
