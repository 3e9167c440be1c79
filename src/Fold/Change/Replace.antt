-- ===== src/Fold/Change/Replace.antt =====
-- What `_replace_memory` checked when it returned, and that it replaced one memory.
use scalevault.Prelude.{
  ℕ, ◌≡◌, Bool, true, Option, some, ok, arith, Passed, found, ok-injective, >>-eq-ok, Bool-cases,
  inl, inr, nat_Eq, ◌==◌,
}
use scalevault.Prelude.Dict.{get, put, get-put}
use scalevault.Domain.Enums.{MemoryStatus, memory_status_Eq}
use scalevault.Events.States.{MemoryState}
use scalevault.Events.Payloads.{MemoryTransitionPayload}
use scalevault.Events.Envelope.{MemoryEvent, Platform}
use scalevault.Fold.State.{checked}
use scalevault.Fold.Checks.{check_target, revision_checks}
use scalevault.Fold.Memories.{Memories, replace_memory, status_checks}
use scalevault.Fold.Change.{InScope, Revises, Changes, kept, revised}

module _ (p : Platform) (e : MemoryEvent) where
  pub check_target-InScope :
      (m : MemoryState)
      → check_target p e m ≡ ok tt
      → InScope e m × (e.memory_id ≡ some m.memory_id)
  unfolding check_target
  check_target-InScope m h = let (scope, rest) = checked e _ _ h in (ground arith, ground arith)

  pub revision_checks-Revises :
      (a b : MemoryState) (previous : ℕ) (envelope : Bool)
      → Passed (revision_checks e a previous b envelope)
      → Revises e a b
  unfolding revision_checks
  revision_checks-Revises a b previous envelope h = ground arith

  -- What a successful `_replace_memory` says.
  pub record Replaced (memories after : Memories) (t : MemoryTransitionPayload)
      (required : Option MemoryStatus) (preserve : Bool) : Type 0 where
    pub current : MemoryState
    pub held : get t.memory.memory_id memories ≡ some current
    pub target : e.memory_id ≡ some t.memory.memory_id
    pub scope : InScope e t.memory
    pub revises : Revises e current t.memory
    pub statuses : Passed (status_checks required preserve current t.memory)
    pub result : after ≡ put t.memory.memory_id t.memory memories

  pub replace_memory-Replaced :
      (memories after : Memories) (t : MemoryTransitionPayload) (required : Option MemoryStatus)
      (preserve : Bool)
      → replace_memory p e memories t required preserve ≡ ok after
      → Replaced memories after t required preserve
  unfolding replace_memory
  replace_memory-Replaced memories after t required preserve h =
      let (target, h1) = >>-eq-ok (check_target p e t.memory) _ h in
      let (current, held, h2) = found (get t.memory.memory_id memories) _ _ h1 in
      let (revision, h3) =
        checked e (revision_checks e current t.previous_revision t.memory true) _ h2 in
      let (statuses, h4) = checked e (status_checks required preserve current t.memory) _ h3 in
      let (scope, id) = check_target-InScope t.memory target in
      record {
        current = current;
        held = held;
        target = id;
        scope = scope;
        revises = revision_checks-Revises current t.memory t.previous_revision true revision;
        statuses = statuses;
        result = ok-injective h4;
      }

  -- A replaced memory is the next revision of the one that was there, and no other memory changes.
  pub Replaced-Changes :
      (allow : MemoryStatus → MemoryStatus → Bool) (memories after : Memories)
      (t : MemoryTransitionPayload) (required : Option MemoryStatus) (preserve : Bool)
      → (r : Replaced memories after t required preserve)
      → allow r.current.status t.memory.status ≡ true
      → Changes allow e memories after
  Replaced-Changes allow memories after t required preserve r f id =
      elim (Bool-cases (t.memory.memory_id == id)) [
        | inl same ↦
            let k : t.memory.memory_id ≡ id = ground arith in
            revised r.current t.memory (rw k at r.held) (rw (r.result, get-put, same)) k r.scope
              r.revises f
        | inr apart ↦ kept (rw (r.result, get-put, apart))
      ]
