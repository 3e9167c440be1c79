-- ===== src/Fold/Change.antt =====
-- What one event may do to a memory: nothing, create it, or replace it by its next revision.
pub mod Replace
pub mod Event
pub mod Arms
pub mod Affected
use scalevault.Prelude.{
  ℕ, ◌+◌, ◌≡◌, refl, Bool, true, ◌&&◌, ◌||◌, ◌==◌, ◌!=◌, Option, none, some, List, [], ◌∷◌, elem,
  nat_Eq, arith,
}
use scalevault.Prelude.Dict.{get}
use scalevault.Domain.Identifiers.{Uuid}
use scalevault.Domain.Enums.{MemoryStatus, memory_status_Eq}
use scalevault.Events.States.{MemoryState}
use scalevault.Events.Envelope.{MemoryEvent}
use scalevault.Fold.Memories.{Memories}

-- The statuses that may follow a status: the life cycle of a memory.
abbrev pub successors : MemoryStatus → List MemoryStatus
successors MemoryStatus.candidate =
    MemoryStatus.candidate ∷ MemoryStatus.active ∷ MemoryStatus.disputed ∷ MemoryStatus.superseded
    ∷ MemoryStatus.retired ∷ MemoryStatus.tombstoned ∷ []
successors MemoryStatus.active =
    MemoryStatus.active ∷ MemoryStatus.disputed ∷ MemoryStatus.superseded ∷ MemoryStatus.retired
    ∷ MemoryStatus.tombstoned ∷ []
successors MemoryStatus.disputed =
    MemoryStatus.active ∷ MemoryStatus.disputed ∷ MemoryStatus.superseded ∷ MemoryStatus.retired
    ∷ MemoryStatus.tombstoned ∷ []
successors MemoryStatus.superseded = MemoryStatus.superseded ∷ MemoryStatus.tombstoned ∷ []
successors MemoryStatus.retired = MemoryStatus.retired ∷ MemoryStatus.tombstoned ∷ []
successors MemoryStatus.tombstoned = MemoryStatus.tombstoned ∷ []

abbrev pub follows : MemoryStatus → MemoryStatus → Bool
follows a b = elem b (successors a)

-- The memory is in the event's tenant, lineage and branch.
pub record InScope (e : MemoryEvent) (m : MemoryState) : Type 0 where
  pub tenant : m.tenant_id ≡ e.tenant_id
  pub lineage : m.lineage_id ≡ e.lineage_id
  pub branch : m.branch_id ≡ e.branch_id

-- `b` is the next revision of `a`.
pub record Revises (e : MemoryEvent) (a b : MemoryState) : Type 0 where
  pub revision : b.revision ≡ a.revision + 1
  pub memory : b.memory_id ≡ a.memory_id
  pub tenant : b.tenant_id ≡ a.tenant_id
  pub lineage : b.lineage_id ≡ a.lineage_id
  pub branch : b.branch_id ≡ a.branch_id
  pub subject : b.subject_id ≡ a.subject_id
  pub created : b.created_at ≡ a.created_at
  pub updated : b.updated_at ≡ e.created_at

-- `m` is a first revision that the event `e` may create.
pub record Begins (e : MemoryEvent) (m : MemoryState) : Type 0 where
  pub revision : m.revision ≡ 1
  pub created : m.created_at ≡ e.created_at
  pub updated : m.updated_at ≡ e.created_at
  pub status : elem m.status (MemoryStatus.candidate ∷ MemoryStatus.active ∷ []) ≡ true

-- The change of one memory, where `allow` says which status may follow which.
pub data Change (allow : MemoryStatus → MemoryStatus → Bool) (e : MemoryEvent) (id : Uuid)
    (before after : Option MemoryState) : Type 0 where
  kept : after ≡ before → Change allow e id before after
  begun :
      (m : MemoryState)
      → before ≡ none
      → after ≡ some m
      → m.memory_id ≡ id
      → InScope e m
      → Begins e m
      → Change allow e id before after
  revised :
      (a b : MemoryState)
      → before ≡ some a
      → after ≡ some b
      → b.memory_id ≡ id
      → InScope e b
      → Revises e a b
      → allow a.status b.status ≡ true
      → Change allow e id before after

-- The change of every memory between two states of the projection.
abbrev pub Changes :
    (MemoryStatus → MemoryStatus → Bool) → MemoryEvent → Memories → Memories → Type 0
Changes allow e before after = (id : Uuid) → Change allow e id (get id before) (get id after)

-- The life cycle, with no memory forgotten that was not before.
abbrev pub lives_on : MemoryStatus → MemoryStatus → Bool
lives_on a b = follows a b && (b != MemoryStatus.tombstoned || a == MemoryStatus.tombstoned)

pub Change-follows :
    {e : MemoryEvent} {id : Uuid} {before after : Option MemoryState}
    → Change lives_on e id before after
    → Change follows e id before after
Change-follows (kept h) = kept h
Change-follows (begun m h k i s b) = begun m h k i s b
Change-follows (revised a b h k i s r f) = revised a b h k i s r (ground arith)

pub Changes-refl :
    (allow : MemoryStatus → MemoryStatus → Bool) (e : MemoryEvent) (memories : Memories)
    → Changes allow e memories memories
Changes-refl allow e memories id = kept refl
