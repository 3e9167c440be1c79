-- ===== src/Fold/Visibility.antt =====
-- domain/folding.py: the visibilities that a branch allows, and `_validate_branch_visibility`.
use scalevault.Prelude.{Bool, not, List, [], ◌∷◌, map, any, elem}
use scalevault.Domain.Enums.{MemoryVisibility, memory_visibility_Eq}
use scalevault.Events.States.{MemoryState, BranchState}
use scalevault.Events.Payloads.{
  Payload, MemoryTransitionPayload, memory_created, memory_transition, candidate_lifecycle,
  superseded, tombstoned, conflict_opened, conflict_resolved, purge_completed,
}
use scalevault.Fold.State.{Code, branch_visibility_forbidden}

-- `_BRANCH_VISIBILITIES`
unfoldable pub branch_visibilities : MemoryVisibility → List MemoryVisibility
branch_visibilities MemoryVisibility.private_root = MemoryVisibility.private_root ∷ []
branch_visibilities MemoryVisibility.restricted =
    MemoryVisibility.private_root ∷ MemoryVisibility.restricted ∷ []
branch_visibilities MemoryVisibility.shareable =
    MemoryVisibility.private_root ∷ MemoryVisibility.restricted ∷ MemoryVisibility.shareable ∷ []
branch_visibilities MemoryVisibility.public_seed =
    MemoryVisibility.private_root ∷ MemoryVisibility.restricted ∷ MemoryVisibility.shareable
    ∷ MemoryVisibility.public_seed ∷ []

-- `_memory_after_images`
unfoldable pub after_images : Payload → List MemoryState
after_images (memory_created c) = c.memory ∷ []
after_images (memory_transition t) = t.memory ∷ []
after_images (candidate_lifecycle c) = c.transition.memory ∷ []
after_images (superseded t l) = t.memory ∷ []
after_images (tombstoned t f) = t.memory ∷ []
after_images (purge_completed q) = q.transition.memory ∷ []
after_images (conflict_opened c) =
    map (λ (t : MemoryTransitionPayload). t.memory) c.affected_memories
after_images (conflict_resolved c) =
    map (λ (t : MemoryTransitionPayload). t.memory) c.affected_memories
after_images _ = []

-- The branch allows the memory's visibility.
abbrev pub allows : BranchState → MemoryState → Bool
allows b m = elem m.visibility (branch_visibilities b.visibility_ceiling)

-- `_validate_branch_visibility`
unfoldable pub visibility_checks : BranchState → Payload → List (Bool × Code)
unfolding after_images branch_visibilities
visibility_checks b payload =
    (any (λ m. not (allows b m)) (after_images payload), branch_visibility_forbidden) ∷ []
