-- ===== src/Fold/Links.antt =====
-- domain/folding.py: `_link`, `_unlink` and `_create_branch`.
use scalevault.Prelude.{
  ℕ, Bool, ◌||◌, not, Option, none, some, List, [], ◌∷◌, ok, ◌>>=◌, ◌>>◌, or_raise, ◌!=◌, nat_Eq,
  option_Eq, triple_Eq,
}
use scalevault.Prelude.Dict.{Dict, get, put, contains}
use scalevault.Domain.Identifiers.{Uuid}
use scalevault.Domain.Operations.{link_type_Eq}
use scalevault.Events.States.{LinkState, BranchState}
use scalevault.Events.Shape.{is_unlinked}
use scalevault.Events.Envelope.{MemoryEvent}
use scalevault.Fold.State.{
  Folded, Code, ScopeKey, check, fail, duplicate_link, invalid_link_state, timestamp_mismatch,
  missing_link_endpoint, missing_link, identity_changed, branch_mismatch, duplicate_branch,
  missing_parent_branch, branch_scope_mismatch, invalid_fork_sequence,
}
use scalevault.Fold.Checks.{scope_check}
use scalevault.Fold.Memories.{Memories}

abbrev pub Links : Type 0
Links = Dict Uuid LinkState

abbrev pub Branches : Type 0
Branches = Dict Uuid BranchState

-- `_link`
unfoldable pub add_link : MemoryEvent → LinkState → Memories → Links → Folded Links
unfolding check get put
add_link e l memories links = do
  check e (
      scope_check e l.tenant_id l.lineage_id l.branch_id
      ∷ (contains l.link_id links, duplicate_link)
      ∷ (is_unlinked l.status, invalid_link_state)
      ∷ (l.created_at != e.created_at, timestamp_mismatch)
      ∷ (
        not (contains l.source_memory_id memories) || not (contains l.target_memory_id memories),
        missing_link_endpoint,
      )
      ∷ [])
  ok (put l.link_id l links)

-- `_unlink`
unfoldable pub unlink : MemoryEvent → LinkState → Links → Folded Links
unfolding check or_raise get put
unlink e l links = do
  check e (scope_check e l.tenant_id l.lineage_id l.branch_id ∷ [])
  current ← or_raise (get l.link_id links) (fail e missing_link)
  check e (
      (is_unlinked current.status || not (is_unlinked l.status), invalid_link_state)
      ∷ (l.unlinked_at != some e.created_at, timestamp_mismatch)
      ∷ (l.link_id != current.link_id, identity_changed)
      ∷ (l.tenant_id != current.tenant_id, identity_changed)
      ∷ (l.lineage_id != current.lineage_id, identity_changed)
      ∷ (l.branch_id != current.branch_id, identity_changed)
      ∷ (l.source_memory_id != current.source_memory_id, identity_changed)
      ∷ (l.target_memory_id != current.target_memory_id, identity_changed)
      ∷ (l.link_type != current.link_type, identity_changed)
      ∷ (l.created_at != current.created_at, identity_changed)
      ∷ [])
  ok (put l.link_id l links)

-- `branch.fork_event_sequence or 0`
abbrev pub or_zero : Option ℕ → ℕ
or_zero none = 0
or_zero (some n) = n

unfoldable pub check_parent :
    MemoryEvent → BranchState → Branches → Dict ℕ ScopeKey → Option Uuid → Folded (Unit {0})
unfolding check or_raise get
check_parent e b branches scopes none = ok tt
check_parent e b branches scopes (some parent_id) = do
  parent ← or_raise (get parent_id branches) (fail e missing_parent_branch)
  check e (
      (parent.tenant_id != b.tenant_id || parent.lineage_id != b.lineage_id, branch_scope_mismatch)
      ∷ (
        ◌!=◌ {A = Option ScopeKey} (get (or_zero b.fork_event_sequence) scopes)
            (some (b.tenant_id, b.lineage_id, parent_id)),
        invalid_fork_sequence,
      )
      ∷ [])

abbrev pub branching_checks : MemoryEvent → BranchState → Branches → List (Bool × Code)
branching_checks e b branches =
    scope_check e b.tenant_id b.lineage_id b.branch_id
    ∷ (b.branch_id != e.branch_id, branch_mismatch)
    ∷ (contains b.branch_id branches, duplicate_branch)
    ∷ (b.created_at != e.created_at, timestamp_mismatch)
    ∷ []

-- `_create_branch`
unfoldable pub create_branch :
    MemoryEvent → BranchState → Branches → Dict ℕ ScopeKey → Folded Branches
unfolding check get put check_parent
create_branch e b branches scopes = do
  check e (branching_checks e b branches)
  check_parent e b branches scopes b.parent_branch_id
  ok (put b.branch_id b branches)
