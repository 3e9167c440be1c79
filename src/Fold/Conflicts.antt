-- ===== src/Fold/Conflicts.antt =====
-- domain/folding.py: `_apply_affected_memories`, `_open_conflict` and `_resolve_conflict`.
use scalevault.Prelude.{
  Bool, true, false, ◌||◌, not, some, List, [], ◌∷◌, map, ok, ◌>>=◌, ◌>>◌, or_raise, ◌==◌, ◌!=◌,
  elem, any, same_set, nat_Eq, option_Eq, pair_Eq, list_Eq, if◌then◌else◌,
}
use scalevault.Prelude.Dict.{Dict, get, put, contains, keys, discard}
use scalevault.Domain.Identifiers.{Uuid}
use scalevault.Domain.Enums.{MemoryStatus, memory_status_Eq}
use scalevault.Events.States.{MemoryState, ConflictState, ConflictMemberState}
use scalevault.Events.Shape.{is_resolved}
use scalevault.Events.Payloads.{AffectedMemory, ConflictPayload}
use scalevault.Events.Envelope.{MemoryEvent}
use scalevault.Fold.State.{
  Folded, Code, MemberKey, check, fail, key_error, duplicate_conflict_member, missing_memory,
  invalid_lifecycle, duplicate_conflict, invalid_conflict_state, timestamp_mismatch,
  conflict_member_mismatch, conflict_subject_mismatch, missing_conflict, identity_changed,
}
use scalevault.Fold.Checks.{revision_checks, scope_check}
use scalevault.Fold.Memories.{Memories}

abbrev pub Conflicts : Type 0
Conflicts = Dict Uuid ConflictState

abbrev pub Members : Type 0
Members = Dict MemberKey ConflictMemberState

abbrev pub is_claim : MemoryStatus → Bool
is_claim s = elem s (MemoryStatus.candidate ∷ MemoryStatus.active ∷ [])

abbrev pub is_resolution : MemoryStatus → Bool
is_resolution s = elem s (MemoryStatus.active ∷ MemoryStatus.superseded ∷ MemoryStatus.retired ∷ [])

-- The status checks of a conflict that opens, or else of one that is resolved.
abbrev pub conflict_status_checks : Bool → MemoryState → MemoryState → List (Bool × Code)
conflict_status_checks opening current after =
    if opening
    then (not (is_claim current.status), invalid_lifecycle)
      ∷ (after.status != MemoryStatus.disputed, invalid_lifecycle)
      ∷ []
    else (current.status != MemoryStatus.disputed, invalid_lifecycle)
      ∷ (not (is_resolution after.status), invalid_lifecycle)
      ∷ []

abbrev pub affected_checks : MemoryEvent → MemoryState → List Uuid → List (Bool × Code)
affected_checks e m ids =
    (elem m.memory_id ids, duplicate_conflict_member)
    ∷ scope_check e m.tenant_id m.lineage_id m.branch_id
    ∷ []

-- `_apply_affected_memories`, with the set `ids` so far.
unfoldable pub apply_affected :
    MemoryEvent → Bool → List AffectedMemory → List Uuid → Memories → Folded (List Uuid × Memories)
unfolding check or_raise get put revision_checks
apply_affected e opening [] ids memories = ok (ids, memories)
apply_affected e opening (change ∷ rest) ids memories = do
  check e (affected_checks e change.memory ids)
  current ← or_raise (get change.memory.memory_id memories) (fail e missing_memory)
  check e (revision_checks e current change.previous_revision change.memory false)
  check e (conflict_status_checks opening current change.memory)
  apply_affected e opening rest (change.memory.memory_id ∷ ids)
      (put change.memory.memory_id change.memory memories)

abbrev pub member_ids : List ConflictMemberState → List Uuid
member_ids = map (λ (m : ConflictMemberState). m.memory_id)

-- `any(memories[memory_id].subject_id != conflict.subject_id for memory_id in member_ids)`
unfoldable pub check_subjects : MemoryEvent → Uuid → List Uuid → Memories → Folded (Unit {0})
unfolding check or_raise get
check_subjects e subject [] memories = ok tt
check_subjects e subject (id ∷ rest) memories = do
  m ← or_raise (get id memories) key_error
  check e ((m.subject_id != subject, conflict_subject_mismatch) ∷ [])
  check_subjects e subject rest memories

-- The loop that adds the members of a new conflict.
unfoldable pub join_members : MemoryEvent → List ConflictMemberState → Members → Folded Members
unfolding check get put
join_members e [] members = ok members
join_members e (m ∷ rest) members = do
  check e ((contains (m.conflict_id, m.memory_id) members, duplicate_conflict_member) ∷ [])
  join_members e rest (put (m.conflict_id, m.memory_id) m members)

abbrev pub opening_checks : MemoryEvent → ConflictState → Conflicts → List (Bool × Code)
opening_checks e c conflicts =
    scope_check e c.tenant_id c.lineage_id c.branch_id
    ∷ (contains c.conflict_id conflicts, duplicate_conflict)
    ∷ (is_resolved c.status, invalid_conflict_state)
    ∷ (c.opened_at != e.created_at, timestamp_mismatch)
    ∷ []

abbrev pub affected_check : List Uuid → List ConflictMemberState → Bool × Code
affected_check ids members = (not (same_set ids (member_ids members)), conflict_member_mismatch)

abbrev pub joining_checks : MemoryEvent → List Uuid → List ConflictMemberState → List (Bool × Code)
joining_checks e ids members =
    (any (λ (m : ConflictMemberState). m.joined_at != e.created_at) members, timestamp_mismatch)
    ∷ affected_check ids members
    ∷ []

unfoldable pub open_conflict :
    MemoryEvent
    → ConflictPayload
    → Memories
    → Conflicts
    → Members
    → Folded (Memories × Conflicts × Members)
unfolding check get put apply_affected check_subjects join_members
open_conflict e c memories conflicts members = do
  check e (opening_checks e c.conflict conflicts)
  (ids, memories') ← apply_affected e true c.affected_memories [] memories
  check e (joining_checks e ids c.members)
  check_subjects e c.conflict.subject_id (member_ids c.members) memories'
  members' ← join_members e c.members members
  ok (memories', put c.conflict.conflict_id c.conflict conflicts, members')

-- The member ids that the projection has for a conflict.
abbrev pub current_members : Uuid → List MemberKey → List Uuid
current_members conflict [] = []
current_members conflict ((c, m) ∷ rest) =
    let more = current_members conflict rest in if c == conflict then m ∷ more else more

-- The loop that compares the join times of the members.
unfoldable pub check_joined : MemoryEvent → List ConflictMemberState → Members → Folded (Unit {0})
unfolding check or_raise get
check_joined e [] members = ok tt
check_joined e (m ∷ rest) members = do
  old ← or_raise (get (m.conflict_id, m.memory_id) members) key_error
  check e ((m.joined_at != old.joined_at, identity_changed) ∷ [])
  check_joined e rest members

unfoldable pub put_members : List ConflictMemberState → Members → Members
unfolding put
put_members [] members = members
put_members (m ∷ rest) members = put_members rest (put (m.conflict_id, m.memory_id) m members)

abbrev pub conflict_scope : MemoryEvent → ConflictState → List (Bool × Code)
conflict_scope e c = scope_check e c.tenant_id c.lineage_id c.branch_id ∷ []

abbrev pub resolution_checks :
    MemoryEvent → ConflictPayload → ConflictState → Members → List (Bool × Code)
resolution_checks e c current members =
    let conflict = c.conflict in
    (is_resolved current.status || not (is_resolved conflict.status), invalid_conflict_state)
    ∷ (conflict.resolved_at != some e.created_at, timestamp_mismatch)
    ∷ (conflict.conflict_id != current.conflict_id, identity_changed)
    ∷ (conflict.tenant_id != current.tenant_id, identity_changed)
    ∷ (conflict.lineage_id != current.lineage_id, identity_changed)
    ∷ (conflict.branch_id != current.branch_id, identity_changed)
    ∷ (conflict.subject_id != current.subject_id, identity_changed)
    ∷ (conflict.reason != current.reason, identity_changed)
    ∷ (conflict.opened_at != current.opened_at, identity_changed)
    ∷ (
      not (same_set (current_members conflict.conflict_id (keys members)) (member_ids c.members)),
      conflict_member_mismatch,
    )
    ∷ []

unfoldable pub resolve_conflict :
    MemoryEvent
    → ConflictPayload
    → Memories
    → Conflicts
    → Members
    → Folded (Memories × Conflicts × Members)
unfolding check or_raise get put keys discard apply_affected check_joined put_members
resolve_conflict e c memories conflicts members = do
  check e (conflict_scope e c.conflict)
  current ← or_raise (get c.conflict.conflict_id conflicts) (fail e missing_conflict)
  check e (resolution_checks e c current members)
  check_joined e c.members members
  (ids, memories') ← apply_affected e false c.affected_memories [] memories
  check e (affected_check ids c.members ∷ [])
  ok (
    memories',
    put c.conflict.conflict_id c.conflict conflicts,
    put_members c.members (discard (λ k. k.0 == c.conflict.conflict_id) members),
  )
