-- ===== src/Fold/Ceiling/Within.antt =====
-- The ceilings over one event, and over a stream of events.
use mathlib.Core.Path.{subst}
use scalevault.Prelude.{
  ◌≡◌, refl, sym, ap, ◌∙◌, Bool, true, false, ◌==◌, not, Option, none, some, List, [], ◌∷◌, ok,
  arith, found, >>=-eq-ok, ok-injective, inl, inr, ◌⊎◌, nat_Eq, if◌then◌else◌, Bool-cases, >>-eq-ok,
  or_raise, any, ◌>>=◌, ==→eq,
}
use scalevault.Prelude.Dict.{get, get-put, get-empty}
use scalevault.Domain.Identifiers.{Uuid}
use scalevault.Domain.Enums.{MemoryStatus}
use scalevault.Domain.Operations.{EventOperation, event_operation_Eq}
use scalevault.Events.States.{MemoryState, BranchState}
use scalevault.Events.Payloads.{Payload, branch_created}
use scalevault.Events.Envelope.{MemoryEvent, Platform}
use scalevault.Fold.State.{ProjectionState, initial, check, checked, checked_last, key_error}
use scalevault.Prelude.Returns.{Returns-ok}
use scalevault.Fold.Visibility.{allows, visibility_checks, after_images}
use scalevault.Fold.Links.{Branches, create_branch, check_parent, branching_checks}
use scalevault.Fold.Operations.{apply_branch}
use scalevault.Fold.Step.{
  apply_operation, is_branch_created, check_visibility, recorded, fold_event, rebuild_from, rebuild,
}
use scalevault.Fold.Step.Accepted.{fold_step-Accepted}
use scalevault.Fold.Memories.{Memories}
use scalevault.Fold.Change.{Change, kept, begun, revised}
use scalevault.Fold.Change.Event.{allowed, operation-Changes, branch-same}
use scalevault.Fold.Ceiling.Branches.{SameBranches, operation-Rooted}
use scalevault.Fold.Ceiling.Arms.{operation-Writes}

-- The branch of a memory is there, and allows its visibility.
abbrev pub IsAllowed : Branches → MemoryState → Type 0
IsAllowed branches m = (b : BranchState) × (get m.branch_id branches ≡ some b) × (allows b m ≡ true)

abbrev pub IsWithin : Memories → Branches → Type 0
IsWithin memories branches =
    (id : Uuid) (m : MemoryState) → get id memories ≡ some m → IsAllowed branches m

module _ (p : Platform) (e : MemoryEvent) (s : ProjectionState) where
  seen :
      (payload : Payload)
      → is_branch_created p e s ≡ false
      → check_visibility p e s payload ≡ ok tt
      → (or_raise (get e.branch_id s.branches) key_error
          >>= (λ b. check e (visibility_checks b payload)))
        ≡ ok tt
  unfolding check_visibility
  seen payload apart h =
      subst
        (λ b.
          (if b
            then ok tt
            else (or_raise (get e.branch_id s.branches) key_error
                >>= (λ b. check e (visibility_checks b payload))))
          ≡ ok tt)
        apart h

  unequal :
      (a k : Uuid) (b : BranchState)
      → get a s.branches ≡ none
      → get k s.branches ≡ some b
      → (a == k) ≡ false
  unequal a k b h g = elim (Bool-cases (a == k)) [
    | inl same ↦
        let eq : a ≡ k = ==→eq a k same in
        let old = subst (λ i. get i s.branches ≡ none) eq h in cc (old, g)
    | inr apart ↦ apart
  ]

  -- What `_validate_branch_visibility` says, for an operation that is not `BRANCH_CREATED`.
  visible-passes :
      (payload : Payload)
      → is_branch_created p e s ≡ false
      → check_visibility p e s payload ≡ ok tt
      → (b : BranchState) × (get e.branch_id s.branches ≡ some b)
        × (any (λ m. not (allows b m)) (after_images payload) ≡ false)
  unfolding check_visibility visibility_checks
  visible-passes payload apart h =
      let (b, held, h2) = found (get e.branch_id s.branches) key_error _ (seen payload apart h) in
      (b, held, (checked_last e (visibility_checks b payload) h2).0)

  -- A memory behind an event: an old one, or one in the event's branch.
  old_or_here :
      (allow : MemoryStatus → MemoryStatus → Bool) (id : Uuid) (m : MemoryState)
      (before after : Option MemoryState)
      → Change allow e id before after
      → after ≡ some m
      → (before ≡ some m) ⊎ (m.branch_id ≡ e.branch_id)
  old_or_here allow id m before after (kept same) h = inl (sym same ∙ h)
  old_or_here allow id m before after (begun x fresh stored k scope b) h =
      let same : x ≡ m = cc (stored, h) in
      inr (ap (λ (z : MemoryState). z.branch_id) (sym same) ∙ scope.branch)
  old_or_here allow id m before after (revised a x held stored k scope r f) h =
      let same : x ≡ m = cc (stored, h) in
      inr (ap (λ (z : MemoryState). z.branch_id) (sym same) ∙ scope.branch)

  -- `BRANCH_CREATED` keeps the memories and the branches that are there.
  branch_kept :
      (op : EventOperation) (payload : Payload) (r : ProjectionState)
      → (op == EventOperation.branch_created) ≡ true
      → apply_operation p e s op payload ≡ ok r
      → (r.memories ≡ s.memories)
        × ((k : Uuid) (b : BranchState) → get k s.branches ≡ some b → get k r.branches ≡ some b)
  unfolding apply_operation apply_branch create_branch
  branch_kept EventOperation.branch_created (branch_created x) r o h =
      let (branches, h1, h2) = >>=-eq-ok (create_branch e x s.branches s.sequence_scopes) _ h in
      let (checks, h3) = checked e (branching_checks e x s.branches) _ h1 in
      let (parent, h4) =
        >>-eq-ok (check_parent e x s.branches s.sequence_scopes x.parent_branch_id) _ h3 in
      let fresh : get x.branch_id s.branches ≡ none = let c = checks.1.1.0 in ground arith in
      (
        branch-same p e s r x h,
        λ k b held.
            let apart : (x.branch_id == k) ≡ false = unequal x.branch_id k b fresh held in
            rw
              (
                ap (λ (z : ProjectionState). z.branches) (ok-injective h2),
                ok-injective h4,
                get-put,
                apart,
              )
              held,
      )
  branch_kept _ _ r o h = cc

  IsWithin-applied :
      (payload : Payload) (r : ProjectionState)
      → check_visibility p e s payload ≡ ok tt
      → apply_operation p e s e.operation payload ≡ ok r
      → IsWithin s.memories s.branches
      → IsWithin r.memories r.branches
  IsWithin-applied payload r visible h within id m stored =
      elim (Bool-cases (is_branch_created p e s)) [
        | inl branching ↦
            let (same, old) = branch_kept e.operation payload r branching h in
            let (b, held, allowed) = within id m (subst (λ d. get id d ≡ some m) same stored) in
            (b, old m.branch_id b held, allowed)
        | inr apart ↦
            let same =
              Returns-ok (SameBranches p e s) (apply_operation p e s e.operation payload)
                (operation-Rooted p e s e.operation payload apart) h in
            let (here, there, pass) = visible-passes payload apart visible in
            let changes = operation-Changes p e s r e.operation payload refl h in
            let writes = operation-Writes (allows here) p e s r e.operation payload pass h in
            let old = λ (k : get id s.memories ≡ some m).
              subst (λ d. IsAllowed d m) (sym same) (within id m k) in
            elim (old_or_here (allowed e.operation) id m (get id s.memories) (get id r.memories)
              (changes id) stored) [
                | inl k ↦ old k
                | inr inside ↦ elim (writes id m stored) [
                  | inl k ↦ old k
                  | inr passes ↦ (
                    here,
                    subst (λ d. get m.branch_id d ≡ some here) (sym same)
                        (subst (λ i. get i s.branches ≡ some here) (sym inside) there),
                    passes,
                  )
                ]
              ]
      ]

-- An event keeps this: the branch of each memory exists, and its ceiling allows the memory's
-- visibility.
pub fold_event-IsWithin :
    (p : Platform) (s r : ProjectionState) (e : MemoryEvent)
    → IsWithin s.memories s.branches
    → fold_event p s e ≡ ok r
    → IsWithin r.memories r.branches
unfolding fold_event recorded
fold_event-IsWithin p s r e within h =
    let a = fold_step-Accepted p e s true r h in
    subst (λ (x : ProjectionState). IsWithin x.memories x.branches) (sym a.becomes)
      (IsWithin-applied p e s a.payload a.applied a.visible a.applies within)

rebuild_from-IsWithin :
    (p : Platform) (events : List MemoryEvent) (s r : ProjectionState)
    → IsWithin s.memories s.branches
    → rebuild_from p s events ≡ ok r
    → IsWithin r.memories r.branches
unfolding rebuild_from
rebuild_from-IsWithin p [] s r within h =
    subst (λ (x : ProjectionState). IsWithin x.memories x.branches) (sym (ok-injective h)) within
rebuild_from-IsWithin p (e ∷ rest) s r within h =
    let (next, folded, h1) = >>=-eq-ok (fold_event p s e) _ h in
    rebuild_from-IsWithin p rest next r (fold_event-IsWithin p s next e within folded) h1

-- In a rebuilt projection, the branch of each memory exists, and its ceiling allows the memory's
-- visibility.
pub rebuild-IsWithin :
    (p : Platform) (events : List MemoryEvent) (r : ProjectionState)
    → rebuild p events ≡ ok r
    → (id : Uuid) (m : MemoryState) → get id r.memories ≡ some m
    → IsAllowed r.branches m
unfolding rebuild initial
rebuild-IsWithin p events r h =
    rebuild_from-IsWithin p events initial r
      (λ k i held. let e = get-empty {V = MemoryState} k in cc (held, e)) h
