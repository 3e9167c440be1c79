-- ===== src/Fold/Laws/Change.antt =====
-- domain/folding.py: the life of a memory, over one event and over a stream.
use mathlib.Core.Path.{subst}
use scalevault.Prelude.{
  ◌≤◌, ◌≡◌, refl, sym, ap, ◌∙◌, true, false, Option, some, List, [], ◌∷◌, ok, arith, ok-injective,
  >>=-eq-ok, inl, ◌⊎◌, nat_Eq,
}
use scalevault.Prelude.Dict.{get}
use scalevault.Domain.Identifiers.{Uuid}
use scalevault.Domain.Enums.{MemoryStatus, memory_status_Eq}
use scalevault.Domain.Operations.{EventOperation}
use scalevault.Events.States.{MemoryState}
use scalevault.Events.Envelope.{MemoryEvent, Platform}
use scalevault.Fold.State.{ProjectionState}
use scalevault.Fold.Checks.{is_live}
use scalevault.Fold.Step.{fold_event, recorded, rebuild_from}
use scalevault.Fold.Step.Accepted.{fold_step-Accepted}
use scalevault.Fold.Change.{Changes, Change, kept, begun, revised, Revises, follows}
use scalevault.Fold.Change.Event.{allowed, operation-Changes}

-- When the fold accepts an event, every memory is kept as it was, or is created at revision 1 as
-- a candidate or active, or is replaced by its next revision with the same identity, in which case
-- the status follows the life cycle, and only `TOMBSTONED` makes a memory a tombstone. A memory
-- that is created or replaced has the event's tenant, lineage and branch.
pub fold_event-Changes :
    (p : Platform) (s r : ProjectionState) (e : MemoryEvent)
    → fold_event p s e ≡ ok r
    → Changes (allowed e.operation) e s.memories r.memories
unfolding fold_event recorded
fold_event-Changes p s r e h =
    let a = fold_step-Accepted p e s true r h in
    subst (λ (x : ProjectionState). Changes (allowed e.operation) e s.memories x.memories)
      (sym a.becomes) (operation-Changes p e s a.applied e.operation a.payload refl a.applies)

-- `b` is `a` or a later revision of it.
pub record Descends (a b : MemoryState) : Type 0 where
  pub revision : a.revision ≤ b.revision
  pub memory : b.memory_id ≡ a.memory_id
  pub tenant : b.tenant_id ≡ a.tenant_id
  pub lineage : b.lineage_id ≡ a.lineage_id
  pub branch : b.branch_id ≡ a.branch_id
  pub subject : b.subject_id ≡ a.subject_id
  pub created : b.created_at ≡ a.created_at
  pub forgotten : a.status ≡ MemoryStatus.tombstoned → b.status ≡ MemoryStatus.tombstoned
  pub ended :
      is_live a.status ≡ false → (b.status ≡ a.status) ⊎ (b.status ≡ MemoryStatus.tombstoned)

follows-ended :
    (a b : MemoryStatus)
    → follows a b ≡ true
    → is_live a ≡ false
    → (b ≡ a) ⊎ (b ≡ MemoryStatus.tombstoned)
follows-ended a b f h = ground arith

follows-forgotten :
    (a b : MemoryStatus)
    → follows a b ≡ true
    → a ≡ MemoryStatus.tombstoned
    → b ≡ MemoryStatus.tombstoned
follows-forgotten a b f h = ground arith

allowed-follows :
    (op : EventOperation) (a b : MemoryStatus) → allowed op a b ≡ true → follows a b ≡ true
allowed-follows op a b h = ground arith

Descends-refl : (a : MemoryState) → Descends a a
Descends-refl a = record {
  revision = omega arith;
  memory = refl;
  tenant = refl;
  lineage = refl;
  branch = refl;
  subject = refl;
  created = refl;
  forgotten = λ h. h;
  ended = λ h. inl refl;
}

ended_again :
    (a b c : MemoryStatus)
    → (b ≡ a) ⊎ (b ≡ MemoryStatus.tombstoned)
    → is_live a ≡ false
    → (is_live b ≡ false → (c ≡ b) ⊎ (c ≡ MemoryStatus.tombstoned))
    → (c ≡ a) ⊎ (c ≡ MemoryStatus.tombstoned)
ended_again a b c x h y = ground arith

Descends-trans : (a b c : MemoryState) → Descends a b → Descends b c → Descends a c
Descends-trans a b c x y = record {
  revision = omega arith;
  memory = y.memory ∙ x.memory;
  tenant = y.tenant ∙ x.tenant;
  lineage = y.lineage ∙ x.lineage;
  branch = y.branch ∙ x.branch;
  subject = y.subject ∙ x.subject;
  created = y.created ∙ x.created;
  forgotten = λ h. y.forgotten (x.forgotten h);
  ended = λ h. ended_again a.status b.status c.status (x.ended h) h y.ended;
}

Revises-Descends :
    (e : MemoryEvent) (a b : MemoryState)
    → Revises e a b
    → follows a.status b.status ≡ true
    → Descends a b
Revises-Descends e a b x f = record {
  revision = omega arith;
  memory = x.memory;
  tenant = x.tenant;
  lineage = x.lineage;
  branch = x.branch;
  subject = x.subject;
  created = x.created;
  forgotten = follows-forgotten a.status b.status f;
  ended = follows-ended a.status b.status f;
}

-- A memory that is there is still there after a change, as itself or a later revision.
Change-Descends :
    (e : MemoryEvent) (id : Uuid) (before after : Option MemoryState) (a : MemoryState)
    → Change (allowed e.operation) e id before after
    → before ≡ some a
    → (b : MemoryState) × (after ≡ some b) × Descends a b
Change-Descends e id before after a (kept k) h = (a, k ∙ h, Descends-refl a)
Change-Descends e id before after a (begun m none_before k i s b) h = cc
Change-Descends e id before after a (revised x b held k i s r f) h =
    let same : x ≡ a = cc in
    (
      b,
      k,
      subst (λ o. Descends o b) same
          (Revises-Descends e x b r (allowed-follows e.operation x.status b.status f)),
    )

-- Over every stream of events that the fold accepts, a memory is never lost: it stays under its id
-- with the same identity and creation time, its revision never falls, one that was superseded,
-- retired or forgotten is never live again, and a tombstone stays a tombstone.
pub rebuild_from-Descends :
    (p : Platform) (events : List MemoryEvent) (s r : ProjectionState) (id : Uuid) (a : MemoryState)
    → rebuild_from p s events ≡ ok r
    → get id s.memories ≡ some a
    → (b : MemoryState) × (get id r.memories ≡ some b) × Descends a b
unfolding rebuild_from
rebuild_from-Descends p [] s r id a h held =
    (a, ap (λ (x : ProjectionState). get id x.memories) (ok-injective h) ∙ held, Descends-refl a)
rebuild_from-Descends p (e ∷ rest) s r id a h held =
    let (next, folded, h1) = >>=-eq-ok (fold_event p s e) _ h in
    let (b, there, x) =
      Change-Descends e id (get id s.memories) (get id next.memories) a
        (fold_event-Changes p s next e folded id) held in
    let (c, ends, y) = rebuild_from-Descends p rest next r id b h1 there in
    (c, ends, Descends-trans a b c x y)
