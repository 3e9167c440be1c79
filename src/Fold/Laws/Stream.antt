-- ===== src/Fold/Laws/Stream.antt =====
-- domain/folding.py: the stream of events, its sequence numbers and its event ids.
use mathlib.Core.Path.{subst}
use scalevault.Prelude.{
  ℕ, ◌+◌, ◌≡◌, refl, sym, ap, ◌∙◌, Bool, true, false, ◌==◌, ◌!=◌, ◌||◌, Option, none, some, List,
  [], ◌∷◌, ok, arith, >>=-eq-ok, ok-injective, length, map, elem, all_unique, nat_Eq, Bool-cases,
  inl, inr, if◌then◌else◌,
}
use scalevault.Prelude.Dict.{get, put, get-put, get-empty}
use scalevault.Domain.Identifiers.{Uuid}
use scalevault.Events.Envelope.{MemoryEvent, Platform}
use scalevault.Fold.State.{ProjectionState, ScopeKey, scope_of, initial}
use scalevault.Fold.Step.{fold_event, recorded, rebuild_from, rebuild}
use scalevault.Fold.Step.Accepted.{Accepted, fold_step-Accepted}
use scalevault.Fold.Frame.{operation-Framed}

-- What one event adds to the record of the events.
pub record Recorded (s : ProjectionState) (e : MemoryEvent) (r : ProjectionState) : Type 0 where
  pub sequence : r.sequence ≡ e.sequence
  pub events : r.event_scopes ≡ put e.event_id (scope_of e) s.event_scopes
  pub sequences : r.sequence_scopes ≡ put e.sequence (scope_of e) s.sequence_scopes
  pub fresh : get e.event_id s.event_scopes ≡ none

pub Accepted-Recorded :
    (p : Platform) (s r : ProjectionState) (e : MemoryEvent) (contiguous : Bool)
    → Accepted p e s contiguous r
    → Recorded s e r
unfolding recorded
Accepted-Recorded p s r e contiguous a =
    let f = operation-Framed p e s a.applied e.operation a.payload a.applies in
    let to = a.becomes in
    record {
      sequence = ap (λ (x : ProjectionState). x.sequence) to;
      events =
          ap (λ (x : ProjectionState). x.event_scopes) to
          ∙ ap (put e.event_id (scope_of e)) f.events;
      sequences =
          ap (λ (x : ProjectionState). x.sequence_scopes) to
          ∙ ap (put e.sequence (scope_of e)) f.sequences;
      fresh = let x = a.fresh in ground arith;
    }

equal_numbers : (a b : ℕ) → (a != b) ≡ false → a ≡ b
equal_numbers a b h = ground arith

-- An event that the fold accepts has the next sequence number and an id that no earlier event has;
-- the state then records the number, and the scope of the event under its id and under its number.
pub fold_event-Recorded :
    (p : Platform) (s r : ProjectionState) (e : MemoryEvent)
    → fold_event p s e ≡ ok r
    → (e.sequence ≡ s.sequence + 1) × Recorded s e r
unfolding fold_event
fold_event-Recorded p s r e h =
    let a = fold_step-Accepted p e s true r h in
    (equal_numbers e.sequence (s.sequence + 1) (a.order.0), Accepted-Recorded p s r e true a)

-- The events are numbered in turn from `n + 1`.
abbrev pub Numbered : ℕ → List MemoryEvent → Type 0
Numbered n [] = Unit
Numbered n (e ∷ rest) = (e.sequence ≡ n + 1) × Numbered (n + 1) rest

abbrev pub ids : List MemoryEvent → List Uuid
ids = map (λ (e : MemoryEvent). e.event_id)

-- The scope that a stream gives an event id: that of the event.
abbrev pub recorded_scope : Uuid → List MemoryEvent → Option ScopeKey
recorded_scope id [] = none
recorded_scope id (e ∷ rest) =
    let later = recorded_scope id rest in if e.event_id == id then some (scope_of e) else later

-- `r` records exactly the events of `l`, behind what `s` records.
pub record Follows (s : ProjectionState) (l : List MemoryEvent) (r : ProjectionState) : Type 0 where
  pub sequence : r.sequence ≡ s.sequence + length l
  pub numbered : Numbered s.sequence l
  pub unique : all_unique (ids l) ≡ true
  pub fresh : (id : Uuid) → elem id (ids l) ≡ true → get id s.event_scopes ≡ none
  pub old : (id : Uuid) → elem id (ids l) ≡ false → get id r.event_scopes ≡ get id s.event_scopes
  pub new : (id : Uuid) → elem id (ids l) ≡ true → get id r.event_scopes ≡ recorded_scope id l

-- The three facts about one id, at an event with the id `k` and the scope `new`, from the states
-- `before`, `between` and `after` of its entry. `within` says whether the rest of the stream has it.
one_id :
    (id k : Uuid) (within : Bool) (scope : ScopeKey) (before between after later : Option ScopeKey)
    → between ≡ (if k == id then some scope else before)
    → (k ≡ id → before ≡ none) × (k ≡ id → within ≡ false)
    → (within ≡ true → between ≡ none)
      × (within ≡ false → after ≡ between)
      × (within ≡ true → after ≡ later)
    → ((id == k || within) ≡ true → before ≡ none)
      × ((id == k || within) ≡ false → after ≡ before)
      × ((id == k || within) ≡ true → after ≡ (if k == id then some scope else later))
one_id id k within scope before between after later t u v = ground arith

Follows-cons :
    (s next r : ProjectionState) (e : MemoryEvent) (rest : List MemoryEvent)
    → e.sequence ≡ s.sequence + 1
    → Recorded s e next
    → Follows next rest r
    → Follows s (e ∷ rest) r
Follows-cons s next r e rest number x y =
    let there : (id : Uuid)
        → get id next.event_scopes
          ≡ (if e.event_id == id then some (scope_of e) else get id s.event_scopes) =
      λ id. rw (x.events, get-put) in
    let apart : elem e.event_id (ids rest) ≡ false =
      elim (Bool-cases (elem e.event_id (ids rest))) [
        | inl h ↦ let n = y.fresh e.event_id h in let t = there e.event_id in ground arith
        | inr h ↦ h
      ] in
    let one = λ (id : Uuid).
      one_id id e.event_id (elem id (ids rest)) (scope_of e) (get id s.event_scopes)
        (get id next.event_scopes) (get id r.event_scopes) (recorded_scope id rest) (there id)
        (
          λ k. subst (λ i. get i s.event_scopes ≡ none) k x.fresh,
          λ k. subst (λ i. elem i (ids rest) ≡ false) k apart,
        )
        (y.fresh id, y.old id, y.new id) in
    record {
      sequence = let a = y.sequence in let b = x.sequence in ground arith;
      numbered = (number, subst (λ n. Numbered n rest) (x.sequence ∙ number) y.numbered);
      unique = let a = y.unique in ground arith;
      fresh = λ id. (one id).0;
      old = λ id. (one id).1;
      new = λ id. (one id).2;
    }

unrecorded :
    (id : Uuid) (l : List MemoryEvent) → elem id (ids l) ≡ false → recorded_scope id l ≡ none
unrecorded id [] h = refl
unrecorded id (e ∷ rest) h = let r = unrecorded id rest in ground arith

rebuild_from-Follows :
    (p : Platform) (l : List MemoryEvent) (s r : ProjectionState)
    → rebuild_from p s l ≡ ok r
    → Follows s l r
unfolding rebuild_from
rebuild_from-Follows p [] s r h =
    let same = ok-injective h in
    record {
      sequence = ap (λ (x : ProjectionState). x.sequence) same ∙ ground arith;
      numbered = tt;
      unique = refl;
      fresh = λ id x. cc;
      old = λ id x. ap (λ (x : ProjectionState). get id x.event_scopes) same;
      new = λ id x. cc;
    }
rebuild_from-Follows p (e ∷ rest) s r h =
    let (next, folded, h1) = >>=-eq-ok (fold_event p s e) _ h in
    let (number, x) = fold_event-Recorded p s next e folded in
    Follows-cons s next r e rest number x (rebuild_from-Follows p rest next r h1)

-- A rebuild that returns has read events numbered 1, 2, 3 and so on, with ids of their own; its
-- sequence is the number of the events, and it records each event's scope under the event's id and
-- nothing under any other id.
pub rebuild-numbers_events :
    (p : Platform) (l : List MemoryEvent) (r : ProjectionState)
    → rebuild p l ≡ ok r
    → (r.sequence ≡ length l)
      × Numbered 0 l
      × (all_unique (ids l) ≡ true)
      × ((id : Uuid) → get id r.event_scopes ≡ recorded_scope id l)
unfolding rebuild initial
rebuild-numbers_events p l r h =
    let x = rebuild_from-Follows p l initial r h in
    let count : r.sequence ≡ 0 + length l = x.sequence in
    (
      ground arith,
      x.numbered,
      x.unique,
      λ id. elim (Bool-cases (elem id (ids l))) [
        | inl there ↦ x.new id there
        | inr absent ↦ x.old id absent ∙ (get-empty id ∙ sym (unrecorded id l absent))
      ],
    )
