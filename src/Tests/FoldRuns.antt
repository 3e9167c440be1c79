-- ===== src/Tests/FoldRuns.antt =====
-- Runs of the fold.
use mathlib.Core.List.{flat_map}
use scalevault.Prelude.{
  ◌+◌, ◌≡◌, refl, List, [], ◌∷◌, ok, err, raise_if, length, all_unique, true, some, nat_Eq,
}
use scalevault.Prelude.Dict.{get}
use scalevault.Domain.Identifiers.{Uuid, is_uuid7}
use scalevault.Events.States.{MemoryState}
use scalevault.Events.Envelope.{MemoryEvent}
use scalevault.Fold.State.{Folded, ProjectionState, initial, fold_error, unsanitized_tombstone}
use scalevault.Fold.Step.{fold_event, rebuild_from, rebuild}
use scalevault.Fold.Change.{Changes}
use scalevault.Fold.Change.Event.{allowed}
use scalevault.Fold.Laws.Change.{fold_event-Changes, rebuild_from-Descends, Descends}
use scalevault.Fold.Laws.Stream.{
  Recorded, fold_event-Recorded, Numbered, ids, recorded_scope, rebuild-numbers_events,
}
use scalevault.Fold.Laws.Evidence.{is_remembered}
use scalevault.Fold.Laws.Evidence.Arms.{rebuild-IsSanitized}
use scalevault.Fold.Ceiling.Within.{IsWithin, IsAllowed, fold_event-IsWithin, rebuild-IsWithin}
use scalevault.Tests.Samples.{
  id, memory, first, forgotten, item, event_1, event_2, event_3, event_4,
}
use scalevault.Tests.Platforms.{platform}

abbrev value_or : ProjectionState → Folded ProjectionState → ProjectionState
value_or d (ok s) = s
value_or d (err f) = d

-- The states behind each event of the stream.
abbrev state_1 : ProjectionState
unfolding fold_event initial
state_1 = value_or initial (fold_event platform initial event_1)

abbrev state_2 : ProjectionState
unfolding fold_event initial
state_2 = value_or initial (fold_event platform state_1 event_2)

abbrev state_3 : ProjectionState
unfolding fold_event initial
state_3 = value_or initial (fold_event platform state_2 event_3)

abbrev state_4 : ProjectionState
unfolding fold_event initial
state_4 = value_or initial (fold_event platform state_3 event_4)

abbrev stream : List MemoryEvent
stream = event_1 ∷ event_2 ∷ event_3 ∷ event_4 ∷ []

run_2 : fold_event platform state_1 event_2 ≡ ok state_2
unfolding fold_event initial is_uuid7 raise_if flat_map
run_2 = refl

run_4 : fold_event platform state_3 event_4 ≡ ok state_4
unfolding fold_event initial is_uuid7 raise_if flat_map
run_4 = refl

run_from_2 : rebuild_from platform state_2 (event_3 ∷ event_4 ∷ []) ≡ ok state_4
unfolding rebuild_from initial is_uuid7 raise_if flat_map
run_from_2 = refl

run_stream : rebuild platform stream ≡ ok state_4
unfolding rebuild initial is_uuid7 raise_if flat_map
run_stream = refl

run_short : rebuild platform (event_1 ∷ event_2 ∷ []) ≡ ok state_2
unfolding rebuild initial is_uuid7 raise_if flat_map
run_short = refl

run_3 : rebuild platform (event_1 ∷ event_2 ∷ event_3 ∷ []) ≡ ok state_3
unfolding rebuild initial is_uuid7 raise_if flat_map
run_3 = refl

held : get memory state_2.memories ≡ some first
unfolding fold_event initial is_uuid7 raise_if flat_map
held = refl

-- A tombstone is not sent while the memory has evidence.
refused :
    fold_event platform state_2 (record event_4 { sequence = 3 })
    ≡ err (fold_error unsanitized_tombstone 3)
unfolding fold_event initial is_uuid7 raise_if flat_map
refused = refl

fold_event-Changes_example :
    Changes (allowed event_4.operation) event_4 state_3.memories state_4.memories
fold_event-Changes_example = fold_event-Changes platform state_3 state_4 event_4 run_4

rebuild_from-Descends_example :
    (b : MemoryState) × (get memory state_4.memories ≡ some b) × Descends first b
rebuild_from-Descends_example =
    rebuild_from-Descends platform (event_3 ∷ event_4 ∷ []) state_2 state_4 memory first run_from_2
      held

fold_event-Recorded_example :
    (event_2.sequence ≡ state_1.sequence + 1) × Recorded state_1 event_2 state_2
fold_event-Recorded_example = fold_event-Recorded platform state_1 state_2 event_2 run_2

rebuild-numbers_events_example :
    (state_4.sequence ≡ length stream)
    × Numbered 0 stream
    × (all_unique (ids stream) ≡ true)
    × ((id : Uuid) → get id state_4.event_scopes ≡ recorded_scope id stream)
rebuild-numbers_events_example = rebuild-numbers_events platform stream state_4 run_stream

attached : get (id 6) state_2.evidence ≡ some item
unfolding fold_event initial is_uuid7 raise_if flat_map
attached = refl

rebuild-IsSanitized_example : is_remembered state_2.memories memory ≡ true
rebuild-IsSanitized_example =
    rebuild-IsSanitized platform (event_1 ∷ event_2 ∷ []) state_2 run_short (id 6) item attached

ceilings_3 : IsWithin state_3.memories state_3.branches
ceilings_3 = rebuild-IsWithin platform (event_1 ∷ event_2 ∷ event_3 ∷ []) state_3 run_3

fold_event-IsWithin_example : IsWithin state_4.memories state_4.branches
fold_event-IsWithin_example = fold_event-IsWithin platform state_3 state_4 event_4 ceilings_3 run_4

tombstone : get memory state_4.memories ≡ some forgotten
unfolding fold_event initial is_uuid7 raise_if flat_map
tombstone = refl

rebuild-IsWithin_example : IsAllowed state_4.branches forgotten
rebuild-IsWithin_example =
    rebuild-IsWithin platform stream state_4 run_stream memory forgotten tombstone
