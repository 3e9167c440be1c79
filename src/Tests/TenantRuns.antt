-- ===== src/Tests/TenantRuns.antt =====
-- A run of the tenant replay, on events that skip a number of the global sequence.
use mathlib.Core.List.{flat_map}
use scalevault.Prelude.{◌≡◌, refl, List, [], ◌∷◌, some, ok, err, raise_if, nat_Eq}
use scalevault.Prelude.Dict.{get}
use scalevault.Domain.Identifiers.{is_uuid7}
use scalevault.Events.Envelope.{MemoryEvent}
use scalevault.Fold.State.{Folded, initial}
use scalevault.Fold.Tenant.{
  TenantReplayState, rebuild_tenant, FromTenant, IsOwn, rebuild_tenant-isolates,
}
use scalevault.Tests.Samples.{tenant, memory, first, event_1, event_2}
use scalevault.Tests.Platforms.{platform}

abbrev replay_or : TenantReplayState → Folded TenantReplayState → TenantReplayState
replay_or d (ok s) = s
replay_or d (err f) = d

abbrev own_events : List MemoryEvent
own_events = event_1 ∷ record event_2 { sequence = 5 } ∷ []

abbrev replayed : TenantReplayState
unfolding rebuild_tenant initial
replayed =
    replay_or (record { tenant_id = tenant; projection = initial })
      (rebuild_tenant platform tenant own_events)

run_replay : rebuild_tenant platform tenant own_events ≡ ok replayed
unfolding rebuild_tenant initial is_uuid7 raise_if flat_map
run_replay = refl

replayed_memory : get memory replayed.projection.memories ≡ some first
unfolding rebuild_tenant initial is_uuid7 raise_if flat_map
replayed_memory = refl

rebuild_tenant-isolates_example :
    (replayed.tenant_id ≡ tenant) × FromTenant tenant 0 own_events × IsOwn replayed
rebuild_tenant-isolates_example =
    rebuild_tenant-isolates platform tenant own_events replayed run_replay
