-- ===== src/Fold/Tenant.antt =====
-- domain/folding.py: `TenantReplayState`, `fold_tenant_event` and `rebuild_tenant`.
use mathlib.Core.Path.{subst}
use scalevault.Prelude.{
  ℕ, ◌<◌, ◌≡◌, sym, ap, ◌∙◌, Bool, false, ◌||◌, not, ◌!=◌, leb, any, All, List, [], ◌∷◌, ok, ◌>>=◌,
  ◌>>◌, raise_first, preceding_checks, >>=-eq-ok, ok-injective, nat_Eq, arith,
}
use scalevault.Prelude.Dict.{values}
use scalevault.Domain.Identifiers.{Uuid, is_uuid7}
use scalevault.Events.States.{MemoryState, EvidenceState, LinkState, ConflictState, BranchState}
use scalevault.Events.Envelope.{MemoryEvent, Platform}
use scalevault.Fold.State.{
  ProjectionState, ScopeKey, Failure, Folded, check, checked, initial, value_error,
  tenant_scope_mismatch,
}
use scalevault.Fold.Step.{fold_step}
use scalevault.Fold.Step.Accepted.{fold_step-Accepted}
use scalevault.Fold.Laws.Stream.{Accepted-Recorded}

pub record TenantReplayState : Type 0 where
  pub tenant_id : Uuid
  pub projection : ProjectionState

-- Some row of the projection is of another tenant.
abbrev pub has_foreign_row : Uuid → ProjectionState → Bool
has_foreign_row t s =
    any (λ (m : MemoryState). m.tenant_id != t) (values s.memories)
    || any (λ (i : EvidenceState). i.tenant_id != t) (values s.evidence)
    || any (λ (l : LinkState). l.tenant_id != t) (values s.links)
    || any (λ (c : ConflictState). c.tenant_id != t) (values s.conflicts)
    || any (λ (b : BranchState). b.tenant_id != t) (values s.branches)

-- `TenantReplayState.__post_init__`
abbrev pub replay_checks : Uuid → ProjectionState → List (Bool × Failure)
replay_checks t s =
    (not (is_uuid7 t), value_error)
    ∷ (has_foreign_row t s, value_error)
    ∷ (any (λ (k : ScopeKey). k.0 != t) (values s.event_scopes), value_error)
    ∷ (any (λ (k : ScopeKey). k.0 != t) (values s.sequence_scopes), value_error)
    ∷ []

-- `TenantReplayState(tenant_id=..., projection=...)`
unfoldable pub new_replay : Uuid → ProjectionState → Folded TenantReplayState
unfolding raise_first values
new_replay t s = do raise_first (replay_checks t s); ok (record { tenant_id = t; projection = s })

unfoldable pub fold_tenant_event :
    Platform → TenantReplayState → MemoryEvent → Folded TenantReplayState
unfolding check fold_step new_replay
fold_tenant_event p s e = do
  check e ((e.tenant_id != s.tenant_id, tenant_scope_mismatch) ∷ [])
  projection ← fold_step p e s.projection false
  new_replay s.tenant_id projection

unfoldable pub rebuild_tenant_from :
    Platform → TenantReplayState → List MemoryEvent → Folded TenantReplayState
unfolding fold_tenant_event
rebuild_tenant_from p s [] = ok s
rebuild_tenant_from p s (e ∷ rest) = do
  next ← fold_tenant_event p s e
  rebuild_tenant_from p next rest

unfoldable pub rebuild_tenant : Platform → Uuid → List MemoryEvent → Folded TenantReplayState
unfolding rebuild_tenant_from new_replay initial
rebuild_tenant p t events = do s ← new_replay t initial; rebuild_tenant_from p s events

-- Events of the tenant, with sequence numbers that rise from above `n`.
abbrev pub FromTenant : Uuid → ℕ → List MemoryEvent → Type 0
FromTenant t n [] = Unit
FromTenant t n (e ∷ rest) = (e.tenant_id ≡ t) × (n < e.sequence) × FromTenant t e.sequence rest

-- Every row of the state is of its tenant, and every event that it has recorded.
pub record IsOwn (s : TenantReplayState) : Type 0 where
  pub memories : All (λ (x : MemoryState). x.tenant_id ≡ s.tenant_id) (values s.projection.memories)
  pub evidence :
      All (λ (x : EvidenceState). x.tenant_id ≡ s.tenant_id) (values s.projection.evidence)
  pub links : All (λ (x : LinkState). x.tenant_id ≡ s.tenant_id) (values s.projection.links)
  pub conflicts :
      All (λ (x : ConflictState). x.tenant_id ≡ s.tenant_id) (values s.projection.conflicts)
  pub branches : All (λ (x : BranchState). x.tenant_id ≡ s.tenant_id) (values s.projection.branches)
  pub events : All (λ (k : ScopeKey). k.0 ≡ s.tenant_id) (values s.projection.event_scopes)
  pub numbers : All (λ (k : ScopeKey). k.0 ≡ s.tenant_id) (values s.projection.sequence_scopes)

equal_ids : (a b : Uuid) → (a != b) ≡ false → a ≡ b
equal_ids a b h = ground arith

above : (a b : ℕ) → leb a b ≡ false → b < a
above a b h = ground arith

-- No item of a list is of another tenant, so each is of this one.
tenant_of_each :
    {A : Type 0} (tenant_of : A → Uuid) (t : Uuid) (xs : List A)
    → any (λ x. tenant_of x != t) xs ≡ false
    → All (λ x. tenant_of x ≡ t) xs
tenant_of_each tenant_of t [] n = tt
tenant_of_each tenant_of t (x ∷ xs) n = (
  equal_ids (tenant_of x) t (ground (arith, n)),
  tenant_of_each tenant_of t xs (ground (arith, n)),
)

checked-IsOwn :
    (t : Uuid) (s : ProjectionState)
    → has_foreign_row t s ≡ false
    → any (λ (k : ScopeKey). k.0 != t) (values s.event_scopes) ≡ false
    → any (λ (k : ScopeKey). k.0 != t) (values s.sequence_scopes) ≡ false
    → IsOwn (record { tenant_id = t; projection = s })
checked-IsOwn t s rows events numbers = record {
  memories = tenant_of_each (λ (x : MemoryState). x.tenant_id) t _ (ground (arith, rows));
  evidence = tenant_of_each (λ (x : EvidenceState). x.tenant_id) t _ (ground (arith, rows));
  links = tenant_of_each (λ (x : LinkState). x.tenant_id) t _ (ground (arith, rows));
  conflicts = tenant_of_each (λ (x : ConflictState). x.tenant_id) t _ (ground (arith, rows));
  branches = tenant_of_each (λ (x : BranchState). x.tenant_id) t _ (ground (arith, rows));
  events = tenant_of_each (λ (k : ScopeKey). k.0) t _ events;
  numbers = tenant_of_each (λ (k : ScopeKey). k.0) t _ numbers;
}

new_replay-IsOwn :
    (t : Uuid) (s : ProjectionState) (r : TenantReplayState)
    → new_replay t s ≡ ok r
    → (r.tenant_id ≡ t) × (r.projection ≡ s) × IsOwn r
unfolding new_replay
new_replay-IsOwn t s r h =
    let (checks, h1) = preceding_checks (replay_checks t s) _ h in
    let same = ok-injective h1 in
    (
      ap (λ (x : TenantReplayState). x.tenant_id) same,
      ap (λ (x : TenantReplayState). x.projection) same,
      subst IsOwn (sym same) (checked-IsOwn t s checks.1.0 checks.1.1.0 checks.1.1.1.0),
    )

fold_tenant_event-step :
    (p : Platform) (s r : TenantReplayState) (e : MemoryEvent)
    → fold_tenant_event p s e ≡ ok r
    → (e.tenant_id ≡ s.tenant_id)
      × (s.projection.sequence < e.sequence)
      × (r.tenant_id ≡ s.tenant_id)
      × (r.projection.sequence ≡ e.sequence)
      × IsOwn r
unfolding fold_tenant_event
fold_tenant_event-step p s r e h =
    let (tenant, h1) = checked e ((e.tenant_id != s.tenant_id, tenant_scope_mismatch) ∷ []) _ h in
    let (projection, folded, h2) = >>=-eq-ok (fold_step p e s.projection false) _ h1 in
    let (same, kept, own) = new_replay-IsOwn s.tenant_id projection r h2 in
    let a = fold_step-Accepted p e s.projection false projection folded in
    let x = Accepted-Recorded p s.projection projection e false a in
    (
      equal_ids e.tenant_id s.tenant_id tenant.0,
      above e.sequence s.projection.sequence a.order.1.0,
      same,
      ap (λ (z : ProjectionState). z.sequence) kept ∙ x.sequence,
      own,
    )

rebuild_tenant_from-isolates :
    (p : Platform) (events : List MemoryEvent) (s r : TenantReplayState)
    → IsOwn s
    → rebuild_tenant_from p s events ≡ ok r
    → (r.tenant_id ≡ s.tenant_id) × FromTenant s.tenant_id s.projection.sequence events × IsOwn r
unfolding rebuild_tenant_from
rebuild_tenant_from-isolates p [] s r own h =
    let same = ok-injective h in
    (ap (λ (x : TenantReplayState). x.tenant_id) same, tt, subst IsOwn (sym same) own)
rebuild_tenant_from-isolates p (e ∷ rest) s r own h =
    let (next, folded, h1) = >>=-eq-ok (fold_tenant_event p s e) _ h in
    let (tenant, rises, same, at, owned) = fold_tenant_event-step p s next e folded in
    let (ends, from, all) = rebuild_tenant_from-isolates p rest next r owned h1 in
    (
      ends ∙ same,
      (
        tenant,
        rises,
        subst (λ n. FromTenant s.tenant_id n rest) at
            (subst (λ t. FromTenant t next.projection.sequence rest) same from),
      ),
      all,
    )

-- A tenant rebuild that returns is of the tenant that was asked for; it has read events of that
-- tenant only, with rising sequence numbers, and every memory, item of evidence, link, conflict and
-- branch that it holds and every event that it has recorded is that tenant's.
pub rebuild_tenant-isolates :
    (p : Platform) (t : Uuid) (events : List MemoryEvent) (r : TenantReplayState)
    → rebuild_tenant p t events ≡ ok r
    → (r.tenant_id ≡ t) × FromTenant t 0 events × IsOwn r
unfolding rebuild_tenant initial
rebuild_tenant-isolates p t events r h =
    let (s, made, h1) = >>=-eq-ok (new_replay t initial) _ h in
    let (tenant, projection, own) = new_replay-IsOwn t initial s made in
    let (ends, from, all) = rebuild_tenant_from-isolates p events s r own h1 in
    let start : s.projection.sequence ≡ 0 = ap (λ (x : ProjectionState). x.sequence) projection in
    (
      ends ∙ tenant,
      subst (λ n. FromTenant t n events) start
          (subst (λ u. FromTenant u s.projection.sequence events) tenant from),
      all,
    )
