-- ===== src/Outbox/Progress.antt =====
-- No job of the outbox waits forever: what the operations do for a job that is due.
use scalevault.Prelude.{
  ℕ, zero, suc, ◌+◌, ◌≡◌, ◌≤◌, ◌<◌, Bool, true, false, not, ◌&&◌, some, List, [], ◌∷◌, Text, ℤ,
  arith, refl, sym, ◌∙◌, ap, ok, ◌==◌, nat_Eq, elem, all_unique, length, Bool-cases, Option-cases,
  inl, inr, ==→eq, list_Eq, is_empty, is_some, raise_if, or_raise, codes,
}
use scalevault.Prelude.Dict.{get, put, keys, elem-keys}
use scalevault.Outbox.Job.{OutboxJob, Table, seconds, JobState, job_state_Eq}
use scalevault.Outbox.Enqueue.{in_range}
use scalevault.Outbox.Select.{selected, limit, select_rows}
use scalevault.Outbox.Claim.{
  ClaimRequest, ClaimedOutboxJob, is_claimable, is_owner, validate_timing, lease_rows, lease_token,
  claim_outbox_jobs,
}
use scalevault.Outbox.Lease.{
  expiry, is_expired, is_exhausted, release_row, lease_expired_summary, recover_rows,
  RecoverRequest, recover_expired_outbox_leases,
}
use scalevault.Outbox.Distinct.{ids, elem-ordered}
use scalevault.Outbox.Selections.{IsKeyed}
use scalevault.Outbox.Invariant.{WellFormed}
use scalevault.Outbox.Batch.{Claimable}

-- The arguments that a claim admits.
pub record IsValid (q : ClaimRequest) : Type 0 where
  pub transaction : q.in_transaction ≡ true
  pub owner : is_owner q.worker_owner ≡ true
  pub batch : is_some (in_range 1 100 q.batch_size) ≡ true
  pub lease : is_some (in_range 5 3600 q.lease_seconds) ≡ true
  pub types : is_empty q.job_types ≡ false
  pub distinct : all_unique q.job_types ≡ true

module _ (p : OutboxJob → Bool) (t : Table) (k : ℕ) (r : OutboxJob) where
  selected_complete :
      (ks : List ℕ)
      → get k t ≡ some r
      → r.job_id ≡ k
      → p r ≡ true
      → elem k ks ≡ true
      → elem k (ids (selected p t ks)) ≡ true
  unfolding selected
  selected_complete [] h i y e = e
  selected_complete (j ∷ ks) h i y e = elim (Bool-cases (k == j)) [
    | inl same ↦
        let here = ap (λ x. get x t) (sym (==→eq k j same)) ∙ h in ground (arith, here, y, i, same)
    | inr apart ↦ elim (Option-cases (get j t)) [
      | inl n ↦ ground (arith, n, apart, e, selected_complete ks h i y)
      | inr (z, m) ↦ ground (arith, m, apart, e, selected_complete ks h i y)
    ]
  ]

limit-nonempty :
    (k n : ℕ) (rows : List OutboxJob)
    → 0 < n
    → elem k (ids rows) ≡ true
    → is_empty (limit n rows) ≡ false
unfolding limit
limit-nonempty k zero rows l h = absurd (omega (arith, l))
limit-nonempty k (suc n) [] l h = cc
limit-nonempty k (suc n) (r ∷ rows) l h = refl

-- A statement selects some row if one of the table passes its test and is free.
select_rows-nonempty :
    (p : OutboxJob → Bool) (at : OutboxJob → ℕ) (locked : ℕ → Bool) (n : ℕ) (t : Table) (k : ℕ)
    (r : OutboxJob)
    → IsKeyed t
    → 0 < n
    → get k t ≡ some r
    → p r ≡ true
    → locked r.job_id ≡ false
    → is_empty (select_rows p at locked n t) ≡ false
unfolding select_rows
select_rows-nonempty p at locked n t k r w l h y free = limit-nonempty k n _ l (
    elem-ordered at k _
    ∙ selected_complete (λ r. p r && not (locked r.job_id)) t k r (keys t) h (w k r h)
        (rw (y, free) refl) (elem-keys k t ∙ rw h refl))

lease_rows-nonempty :
    (token : ℕ → Text) (expires_at now i : ℕ) (rows : List OutboxJob) (t : Table)
    → is_empty (lease_rows token expires_at now i rows t).1 ≡ is_empty rows
unfolding lease_rows
lease_rows-nonempty token expires_at now i [] t = refl
lease_rows-nonempty token expires_at now i (r ∷ rows) t = refl

valid_timing :
    (b l : ℤ)
    → is_some (in_range 1 100 b) ≡ true
    → is_some (in_range 5 3600 l) ≡ true
    → (n m : ℕ) × (0 < n) × (validate_timing b l ≡ ok (n, m))
unfolding validate_timing in_range or_raise
valid_timing (ℤ.pos b) (ℤ.pos l) h i = (b, l, ground (arith, h), ground (arith, h, i))
valid_timing (ℤ.pos b) (ℤ.negsuc l) h i = cc
valid_timing (ℤ.negsuc b) l h i = cc

Claimable-is_claimable :
    (q : ClaimRequest) (r : OutboxJob)
    → Claimable q r
    → is_claimable q.tenant_id q.job_types q.now r ≡ true
unfolding is_claimable
Claimable-is_claimable q r c = ground (arith, c.tenant, c.waiting, c.due, c.attempts, c.wanted)

-- A claim with valid arguments returns, and if the table has a job that it may take, hands out some
-- job.
pub claim-takes :
    (q : ClaimRequest) (s : Table) (k : ℕ) (r : OutboxJob)
    → WellFormed s
    → IsValid q
    → get k s ≡ some r
    → Claimable q r
    → (t : Table) × (jobs : List ClaimedOutboxJob) × (claim_outbox_jobs q s ≡ ok (t, jobs))
      × (is_empty jobs ≡ false)
unfolding claim_outbox_jobs raise_if
claim-takes q s k r w v h c =
    let (n, m, l, timed) = valid_timing q.batch_size q.lease_seconds v.batch v.lease in
    let rows =
      select_rows (is_claimable q.tenant_id q.job_types q.now) (λ r. r.available_at) q.locked n s in
    let a =
      lease_rows (lease_token q.worker_owner q.uuid_text q.new_uuids) (q.now + seconds m) q.now 0
        rows s in
    (
      a.0,
      a.1,
      rw (v.transaction, v.owner, timed, v.types, v.distinct) refl,
      lease_rows-nonempty _ _ _ _ _ _
          ∙ select_rows-nonempty _ (λ r. r.available_at) q.locked n s k r w.keyed l h
              (Claimable-is_claimable q r c) c.free,
    )

-- The arguments that a recovery admits.
pub record CanRecover (q : RecoverRequest) : Type 0 where
  pub batch : is_some (in_range 1 1000 q.batch_size) ≡ true
  pub delay : is_some (in_range 0 86400 q.retry_delay_seconds) ≡ true
  pub types : is_empty q.job_types ≡ false

-- A row whose lease has expired, condition by condition.
pub record Expired (q : RecoverRequest) (r : OutboxJob) : Type 0 where
  pub tenant : r.tenant_id ≡ q.tenant_id
  pub state : r.state ≡ JobState.leased
  pub ended : (at : ℕ) × (r.lease_expires_at ≡ some at) × (at ≤ q.now)
  pub wanted : elem r.job_type q.job_types ≡ true
  pub free : q.locked r.job_id ≡ false

Expired-is_expired :
    (q : RecoverRequest) (r : OutboxJob)
    → Expired q r
    → is_expired q.tenant_id q.job_types q.now r ≡ true
unfolding is_expired
Expired-is_expired q r e = ground (arith, e.tenant, e.state, e.ended, e.wanted)

recover_rows-counts :
    (delay now : ℕ) (rows : List OutboxJob) (t : Table)
    → let (after, pending, dead) = recover_rows delay now rows t in pending + dead ≡ length rows
unfolding recover_rows
recover_rows-counts delay now [] t = refl
recover_rows-counts delay now (r ∷ rows) t =
    let row =
      release_row (is_exhausted r) (codes "lease_expired") lease_expired_summary delay now r in
    ground (arith, recover_rows-counts delay now rows (put r.job_id row t))

length-nonempty : (rows : List OutboxJob) → is_empty rows ≡ false → 0 < length rows
length-nonempty [] h = cc
length-nonempty (r ∷ rows) h = omega arith

in_range-found :
    (low high : ℕ) (z : ℤ)
    → is_some (in_range low high z) ≡ true
    → (n : ℕ) × (in_range low high z ≡ some n) × (low ≤ n)
unfolding in_range
in_range-found low high (ℤ.pos n) h = (n, ground (arith, h), ground (arith, h))
in_range-found low high (ℤ.negsuc n) h = cc

-- A recovery with valid arguments returns, and if the table has a free job whose lease has expired,
-- returns some job to the waiting ones or declares it dead.
pub recover-releases :
    (q : RecoverRequest) (s : Table) (k : ℕ) (r : OutboxJob)
    → WellFormed s
    → CanRecover q
    → get k s ≡ some r
    → Expired q r
    → (t : Table) × (pending dead : ℕ) × (recover_expired_outbox_leases q s ≡ ok (t, pending, dead))
      × (0 < pending + dead)
unfolding recover_expired_outbox_leases raise_if or_raise
recover-releases q s k r w v h e =
    let (n, batch, l) = in_range-found 1 1000 q.batch_size v.batch in
    let (m, delay, _) = in_range-found 0 86400 q.retry_delay_seconds v.delay in
    let rows = select_rows (is_expired q.tenant_id q.job_types q.now) expiry q.locked n s in
    let a = recover_rows m q.now rows s in
    let some_row = length-nonempty rows (
      select_rows-nonempty _ expiry q.locked n s k r w.keyed l h (Expired-is_expired q r e)
        e.free) in
    (
      a.0,
      a.1,
      a.2,
      rw (batch, delay, v.types) refl,
      omega (arith, recover_rows-counts m q.now rows s, some_row),
    )
