-- ===== src/Outbox/Guards.antt =====
-- The guarded statements of storage/outbox_worker.py, and the lease that they ask for.
use scalevault.Prelude.{
  ℕ, ◌≡◌, ◌<◌, ◌≤◌, ◌∙◌, if◌then◌else◌, ◌&&◌, ◌↔◌, Bool, true, Option, none, some, ok, err, Text, ℤ,
  refl, arith, Option-cases, inl, inr, nat_Eq, option_eq_iff, found, or_raise, is_some,
  ok-injective, sym, option_Eq, list_Eq, ap, holds, ltb→lt, ltb,
}
use scalevault.Prelude.Dict.{get, put, get-put_self}
use scalevault.Domain.Identifiers.{Uuid}
use scalevault.Outbox.Job.{OutboxJob, Table, outbox_lease_lost, JobState, job_state_Eq, value_error}
use scalevault.Outbox.Enqueue.{in_range}
use scalevault.Outbox.Claim.{validate_timing}
use scalevault.Outbox.Select.{row_where}
use scalevault.Outbox.Invariant.{some-injective}
use scalevault.Outbox.Selections.{row_where-IsMatch, IsMatch-row_where}
use scalevault.Outbox.Lease.{
  holds_lease, update_leased, acknowledge_outbox_job, succeed_row, heartbeat_outbox_job,
  fail_outbox_job, safe_error_summary,
}

-- The worker that calls holds the job's lease: the row is leased, by this tenant, under this token,
-- and the lease ends after `now`.
pub record HasLease (t : Table) (tenant_id : Uuid) (k : ℕ) (token : Text) (now : ℕ) (r : OutboxJob)
    : Type 0 where
  pub row : get k t ≡ some r
  pub tenant : r.tenant_id ≡ tenant_id
  pub state : r.state ≡ JobState.leased
  pub owner : r.lease_owner ≡ some token
  pub live : (at : ℕ) × (r.lease_expires_at ≡ some at) × (now < at)

holds-some :
    (p : ℕ → Bool) (o : Option ℕ) → holds p o ≡ true → (a : ℕ) × (o ≡ some a) × (p a ≡ true)
holds-some p none h = cc
holds-some p (some a) h = (a, refl, h)

-- A row that has succeeded now, column by column: the lease and the errors are cleared.
pub record Succeeded (now : ℕ) (r a : OutboxJob) : Type 0 where
  pub state : a.state ≡ JobState.succeeded
  pub lease_owner : a.lease_owner ≡ none
  pub lease_expires_at : a.lease_expires_at ≡ none
  pub last_error_code : a.last_error_code ≡ none
  pub last_error_summary : a.last_error_summary ≡ none
  pub completed_at : a.completed_at ≡ some now
  pub updated_at : a.updated_at ≡ now
  pub job_id : a.job_id ≡ r.job_id
  pub job_uuid : a.job_uuid ≡ r.job_uuid
  pub tenant_id : a.tenant_id ≡ r.tenant_id
  pub job_type : a.job_type ≡ r.job_type
  pub deduplication_key : a.deduplication_key ≡ r.deduplication_key
  pub aggregate_type : a.aggregate_type ≡ r.aggregate_type
  pub aggregate_id : a.aggregate_id ≡ r.aggregate_id
  pub payload : a.payload ≡ r.payload
  pub priority : a.priority ≡ r.priority
  pub available_at : a.available_at ≡ r.available_at
  pub attempt_count : a.attempt_count ≡ r.attempt_count
  pub max_attempts : a.max_attempts ≡ r.max_attempts
  pub created_at : a.created_at ≡ r.created_at

succeed_row-Succeeded : (now : ℕ) (r : OutboxJob) → Succeeded now r (succeed_row now r)
unfolding succeed_row
succeed_row-Succeeded now r = record {
  state = refl;
  lease_owner = refl;
  lease_expires_at = refl;
  last_error_code = refl;
  last_error_summary = refl;
  completed_at = refl;
  updated_at = refl;
  job_id = refl;
  job_uuid = refl;
  tenant_id = refl;
  job_type = refl;
  deduplication_key = refl;
  aggregate_type = refl;
  aggregate_id = refl;
  payload = refl;
  priority = refl;
  available_at = refl;
  attempt_count = refl;
  max_attempts = refl;
  created_at = refl;
}

Succeeded-succeed_row : (now : ℕ) (r a : OutboxJob) → Succeeded now r a → a ≡ succeed_row now r
unfolding succeed_row
Succeeded-succeed_row now r a h = λ i. record {
  state = h.state i;
  lease_owner = h.lease_owner i;
  lease_expires_at = h.lease_expires_at i;
  last_error_code = h.last_error_code i;
  last_error_summary = h.last_error_summary i;
  completed_at = h.completed_at i;
  updated_at = h.updated_at i;
  job_id = h.job_id i;
  job_uuid = h.job_uuid i;
  tenant_id = h.tenant_id i;
  job_type = h.job_type i;
  deduplication_key = h.deduplication_key i;
  aggregate_type = h.aggregate_type i;
  aggregate_id = h.aggregate_id i;
  payload = h.payload i;
  priority = h.priority i;
  available_at = h.available_at i;
  attempt_count = h.attempt_count i;
  max_attempts = h.max_attempts i;
  created_at = h.created_at i;
}

module _ (t : Table) (tenant_id : Uuid) (k : ℕ) (token : Text) (now : ℕ) where
  row_where-HasLease :
      (r : OutboxJob)
      → row_where k (holds_lease tenant_id token now) t ≡ some r
      → HasLease t tenant_id k token now r
  unfolding holds_lease
  row_where-HasLease r h =
      let (row, held) = row_where-IsMatch k (holds_lease tenant_id token now) t h in
      record {
        row = row;
        tenant = ground (arith, held);
        state = ground (arith, held);
        owner = (option_eq_iff r.lease_owner (some token)).0 (ground (arith, held));
        live =
            let (at, e, l) =
              holds-some (λ at. ltb now at) r.lease_expires_at (ground (arith, held)) in
            (at, e, ltb→lt now at l);
      }

  HasLease-holds :
      (r : OutboxJob)
      → HasLease t tenant_id k token now r
      → holds_lease tenant_id token now r ≡ true
  unfolding holds_lease
  HasLease-holds r h =
      ground
        (arith, h.tenant, h.state, (option_eq_iff r.lease_owner (some token)).1 h.owner, h.live)

  HasLease-row_where :
      (r : OutboxJob)
      → HasLease t tenant_id k token now r
      → row_where k (holds_lease tenant_id token now) t ≡ some r
  HasLease-row_where r h = IsMatch-row_where k _ t r h.row (HasLease-holds r h)

  no_lease :
      ((r : OutboxJob) → ¬ HasLease t tenant_id k token now r)
      → row_where k (holds_lease tenant_id token now) t ≡ none
  no_lease n = elim (Option-cases (row_where k (holds_lease tenant_id token now) t)) [
    | inl e ↦ e
    | inr (r, e) ↦ absurd (n r (row_where-HasLease r e))
  ]

  succeeded_no_lease :
      (r : OutboxJob) (other : Text) (later : ℕ)
      → row_where k (holds_lease tenant_id other later) (put k (succeed_row now r) t) ≡ none
  unfolding holds_lease succeed_row
  succeeded_no_lease r other later =
      elim (Option-cases (row_where k (holds_lease tenant_id other later) _)) [
        | inl e ↦ e
        | inr (a, e) ↦
            let (row, held) = row_where-IsMatch k (holds_lease tenant_id other later) _ e in
            let same = some-injective (sym (get-put_self k (succeed_row now r) t) ∙ row) in
            absurd (not_leased (ap (λ (x : OutboxJob). x.state) (sym same)) (ground (arith, held)))
      ]
    where
      not_leased : {s : JobState} → s ≡ JobState.succeeded → s ≡ JobState.leased → ⊥
      not_leased e l = cc (e, l)

  -- A worker's acknowledgement returns exactly if the worker holds the job's lease. Then the table
  -- differs in that row only, which has succeeded now, with its lease given up, its errors cleared and
  -- all its other columns kept; and no worker of the tenant can acknowledge the job again, nor extend
  -- its lease by from 5 to 3600 seconds: the lease is lost.
  pub acknowledge-exact :
      (after : Table) (other : Text) (later lease : ℕ)
      → 5 ≤ lease
      → lease ≤ 3600
      → (acknowledge_outbox_job tenant_id k token now t ≡ ok after) ↔ (
          (r a : OutboxJob) × HasLease t tenant_id k token now r
          × Succeeded now r a
          × (after ≡ put k a t)
          × (acknowledge_outbox_job tenant_id k other later after ≡ err outbox_lease_lost)
          × (heartbeat_outbox_job tenant_id k other (ℤ.pos lease) later after
              ≡ err outbox_lease_lost))
  unfolding acknowledge_outbox_job heartbeat_outbox_job update_leased or_raise validate_timing
      in_range
  acknowledge-exact after other later lease least most = (
    λ h.
        let (r, there, e) = found _ _ _ h in
        let lost = succeeded_no_lease r other later in
        (
          r,
          succeed_row now r,
          row_where-HasLease r there,
          succeed_row-Succeeded now r,
          ok-injective e,
          rw (ok-injective e, lost) refl,
          rw (ok-injective e, lost) (ground (arith, least, most)),
        ),
    λ (r, a, held, done, e, lost, silent).
        rw (HasLease-row_where r held)
          (ap ok (ap (λ x. put k x t) (sym (Succeeded-succeed_row now r a done)) ∙ sym e)),
  )

  -- A worker that does not hold the job's lease changes nothing: its heartbeat, its acknowledgement and
  -- its report of a failure raise, and where their other arguments are valid it is that the lease is lost.
  pub without_lease :
      (lease_seconds retry_delay : ℤ) (code : Text) (retryable : Bool)
      → ((r : OutboxJob) → ¬ HasLease t tenant_id k token now r)
      → (heartbeat_outbox_job tenant_id k token lease_seconds now t
          ≡ err
              (if is_some (in_range 5 3600 lease_seconds) then outbox_lease_lost else value_error))
        × (acknowledge_outbox_job tenant_id k token now t ≡ err outbox_lease_lost)
        × (fail_outbox_job tenant_id k token code retryable retry_delay now t
            ≡ err (
                if is_some (safe_error_summary code) && is_some (in_range 0 86400 retry_delay)
                then outbox_lease_lost
                else value_error))
  unfolding heartbeat_outbox_job acknowledge_outbox_job fail_outbox_job update_leased or_raise
      validate_timing in_range
  without_lease lease_seconds retry_delay code retryable n =
      let lost = no_lease n in (ground (arith, lost), rw lost refl, ground (arith, lost))
