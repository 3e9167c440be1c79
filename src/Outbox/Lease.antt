-- ===== src/Outbox/Lease.antt =====
-- storage/outbox_worker.py: keeping a lease, and the ways in which it ends.
-- `now` is the source's `now or _utc_now()`.
use scalevault.Prelude.{
  ℕ, ◌+◌, Bool, not, ◌&&◌, ◌||◌, Option, none, some, List, [], ◌∷◌, Text, codes, ℤ, Result, ok,
  ◌>>=◌, ◌>>◌, raise_if, or_raise, leb, ltb, elem, is_empty, holds, if◌then◌else◌, ◌==◌, list_Eq,
  nat_Eq, option_Eq,
}
use scalevault.Prelude.Dict.{put}
use scalevault.Domain.Identifiers.{Uuid}
use scalevault.Outbox.Job.{
  OutboxJob, JobState, job_state_Eq, Table, OutboxError, value_error, outbox_lease_lost, seconds,
}
use scalevault.Outbox.Enqueue.{in_range}
use scalevault.Outbox.Select.{select_rows, row_where}
use scalevault.Outbox.Claim.{validate_timing}

-- `_SAFE_ERROR_SUMMARIES`
unfoldable pub safe_error_summary : Text → Option Text
safe_error_summary code =
    if code == codes "dependency_unavailable"
    then some (codes "A required local dependency is unavailable.")
    else if code == codes "embedding_failed"
    then some (codes "The local embedding operation failed.")
    else if code == codes "internal_error"
    then some (codes "The worker could not complete the operation.")
    else if code == codes "invalid_job"
    then some (codes "The queued operation is invalid.")
    else if code == codes "lease_expired"
    then some (codes "The previous worker lease expired.")
    else if code == codes "model_unavailable"
    then some (codes "The configured local embedding model is unavailable.")
    else none

abbrev pub lease_expired_summary : Text
lease_expired_summary = codes "The previous worker lease expired."

-- The condition of the guarded statements: a live lease under this token.
unfoldable pub holds_lease : Uuid → Text → ℕ → OutboxJob → Bool
holds_lease tenant_id token now r =
    r.tenant_id == tenant_id
    && r.state == JobState.leased
    && r.lease_owner == some token
    && holds (λ expires_at. ltb now expires_at) r.lease_expires_at

-- A guarded statement: no row under the lease raises, else the row is replaced.
unfoldable pub update_leased :
    Uuid → ℕ → Text → ℕ → (OutboxJob → OutboxJob) → Table → Result OutboxError Table
update_leased tenant_id job_id token now change t = do
  r ← or_raise (row_where job_id (holds_lease tenant_id token now) t) outbox_lease_lost
  ok (put job_id (change r) t)

unfoldable pub heartbeat_outbox_job : Uuid → ℕ → Text → ℤ → ℕ → Table → Result OutboxError Table
heartbeat_outbox_job tenant_id job_id token lease_seconds now t = do
  (batch, lease) ← validate_timing (ℤ.pos 1) lease_seconds
  update_leased tenant_id job_id token now
      (λ r. record r { lease_expires_at = some (now + seconds lease); updated_at = now }) t

unfoldable pub succeed_row : ℕ → OutboxJob → OutboxJob
succeed_row now r = record r {
  state = JobState.succeeded;
  lease_owner = none;
  lease_expires_at = none;
  last_error_code = none;
  last_error_summary = none;
  completed_at = some now;
  updated_at = now;
}

unfoldable pub acknowledge_outbox_job : Uuid → ℕ → Text → ℕ → Table → Result OutboxError Table
acknowledge_outbox_job tenant_id job_id token now t =
    update_leased tenant_id job_id token now (succeed_row now) t

-- What a failed attempt leaves: a dead job, or a pending one that waits for its delay.
unfoldable pub release_row : Bool → Text → Text → ℕ → ℕ → OutboxJob → OutboxJob
release_row terminal error_code summary delay now r = record r {
  state = if terminal then JobState.dead else JobState.pending;
  lease_owner = none;
  lease_expires_at = none;
  last_error_code = some error_code;
  last_error_summary = some summary;
  completed_at = if terminal then some now else none;
  available_at = now + seconds delay;
  updated_at = now;
}

unfoldable pub is_exhausted : OutboxJob → Bool
is_exhausted r = leb r.max_attempts r.attempt_count

-- The table behind a failed attempt, with the row's state.
abbrev pub failed_job : ℕ → Text → Text → Bool → ℕ → ℕ → OutboxJob → Table → Table × JobState
failed_job job_id error_code summary retryable delay now r t =
    let row = release_row (not retryable || is_exhausted r) error_code summary delay now r in
    (put job_id row t, row.state)

-- `fail_outbox_job`, with the state that it returns.
unfoldable pub fail_outbox_job :
    Uuid → ℕ → Text → Text → Bool → ℤ → ℕ → Table → Result OutboxError (Table × JobState)
fail_outbox_job tenant_id job_id token error_code retryable retry_delay_seconds now t = do
  summary ← or_raise (safe_error_summary error_code) value_error
  delay ← or_raise (in_range 0 86400 retry_delay_seconds) value_error
  r ← or_raise (row_where job_id (holds_lease tenant_id token now) t) outbox_lease_lost
  ok (failed_job job_id error_code summary retryable delay now r t)

unfoldable pub is_expired : Uuid → List Text → ℕ → OutboxJob → Bool
is_expired tenant_id job_types now r =
    r.tenant_id == tenant_id
    && r.state == JobState.leased
    && holds (λ expires_at. leb expires_at now) r.lease_expires_at
    && elem r.job_type job_types

-- The expiry of a row; the rows that the recovery selects all have one.
abbrev pub expiry : OutboxJob → ℕ
expiry r = elim r.lease_expires_at [ none ↦ 0 | some at ↦ at ]

-- The loop of the recovery, with the counts of pending and dead jobs.
unfoldable pub recover_rows : ℕ → ℕ → List OutboxJob → Table → Table × ℕ × ℕ
recover_rows delay now [] t = (t, 0, 0)
recover_rows delay now (r ∷ rows) t =
    let terminal = is_exhausted r in
    let row = release_row terminal (codes "lease_expired") lease_expired_summary delay now r in
    let (after, pending, dead) = recover_rows delay now rows (put r.job_id row t) in
    (after, if terminal then pending else pending + 1, if terminal then dead + 1 else dead)

pub record RecoverRequest : Type 0 where
  pub tenant_id : Uuid
  pub job_types : List Text
  pub batch_size : ℤ
  pub retry_delay_seconds : ℤ
  pub now : ℕ
  pub locked : ℕ → Bool

unfoldable pub recover_expired_outbox_leases :
    RecoverRequest → Table → Result OutboxError (Table × ℕ × ℕ)
recover_expired_outbox_leases q t = do
  batch ← or_raise (in_range 1 1000 q.batch_size) value_error
  delay ← or_raise (in_range 0 86400 q.retry_delay_seconds) value_error
  raise_if (is_empty q.job_types) value_error
  ok (
      recover_rows delay q.now
        (select_rows (is_expired q.tenant_id q.job_types q.now) expiry q.locked batch t) t)
