-- ===== src/Outbox/Rows.antt =====
-- What the operations on storage/models/operations.py's OutboxJob do to one row.
use mathlib.Core.Path.{subst}
use scalevault.Prelude.{ℕ, ◌≡◌, ◌≢◌, ◌<◌, ◌≤◌, ◌⊎◌, Bool, true, false, some, Text, arith, sym, ◌∙◌}
use scalevault.Outbox.Job.{
  OutboxJob, JobState, job_state_Eq, attempts_bounded, lease_state, completion_state,
  identity_checks, row_checks,
}
use scalevault.Outbox.Claim.{lease_row}
use scalevault.Outbox.Lease.{succeed_row, release_row}

-- The life of a job.
infix 40 ◌⟶◌
pub data ◌⟶◌ : OutboxJob → OutboxJob → Type 0 where
  stay : {r : OutboxJob} → r ⟶ r
  lease :
      {r : OutboxJob} (token : Text) (expires_at now : ℕ)
      → r.state ≡ JobState.pending
      → r.attempt_count < r.max_attempts
      → r ⟶ lease_row token expires_at now r
  extend :
      {r : OutboxJob} (expires_at now : ℕ)
      → r.state ≡ JobState.leased
      → r ⟶ record r { lease_expires_at = some expires_at; updated_at = now }
  succeed : {r : OutboxJob} (now : ℕ) → r.state ≡ JobState.leased → r ⟶ succeed_row now r
  release :
      {r : OutboxJob} (terminal : Bool) (error_code summary : Text) (delay now : ℕ)
      → r.state ≡ JobState.leased
      → (terminal ≡ false → r.attempt_count < r.max_attempts)
      → r ⟶ release_row terminal error_code summary delay now r

-- What holds of every row: the database's constraints, and that no waiting job is out of attempts.
pub record Sound (r : OutboxJob) : Type 0 where
  pub checked : row_checks r ≡ true
  pub has_attempts : r.state ≡ JobState.pending → r.attempt_count < r.max_attempts
  pub not_failed : r.state ≢ JobState.failed

pub ⟶-Sound : {r q : OutboxJob} → r ⟶ q → Sound r → Sound q
unfolding row_checks attempts_bounded lease_state completion_state identity_checks succeed_row
    release_row
⟶-Sound stay s = s
⟶-Sound (lease token at now p a) s = ground (arith, s.checked)
⟶-Sound (extend at now p) s = ground (arith, s.checked)
⟶-Sound (succeed now p) s = ground (arith, s.checked)
⟶-Sound (release b code text delay now p a) s = ground (arith, s.checked)

abbrev pub IsEnded : OutboxJob → Type 0
IsEnded r = (r.state ≡ JobState.succeeded) ⊎ (r.state ≡ JobState.dead)

-- A row behind another: the same job, with no attempt given back, and unchanged once it ended.
pub record Persists (r q : OutboxJob) : Type 0 where
  pub job : q.job_id ≡ r.job_id
  pub uuid : q.job_uuid ≡ r.job_uuid
  pub tenant : q.tenant_id ≡ r.tenant_id
  pub type : q.job_type ≡ r.job_type
  pub key : q.deduplication_key ≡ r.deduplication_key
  pub work : q.payload ≡ r.payload
  pub allowance : q.max_attempts ≡ r.max_attempts
  pub attempts : r.attempt_count ≤ q.attempt_count
  pub ended : IsEnded r → q ≡ r

pub ⟶-Persists : {r q : OutboxJob} → r ⟶ q → Persists r q
unfolding succeed_row release_row
⟶-Persists stay = ground arith
⟶-Persists (lease token at now p a) = ground arith
⟶-Persists (extend at now p) = ground arith
⟶-Persists (succeed now p) = ground arith
⟶-Persists (release b code text delay now p a) = ground arith

pub Persists-trans : {a b c : OutboxJob} → Persists a b → Persists b c → Persists a c
Persists-trans p q = record {
  job = q.job ∙ p.job;
  uuid = q.uuid ∙ p.uuid;
  tenant = q.tenant ∙ p.tenant;
  type = q.type ∙ p.type;
  key = q.key ∙ p.key;
  work = q.work ∙ p.work;
  allowance = q.allowance ∙ p.allowance;
  attempts = omega (arith, p.attempts, q.attempts);
  ended = λ e. q.ended (subst IsEnded (sym (p.ended e)) e) ∙ p.ended e;
}
