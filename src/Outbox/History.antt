-- ===== src/Outbox/History.antt =====
-- The operations of storage/outbox.py and storage/outbox_worker.py as commands on the table. What
-- raises leaves the table alone: the caller's transaction rolls back.
use scalevault.Prelude.{ℕ, Bool, List, [], ◌∷◌, Text, ℤ, Result, ok, err, ◌>>=◌}
use scalevault.Prelude.Dict.{empty}
use scalevault.Domain.Identifiers.{Uuid}
use scalevault.Outbox.Job.{Table, OutboxError}
use scalevault.Outbox.References.{Runtime}
use scalevault.Outbox.Enqueue.{SideEffect, EnqueueOptions, enqueue_outbox_job}
use scalevault.Outbox.Claim.{ClaimRequest, ClaimedOutboxJob, claim_outbox_jobs}
use scalevault.Outbox.Lease.{
  heartbeat_outbox_job, acknowledge_outbox_job, fail_outbox_job, RecoverRequest,
  recover_expired_outbox_leases,
}

pub data Command : Type 0 where
  enqueue : SideEffect → EnqueueOptions → Uuid → ℕ → ℕ → Command
  claim : ClaimRequest → Command
  heartbeat : Uuid → ℕ → Text → ℤ → ℕ → Command
  acknowledge : Uuid → ℕ → Text → ℕ → Command
  fail : Uuid → ℕ → Text → Text → Bool → ℤ → ℕ → Command
  recover : RecoverRequest → Command

-- A command's table and, of a claim, the jobs that it hands out.
unfoldable pub run : Runtime → Command → Table → Result OutboxError (Table × List ClaimedOutboxJob)
run p (enqueue e o new_uuid next_id clock) t = do
  after ← enqueue_outbox_job p e o new_uuid next_id clock t
  ok (after, [])
run p (claim q) t = claim_outbox_jobs q t
run p (heartbeat tenant_id job_id token lease_seconds now) t = do
  after ← heartbeat_outbox_job tenant_id job_id token lease_seconds now t
  ok (after, [])
run p (acknowledge tenant_id job_id token now) t = do
  after ← acknowledge_outbox_job tenant_id job_id token now t
  ok (after, [])
run p (fail tenant_id job_id token error_code retryable delay now) t = do
  (after, state) ← fail_outbox_job tenant_id job_id token error_code retryable delay now t
  ok (after, [])
run p (recover q) t = do (after, pending, dead) ← recover_expired_outbox_leases q t; ok (after, [])

abbrev pub committed_table : Table → Result OutboxError (Table × List ClaimedOutboxJob) → Table
committed_table t (ok (after, jobs)) = after
committed_table t (err e) = t

-- The table behind a command, and behind commands in turn.
unfoldable pub perform : Runtime → Command → Table → Table
perform p c t = committed_table t (run p c t)

unfoldable pub history_from : Runtime → List Command → Table → Table
history_from p [] t = t
history_from p (c ∷ cs) t = history_from p cs (perform p c t)

unfoldable pub history : Runtime → List Command → Table
history p cs = history_from p cs empty
