-- ===== src/Tests/OutboxRuns.antt =====
-- A job of the outbox that is queued, claimed, lost by its worker, recovered, and claimed again.
use scalevault.Prelude.{
  ℕ, ◌≡◌, ◌+◌, ◌%◌, ◌≤◌, refl, true, false, none, some, List, [], ◌∷◌, is_empty, codes, ℤ, ok, err,
  raise_if, or_raise, raise_first, nat_Eq, list_Eq, arith, ◌<◌, ◌↔◌, ◌∙◌, sym, is_some, ◌&&◌,
  if◌then◌else◌,
}
use scalevault.Prelude.Dict.{get, put, empty, keys, values}
use scalevault.Domain.Identifiers.{is_uuid7}
use scalevault.Outbox.Job.{
  OutboxJob, JobState, Table, outbox_lease_lost, value_error, row_checks, identity_checks,
  attempts_bounded, lease_state, completion_state,
}
use scalevault.Outbox.References.{
  Runtime, OutboxReferenceValue, validate_outbox_references, sorted_references, reference_bytes,
  json_reference, names_reference, ends_with, text_before,
}
use scalevault.Outbox.Enqueue.{
  SideEffect, EnqueueOptions, new_job, enqueue_outbox_job, insert_row, is_int16, in_range,
  outbox_deduplication_key, digest_input, digest_fields, framed, framed_field, to_bytes, big_endian,
  same_job, reference_fields, aggregate_bytes,
}
use scalevault.Outbox.Claim.{
  ClaimRequest, ClaimedOutboxJob, claim_outbox_jobs, is_owner, lease_row, validate_timing,
  is_claimable, lease_rows, lease_token,
}
use scalevault.Outbox.Select.{select_rows, selected, ordered, insert_ordered, limit}
use scalevault.Outbox.Guards.{HasLease, Succeeded, acknowledge-exact, without_lease}
use scalevault.Outbox.Lease.{
  RecoverRequest, recover_expired_outbox_leases, acknowledge_outbox_job, heartbeat_outbox_job,
  fail_outbox_job, succeed_row, safe_error_summary,
}
use scalevault.Outbox.History.{
  Command, enqueue, claim, acknowledge, recover, history, history_from, perform, run,
}
use scalevault.Domain.CanonicalJson.{Bytes, json_integer}
use scalevault.Outbox.Deduplication.{EncodesApart, IsWide, digest_input-injective}
use scalevault.Prelude.Returns.{Returns}
use scalevault.Outbox.Rows.{Persists}
use scalevault.Outbox.Invariant.{some-injective, WellFormed, history-WellFormed}
use scalevault.Outbox.Persistence.{history_from-Persists}
use scalevault.Outbox.Attempts.{times_handed_out, times_handed_out-bounded}
use scalevault.Outbox.Batch.{HandsOut, Claimable, claim-HandsOut}
use scalevault.Outbox.Progress.{IsValid, claim-takes, CanRecover, Expired, recover-releases}
use scalevault.Tests.Samples.{id, tenant, memory}

abbrev pub runtime : Runtime
runtime = record {
  uuid_text = λ u. (b'0' + u % 10) ∷ [];
  int_text = λ n. n ∷ [];
  utf8 = λ t. some t;
  sha256_hex = λ b. codes "00";
}

abbrev effect : SideEffect
effect = record {
  tenant_id = tenant;
  job_type = codes "embed_memory";
  aggregate_type = codes "memory";
  aggregate_id = some memory;
  references =
      (codes "memory_id", OutboxReferenceValue.uuid memory)
      ∷ (codes "event_sequence", OutboxReferenceValue.integer (ℤ.pos 3))
      ∷ [];
}

abbrev options : EnqueueOptions
options = record {
  priority = ℤ.pos 0;
  max_attempts = ℤ.pos 2;
  available_at = none;
  job_uuid = none;
}

abbrev request : ℕ → ClaimRequest
request now = record {
  in_transaction = true;
  tenant_id = tenant;
  worker_owner = codes "worker-1";
  job_types = codes "embed_memory" ∷ [];
  batch_size = ℤ.pos 8;
  lease_seconds = ℤ.pos 120;
  now = now;
  uuid_text = runtime.uuid_text;
  new_uuids = λ i. id (now + i);
  locked = λ k. false;
}

abbrev recovery : RecoverRequest
recovery = record {
  tenant_id = tenant;
  job_types = codes "embed_memory" ∷ [];
  batch_size = ℤ.pos 100;
  retry_delay_seconds = ℤ.pos 0;
  now = 200000000;
  locked = λ k. false;
}

abbrev enqueuing : Command
enqueuing = enqueue effect options (id 9) 7 5

abbrev enqueued : Table
enqueued = history runtime (enqueuing ∷ [])

abbrev job : OutboxJob
job =
    new_job effect (ℤ.pos 0) 2
      (put (codes "memory_id") (json_reference runtime (OutboxReferenceValue.uuid memory))
        (put (codes "event_sequence") (json_integer (ℤ.pos 3)) empty))
      (codes "v1:00") (id 9) none 7 5

run_enqueue : get 7 enqueued ≡ some job
unfolding history history_from perform run enqueue_outbox_job insert_row is_int16 in_range
    validate_outbox_references sorted_references outbox_deduplication_key digest_input digest_fields
    framed framed_field to_bytes reference_fields reference_bytes aggregate_bytes is_uuid7 raise_if
    or_raise raise_first get put keys values empty names_reference ends_with big_endian row_checks
    identity_checks attempts_bounded lease_state completion_state text_before same_job
run_enqueue = refl

enqueued-WellFormed : WellFormed enqueued
enqueued-WellFormed = history-WellFormed runtime (enqueuing ∷ [])

-- The worker claims the job, its lease expires, the job is recovered, and the worker comes too late.
abbrev later : List Command
later =
    claim (request 1000)
    ∷ recover recovery
    ∷ acknowledge tenant 7 (codes "worker-1:0") 200000001
    ∷ claim (request 300000000)
    ∷ []

history-WellFormed_example : WellFormed (history runtime (enqueuing ∷ later))
history-WellFormed_example = history-WellFormed runtime (enqueuing ∷ later)

history_from-Persists_example :
    (q : OutboxJob) × (get 7 (history_from runtime later enqueued) ≡ some q) × Persists job q
history_from-Persists_example =
    history_from-Persists runtime later enqueued 7 job enqueued-WellFormed run_enqueue

times_handed_out-bounded_example :
    times_handed_out runtime 7 later enqueued + job.attempt_count ≤ job.max_attempts
times_handed_out-bounded_example =
    times_handed_out-bounded runtime later enqueued 7 job enqueued-WellFormed run_enqueue

claim-HandsOut_example :
    Returns
      (λ a. HandsOut (request 1000) enqueued a.0 a.1)
      (claim_outbox_jobs (request 1000) enqueued)
claim-HandsOut_example = claim-HandsOut (request 1000) enqueued enqueued-WellFormed

request-IsValid : IsValid (request 1000)
unfolding is_owner in_range
request-IsValid = record {
  transaction = refl;
  owner = refl;
  batch = refl;
  lease = refl;
  types = refl;
  distinct = refl;
}

job-Claimable : Claimable (request 1000) job
job-Claimable = record {
  tenant = refl;
  waiting = refl;
  due = omega arith;
  attempts = omega arith;
  wanted = refl;
  free = refl;
}

claim-takes_example :
    (t : Table) × (jobs : List ClaimedOutboxJob) × (claim_outbox_jobs (request 1000) enqueued
      ≡ ok (t, jobs))
    × (is_empty jobs ≡ false)
claim-takes_example =
    claim-takes (request 1000) enqueued 7 job enqueued-WellFormed request-IsValid run_enqueue
      job-Claimable

abbrev claimed : Table
claimed = history runtime (enqueuing ∷ claim (request 1000) ∷ [])

abbrev leased_job : OutboxJob
leased_job = lease_row (codes "worker-1:0") 120001000 1000 job

run_claim : get 7 claimed ≡ some leased_job
unfolding history history_from perform run enqueue_outbox_job insert_row is_int16 in_range
    validate_outbox_references sorted_references outbox_deduplication_key digest_input digest_fields
    framed framed_field to_bytes reference_fields reference_bytes aggregate_bytes is_uuid7 raise_if
    or_raise raise_first get put keys values empty names_reference ends_with big_endian row_checks
    identity_checks attempts_bounded lease_state completion_state text_before same_job
    claim_outbox_jobs is_owner validate_timing select_rows selected ordered insert_ordered limit
    is_claimable lease_rows lease_token
run_claim = refl

recovery-CanRecover : CanRecover recovery
unfolding in_range
recovery-CanRecover = record { batch = refl; delay = refl; types = refl }

job-Expired : Expired recovery leased_job
job-Expired = record {
  tenant = refl;
  state = refl;
  ended = (120001000, refl, omega arith);
  wanted = refl;
  free = refl;
}

recover-releases_example :
    (t : Table) × (pending dead : ℕ) × (recover_expired_outbox_leases recovery claimed
      ≡ ok (t, pending, dead))
    × (0 < pending + dead)
recover-releases_example =
    recover-releases recovery claimed 7 leased_job
      (history-WellFormed runtime (enqueuing ∷ claim (request 1000) ∷ [])) recovery-CanRecover
      run_claim job-Expired

abbrev acknowledged : Table
acknowledged = put 7 (succeed_row 2000 leased_job) claimed

acknowledge-exact_example :
    (acknowledge_outbox_job tenant 7 (codes "worker-1:0") 2000 claimed ≡ ok acknowledged) ↔ (
      (r a : OutboxJob) × HasLease claimed tenant 7 (codes "worker-1:0") 2000 r
      × Succeeded 2000 r a
      × (acknowledged ≡ put 7 a claimed)
      × (acknowledge_outbox_job tenant 7 (codes "worker-2:0") 3000 acknowledged
          ≡ err outbox_lease_lost)
      × (heartbeat_outbox_job tenant 7 (codes "worker-2:0") (ℤ.pos 120) 3000 acknowledged
          ≡ err outbox_lease_lost))
acknowledge-exact_example =
    acknowledge-exact claimed tenant 7 (codes "worker-1:0") 2000 acknowledged (codes "worker-2:0")
      3000 120 (omega arith) (omega arith)

-- The job of the first table has no lease.
unclaimed : (r : OutboxJob) → ¬ HasLease enqueued tenant 7 (codes "worker-1:0") 2000 r
unclaimed r h = absurd (pending_not_leased (some-injective (sym run_enqueue ∙ h.row)) h.state)
  where
    pending_not_leased : job ≡ r → r.state ≡ JobState.leased → ⊥
    pending_not_leased e l = cc (e, l)

without_lease_example :
    (heartbeat_outbox_job tenant 7 (codes "worker-1:0") (ℤ.pos 120) 2000 enqueued
      ≡ err (if is_some (in_range 5 3600 (ℤ.pos 120)) then outbox_lease_lost else value_error))
    × (acknowledge_outbox_job tenant 7 (codes "worker-1:0") 2000 enqueued ≡ err outbox_lease_lost)
    × (fail_outbox_job tenant 7
          (codes "worker-1:0")
          (codes "internal_error")
          true
          (ℤ.pos 30)
          2000
          enqueued
        ≡ err (
            if is_some (safe_error_summary (codes "internal_error"))
              && is_some (in_range 0 86400 (ℤ.pos 30))
            then outbox_lease_lost
            else value_error))
without_lease_example =
    without_lease enqueued tenant 7 (codes "worker-1:0") 2000 (ℤ.pos 120) (ℤ.pos 30)
      (codes "internal_error") true unclaimed

-- The same side effect, its references named in the other order.
abbrev reordered : SideEffect
reordered = record effect {
  references =
      (codes "event_sequence", OutboxReferenceValue.integer (ℤ.pos 3))
      ∷ (codes "memory_id", OutboxReferenceValue.uuid memory)
      ∷ [];
}

run_reordered : digest_input runtime reordered ≡ digest_input runtime effect
unfolding digest_input digest_fields validate_outbox_references sorted_references reference_bytes
    reference_fields names_reference ends_with text_before
run_reordered = refl

run_digest : (b : Bytes) × (digest_input runtime effect ≡ ok b)
unfolding digest_input digest_fields validate_outbox_references sorted_references reference_bytes
    reference_fields names_reference ends_with text_before framed framed_field to_bytes raise_if
    or_raise big_endian aggregate_bytes
run_digest = (_, refl)

runtime-EncodesApart : EncodesApart runtime
runtime-EncodesApart = record { apart = λ a b c h i. cc (h, i) }

effect-IsWide : IsWide effect
effect-IsWide = record { tenant = omega arith; aggregate = λ u h. ground (arith, h) }

reordered-IsWide : IsWide reordered
reordered-IsWide = record { tenant = omega arith; aggregate = λ u h. ground (arith, h) }

digest_input-injective_example :
    (effect.tenant_id ≡ reordered.tenant_id)
    × (effect.job_type ≡ reordered.job_type)
    × (effect.aggregate_type ≡ reordered.aggregate_type)
    × (effect.aggregate_id ≡ reordered.aggregate_id)
    × (reference_fields runtime (sorted_references effect.references)
        ≡ reference_fields runtime (sorted_references reordered.references))
digest_input-injective_example =
    digest_input-injective runtime effect reordered run_digest.0 runtime-EncodesApart effect-IsWide
      reordered-IsWide run_digest.1 (run_reordered ∙ run_digest.1)
