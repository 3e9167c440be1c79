-- ===== src/Outbox/Claim.antt =====
-- storage/outbox_worker.py: claiming jobs under a lease.
-- `now` is the source's `now or _utc_now()`.
use scalevault.Prelude.{
  ℕ, suc, ◌+◌, Bool, false, not, ◌&&◌, ◌||◌, Option, some, List, [], ◌∷◌, ◌++◌, Text, codes, ℤ,
  Result, ok, ◌>>=◌, ◌>>◌, raise_if, or_raise, leb, ltb, all, elem, is_empty, length, all_unique,
  ◌==◌, list_Eq, nat_Eq, option_Eq,
}
use scalevault.Prelude.Dict.{put}
use scalevault.Domain.Identifiers.{Uuid}
use scalevault.Domain.CanonicalJson.{JsonValue}
use scalevault.Prelude.Dict.{Dict}
use scalevault.Outbox.Job.{
  OutboxJob, JobState, job_state_Eq, Table, OutboxError, value_error, active_transaction_required,
  seconds,
}
use scalevault.Outbox.Enqueue.{in_range}
use scalevault.Outbox.Select.{select_rows}

abbrev is_alphanumeric : ℕ → Bool
is_alphanumeric c = leb 48 c && leb c 57 || leb 65 c && leb c 90 || leb 97 c && leb c 122

-- A full match of `_OWNER_PATTERN`: `[A-Za-z0-9][A-Za-z0-9_.:-]{0,74}`.
unfoldable pub is_owner : Text → Bool
is_owner [] = false
is_owner (c ∷ rest) =
    is_alphanumeric c
    && leb (length rest) 74
    && all (λ d. is_alphanumeric d || elem d (codes "_.:-")) rest

pub record ClaimedOutboxJob : Type 0 where
  pub job_id : ℕ
  pub job_uuid : Uuid
  pub tenant_id : Uuid
  pub job_type : Text
  pub aggregate_type : Text
  pub aggregate_id : Option Uuid
  pub payload : Dict Text JsonValue
  pub attempt_count : ℕ
  pub max_attempts : ℕ
  pub lease_token : Text

-- `_validate_timing`, with the two numbers that it admits.
unfoldable pub validate_timing : ℤ → ℤ → Result OutboxError (ℕ × ℕ)
validate_timing batch_size lease_seconds = do
  batch ← or_raise (in_range 1 100 batch_size) value_error
  lease ← or_raise (in_range 5 3600 lease_seconds) value_error
  ok (batch, lease)

-- The rows that a claim may take.
unfoldable pub is_claimable : Uuid → List Text → ℕ → OutboxJob → Bool
is_claimable tenant_id job_types now r =
    r.tenant_id == tenant_id
    && r.state == JobState.pending
    && leb r.available_at now
    && ltb r.attempt_count r.max_attempts
    && elem r.job_type job_types

-- The changes of a claimed row.
abbrev pub lease_row : Text → ℕ → ℕ → OutboxJob → OutboxJob
lease_row token expires_at claimed_at r = record r {
  state = JobState.leased;
  lease_owner = some token;
  lease_expires_at = some expires_at;
  attempt_count = r.attempt_count + 1;
  updated_at = claimed_at;
}

abbrev pub claimed_job : Text → OutboxJob → ClaimedOutboxJob
claimed_job token r = record {
  job_id = r.job_id;
  job_uuid = r.job_uuid;
  tenant_id = r.tenant_id;
  job_type = r.job_type;
  aggregate_type = r.aggregate_type;
  aggregate_id = r.aggregate_id;
  payload = r.payload;
  attempt_count = r.attempt_count;
  max_attempts = r.max_attempts;
  lease_token = token;
}

-- `f"{worker_owner}:{new_uuid7()}"` for each claimed row, by its place in the batch.
unfoldable pub lease_token : Text → (Uuid → Text) → (ℕ → Uuid) → ℕ → Text
lease_token owner uuid_text new_uuids i = owner ++ codes ":" ++ uuid_text (new_uuids i)

-- The loop of the claim, from the i-th row on.
unfoldable pub lease_rows :
    (ℕ → Text) → ℕ → ℕ → ℕ → List OutboxJob → Table → Table × List ClaimedOutboxJob
lease_rows token expires_at now i [] t = (t, [])
lease_rows token expires_at now i (r ∷ rows) t =
    let row = lease_row (token i) expires_at now r in
    let (after, claimed) = lease_rows token expires_at now (suc i) rows (put r.job_id row t) in
    (after, claimed_job (token i) row ∷ claimed)

-- What a claim's caller and environment supply; `new_uuids` are the results of `new_uuid7`, and
-- `locked` says which rows another transaction holds.
pub record ClaimRequest : Type 0 where
  pub in_transaction : Bool
  pub tenant_id : Uuid
  pub worker_owner : Text
  pub job_types : List Text
  pub batch_size : ℤ
  pub lease_seconds : ℤ
  pub now : ℕ
  pub uuid_text : Uuid → Text
  pub new_uuids : ℕ → Uuid
  pub locked : ℕ → Bool

unfoldable pub claim_outbox_jobs :
    ClaimRequest → Table → Result OutboxError (Table × List ClaimedOutboxJob)
claim_outbox_jobs q t = do
  raise_if (not q.in_transaction) active_transaction_required
  raise_if (not (is_owner q.worker_owner)) value_error
  (batch, lease) ← validate_timing q.batch_size q.lease_seconds
  raise_if (is_empty q.job_types || not (all_unique q.job_types)) value_error
  ok (
      lease_rows (lease_token q.worker_owner q.uuid_text q.new_uuids) (q.now + seconds lease) q.now
        0
        (select_rows (is_claimable q.tenant_id q.job_types q.now) (λ r. r.available_at) q.locked
          batch t)
        t)
