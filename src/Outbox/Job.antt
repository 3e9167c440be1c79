-- ===== src/Outbox/Job.antt =====
-- storage/models/operations.py: the table outbox_jobs, with the constraints that the database checks.
-- The table is a dict by primary key. An instant is its number of microseconds.
use scalevault.Prelude.{
  ℕ, ◌*◌, Bool, not, ◌&&◌, ◌||◌, Option, List, [], ◌∷◌, Eq, tag_Eq, ◌==◌, leb, length, elem,
  is_some, is_none, Text, codes, ℤ, ◌≡◌, arith, list_Eq, nat_Eq,
}
use scalevault.Prelude.Dict.{Dict}
use scalevault.Domain.Identifiers.{Uuid, is_uuid7}
use scalevault.Domain.CanonicalJson.{JsonValue}

pub data JobState : Type 0 where
  pending leased succeeded failed dead : JobState

abbrev pub job_state_tag : JobState → ℕ
job_state_tag JobState.pending = 0
job_state_tag JobState.leased = 1
job_state_tag JobState.succeeded = 2
job_state_tag JobState.failed = 3
job_state_tag JobState.dead = 4

pub job_state_apart : (a b : JobState) → job_state_tag a ≡ job_state_tag b → a ≡ b
job_state_apart a b h = ground arith

instance abbrev pub job_state_Eq : Eq JobState
job_state_Eq = tag_Eq job_state_tag job_state_apart

pub record OutboxJob : Type 0 where
  pub job_id : ℕ
  pub job_uuid : Uuid
  pub tenant_id : Uuid
  pub job_type : Text
  pub deduplication_key : Text
  pub aggregate_type : Text
  pub aggregate_id : Option Uuid
  pub payload : Dict Text JsonValue
  pub state : JobState
  pub priority : ℤ
  pub available_at : ℕ
  pub lease_owner : Option Text
  pub lease_expires_at : Option ℕ
  pub attempt_count : ℕ
  pub max_attempts : ℕ
  pub last_error_code : Option Text
  pub last_error_summary : Option Text
  pub created_at : ℕ
  pub updated_at : ℕ
  pub completed_at : Option ℕ

abbrev pub Table : Type 0
Table = Dict ℕ OutboxJob

abbrev pub job_type_values : List Text
job_type_values =
    codes "embed_memory"
    ∷ codes "check_duplicates"
    ∷ codes "rebuild_projection"
    ∷ codes "propose_consolidation"
    ∷ codes "export_git_batch"
    ∷ codes "expire_candidate"
    ∷ codes "purge_payload"
    ∷ codes "ingest_github_proposal"
    ∷ codes "refresh_ingress_status"
    ∷ codes "notify_relay_health"
    ∷ []

-- "attempts_range" and "attempts_bounded"
unfoldable pub attempts_bounded : OutboxJob → Bool
attempts_bounded r =
    leb 1 r.max_attempts && leb r.max_attempts 100 && leb r.attempt_count r.max_attempts

-- "lease_state": leased exactly with an owner and an expiry.
unfoldable pub lease_state : OutboxJob → Bool
lease_state r =
    r.state == JobState.leased && is_some r.lease_owner && is_some r.lease_expires_at
    || not (r.state == JobState.leased) && is_none r.lease_owner && is_none r.lease_expires_at

-- "completion_state": only an ended job has an instant of completion.
unfoldable pub completion_state : OutboxJob → Bool
completion_state r =
    is_none r.completed_at || r.state == JobState.succeeded || r.state == JobState.dead

-- "job_type_values", "deduplication_key_length" and "job_uuid_uuid_v7"
unfoldable pub identity_checks : OutboxJob → Bool
identity_checks r =
    elem r.job_type job_type_values
    && leb 1 (length r.deduplication_key)
    && leb (length r.deduplication_key) 255
    && is_uuid7 r.job_uuid

-- The row constraints together.
unfoldable pub row_checks : OutboxJob → Bool
row_checks r = identity_checks r && attempts_bounded r && lease_state r && completion_state r

-- What the functions raise; `integrity_error` is the database's.
pub data OutboxError : Type 0 where
  active_transaction_required outbox_lease_lost value_error type_error : OutboxError
  encode_error overflow_error integrity_error : OutboxError

abbrev pub seconds : ℕ → ℕ
seconds n = n * 1000000
