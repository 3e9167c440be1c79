-- ===== src/Outbox/Enqueue.antt =====
-- storage/outbox.py: the key under which a logical side effect is queued once, and the insertion.
use scalevault.Prelude.{
  ℕ, ◌/◌, ◌%◌, ◌^◌, Bool, not, ◌&&◌, ◌||◌, Option, none, some, List, [], ◌∷◌, ◌++◌, Text, codes, ℤ,
  pos, negsuc, Result, ok, ◌>>=◌, ◌>>◌, raise_if, raise_first, or_raise, leb, ltb, any, is_empty,
  is_some, if◌then◌else◌, length, zero, suc, ◌==◌, list_Eq, nat_Eq,
}
use scalevault.Prelude.Dict.{Dict, get, put, values}
use scalevault.Domain.Identifiers.{Uuid}
use scalevault.Domain.CanonicalJson.{Bytes, JsonValue}
use scalevault.Outbox.Job.{
  OutboxJob, JobState, Table, row_checks, OutboxError, value_error, integrity_error, encode_error,
  overflow_error,
}
use scalevault.Outbox.References.{
  Runtime, References, reference_bytes, sorted_references, validate_outbox_references,
}

-- `n.to_bytes(width, "big")`, for a number that fits.
unfoldable pub big_endian : ℕ → ℕ → Bytes
big_endian zero n = []
big_endian (suc width) n = big_endian width (n / 256) ++ n % 256 ∷ []

unfoldable pub to_bytes : ℕ → ℕ → Result OutboxError Bytes
to_bytes width n = do raise_if (not (ltb n (256 ^ width))) overflow_error; ok (big_endian width n)

-- What one field adds to the digest: the lengths of its name and of its value before each.
unfoldable pub framed_field : Bytes → Bytes → Result OutboxError Bytes
framed_field key value = do
  key_length ← to_bytes 2 (length key)
  value_length ← to_bytes 4 (length value)
  ok (key_length ++ key ++ value_length ++ value)

-- All that goes into the digest, in order.
unfoldable pub framed : List (Bytes × Bytes) → Result OutboxError Bytes
framed [] = ok []
framed ((key, value) ∷ fields) = do
  field ← framed_field key value
  rest ← framed fields
  ok (field ++ rest)

unfoldable pub aggregate_bytes : Option Uuid → Bytes
aggregate_bytes none = []
aggregate_bytes (some u) = big_endian 16 u

unfoldable pub reference_fields : Runtime → References → Result OutboxError (List (Bytes × Bytes))
reference_fields p [] = ok []
reference_fields p ((key, value) ∷ rest) = do
  bytes ← reference_bytes p key value
  fields ← reference_fields p rest
  ok ((key, bytes) ∷ fields)

-- A logical side effect: the arguments of `outbox_deduplication_key`.
pub record SideEffect : Type 0 where
  pub tenant_id : Uuid
  pub job_type : Text
  pub aggregate_type : Text
  pub aggregate_id : Option Uuid
  pub references : References

-- The fields of the digest. The reference names are ASCII by then, so they are their own bytes.
unfoldable pub digest_fields : Runtime → SideEffect → Result OutboxError (List (Bytes × Bytes))
digest_fields p e = do
  raise_if (is_empty e.job_type || is_empty e.aggregate_type) value_error
  payload ← validate_outbox_references p e.references
  job_type ← or_raise (p.utf8 e.job_type) encode_error
  aggregate_type ← or_raise (p.utf8 e.aggregate_type) encode_error
  references ← reference_fields p (sorted_references e.references)
  ok (
      (codes "tenant_id", big_endian 16 e.tenant_id)
      ∷ (codes "job_type", job_type)
      ∷ (codes "aggregate_type", aggregate_type)
      ∷ (codes "aggregate_id", aggregate_bytes e.aggregate_id)
      ∷ references)

-- What is hashed.
unfoldable pub digest_input : Runtime → SideEffect → Result OutboxError Bytes
digest_input p e = do fields ← digest_fields p e; framed fields

unfoldable pub outbox_deduplication_key : Runtime → SideEffect → Result OutboxError Text
outbox_deduplication_key p e = do input ← digest_input p e; ok (codes "v1:" ++ p.sha256_hex input)

-- The other arguments of `enqueue_outbox_job`.
pub record EnqueueOptions : Type 0 where
  pub priority : ℤ
  pub max_attempts : ℤ
  pub available_at : Option ℕ
  pub job_uuid : Option Uuid

-- `-(2**15) <= priority < 2**15`
unfoldable pub is_int16 : ℤ → Bool
is_int16 (pos n) = ltb n (2 ^ 15)
is_int16 (negsuc n) = ltb n (2 ^ 15)

-- `low <= z <= high`, and then its value.
unfoldable pub in_range : ℕ → ℕ → ℤ → Option ℕ
in_range low high (pos n) = if leb low n && leb n high then some n else none
in_range low high (negsuc n) = none

abbrev pub get_or {ℓ} : {A : Type ℓ} → Option A → A → A
get_or none d = d
get_or (some a) d = a

-- "tenant_job_uuid" and "tenant_job_deduplication"
unfoldable pub same_job : OutboxJob → OutboxJob → Bool
same_job a b =
    a.tenant_id == b.tenant_id
    && (a.job_uuid == b.job_uuid
        || a.job_type == b.job_type && a.deduplication_key == b.deduplication_key)

-- The insertion by `flush`, with the checks of the database.
unfoldable pub insert_row : OutboxJob → Table → Result OutboxError Table
insert_row row t = do
  raise_first (
      (not (row_checks row), integrity_error)
      ∷ (is_some (get row.job_id t), integrity_error)
      ∷ (any (same_job row) (values t), integrity_error)
      ∷ [])
  ok (put row.job_id row t)

-- The row of a new job. The last two arguments are the database's next key and its clock, which
-- fills the columns that are left out.
abbrev pub new_job :
    SideEffect → ℤ → ℕ → Dict Text JsonValue → Text → Uuid → Option ℕ → ℕ → ℕ → OutboxJob
new_job e priority max_attempts payload key job_uuid available_at next_id clock = record {
  job_id = next_id;
  job_uuid = job_uuid;
  tenant_id = e.tenant_id;
  job_type = e.job_type;
  deduplication_key = key;
  aggregate_type = e.aggregate_type;
  aggregate_id = e.aggregate_id;
  payload = payload;
  state = JobState.pending;
  priority = priority;
  available_at = get_or available_at clock;
  lease_owner = none;
  lease_expires_at = none;
  attempt_count = 0;
  max_attempts = max_attempts;
  last_error_code = none;
  last_error_summary = none;
  created_at = clock;
  updated_at = clock;
  completed_at = none;
}

-- `enqueue_outbox_job`. The fourth argument is what `new_uuid7` returns.
unfoldable pub enqueue_outbox_job :
    Runtime → SideEffect → EnqueueOptions → Uuid → ℕ → ℕ → Table → Result OutboxError Table
enqueue_outbox_job p e o new_uuid next_id clock t = do
  raise_if (not (is_int16 o.priority)) value_error
  attempts ← or_raise (in_range 1 100 o.max_attempts) value_error
  payload ← validate_outbox_references p e.references
  key ← outbox_deduplication_key p e
  insert_row
      (new_job e o.priority attempts payload key (get_or o.job_uuid new_uuid) o.available_at next_id
        clock)
      t
