-- ===== src/Lib.antt =====
-- ScaleVault's memory node, services/memory-node/src/kivra_memory: the event-sourced core, the outbox,
-- the selection policy and the eligibility of memories for a reader. Paths below are from there.
--
-- A node keeps its memories as a stream of events. An event carries a payload, its canonical JSON
-- bytes and two digests; the fold verifies an event and applies it to the projection, which holds
-- the memories, their evidence, links, conflicts and branches. The policy decides which nominated
-- memories become events, the eligibility which memories of a projection a reader sees, and the outbox
-- hands the side effects of committed events to workers.
--
-- The files, and the code that each models:
--   Prelude: Boolean tests, equality as an interface (Eq), lists, the dict (Dict: insertion order,
--     with the laws of get, put, remove and discard), results and check lists (Outcome), integers.
--   Domain/Identifiers: domain/identifiers.py. A UUID is its 128-bit number; `new_uuid7` takes the
--     clock and the random bits as arguments.
--   Domain/Enums, Domain/Operations: the vocabularies of domain/enums.py.
--   Domain/Constraints (Matrix, Rules, Exact): domain/constraints.py, `validate_memory_constraints`;
--     Rules says what is admitted without the order of the checks.
--   Domain/CanonicalJson (Idempotent): domain/canonical_json.py, `normalize_json_value` and
--     `canonical_json_bytes`. The depth argument counts down from the source's maximum of 64, which
--     is the source's own bound; recursion is on the value, so no fuel is needed.
--   Events/States, Events/Shape, Events/Payloads, Events/Envelope, Events/Hashes: domain/events.py,
--     the after-images, their validators, the payload classes with `PAYLOAD_MODELS`, `MemoryEvent`,
--     `typed_payload`, `verify_hashes` and `event_hash_fields`.
--   Fold/State, Checks, Memories, Links, Conflicts, Visibility, Operations, Step: domain/folding.py.
--     `fold_step` is `_fold_event`, `apply_operation` its match, with a function `apply_...` for each
--     arm; a helper such as `_replace_memory` is the function `replace_memory`, which returns the
--     dict that the source mutates. `rebuild` folds a list from the empty projection.
--   Fold/Tenant: the replay of one tenant's events (`TenantReplayState`, `fold_tenant_event`,
--     `rebuild_tenant`).
--   Fold/Change, Fold/Frame, Fold/Ceiling, Fold/Laws: the proofs about the fold. Change
--     says what one event does to a memory; Frame, with Prelude/Returns, what the arms leave alone; Ceiling
--     follows visibility; Laws holds the theorems about events and streams.
--   Outbox/Job: the table outbox_jobs of storage/models/operations.py, a dict by primary key, with the
--     database's constraints as `row_checks` and `same_job`.
--   Outbox/References, Enqueue: storage/outbox.py. `digest_input` is what `outbox_deduplication_key`
--     hashes; `insert_row` is the flush, with the constraints of the database.
--   Outbox/Select, Claim, Lease: storage/outbox_worker.py. `select_rows` is a SELECT with ORDER BY,
--     LIMIT and SKIP LOCKED, where an argument says which rows are locked; `row_where` is a WHERE that
--     fixes the primary key. The loops over the selected rows are `lease_rows` and `recover_rows`.
--   Outbox/History: the operations as commands, and the table behind a list of them; what raises
--     leaves the table alone, as the caller's transaction rolls back.
--   Outbox/Rows, Selections, Distinct, Advance, Invariant, Persistence, Batch, Attempts, Guards,
--     Progress, Framing, Deduplication: the proofs. `⟶` in Rows is the life of one job; Advance shows that each operation moves
--     rows along it; the others follow from that.
--   Policy/Vocabulary, Contracts, Profile: policy/contracts.py with its validators, and
--     policy/profiles/selection-v1.json.
--   Policy/Evaluator, Lifecycle: policy/evaluator.py and policy/lifecycle.py. `verdict` is
--     `evaluate_selection` up to the building of the decision; a `return _reject(...)` stops it.
--   Policy/Rules, Total, Kept, Observed, Promotion, Signals: the proofs about them.
--   Retrieval/Contracts, Eligibility, Authority: the queries of retrieval/contracts.py,
--     retrieval/eligibility.py, and what it asks for. `rejections` lists its tests in order.
--   Tests: a platform at which all definitions run, a stream of four events, a job of the
--     outbox, a decision of the policy, a read, and the theorems there.
--
-- An exception is a value: `Result` with the exception's kind, `FoldError` with its code and
-- sequence. A run of `if ...: raise` is a list of tests with their errors, in the source's order; the
-- first test that holds raises. `AssertionError` and `KeyError` are errors of their own, so that
-- nothing is assumed of the asserts. All loops are structural recursion over the source's lists.
--
-- Parameters: the record `Platform` stands for what the code calls of other packages (pydantic's
-- parser and dump, the rfc8785 serializer, base64, `str.isspace`, SHA-256, and the texts of UUIDs, dates and
-- decimals). Parsing returns an instance of the class that was asked for; the field types and the
-- validators of the classes are modelled. Named hypotheses are `IsTextual` (those texts have no
-- surrogate), `DecodesBase64` (base64 decodes what it encoded) and `EncodesApart` (UTF-8 gives different
-- texts different bytes). That the digest of a loaded policy is 64 hexadecimal digits, as `hexdigest`
-- returns them, is a hypothesis too (`is_sha256_hex`).
--
-- Runtime stands for the outbox's calls: the texts of UUIDs and integers, UTF-8 and SHA-256. Sets are
-- lists of their members; what the code sorts is in its order.
--
-- Times are numbers, since the code only compares them or adds seconds; the range of a datetime is not
-- modelled. Integers that a caller supplies and the code checks against a range are signed. Values of
-- the canonical JSON are trees, so its test for cyclic containers has no counterpart.
--
-- Not modelled: `canonical_aggregate_bytes`,
-- `parse_json_strict`, the text validators of the policy's models, the foreign keys and the column
-- widths of outbox_jobs, ranking and context packs, and the parts of the node around these
-- (application, the rest of storage, archive, ingress, security, workers, api), most of which are
-- database, file and network access.
pub mod Prelude
pub mod Domain
pub mod Events
pub mod Fold
pub mod Outbox
pub mod Policy
pub mod Retrieval
pub mod Tests
