-- ===== src/Outbox/Invariant.antt =====
-- What holds of the table outbox_jobs through all commands.
use mathlib.Core.Path.{subst}
use scalevault.Prelude.{
  ℕ, ◌≡◌, ◌<◌, ◌≢◌, ◌⊎◌, true, false, Option, none, some, List, [], ◌∷◌, Result, ok, err, ◌>>=◌,
  arith, inl, inr, Bool-cases, ==→eq, ==→ne, ◌==◌, nat_Eq, sym, ◌∙◌, ap, refl, any, Text,
  list_eq_iff,
}
use scalevault.Prelude.Dict.{
  Dict, get, put, get-put, get-empty, values, get-any, empty, keys, HasUniqueKeys,
  put-HasUniqueKeys,
}
use scalevault.Prelude.Returns.{
  Returns, Returns->>=, Returns->>, Returns-found, Returns-checks, Returns-then, Returns-weaken,
}
use scalevault.Domain.Identifiers.{Uuid}
use scalevault.Outbox.Job.{OutboxJob, Table, OutboxError, JobState, job_state_Eq}
use scalevault.Outbox.References.{Runtime}
use scalevault.Outbox.Enqueue.{
  SideEffect, new_job, EnqueueOptions, in_range, same_job, insert_row, enqueue_outbox_job,
}
use scalevault.Outbox.History.{
  Command, enqueue, claim, heartbeat, acknowledge, fail, recover, run, committed_table, perform,
  history_from, history,
}
use scalevault.Outbox.Rows.{◌⟶◌, Sound, ⟶-Sound, Persists, ⟶-Persists}
use scalevault.Outbox.Selections.{IsKeyed}
use scalevault.Outbox.Claim.{ClaimedOutboxJob}
use scalevault.Domain.CanonicalJson.{JsonValue}
use scalevault.Outbox.Advance.{
  Follows, Advances, Advances-refl, claim-Advanced, recover-Advanced, heartbeat-Advanced,
  acknowledge-Advanced, fail-Advanced,
}

pub some-injective : {a b : OutboxJob} → ◌≡◌ {A = Option OutboxJob} (some a) (some b) → a ≡ b
some-injective h = cc

-- Rows stand under their keys, each is sound, and no two are the same job.
pub record WellFormed (t : Table) : Type 0 where
  pub keyed : IsKeyed t
  pub sound : (k : ℕ) (r : OutboxJob) → get k t ≡ some r → Sound r
  pub unique :
      (j k : ℕ) (a b : OutboxJob)
      → get j t ≡ some a
      → get k t ≡ some b
      → same_job a b ≡ true
      → j ≡ k
  pub keys : HasUniqueKeys t

pub empty-WellFormed : WellFormed empty
unfolding keys empty
empty-WellFormed = record {
  keyed = λ k r h. cc (h, get-empty {V = OutboxJob} k);
  sound = λ k r h. cc (h, get-empty {V = OutboxJob} k);
  unique = λ j k a b h. cc (h, get-empty {V = OutboxJob} j);
  keys = refl;
}

came_from_option :
    {q : OutboxJob} (o p : Option OutboxJob)
    → Follows o p
    → p ≡ some q
    → (r : OutboxJob) × (o ≡ some r) × (r ⟶ q)
came_from_option none p n h = cc
came_from_option (some r) p (q, there, m) h =
    (r, refl, subst (λ x. r ⟶ x) (some-injective (sym there ∙ h)) m)

-- A row behind an operation that only changes rows comes from a row before it.
pub came_from :
    (s t : Table) (k : ℕ) (q : OutboxJob)
    → Advances s t
    → get k t ≡ some q
    → (r : OutboxJob) × (get k s ≡ some r) × (r ⟶ q)
came_from s t k q a h = came_from_option (get k s) (get k t) (a.rows k) h

same_job-Persists :
    {a b c d : OutboxJob} → Persists a c → Persists b d → same_job c d ≡ true → same_job a b ≡ true
unfolding same_job
same_job-Persists p q h =
    ground (arith, h, p.uuid, p.tenant, p.type, p.key, q.uuid, q.tenant, q.type, q.key)

Advances-WellFormed : (s t : Table) → Advances s t → WellFormed s → WellFormed t
Advances-WellFormed s t a w = record {
  keyed =
      λ k q h. let (r, there, m) = came_from s t k q a h in (⟶-Persists m).job ∙ w.keyed k r there;
  sound = λ k q h. let (r, there, m) = came_from s t k q a h in ⟶-Sound m (w.sound k r there);
  unique = λ j k c d h i e.
      let (a', there, m) = came_from s t j c a h in
      let (b', here, n) = came_from s t k d a i in
      w.unique j k a' b' there here (same_job-Persists (⟶-Persists m) (⟶-Persists n) e);
  keys = a.keys w.keys;
}

-- A row that the database lets in.
pub record Enters (s : Table) (r : OutboxJob) : Type 0 where
  pub fresh : get r.job_id s ≡ none
  pub new : Sound r
  pub distinct : any (same_job r) (values s) ≡ false

same_job-sym : (a b : OutboxJob) → same_job a b ≡ true → same_job b a ≡ true
unfolding same_job
same_job-sym a b h = ground (
  arith,
  h,
  list_eq_iff a.job_type b.job_type,
  list_eq_iff b.job_type a.job_type,
  list_eq_iff a.deduplication_key b.deduplication_key,
  list_eq_iff b.deduplication_key a.deduplication_key,
)

put-WellFormed :
    (s : Table) (r : OutboxJob) → Enters s r → WellFormed s → WellFormed (put r.job_id r s)
put-WellFormed s r e w = record {
  keyed = λ k q h. elim (at k q h) [
    | inl (y, g) ↦ ap (λ x. x.job_id) (sym g) ∙ y
    | inr (n, g) ↦ w.keyed k q g
  ];
  sound =
      λ k q h. elim (at k q h) [ inl (y, g) ↦ subst Sound g e.new | inr (n, g) ↦ w.sound k q g ];
  unique = λ j k a b h i y. elim (at j a h) [
    | inl (p, g) ↦ elim (at k b i) [
      | inl (p', g') ↦ sym p ∙ p'
      | inr (n, g') ↦ cc (y, g, get-any (same_job r) k b s e.distinct g')
    ]
    | inr (n, g) ↦ elim (at k b i) [
      | inl (p', g') ↦ cc (same_job-sym a b y, g', get-any (same_job r) j a s e.distinct g)
      | inr (n', g') ↦ w.unique j k a b g g' y
    ]
  ];
  keys = put-HasUniqueKeys r.job_id r s w.keys;
}
  where
    at :
        (k : ℕ) (q : OutboxJob)
        → get k (put r.job_id r s) ≡ some q
        → ((r.job_id ≡ k) × (r ≡ q)) ⊎ ((r.job_id ≢ k) × (get k s ≡ some q))
    at k q h = elim (Bool-cases (r.job_id == k)) [
      | inl y ↦ inl (==→eq r.job_id k y, ground (arith, h, get-put k r.job_id r s, y))
      | inr n ↦ inr (==→ne r.job_id k n, ground (arith, h, get-put k r.job_id r s, n))
    ]

-- What a command does to the table: rows take steps, or one row enters.
pub data Changed (s : Table) : Table → Type 0 where
  advance : {t : Table} → Advances s t → Changed s t
  enter : {r : OutboxJob} → Enters s r → Changed s (put r.job_id r s)

pub Changed-WellFormed : {s t : Table} → Changed s t → WellFormed s → WellFormed t
Changed-WellFormed (advance a) w = Advances-WellFormed _ _ a w
Changed-WellFormed (enter e) w = put-WellFormed _ _ e w

module _ (s : Table) where
  insert_row-Changed :
      (r : OutboxJob)
      → r.state ≡ JobState.pending
      → r.attempt_count < r.max_attempts
      → Returns (Changed s) (insert_row r s)
  unfolding insert_row
  insert_row-Changed r p a = Returns-checks (Changed s) _ _ λ c. enter (record {
    fresh = ground (arith, c.1.0);
    new = record {
      checked = ground (arith, c.0);
      has_attempts = λ _. a;
      not_failed = λ f. cc (p, f);
    };
    distinct = c.1.1.0;
  })

  at_least_one : (o : EnqueueOptions) (n : ℕ) → in_range 1 100 o.max_attempts ≡ some n → 0 < n
  unfolding in_range
  at_least_one o n h = ground (arith, h)

  inserted :
      (e : SideEffect) (o : EnqueueOptions) (attempts : ℕ)
      → in_range 1 100 o.max_attempts ≡ some attempts
      → (payload : Dict Text JsonValue) (key : Text) (job_uuid : Uuid) (next_id clock : ℕ)
      → Returns (Changed s) (
          insert_row
            (new_job e o.priority attempts payload key job_uuid o.available_at next_id clock)
            s)
  inserted e o attempts h payload key job_uuid next_id clock =
      insert_row-Changed _ refl (at_least_one o attempts h)

  enqueue-Changed :
      (p : Runtime) (e : SideEffect) (o : EnqueueOptions) (new_uuid : Uuid) (next_id clock : ℕ)
      → Returns (Changed s) (enqueue_outbox_job p e o new_uuid next_id clock s)
  unfolding enqueue_outbox_job
  enqueue-Changed p e o new_uuid next_id clock =
      Returns->> (Changed s) _ _ (
        Returns-found (Changed s) _ _ _ λ attempts h. search (Returns->>=, inserted e o attempts h))

  -- A command that returns its operation's table.
  committed :
      {A : Type 0} (table : A → Table) (m : Result OutboxError A)
      (f : A → Result OutboxError (Table × List ClaimedOutboxJob))
      → ((a : A) → f a ≡ ok (table a, []))
      → Returns (λ a. Advances s (table a)) m
      → Returns (λ a. Changed s a.0) (m >>= f)
  committed table m f e h =
      Returns-then (λ a. Advances s (table a)) (λ a. Changed s a.0) m f h
        λ a p. subst (Returns λ a. Changed s a.0) (sym (e a)) (advance p)

  pub run-Changed :
      (p : Runtime) (c : Command) → IsKeyed s → Returns (λ a. Changed s a.0) (run p c s)
  unfolding run
  run-Changed p (enqueue e o new_uuid next_id clock) w =
      Returns-then (Changed s) (λ a. Changed s a.0) _ _
        (enqueue-Changed p e o new_uuid next_id clock) λ t c. c
  run-Changed p (claim q) w =
      Returns-weaken (λ a. Advances s a.0) (λ a. Changed s a.0) _ (claim-Advanced s w q)
        λ a. advance
  run-Changed p (heartbeat tenant_id k token lease_seconds now) w =
      committed (λ t. t) _ _ (λ t. refl)
        (heartbeat-Advanced s w tenant_id k token lease_seconds now)
  run-Changed p (acknowledge tenant_id k token now) w =
      committed (λ t. t) _ _ (λ t. refl) (acknowledge-Advanced s w tenant_id k token now)
  run-Changed p (fail tenant_id k token code retryable delay now) w =
      committed (λ a. a.0) _ _ (λ a. refl)
        (fail-Advanced s w tenant_id k token code retryable delay now)
  run-Changed p (recover q) w = committed (λ a. a.0) _ _ (λ a. refl) (recover-Advanced s w q)

  outcome :
      (m : Result OutboxError (Table × List ClaimedOutboxJob))
      → Returns (λ a. Changed s a.0) m
      → Changed s (committed_table s m)
  outcome (ok (t, jobs)) c = c
  outcome (err e) c = advance (Advances-refl s)

  pub perform-Changed : (p : Runtime) (c : Command) → IsKeyed s → Changed s (perform p c s)
  unfolding perform
  perform-Changed p c w = outcome (run p c s) (run-Changed p c w)

history_from-WellFormed :
    (p : Runtime) (cs : List Command) (s : Table) → WellFormed s → WellFormed (history_from p cs s)
unfolding history_from
history_from-WellFormed p [] s w = w
history_from-WellFormed p (c ∷ cs) s w =
    history_from-WellFormed p cs _ (Changed-WellFormed (perform-Changed s p c w.keyed) w)

-- After any commands, every row of the table stands under its primary key, meets the constraints of
-- the database, is not waiting without an attempt left and not in the state "failed", and no two rows
-- have a tenant and a job UUID, or a tenant, a job type and a deduplication key, in common.
pub history-WellFormed : (p : Runtime) (cs : List Command) → WellFormed (history p cs)
unfolding history
history-WellFormed p cs = history_from-WellFormed p cs empty empty-WellFormed
