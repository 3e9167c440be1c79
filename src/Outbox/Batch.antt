-- ===== src/Outbox/Batch.antt =====
-- What a claim of storage/outbox_worker.py hands out.
use mathlib.Core.Path.{subst}
use scalevault.Prelude.{
  ℕ, suc, ◌≡◌, ◌≤◌, ◌<◌, Bool, true, false, not, ◌&&◌, some, List, [], ◌∷◌, All, Text, arith, refl,
  sym, ◌∙◌, ap, Result, ◌>>◌, ◌>>=◌, ◌==◌, nat_Eq, elem, all_unique, length, list_Eq,
}
use scalevault.Prelude.Dict.{get, get-put, get-put_self}
use scalevault.Prelude.Returns.{Returns, Returns->>, Returns-then, Returns-found}
use scalevault.Outbox.Job.{OutboxJob, Table, OutboxError, JobState}
use scalevault.Outbox.Select.{select_rows}
use scalevault.Outbox.Claim.{
  ClaimRequest, ClaimedOutboxJob, is_claimable, lease_row, claimed_job, lease_rows, lease_token,
  validate_timing, claim_outbox_jobs,
}
use scalevault.Outbox.Enqueue.{in_range}
use scalevault.Outbox.Selections.{IsMatch, select_rows-IsMatch}
use scalevault.Outbox.Distinct.{ids, select_rows_unique, length-select_rows}
use scalevault.Outbox.Invariant.{WellFormed}

abbrev pub job_ids : List ClaimedOutboxJob → List ℕ
job_ids [] = []
job_ids (j ∷ jobs) = j.job_id ∷ job_ids jobs

-- A row that a claim may take, condition by condition.
pub record Claimable (q : ClaimRequest) (r : OutboxJob) : Type 0 where
  pub tenant : r.tenant_id ≡ q.tenant_id
  pub waiting : r.state ≡ JobState.pending
  pub due : r.available_at ≤ q.now
  pub attempts : r.attempt_count < r.max_attempts
  pub wanted : elem r.job_type q.job_types ≡ true
  pub free : q.locked r.job_id ≡ false

-- A job that a claim hands out: its row was claimable, and is leased under the job's token now.
pub record Handed (q : ClaimRequest) (s t : Table) (j : ClaimedOutboxJob) : Type 0 where
  pub row : OutboxJob
  pub expires_at : ℕ
  pub before : get j.job_id s ≡ some row
  pub claimable : Claimable q row
  pub after : get j.job_id t ≡ some (lease_row j.lease_token expires_at q.now row)
  pub tenant : j.tenant_id ≡ q.tenant_id
  pub content : j ≡ claimed_job j.lease_token (lease_row j.lease_token expires_at q.now row)

abbrev may_take : ClaimRequest → OutboxJob → Bool
may_take q r = is_claimable q.tenant_id q.job_types q.now r && not (q.locked r.job_id)

may_take-Claimable : (q : ClaimRequest) (r : OutboxJob) → may_take q r ≡ true → Claimable q r
unfolding is_claimable
may_take-Claimable q r h = ground (arith, h)

module _ (token : ℕ → Text) (q : ClaimRequest) (expires_at : ℕ) where
  abbrev loop : ℕ → List OutboxJob → Table → Table × List ClaimedOutboxJob
  loop = lease_rows token expires_at q.now

  lease_rows-apart :
      (k i : ℕ) (rows : List OutboxJob) (t : Table)
      → elem k (ids rows) ≡ false
      → get k (loop i rows t).0 ≡ get k t
  unfolding lease_rows
  lease_rows-apart k i [] t n = refl
  lease_rows-apart k i (r ∷ rows) t n =
      lease_rows-apart k (suc i) rows _ (ground (arith, n))
      ∙ rw (get-put, the_other k r rows n) refl
    where
      the_other :
          (k : ℕ) (r : OutboxJob) (rows : List OutboxJob)
          → elem k (ids (r ∷ rows)) ≡ false
          → (r.job_id == k) ≡ false
      the_other k r rows n = ground (arith, n)

  job_ids-lease_rows :
      (i : ℕ) (rows : List OutboxJob) (t : Table) → job_ids (loop i rows t).1 ≡ ids rows
  unfolding lease_rows
  job_ids-lease_rows i [] t = refl
  job_ids-lease_rows i (r ∷ rows) t = ap (λ l. r.job_id ∷ l) (job_ids-lease_rows (suc i) rows _)

  lease_rows-Handed :
      (s : Table) (i : ℕ) (rows : List OutboxJob) (t : Table)
      → All (IsMatch (may_take q) s) rows
      → all_unique (ids rows) ≡ true
      → All (Handed q s (loop i rows t).0) (loop i rows t).1
  unfolding lease_rows
  lease_rows-Handed s i [] t m u = tt
  lease_rows-Handed s i (r ∷ rows) t m u = (
    record {
      row = r;
      expires_at = expires_at;
      before = m.0.0;
      claimable = may_take-Claimable q r m.0.1;
      after =
          lease_rows-apart r.job_id (suc i) rows _ (ground (arith, u))
          ∙ get-put_self r.job_id (lease_row (token i) expires_at q.now r) t;
      tenant = (may_take-Claimable q r m.0.1).tenant;
      content = refl;
    },
    lease_rows-Handed s (suc i) rows _ m.1 (ground (arith, u)),
  )

  length-lease_rows :
      (i : ℕ) (rows : List OutboxJob) (t : Table) → length (loop i rows t).1 ≡ length rows
  unfolding lease_rows
  length-lease_rows i [] t = refl
  length-lease_rows i (r ∷ rows) t = ap suc (length-lease_rows (suc i) rows _)

-- What a claim that returns has done.
pub record HandsOut (q : ClaimRequest) (s t : Table) (jobs : List ClaimedOutboxJob) : Type 0 where
  pub handed : All (Handed q s t) jobs
  pub once : all_unique (job_ids jobs) ≡ true
  pub bounded : (n : ℕ) × (in_range 1 100 q.batch_size ≡ some n) × (length jobs ≤ n)
  pub others : (k : ℕ) → elem k (job_ids jobs) ≡ false → get k t ≡ get k s

module _ (q : ClaimRequest) (s : Table) (w : WellFormed s) where
  abbrev taken : ℕ → List OutboxJob
  taken n =
      select_rows (is_claimable q.tenant_id q.job_types q.now) (λ r. r.available_at) q.locked n s

  loop-HandsOut :
      (n expires_at : ℕ)
      → in_range 1 100 q.batch_size ≡ some n
      → let a =
          lease_rows
            (lease_token q.worker_owner q.uuid_text q.new_uuids)
            expires_at
            q.now
            0
            (taken n)
            s in
        HandsOut q s a.0 a.1
  loop-HandsOut n expires_at h =
      let token = lease_token q.worker_owner q.uuid_text q.new_uuids in
      let unique = select_rows_unique _ (λ r. r.available_at) q.locked n s w.keyed w.keys in
      let the_ids = job_ids-lease_rows token q expires_at 0 (taken n) s in
      record {
        handed =
            lease_rows-Handed token q expires_at s 0 (taken n) s
              (select_rows-IsMatch _ (λ r. r.available_at) q.locked n s w.keyed) unique;
        once = ap all_unique the_ids ∙ unique;
        bounded = (
          n,
          h,
          subst (λ m. m ≤ n) (sym (length-lease_rows token q expires_at 0 (taken n) s))
              (length-select_rows _ _ _ n s),
        );
        others = λ k out.
            lease_rows-apart token q expires_at k 0 (taken n) s (ap (elem k) (sym the_ids) ∙ out);
      }

  timing :
      Returns
        (λ a. in_range 1 100 q.batch_size ≡ some a.0)
        (validate_timing q.batch_size q.lease_seconds)
  unfolding validate_timing
  timing =
      Returns-found (λ a. in_range 1 100 q.batch_size ≡ some a.0) _ _ _
        λ n h. Returns-found (λ a. in_range 1 100 q.batch_size ≡ some a.0) _ _ _ λ m _. h

  abbrev Done : Result OutboxError (Table × List ClaimedOutboxJob) → Type 0
  Done = Returns λ a. HandsOut q s a.0 a.1

  behind :
      (m : Result OutboxError (Unit {0})) (k : Result OutboxError (Table × List ClaimedOutboxJob))
      → Done k
      → Done (m >> k)
  behind = Returns->> λ a. HandsOut q s a.0 a.1

  timed :
      (f : ℕ × ℕ → Result OutboxError (Table × List ClaimedOutboxJob))
      → ((n m : ℕ) → in_range 1 100 q.batch_size ≡ some n → Done (f (n, m)))
      → Done (validate_timing q.batch_size q.lease_seconds >>= f)
  timed f h =
      Returns-then (λ a. in_range 1 100 q.batch_size ≡ some a.0) (λ a. HandsOut q s a.0 a.1) _ f
        timing λ a. h a.0 a.1

  -- A claim that returns has handed out no job twice and no more jobs than the batch size, which is
  -- from 1 to 100. Each of them was pending, due, of the tenant and of a wanted type, had an attempt
  -- left and was held by no other transaction; its row is leased under the job's token now, with one
  -- attempt more. Every other row is as it was.
  pub claim-HandsOut : Returns (λ a. HandsOut q s a.0 a.1) (claim_outbox_jobs q s)
  unfolding claim_outbox_jobs
  claim-HandsOut = search (behind, timed, loop-HandsOut)
