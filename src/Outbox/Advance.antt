-- ===== src/Outbox/Advance.antt =====
-- What every operation of the outbox does to the whole table.
use scalevault.Prelude.Returns.{Returns, Returns->>=, Returns->>, Returns-found}
use scalevault.Prelude.{
  ℕ, suc, ◌≡◌, Bool, true, false, not, ◌&&◌, Option, none, some, List, [], ◌∷◌, All, arith, inl,
  inr, refl, Result, ok, Text, nat_Eq, Bool-cases, and-left, ==→eq, ◌==◌, ◌<◌, codes, ℤ, or_raise,
  ◌>>=◌,
}
use scalevault.Prelude.Dict.{get, put, get-put, HasUniqueKeys, put-HasUniqueKeys}
use scalevault.Domain.Identifiers.{Uuid}
use scalevault.Outbox.Job.{OutboxJob, Table, OutboxError, outbox_lease_lost, JobState, job_state_Eq}
use scalevault.Outbox.Rows.{◌⟶◌, stay, lease, extend, succeed, release}
use scalevault.Outbox.Select.{row_where, select_rows}
use scalevault.Outbox.Selections.{IsKeyed, IsMatch, select_rows-IsMatch, row_where-IsMatch}
use scalevault.Outbox.Claim.{
  ClaimRequest, is_claimable, lease_rows, lease_row, claim_outbox_jobs, lease_token,
}
use scalevault.Outbox.Lease.{
  expiry, is_expired, is_exhausted, recover_rows, release_row, holds_lease, update_leased,
  RecoverRequest, recover_expired_outbox_leases, lease_expired_summary, heartbeat_outbox_job,
  acknowledge_outbox_job, fail_outbox_job, failed_job,
}

-- A key's row behind an operation: none appears, and one that was there takes a step.
abbrev pub Follows : Option OutboxJob → Option OutboxJob → Type 0
Follows none o = o ≡ none
Follows (some r) o = (q : OutboxJob) × (o ≡ some q) × (r ⟶ q)

pub record Advances (s t : Table) : Type 0 where
  pub rows : (k : ℕ) → Follows (get k s) (get k t)
  pub keys : HasUniqueKeys s → HasUniqueKeys t

Follows-refl : (o : Option OutboxJob) → Follows o o
Follows-refl none = refl
Follows-refl (some r) = (r, refl, stay)

pub Advances-refl : (t : Table) → Advances t t
Advances-refl t = record { rows = λ k. Follows-refl (get k t); keys = λ u. u }

-- Another row that took a step from the first table.
pub Advances-put :
    (s t : Table) (k : ℕ) (r q : OutboxJob)
    → Advances s t
    → get k s ≡ some r
    → r ⟶ q
    → Advances s (put k q t)
Advances-put s t k r q a h m = record {
  rows = λ j. elim (Bool-cases (k == j)) [
    | inl y ↦ rw (get-put, y, ← ==→eq k j y, h) (q, refl, m)
    | inr n ↦ rw (get-put, n) (a.rows j)
  ];
  keys = λ u. put-HasUniqueKeys k q t (a.keys u);
}

not_exhausted : (r : OutboxJob) → is_exhausted r ≡ false → r.attempt_count < r.max_attempts
unfolding is_exhausted
not_exhausted r h = ground (arith, h)

claimable-⟶ :
    (tenant_id : Uuid) (types : List Text) (now : ℕ) (r : OutboxJob) (token : Text) (expires_at : ℕ)
    → is_claimable tenant_id types now r ≡ true
    → r ⟶ lease_row token expires_at now r
unfolding is_claimable
claimable-⟶ tenant_id types now r token expires_at h =
    lease token expires_at now (ground (arith, h)) (ground (arith, h))

expired-⟶ :
    (tenant_id : Uuid) (types : List Text) (now : ℕ) (r : OutboxJob) (delay : ℕ)
    → is_expired tenant_id types now r ≡ true
    → r ⟶ release_row (is_exhausted r) (codes "lease_expired") lease_expired_summary delay now r
unfolding is_expired
expired-⟶ tenant_id types now r delay h =
    release (is_exhausted r) _ _ delay now (ground (arith, h)) (not_exhausted r)

module _ (s : Table) where
  -- The loop of a claim, over rows of the first table that it may take.
  lease_rows-Advances :
      (token : ℕ → Text) (tenant_id : Uuid) (types : List Text) (locked : ℕ → Bool)
      (expires_at now i : ℕ) (rows : List OutboxJob) (t : Table)
      → Advances s t
      → All (IsMatch (λ r. is_claimable tenant_id types now r && not (locked r.job_id)) s) rows
      → Advances s (lease_rows token expires_at now i rows t).0
  unfolding lease_rows
  lease_rows-Advances token tenant_id types locked expires_at now i [] t a m = a
  lease_rows-Advances token tenant_id types locked expires_at now i (r ∷ rows) t a m =
      lease_rows-Advances token tenant_id types locked expires_at now (suc i) rows _
        (Advances-put s t r.job_id r _ a m.0.0
          (claimable-⟶ tenant_id types now r (token i) expires_at (and-left _ _ m.0.1)))
        m.1

  -- The loop of the recovery, over rows of the first table whose lease has expired.
  recover_rows-Advances :
      (tenant_id : Uuid) (types : List Text) (locked : ℕ → Bool) (delay now : ℕ)
      (rows : List OutboxJob) (t : Table)
      → Advances s t
      → All (IsMatch (λ r. is_expired tenant_id types now r && not (locked r.job_id)) s) rows
      → Advances s (recover_rows delay now rows t).0
  unfolding recover_rows
  recover_rows-Advances tenant_id types locked delay now [] t a m = a
  recover_rows-Advances tenant_id types locked delay now (r ∷ rows) t a m =
      recover_rows-Advances tenant_id types locked delay now rows _
        (Advances-put s t r.job_id r _ a m.0.0
          (expired-⟶ tenant_id types now r delay (and-left _ _ m.0.1)))
        m.1

-- An operation advances the table that it returns, if it returns.
abbrev Advanced : {A : Type 0} → (A → Table) → Table → Result OutboxError A → Type 0
Advanced table s = Returns λ a. Advances s (table a)

module _ (s : Table) (w : IsKeyed s) where
  claimed :
      (q : ClaimRequest) (batch expires_at : ℕ)
      → Advances s
          (lease_rows
            (lease_token q.worker_owner q.uuid_text q.new_uuids)
            expires_at
            q.now
            0
            (select_rows
              (is_claimable q.tenant_id q.job_types q.now)
              (λ r. r.available_at)
              q.locked
              batch
              s)
            s).0
  claimed q batch expires_at =
      lease_rows-Advances s _ q.tenant_id q.job_types q.locked expires_at q.now 0 _ s
        (Advances-refl s) (select_rows-IsMatch _ (λ r. r.available_at) q.locked batch s w)

  pub claim-Advanced : (q : ClaimRequest) → Advanced (λ a. a.0) s (claim_outbox_jobs q s)
  unfolding claim_outbox_jobs
  claim-Advanced q = search (Returns->>, Returns->>=, claimed)

  recovered :
      (q : RecoverRequest) (batch delay : ℕ)
      → Advances s
          (recover_rows delay q.now
            (select_rows (is_expired q.tenant_id q.job_types q.now) expiry q.locked batch s)
            s).0
  recovered q batch delay =
      recover_rows-Advances s q.tenant_id q.job_types q.locked delay q.now _ s (Advances-refl s)
        (select_rows-IsMatch _ expiry q.locked batch s w)

  pub recover-Advanced :
      (q : RecoverRequest) → Advanced (λ a. a.0) s (recover_expired_outbox_leases q s)
  unfolding recover_expired_outbox_leases
  recover-Advanced q = search (Returns->>, Returns->>=, recovered)

  -- The row under a live lease.
  leased-⟶ :
      (tenant_id : Uuid) (k : ℕ) (token : Text) (now : ℕ) (r q : OutboxJob)
      → row_where k (holds_lease tenant_id token now) s ≡ some r
      → (r.state ≡ JobState.leased → r ⟶ q)
      → Advances s (put k q s)
  unfolding holds_lease
  leased-⟶ tenant_id k token now r q h m =
      let (there, held) = row_where-IsMatch k (holds_lease tenant_id token now) s h in
      Advances-put s s k r q (Advances-refl s) there (m (ground (arith, held)))

  update_leased-Advanced :
      (tenant_id : Uuid) (k : ℕ) (token : Text) (now : ℕ) (change : OutboxJob → OutboxJob)
      → ((r : OutboxJob) → r.state ≡ JobState.leased → r ⟶ change r)
      → Advanced (λ t. t) s (update_leased tenant_id k token now change s)
  unfolding update_leased
  update_leased-Advanced tenant_id k token now change m =
      Returns-found (Advances s) _ _ _ λ r there. leased-⟶ tenant_id k token now r _ there (m r)

  pub heartbeat-Advanced :
      (tenant_id : Uuid) (k : ℕ) (token : Text) (lease_seconds : ℤ) (now : ℕ)
      → Advanced (λ t. t) s (heartbeat_outbox_job tenant_id k token lease_seconds now s)
  unfolding heartbeat_outbox_job
  heartbeat-Advanced tenant_id k token lease_seconds now =
      search (Returns->>=, update_leased-Advanced, extend)

  pub acknowledge-Advanced :
      (tenant_id : Uuid) (k : ℕ) (token : Text) (now : ℕ)
      → Advanced (λ t. t) s (acknowledge_outbox_job tenant_id k token now s)
  unfolding acknowledge_outbox_job
  acknowledge-Advanced tenant_id k token now =
      update_leased-Advanced tenant_id k token now _ λ r. succeed now

  -- The row that the failure of an attempt leaves.
  update_failed :
      (tenant_id : Uuid) (k : ℕ) (token code : Text) (retryable : Bool) (now : ℕ) (summary : Text)
      (delay : ℕ)
      → Advanced
          (λ a. a.0)
          s
          (or_raise (row_where k (holds_lease tenant_id token now) s) outbox_lease_lost >>= λ r.
            ok (failed_job k code summary retryable delay now r s))
  update_failed tenant_id k token code retryable now summary delay =
      Returns-found (λ a. Advances s a.0) _ _ _
        λ r there.
          leased-⟶ tenant_id k token now r _ there
            λ l. release _ code summary delay now l λ f. not_exhausted r (ground (arith, f))

  pub fail-Advanced :
      (tenant_id : Uuid) (k : ℕ) (token code : Text) (retryable : Bool) (delay : ℤ) (now : ℕ)
      → Advanced (λ a. a.0) s (fail_outbox_job tenant_id k token code retryable delay now s)
  unfolding fail_outbox_job
  fail-Advanced tenant_id k token code retryable delay now = search (Returns->>=, update_failed)
