-- ===== src/Outbox/Attempts.antt =====
-- How often the workers of storage/outbox_worker.py are given the same job.
use scalevault.Prelude.{
  ℕ, ◌+◌, ◌≡◌, ◌≤◌, Bool, true, some, List, [], ◌∷◌, All, elem, ◌==◌, nat_Eq, arith, Result, ok,
  err, Bool-cases, inl, inr, if◌then◌else◌, ==→eq, sym, ◌∙◌, ap,
}
use scalevault.Prelude.Dict.{get}
use scalevault.Prelude.Returns.{Returns, Returns->>=, Returns-weaken}
use scalevault.Outbox.Job.{OutboxJob, Table, OutboxError, row_checks, attempts_bounded}
use scalevault.Outbox.References.{Runtime}
use scalevault.Outbox.Claim.{ClaimRequest, ClaimedOutboxJob}
use scalevault.Outbox.History.{
  Command, enqueue, claim, heartbeat, acknowledge, fail, recover, run, perform, committed_table,
}
use scalevault.Outbox.Rows.{Sound}
use scalevault.Outbox.Invariant.{some-injective, WellFormed, Changed-WellFormed, perform-Changed}
use scalevault.Outbox.Batch.{job_ids, Handed, HandsOut, claim-HandsOut}
use scalevault.Outbox.Persistence.{Changed-Kept}

abbrev jobs_of : Result OutboxError (Table × List ClaimedOutboxJob) → List ClaimedOutboxJob
jobs_of (ok (t, jobs)) = jobs
jobs_of (err e) = []

-- A command that hands out the job `k`.
unfoldable pub hands_out : Runtime → ℕ → Command → Table → Bool
hands_out p k c s = elem k (job_ids (jobs_of (run p c s)))

-- How many of the commands hand out the job `k`.
unfoldable pub times_handed_out : Runtime → ℕ → List Command → Table → ℕ
times_handed_out p k [] s = 0
times_handed_out p k (c ∷ cs) s =
    let rest = times_handed_out p k cs (perform p c s) in
    if hands_out p k c s then rest + 1 else rest

module _ (k : ℕ) (s : Table) where
  -- If a result hands out the job, the job has one attempt more.
  abbrev Spends : Table × List ClaimedOutboxJob → Type 0
  Spends (t, jobs) =
      elem k (job_ids jobs) ≡ true
      → (r z : OutboxJob) → get k s ≡ some r
      → get k t ≡ some z
      → z.attempt_count ≡ r.attempt_count + 1

  Handed-Spends :
      (q : ClaimRequest) (t : Table) (jobs : List ClaimedOutboxJob)
      → All (Handed q s t) jobs
      → Spends (t, jobs)
  Handed-Spends q t [] a h r z e i = cc
  Handed-Spends q t (j ∷ jobs) a h r z e i = elim (Bool-cases (k == j.job_id)) [
    | inl y ↦
        let same = ==→eq k j.job_id y in
        let before = some-injective (sym e ∙ ap (λ x. get x s) same ∙ a.0.before) in
        let after = some-injective (sym i ∙ ap (λ x. get x t) same ∙ a.0.after) in
        ap (λ x. x.attempt_count) after ∙ ap (λ x. x.attempt_count + 1) (sym before)
    | inr n ↦ Handed-Spends q t jobs a.1 (ground (arith, h, n)) r z e i
  ]

  silent : (t : Table) → Spends (t, [])
  silent t h r z e i = cc

  run-Spends : (p : Runtime) (c : Command) → WellFormed s → Returns Spends (run p c s)
  unfolding run
  run-Spends p (claim q) w =
      Returns-weaken (λ a. HandsOut q s a.0 a.1) Spends _ (claim-HandsOut q s w)
        λ a h. Handed-Spends q a.0 a.1 h.handed
  run-Spends p (enqueue e o new_uuid next_id clock) w = search (Returns->>=, silent)
  run-Spends p (heartbeat tenant_id j token lease_seconds now) w = search (Returns->>=, silent)
  run-Spends p (acknowledge tenant_id j token now) w = search (Returns->>=, silent)
  run-Spends p (fail tenant_id j token code retryable delay now) w = search (Returns->>=, silent)
  run-Spends p (recover q) w = search (Returns->>=, silent)

  performed :
      (m : Result OutboxError (Table × List ClaimedOutboxJob))
      → Returns Spends m
      → elem k (job_ids (jobs_of m)) ≡ true
      → (r z : OutboxJob) → get k s ≡ some r
      → get k (committed_table s m) ≡ some z
      → z.attempt_count ≡ r.attempt_count + 1
  performed (ok (t, jobs)) h y r z e i = h y r z e i
  performed (err e) h y r z b a = cc

  perform-Spends :
      (p : Runtime) (c : Command) (r z : OutboxJob)
      → WellFormed s
      → hands_out p k c s ≡ true
      → get k s ≡ some r
      → get k (perform p c s) ≡ some z
      → z.attempt_count ≡ r.attempt_count + 1
  unfolding perform hands_out
  perform-Spends p c r z w y = performed (run p c s) (run-Spends p c w) y r z

within_allowance : (r : OutboxJob) → Sound r → r.attempt_count ≤ r.max_attempts
unfolding row_checks attempts_bounded
within_allowance r h = ground (arith, h.checked)

-- Whatever commands run, at most as many of them hand a job out as it has attempts left.
pub times_handed_out-bounded :
    (p : Runtime) (cs : List Command) (s : Table) (k : ℕ) (r : OutboxJob)
    → WellFormed s
    → get k s ≡ some r
    → times_handed_out p k cs s + r.attempt_count ≤ r.max_attempts
unfolding times_handed_out
times_handed_out-bounded p [] s k r w h = omega (arith, within_allowance r (w.sound k r h))
times_handed_out-bounded p (c ∷ cs) s k r w h =
    let change = perform-Changed s p c w.keyed in
    let (z, there, m) = Changed-Kept change k r h in
    let rest = times_handed_out-bounded p cs _ k z (Changed-WellFormed change w) there in
    elim (Bool-cases (hands_out p k c s)) [
      | inl y ↦ ground (arith, y, rest, m.allowance, perform-Spends k s p c r z w y h there)
      | inr n ↦ ground (arith, n, rest, m.allowance, m.attempts)
    ]
