-- ===== src/Outbox/Persistence.antt =====
-- What becomes of a job of the outbox over all later commands.
use mathlib.Core.Path.{subst}
use scalevault.Prelude.{
  ℕ, ◌≡◌, Option, none, some, List, [], ◌∷◌, nat_Eq, ap, Bool-cases, inl, inr, ==→eq, ◌==◌,
}
use scalevault.Prelude.Dict.{get, get-put}
use scalevault.Outbox.Job.{OutboxJob, Table}
use scalevault.Outbox.References.{Runtime}
use scalevault.Outbox.History.{Command, history_from}
use scalevault.Outbox.Rows.{stay, Persists, ⟶-Persists, Persists-trans}
use scalevault.Outbox.Advance.{Follows}
use scalevault.Outbox.Invariant.{
  some-injective, WellFormed, Changed, advance, enter, Changed-WellFormed, perform-Changed,
}

-- A row that was there is there, as the same job.
abbrev pub Kept : Table → Table → Type 0
Kept s t =
    (k : ℕ) (r : OutboxJob) → get k s ≡ some r → (q : OutboxJob) × (get k t ≡ some q) × Persists r q

stepped :
    {r : OutboxJob} (o p : Option OutboxJob)
    → Follows o p
    → o ≡ some r
    → (q : OutboxJob) × (p ≡ some q) × Persists r q
stepped none p n h = cc
stepped {r} (some z) p (q, there, m) h =
    (q, there, subst (λ x. Persists x q) (some-injective h) (⟶-Persists m))

pub Changed-Kept : {s t : Table} → Changed s t → Kept s t
Changed-Kept {s} {t} (advance a) k r h = stepped (get k s) (get k t) (a.rows k) h
Changed-Kept {s} (enter {r = new} e) k r h = elim (Bool-cases (new.job_id == k)) [
  | inl y ↦ cc (h, e.fresh, ap (λ j. get j s) (==→eq new.job_id k y))
  | inr n ↦ (r, rw (get-put, n) h, ⟶-Persists stay)
]

-- Over all later commands a job is never lost: its row keeps its identity, its work and its allowance
-- of attempts, gets no attempt back, and does not change any more once the job succeeded or is dead.
pub history_from-Persists :
    (p : Runtime) (cs : List Command) (s : Table) (k : ℕ) (r : OutboxJob)
    → WellFormed s
    → get k s ≡ some r
    → (q : OutboxJob) × (get k (history_from p cs s) ≡ some q) × Persists r q
unfolding history_from
history_from-Persists p [] s k r w h = (r, h, ⟶-Persists stay)
history_from-Persists p (c ∷ cs) s k r w h =
    let change = perform-Changed s p c w.keyed in
    let (q, there, m) = Changed-Kept change k r h in
    let (z, here, n) = history_from-Persists p cs _ k q (Changed-WellFormed change w) there in
    (z, here, Persists-trans m n)
