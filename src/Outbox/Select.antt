-- ===== src/Outbox/Select.antt =====
-- storage/outbox_worker.py: the selections of rows that the worker's statements make.
use scalevault.Prelude.{
  ℕ, zero, suc, Bool, not, ◌&&◌, ◌||◌, Option, none, some, List, [], ◌∷◌, leb, ltb, if◌then◌else◌,
  ◌==◌, list_Eq, nat_Eq, option_Eq,
}
use scalevault.Prelude.Dict.{get, keys}
use scalevault.Outbox.Job.{OutboxJob, job_state_Eq, Table}

-- `SELECT ... WHERE p`: the rows of a list of primary keys, in the table's order.
unfoldable pub selected : (OutboxJob → Bool) → Table → List ℕ → List OutboxJob
selected p t [] = []
selected p t (k ∷ ks) = elim (get k t) [
  | none ↦ selected p t ks
  | some r ↦ if p r then r ∷ selected p t ks else selected p t ks
]

-- Rows by an instant and, at the same instant, by primary key.
unfoldable pub precedes : (OutboxJob → ℕ) → OutboxJob → OutboxJob → Bool
precedes at a b = ltb (at a) (at b) || at a == at b && leb a.job_id b.job_id

unfoldable pub insert_ordered : (OutboxJob → ℕ) → OutboxJob → List OutboxJob → List OutboxJob
insert_ordered at r [] = r ∷ []
insert_ordered at r (q ∷ qs) =
    let rest = insert_ordered at r qs in if precedes at r q then r ∷ q ∷ qs else q ∷ rest

-- `ORDER BY at, job_id`
unfoldable pub ordered : (OutboxJob → ℕ) → List OutboxJob → List OutboxJob
ordered at [] = []
ordered at (r ∷ rows) = insert_ordered at r (ordered at rows)

-- `LIMIT n`
unfoldable pub limit : ℕ → List OutboxJob → List OutboxJob
limit zero rows = []
limit (suc n) [] = []
limit (suc n) (r ∷ rows) = r ∷ limit n rows

-- The rows that a statement with `FOR UPDATE SKIP LOCKED` returns: those that no other transaction
-- holds, in order, up to the limit.
unfoldable pub select_rows :
    (OutboxJob → Bool) → (OutboxJob → ℕ) → (ℕ → Bool) → ℕ → Table → List OutboxJob
select_rows p at locked n t =
    limit n (ordered at (selected (λ r. p r && not (locked r.job_id)) t (keys t)))

-- `WHERE job_id = k AND p`: the primary key admits one row at most.
unfoldable pub row_where : ℕ → (OutboxJob → Bool) → Table → Option OutboxJob
row_where k p t = elim (get k t) [ none ↦ none | some r ↦ if p r then some r else none ]
