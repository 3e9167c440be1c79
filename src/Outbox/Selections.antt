-- ===== src/Outbox/Selections.antt =====
-- What holds of the rows that a statement of storage/outbox_worker.py selects.
use scalevault.Prelude.{
  ℕ, zero, suc, ◌≡◌, Bool, true, ◌&&◌, not, some, List, [], ◌∷◌, All, arith, Bool-cases,
  Option-cases, inl, inr, ap, ◌∙◌, nat_Eq,
}
use scalevault.Prelude.Dict.{get, keys}
use scalevault.Outbox.Job.{OutboxJob, Table}
use scalevault.Outbox.Select.{
  selected, precedes, insert_ordered, ordered, limit, select_rows, row_where,
}

-- A table's rows stand under their primary keys.
abbrev pub IsKeyed : Table → Type 0
IsKeyed t = (k : ℕ) (r : OutboxJob) → get k t ≡ some r → r.job_id ≡ k

-- A row of the table that passes a test.
abbrev pub IsMatch : (OutboxJob → Bool) → Table → OutboxJob → Type 0
IsMatch p t r = (get r.job_id t ≡ some r) × (p r ≡ true)

selected-IsMatch :
    (p : OutboxJob → Bool) (t : Table) (ks : List ℕ)
    → IsKeyed t
    → All (IsMatch p t) (selected p t ks)
unfolding selected
selected-IsMatch p t [] w = tt
selected-IsMatch p t (k ∷ ks) w = elim (Option-cases (get k t)) [
  | inl n ↦ rw (All, n) (selected-IsMatch p t ks w)
  | inr (r, h) ↦ elim (Bool-cases (p r)) [
    | inl y ↦ rw (All, h, y) ((ap (λ j. get j t) (w k r h) ∙ h, y), selected-IsMatch p t ks w)
    | inr n ↦ rw (All, h, n) (selected-IsMatch p t ks w)
  ]
]

module _ (P : OutboxJob → Type 0) where
  insert_ordered-All :
      (at : OutboxJob → ℕ) (r : OutboxJob) (rows : List OutboxJob)
      → P r
      → All P rows
      → All P (insert_ordered at r rows)
  unfolding insert_ordered
  insert_ordered-All at r [] h a = (h, tt)
  insert_ordered-All at r (q ∷ qs) h a = elim (Bool-cases (precedes at r q)) [
    | inl y ↦ rw y (h, a)
    | inr n ↦ rw n (a.0, insert_ordered-All at r qs h a.1)
  ]

  ordered-All : (at : OutboxJob → ℕ) (rows : List OutboxJob) → All P rows → All P (ordered at rows)
  unfolding ordered
  ordered-All at [] a = tt
  ordered-All at (r ∷ rows) a = insert_ordered-All at r _ a.0 (ordered-All at rows a.1)

  limit-All : (n : ℕ) (rows : List OutboxJob) → All P rows → All P (limit n rows)
  unfolding limit
  limit-All zero rows a = tt
  limit-All (suc n) [] a = tt
  limit-All (suc n) (r ∷ rows) a = (a.0, limit-All n rows a.1)

All-map :
    {P Q : OutboxJob → Type 0} (f : (r : OutboxJob) → P r → Q r) (rows : List OutboxJob)
    → All P rows
    → All Q rows
All-map f [] a = tt
All-map f (r ∷ rows) a = (f r a.0, All-map f rows a.1)

-- Every selected row is a row of the table that passes the test and that no other transaction holds.
pub select_rows-IsMatch :
    (p : OutboxJob → Bool) (at : OutboxJob → ℕ) (locked : ℕ → Bool) (n : ℕ) (t : Table)
    → IsKeyed t
    → All (IsMatch (λ r. p r && not (locked r.job_id)) t) (select_rows p at locked n t)
unfolding select_rows
select_rows-IsMatch p at locked n t w =
    limit-All _ n _ (ordered-All _ at _ (selected-IsMatch _ t (keys t) w))

-- A row that the guarded statements find is the table's row of that key.
pub row_where-IsMatch :
    (k : ℕ) (p : OutboxJob → Bool) (t : Table) {r : OutboxJob}
    → row_where k p t ≡ some r
    → (get k t ≡ some r) × (p r ≡ true)
unfolding row_where
row_where-IsMatch k p t {r} h = elim (Option-cases (get k t)) [
  | inl n ↦ ground (arith, n, h)
  | inr (q, e) ↦ elim (Bool-cases (p q)) [
    | inl y ↦ ground (arith, e, y, h)
    | inr n ↦ ground (arith, e, n, h)
  ]
]

pub IsMatch-row_where :
    (k : ℕ) (p : OutboxJob → Bool) (t : Table) (r : OutboxJob)
    → get k t ≡ some r
    → p r ≡ true
    → row_where k p t ≡ some r
unfolding row_where
IsMatch-row_where k p t r h y = ground (arith, h, y)
