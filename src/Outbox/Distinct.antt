-- ===== src/Outbox/Distinct.antt =====
-- A statement of storage/outbox_worker.py selects a row once, and not more rows than its limit.
use scalevault.Prelude.{
  ℕ, zero, suc, ◌≡◌, ◌≤◌, Bool, true, false, ◌||◌, List, [], ◌∷◌, arith, Option-cases, inl, inr,
  refl, elem, all_unique, length, ◌==◌, nat_Eq,
}
use scalevault.Prelude.Dict.{get, keys, HasUniqueKeys}
use scalevault.Outbox.Job.{OutboxJob, Table}
use scalevault.Outbox.Select.{selected, insert_ordered, ordered, limit, select_rows}
use scalevault.Outbox.Selections.{IsKeyed}

abbrev pub ids : List OutboxJob → List ℕ
ids [] = []
ids (r ∷ rows) = r.job_id ∷ ids rows

module _ (p : OutboxJob → Bool) (t : Table) (w : IsKeyed t) where
  elem-selected : (j : ℕ) (ks : List ℕ) → elem j (ids (selected p t ks)) ≡ true → elem j ks ≡ true
  unfolding selected
  elem-selected j [] h = h
  elem-selected j (k ∷ ks) h = elim (Option-cases (get k t)) [
    | inl n ↦ ground (arith, h, n, elem-selected j ks)
    | inr (r, e) ↦ ground (arith, h, e, w k r e, elem-selected j ks)
  ]

  selected_unique : (ks : List ℕ) → all_unique ks ≡ true → all_unique (ids (selected p t ks)) ≡ true
  unfolding selected
  selected_unique [] h = refl
  selected_unique (k ∷ ks) h = elim (Option-cases (get k t)) [
    | inl n ↦ ground (arith, h, n, selected_unique ks)
    | inr (r, e) ↦ ground (arith, h, e, w k r e, selected_unique ks, elem-selected k ks)
  ]

module _ (at : OutboxJob → ℕ) where
  elem-insert_ordered :
      (j : ℕ) (r : OutboxJob) (rows : List OutboxJob)
      → elem j (ids (insert_ordered at r rows)) ≡ (j == r.job_id || elem j (ids rows))
  unfolding insert_ordered
  elem-insert_ordered j r [] = refl
  elem-insert_ordered j r (q ∷ qs) = ground (arith, elem-insert_ordered j r qs)

  insert_ordered_unique :
      (r : OutboxJob) (rows : List OutboxJob)
      → elem r.job_id (ids rows) ≡ false
      → all_unique (ids rows) ≡ true
      → all_unique (ids (insert_ordered at r rows)) ≡ true
  unfolding insert_ordered
  insert_ordered_unique r [] n u = refl
  insert_ordered_unique r (q ∷ qs) n u =
      ground (arith, n, u, insert_ordered_unique r qs, elem-insert_ordered q.job_id r qs)

  pub elem-ordered :
      (j : ℕ) (rows : List OutboxJob) → elem j (ids (ordered at rows)) ≡ elem j (ids rows)
  unfolding ordered
  elem-ordered j [] = refl
  elem-ordered j (r ∷ rows) =
      ground (arith, elem-insert_ordered j r (ordered at rows), elem-ordered j rows)

  ordered_unique :
      (rows : List OutboxJob)
      → all_unique (ids rows) ≡ true
      → all_unique (ids (ordered at rows)) ≡ true
  unfolding ordered
  ordered_unique [] u = refl
  ordered_unique (r ∷ rows) u =
      insert_ordered_unique r (ordered at rows) (ground (arith, u, elem-ordered r.job_id rows))
        (ordered_unique rows (ground (arith, u)))

elem-limit :
    (j n : ℕ) (rows : List OutboxJob)
    → elem j (ids (limit n rows)) ≡ true
    → elem j (ids rows) ≡ true
unfolding limit
elem-limit j zero rows h = cc
elem-limit j (suc n) [] h = h
elem-limit j (suc n) (r ∷ rows) h = ground (arith, h, elem-limit j n rows)

limit_unique :
    (n : ℕ) (rows : List OutboxJob)
    → all_unique (ids rows) ≡ true
    → all_unique (ids (limit n rows)) ≡ true
unfolding limit
limit_unique zero rows u = refl
limit_unique (suc n) [] u = refl
limit_unique (suc n) (r ∷ rows) u =
    ground (arith, u, limit_unique n rows, elem-limit r.job_id n rows)

pub select_rows_unique :
    (p : OutboxJob → Bool) (at : OutboxJob → ℕ) (locked : ℕ → Bool) (n : ℕ) (t : Table)
    → IsKeyed t
    → HasUniqueKeys t
    → all_unique (ids (select_rows p at locked n t)) ≡ true
unfolding select_rows
select_rows_unique p at locked n t w u =
    limit_unique n _ (ordered_unique at _ (selected_unique _ t w (keys t) u))

length-limit : (n : ℕ) (rows : List OutboxJob) → length (limit n rows) ≤ n
unfolding limit
length-limit zero rows = omega arith
length-limit (suc n) [] = omega arith
length-limit (suc n) (r ∷ rows) = omega (arith, length-limit n rows)

pub length-select_rows :
    (p : OutboxJob → Bool) (at : OutboxJob → ℕ) (locked : ℕ → Bool) (n : ℕ) (t : Table)
    → length (select_rows p at locked n t) ≤ n
unfolding select_rows
length-select_rows p at locked n t = length-limit n _
