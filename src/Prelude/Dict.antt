-- ===== src/Prelude/Dict.antt =====
-- A Python dict in insertion order. Clients use the laws and leave the entries shut.
use mathlib.Core.Path.{◌≡◌, refl}
use mathlib.Core.Bool.{Bool, true, false}
use mathlib.Core.Logic.{inl, inr}
use mathlib.Core.Option.{Option, none, some}
use mathlib.Core.List.{List, [], ◌∷◌}
use native.Mathlib.Omega.{arith}
use scalevault.Prelude.Tests.{if◌then◌else◌, is_some, Bool-cases}
use scalevault.Prelude.Equality.{Eq, ◌==◌}
use scalevault.Prelude.Lists.{elem, any, all_unique}

pub record Dict {ℓ κ} (K : Type ℓ) (V : Type κ) : Type (ℓ ⊔ κ) where
  pub entries : List (K × V)

module _ {ℓ κ} {K : Type ℓ} {V : Type κ} where
  unfoldable pub empty : Dict K V
  empty = record { entries = [] }

  -- `d.values()`
  abbrev pub values_of : List (K × V) → List V
  values_of [] = []
  values_of ((k, v) ∷ d) = v ∷ values_of d

  -- `d.keys()`
  abbrev pub keys_of : List (K × V) → List K
  keys_of [] = []
  keys_of ((k, v) ∷ d) = k ∷ keys_of d

  discard_in : (K → Bool) → List (K × V) → List (K × V)
  discard_in p [] = []
  discard_in p ((k, v) ∷ d) = let rest = discard_in p d in if p k then rest else (k, v) ∷ rest

  unfoldable pub keys : Dict K V → List K
  keys d = keys_of d.entries

  unfoldable pub values : Dict K V → List V
  values d = values_of d.entries

  -- `for k in tuple(d): if p(k): del d[k]`
  unfoldable pub discard : (K → Bool) → Dict K V → Dict K V
  unfolding discard_in
  discard p d = record { entries = discard_in p d.entries }

module _ {ℓ κ} {K : Type ℓ} {V : Type κ} ⦃e : Eq K⦄ where
  lookup_in : K → List (K × V) → Option V
  lookup_in k [] = none
  lookup_in k ((j, v) ∷ d) = if j == k then some v else lookup_in k d

  insert_in : K → V → List (K × V) → List (K × V)
  insert_in k v [] = (k, v) ∷ []
  insert_in k v ((j, w) ∷ d) = if j == k then (k, v) ∷ d else (j, w) ∷ insert_in k v d

  remove_in : K → List (K × V) → List (K × V)
  remove_in k [] = []
  remove_in k ((j, v) ∷ d) = let rest = remove_in k d in if j == k then rest else (j, v) ∷ rest

  -- `d.get(k)`
  unfoldable pub get : K → Dict K V → Option V
  unfolding lookup_in
  get k d = lookup_in k d.entries

  -- `d[k] = v`
  unfoldable pub put : K → V → Dict K V → Dict K V
  unfolding insert_in
  put k v d = record { entries = insert_in k v d.entries }

  -- `del d[k]`
  unfoldable pub remove : K → Dict K V → Dict K V
  unfolding remove_in
  remove k d = record { entries = remove_in k d.entries }

  -- `k in d`
  abbrev pub contains : K → Dict K V → Bool
  contains k d = is_some (get k d)

  lookup-insert :
      (j k : K) (v : V) (d : List (K × V))
      → lookup_in j (insert_in k v d) ≡ (if k == j then some v else lookup_in j d)
  unfolding lookup_in insert_in
  lookup-insert j k v [] = refl
  lookup-insert j k v ((i, w) ∷ d) =
      ground (arith, lookup-insert j k v d, e.equals_iff i k, e.equals_iff i j, e.equals_iff k j)

  lookup-remove :
      (j k : K) (d : List (K × V))
      → lookup_in j (remove_in k d) ≡ (if k == j then none else lookup_in j d)
  unfolding lookup_in remove_in
  lookup-remove j k [] = ground arith
  lookup-remove j k ((i, w) ∷ d) =
      ground (arith, lookup-remove j k d, e.equals_iff i k, e.equals_iff i j, e.equals_iff k j)

  pub get-put :
      (j k : K) (v : V) (d : Dict K V) → get j (put k v d) ≡ (if k == j then some v else get j d)
  unfolding get put
  get-put j k v d = lookup-insert j k v d.entries

  pub get-remove :
      (j k : K) (d : Dict K V) → get j (remove k d) ≡ (if k == j then none else get j d)
  unfolding get remove
  get-remove j k d = lookup-remove j k d.entries

  pub get-empty : (j : K) → get j (empty {V = V}) ≡ none
  unfolding get empty lookup_in
  get-empty j = refl

  pub get-put_self : (k : K) (v : V) (d : Dict K V) → get k (put k v d) ≡ some v
  get-put_self k v d = rw (get-put, (e.equals_iff k k).1 refl)

  lookup-discard :
      (p : K → Bool) (j : K) (d : List (K × V))
      → lookup_in j (discard_in p d) ≡ (if p j then none else lookup_in j d)
  unfolding lookup_in discard_in
  lookup-discard p j [] = ground arith
  lookup-discard p j ((i, w) ∷ d) = elim (Bool-cases (i == j)) [
    | inl same ↦
        rw (← (e.equals_iff i j).0 same) (ground (arith, lookup-discard p i d, e.equals_iff i i))
    | inr apart ↦ ground (arith, lookup-discard p j d)
  ]

  pub get-discard :
      (p : K → Bool) (j : K) (d : Dict K V) → get j (discard p d) ≡ (if p j then none else get j d)
  unfolding get discard
  get-discard p j d = lookup-discard p j d.entries

  lookup-keys : (j : K) (d : List (K × V)) → elem j (keys_of d) ≡ is_some (lookup_in j d)
  unfolding lookup_in
  lookup-keys j [] = refl
  lookup-keys j ((i, w) ∷ d) = ground (arith, lookup-keys j d, e.equals_iff i j, e.equals_iff j i)

  pub elem-keys : (j : K) (d : Dict K V) → elem j (keys d) ≡ contains j d
  unfolding get keys
  elem-keys j d = lookup-keys j d.entries

  lookup-any :
      (p : V → Bool) (j : K) (v : V) (d : List (K × V))
      → any p (values_of d) ≡ false
      → lookup_in j d ≡ some v
      → p v ≡ false
  unfolding lookup_in
  lookup-any p j v [] n h = cc
  lookup-any p j v ((i, w) ∷ d) n h = ground (arith, lookup-any p j v d)

  pub get-any :
      (p : V → Bool) (j : K) (v : V) (d : Dict K V)
      → any p (values d) ≡ false
      → get j d ≡ some v
      → p v ≡ false
  unfolding get values
  get-any p j v d = lookup-any p j v d.entries

  insert-unique_keys :
      (k : K) (v : V) (d : List (K × V))
      → all_unique (keys_of d) ≡ true
      → all_unique (keys_of (insert_in k v d)) ≡ true
  unfolding insert_in lookup_in
  insert-unique_keys k v [] h = refl
  insert-unique_keys k v ((i, w) ∷ d) h = ground (
    arith,
    h,
    insert-unique_keys k v d,
    lookup-keys i (insert_in k v d),
    lookup-insert i k v d,
    lookup-keys i d,
    e.equals_iff i k,
    e.equals_iff k i,
  )

  -- A dict has each key once.
  abbrev pub HasUniqueKeys : Dict K V → Type 0
  HasUniqueKeys d = all_unique (keys d) ≡ true

  pub put-HasUniqueKeys :
      (k : K) (v : V) (d : Dict K V) → HasUniqueKeys d → HasUniqueKeys (put k v d)
  unfolding keys put
  put-HasUniqueKeys k v d = insert-unique_keys k v d.entries
