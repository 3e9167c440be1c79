-- ===== src/Prelude/Returns.antt =====
-- Properties of what a computation returns, if it returns.
use mathlib.Core.Path.{subst, ◌≡◌, refl}
use scalevault.Prelude.Outcome.{
  Result, ok, err, ◌>>=◌, ◌>>◌, or_raise, raise_first, Passed, preceding_checks,
}
use mathlib.Core.Bool.{Bool}
use mathlib.Core.List.{List}
use mathlib.Core.Option.{Option, none, some}

module _ {E : Type 0} where
  -- `P` holds of what a computation returns.
  abbrev pub Returns : {A : Type 0} → (A → Type 0) → Result E A → Type 0
  Returns P (ok a) = P a
  Returns P (err f) = Unit

  pub Returns->>= :
      {A B : Type 0} (P : B → Type 0) (m : Result E A) (f : A → Result E B)
      → ((a : A) → Returns P (f a))
      → Returns P (m >>= f)
  Returns->>= P (ok a) f h = h a
  Returns->>= P (err x) f h = tt

  pub Returns->> :
      {B : Type 0} (P : B → Type 0) (m : Result E (Unit {0})) (k : Result E B)
      → Returns P k
      → Returns P (m >> k)
  Returns->> P (ok a) k h = h
  Returns->> P (err x) k h = tt

  pub Returns-ok :
      {A : Type 0} (P : A → Type 0) (m : Result E A) {a : A} → Returns P m → m ≡ ok a → P a
  Returns-ok P m r h = subst (Returns P) h r

  -- A property of what a computation returns, from what it says of its value.
  pub Returns-all :
      {A : Type 0} (P : A → Type 0) (m : Result E A) → ((a : A) → m ≡ ok a → P a) → Returns P m
  Returns-all P (ok a) h = h a refl
  Returns-all P (err f) h = tt

  -- What `or_raise` lets through was there.
  pub Returns-found :
      {A B : Type 0} (P : B → Type 0) (o : Option A) (e : E) (f : A → Result E B)
      → ((a : A) → o ≡ some a → Returns P (f a))
      → Returns P (or_raise o e >>= f)
  unfolding or_raise
  Returns-found P none e f h = tt
  Returns-found P (some a) e f h = h a refl

  -- Behind a sequence of checks, no test holds.
  pub Returns-checks :
      {B : Type 0} (P : B → Type 0) (l : List (Bool × E)) (k : Result E B)
      → (Passed l → Returns P k)
      → Returns P (raise_first l >> k)
  Returns-checks P l k h =
      Returns-all P _
        λ a returned. let (p, e) = preceding_checks l k returned in Returns-ok P k (h p) e

  -- A computation and its rest, and a weaker property of the same value.
  pub Returns-then :
      {A B : Type 0} (P : A → Type 0) (Q : B → Type 0) (m : Result E A) (f : A → Result E B)
      → Returns P m
      → ((a : A) → P a → Returns Q (f a))
      → Returns Q (m >>= f)
  Returns-then P Q (ok a) f p h = h a p
  Returns-then P Q (err x) f p h = tt

  pub Returns-weaken :
      {A : Type 0} (P Q : A → Type 0) (m : Result E A)
      → Returns P m
      → ((a : A) → P a → Q a)
      → Returns Q m
  Returns-weaken P Q (ok a) p h = h a p
  Returns-weaken P Q (err x) p h = tt
