-- ===== src/Prelude/Outcome.antt =====
-- A computation that may raise: the value, or the exception.
use mathlib.Core.Path.{◌≡◌, refl}
use mathlib.Core.Bool.{Bool, true, false}
use mathlib.Core.Option.{Option, none, some}
use mathlib.Core.List.{List, [], ◌∷◌}
use native.Mathlib.Omega.{arith}
use scalevault.Prelude.Tests.{if◌then◌else◌}

pub data Result {ℓ κ} (E : Type ℓ) (A : Type κ) : Type (ℓ ⊔ κ) where
  ok : A → Result E A
  err : E → Result E A

module _ {ℓ κ μ} {E : Type ℓ} {A : Type κ} {B : Type μ} where
  infixl 5 ◌>>=◌
  abbrev pub ◌>>=◌ : Result E A → (A → Result E B) → Result E B
  ok a >>= f = f a
  err e >>= f = err e

  -- A bind that returns had a value, with which its rest returned.
  pub >>=-eq-ok :
      (m : Result E A) (rest : A → Result E B) {r : B}
      → (m >>= rest) ≡ ok r
      → (x : A) × (m ≡ ok x) × (rest x ≡ ok r)
  >>=-eq-ok (ok x) rest returned = (x, refl, returned)
  >>=-eq-ok (err e) rest returned = cc

infixl 5 ◌>>◌
abbrev pub ◌>>◌ {ℓ κ} : {E : Type ℓ} {B : Type κ} → Result E (Unit {0}) → Result E B → Result E B
ok _ >> k = k
err e >> k = err e

pub >>-eq-ok {ℓ κ} :
    {E : Type ℓ} {B : Type κ} (m : Result E (Unit {0})) (k : Result E B) {b : B}
    → (m >> k) ≡ ok b
    → (m ≡ ok tt) × (k ≡ ok b)
>>-eq-ok (ok tt) k h = (refl, h)
>>-eq-ok (err e) k h = cc

-- `if b: raise e`
unfoldable pub raise_if {ℓ} : {E : Type ℓ} → Bool → E → Result E (Unit {0})
raise_if true e = err e
raise_if false e = ok tt

-- `if o is None: raise e`, with the value of `o` behind it
unfoldable pub or_raise {ℓ κ} : {E : Type ℓ} {A : Type κ} → Option A → E → Result E A
or_raise none e = err e
or_raise (some a) e = ok a

-- An exception under another name: `except E as e: raise F(e)`.
abbrev pub map_err {ℓ κ μ} :
    {E : Type ℓ} {F : Type κ} {A : Type μ} → (E → F) → Result E A → Result F A
map_err f (ok a) = ok a
map_err f (err e) = err (f e)

-- `if b: raise e` for each entry in turn: the first test that holds raises.
unfoldable pub raise_first {ℓ} : {E : Type ℓ} → List (Bool × E) → Result E (Unit {0})
raise_first [] = ok tt
raise_first ((b, e) ∷ rest) = let r = raise_first rest in if b then err e else r

-- No test of the list holds.
abbrev pub Passed {ℓ} : {E : Type ℓ} → List (Bool × E) → Type 0
Passed [] = Unit
Passed ((b, e) ∷ rest) = (b ≡ false) × Passed rest

-- A sequence of checks passes exactly if no test holds.
pub passed {ℓ} : {E : Type ℓ} (l : List (Bool × E)) → raise_first l ≡ ok tt → Passed l
unfolding raise_first
passed [] h = tt
passed ((b, e) ∷ rest) h = ground (arith, passed rest)

pub passes {ℓ} : {E : Type ℓ} (l : List (Bool × E)) → Passed l → raise_first l ≡ ok tt
unfolding raise_first
passes [] h = refl
passes ((b, e) ∷ rest) h = ground (arith, passes rest h.1)

-- A passed sequence of checks before the rest of a computation.
pub preceding_checks {ℓ κ} :
    {E : Type ℓ} {B : Type κ} (l : List (Bool × E)) (k : Result E B) {r : B}
    → (raise_first l >> k) ≡ ok r
    → Passed l × (k ≡ ok r)
preceding_checks l k h = let (p, q) = >>-eq-ok (raise_first l) k h in (passed l p, q)

pub map_err-eq-ok {ℓ κ μ} :
    {E : Type ℓ} {F : Type κ} {A : Type μ} (f : E → F) (m : Result E A) {a : A}
    → map_err f m ≡ ok a
    → m ≡ ok a
map_err-eq-ok f (ok a) h = cc h
map_err-eq-ok f (err e) h = cc

-- A value that was there, and the rest that ran with it.
pub found {ℓ κ μ} :
    {E : Type ℓ} {A : Type κ} {B : Type μ} (o : Option A) (e : E) (k : A → Result E B) {r : B}
    → (or_raise o e >>= k) ≡ ok r
    → (a : A) × (o ≡ some a) × (k a ≡ ok r)
unfolding or_raise
found none e k h = cc
found (some a) e k h = (a, refl, h)

pub ok-injective {ℓ κ} :
    {E : Type ℓ} {A : Type κ} {a b : A} → ◌≡◌ {A = Result E A} (ok a) (ok b) → b ≡ a
ok-injective h = cc
