-- ===== src/Prelude/Equality.antt =====
-- Python's `==` as an interface, with instances for numbers, pairs, options and lists.
use Prim.Native.Nat.{ℕ}
use mathlib.Core.Path.{◌≡◌, refl}
use mathlib.Core.Logic.{◌↔◌, ◌≢◌}
use mathlib.Core.Bool.{Bool, true, false, ◌&&◌, not}
use mathlib.Core.Option.{Option, none, some}
use mathlib.Core.List.{List, [], ◌∷◌}
use native.Mathlib.Omega.{arith}
use scalevault.Prelude.Tests.{nat_eq, nat_eq_iff}

pub record Eq {ℓ} (A : Type ℓ) : Type ℓ where
  pub equals : A → A → Bool
  pub equals_iff : (a b : A) → (equals a b ≡ true) ↔ (a ≡ b)

infix 50 ◌==◌ ◌!=◌
abbrev pub ◌==◌ {ℓ} : {A : Type ℓ} ⦃e : Eq A⦄ → A → A → Bool
◌==◌ ⦃e⦄ = e.equals

abbrev pub ◌!=◌ {ℓ} : {A : Type ℓ} ⦃e : Eq A⦄ → A → A → Bool
◌!=◌ ⦃e⦄ a b = not (e.equals a b)

module _ {ℓ} {A : Type ℓ} ⦃e : Eq A⦄ where
  pub ==→eq : (a b : A) → (a == b) ≡ true → a ≡ b
  ==→eq a b = (e.equals_iff a b).0

  pub ==_refl : (a : A) → (a == a) ≡ true
  ==_refl a = (e.equals_iff a a).1 refl

  pub ==→ne : (a b : A) → (a == b) ≡ false → a ≢ b
  ==→ne a b h p = cc (h, (e.equals_iff a b).1 p)

instance abbrev pub nat_Eq : Eq ℕ
nat_Eq = record { equals = nat_eq; equals_iff = nat_eq_iff }

abbrev pub pair_eq {ℓ κ} : {A : Type ℓ} {B : Type κ} ⦃e : Eq A⦄ ⦃f : Eq B⦄ → A × B → A × B → Bool
pair_eq (a, b) (c, d) = a == c && b == d

pub pair_eq_iff {ℓ κ} :
    {A : Type ℓ} {B : Type κ} ⦃e : Eq A⦄ ⦃f : Eq B⦄ (p q : A × B) → (pair_eq p q ≡ true) ↔ (p ≡ q)
pair_eq_iff ⦃e⦄ ⦃f⦄ (a, b) (c, d) = ground (arith, e.equals_iff a c, f.equals_iff b d)

instance abbrev pub pair_Eq {ℓ κ} : {A : Type ℓ} {B : Type κ} ⦃e : Eq A⦄ ⦃f : Eq B⦄ → Eq (A × B)
pair_Eq = record { equals = pair_eq; equals_iff = pair_eq_iff }

abbrev pub triple_eq : ℕ × ℕ × ℕ → ℕ × ℕ × ℕ → Bool
triple_eq (a, b, c) (d, e, f) = a == d && b == e && c == f

pub triple_eq_iff : (p q : ℕ × ℕ × ℕ) → (triple_eq p q ≡ true) ↔ (p ≡ q)
triple_eq_iff (a, b, c) (d, e, f) = ground arith

instance abbrev pub triple_Eq : Eq (ℕ × ℕ × ℕ)
triple_Eq = record { equals = triple_eq; equals_iff = triple_eq_iff }

abbrev pub option_eq {ℓ} : {A : Type ℓ} ⦃e : Eq A⦄ → Option A → Option A → Bool
option_eq none none = true
option_eq (some a) (some b) = a == b
option_eq _ _ = false

pub option_eq_iff {ℓ} : {A : Type ℓ} ⦃e : Eq A⦄ (p q : Option A) → (option_eq p q ≡ true) ↔ (p ≡ q)
option_eq_iff none none = ground arith
option_eq_iff ⦃e⦄ (some a) (some b) = ground (arith, e.equals_iff a b)
option_eq_iff none (some b) = ground arith
option_eq_iff (some a) none = ground arith

instance abbrev pub option_Eq {ℓ} : {A : Type ℓ} ⦃e : Eq A⦄ → Eq (Option A)
option_Eq = record { equals = option_eq; equals_iff = option_eq_iff }

abbrev pub list_eq {ℓ} : {A : Type ℓ} ⦃e : Eq A⦄ → List A → List A → Bool
list_eq [] [] = true
list_eq (a ∷ p) (b ∷ q) = a == b && list_eq p q
list_eq _ _ = false

pub list_eq_iff {ℓ} : {A : Type ℓ} ⦃e : Eq A⦄ (p q : List A) → (list_eq p q ≡ true) ↔ (p ≡ q)
list_eq_iff [] [] = ground arith
list_eq_iff ⦃e⦄ (a ∷ p) (b ∷ q) = ground (arith, e.equals_iff a b, list_eq_iff p q)
list_eq_iff [] (b ∷ q) = ground arith
list_eq_iff (a ∷ p) [] = ground arith

instance abbrev pub list_Eq {ℓ} : {A : Type ℓ} ⦃e : Eq A⦄ → Eq (List A)
list_Eq = record { equals = list_eq; equals_iff = list_eq_iff }

-- Equality by a number for each value: an enumeration's tag.
module _ {ℓ} {A : Type ℓ} (tag : A → ℕ) (apart : (a b : A) → tag a ≡ tag b → a ≡ b) where
  pub tag_iff : (a b : A) → (nat_eq (tag a) (tag b) ≡ true) ↔ (a ≡ b)
  tag_iff a b = (λ h. apart a b ((nat_eq_iff (tag a) (tag b)).0 h), λ p. rw p (ground arith))

  abbrev pub tag_Eq : Eq A
  tag_Eq = record { equals = λ a b. nat_eq (tag a) (tag b); equals_iff = tag_iff }
