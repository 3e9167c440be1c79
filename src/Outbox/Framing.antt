-- ===== src/Outbox/Framing.antt =====
-- What storage/outbox.py hashes determines the fields that it was made of.
use scalevault.Prelude.{
  ℕ, zero, suc, ◌+◌, ◌*◌, ◌/◌, ◌%◌, ◌<◌, ◌≡◌, not, List, [], ◌∷◌, ◌++◌, length, ok, >>=-eq-ok,
  >>-eq-ok, raise_if, ltb, ltb→lt, arith, refl, sym, ◌∙◌, ap, ok-injective, ◌^◌, Bool-cases, inl,
  inr,
}
use scalevault.Domain.CanonicalJson.{Bytes}
use scalevault.Outbox.Job.{overflow_error}
use scalevault.Outbox.Enqueue.{big_endian, to_bytes, framed_field, framed}

abbrev Fields : Type 0
Fields = List (Bytes × Bytes)

length-++ : (a b : Bytes) → length (a ++ b) ≡ length a + length b
length-++ [] b = omega arith
length-++ (x ∷ a) b = omega (arith, length-++ a b)

++-assoc : (a b c : Bytes) → (a ++ b) ++ c ≡ a ++ (b ++ c)
++-assoc [] b c = refl
++-assoc (x ∷ a) b c = ap (λ l. x ∷ l) (++-assoc a b c)

-- Two texts with the same beginning length that are equal are equal part by part.
split : (a b c d : Bytes) → length a ≡ length b → a ++ c ≡ b ++ d → (a ≡ b) × (c ≡ d)
split [] [] c d l h = (refl, h)
split [] (y ∷ b) c d l h = absurd (omega (arith, l))
split (x ∷ a) [] c d l h = absurd (omega (arith, l))
split (x ∷ a) (y ∷ b) c d l h =
    let (p, q) = split a b c d (omega (arith, l)) (cc h) in (ground (arith, h, p), q)

pub length-big_endian : (w n : ℕ) → length (big_endian w n) ≡ w
unfolding big_endian
length-big_endian zero n = refl
length-big_endian (suc w) n =
    omega (arith, length-++ (big_endian w (n / 256)) (n % 256 ∷ []), length-big_endian w (n / 256))

-- `256 ^ width`
abbrev pub bound : ℕ → ℕ
bound zero = 1
bound (suc w) = 256 * bound w

pub big_endian-injective :
    (w n m : ℕ) → n < bound w → m < bound w → big_endian w n ≡ big_endian w m → n ≡ m
unfolding big_endian
big_endian-injective zero n m i j h = omega (arith, i, j)
big_endian-injective (suc w) n m i j h =
    let (high, low) =
      split (big_endian w (n / 256)) (big_endian w (m / 256)) _ _
        (length-big_endian w (n / 256) ∙ sym (length-big_endian w (m / 256))) h in
    let same =
      big_endian-injective w (n / 256) (m / 256) (omega (arith, i)) (omega (arith, j)) high in
    let last : n % 256 ≡ m % 256 = cc low in omega (arith, same, last)

-- The bytes of one field.
abbrev field_bytes : Bytes → Bytes → Bytes
field_bytes k v = big_endian 2 (length k) ++ k ++ big_endian 4 (length v) ++ v

record Framed (k v field : Bytes) : Type 0 where
  name_fits : length k < bound 2
  value_fits : length v < bound 4
  bytes : field ≡ field_bytes k v

in_bound : (n m : ℕ) → raise_if (not (ltb n m)) overflow_error ≡ ok tt → n < m
unfolding raise_if
in_bound n m h = elim (Bool-cases (ltb n m)) [ inl y ↦ ltb→lt n m y | inr z ↦ ground (arith, h, z) ]

to_bytes-ok : (w n : ℕ) (b : Bytes) → to_bytes w n ≡ ok b → (n < 256 ^ w) × (b ≡ big_endian w n)
unfolding to_bytes
to_bytes-ok w n b h =
    let (fits, e) = >>-eq-ok (raise_if (not (ltb n (256 ^ w))) overflow_error) _ h in
    (in_bound n (256 ^ w) fits, ok-injective e)

framed_field-Framed : (k v field : Bytes) → framed_field k v ≡ ok field → Framed k v field
unfolding framed_field
framed_field-Framed k v field h =
    let (kl, a, h1) = >>=-eq-ok (to_bytes 2 (length k)) _ h in
    let (vl, b, h2) = >>=-eq-ok (to_bytes 4 (length v)) _ h1 in
    let (name_fits, p) = to_bytes-ok 2 (length k) kl a in
    let (value_fits, q) = to_bytes-ok 4 (length v) vl b in
    record {
      name_fits = name_fits;
      value_fits = value_fits;
      bytes =
          ok-injective h2
          ∙ ap (λ x. x ++ k ++ vl ++ v) p
          ∙ ap (λ x. big_endian 2 (length k) ++ k ++ x ++ v) q;
    }

field_bytes_assoc :
    (k v rest : Bytes)
    → field_bytes k v ++ rest
      ≡ big_endian 2 (length k) ++ (k ++ (big_endian 4 (length v) ++ (v ++ rest)))
field_bytes_assoc k v rest =
    let size = big_endian 2 (length k) in
    let size_v = big_endian 4 (length v) in
    ++-assoc (size ++ k ++ size_v) v rest
    ∙ ++-assoc (size ++ k) size_v (v ++ rest)
    ∙ ++-assoc size k (size_v ++ (v ++ rest))

-- A part behind its length, which is of fixed width.
part-split :
    (w : ℕ) (k l rest more : Bytes)
    → length k < bound w
    → length l < bound w
    → big_endian w (length k) ++ (k ++ rest) ≡ big_endian w (length l) ++ (l ++ more)
    → (k ≡ l) × (rest ≡ more)
part-split w k l rest more i j h =
    let (sizes, parts) =
      split (big_endian w (length k)) (big_endian w (length l)) _ _
        (length-big_endian w (length k) ∙ sym (length-big_endian w (length l))) h in
    split k l rest more (big_endian-injective w (length k) (length l) i j sizes) parts

-- A framed field and what follows it are read back in one way only.
field_bytes-split :
    (k v l w rest more : Bytes)
    → length k < bound 2
    → length l < bound 2
    → length v < bound 4
    → length w < bound 4
    → field_bytes k v ++ rest ≡ field_bytes l w ++ more
    → (k ≡ l) × (v ≡ w) × (rest ≡ more)
field_bytes-split k v l w rest more i j m n h =
    let (name, behind) =
      part-split 2 k l _ _ i j
        (sym (field_bytes_assoc k v rest) ∙ h ∙ field_bytes_assoc l w more) in
    let (value, tail) = part-split 4 v w rest more m n behind in (name, value, tail)

nonempty : (w : ℕ) (a b : Bytes) → length a ≡ suc w → a ++ b ≡ [] → ⊥
nonempty w [] b l h = omega (arith, l)
nonempty w (x ∷ a) b l h = cc

framed-nonempty : (k v : Bytes) (fields : Fields) → framed ((k, v) ∷ fields) ≡ ok [] → ⊥
unfolding framed
framed-nonempty k v fields h =
    let (field, a, h1) = >>=-eq-ok (framed_field k v) _ h in
    let (rest, b, h2) = >>=-eq-ok (framed fields) _ h1 in
    let bytes = (framed_field-Framed k v field a).bytes in
    let size = length-big_endian 2 (length k) in
    nonempty _ _ _ size
      (sym (field_bytes_assoc k v rest) ∙ ap (λ x. x ++ rest) (sym bytes) ∙ ok-injective (sym h2))

-- The framing is injective: what is hashed determines the fields, their order, and where the name and
-- the value of each begin and end.
pub framed-injective :
    (fs gs : List (Bytes × Bytes)) (b : Bytes) → framed fs ≡ ok b → framed gs ≡ ok b → fs ≡ gs
unfolding framed
framed-injective [] [] b h i = refl
framed-injective [] ((l, w) ∷ gs) b h i = absurd (framed-nonempty l w gs (i ∙ sym h))
framed-injective ((k, v) ∷ fs) [] b h i = absurd (framed-nonempty k v fs (h ∙ sym i))
framed-injective ((k, v) ∷ fs) ((l, w) ∷ gs) b h i =
    let (field, a, h1) = >>=-eq-ok (framed_field k v) _ h in
    let (rest, c, h2) = >>=-eq-ok (framed fs) _ h1 in
    let (other, d, i1) = >>=-eq-ok (framed_field l w) _ i in
    let (more, e, i2) = >>=-eq-ok (framed gs) _ i1 in
    let f = framed_field-Framed k v field a in
    let g = framed_field-Framed l w other d in
    let whole =
      ap (λ x. x ++ rest) (sym f.bytes)
      ∙ sym (ok-injective h2)
      ∙ ok-injective i2
      ∙ ap (λ x. x ++ more) g.bytes in
    let (name, value, tail) =
      field_bytes-split k v l w rest more f.name_fits g.name_fits f.value_fits g.value_fits whole in
    let last = framed-injective fs gs more (c ∙ ap ok tail) e in cc (name, value, last)
