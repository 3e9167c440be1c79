-- ===== src/Domain/Identifiers.antt =====
-- domain/identifiers.py: a UUID is its 128-bit integer.
use scalevault.Prelude.{
  ℕ, ◌+◌, ◌*◌, ◌/◌, ◌%◌, ◌^◌, ◌≤◌, ◌<◌, ◌≡◌, Bool, true, ◌&&◌, Result, ok, err, leb, nat_eq, ℤ,
  Option, some, none, or_raise, ◌>>=◌, arith, ◌-◌, if◌then◌else◌,
}

abbrev pub Uuid : Type 0
Uuid = ℕ

pub data InvalidIdentifierError : Type 0 where
  timestamp_range random_range not_uuid7 : InvalidIdentifierError

abbrev pub max_uuid7_timestamp_ms : ℕ
max_uuid7_timestamp_ms = 2 ^ 48 - 1

abbrev pub max_uuid7_random : ℕ
max_uuid7_random = 2 ^ 74 - 1

-- The fields of a UUIDv7 side by side.
abbrev packed : ℕ → ℕ → Uuid
packed timestamp random =
    timestamp * 2 ^ 80 + 7 * 2 ^ 76 + random / 2 ^ 62 * 2 ^ 64 + 2 * 2 ^ 62 + random % 2 ^ 62

-- `0 <= value <= high`, with the number that it admits.
unfoldable up_to : ℕ → ℤ → Option ℕ
up_to high (ℤ.pos n) = if leb n high then some n else none
up_to high (ℤ.negsuc n) = none

-- `new_uuid7`, with the clock and the random source as the two arguments. The fields do not
-- overlap, so `|` of the shifted fields is their sum.
unfoldable pub new_uuid7 : ℤ → ℤ → Result InvalidIdentifierError Uuid
unfolding up_to
new_uuid7 timestamp random = do
  resolved_timestamp ← or_raise (up_to max_uuid7_timestamp_ms timestamp) timestamp_range
  resolved_random ← or_raise (up_to max_uuid7_random random) random_range
  ok (packed resolved_timestamp resolved_random)

-- `UUID.variant == RFC_4122`: the two bits from bit 62 are 10.
abbrev pub is_rfc4122 : Uuid → Bool
is_rfc4122 u = nat_eq (u / 2 ^ 62 % 4) 2

-- `UUID.version == 7`: the four bits from bit 76, which only the RFC 4122 variant has.
unfoldable pub is_uuid7 : Uuid → Bool
is_uuid7 u = is_rfc4122 u && nat_eq (u / 2 ^ 76 % 16) 7

unfoldable pub require_uuid7 : Uuid → Result InvalidIdentifierError Uuid
require_uuid7 u = if is_uuid7 u then ok u else err not_uuid7

module _ (t r : ℕ) (ht : t ≤ max_uuid7_timestamp_ms) (hr : r ≤ max_uuid7_random) where
  packed-variant : packed t r / 2 ^ 62 % 4 ≡ 2
  packed-variant = omega arith

  packed-version : packed t r / 2 ^ 76 % 16 ≡ 7
  packed-version = omega arith

  packed-is_uuid7 : is_uuid7 (packed t r) ≡ true
  unfolding is_uuid7
  packed-is_uuid7 = rw (packed-variant, packed-version)

-- What `new_uuid7` returns fits 128 bits, passes `require_uuid7`, and keeps its timestamp and its
-- random bits readable; it returns for every timestamp and random value in range.
pub new_uuid7-is_uuid7 :
    (timestamp random : ℕ)
    → timestamp ≤ max_uuid7_timestamp_ms
    → random ≤ max_uuid7_random
    → (u : Uuid) × (new_uuid7 (ℤ.pos timestamp) (ℤ.pos random) ≡ ok u)
      × (u < 2 ^ 128)
      × (require_uuid7 u ≡ ok u)
      × (u / 2 ^ 80 ≡ timestamp)
      × (u / 2 ^ 64 % 2 ^ 12 * 2 ^ 62 + u % 2 ^ 62 ≡ random)
unfolding new_uuid7 up_to or_raise require_uuid7
new_uuid7-is_uuid7 t r ht hr = (
  packed t r,
  ground arith,
  omega arith,
  rw (packed-is_uuid7 t r ht hr),
  omega arith,
  omega arith,
)
