-- ===== src/Domain/CanonicalJson.antt =====
-- domain/canonical_json.py: values of the domain, the strict JSON values that they normalize to,
-- and the canonical bytes. Values are trees, so the test for cyclic containers has no counterpart.
-- A finite float is the text of its shortest representation, a finite decimal is
-- `coefficient / 10^scale`, and `not_finite` is a float or a decimal that is neither.
pub mod Idempotent
use scalevault.Prelude.{
  ℕ, suc, ◌+◌, ◌*◌, ◌/◌, ◌%◌, ◌^◌, ◌-◌, Bool, true, false, ◌&&◌, Option, none, some, List, [], ◌∷◌,
  Result, ok, err, ◌>>=◌, ◌>>◌, raise_if, or_raise, leb, ltb, nat_eq, any, Text, ℤ, pos, negsuc,
  if◌then◌else◌,
}
use scalevault.Domain.Identifiers.{Uuid}

abbrev pub Bytes : Type 0
Bytes = List ℕ

mutual
  pub data Item : Type 0 where
    null unsupported not_finite : Item
    boolean : Bool → Item
    uuid datetime : ℕ → Item
    string enum float : Text → Item
    integer : ℤ → Item
    decimal : ℤ → ℕ → Item
    mapping : Fields → Item
    sequence : Items → Item

  pub data Items : Type 0 where
    nil : Items
    cons : Item → Items → Items

  pub data Fields : Type 0 where
    done : Fields
    field : Text → Item → Fields → Fields

abbrev pub is_container : Item → Bool
is_container (mapping fs) = true
is_container (sequence xs) = true
is_container _ = false

mutual
  pub data JsonValue : Type 0 where
    json_null : JsonValue
    json_boolean : Bool → JsonValue
    json_string json_float : Text → JsonValue
    json_integer : ℤ → JsonValue
    json_object : JsonFields → JsonValue
    json_array : JsonItems → JsonValue

  pub data JsonItems : Type 0 where
    json_nil : JsonItems
    json_cons : JsonValue → JsonItems → JsonItems

  pub data JsonFields : Type 0 where
    json_done : JsonFields
    json_field : Text → JsonValue → JsonFields → JsonFields

pub data CanonicalJsonError : Type 0 where
  surrogate infinite not_exact integer_range too_deep not_supported canonicalization_failed :
      CanonicalJsonError

-- The parts of Python and of the package rfc8785 that the code calls: the texts of an identifier
-- and of a time, the float that equals a decimal, if there is one, and the serializer.
pub record JsonPlatform : Type 0 where
  pub uuid_text : Uuid → Text
  pub isoformat : ℕ → Text
  pub exact_float : ℤ → ℕ → Option Text
  pub dumps : JsonValue → Option Bytes

abbrev pub max_canonical_json_depth : ℕ
max_canonical_json_depth = 64

abbrev pub max_ijson_integer : ℕ
max_ijson_integer = 2 ^ 53 - 1

abbrev pub is_surrogate : ℕ → Bool
is_surrogate c = leb 0xD800 c && leb c 0xDFFF

unfoldable pub validate_string : Text → Result CanonicalJsonError Text
validate_string s = if any is_surrogate s then err surrogate else ok s

-- `-MAX_IJSON_INTEGER <= value <= MAX_IJSON_INTEGER`
abbrev in_ijson_range : ℤ → Bool
in_ijson_range (pos n) = leb n max_ijson_integer
in_ijson_range (negsuc n) = leb (n + 1) max_ijson_integer

unfoldable pub normalize_integer : ℤ → Result CanonicalJsonError ℤ
normalize_integer z = if in_ijson_range z then ok z else err integer_range

-- `to_integral_value`, for a decimal that is integral.
integral_value : ℤ → ℕ → Option ℤ
integral_value (pos n) scale =
    if nat_eq (n % 10 ^ scale) 0 then some (pos (n / 10 ^ scale)) else none
integral_value (negsuc n) scale =
    if nat_eq ((n + 1) % 10 ^ scale) 0 then some (negsuc ((n + 1) / 10 ^ scale - 1)) else none

module _ (p : JsonPlatform) where
  unfoldable pub normalize_decimal : ℤ → ℕ → Result CanonicalJsonError JsonValue
  unfolding integral_value normalize_integer
  normalize_decimal z scale = elim (integral_value z scale) [
    | some i ↦ (do v ← normalize_integer i; ok (json_integer v))
    | none ↦ (do v ← or_raise (p.exact_float z scale) not_exact; ok (json_float v))
  ]

  -- The argument `depth` is the depth that is left: the source counts up to `max_depth`.
  unfoldable mutual
    unfolding validate_string normalize_integer normalize_decimal

    pub normalize : Item → ℕ → Result CanonicalJsonError JsonValue
    normalize null depth = ok json_null
    normalize unsupported depth = err not_supported
    normalize not_finite depth = err infinite
    normalize (boolean b) depth = ok (json_boolean b)
    normalize (uuid u) depth = ok (json_string (p.uuid_text u))
    normalize (datetime t) depth = ok (json_string (p.isoformat t))
    normalize (string s) depth = do v ← validate_string s; ok (json_string v)
    normalize (enum s) depth = do v ← validate_string s; ok (json_string v)
    normalize (float f) depth = ok (json_float f)
    normalize (integer z) depth = do v ← normalize_integer z; ok (json_integer v)
    normalize (decimal z scale) depth = normalize_decimal z scale
    normalize (mapping fs) depth = do v ← normalize_fields fs depth; ok (json_object v)
    normalize (sequence xs) depth = do v ← normalize_items xs depth; ok (json_array v)

    pub normalize_items : Items → ℕ → Result CanonicalJsonError JsonItems
    normalize_items nil depth = ok json_nil
    normalize_items (cons x xs) depth = do
      raise_if (nat_eq depth 0) too_deep
      v ← normalize x (depth - 1)
      vs ← normalize_items xs depth
      ok (json_cons v vs)

    pub normalize_fields : Fields → ℕ → Result CanonicalJsonError JsonFields
    normalize_fields done depth = ok json_done
    normalize_fields (field k x fs) depth = do
      raise_if (nat_eq depth 0) too_deep
      v ← normalize x (depth - 1)
      name ← validate_string k
      vs ← normalize_fields fs depth
      ok (json_field name v vs)

  unfoldable pub normalize_json_value : Item → Result CanonicalJsonError JsonValue
  unfolding normalize
  normalize_json_value x = normalize x max_canonical_json_depth

  unfoldable pub canonical_json_bytes : Item → Result CanonicalJsonError Bytes
  unfolding normalize_json_value
  canonical_json_bytes x = do
    v ← normalize_json_value x
    or_raise (p.dumps v) canonicalization_failed
