-- ===== src/Domain/CanonicalJson/Idempotent.antt =====
-- Normalizing what was normalized changes nothing, and the result is within every bound.
use scalevault.Prelude.{ℕ, ◌-◌, ◌≡◌, refl, ok, arith, any, false}
use scalevault.Domain.CanonicalJson.{
  Item, Items, Fields, null, boolean, string, float, integer, uuid, datetime, decimal, mapping,
  sequence, nil, cons, done, field, JsonValue, JsonItems, JsonFields, json_null, json_boolean,
  json_string, json_float, json_integer, json_object, json_array, json_nil, json_cons, json_done,
  json_field, JsonPlatform, normalize, normalize_items, normalize_fields, normalize_json_value,
  canonical_json_bytes, max_canonical_json_depth, is_container, is_surrogate,
}

-- A JSON value as a value of the domain.
unfoldable mutual
  pub embed : JsonValue → Item
  embed json_null = null
  embed (json_boolean b) = boolean b
  embed (json_string s) = string s
  embed (json_float f) = float f
  embed (json_integer z) = integer z
  embed (json_object fs) = mapping (embed_fields fs)
  embed (json_array xs) = sequence (embed_items xs)

  pub embed_items : JsonItems → Items
  embed_items json_nil = nil
  embed_items (json_cons x xs) = cons (embed x) (embed_items xs)

  pub embed_fields : JsonFields → Fields
  embed_fields json_done = done
  embed_fields (json_field k x fs) = field k (embed x) (embed_fields fs)

-- What the code relies on: the texts of an identifier and of a time have no surrogate.
pub record IsTextual (p : JsonPlatform) : Type 0 where
  pub uuid_plain : (u : ℕ) → any is_surrogate (p.uuid_text u) ≡ false
  pub isoformat_plain : (t : ℕ) → any is_surrogate (p.isoformat t) ≡ false

module _ (p : JsonPlatform) (textual : IsTextual p) where
  scalar_again :
      (x : Item) (d : ℕ) (v : JsonValue)
      → is_container x ≡ false
      → normalize p x d ≡ ok v
      → normalize p (embed v) d ≡ ok v
  unfolding normalize embed
  scalar_again (uuid u) d v c h = ground (arith, textual.uuid_plain u)
  scalar_again (datetime t) d v c h = ground (arith, textual.isoformat_plain t)
  scalar_again (decimal z scale) d v c h = ground arith
  scalar_again _ d v c h = ground arith

  mutual
    unfolding normalize embed

    normalize_again :
        (x : Item) (d : ℕ) (v : JsonValue) → normalize p x d ≡ ok v → normalize p (embed v) d ≡ ok v
    normalize_again (mapping fs) d (json_object w) h = ground (arith, normalize_fields_again fs d w)
    normalize_again (mapping fs) d _ h = ground arith
    normalize_again (sequence xs) d (json_array w) h = ground (arith, normalize_items_again xs d w)
    normalize_again (sequence xs) d _ h = ground arith
    normalize_again x d v h = scalar_again x d v refl h

    normalize_items_again :
        (xs : Items) (d : ℕ) (v : JsonItems)
        → normalize_items p xs d ≡ ok v
        → normalize_items p (embed_items v) d ≡ ok v
    normalize_items_again nil d v h = ground arith
    normalize_items_again (cons x xs) d (json_cons w ws) h =
        ground (arith, normalize_again x (d - 1) w, normalize_items_again xs d ws)
    normalize_items_again (cons x xs) d json_nil h = ground arith

    normalize_fields_again :
        (fs : Fields) (d : ℕ) (v : JsonFields)
        → normalize_fields p fs d ≡ ok v
        → normalize_fields p (embed_fields v) d ≡ ok v
    normalize_fields_again done d v h = ground arith
    normalize_fields_again (field k x fs) d (json_field j w ws) h =
        ground (arith, normalize_again x (d - 1) w, normalize_fields_again fs d ws)
    normalize_fields_again (field k x fs) d json_done h = ground arith

  -- A value that was normalized, taken as a value of the domain again, normalizes to itself, and so
  -- has the same canonical bytes as the value that it came from.
  pub normalize_json_value_idem :
      (x : Item) (v : JsonValue)
      → normalize_json_value p x ≡ ok v
      → (normalize_json_value p (embed v) ≡ ok v)
        × (canonical_json_bytes p (embed v) ≡ canonical_json_bytes p x)
  unfolding normalize_json_value canonical_json_bytes
  normalize_json_value_idem x v h =
      let again = normalize_again x max_canonical_json_depth v h in (again, rw (again, h))
