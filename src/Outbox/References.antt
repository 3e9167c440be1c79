-- ===== src/Outbox/References.antt =====
-- storage/outbox.py: the references that a job's payload consists of, and their bytes.
use scalevault.Prelude.{
  ℕ, Bool, true, false, ◌&&◌, not, Option, List, [], ◌∷◌, ◌++◌, map, Text, codes, ℤ, pos, Result,
  ok, err, ◌>>=◌, ◌>>◌, raise_if, ltb, nat_eq, ◌||◌, all, any, is_empty, if◌then◌else◌, ◌==◌,
  list_Eq, nat_Eq,
}
use scalevault.Prelude.Dict.{Dict, empty, put}
use scalevault.Domain.Identifiers.{Uuid}
use scalevault.Domain.CanonicalJson.{
  Bytes, JsonValue, json_string, json_integer, json_array, JsonItems, json_nil, json_cons,
}
use scalevault.Outbox.Job.{OutboxError, type_error, value_error}

-- What the code calls of Python's library: the texts of identifiers and integers, UTF-8 and SHA-256.
pub record Runtime : Type 0 where
  pub uuid_text : Uuid → Text
  pub int_text : ℕ → Text
  pub utf8 : Text → Option Bytes
  pub sha256_hex : Bytes → Text

-- `OutboxReferenceValue`, and `bool`, which Python counts among the integers.
pub data OutboxReferenceValue : Type 0 where
  uuid : Uuid → OutboxReferenceValue
  integer : ℤ → OutboxReferenceValue
  boolean : Bool → OutboxReferenceValue
  uuids : List Uuid → OutboxReferenceValue

abbrev pub References : Type 0
References = List (Text × OutboxReferenceValue)

-- `text.endswith(suffix)`
unfoldable pub ends_with : Text → Text → Bool
ends_with suffix [] = suffix == []
ends_with suffix (c ∷ text) = let rest = ends_with suffix text in suffix == c ∷ text || rest

-- `a < b` on texts, by code point.
unfoldable pub text_before : Text → Text → Bool
text_before [] [] = false
text_before [] (d ∷ b) = true
text_before (c ∷ a) [] = false
text_before (c ∷ a) (d ∷ b) = let rest = text_before a b in ltb c d || nat_eq c d && rest

insert_reference : Text × OutboxReferenceValue → References → References
insert_reference p [] = p ∷ []
insert_reference p (q ∷ qs) =
    let rest = insert_reference p qs in if text_before q.0 p.0 then q ∷ rest else p ∷ q ∷ qs

-- The items of a mapping in the order of `sorted(references)`.
unfoldable pub sorted_references : References → References
unfolding insert_reference
sorted_references [] = []
sorted_references (p ∷ ps) = insert_reference p (sorted_references ps)

-- `",".join(texts)`
unfoldable pub comma_join : List Text → Text
comma_join [] = []
comma_join (t ∷ []) = t
comma_join (t ∷ u ∷ ts) = t ++ codes "," ++ comma_join (u ∷ ts)

module _ (p : Runtime) where
  unfoldable pub reference_bytes : Text → OutboxReferenceValue → Result OutboxError Bytes
  reference_bytes key (uuid u) = ok (codes "uuid:" ++ p.uuid_text u)
  reference_bytes key (integer (pos n)) = ok (codes "int:" ++ p.int_text n)
  reference_bytes key (uuids us) =
      if ends_with (codes "_ids") key
      then ok (codes "uuids:" ++ comma_join (map p.uuid_text us))
      else err type_error
  reference_bytes key _ = err type_error

abbrev pub reference_suffixes : List Text
reference_suffixes = codes "_id" ∷ codes "_ids" ∷ codes "_version" ∷ codes "_sequence" ∷ []

-- The test on a reference's name.
unfoldable pub names_reference : Text → Bool
names_reference key =
    not (is_empty key)
    && all (λ c. ltb c 128) key
    && any (λ suffix. ends_with suffix key) reference_suffixes

abbrev json_texts : List Text → JsonItems
json_texts [] = json_nil
json_texts (t ∷ ts) = json_cons (json_string t) (json_texts ts)

abbrev pub json_reference : Runtime → OutboxReferenceValue → JsonValue
json_reference p (uuid u) = json_string (p.uuid_text u)
json_reference p (uuids us) = json_array (json_texts (map p.uuid_text us))
json_reference p (integer z) = json_integer z
json_reference p (boolean b) = JsonValue.json_boolean b

validate_items :
    Runtime → References → Dict Text JsonValue → Result OutboxError (Dict Text JsonValue)
validate_items p [] payload = ok payload
validate_items p ((key, value) ∷ rest) payload = do
  raise_if (not (names_reference key)) value_error
  bytes ← reference_bytes p key value
  validate_items p rest (put key (json_reference p value) payload)

unfoldable pub validate_outbox_references :
    Runtime → References → Result OutboxError (Dict Text JsonValue)
unfolding validate_items
validate_outbox_references p references = validate_items p (sorted_references references) empty
