-- ===== src/Tests/Platforms.antt =====
-- A platform at which the definitions run: it parses each sample class to the sample payload,
-- serializes every value to two characters, and its digest is the identity.
use scalevault.Prelude.{
  ◌≡◌, refl, true, Option, none, some, [], ◌∷◌, codes, ◌+◌, ◌%◌, ◌==◌, nat_Eq, arith,
}
use scalevault.Domain.CanonicalJson.{JsonPlatform, Fields, mapping, done}
use scalevault.Domain.CanonicalJson.Idempotent.{IsTextual}
use scalevault.Events.Shape.{ContentPlatform}
use scalevault.Events.Payloads.{
  Payload, PayloadModel, is_instance, created, tombstone, redacted, branch,
}
use scalevault.Events.Envelope.{Platform}
use scalevault.Tests.Samples.{created_payload, redacted_payload, tombstone_payload, branch_payload}

abbrev pub json_platform : JsonPlatform
json_platform = record {
  uuid_text = λ u. (b'0' + u % 10) ∷ [];
  isoformat = λ t. (b'0' + t % 10) ∷ [];
  exact_float = λ z n. none;
  dumps = λ v. some (codes "{}");
}

abbrev pub content_platform : ContentPlatform
content_platform = record { b64decode = λ s. some s; b64encode = λ s. s; is_space = λ c. c == b' ' }

abbrev pub parse_sample :
    (m : PayloadModel) → Fields → Option ((p : Payload) × (is_instance m p ≡ true))
parse_sample created fs = some (created_payload, refl)
parse_sample tombstone fs = some (tombstone_payload, refl)
parse_sample redacted fs = some (redacted_payload, refl)
parse_sample branch fs = some (branch_payload, refl)
parse_sample _ fs = none

abbrev pub platform : Platform
platform = record {
  json = json_platform;
  content = content_platform;
  parse = parse_sample;
  model_dump = λ p. mapping done;
  sha256_hex = λ s. s;
}

pub json_platform-IsTextual : IsTextual json_platform
json_platform-IsTextual = record {
  uuid_plain = λ u. ground arith;
  isoformat_plain = λ t. ground arith;
}
