-- ===== src/Events/Hashes.antt =====
-- domain/events.py: that `verify_hashes` accepts what `event_hash_fields` made.
use mathlib.Core.Path.{subst}
use scalevault.Prelude.{
  ◌≡◌, sym, ap, true, ◌!=◌, ◌==◌, some, ok, raise_if, or_raise, >>=-eq-ok, map_err, ok-injective,
  Text, list_Eq, ==_refl, nat_Eq, arith,
}
use scalevault.Domain.CanonicalJson.{
  Item, Bytes, JsonValue, Fields, normalize_json_value, canonical_json_bytes,
}
use scalevault.Domain.CanonicalJson.Idempotent.{embed}
use scalevault.Events.Payloads.{Payload}
use scalevault.Events.Envelope.{
  Platform, EventError, MemoryEvent, not_canonical, typed_payload, canonical_bytes,
  command_material, command_fields, hash_fields, verify_hashes, event_hash_fields, object_fields,
}

-- The recorded bytes and digests are those of the typed payload and of the command.
record IsAuthentic (p : Platform) (e : MemoryEvent) : Type 0 where
  pub payload : Payload
  pub typed : typed_payload p e ≡ ok payload
  pub bytes : Bytes
  pub canonical : canonical_bytes p (p.model_dump payload) ≡ ok bytes
  pub decoded : p.content.b64decode e.payload_canonical ≡ some bytes
  pub payload_digest : p.sha256_hex bytes ≡ e.payload_sha256
  pub command : Bytes
  pub material : canonical_bytes p (command_material e) ≡ ok command
  pub command_digest : p.sha256_hex command ≡ e.command_sha256

same_text : (a : Text) (x : EventError) → raise_if (a != a) x ≡ ok tt
unfolding raise_if
same_text a x = let same : (a == a) ≡ true = ==_refl a in ground arith

IsAuthentic-verify_hashes :
    (p : Platform) (e : MemoryEvent) → IsAuthentic p e → verify_hashes p e ≡ ok tt
unfolding verify_hashes or_raise
IsAuthentic-verify_hashes p e a = rw (
  a.typed,
  a.canonical,
  a.decoded,
  a.payload_digest,
  same_text a.bytes,
  same_text e.payload_sha256,
  a.material,
  a.command_digest,
  same_text e.command_sha256,
)

-- What the code relies on: base64 decodes what it encoded.
abbrev pub DecodesBase64 : Platform → Type 0
DecodesBase64 p = (b : Bytes) → p.content.b64decode (p.content.b64encode b) ≡ some b

canonical-made :
    (p : Platform) (x : Item) (value : JsonValue) (bytes : Bytes)
    → map_err not_canonical (normalize_json_value p.json x) ≡ ok value
    → map_err not_canonical (canonical_json_bytes p.json (embed value)) ≡ ok bytes
    → canonical_bytes p x ≡ ok bytes
unfolding canonical_bytes
canonical-made p x value bytes h k = rw (h, k)

abbrev material_with : MemoryEvent → Fields → Item
material_with e fields =
    hash_fields e.tenant_id e.lineage_id e.branch_id e.actor_id e.client_id e.operation
      e.payload_version e.memory_id e.expected_revision e.causation_event_id fields

material-made :
    (p : Platform) (e : MemoryEvent) (fields : Fields) (command : Bytes)
    → e.payload ≡ fields
    → canonical_bytes p (material_with e fields) ≡ ok command
    → canonical_bytes p (command_material e) ≡ ok command
unfolding command_material command_fields hash_fields
material-made p e fields command h k =
    subst (λ fs. canonical_bytes p (material_with e fs) ≡ ok command) (sym h) k

-- An event that carries the four values that `event_hash_fields` computed for a payload, and whose
-- payload parses to it again, passes `verify_hashes`, if base64 decodes what it encoded.
pub event_hash_fields-verify_hashes :
    (p : Platform) (e : MemoryEvent) (payload : Payload)
    → DecodesBase64 p
    → event_hash_fields p e.operation payload e.tenant_id e.lineage_id e.branch_id e.actor_id
        e.client_id e.memory_id e.expected_revision e.causation_event_id e.payload_version
      ≡ ok (e.payload, e.payload_canonical, e.payload_sha256, e.command_sha256)
    → typed_payload p e ≡ ok payload
    → verify_hashes p e ≡ ok tt
unfolding event_hash_fields
event_hash_fields-verify_hashes p e payload decodes h typed =
    let (value, normal, h1) =
      >>=-eq-ok (map_err not_canonical (normalize_json_value p.json (p.model_dump payload))) _ h in
    let (fields, object, h2) = >>=-eq-ok (object_fields p value) _ h1 in
    let (bytes, canonical, h3) =
      >>=-eq-ok (map_err not_canonical (canonical_json_bytes p.json (embed value))) _ h2 in
    let (command, material, h4) = >>=-eq-ok (canonical_bytes p (material_with e fields)) _ h3 in
    let same = ok-injective h4 in
    IsAuthentic-verify_hashes p e (record {
      payload = payload;
      typed = typed;
      bytes = bytes;
      canonical = canonical-made p (p.model_dump payload) value bytes normal canonical;
      decoded =
          subst (λ c. p.content.b64decode c ≡ some bytes)
            (sym (ap (λ (x : Fields × Text × Text × Text). x.1) same)) (decodes bytes);
      payload_digest = sym (ap (λ (x : Fields × Text × Text × Text). x.2) same);
      command = command;
      material =
          material-made p e fields command (ap (λ (x : Fields × Text × Text × Text). x.0) same)
            material;
      command_digest = sym (ap (λ (x : Fields × Text × Text × Text). x.3) same);
    })
