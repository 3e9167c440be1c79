-- ===== src/Outbox/Deduplication.antt =====
-- Which side effects share the input of their deduplication key in storage/outbox.py.
use scalevault.Prelude.{
  ◌^◌, ◌<◌, ◌≡◌, Option, none, some, List, [], ◌∷◌, ◌||◌, ok, >>=-eq-ok, >>-eq-ok, found, raise_if,
  is_empty, arith, refl, sym, ◌∙◌, ap, ok-injective, Text, codes, length,
}
use scalevault.Domain.Identifiers.{Uuid}
use scalevault.Domain.CanonicalJson.{Bytes}
use scalevault.Outbox.Job.{value_error, encode_error}
use scalevault.Outbox.References.{Runtime, sorted_references, validate_outbox_references}
use scalevault.Outbox.Enqueue.{
  SideEffect, big_endian, aggregate_bytes, digest_fields, digest_input, reference_fields,
}
use scalevault.Outbox.Framing.{framed-injective, big_endian-injective, length-big_endian}

-- UTF-8 gives different texts different bytes.
pub record EncodesApart (p : Runtime) : Type 0 where
  pub apart : (a b : Text) (c : Bytes) → p.utf8 a ≡ some c → p.utf8 b ≡ some c → a ≡ b

-- The identifiers of a side effect are 128 bits wide, as a UUID is.
pub record IsWide (e : SideEffect) : Type 0 where
  pub tenant : e.tenant_id < 256 ^ 16
  pub aggregate : (u : Uuid) → e.aggregate_id ≡ some u → u < 256 ^ 16

-- The fields that are hashed for a side effect.
record Parts (p : Runtime) (e : SideEffect) (fields : List (Bytes × Bytes)) : Type 0 where
  job_type : Bytes
  aggregate_type : Bytes
  references : List (Bytes × Bytes)
  job_text : p.utf8 e.job_type ≡ some job_type
  aggregate_text : p.utf8 e.aggregate_type ≡ some aggregate_type
  reference_texts : reference_fields p (sorted_references e.references) ≡ ok references
  all_fields : fields ≡ (
      (codes "tenant_id", big_endian 16 e.tenant_id)
      ∷ (codes "job_type", job_type)
      ∷ (codes "aggregate_type", aggregate_type)
      ∷ (codes "aggregate_id", aggregate_bytes e.aggregate_id)
      ∷ references)

digest_fields-Parts :
    (p : Runtime) (e : SideEffect) (fields : List (Bytes × Bytes))
    → digest_fields p e ≡ ok fields
    → Parts p e fields
unfolding digest_fields
digest_fields-Parts p e fields h =
    let (_, h1) =
      >>-eq-ok (raise_if (is_empty e.job_type || is_empty e.aggregate_type) value_error) _ h in
    let (payload, _, h2) = >>=-eq-ok (validate_outbox_references p e.references) _ h1 in
    let (job_type, a, h3) = found (p.utf8 e.job_type) encode_error _ h2 in
    let (aggregate_type, b, h4) = found (p.utf8 e.aggregate_type) encode_error _ h3 in
    let (references, c, h5) =
      >>=-eq-ok (reference_fields p (sorted_references e.references)) _ h4 in
    record {
      job_type = job_type;
      aggregate_type = aggregate_type;
      references = references;
      job_text = a;
      aggregate_text = b;
      reference_texts = c;
      all_fields = ok-injective h5;
    }

empty_id : (u : Uuid) → big_endian 16 u ≡ [] → ⊥
empty_id u h = omega (arith, length-big_endian 16 u, ap length h)

aggregate_bytes-injective :
    (a b : Option Uuid)
    → ((u : Uuid) → a ≡ some u → u < 256 ^ 16)
    → ((u : Uuid) → b ≡ some u → u < 256 ^ 16)
    → aggregate_bytes a ≡ aggregate_bytes b
    → a ≡ b
unfolding aggregate_bytes
aggregate_bytes-injective none none i j h = refl
aggregate_bytes-injective none (some v) i j h = absurd (empty_id v (sym h))
aggregate_bytes-injective (some u) none i j h = absurd (empty_id u h)
aggregate_bytes-injective (some u) (some v) i j h =
    ap some (big_endian-injective 16 u v (i u refl) (j v refl) h)

-- Two side effects whose digests have the same input agree in the tenant, the types and the aggregate,
-- and their references have the same names and bytes in the same order.
pub digest_input-injective :
    (p : Runtime) (e f : SideEffect) (b : Bytes)
    → EncodesApart p
    → IsWide e
    → IsWide f
    → digest_input p e ≡ ok b
    → digest_input p f ≡ ok b
    → (e.tenant_id ≡ f.tenant_id)
      × (e.job_type ≡ f.job_type)
      × (e.aggregate_type ≡ f.aggregate_type)
      × (e.aggregate_id ≡ f.aggregate_id)
      × (reference_fields p (sorted_references e.references)
          ≡ reference_fields p (sorted_references f.references))
unfolding digest_input
digest_input-injective p e f b apart i j h k =
    let (fields, a, h1) = >>=-eq-ok (digest_fields p e) _ h in
    let (others, c, k1) = >>=-eq-ok (digest_fields p f) _ k in
    let x = digest_fields-Parts p e fields a in
    let y = digest_fields-Parts p f others c in
    let same = sym x.all_fields ∙ framed-injective fields others b h1 k1 ∙ y.all_fields in
    let tenant : big_endian 16 e.tenant_id ≡ big_endian 16 f.tenant_id = cc same in
    let job : x.job_type ≡ y.job_type = cc same in
    let aggregate : x.aggregate_type ≡ y.aggregate_type = cc same in
    let target : aggregate_bytes e.aggregate_id ≡ aggregate_bytes f.aggregate_id = cc same in
    let references : x.references ≡ y.references = cc same in
    (
      big_endian-injective 16 e.tenant_id f.tenant_id i.tenant j.tenant tenant,
      apart.apart _ _ y.job_type (x.job_text ∙ ap some job) y.job_text,
      apart.apart _ _ y.aggregate_type (x.aggregate_text ∙ ap some aggregate) y.aggregate_text,
      aggregate_bytes-injective e.aggregate_id f.aggregate_id i.aggregate j.aggregate target,
      x.reference_texts ∙ ap ok references ∙ sym y.reference_texts,
    )
