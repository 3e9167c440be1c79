-- ===== src/Events/Shape/Memory.antt =====
-- domain/events.py: the validators of `MemoryState`, `MemoryStateV2` and `MemoryStateV3`. Pydantic
-- runs the field checks before the validators of the whole model, and a subclass's
-- `validate_state_shape` in place of its parent's.
use scalevault.Prelude.{
  ℕ, Text, Bool, true, false, ◌&&◌, ◌||◌, not, Option, some, [], ◌∷◌, ◌++◌, leb, ltb, nat_eq, ◌==◌,
  ◌!=◌, elem, all, all_unique, length, is_empty, is_some, is_none, holds, list_Eq, nat_Eq,
}
use scalevault.Domain.Identifiers.{is_uuid7}
use scalevault.Domain.Enums.{
  OntologicalStatus, MemoryScope, MemoryVisibility, MemoryStatus, ontological_status_Eq,
  memory_scope_Eq, memory_visibility_Eq, memory_status_Eq,
}
use scalevault.Domain.Operations.{AuthorityClass, SubjectKind, authority_class_Eq, subject_kind_Eq}
use scalevault.Domain.Constraints.Matrix.{category_ontology_compatibility}
use scalevault.Events.States.{
  MemoryState, ContentProtection, content_protection_Eq, StateVersion, v1, v2, v3,
  SealedContentEnvelopeState, Time,
}
use scalevault.Events.Shape.{
  Checks, require, safe_positive, sized, optional, is_hex_digest, properties, blank, same_presence,
  ContentPlatform, validity_order, update_order, category_ontology, scope_subject, global_roleplay,
  episodic_origin, scene_origin, scene_visibility, public_seed_status, public_seed_approval,
  shareable_sensitivity, tombstone_content, tombstone_derivatives, content_required, approval_pair,
  plaintext_key, protected_key, erased_status, limits_invalid, too_many_properties,
  candidate_deadline, deadline_order, deadline_forbidden, sealed_public_seed, sealed_key,
  sealed_derivatives,
}

abbrev before : Option Time → Option Time → Bool
before (some a) (some b) = ltb a b
before _ _ = false

abbrev pub expected_subject : MemoryScope → SubjectKind
expected_subject MemoryScope.global = SubjectKind.global
expected_subject MemoryScope.persona = SubjectKind.persona
expected_subject MemoryScope.relationship = SubjectKind.relationship
expected_subject MemoryScope.project = SubjectKind.project
expected_subject MemoryScope.episodic = SubjectKind.episode
expected_subject MemoryScope.scene_local = SubjectKind.scene

module _ (m : MemoryState) where
  unfoldable pub memory_field_checks : Checks
  memory_field_checks =
      require (is_uuid7 m.memory_id)
      ∷ require (is_uuid7 m.tenant_id)
      ∷ require (is_uuid7 m.lineage_id)
      ∷ require (is_uuid7 m.branch_id)
      ∷ require (is_uuid7 m.subject_id)
      ∷ require (safe_positive m.revision)
      ∷ require (optional (λ s. leb (length s) 8192) m.statement)
      ∷ require (optional (λ s. leb (length s) 4096) m.reason_to_remember)
      ∷ require (leb (length m.interpretation_limits) 32)
      ∷ require (all (sized 1 1024) m.interpretation_limits)
      ∷ require (leb m.confidence 1000000 && leb m.salience 1000000 && leb m.durability 1000000)
      ∷ require (leb m.sensitivity 4)
      ∷ require (optional is_uuid7 m.origin_session_id)
      ∷ require (optional is_uuid7 m.publication_approved_by_actor_id)
      ∷ require (optional is_uuid7 m.content_key_id)
      ∷ require (safe_positive m.fingerprint_version)
      ∷ require (optional is_hex_digest m.normalized_fingerprint)
      ∷ []

  -- What the two `validate_state_shape` methods check of the scope, in the same words.
  unfoldable pub scope_checks : Checks
  unfolding category_ontology_compatibility
  scope_checks =
      (
        not (elem m.ontological_status (category_ontology_compatibility m.category)),
        category_ontology,
      )
      ∷ (m.subject_kind != expected_subject m.scope, scope_subject)
      ∷ (
        m.scope == MemoryScope.global
            && m.ontological_status == OntologicalStatus.fictional_or_roleplayed_scene,
        global_roleplay,
      )
      ∷ (
        m.scope == MemoryScope.episodic
            && is_none m.origin_session_id
            && m.authority_class != AuthorityClass.imported_legacy_memory,
        episodic_origin,
      )
      ∷ (m.scope == MemoryScope.scene_local && is_none m.origin_session_id, scene_origin)
      ∷ (
        m.scope == MemoryScope.scene_local
            && elem m.visibility (MemoryVisibility.shareable ∷ MemoryVisibility.public_seed ∷ []),
        scene_visibility,
      )
      ∷ []

  -- `MemoryState.validate_state_shape`
  unfoldable pub state_checks : Checks
  unfolding scope_checks
  state_checks =
      let tombstoned = m.status == MemoryStatus.tombstoned in
      let public = m.visibility == MemoryVisibility.public_seed in
      (before m.valid_to m.valid_from, validity_order)
      ∷ (ltb m.updated_at m.created_at, update_order)
      ∷ (scope_checks
          ++ (
            public && (m.status != MemoryStatus.active || not (nat_eq m.sensitivity 0)),
            public_seed_status,
          )
            ∷ (public && is_none m.publication_approved_at, public_seed_approval)
            ∷ (
              m.visibility == MemoryVisibility.shareable && ltb 1 m.sensitivity,
              shareable_sensitivity,
            )
            ∷ (
              tombstoned && (is_some m.statement || is_some m.reason_to_remember),
              tombstone_content,
            )
            ∷ (
              tombstoned
                  && (not (is_empty m.interpretation_limits) || is_some m.normalized_fingerprint),
              tombstone_derivatives,
            )
            ∷ (
              not tombstoned && (blank m.statement || blank m.reason_to_remember),
              content_required,
            )
            ∷ (
              not (same_presence m.publication_approved_at m.publication_approved_by_actor_id),
              approval_pair,
            )
            ∷ (
              m.content_protection == ContentProtection.plaintext && is_some m.content_key_id,
              plaintext_key,
            )
            ∷ (
              m.content_protection != ContentProtection.plaintext && is_none m.content_key_id,
              protected_key,
            )
            ∷ (
              m.content_protection == ContentProtection.cryptographically_erased && not tombstoned,
              erased_status,
            )
            ∷ (
              ltb 32 (length m.interpretation_limits) || not (all_unique m.interpretation_limits),
              limits_invalid,
            )
            ∷ (ltb 128 (properties m.metadata), too_many_properties)
            ∷ [])

  -- `MemoryStateV2.validate_candidate_expiry`
  unfoldable pub expiry_checks : Option Time → Checks
  expiry_checks expires =
      let candidate = m.status == MemoryStatus.candidate in
      (candidate && is_none expires, candidate_deadline)
      ∷ (candidate && holds (λ t. leb t m.created_at) expires, deadline_order)
      ∷ (not candidate && is_some expires, deadline_forbidden)
      ∷ []

  -- The field types of `MemoryStateV3` and its `validate_state_shape`.
  unfoldable pub sealed_checks : SealedContentEnvelopeState → Checks
  unfolding scope_checks
  sealed_checks e =
      require (is_none m.statement)
      ∷ require (is_none m.reason_to_remember)
      ∷ require (m.content_protection != ContentProtection.plaintext)
      ∷ require (is_some m.content_key_id)
      ∷ (ltb m.updated_at m.created_at, update_order)
      ∷ (before m.valid_to m.valid_from, validity_order)
      ∷ (scope_checks
          ++ (m.visibility == MemoryVisibility.public_seed, sealed_public_seed)
            ∷ (
              m.visibility == MemoryVisibility.shareable && ltb 1 m.sensitivity,
              shareable_sensitivity,
            )
            ∷ (
              m.content_protection == ContentProtection.cryptographically_erased
                  && m.status != MemoryStatus.tombstoned,
              erased_status,
            )
            ∷ (not (holds (λ k. nat_eq k e.content_key_id) m.content_key_id), sealed_key)
            ∷ (
              not (is_empty m.interpretation_limits)
                  || is_some m.normalized_fingerprint
                  || not (nat_eq (properties m.metadata) 0),
              sealed_derivatives,
            )
            ∷ (
              not (same_presence m.publication_approved_at m.publication_approved_by_actor_id),
              approval_pair,
            )
            ∷ [])

abbrev is_base64_char : ℕ → Bool
is_base64_char c =
    leb b'A' c && leb c b'Z'
    || leb b'a' c && leb c b'z'
    || leb b'0' c && leb c b'9'
    || c == b'+'
    || c == b'/'

-- A full match of `CanonicalBase64`: groups of four characters, the last of which may be padded.
unfoldable is_base64 : Text → Bool
is_base64 [] = true
is_base64 (a ∷ b ∷ c ∷ d ∷ rest) =
    let others = is_base64 rest in
    is_base64_char a
    && is_base64_char b
    && (is_base64_char c && is_base64_char d && others
        || is_empty rest && d == b'=' && (is_base64_char c || c == b'='))
is_base64 _ = false

-- The text decodes to bytes of an admitted number, and is their encoding.
abbrev is_encoding : ContentPlatform → (ℕ → Bool) → Text → Bool
is_encoding p sized s = holds (λ b. p.b64encode b == s && sized (length b)) (p.b64decode s)

-- `SealedContentEnvelopeState`. 1024 characters have at most 4096 bytes in UTF-8.
unfoldable pub envelope_checks : ContentPlatform → SealedContentEnvelopeState → Checks
unfolding is_base64
envelope_checks p e =
    require (is_uuid7 e.content_key_id)
    ∷ require (is_hex_digest e.aad_sha256)
    ∷ require (is_base64 e.nonce)
    ∷ require (is_base64 e.ciphertext)
    ∷ require (is_encoding p (λ n. nat_eq n 12) e.nonce)
    ∷ require (is_encoding p (λ n. leb 17 n && leb n 716816) e.ciphertext)
    ∷ require (sized 1 1024 e.safe_summary)
    ∷ require (not (all p.is_space e.safe_summary))
    ∷ []

module _ (p : ContentPlatform) (m : MemoryState) where
  version_checks : StateVersion → Checks
  unfolding state_checks expiry_checks sealed_checks envelope_checks
  version_checks v1 = state_checks m
  version_checks (v2 t) = state_checks m ++ expiry_checks m t
  version_checks (v3 t e) = envelope_checks p e ++ sealed_checks m e ++ expiry_checks m t

  unfoldable pub memory_checks : Checks
  unfolding memory_field_checks version_checks
  memory_checks = memory_field_checks m ++ version_checks m.version
