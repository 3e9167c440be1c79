-- ===== src/Events/States.antt =====
-- domain/events.py: the after-images, as records. A time is its number of microseconds in UTC, a
-- score of type `UnitScore` its number of millionths. Python's `int` fields with a lower bound of 0
-- or 1 are naturals.
use scalevault.Prelude.{ℕ, Bool, Option, none, some, List, Text, is_some, Eq, tag_Eq, ◌≡◌, arith}
use scalevault.Domain.Identifiers.{Uuid}
use scalevault.Domain.Enums.{
  MemoryCategory, OntologicalStatus, MemoryScope, MemoryVisibility, MemoryStatus,
}
use scalevault.Domain.Operations.{AuthorityClass, LinkType, SubjectKind}
use scalevault.Domain.CanonicalJson.{Fields}

abbrev pub Time : Type 0
Time = ℕ

pub data ContentProtection : Type 0 where
  plaintext envelope_encrypted cryptographically_erased : ContentProtection

abbrev pub content_protection_tag : ContentProtection → ℕ
content_protection_tag ContentProtection.plaintext = 0
content_protection_tag ContentProtection.envelope_encrypted = 1
content_protection_tag ContentProtection.cryptographically_erased = 2

pub content_protection_apart :
    (a b : ContentProtection) → content_protection_tag a ≡ content_protection_tag b → a ≡ b
content_protection_apart a b h = ground arith

instance abbrev pub content_protection_Eq : Eq ContentProtection
content_protection_Eq = tag_Eq content_protection_tag content_protection_apart

pub record SealedContentEnvelopeState : Type 0 where
  pub content_key_id : Uuid
  pub nonce : Text
  pub ciphertext : Text
  pub aad_sha256 : Text
  pub safe_summary : Text

-- The class of a memory's after-image, with the fields that the class adds to `MemoryState`.
pub data StateVersion : Type 0 where
  v1 : StateVersion
  v2 : Option Time → StateVersion
  v3 : Option Time → SealedContentEnvelopeState → StateVersion

-- `MemoryState`, `MemoryStateV2` and `MemoryStateV3`.
pub record MemoryState : Type 0 where
  pub memory_id : Uuid
  pub tenant_id : Uuid
  pub lineage_id : Uuid
  pub branch_id : Uuid
  pub subject_id : Uuid
  pub subject_kind : SubjectKind
  pub revision : ℕ
  pub category : MemoryCategory
  pub ontological_status : OntologicalStatus
  pub scope : MemoryScope
  pub visibility : MemoryVisibility
  pub status : MemoryStatus
  pub statement : Option Text
  pub reason_to_remember : Option Text
  pub interpretation_limits : List Text
  pub confidence : ℕ
  pub salience : ℕ
  pub durability : ℕ
  pub sensitivity : ℕ
  pub authority_class : AuthorityClass
  pub valid_from : Option Time
  pub valid_to : Option Time
  pub observed_at : Option Time
  pub origin_session_id : Option Uuid
  pub publication_approved_at : Option Time
  pub publication_approved_by_actor_id : Option Uuid
  pub content_protection : ContentProtection
  pub content_key_id : Option Uuid
  pub created_at : Time
  pub updated_at : Time
  pub fingerprint_version : ℕ
  pub normalized_fingerprint : Option Text
  pub metadata : Fields
  pub version : StateVersion

pub record EvidenceState : Type 0 where
  pub evidence_id : Uuid
  pub tenant_id : Uuid
  pub lineage_id : Uuid
  pub branch_id : Uuid
  pub memory_id : Uuid
  pub source_type : Text
  pub source_reference : Fields
  pub excerpt : Option Text
  pub occurred_at : Option Time
  pub content_sha256 : Option Text
  pub trust_classification : Text
  pub created_at : Time
  pub metadata : Fields

pub data LinkStatus : Type 0 where
  active unlinked : LinkStatus

pub record LinkState : Type 0 where
  pub link_id : Uuid
  pub tenant_id : Uuid
  pub lineage_id : Uuid
  pub branch_id : Uuid
  pub source_memory_id : Uuid
  pub target_memory_id : Uuid
  pub link_type : LinkType
  pub status : LinkStatus
  pub created_at : Time
  pub unlinked_at : Option Time
  pub metadata : Fields

pub record ConflictMemberState : Type 0 where
  pub conflict_id : Uuid
  pub memory_id : Uuid
  pub disposition : Text
  pub joined_at : Time

pub data ConflictStatus : Type 0 where
  opened resolved : ConflictStatus

pub record ConflictState : Type 0 where
  pub conflict_id : Uuid
  pub tenant_id : Uuid
  pub lineage_id : Uuid
  pub branch_id : Uuid
  pub subject_id : Uuid
  pub status : ConflictStatus
  pub reason : Text
  pub resolution_kind : Option Text
  pub resolution_rationale : Option Text
  pub opened_at : Time
  pub resolved_at : Option Time
  pub metadata : Fields

pub record BranchState : Type 0 where
  pub branch_id : Uuid
  pub tenant_id : Uuid
  pub lineage_id : Uuid
  pub parent_branch_id : Option Uuid
  pub fork_event_sequence : Option ℕ
  pub name : Text
  pub visibility_ceiling : MemoryVisibility
  pub created_at : Time
  pub sealed_at : Option Time

abbrev pub sealed_content_of : StateVersion → Option SealedContentEnvelopeState
sealed_content_of v1 = none
sealed_content_of (v2 t) = none
sealed_content_of (v3 t e) = some e

abbrev pub expires_of : StateVersion → Option Time
expires_of v1 = none
expires_of (v2 t) = t
expires_of (v3 t e) = t

-- `isinstance(memory, MemoryStateV3)`
abbrev pub is_v3 : MemoryState → Bool
is_v3 m = is_some (sealed_content_of m.version)

-- `memory.candidate_expires_at`, which the classes from `MemoryStateV2` on have.
abbrev pub candidate_expires_at : MemoryState → Option Time
candidate_expires_at m = expires_of m.version
