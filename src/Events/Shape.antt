-- ===== src/Events/Shape.antt =====
-- domain/events.py: what the validators of the after-images share. A validator is the list of the
-- checks that it makes, in the source's order.
pub mod Memory
pub mod Parts
use scalevault.Prelude.{
  ℕ, suc, ◌+◌, ◌-◌, ◌^◌, ◌%◌, ◌*◌, ◌/◌, Bool, true, false, ◌&&◌, ◌||◌, not, Option, none, some,
  List, [], ◌∷◌, ◌++◌, Result, raise_first, leb, ltb, nat_eq, ◌==◌, ◌!=◌, elem, any, all,
  all_unique, length, is_empty, is_some, is_none, holds, Text, list_Eq, nat_Eq, if◌then◌else◌,
}
use mathlib.Core.Bool.{xor}
use scalevault.Domain.Identifiers.{Uuid, is_uuid7}
use scalevault.Domain.Enums.{
  OntologicalStatus, MemoryScope, MemoryVisibility, MemoryStatus, ontological_status_Eq,
  memory_scope_Eq, memory_visibility_Eq, memory_status_Eq,
}
use scalevault.Domain.Operations.{AuthorityClass, SubjectKind, authority_class_Eq, subject_kind_Eq}
use scalevault.Domain.Constraints.Matrix.{category_ontology_compatibility}
use scalevault.Domain.CanonicalJson.{Fields, done, field}
use scalevault.Events.States.{
  MemoryState, ContentProtection, content_protection_Eq, StateVersion, v1, v2, v3,
  SealedContentEnvelopeState, EvidenceState, LinkState, LinkStatus, ConflictState, ConflictStatus,
  ConflictMemberState, BranchState, Time, candidate_expires_at,
}

pub data ShapeError : Type 0 where
  field_invalid validity_order update_order category_ontology scope_subject : ShapeError
  global_roleplay episodic_origin scene_origin scene_visibility public_seed_status : ShapeError
  public_seed_approval shareable_sensitivity tombstone_content tombstone_derivatives : ShapeError
  content_required approval_pair plaintext_key protected_key erased_status : ShapeError
  limits_invalid too_many_properties candidate_deadline deadline_order deadline_forbidden :
      ShapeError
  sealed_public_seed sealed_key sealed_derivatives self_link unlinked_time : ShapeError
  resolution_missing resolution_present parent_pair self_parent too_few_members : ShapeError
  foreign_member duplicate_evidence_id : ShapeError

abbrev pub Checks : Type 0
Checks = List (Bool × ShapeError)

-- `b` must hold.
abbrev pub require : Bool → Bool × ShapeError
require b = (not b, field_invalid)

abbrev pub safe_positive : ℕ → Bool
safe_positive n = leb 1 n && leb n (2 ^ 53 - 1)

abbrev pub sized : ℕ → ℕ → Text → Bool
sized lo hi s = leb lo (length s) && leb (length s) hi

-- A check on the value of an option, if there is one.
abbrev pub optional {ℓ} : {A : Type ℓ} → (A → Bool) → Option A → Bool
optional p none = true
optional p (some a) = p a

abbrev pub is_hex_digit : ℕ → Bool
is_hex_digit c = leb b'0' c && leb c b'9' || leb b'a' c && leb c b'f'

-- `HexDigest`
abbrev pub is_hex_digest : Text → Bool
is_hex_digest s = nat_eq (length s) 64 && all is_hex_digit s

-- `len` of a dict
abbrev pub properties : Fields → ℕ
properties done = 0
properties (field k x fs) = suc (properties fs)

-- `not s`, for an optional text
abbrev pub blank : Option Text → Bool
blank none = true
blank (some s) = is_empty s

-- `(a is None) == (b is None)`
abbrev pub same_presence {ℓ κ} : {A : Type ℓ} {B : Type κ} → Option A → Option B → Bool
same_presence none none = true
same_presence (some _) (some _) = true
same_presence _ _ = false

abbrev pub is_unlinked : LinkStatus → Bool
is_unlinked LinkStatus.active = false
is_unlinked LinkStatus.unlinked = true

abbrev pub is_resolved : ConflictStatus → Bool
is_resolved ConflictStatus.opened = false
is_resolved ConflictStatus.resolved = true

-- What the code calls of Python: `base64.b64decode(_, validate=True)`, `base64.b64encode`
-- and `str.isspace`.
pub record ContentPlatform : Type 0 where
  pub b64decode : Text → Option (List ℕ)
  pub b64encode : List ℕ → Text
  pub is_space : ℕ → Bool
