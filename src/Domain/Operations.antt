-- ===== src/Domain/Operations.antt =====
-- The vocabularies of events and their surroundings: authority, operations, links, transports and subjects, of domain/enums.py.
-- The tag of a member is its place in the source's order; members are compared by it.
use scalevault.Prelude.{ℕ, ◌≡◌, arith, Eq, tag_Eq}

pub data AuthorityClass : Type 0 where
  explicit_user_correction explicit_user_statement verified_project_source : AuthorityClass
  assistant_observation assistant_interpretation external_source : AuthorityClass
  imported_legacy_memory : AuthorityClass

abbrev pub authority_class_tag : AuthorityClass → ℕ
authority_class_tag AuthorityClass.explicit_user_correction = 0
authority_class_tag AuthorityClass.explicit_user_statement = 1
authority_class_tag AuthorityClass.verified_project_source = 2
authority_class_tag AuthorityClass.assistant_observation = 3
authority_class_tag AuthorityClass.assistant_interpretation = 4
authority_class_tag AuthorityClass.external_source = 5
authority_class_tag AuthorityClass.imported_legacy_memory = 6

pub authority_class_apart :
    (a b : AuthorityClass) → authority_class_tag a ≡ authority_class_tag b → a ≡ b
authority_class_apart a b h = ground arith

instance abbrev pub authority_class_Eq : Eq AuthorityClass
authority_class_Eq = tag_Eq authority_class_tag authority_class_apart

pub data EventOperation : Type 0 where
  observed remembered candidate_promoted candidate_expired revised linked : EventOperation
  conflict_opened conflict_resolved superseded retired tombstoned branch_created : EventOperation
  visibility_changed evidence_attached evidence_redacted unlinked : EventOperation
  payload_purge_completed : EventOperation

abbrev pub event_operation_tag : EventOperation → ℕ
event_operation_tag EventOperation.observed = 0
event_operation_tag EventOperation.remembered = 1
event_operation_tag EventOperation.candidate_promoted = 2
event_operation_tag EventOperation.candidate_expired = 3
event_operation_tag EventOperation.revised = 4
event_operation_tag EventOperation.linked = 5
event_operation_tag EventOperation.conflict_opened = 6
event_operation_tag EventOperation.conflict_resolved = 7
event_operation_tag EventOperation.superseded = 8
event_operation_tag EventOperation.retired = 9
event_operation_tag EventOperation.tombstoned = 10
event_operation_tag EventOperation.branch_created = 11
event_operation_tag EventOperation.visibility_changed = 12
event_operation_tag EventOperation.evidence_attached = 13
event_operation_tag EventOperation.evidence_redacted = 14
event_operation_tag EventOperation.unlinked = 15
event_operation_tag EventOperation.payload_purge_completed = 16

pub event_operation_apart :
    (a b : EventOperation) → event_operation_tag a ≡ event_operation_tag b → a ≡ b
event_operation_apart a b h = ground arith

instance abbrev pub event_operation_Eq : Eq EventOperation
event_operation_Eq = tag_Eq event_operation_tag event_operation_apart

pub data LinkType : Type 0 where
  supports contradicts refines caused_by associated_with supersedes part_of : LinkType
  forked_from : LinkType

abbrev pub link_type_tag : LinkType → ℕ
link_type_tag LinkType.supports = 0
link_type_tag LinkType.contradicts = 1
link_type_tag LinkType.refines = 2
link_type_tag LinkType.caused_by = 3
link_type_tag LinkType.associated_with = 4
link_type_tag LinkType.supersedes = 5
link_type_tag LinkType.part_of = 6
link_type_tag LinkType.forked_from = 7

pub link_type_apart : (a b : LinkType) → link_type_tag a ≡ link_type_tag b → a ≡ b
link_type_apart a b h = ground arith

instance abbrev pub link_type_Eq : Eq LinkType
link_type_Eq = tag_Eq link_type_tag link_type_apart

pub data TransportKind : Type 0 where
  direct_private secure_tunnel relay github_ingress internal_service archive_restore : TransportKind

abbrev pub transport_kind_tag : TransportKind → ℕ
transport_kind_tag TransportKind.direct_private = 0
transport_kind_tag TransportKind.secure_tunnel = 1
transport_kind_tag TransportKind.relay = 2
transport_kind_tag TransportKind.github_ingress = 3
transport_kind_tag TransportKind.internal_service = 4
transport_kind_tag TransportKind.archive_restore = 5

pub transport_kind_apart :
    (a b : TransportKind) → transport_kind_tag a ≡ transport_kind_tag b → a ≡ b
transport_kind_apart a b h = ground arith

instance abbrev pub transport_kind_Eq : Eq TransportKind
transport_kind_Eq = tag_Eq transport_kind_tag transport_kind_apart

pub data SubjectKind : Type 0 where
  global persona relationship project episode scene concept : SubjectKind

abbrev pub subject_kind_tag : SubjectKind → ℕ
subject_kind_tag SubjectKind.global = 0
subject_kind_tag SubjectKind.persona = 1
subject_kind_tag SubjectKind.relationship = 2
subject_kind_tag SubjectKind.project = 3
subject_kind_tag SubjectKind.episode = 4
subject_kind_tag SubjectKind.scene = 5
subject_kind_tag SubjectKind.concept = 6

pub subject_kind_apart : (a b : SubjectKind) → subject_kind_tag a ≡ subject_kind_tag b → a ≡ b
subject_kind_apart a b h = ground arith

instance abbrev pub subject_kind_Eq : Eq SubjectKind
subject_kind_Eq = tag_Eq subject_kind_tag subject_kind_apart
