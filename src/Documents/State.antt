-- ===== src/Documents/State.antt =====
-- The tables of packages/database/prisma/schema.prisma that the documents service reads and
-- writes, with the object storage, the audit trail and the notifications sent.
-- Identifiers are numbers that are only compared; a date is its milliseconds.
use pexlo_portal.Prelude.{
  ℕ, Bool, true, false, Option, none, some, List, [], ◌∷◌, ◌++◌, ◌==◌, ◌&&◌, find_first,
  update_where,
}
use Prim.Native.String.{String}
use pexlo_portal.Service.{Action, or_throw, not_found}

pub data DocumentStatus : Type 0 where
  draft pending accepted declined acknowledged signed voided expired : DocumentStatus

pub data DocumentType : Type 0 where
  quote contract proposal nda other : DocumentType

-- The actions that a response can hold; `unlisted` is any other text in a request.
pub data ResponseAction : Type 0 where
  accepted declined acknowledged signed unlisted : ResponseAction

pub data FieldType : Type 0 where
  signature initials date text select : FieldType

pub data Role : Type 0 where
  owner admin member : Role

-- The keys under which blobs are stored, by the template that builds them.
pub data StorageKey : Type 0 where
  uploaded : ℕ → StorageKey
  signature_image : (org project document user field : ℕ) → StorageKey
  signed_pdf : (org project document : ℕ) → StorageKey
  version_file : (org project document version time : ℕ) → StorageKey

pub record Document : Type 0 where
  pub id : ℕ
  pub type : DocumentType
  pub title : String
  pub file_id : ℕ
  pub project_id : ℕ
  pub organization_id : ℕ
  pub uploaded_by_id : ℕ
  pub status : DocumentStatus
  pub requires_signature : Bool
  pub requires_approval : Bool
  pub signed_file_id : Option ℕ
  pub sent_at : Option ℕ
  pub voided_at : Option ℕ
  pub voided_by_id : Option ℕ
  pub void_reason : Option String
  pub expires_at : Option ℕ
  pub reminder_enabled : Bool
  pub reminder_interval_days : ℕ
  pub last_reminder_at : Option ℕ
  pub signing_order_enabled : Bool
  pub options : Option String
  pub current_version : ℕ

-- The area of a field on its page is only copied and handed to the PDF library.
pub record SignatureField : Type 0 where
  pub id : ℕ
  pub document_id : ℕ
  pub page_number : ℕ
  pub area : ℕ
  pub type : FieldType
  pub label : Option String
  pub required : Bool
  pub signer_order : ℕ
  pub assigned_to : Option ℕ

pub record DocumentResponse : Type 0 where
  pub id : ℕ
  pub document_id : ℕ
  pub user_id : ℕ
  pub action : ResponseAction
  pub reason : Option String
  pub signature_image_key : Option StorageKey
  pub signature_method : Option String
  pub signed_at : Option ℕ
  pub field_id : Option ℕ
  pub text_value : Option String

pub record DocumentVersion : Type 0 where
  pub id : ℕ
  pub document_id : ℕ
  pub file_id : ℕ
  pub version : ℕ
  pub uploaded_by_id : ℕ

pub record AccessToken : Type 0 where
  pub id : ℕ
  pub document_id : ℕ
  pub user_id : ℕ
  pub token : ℕ
  pub expires_at : ℕ
  pub used_at : Option ℕ
  pub revoked_at : Option ℕ

pub record FileRow : Type 0 where
  pub id : ℕ
  pub storage_key : Option StorageKey
  pub project_id : ℕ
  pub organization_id : ℕ
  pub uploaded_by_id : ℕ

pub record Project : Type 0 where
  pub id : ℕ
  pub organization_id : ℕ

pub record User : Type 0 where
  pub id : ℕ
  pub name : String

-- A row of `projectClient`: the user is a client on the project.
pub record ProjectClient : Type 0 where
  pub project_id : ℕ
  pub user_id : ℕ

pub data AuditAction : Type 0 where
  created sent voided viewed downloaded expired reminder_sent version_uploaded version_restored :
      AuditAction
  responded : ResponseAction → AuditAction

pub record AuditEvent : Type 0 where
  pub document_id : ℕ
  pub action : AuditAction
  pub user_id : Option ℕ

pub data Notice : Type 0 where
  document_uploaded document_reminder : (document : ℕ) → Notice
  document_responded : (document : ℕ) (user : Option ℕ) → ResponseAction → Notice
  document_signing_turn : (document user : ℕ) → Notice

pub record Store : Type 0 where
  pub documents : List Document
  pub fields : List SignatureField
  pub responses : List DocumentResponse
  pub versions : List DocumentVersion
  pub tokens : List AccessToken
  pub files : List FileRow
  pub projects : List Project
  pub clients : List ProjectClient
  pub users : List User
  pub blobs : List (StorageKey × ℕ)
  pub audit : List AuditEvent
  pub notices : List Notice

abbrev pub is_draft : DocumentStatus → Bool
is_draft draft = true
is_draft _ = false

abbrev pub is_pending : DocumentStatus → Bool
is_pending pending = true
is_pending _ = false

-- `where: { id, organizationId: orgId }`
abbrev pub owned : ℕ → ℕ → Document → Bool
owned id org d = d.id == id && d.organization_id == org

unfoldable pub find_document : ℕ → ℕ → Action Store Document
find_document id org s = or_throw (find_first (owned id org) s.documents) not_found s

-- `document.update({ where: { id }, data })`
unfoldable pub update_document : ℕ → (Document → Document) → Store → Store
update_document id f s = record s { documents = update_where (λ d. d.id == id) f s.documents }

-- `auditService.log`, and the notifications service.
unfoldable pub log : ℕ → AuditAction → Option ℕ → Store → Store
log id action user s = record s {
  audit = s.audit ++ record { document_id = id; action = action; user_id = user } ∷ [];
}

unfoldable pub notify : Notice → Store → Store
notify n s = record s { notices = s.notices ++ n ∷ [] }

-- A client of the project, `projectClient.findFirst({ where: { projectId, userId } })`.
unfoldable pub is_client : ℕ → ℕ → Store → Bool
is_client project user s =
    elim (find_first (λ (c : ProjectClient). c.project_id == project && c.user_id == user)
      s.clients) [ none ↦ false | some c ↦ true ]
