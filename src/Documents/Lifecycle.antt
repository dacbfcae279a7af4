-- ===== src/Documents/Lifecycle.antt =====
-- Creating, sending and voiding a document, and reading it.
use pexlo_portal.Prelude.{
  ℕ, ◌+◌, ◌*◌, Bool, true, false, not, Option, none, some, [], ◌∷◌, ◌++◌, ◌==◌, ◌&&◌, if◌then◌else◌,
  or_else, find_first, count, is_some,
}
use Prim.Native.String.{String}
use text.Mathlib.Text.{◌==◌ as str_eq}
use pexlo_portal.Service.{
  Action, pure, throw_if, gets, or_throw, modify, not_found, bad_request, ◌>>=◌, ◌>>◌,
}
use pexlo_portal.Documents.State.{
  DocumentStatus, draft, pending, voided, DocumentType, Document, AuditAction, viewed, AuditEvent,
  Store, is_draft, find_document, update_document, log, notify, document_uploaded, Project,
  SignatureField,
}

-- The columns of `CreateDocumentDto` that the service reads.
pub record CreateDocument : Type 0 where
  pub type : DocumentType
  pub title : String
  pub project_id : ℕ
  pub requires_signature : Option Bool
  pub requires_approval : Option Bool
  pub options : Option String
  pub signing_order_enabled : Option Bool
  pub reminder_enabled : Option Bool
  pub reminder_interval_days : Option ℕ

-- `text || null`
abbrev pub or_null : Option String → Option String
or_null none = none
or_null (some t) = if str_eq t "" then none else some t

abbrev pub new_document : CreateDocument → ℕ → ℕ → ℕ → ℕ → Document
new_document dto file org user new_id = record {
  id = new_id;
  type = dto.type;
  title = dto.title;
  file_id = file;
  project_id = dto.project_id;
  organization_id = org;
  uploaded_by_id = user;
  status = draft;
  requires_signature = or_else dto.requires_signature false;
  requires_approval = or_else dto.requires_approval false;
  signed_file_id = none;
  sent_at = none;
  voided_at = none;
  voided_by_id = none;
  void_reason = none;
  expires_at = none;
  reminder_enabled = or_else dto.reminder_enabled false;
  reminder_interval_days = or_else dto.reminder_interval_days 3;
  last_reminder_at = none;
  signing_order_enabled = or_else dto.signing_order_enabled false;
  options = or_null dto.options;
  current_version = 1;
}

-- `new_id` is the identifier that the database generates.
unfoldable pub create : CreateDocument → ℕ → ℕ → ℕ → ℕ → Action Store Document
unfolding log
create dto file org user new_id = do
  projects ← gets (λ s. s.projects)
  or_throw
      (find_first (λ (p : Project). p.id == dto.project_id && p.organization_id == org) projects)
      not_found
  let doc = new_document dto file org user new_id
  modify (λ s. record s { documents = s.documents ++ doc ∷ [] })
  modify (log new_id AuditAction.created (some user))
  pure doc

abbrev pub day_ms : ℕ
day_ms = 24 * 60 * 60 * 1000

-- `expiresInDays ? ... : null`: no expiry for 0 days.
abbrev pub expiry : ℕ → Option ℕ → Option ℕ
expiry now none = none
expiry now (some days) = if days == 0 then none else some (now + days * day_ms)

abbrev pub mark_sent : ℕ → Option ℕ → Document → Document
mark_sent now expires d = record d {
  status = pending;
  sent_at = some now;
  expires_at = elim expires [ none ↦ d.expires_at | some e ↦ some e ];
}

unfoldable pub send : ℕ → ℕ → ℕ → Option ℕ → ℕ → Action Store (Unit {0})
unfolding find_document update_document log notify
send id org user expires_in_days now = do
  doc ← find_document id org
  throw_if (not (is_draft doc.status)) bad_request
  placed ← gets (λ s. count (λ (f : SignatureField). f.document_id == id) s.fields)
  throw_if (doc.requires_signature && placed == 0) bad_request
  modify (update_document id (mark_sent now (expiry now expires_in_days)))
  modify (log id AuditAction.sent (some user))
  modify (notify (document_uploaded id))

abbrev pub voidable : DocumentStatus → Bool
voidable draft = true
voidable pending = true
voidable _ = false

abbrev pub mark_voided : ℕ → ℕ → Option String → Document → Document
mark_voided now user reason d = record d {
  status = voided;
  voided_at = some now;
  voided_by_id = some user;
  void_reason = or_null reason;
}

unfoldable pub void_document : ℕ → ℕ → ℕ → Option String → ℕ → Action Store (Unit {0})
unfolding find_document update_document log
void_document id org user reason now = do
  doc ← find_document id org
  throw_if (not (voidable doc.status)) bad_request
  modify (update_document id (mark_voided now user reason))
  modify (log id AuditAction.voided (some user))

abbrev is_view : ℕ → ℕ → AuditEvent → Bool
is_view id user e =
    e.document_id == id
    && elim e.action [ viewed ↦ true | _ ↦ false ]
    && elim e.user_id [ none ↦ false | some u ↦ u == user ]

-- Only the first view of each user is logged.
unfoldable pub track_view : ℕ → ℕ → ℕ → Action Store (Unit {0})
unfolding find_document log
track_view id user org = do
  find_document id org
  seen ← gets (λ s. find_first (is_view id user) s.audit)
  modify (λ s. if is_some seen then s else log id viewed (some user) s)
