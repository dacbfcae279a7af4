-- ===== src/Documents/Versions.antt =====
-- Signature fields, the versions of a document's file, and the removal of a document.
pub mod Numbering
use pexlo_portal.Prelude.{
  ℕ, ◌+◌, Bool, true, false, not, Option, none, some, List, [], ◌∷◌, ◌++◌, ◌==◌, ◌&&◌, ◌||◌,
  if◌then◌else◌, map, find_first, find_many, delete_where, any, or_else,
}
use Prim.Native.String.{String}
use pexlo_portal.Service.{
  Action, pure, throw_if, gets, or_throw, modify, transaction, not_found, bad_request, ◌>>=◌, ◌>>◌,
}
use pexlo_portal.Documents.State.{
  DocumentStatus, pending, voided, expired, Document, FieldType, signature, SignatureField,
  DocumentResponse, DocumentVersion, StorageKey, version_file, FileRow, AccessToken, AuditEvent,
  Store, is_draft, find_document, update_document, log, AuditAction,
}
use pexlo_portal.Documents.Lifecycle.{or_null}
use pexlo_portal.Documents.Verdict.{responses_of}
use pexlo_portal.Documents.Embedding.{Mime, pdf, same_key, upload}
use pexlo_portal.Documents.Signing.{rollback}

pub record FieldInput : Type 0 where
  pub page_number : ℕ
  pub area : ℕ
  pub type : Option FieldType
  pub label : Option String
  pub required : Option Bool
  pub signer_order : Option ℕ
  pub assigned_to : Option ℕ

-- A field of the request under the identifier that the database gives it.
abbrev pub new_field : ℕ → ℕ × FieldInput → SignatureField
new_field id (new_id, f) = record {
  id = new_id;
  document_id = id;
  page_number = f.page_number;
  area = f.area;
  type = or_else f.type signature;
  label = or_null f.label;
  required = or_else f.required true;
  signer_order = or_else f.signer_order 0;
  assigned_to = f.assigned_to;
}

unfoldable pub set_signature_fields : ℕ → ℕ → List (ℕ × FieldInput) → Action Store (Unit {0})
unfolding find_document
set_signature_fields id org inputs = do
  doc ← find_document id org
  throw_if (not (is_draft doc.status)) bad_request
  modify (λ s. record s {
    fields =
        delete_where (λ (f : SignatureField). f.document_id == id) s.fields
        ++ map (new_field id) inputs;
  })

-- The statuses of documents that take no new version.
abbrev pub is_closed : DocumentStatus → Bool
is_closed voided = true
is_closed expired = true
is_closed _ = false

abbrev pub is_pdf : Mime → Bool
is_pdf pdf = true
is_pdf _ = false

abbrev pub image_keys : List DocumentResponse → List StorageKey
image_keys [] = []
image_keys (r ∷ rs) = elim r.signature_image_key [
  | none ↦ image_keys rs
  | some k ↦ k ∷ image_keys rs
]

abbrev pub find_file : Option ℕ → List FileRow → Option FileRow
find_file none files = none
find_file (some id) files = find_first (λ (f : FileRow). f.id == id) files

abbrev pub key_of : Option FileRow → List StorageKey
key_of none = []
key_of (some f) = elim f.storage_key [ none ↦ [] | some k ↦ k ∷ [] ]

abbrev pub delete_file : Option FileRow → List FileRow → List FileRow
delete_file none files = files
delete_file (some old) files = delete_where (λ (f : FileRow). f.id == old.id) files

-- The blobs that the replaced responses and the replaced signed file leave behind.
abbrev pub orphaned_keys : Document → List DocumentResponse → List FileRow → List StorageKey
orphaned_keys doc rs files =
    (if not (is_draft doc.status) then image_keys rs else [])
    ++ key_of (find_file doc.signed_file_id files)

abbrev pub delete_blobs : List StorageKey → Store → Store
delete_blobs keys s = record s { blobs = delete_where (λ b. any (same_key b.0) keys) s.blobs }

-- Both operations on versions end so: the responses to a sent document go, the signed file goes,
-- and the document points to the new file and is pending again.
abbrev pub reset_responses : Document → ℕ → Store → Store
reset_responses doc id s =
    if not (is_draft doc.status)
    then record s {
      responses = delete_where (λ (r : DocumentResponse). r.document_id == id) s.responses;
    }
    else s

abbrev pub point_to : Document → ℕ → Document → Document
point_to doc file d = record d {
  file_id = file;
  current_version = doc.current_version + 1;
  signed_file_id = none;
  status = if not (is_draft doc.status) then pending else d.status;
}

unfoldable pub replace_file : Document → ℕ → ℕ → Store → Store
unfolding update_document
replace_file doc id file s =
    let signed_file = find_file doc.signed_file_id s.files in
    let s' = reset_responses doc id s in
    update_document id (point_to doc file) (record s' { files = delete_file signed_file s'.files })

abbrev pub old_version : Document → ℕ → ℕ → ℕ → DocumentVersion
old_version doc new_id id user = record {
  id = new_id;
  document_id = id;
  file_id = doc.file_id;
  version = doc.current_version;
  uploaded_by_id = user;
}

abbrev pub add_version : DocumentVersion → Store → Store
add_version v s = record s { versions = s.versions ++ v ∷ [] }

pub record FileUpload : Type 0 where
  pub content : ℕ
  pub mime : Mime

-- The transaction of `uploadVersion` returns the keys of the blobs to delete.
unfoldable pub upload_version_transaction :
    ℕ → ℕ → ℕ → FileUpload → ℕ → ℕ → ℕ → Action Store (List StorageKey)
unfolding find_document upload replace_file
upload_version_transaction id org user file now new_file new_version = transaction rollback (do
  doc ← find_document id org
  throw_if (is_closed doc.status) bad_request
  throw_if (doc.requires_signature && not (is_pdf file.mime)) bad_request
  let key = version_file org doc.project_id id (doc.current_version + 1) now
  upload key file.content
  modify (add_version (old_version doc new_version id doc.uploaded_by_id))
  let row : FileRow = record {
    id = new_file;
    storage_key = some key;
    project_id = doc.project_id;
    organization_id = org;
    uploaded_by_id = user;
  }
  modify (λ s. record s { files = s.files ++ row ∷ [] })
  keys ← gets (λ s. orphaned_keys doc (responses_of id s) s.files)
  modify (replace_file doc id new_file)
  pure keys)

unfoldable pub upload_version : ℕ → ℕ → ℕ → FileUpload → ℕ → ℕ → ℕ → Action Store (Unit {0})
unfolding upload_version_transaction log
upload_version id org user file now new_file new_version = do
  keys ← upload_version_transaction id org user file now new_file new_version
  modify (delete_blobs keys)
  modify (log id AuditAction.version_uploaded (some user))

unfoldable pub restore_version_transaction : ℕ → ℕ → ℕ → ℕ → ℕ → Action Store (List StorageKey)
unfolding find_document replace_file
restore_version_transaction id version_id org user new_version = transaction rollback (do
  doc ← find_document id org
  throw_if (is_closed doc.status) bad_request
  versions ← gets (λ s. s.versions)
  target ←
      or_throw
        (find_first (λ (v : DocumentVersion). v.id == version_id && v.document_id == id) versions)
        not_found
  modify (add_version (old_version doc new_version id user))
  keys ← gets (λ s. orphaned_keys doc (responses_of id s) s.files)
  modify (replace_file doc id target.file_id)
  pure keys)

unfoldable pub restore_version : ℕ → ℕ → ℕ → ℕ → ℕ → Action Store (Unit {0})
unfolding restore_version_transaction log
restore_version id version_id org user new_version = do
  keys ← restore_version_transaction id version_id org user new_version
  modify (delete_blobs keys)
  modify (log id AuditAction.version_restored (some user))

abbrev pub versions_of : ℕ → Store → List DocumentVersion
versions_of id s = find_many (λ (v : DocumentVersion). v.document_id == id) s.versions

abbrev pub version_keys : List DocumentVersion → List FileRow → List StorageKey
version_keys [] files = []
version_keys (v ∷ vs) files = key_of (find_file (some v.file_id) files) ++ version_keys vs files

-- The document with the rows that the database deletes with it, and its files.
abbrev pub delete_document : Document → ℕ → Store → Store
delete_document doc id s = record s {
  documents = delete_where (λ (d : Document). d.id == id) s.documents;
  fields = delete_where (λ (f : SignatureField). f.document_id == id) s.fields;
  responses = delete_where (λ (r : DocumentResponse). r.document_id == id) s.responses;
  versions = delete_where (λ (v : DocumentVersion). v.document_id == id) s.versions;
  tokens = delete_where (λ (t : AccessToken). t.document_id == id) s.tokens;
  audit = delete_where (λ (e : AuditEvent). e.document_id == id) s.audit;
  files =
      delete_where
        (λ (f : FileRow).
          f.id == doc.file_id
          || elim doc.signed_file_id [ none ↦ false | some g ↦ f.id == g ]
          || any (λ (v : DocumentVersion). f.id == v.file_id) (versions_of id s))
        s.files;
}

unfoldable pub remove : ℕ → ℕ → Action Store (Unit {0})
unfolding find_document
remove id org = do
  doc ← find_document id org
  keys ← gets (λ s.
      key_of (find_file (some doc.file_id) s.files)
      ++ key_of (find_file doc.signed_file_id s.files)
      ++ image_keys (responses_of id s)
      ++ version_keys (versions_of id s) s.files)
  modify (delete_document doc id)
  modify (delete_blobs keys)
