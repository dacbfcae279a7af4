-- ===== src/Documents/Signing.antt =====
-- `sign`: one signer fills one field, in a transaction that holds the document's row.
pub mod Checks
pub mod Filling
pub mod Transaction
pub mod Turns
pub mod Sound
use pexlo_portal.Prelude.{
  ℕ, ◌*◌, Bool, true, false, not, Option, none, some, List, [], ◌∷◌, ◌++◌, ◌==◌, ◌&&◌,
  if◌then◌else◌, find_first, find_many, delete_where, any, every, leb, ltb, is_some, same_option,
  or_else,
}
use Prim.Native.String
use Prim.Native.String.{String}
use pexlo_portal.Service.{
  Action, pure, throw_if, gets, or_throw, modify, transaction, bad_request, forbidden,
  storage_error, pdf_error, range_error, ◌>>=◌, ◌>>◌,
}
use pexlo_portal.Documents.State.{
  DocumentStatus, draft, signed, voided, expired, Document, FieldType, date, text, select, initials,
  SignatureField, ResponseAction, DocumentResponse, StorageKey, uploaded, signature_image,
  signed_pdf, version_file, FileRow, Role, owner, admin, member, Store, find_document,
  update_document, log, notify, is_client, AuditAction, document_signing_turn, User,
}
use pexlo_portal.Documents.Lifecycle.{or_null}
use pexlo_portal.Documents.Verdict.{is_past, signs, fields_of, responses_of, update_document_status}
use pexlo_portal.Documents.Embedding.{
  Mime, SignatureUpload, SignRequest, Rendering, same_key, put_blob, upload, download, signer_name,
  join, caption, max_signable_pdf_bytes, open_source, signed_response, drop_old_file,
  set_signed_file, record_signature, embed_text, is_image, embed_image,
}

-- A failed transaction keeps nothing of the database and all of the object storage.
abbrev pub rollback : Store → Store → Store
rollback before after = record before { blobs = after.blobs }

abbrev pub is_admin : Role → Bool
is_admin owner = true
is_admin admin = true
is_admin member = false

abbrev pub sign_blocked : DocumentStatus → Bool
sign_blocked draft = true
sign_blocked voided = true
sign_blocked expired = true
sign_blocked signed = true
sign_blocked _ = false

-- `f.signerOrder > 0 && f.signerOrder < field.signerOrder`
abbrev pub precedes : SignatureField → SignatureField → Bool
precedes field f = ltb 0 f.signer_order && ltb f.signer_order field.signer_order

-- With signing order on, every field of an earlier order has been signed by somebody.
abbrev pub turn_reached : Document → SignatureField → Store → Bool
turn_reached doc field s =
    if doc.signing_order_enabled && ltb 0 field.signer_order
    then every (λ (f : SignatureField). any (signs f.id) (responses_of doc.id s))
        (find_many (precedes field) (fields_of doc.id s))
    else true

abbrev pub has_signed : ℕ → ℕ → ℕ → DocumentResponse → Bool
has_signed id user field r =
    r.document_id == id && r.user_id == user && same_option r.field_id (some field)

abbrev pub assigned_elsewhere : Option ℕ → ℕ → Bool
assigned_elsewhere none user = false
assigned_elsewhere (some u) user = not (u == user)

-- The checks of `sign`, in their order: first of the document,
unfoldable pub check_document : ℕ → ℕ → ℕ → Action Store Document
unfolding find_document
check_document id org now = do
  doc ← find_document id org
  throw_if (not doc.requires_signature) bad_request
  throw_if (sign_blocked doc.status) bad_request
  throw_if (is_past doc.expires_at now) bad_request
  pure doc

-- then of the field, the signer and the turn.
unfoldable pub check_field : Document → ℕ → ℕ → Role → ℕ → Action Store SignatureField
unfolding is_client
check_field doc id user role field_id = do
  fields ← gets (fields_of id)
  field ← or_throw (find_first (λ (f : SignatureField). f.id == field_id) fields) bad_request
  assigned ← gets (is_client doc.project_id user)
  throw_if (not (is_admin role) && not assigned) forbidden
  previous ← gets (λ s. find_first (has_signed id user field_id) s.responses)
  throw_if (is_some previous) bad_request
  ready ← gets (turn_reached doc field)
  throw_if (not ready) bad_request
  throw_if (assigned_elsewhere field.assigned_to user) forbidden
  pure field

-- The body of the transaction, by the type of the field.
unfoldable pub fill_field :
    Rendering
    → Document
    → SignatureField
    → FieldType
    → Option SignatureUpload
    → ℕ
    → ℕ
    → ℕ
    → SignRequest
    → ℕ
    → ℕ
    → ℕ
    → Action Store (Unit {0})
fill_field lib doc field date file id user org dto now new_file new_response = do
  day ← or_throw (lib.format_date now (or_null dto.timezone)) range_error
  embed_text lib doc field day id user org dto now new_file new_response
fill_field lib doc field text file id user org dto now new_file new_response = do
  value ← or_throw (or_null dto.text_value) bad_request
  embed_text lib doc field value id user org dto now new_file new_response
fill_field lib doc field select file id user org dto now new_file new_response = do
  value ← or_throw (or_null dto.text_value) bad_request
  embed_text lib doc field value id user org dto now new_file new_response
fill_field lib doc field _ file id user org dto now new_file new_response =
    embed_image lib doc field file id user org dto now new_file new_response

unfoldable pub sign_transaction :
    Rendering
    → ℕ
    → ℕ
    → ℕ
    → Role
    → SignRequest
    → Option SignatureUpload
    → ℕ
    → ℕ
    → ℕ
    → Action Store (Unit {0})
sign_transaction lib id user org role dto file now new_file new_response = transaction rollback (do
  doc ← check_document id org now
  field ← check_field doc id user role dto.field_id
  fill_field lib doc field field.type file id user org dto now new_file new_response)

-- The unsigned fields that have an order, the earliest first; the sort is stable.
abbrev pub insert_by_order : SignatureField → List SignatureField → List SignatureField
insert_by_order f [] = f ∷ []
insert_by_order f (g ∷ gs) =
    if ltb g.signer_order f.signer_order then g ∷ insert_by_order f gs else f ∷ g ∷ gs

abbrev pub sort_by_order : List SignatureField → List SignatureField
sort_by_order [] = []
sort_by_order (f ∷ fs) = insert_by_order f (sort_by_order fs)

unfoldable pub next_fields : ℕ → Store → List SignatureField
next_fields id s = sort_by_order (
    find_many
      (λ (f : SignatureField). ltb 0 f.signer_order && not (any (signs f.id) (responses_of id s)))
      (fields_of id s))

abbrev notify_first : ℕ → List SignatureField → Store → Store
notify_first id [] s = s
notify_first id (f ∷ fs) s = elim f.assigned_to [
  | none ↦ s
  | some user ↦ notify (document_signing_turn id user) s
]

unfoldable pub notify_next_signer : ℕ → Store → Store
unfolding next_fields notify
notify_next_signer id s = elim (find_first (λ (d : Document). d.id == id) s.documents) [
  | none ↦ s
  | some doc ↦ if doc.signing_order_enabled then notify_first id (next_fields id s) s else s
]

unfoldable pub sign :
    Rendering
    → ℕ
    → ℕ
    → ℕ
    → Role
    → SignRequest
    → Option SignatureUpload
    → ℕ
    → ℕ
    → ℕ
    → Action Store (Unit {0})
unfolding log
sign lib id user org role dto file now new_file new_response = do
  sign_transaction lib id user org role dto file now new_file new_response
  modify (update_document_status id)
  modify (log id (AuditAction.responded ResponseAction.signed) (some user))
  modify (notify_next_signer id)
