-- ===== src/Documents/Embedding.antt =====
-- Drawing a field's content into the file of a document, and the storage of files: `embedTextInPdf`
-- and the part of `sign` that embeds an image.
use pexlo_portal.Prelude.{
  ℕ, ◌*◌, Bool, true, false, not, Option, none, some, List, [], ◌∷◌, ◌++◌, ◌==◌, ◌&&◌, find_first,
  delete_where, leb, ltb, or_else,
}
use Prim.Native.String
use Prim.Native.String.{String}
use pexlo_portal.Service.{
  Action, pure, throw_if, gets, or_throw, modify, bad_request, storage_error, pdf_error,
  range_error, ◌>>=◌, ◌>>◌,
}
use pexlo_portal.Documents.State.{
  Document, FieldType, initials, SignatureField, ResponseAction, DocumentResponse, StorageKey,
  uploaded, signature_image, signed_pdf, version_file, FileRow, Store, update_document, User,
}
use pexlo_portal.Documents.Lifecycle.{or_null}

pub data Mime : Type 0 where
  png jpeg pdf other : Mime

pub record SignatureUpload : Type 0 where
  pub content : ℕ
  pub mime : Mime

pub record SignRequest : Type 0 where
  pub method : String
  pub field_id : ℕ
  pub timezone : Option String
  pub text_value : Option String

-- The PDF library and the runtime's date formatting, over contents that are only named. `none` is
-- a content that does not load, a text with a character that the font does not have, an image that
-- cannot be embedded, or a time zone that is unknown.
pub record Rendering : Type 0 where
  pub size : ℕ → ℕ
  pub page_count : ℕ → Option ℕ
  pub draw_text : ℕ → SignatureField → String → Option ℕ
  pub embed : SignatureUpload → Option ℕ
  pub draw_image : ℕ → SignatureField → ℕ → String → Option ℕ
  pub format_date : ℕ → Option String → Option String

abbrev pub same_key : StorageKey → StorageKey → Bool
same_key (uploaded a) (uploaded b) = a == b
same_key (signature_image o p d u f) (signature_image o' p' d' u' f') =
    o == o' && p == p' && d == d' && u == u' && f == f'
same_key (signed_pdf o p d) (signed_pdf o' p' d') = o == o' && p == p' && d == d'
same_key (version_file o p d v t) (version_file o' p' d' v' t') =
    o == o' && p == p' && d == d' && v == v' && t == t'
same_key _ _ = false

-- An upload replaces what is stored under the key.
abbrev pub put_blob : StorageKey → ℕ → Store → Store
put_blob key content s = record s {
  blobs = (key, content) ∷ delete_where (λ b. same_key b.0 key) s.blobs;
}

unfoldable pub upload : StorageKey → ℕ → Action Store (Unit {0})
upload key content = modify (put_blob key content)

unfoldable pub download : StorageKey → Action Store ℕ
download key = do
  blobs ← gets (λ s. s.blobs)
  found ← or_throw (find_first (λ (b : StorageKey × ℕ). same_key b.0 key) blobs) storage_error
  pure found.1

-- `signer?.name || "Unknown"`
abbrev pub signer_name : Option User → String
signer_name none = "Unknown"
signer_name (some u) = or_else (or_null (some u.name)) "Unknown"

abbrev pub join : List String → String
join [] = ""
join (t ∷ ts) = String.◌++◌ t (join ts)

abbrev pub caption : FieldType → String → String → String
caption initials signer day = join ("Initialed by " ∷ signer ∷ " on " ∷ day ∷ [])
caption _ signer day = join ("Signed by " ∷ signer ∷ " on " ∷ day ∷ [])

abbrev pub max_signable_pdf_bytes : ℕ
max_signable_pdf_bytes = 50 * 1024 * 1024

-- `doc.signedFileId ? doc.signedFile! : doc.file`, its storage key, its content and its pages.
unfoldable pub open_source : Rendering → Document → SignatureField → Action Store ℕ
unfolding download
open_source lib doc field = do
  files ← gets (λ s. s.files)
  let source_id = or_else doc.signed_file_id doc.file_id
  source ← or_throw (find_first (λ (f : FileRow). f.id == source_id) files) storage_error
  key ← or_throw source.storage_key bad_request
  content ← download key
  throw_if (ltb max_signable_pdf_bytes (lib.size content)) bad_request
  pages ← or_throw (lib.page_count content) pdf_error
  throw_if (leb pages field.page_number) bad_request
  pure content

abbrev pub signed_response :
    ℕ → ℕ → ℕ → SignRequest → Option StorageKey → Option String → ℕ → DocumentResponse
signed_response new_id id user dto image value now = record {
  id = new_id;
  document_id = id;
  user_id = user;
  action = ResponseAction.signed;
  reason = none;
  signature_image_key = image;
  signature_method = some dto.method;
  signed_at = some now;
  field_id = some dto.field_id;
  text_value = value;
}

abbrev pub drop_old_file : Option ℕ → List FileRow → List FileRow
drop_old_file none files = files
drop_old_file (some old) files = delete_where (λ (f : FileRow). f.id == old) files

abbrev pub set_signed_file : ℕ → Document → Document
set_signed_file file d = record d { signed_file_id = some file }

-- The new signed file takes the place of the old one, and the response is recorded.
unfoldable pub record_signature :
    Document → ℕ → ℕ → ℕ → ℕ → DocumentResponse → ℕ → Action Store (Unit {0})
unfolding upload update_document
record_signature doc id user org new_file response content = do
  let key = signed_pdf org doc.project_id id
  upload key content
  let row : FileRow = record {
    id = new_file;
    storage_key = some key;
    project_id = doc.project_id;
    organization_id = org;
    uploaded_by_id = user;
  }
  modify (λ s. record s { files = s.files ++ row ∷ [] })
  modify (update_document id (set_signed_file new_file))
  modify (λ s. record s { files = drop_old_file doc.signed_file_id s.files })
  modify (λ s. record s { responses = s.responses ++ response ∷ [] })

-- `embedTextInPdf`
unfoldable pub embed_text :
    Rendering
    → Document
    → SignatureField
    → String
    → ℕ
    → ℕ
    → ℕ
    → SignRequest
    → ℕ
    → ℕ
    → ℕ
    → Action Store (Unit {0})
unfolding record_signature
embed_text lib doc field value id user org dto now new_file new_response = do
  content ← open_source lib doc field
  drawn ← or_throw (lib.draw_text content field value) pdf_error
  record_signature doc id user org new_file
      (signed_response new_response id user dto none (some value) now) drawn

abbrev pub is_image : Mime → Bool
is_image png = true
is_image jpeg = true
is_image _ = false

-- Signature and initials: the image is stored, and drawn with a line that names the signer.
unfoldable pub embed_image :
    Rendering
    → Document
    → SignatureField
    → Option SignatureUpload
    → ℕ
    → ℕ
    → ℕ
    → SignRequest
    → ℕ
    → ℕ
    → ℕ
    → Action Store (Unit {0})
unfolding upload record_signature
embed_image lib doc field file id user org dto now new_file new_response = do
  image ← or_throw file bad_request
  throw_if (not (is_image image.mime)) bad_request
  let key = signature_image org doc.project_id id user dto.field_id
  upload key image.content
  content ← open_source lib doc field
  embedded ← or_throw (lib.embed image) pdf_error
  users ← gets (λ s. s.users)
  let signer = signer_name (find_first (λ (u : User). u.id == user) users)
  day ← or_throw (lib.format_date now (or_null dto.timezone)) range_error
  let line = caption field.type signer day
  drawn ← or_throw (lib.draw_image content field embedded line) pdf_error
  record_signature doc id user org new_file
      (signed_response new_response id user dto (some key) none now) drawn
