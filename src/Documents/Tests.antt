-- ===== src/Documents/Tests.antt =====
-- Concrete documents, links and signatures.
use pexlo_portal.Prelude.{
  ℕ, ◌≡◌, ◌≢◌, ◌↔◌, ◌≤◌, refl, true, false, Option, none, some, List, [], ◌∷◌, ◌+◌, ◌⊎◌, arith,
  length, All, find_first, if◌then◌else◌,
}
use mathlib.Core.List.{Memᴰ}
use Prim.Native.String.{String}
use package.text.Mathlib.Text.{◌==◌ as str_eq}
use pexlo_portal.Service.{ok}
use pexlo_portal.Documents.State.{
  Document, DocumentStatus, pending, voided, declined, signed, accepted, contract, SignatureField,
  FieldType, text, date, DocumentResponse, ResponseAction, Store, FileRow, uploaded, AccessToken,
  member, is_client,
}
use pexlo_portal.Documents.Lookup.{by_id, DistinctIds, status_of}
use pexlo_portal.Documents.Lifecycle.{send}
use pexlo_portal.Documents.Verdict.{verdict, update_document_status, responses_of}
use pexlo_portal.Documents.Verdict.Deciding.{
  verdict-signed_iff, verdict-accepted_iff, update_document_status-declines, Declined, SignedField,
}
use pexlo_portal.Documents.Embedding.{
  Rendering, SignRequest, embed_text, open_source, record_signature, pdf,
}
use pexlo_portal.Documents.Signing.{
  sign_transaction, check_document, check_field, fill_field, next_fields,
}
use pexlo_portal.Documents.Signing.Checks.{MaySign}
use pexlo_portal.Documents.Signing.Filling.{Recorded}
use pexlo_portal.Documents.Signing.Sound.{sign_transaction_sound, sign_transaction-once}
use pexlo_portal.Documents.Versions.{FileUpload, upload_version, versions_of, old_version, point_to}
use pexlo_portal.Documents.Versions.Numbering.{
  IsNumbered, upload_version-IsNumbered, upload_version-resets,
}
use pexlo_portal.Documents.Tokens.{
  generate_access_token, validate_access_token, revoke_access_token, link_blocked,
}
use pexlo_portal.Documents.Tokens.Links.{
  with_hash, validate_access_token_sound, validate-revoke, validate-generate,
}
use pexlo_portal.Documents.Tasks.{expire_documents, mark_expired}
use pexlo_portal.Documents.Tasks.Expiry.{expire_documents-exact}
use pexlo_portal.Documents.Transitions.{moves}
use pexlo_portal.Documents.Transitions.History.{
  Reach, here, next, sending, expiring, Step-moves, Reach-final,
}

abbrev document : ℕ → DocumentStatus → Option ℕ → Document
document id status expires = record {
  id = id;
  type = contract;
  title = "Contract";
  file_id = 20;
  project_id = 5;
  organization_id = 1;
  uploaded_by_id = 2;
  status = status;
  requires_signature = true;
  requires_approval = true;
  signed_file_id = none;
  sent_at = some 10;
  voided_at = none;
  voided_by_id = none;
  void_reason = none;
  expires_at = expires;
  reminder_enabled = true;
  reminder_interval_days = 3;
  last_reminder_at = none;
  signing_order_enabled = true;
  options = none;
  current_version = 1;
}

abbrev field : ℕ → FieldType → ℕ → SignatureField
field id type order = record {
  id = id;
  document_id = 7;
  page_number = 0;
  area = 0;
  type = type;
  label = none;
  required = true;
  signer_order = order;
  assigned_to = none;
}

abbrev reply : ℕ → ResponseAction → Option ℕ → DocumentResponse
reply id action signed_field = record {
  id = id;
  document_id = 7;
  user_id = 3;
  action = action;
  reason = none;
  signature_image_key = none;
  signature_method = none;
  signed_at = none;
  field_id = signed_field;
  text_value = none;
}

abbrev a_file : FileRow
a_file = record {
  id = 20;
  storage_key = some (uploaded 1);
  project_id = 5;
  organization_id = 1;
  uploaded_by_id = 2;
}

abbrev store : List Document → List SignatureField → List DocumentResponse → Store
store documents fields responses = record {
  documents = documents;
  fields = fields;
  responses = responses;
  versions = [];
  tokens = [];
  files = a_file ∷ [];
  projects = [];
  clients = (record { project_id = 5; user_id = 3 }) ∷ [];
  users = [];
  blobs = (uploaded 1, 100) ∷ [];
  audit = [];
  notices = [];
}

abbrev renderer : Rendering
renderer = record {
  size = λ c. c;
  page_count = λ c. some 2;
  draw_text = λ c f t. some 200;
  embed = λ u. some 9;
  draw_image = λ c f i t. some 300;
  format_date = λ now zone. elim zone [
    | none ↦ some "1 January"
    | some z ↦ if str_eq z "Mars/Olympus" then none else some "1 January"
  ];
}

abbrev request : ℕ → Option String → SignRequest
request id zone = record {
  method = "type";
  field_id = id;
  timezone = zone;
  text_value = some "Ann";
}

abbrev out : Store
out =
    store (document 7 pending none ∷ document 8 pending (some 50) ∷ [])
      (field 30 text 1 ∷ field 31 date 2 ∷ []) []

out-DistinctIds : DistinctIds out.documents
out-DistinctIds = ((ground arith, tt), (tt, tt))

abbrev void_store : Store
void_store = store (document 7 voided none ∷ document 8 pending (some 50) ∷ []) [] []

voids_DistinctIds : DistinctIds void_store.documents
voids_DistinctIds = ((ground arith, tt), (tt, tt))

late_send : Reach void_store (expire_documents 100 (send 7 1 2 none 60 void_store).1)
late_send = next (next here (sending 7 1 2 none 60)) (expiring 100)

Reach-final_example :
    status_of 7 (expire_documents 100 (send 7 1 2 none 60 void_store).1) ≡ some voided
Reach-final_example = Reach-final 7 voided late_send voids_DistinctIds refl refl

Step-moves_example :
    moves (status_of 8 void_store) (status_of 8 (expire_documents 100 void_store)) ≡ true
Step-moves_example = Step-moves 8 {s = void_store} (expiring 100) voids_DistinctIds

expired_test : status_of 8 (expire_documents 100 void_store) ≡ some DocumentStatus.expired
unfolding expire_documents
expired_test = refl

expire_documents-exact_example :
    find_first (by_id 8) (expire_documents 100 void_store).documents
    ≡ some (mark_expired (document 8 pending (some 50)))
expire_documents-exact_example = expire_documents-exact 100 8 void_store voids_DistinctIds

abbrev signed_out : Store
signed_out = (sign_transaction renderer 7 3 1 member (request 30 none) none 40 41 42 out).1

sign_succeeds :
    (sign_transaction renderer 7 3 1 member (request 30 none) none 40 41 42 out).0 ≡ ok tt
unfolding sign_transaction check_document check_field fill_field embed_text open_source
    record_signature
sign_succeeds = refl

sign_transaction_sound_example :
    (d : Document) × (f : SignatureField) × MaySign 7 3 1 member 30 40 out d f
    × Recorded renderer d f 7 3 1 (request 30 none) 40 41 42 out signed_out.responses
sign_transaction_sound_example =
    sign_transaction_sound renderer 7 3 1 member (request 30 none) none 40 41 42 out sign_succeeds

sign_transaction-once_example :
    (sign_transaction renderer 7 3 1 member (request 30 none) none 50 51 52 signed_out).0 ≢ ok tt
sign_transaction-once_example =
    sign_transaction-once renderer 7 3 1 member (request 30 none) none 40 41 42 out member
      (request 30 none) none 50 51 52 sign_succeeds refl

verdict-signed_iff_example :
    (verdict
        (document 7 pending none)
        (reply 1 ResponseAction.signed (some 30) ∷ [])
        (field 30 text 1 ∷ [])
        1
      ≡ some signed)
    ↔ ((¬ Declined (reply 1 ResponseAction.signed (some 30) ∷ []))
        × (true ≡ true)
        × ((field 30 text 1 ∷ []) ≢ [])
        × All (SignedField (reply 1 ResponseAction.signed (some 30) ∷ [])) (field 30 text 1 ∷ []))
verdict-signed_iff_example =
    verdict-signed_iff (document 7 pending none) (reply 1 ResponseAction.signed (some 30) ∷ [])
      (field 30 text 1 ∷ []) 1

abbrev no_fields : List SignatureField
no_fields = []

verdict-accepted_iff_example :
    (verdict (document 7 pending none) (reply 1 ResponseAction.accepted none ∷ []) no_fields 1
      ≡ some accepted)
    ↔ ((¬ Declined (reply 1 ResponseAction.accepted none ∷ []))
        × ((reply 1 ResponseAction.accepted none ∷ []) ≢ [])
        × ((true ≡ false) ⊎ (no_fields ≡ []))
        × (1 ≤ length (reply 1 ResponseAction.accepted none ∷ [])))
verdict-accepted_iff_example =
    verdict-accepted_iff (document 7 pending none) (reply 1 ResponseAction.accepted none ∷ [])
      no_fields 1

abbrev refused : Store
refused = store (document 7 voided none ∷ []) [] (reply 1 ResponseAction.declined none ∷ [])

update_document_status-declines_example :
    status_of 7 (update_document_status 7 refused) ≡ some declined
update_document_status-declines_example =
    update_document_status-declines 7 refused (document 7 voided none)
      (reply 1 ResponseAction.declined none) refl (Memᴰ.head refl) refl refl

next_fields_test : next_fields 7 out ≡ field 30 text 1 ∷ field 31 date 2 ∷ []
unfolding next_fields
next_fields_test = refl

abbrev replied : Store
replied =
    store (document 7 signed none ∷ []) (field 30 text 1 ∷ [])
      (reply 1 ResponseAction.signed (some 30) ∷ [])

abbrev new_pdf : FileUpload
new_pdf = record { content = 500; mime = pdf }

upload_succeeds : (upload_version 7 1 2 new_pdf 60 61 62 replied).0 ≡ ok tt
unfolding upload_version
upload_succeeds = refl

upload_version-resets_example :
    let t = (upload_version 7 1 2 new_pdf 60 61 62 replied).1 in
    (responses_of 7 t ≡ [])
    × (e : Document) × (find_first (by_id 7) t.documents ≡ some e)
    × (e.status ≡ pending)
    × (e.signed_file_id ≡ none)
    × (e.file_id ≡ 61)
upload_version-resets_example =
    upload_version-resets 7 1 replied (document 7 signed none) refl 2 new_pdf 60 61 62
      upload_succeeds (tt, tt) (λ e. ground arith)

upload_version-IsNumbered_example :
    let t = (upload_version 7 1 2 new_pdf 60 61 62 replied).1 in
    (find_first (by_id 7) t.documents
      ≡ some (point_to (document 7 signed none) 61 (document 7 signed none)))
    × (versions_of 7 t ≡ old_version (document 7 signed none) 62 7 2 ∷ [])
    × IsNumbered 2 (versions_of 7 t)
upload_version-IsNumbered_example =
    upload_version-IsNumbered 7 1 replied (document 7 signed none) refl 2 new_pdf 60 61 62
      upload_succeeds (tt, tt) (tt, tt)

-- A stand-in for the hash of a link.
abbrev doubled : ℕ → ℕ
doubled n = n + n

abbrev link : AccessToken
link = record {
  id = 70;
  document_id = 7;
  user_id = 3;
  token = 18;
  expires_at = 1000;
  used_at = none;
  revoked_at = none;
}

abbrev linked : Store
linked = record out { tokens = link ∷ [] }

link_works : (validate_access_token doubled 9 500 linked).0 ≡ ok (3, 7)
unfolding validate_access_token
link_works = refl

validate_access_token_sound_example :
    (t : AccessToken) × (d : Document) × (find_first (with_hash doubled 9) linked.tokens ≡ some t)
    × (find_first (by_id t.document_id) linked.documents ≡ some d)
    × (t.user_id ≡ 3)
    × (t.document_id ≡ 7)
    × (t.revoked_at ≡ none)
    × (500 ≤ t.expires_at)
    × (link_blocked d.status ≡ false)
validate_access_token_sound_example =
    validate_access_token_sound doubled 9 500 3 7 linked link_works

link_revoked : (revoke_access_token 7 70 1 300 linked).0 ≡ ok tt
unfolding revoke_access_token
link_revoked = refl

validate-revoke_example :
    (validate_access_token doubled 9 500 (revoke_access_token 7 70 1 300 linked).1).0 ≢ ok (3, 7)
validate-revoke_example =
    validate-revoke doubled 9 300 500 7 70 1 linked link (3, 7) refl refl link_revoked

assigned : is_client 5 3 out ≡ true
unfolding is_client
assigned = refl

validate-generate_example :
    (validate_access_token doubled 9 500 (generate_access_token doubled 7 3 1 9 100 70 out).1).0
    ≡ ok (3, 7)
validate-generate_example =
    validate-generate doubled 7 3 1 9 100 500 70 out (document 7 pending none) out-DistinctIds refl
      assigned refl refl (ground arith)
