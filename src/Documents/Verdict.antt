-- ===== src/Documents/Verdict.antt =====
-- `updateDocumentStatus` and `respond`: how the responses to a document decide its status.
pub mod Deciding
use pexlo_portal.Prelude.{
  ℕ, Bool, true, false, not, Option, none, some, List, [], ◌∷◌, ◌++◌, ◌==◌, ◌&&◌, if◌then◌else◌,
  find_first, find_many, update_where, count, any, every, length, leb, ltb,
}
use Prim.Native.String.{String}
use pexlo_portal.Service.{Action, throw_if, gets, modify, bad_request, forbidden, ◌>>=◌, ◌>>◌}
use pexlo_portal.Documents.State.{
  DocumentStatus, pending, accepted, declined, acknowledged, signed, Document, ResponseAction,
  DocumentResponse, SignatureField, Store, find_document, update_document, log, notify, is_client,
  AuditAction, document_responded, ProjectClient,
}
use pexlo_portal.Documents.Lifecycle.{or_null}

abbrev pub is_declined : DocumentResponse → Bool
is_declined r = elim r.action [ ResponseAction.declined ↦ true | _ ↦ false ]

abbrev pub is_signed : DocumentResponse → Bool
is_signed r = elim r.action [ ResponseAction.signed ↦ true | _ ↦ false ]

-- `signedFieldIds.has(f.id)`, over the responses that are signatures.
abbrev pub signs : ℕ → DocumentResponse → Bool
signs field r = is_signed r && elim r.field_id [ none ↦ false | some f ↦ f == field ]

abbrev pub field_signed : List DocumentResponse → SignatureField → Bool
field_signed responses f = any (signs f.id) responses

abbrev pub responses_of : ℕ → Store → List DocumentResponse
responses_of id s = find_many (λ (r : DocumentResponse). r.document_id == id) s.responses

abbrev pub fields_of : ℕ → Store → List SignatureField
fields_of id s = find_many (λ (f : SignatureField). f.document_id == id) s.fields

abbrev pub client_count : ℕ → Store → ℕ
client_count project s = count (λ (c : ProjectClient). c.project_id == project) s.clients

abbrev pub set_status : DocumentStatus → Document → Document
set_status status d = record d { status = status }

-- The status that `updateDocumentStatus` decides on, if it decides.
unfoldable pub verdict :
    Document → List DocumentResponse → List SignatureField → ℕ → Option DocumentStatus
verdict doc [] fields clients = none
verdict doc (r ∷ rs) fields clients =
    if any is_declined (r ∷ rs)
    then some declined
    else if doc.requires_signature && not (length fields == 0)
    then (if every (field_signed (r ∷ rs)) fields then some signed else none)
    else if leb clients (length (r ∷ rs))
    then some accepted
    else none

-- The decided status is written, and of a completed document the team is told.
unfoldable pub apply_verdict : ℕ → Option DocumentStatus → Store → Store
unfolding update_document notify
apply_verdict id none s = s
apply_verdict id (some signed) s =
    notify (document_responded id none ResponseAction.signed)
      (update_document id (set_status signed) s)
apply_verdict id (some accepted) s =
    notify (document_responded id none ResponseAction.accepted)
      (update_document id (set_status accepted) s)
apply_verdict id (some status) s = update_document id (set_status status) s

abbrev pub verdict_of : Document → Store → Option DocumentStatus
verdict_of doc s =
    verdict doc (responses_of doc.id s) (fields_of doc.id s) (client_count doc.project_id s)

unfoldable pub update_document_status : ℕ → Store → Store
unfolding apply_verdict
update_document_status id s = elim (find_first (λ (d : Document). d.id == id) s.documents) [
  | none ↦ s
  | some doc ↦ apply_verdict id (verdict_of doc s) s
]

abbrev pub respond_blocked : DocumentStatus → Bool
respond_blocked pending = false
respond_blocked acknowledged = false
respond_blocked _ = true

-- `doc.expiresAt && new Date() > doc.expiresAt`
abbrev pub is_past : Option ℕ → ℕ → Bool
is_past none now = false
is_past (some e) now = ltb e now

-- `ALLOWED_ACTIONS` holds the same two actions for every type, as does its default.
abbrev pub is_allowed : ResponseAction → Bool
is_allowed ResponseAction.accepted = true
is_allowed ResponseAction.declined = true
is_allowed _ = false

-- The response of this user that signs no field.
abbrev is_reply : ℕ → ℕ → DocumentResponse → Bool
is_reply id user r =
    r.document_id == id && r.user_id == user && elim r.field_id [ none ↦ true | some f ↦ false ]

abbrev new_reply : ℕ → ℕ → ℕ → ResponseAction → Option String → DocumentResponse
new_reply new_id id user action reason = record {
  id = new_id;
  document_id = id;
  user_id = user;
  action = action;
  reason = or_null reason;
  signature_image_key = none;
  signature_method = none;
  signed_at = none;
  field_id = none;
  text_value = none;
}

-- The response is updated if there is one, and created otherwise.
unfoldable pub save_reply :
    ℕ → ℕ → ResponseAction → Option String → ℕ → List DocumentResponse → List DocumentResponse
save_reply id user action reason new_id rs = elim (find_first (is_reply id user) rs) [
  | none ↦ rs ++ new_reply new_id id user action reason ∷ []
  | some old ↦
      update_where (λ (r : DocumentResponse). r.id == old.id)
        (λ r. record r { action = action; reason = or_null reason }) rs
]

unfoldable pub respond :
    ℕ → ℕ → ℕ → ResponseAction → Option String → ℕ → ℕ → Action Store (Unit {0})
unfolding find_document is_client log notify
respond id user org action reason now new_id = do
  doc ← find_document id org
  throw_if (respond_blocked doc.status) bad_request
  throw_if (is_past doc.expires_at now) bad_request
  assigned ← gets (is_client doc.project_id user)
  throw_if (not assigned) forbidden
  throw_if (not doc.requires_approval) bad_request
  throw_if (not (is_allowed action)) bad_request
  modify (λ s. record s { responses = save_reply id user action reason new_id s.responses })
  modify (update_document_status id)
  modify (log id (AuditAction.responded action) (some user))
  modify (notify (document_responded id (some user) action))
