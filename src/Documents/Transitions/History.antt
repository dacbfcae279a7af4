-- ===== src/Documents/Transitions/History.antt =====
-- Sequences of operations: what can happen to a document in its life, short of being deleted.
use pexlo_portal.Prelude.{
  ℕ, ◌≡◌, ◌≢◌, ◌⊎◌, inl, inr, subst, refl, Bool, true, false, Option, some, List, [], ◌∷◌, ◌++◌,
  arith, All, ap, sym,
}
use Prim.Native.String.{String}
use pexlo_portal.Documents.State.{
  DocumentStatus, draft, voided, expired, Document, ResponseAction, Store, Role,
}
use pexlo_portal.Documents.Lookup.{
  DistinctIds, DistinctIds-transfer, DistinctIds-append, status_in, status_of,
}
use pexlo_portal.Documents.Lifecycle.{
  CreateDocument, create, new_document, send, void_document, track_view,
}
use pexlo_portal.Documents.Verdict.{respond}
use pexlo_portal.Documents.Embedding.{Rendering, SignRequest, SignatureUpload}
use pexlo_portal.Documents.Signing.{sign}
use pexlo_portal.Documents.Versions.{
  FileUpload, FieldInput, upload_version, restore_version, set_signature_fields,
}
use pexlo_portal.Documents.Tasks.{expire_documents, send_reminders}
use pexlo_portal.Documents.Tasks.Expiry.{expire_documents-moves}
use pexlo_portal.Documents.Transitions.{moves, moves_refl, moves-either}
use pexlo_portal.Documents.Transitions.Verdicts.{respond-moves}
use pexlo_portal.Documents.Transitions.Operations.{
  send-moves, void_document-moves, sign-moves, set_signature_fields-documents,
}
use pexlo_portal.Documents.Transitions.Revisions.{
  upload_version-moves, restore_version-moves, send_reminders-status,
}
use pexlo_portal.Documents.Transitions.Keys.{
  send-ids, void_document-ids, upload_version-ids, restore_version-ids, respond-ids, sign-ids,
  expire_documents-ids, send_reminders-ids,
}

create-documents :
    (dto : CreateDocument) (file org user new_id : ℕ) (s : Store)
    → let docs = (create dto file org user new_id s).1.documents in
      (docs ≡ s.documents) ⊎ (docs ≡ s.documents ++ new_document dto file org user new_id ∷ [])
unfolding create
create-documents dto file org user new_id s = ground arith

track_view-documents :
    (id user org : ℕ) (s : Store) → (track_view id user org s).1.documents ≡ s.documents
unfolding track_view
track_view-documents id user org s = ground arith

-- One call of the service or one run of a task; a new document has a new identifier.
pub data Step (s : Store) : Store → Type 0 where
  creating :
      (dto : CreateDocument) (file org user new_id : ℕ)
      → All (λ (e : Document). e.id ≢ new_id) s.documents
      → Step s (create dto file org user new_id s).1
  sending : (id org user : ℕ) (days : Option ℕ) (now : ℕ) → Step s (send id org user days now s).1
  voiding :
      (id org user : ℕ) (reason : Option String) (now : ℕ)
      → Step s (void_document id org user reason now s).1
  viewing : (id user org : ℕ) → Step s (track_view id user org s).1
  responding :
      (id user org : ℕ) (action : ResponseAction) (reason : Option String) (now new_id : ℕ)
      → Step s (respond id user org action reason now new_id s).1
  placing :
      (id org : ℕ) (inputs : List (ℕ × FieldInput))
      → Step s (set_signature_fields id org inputs s).1
  signing :
      (lib : Rendering) (id user org : ℕ) (role : Role) (dto : SignRequest)
      (file : Option SignatureUpload) (now new_file new_response : ℕ)
      → Step s (sign lib id user org role dto file now new_file new_response s).1
  uploading :
      (id org user : ℕ) (file : FileUpload) (now new_file new_version : ℕ)
      → Step s (upload_version id org user file now new_file new_version s).1
  restoring :
      (id version_id org user new_version : ℕ)
      → Step s (restore_version id version_id org user new_version s).1
  expiring : (now : ℕ) → Step s (expire_documents now s)
  reminding : (now : ℕ) → Step s (send_reminders now s)

moves_born :
    (i : ℕ) (d : Document) (docs : List Document)
    → d.status ≡ draft
    → moves (status_in i docs) (status_in i (docs ++ d ∷ [])) ≡ true
moves_born i d [] e = ground arith
moves_born i d (x ∷ xs) e = ground (arith, moves_born i d xs e, moves_refl (some x.status))

-- Where identifiers are distinct, one operation leaves the status of each document as it was, or
-- changes it as `may_become` allows.
pub Step-moves :
    (i : ℕ) {s t : Store}
    → Step s t
    → DistinctIds s.documents
    → moves (status_of i s) (status_of i t) ≡ true
Step-moves i {s} (creating dto file org user new_id fresh) h =
    moves-either i s.documents (s.documents ++ new_document dto file org user new_id ∷ [])
      (create dto file org user new_id s).1.documents (create-documents dto file org user new_id s)
      (moves_born i (new_document dto file org user new_id) s.documents refl)
Step-moves i {s} (sending id org user days now) h = send-moves id org i s h user days now
Step-moves i {s} (voiding id org user reason now) h =
    void_document-moves id org i s h user reason now
Step-moves i {s} (viewing id user org) h =
    rw (ap (status_in i) (track_view-documents id user org s)) (moves_refl (status_of i s))
Step-moves i {s} (responding id user org action reason now new_id) h =
    respond-moves id user org action reason now new_id i s h
Step-moves i {s} (placing id org inputs) h =
    rw (ap (status_in i) (set_signature_fields-documents id org i s h inputs))
      (moves_refl (status_of i s))
Step-moves i {s} (signing lib id user org role dto file now new_file new_response) h =
    sign-moves id org i s h lib user role dto file now new_file new_response
Step-moves i {s} (uploading id org user file now new_file new_version) h =
    upload_version-moves id org i s h user file now new_file new_version
Step-moves i {s} (restoring id version_id org user new_version) h =
    restore_version-moves id org i s h user version_id new_version
Step-moves i {s} (expiring now) h = expire_documents-moves now i s h
Step-moves i {s} (reminding now) h = rw (send_reminders-status now i s) (moves_refl (status_of i s))

Step-DistinctIds : {s t : Store} → Step s t → DistinctIds s.documents → DistinctIds t.documents
Step-DistinctIds {s} (creating dto file org user new_id fresh) h =
    elim (create-documents dto file org user new_id s) [
      | inl e ↦ subst DistinctIds (sym e) h
      | inr e ↦
          subst DistinctIds (sym e)
            (DistinctIds-append s.documents (new_document dto file org user new_id) fresh h)
    ]
Step-DistinctIds {s} (sending id org user days now) h =
    DistinctIds-transfer s.documents _ (send-ids id org s user days now) h
Step-DistinctIds {s} (voiding id org user reason now) h =
    DistinctIds-transfer s.documents _ (void_document-ids id org s user reason now) h
Step-DistinctIds {s} (viewing id user org) h =
    subst DistinctIds (sym (track_view-documents id user org s)) h
Step-DistinctIds {s} (responding id user org action reason now new_id) h =
    DistinctIds-transfer s.documents _ (respond-ids id user org action reason now new_id s) h
Step-DistinctIds {s} (placing id org inputs) h =
    subst DistinctIds (sym (set_signature_fields-documents id org id s h inputs)) h
Step-DistinctIds {s} (signing lib id user org role dto file now new_file new_response) h =
    DistinctIds-transfer s.documents _
      (sign-ids lib id user org role dto file now new_file new_response s) h
Step-DistinctIds {s} (uploading id org user file now new_file new_version) h =
    DistinctIds-transfer s.documents _
      (upload_version-ids id org s user file now new_file new_version) h
Step-DistinctIds {s} (restoring id version_id org user new_version) h =
    DistinctIds-transfer s.documents _ (restore_version-ids id org s user version_id new_version) h
Step-DistinctIds {s} (expiring now) h =
    DistinctIds-transfer s.documents _ (expire_documents-ids now s) h
Step-DistinctIds {s} (reminding now) h =
    DistinctIds-transfer s.documents _ (send_reminders-ids now s) h

pub data Reach (s : Store) : Store → Type 0 where
  here : Reach s s
  next : {t u : Store} → Reach s t → Step t u → Reach s u

-- Every sequence of whole operations keeps the identifiers of the documents distinct.
pub Reach-DistinctIds :
    {s t : Store} → Reach s t → DistinctIds s.documents → DistinctIds t.documents
Reach-DistinctIds here h = h
Reach-DistinctIds (next r st) h = Step-DistinctIds st (Reach-DistinctIds r h)

-- A status that no operation leaves.
abbrev pub is_final : DocumentStatus → Bool
is_final voided = true
is_final expired = true
is_final _ = false

stays_final :
    (a : DocumentStatus) (o : Option DocumentStatus)
    → is_final a ≡ true
    → moves (some a) o ≡ true
    → o ≡ some a
stays_final a o f m = ground arith

-- Where identifiers are distinct, a voided or expired document keeps its status through every
-- sequence of the operations of `Step`, each of which runs as a whole: documents are created, sent,
-- voided, viewed, answered, given fields, signed, given new or old versions, expired and reminded of.
pub Reach-final :
    (i : ℕ) (a : DocumentStatus) {s t : Store}
    → Reach s t
    → DistinctIds s.documents
    → is_final a ≡ true
    → status_of i s ≡ some a
    → status_of i t ≡ some a
Reach-final i a here h f e = e
Reach-final i a (next {t} {u} r st) h f e =
    let before : status_of i t ≡ some a = Reach-final i a r h f e in
    stays_final a (status_of i u) f (rw before at (Step-moves i st (Reach-DistinctIds r h)))
