-- ===== src/Documents/Transitions/Keys.antt =====
-- No operation gives a document another identifier.
use pexlo_portal.Prelude.{
  ℕ, ◌≡◌, refl, inl, inr, Option, none, some, List, [], ◌∷◌, ◌==◌, arith, ap, ◌∙◌, find_first,
  find_many, update_where, Option-cases, Bool-cases, any, ◌&&◌,
}
use Prim.Native.String.{String}
use pexlo_portal.Documents.State.{
  DocumentStatus, Document, DocumentVersion, ResponseAction, Store, owned, Role,
}
use pexlo_portal.Documents.Lookup.{by_id, ids, ids-update}
use pexlo_portal.Documents.Lifecycle.{send, void_document, mark_sent, expiry, mark_voided}
use pexlo_portal.Documents.Verdict.{
  update_document_status, respond, save_reply, verdict_of, apply_verdict, set_status,
}
use pexlo_portal.Documents.Embedding.{Rendering, SignRequest, SignatureUpload, set_signed_file}
use pexlo_portal.Documents.Signing.{sign_transaction, sign}
use pexlo_portal.Documents.Signing.Transaction.{sign_transaction-documents, sign-documents}
use pexlo_portal.Documents.Versions.{FileUpload, upload_version, restore_version, point_to}
use pexlo_portal.Documents.Tasks.{
  is_expirable, mark_expired, expire_documents, is_remindable, reminder_due, remind, remind_each,
  send_reminders,
}
use pexlo_portal.Documents.Tasks.Expiry.{log_expired-documents}

module _ (id org : ℕ) (s : Store) where
  pub send-ids :
      (user : ℕ) (days : Option ℕ) (now : ℕ)
      → ids (send id org user days now s).1.documents ≡ ids s.documents
  unfolding send
  send-ids user days now =
      ground
        (arith, ids-update (by_id id) (mark_sent now (expiry now days)) s.documents (λ d. refl))

  pub void_document-ids :
      (user : ℕ) (reason : Option String) (now : ℕ)
      → ids (void_document id org user reason now s).1.documents ≡ ids s.documents
  unfolding void_document
  void_document-ids user reason now =
      ground (arith, ids-update (by_id id) (mark_voided now user reason) s.documents (λ d. refl))

  pub upload_version-ids :
      (user : ℕ) (file : FileUpload) (now new_file new_version : ℕ)
      → ids (upload_version id org user file now new_file new_version s).1.documents
        ≡ ids s.documents
  unfolding upload_version
  upload_version-ids user file now new_file new_version =
      elim (Option-cases (find_first (owned id org) s.documents)) [
        | inl e ↦ ground arith
        | inr (d, e) ↦
            ground (arith, ids-update (by_id id) (point_to d new_file) s.documents (λ x. refl))
      ]

  pub restore_version-ids :
      (user version_id new_version : ℕ)
      → ids (restore_version id version_id org user new_version s).1.documents ≡ ids s.documents
  unfolding restore_version
  restore_version-ids user version_id new_version =
      elim (Option-cases (find_first (owned id org) s.documents)) [
        | inl e ↦ ground arith
        | inr (d, e) ↦
            elim (Option-cases (
              find_first (λ (v : DocumentVersion). v.id == version_id && v.document_id == id)
                s.versions)) [
                  | inl missing ↦ ground arith
                  | inr (v, found) ↦
                      ground (
                        arith,
                        ids-update (by_id id) (point_to d v.file_id) s.documents (λ x. refl),
                      )
                ]
      ]

apply_verdict-ids :
    (id : ℕ) (v : Option DocumentStatus) (s : Store)
    → ids (apply_verdict id v s).documents ≡ ids s.documents
unfolding apply_verdict
apply_verdict-ids id none s = refl
apply_verdict-ids id (some DocumentStatus.signed) s =
    ids-update (by_id id) (set_status DocumentStatus.signed) s.documents (λ d. refl)
apply_verdict-ids id (some v) s = ids-update (by_id id) (set_status v) s.documents (λ d. refl)

pub update_document_status-ids :
    (id : ℕ) (s : Store) → ids (update_document_status id s).documents ≡ ids s.documents
unfolding update_document_status
update_document_status-ids id s = elim (Option-cases (find_first (by_id id) s.documents)) [
  | inl e ↦ rw (e, update_document_status) refl
  | inr (d, e) ↦ rw (e, update_document_status) (apply_verdict-ids id (verdict_of d s) s)
]

pub respond-ids :
    (id user org : ℕ) (action : ResponseAction) (reason : Option String) (now new_id : ℕ)
    (s : Store)
    → ids (respond id user org action reason now new_id s).1.documents ≡ ids s.documents
unfolding respond
respond-ids id user org action reason now new_id s = ground (
  arith,
  update_document_status-ids id
      (record s { responses = save_reply id user action reason new_id s.responses }),
)

module _ (lib : Rendering) (id user org : ℕ) (role : Role) (dto : SignRequest)
    (file : Option SignatureUpload) (now new_file new_response : ℕ) (s : Store) where
  sign_transaction-ids :
      ids (sign_transaction lib id user org role dto file now new_file new_response s).1.documents
      ≡ ids s.documents
  sign_transaction-ids =
      elim (sign_transaction-documents lib id user org role dto file now new_file new_response s) [
        | inl e ↦ ap ids e
        | inr e ↦
            ap ids e ∙ ids-update (by_id id) (set_signed_file new_file) s.documents (λ x. refl)
      ]

  pub sign-ids :
      ids (sign lib id user org role dto file now new_file new_response s).1.documents
      ≡ ids s.documents
  sign-ids =
      let t : Store =
        (sign_transaction lib id user org role dto file now new_file new_response s).1 in
      elim (sign-documents lib id user org role dto file now new_file new_response s) [
        | inl (_, e) ↦ ap ids e ∙ update_document_status-ids id t ∙ sign_transaction-ids
        | inr e ↦ ap ids e ∙ sign_transaction-ids
      ]

pub expire_documents-ids :
    (now : ℕ) (s : Store) → ids (expire_documents now s).documents ≡ ids s.documents
unfolding expire_documents
expire_documents-ids now s =
    let due : List Document = find_many (is_expirable now) s.documents in
    ap ids (
      log_expired-documents due (record s {
        documents = update_where (λ (d : Document). any (by_id d.id) due) mark_expired s.documents;
      }))
    ∙ ids-update (λ d. any (by_id d.id) due) mark_expired s.documents (λ d. refl)

remind_each-ids :
    (now : ℕ) (ds : List Document) (s : Store)
    → ids (remind_each now ds s).documents ≡ ids s.documents
unfolding remind_each
remind_each-ids now [] s = refl
remind_each-ids now (d ∷ ds) s =
    let f : Document → Document = λ (e : Document). record e { last_reminder_at = some now } in
    elim (Bool-cases (reminder_due now d)) [
      | inl due ↦
          rw (due, remind_each)
            (remind_each-ids now ds (remind now d s)
              ∙ ids-update (by_id d.id) f s.documents (λ x. refl))
      | inr early ↦ rw (early, remind_each) (remind_each-ids now ds s)
    ]

pub send_reminders-ids :
    (now : ℕ) (s : Store) → ids (send_reminders now s).documents ≡ ids s.documents
unfolding send_reminders
send_reminders-ids now s = remind_each-ids now (find_many is_remindable s.documents) s
