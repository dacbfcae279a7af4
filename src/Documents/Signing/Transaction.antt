-- ===== src/Documents/Signing/Transaction.antt =====
-- The signing transaction as a whole: who may sign, what is recorded, and that a failure leaves
-- the database as it was.
use pexlo_portal.Prelude.{ℕ, ◌≡◌, ◌∙◌, ap, sym, ◌⊎◌, inl, inr, arith, Option, some, update_where}
use pexlo_portal.Service.{
  ok, err, Error, Result, Result-cases, ◌>>=◌, >>=-eq-ok, transaction-ok, transaction-err,
}
use pexlo_portal.Documents.State.{
  Document, SignatureField, Store, Role, log, AuditAction, ResponseAction,
}
use pexlo_portal.Documents.Verdict.{update_document_status}
use pexlo_portal.Documents.Lookup.{by_id}
use pexlo_portal.Documents.Embedding.{Rendering, SignRequest, SignatureUpload, set_signed_file}
use pexlo_portal.Documents.Signing.{
  check_document, check_field, fill_field, rollback, sign_transaction, sign, notify_next_signer,
}
use pexlo_portal.Documents.Signing.Checks.{
  MaySign, check_document-state, check_document_sound, check_field-state, check_field_sound,
}
use pexlo_portal.Documents.Signing.Filling.{fill_field-documents}

module _ (lib : Rendering) (id user org : ℕ) (role : Role) (dto : SignRequest)
    (file : Option SignatureUpload) (now new_file new_response : ℕ) (s : Store) where
  fill : Document → SignatureField → Store → Result (Unit {0}) × Store
  fill d f = fill_field lib d f f.type file id user org dto now new_file new_response

  signer_step : Document → Store → Result (Unit {0}) × Store
  unfolding fill
  signer_step d = check_field d id user role dto.field_id >>= fill d

  -- A successful signature was allowed, and is the filling of the field.
  pub sign_transaction-ok :
      (sign_transaction lib id user org role dto file now new_file new_response s).0 ≡ ok tt
      → (d : Document) × (f : SignatureField) × MaySign id user org role dto.field_id now s d f
        × ((fill_field lib d f f.type file id user org dto now new_file new_response s).0 ≡ ok tt)
        × (sign_transaction lib id user org role dto file now new_file new_response s
            ≡ fill_field lib d f f.type file id user org dto now new_file new_response s)
  unfolding sign_transaction signer_step
  sign_transaction-ok h =
      let (h1, e1) =
        transaction-ok rollback (λ t. (check_document id org now >>= signer_step) t) s tt h in
      let (d, hd, h2, e2) =
        >>=-eq-ok (check_document id org now) signer_step s tt (check_document-state id org now s)
          h1 in
      let (f, hf, h3, e3) =
        >>=-eq-ok (check_field d id user role dto.field_id) (fill d) s tt
          (check_field-state d id user role dto.field_id s) h2 in
      let (found, wants, open_status, in_time) = check_document_sound id org now s d hd in
      let (of_document, on_project, not_yet, in_turn, assigned) =
        check_field_sound d id user role dto.field_id s f hf in
      (
        d,
        f,
        record {
          found = found;
          wants_signature = wants;
          not_blocked = open_status;
          in_time = in_time;
          of_document = of_document;
          on_project = on_project;
          not_yet = not_yet;
          in_turn = in_turn;
          assigned = assigned;
        },
        h3,
        e1 ∙ e2 ∙ e3,
      )

  -- A signing transaction that fails leaves every table as it was; only the object storage may
  -- differ.
  pub sign_transaction-err :
      {e : Error}
      → (sign_transaction lib id user org role dto file now new_file new_response s).0 ≡ err e
      → let t = (sign_transaction lib id user org role dto file now new_file new_response s).1 in
        t ≡ rollback s t
  unfolding sign_transaction signer_step
  sign_transaction-err {e} h =
      let m : Store → Result (Unit {0}) × Store = check_document id org now >>= signer_step in
      let same = transaction-err rollback m s e h in same ∙ sym (ap (rollback s) same)

  pub sign_transaction-documents :
      let docs =
        (sign_transaction lib id user org role dto file now new_file new_response s).1.documents in
      (docs ≡ s.documents) ⊎ (docs ≡ update_where (by_id id) (set_signed_file new_file) s.documents)
  sign_transaction-documents =
      elim (Result-cases
        (sign_transaction lib id user org role dto file now new_file new_response s).0) [
          | inl h ↦
              let (d, f, _, _, e) = sign_transaction-ok h in
              rw e (
                fill_field-documents lib d f id user org dto now new_file new_response s f.type
                  file)
          | inr (e, h) ↦ inl (ap (λ (t : Store). t.documents) (sign_transaction-err h))
        ]

notify_next_signer-documents :
    (id : ℕ) (t : Store) → (notify_next_signer id t).documents ≡ t.documents
unfolding notify_next_signer
notify_next_signer-documents id t = ground arith

module _ (lib : Rendering) (id user org : ℕ) (role : Role) (dto : SignRequest)
    (file : Option SignatureUpload) (now new_file new_response : ℕ) (s : Store) where
  -- Signing has the status decided if the transaction succeeds, and stops otherwise.
  pub sign-documents :
      let t = (sign_transaction lib id user org role dto file now new_file new_response s).1 in
      (((sign_transaction lib id user org role dto file now new_file new_response s).0 ≡ ok tt)
        × ((sign lib id user org role dto file now new_file new_response s).1.documents
            ≡ (update_document_status id t).documents))
      ⊎ ((sign lib id user org role dto file now new_file new_response s).1.documents ≡ t.documents)
  unfolding sign
  sign-documents =
      let t : Store =
        (sign_transaction lib id user org role dto file now new_file new_response s).1 in
      ground (
        arith,
        notify_next_signer-documents id (
            log id (AuditAction.responded ResponseAction.signed) (some user)
              (update_document_status id t)),
      )
