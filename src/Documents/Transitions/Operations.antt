-- ===== src/Documents/Transitions/Operations.antt =====
-- Every operation of the documents service on the status of every document.
use pexlo_portal.Prelude.{
  ℕ, ◌≡◌, refl, inl, inr, true, false, Option, List, arith, ap, ◌∙◌, find_first, update_where,
  Option-cases, Bool-cases,
}
use Prim.Native.String.{String}
use pexlo_portal.Documents.State.{DocumentStatus, Document, Store, owned, Role, is_draft}
use pexlo_portal.Documents.Lookup.{by_id, DistinctIds, status_in, status_of, find_by_id-owned}
use pexlo_portal.Documents.Lifecycle.{send, void_document, mark_sent, expiry, mark_voided, voidable}
use pexlo_portal.Documents.Verdict.{update_document_status}
use pexlo_portal.Documents.Embedding.{Rendering, SignRequest, SignatureUpload, set_signed_file}
use pexlo_portal.Documents.Signing.{sign_transaction, sign, sign_blocked}
use pexlo_portal.Documents.Signing.Transaction.{
  sign_transaction-ok, sign_transaction-documents, sign-documents,
}
use pexlo_portal.Documents.Versions.{FieldInput, set_signature_fields}
use pexlo_portal.Documents.Transitions.{
  moves, moves_refl, moves-update, moves-either, status_in-update, Settles-moves, is_open,
}
use pexlo_portal.Documents.Transitions.Verdicts.{update_document_status-Settles}

module _ (id org i : ℕ) (s : Store) (h : DistinctIds s.documents) where
  pub send-moves :
      (user : ℕ) (days : Option ℕ) (now : ℕ)
      → moves (status_of i s) (status_of i (send id org user days now s).1) ≡ true
  unfolding send
  send-moves user days now = elim (Option-cases (find_first (owned id org) s.documents)) [
    | inl e ↦ ground (arith, moves_refl (status_of i s))
    | inr (d, e) ↦ elim (Bool-cases (is_draft d.status)) [
      | inr late ↦ ground (arith, moves_refl (status_of i s))
      | inl early ↦
          let f : Document → Document = mark_sent now (expiry now days) in
          moves-either i s.documents (update_where (by_id id) f s.documents)
            (send id org user days now s).1.documents (ground arith)
            (moves-update id i f d s.documents (λ x. refl)
              (find_by_id-owned id org d s.documents h e) (ground arith))
    ]
  ]

  pub void_document-moves :
      (user : ℕ) (reason : Option String) (now : ℕ)
      → moves (status_of i s) (status_of i (void_document id org user reason now s).1) ≡ true
  unfolding void_document
  void_document-moves user reason now =
      elim (Option-cases (find_first (owned id org) s.documents)) [
        | inl e ↦ ground (arith, moves_refl (status_of i s))
        | inr (d, e) ↦ elim (Bool-cases (voidable d.status)) [
          | inr late ↦ ground (arith, moves_refl (status_of i s))
          | inl early ↦
              let f : Document → Document = mark_voided now user reason in
              moves-either i s.documents (update_where (by_id id) f s.documents)
                (void_document id org user reason now s).1.documents (ground arith)
                (moves-update id i f d s.documents (λ x. refl)
                  (find_by_id-owned id org d s.documents h e) (ground arith))
        ]
      ]

  pub set_signature_fields-documents :
      (inputs : List (ℕ × FieldInput))
      → (set_signature_fields id org inputs s).1.documents ≡ s.documents
  unfolding set_signature_fields
  set_signature_fields-documents inputs = ground arith

  open_of_sign : (a : DocumentStatus) → sign_blocked a ≡ false → is_open a ≡ true
  open_of_sign a e = ground arith

  module _ (lib : Rendering) (user : ℕ) (role : Role) (dto : SignRequest)
      (file : Option SignatureUpload) (now new_file new_response : ℕ) where
    pub sign_transaction-status :
        status_of i (sign_transaction lib id user org role dto file now new_file new_response s).1
        ≡ status_of i s
    sign_transaction-status =
        elim (sign_transaction-documents lib id user org role dto file now new_file new_response
          s) [
            | inl e ↦ ap (status_in i) e
            | inr e ↦
                ap (status_in i) e
                ∙ status_in-update id i (set_signed_file new_file) s.documents (λ x. refl)
                    (λ x. refl)
          ]

    pub sign-moves :
        moves
          (status_of i s)
          (status_of i (sign lib id user org role dto file now new_file new_response s).1)
        ≡ true
    sign-moves = elim (sign-documents lib id user org role dto file now new_file new_response s) [
      | inr e ↦ rw (ap (status_in i) e ∙ sign_transaction-status) (moves_refl (status_of i s))
      | inl (signed_now, e) ↦
          let (d, f, may, _, _) =
            sign_transaction-ok lib id user org role dto file now new_file new_response s
              signed_now in
          let t : Store =
            (sign_transaction lib id user org role dto file now new_file new_response s).1 in
          rw (ap (status_in i) e) (
            Settles-moves id i d s.documents (status_of i (update_document_status id t))
              (find_by_id-owned id org d s.documents h may.found)
              (open_of_sign d.status may.not_blocked)
              (rw sign_transaction-status at (update_document_status-Settles id i t)))
    ]
