-- ===== src/Documents/Transitions/Verdicts.antt =====
-- `updateDocumentStatus` and `respond` on the statuses of all documents.
use pexlo_portal.Prelude.{
  ℕ, ◌≡◌, ◌⊎◌, refl, inl, inr, true, false, Option, none, some, List, [], ◌∷◌, arith, ℕ_discrete,
  find_first, update_where, Option-cases, Bool-cases,
}
use Prim.Native.String.{String}
use pexlo_portal.Documents.State.{
  DocumentStatus, accepted, declined, signed, Document, DocumentResponse, SignatureField,
  ResponseAction, Store, owned,
}
use pexlo_portal.Documents.Lookup.{
  by_id, DistinctIds, status_in, status_of, find_by_id-owned, find_by_id-update,
}
use pexlo_portal.Documents.Verdict.{
  verdict, verdict_of, apply_verdict, update_document_status, respond, set_status, save_reply,
  respond_blocked, responses_of, fields_of, client_count,
}
use pexlo_portal.Documents.Transitions.{
  moves, moves_refl, Settles, Settles-moves, moves-either, is_open, is_verdict,
}

set-Settles :
    (id i : ℕ) (status : DocumentStatus) (docs : List Document)
    → is_verdict (some status) ≡ true
    → Settles id i
        (status_in i docs)
        (status_in i (update_where (by_id id) (set_status status) docs))
set-Settles id i status docs fits = elim (ℕ_discrete i id) [
  | yes same ↦ elim (Option-cases (find_first (by_id i) docs)) [
    | inl e ↦ inl (ground (arith, find_by_id-update id (set_status status) (λ d. refl) i docs))
    | inr (d, e) ↦
        inr (same, ground (arith, find_by_id-update id (set_status status) (λ d. refl) i docs))
  ]
  | no other ↦ inl (ground (arith, find_by_id-update id (set_status status) (λ d. refl) i docs))
]

verdict-is_verdict :
    (doc : Document) (rs : List DocumentResponse) (fs : List SignatureField) (n : ℕ)
    → (verdict doc rs fs n ≡ none) ⊎ (is_verdict (verdict doc rs fs n) ≡ true)
unfolding verdict
verdict-is_verdict doc [] fs n = inl refl
verdict-is_verdict doc (r ∷ rs) fs n = ground arith

apply-Settles :
    (id i : ℕ) (v : Option DocumentStatus) (s : Store)
    → (v ≡ none) ⊎ (is_verdict v ≡ true)
    → Settles id i (status_of i s) (status_of i (apply_verdict id v s))
unfolding apply_verdict
apply-Settles id i none s h = inl refl
apply-Settles id i (some accepted) s h = set-Settles id i accepted s.documents refl
apply-Settles id i (some declined) s h = set-Settles id i declined s.documents refl
apply-Settles id i (some signed) s h = set-Settles id i signed s.documents refl
apply-Settles id i (some _) s (inl h) = cc
apply-Settles id i (some _) s (inr h) = cc

pub update_document_status-Settles :
    (id i : ℕ) (s : Store)
    → Settles id i (status_of i s) (status_of i (update_document_status id s))
unfolding update_document_status
update_document_status-Settles id i s = elim (Option-cases (find_first (by_id id) s.documents)) [
  | inl e ↦ rw (e, update_document_status) (inl refl)
  | inr (d, e) ↦
      rw (e, update_document_status)
        (apply-Settles id i (verdict_of d s) s (
          verdict-is_verdict d (responses_of d.id s) (fields_of d.id s)
            (client_count d.project_id s)))
]

open_of_respond : (a : DocumentStatus) → respond_blocked a ≡ false → is_open a ≡ true
open_of_respond a h = ground arith

pub respond-moves :
    (id user org : ℕ) (action : ResponseAction) (reason : Option String) (now new_id i : ℕ)
    (s : Store)
    → DistinctIds s.documents
    → moves (status_of i s) (status_of i (respond id user org action reason now new_id s).1) ≡ true
unfolding respond
respond-moves id user org action reason now new_id i s h =
    elim (Option-cases (find_first (owned id org) s.documents)) [
      | inl e ↦ ground (arith, moves_refl (status_of i s))
      | inr (d, e) ↦
          let s' : Store = record s {
            responses = save_reply id user action reason new_id s.responses;
          } in
          elim (Bool-cases (respond_blocked d.status)) [
            | inl closed ↦ ground (arith, moves_refl (status_of i s))
            | inr opened ↦
                moves-either i s.documents (update_document_status id s').documents
                  (respond id user org action reason now new_id s).1.documents (ground arith)
                  (Settles-moves id i d s.documents (status_of i (update_document_status id s'))
                    (find_by_id-owned id org d s.documents h e) (open_of_respond d.status opened)
                    (update_document_status-Settles id i s'))
          ]
    ]
