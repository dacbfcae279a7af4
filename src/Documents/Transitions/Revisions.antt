-- ===== src/Documents/Transitions/Revisions.antt =====
-- New versions, new documents and reminders, on the status of every document.
use pexlo_portal.Prelude.{
  ℕ, ◌≡◌, refl, inl, inr, true, false, some, List, [], ◌∷◌, ◌==◌, arith, ◌∙◌, find_first, find_many,
  update_where, Option-cases, Bool-cases, ◌&&◌,
}
use pexlo_portal.Documents.State.{Document, Store, owned, DocumentVersion}
use pexlo_portal.Documents.Lookup.{by_id, DistinctIds, status_of, find_by_id-owned}
use pexlo_portal.Documents.Versions.{
  FileUpload, upload_version, restore_version, is_closed, point_to,
}
use pexlo_portal.Documents.Tasks.{is_remindable, reminder_due, remind, remind_each, send_reminders}
use pexlo_portal.Documents.Transitions.{
  moves, moves_refl, moves-update, moves-either, status_in-update, may_become,
}

point_to-may_become :
    (d : Document) (file : ℕ)
    → is_closed d.status ≡ false
    → may_become d.status (point_to d file d).status ≡ true
point_to-may_become d file h = ground arith

module _ (id org i : ℕ) (s : Store) (h : DistinctIds s.documents) where
  pub upload_version-moves :
      (user : ℕ) (file : FileUpload) (now new_file new_version : ℕ)
      → moves
          (status_of i s)
          (status_of i (upload_version id org user file now new_file new_version s).1)
        ≡ true
  unfolding upload_version
  upload_version-moves user file now new_file new_version =
      elim (Option-cases (find_first (owned id org) s.documents)) [
        | inl e ↦ ground (arith, moves_refl (status_of i s))
        | inr (d, e) ↦ elim (Bool-cases (is_closed d.status)) [
          | inl late ↦ ground (arith, moves_refl (status_of i s))
          | inr opened ↦
              moves-either i s.documents (update_where (by_id id) (point_to d new_file) s.documents)
                (upload_version id org user file now new_file new_version s).1.documents
                (ground arith)
                (moves-update id i (point_to d new_file) d s.documents (λ x. refl)
                  (find_by_id-owned id org d s.documents h e)
                  (point_to-may_become d new_file opened))
        ]
      ]

  pub restore_version-moves :
      (user version_id new_version : ℕ)
      → moves (status_of i s) (status_of i (restore_version id version_id org user new_version s).1)
        ≡ true
  unfolding restore_version
  restore_version-moves user version_id new_version =
      elim (Option-cases (find_first (owned id org) s.documents)) [
        | inl e ↦ ground (arith, moves_refl (status_of i s))
        | inr (d, e) ↦ elim (Bool-cases (is_closed d.status)) [
          | inl late ↦ ground (arith, moves_refl (status_of i s))
          | inr opened ↦
              elim (Option-cases (
                find_first (λ (v : DocumentVersion). v.id == version_id && v.document_id == id)
                  s.versions)) [
                    | inl missing ↦ ground (arith, moves_refl (status_of i s))
                    | inr (v, found) ↦
                        moves-either i s.documents
                          (update_where (by_id id) (point_to d v.file_id) s.documents)
                          (restore_version id version_id org user new_version s).1.documents
                          (ground arith)
                          (moves-update id i (point_to d v.file_id) d s.documents (λ x. refl)
                            (find_by_id-owned id org d s.documents h e)
                            (point_to-may_become d v.file_id opened))
                  ]
        ]
      ]

remind-status :
    (now i : ℕ) (d : Document) (s : Store) → status_of i (remind now d s) ≡ status_of i s
unfolding remind_each
remind-status now i d s =
    status_in-update d.id i (λ e. record e { last_reminder_at = some now }) s.documents (λ x. refl)
      (λ x. refl)

remind_each-status :
    (now i : ℕ) (ds : List Document) (s : Store)
    → status_of i (remind_each now ds s) ≡ status_of i s
unfolding remind_each
remind_each-status now i [] s = refl
remind_each-status now i (d ∷ ds) s = elim (Bool-cases (reminder_due now d)) [
  | inl due ↦
      rw (due, remind_each) (remind_each-status now i ds (remind now d s) ∙ remind-status now i d s)
  | inr early ↦ rw (early, remind_each) (remind_each-status now i ds s)
]

pub send_reminders-status :
    (now i : ℕ) (s : Store) → status_of i (send_reminders now s) ≡ status_of i s
unfolding send_reminders
send_reminders-status now i s = remind_each-status now i (find_many is_remindable s.documents) s
