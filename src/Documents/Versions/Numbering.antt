-- ===== src/Documents/Versions/Numbering.antt =====
-- Version numbers, and what a new version does to a document that was out for signing.
use pexlo_portal.Prelude.{
  ℕ, ◌+◌, ◌≡◌, ◌≢◌, ◌<◌, refl, Bool, true, false, none, some, List, [], ◌∷◌, ◌++◌, ◌==◌, arith, All,
  All-append, ap, sym, ◌∙◌, subst, ==_iff, find_first, find_many, find_many-append,
  find_many-delete,
}
use pexlo_portal.Service.{ok}
use pexlo_portal.Documents.State.{Document, DocumentVersion, pending, draft, Store, owned, is_draft}
use pexlo_portal.Documents.Lookup.{by_id, DistinctIds, find_by_id-owned, find_by_id-update}
use pexlo_portal.Documents.Verdict.{responses_of}
use pexlo_portal.Documents.Versions.{FileUpload, upload_version, versions_of, old_version, point_to}

-- The numbers of the kept versions ascend, below the current one.
abbrev pub Ascending : List DocumentVersion → Type 0
Ascending [] = Unit
Ascending (v ∷ vs) = All (λ (w : DocumentVersion). v.version < w.version) vs × Ascending vs

abbrev pub IsNumbered : ℕ → List DocumentVersion → Type 0
IsNumbered current vs = Ascending vs × All (λ (v : DocumentVersion). v.version < current) vs

Ascending-append :
    (vs : List DocumentVersion) (v : DocumentVersion)
    → IsNumbered v.version vs
    → Ascending (vs ++ v ∷ [])
Ascending-append [] v h = (tt, tt)
Ascending-append (w ∷ ws) v h = (
  All-append (λ (x : DocumentVersion). w.version < x.version) ws (v ∷ []) h.0.0 (h.1.0, tt),
  Ascending-append ws v (h.0.1, h.1.1),
)

below_next :
    (n : ℕ) (vs : List DocumentVersion)
    → All (λ (v : DocumentVersion). v.version < n) vs
    → All (λ (v : DocumentVersion). v.version < n + 1) vs
below_next n [] h = tt
below_next n (v ∷ vs) h = (omega arith, below_next n vs h.1)

-- Keeping the current version as the last entry leaves the numbering right for the next number.
IsNumbered-append :
    (vs : List DocumentVersion) (v : DocumentVersion)
    → IsNumbered v.version vs
    → IsNumbered (v.version + 1) (vs ++ v ∷ [])
IsNumbered-append vs v h = (
  Ascending-append vs v h,
  All-append (λ (w : DocumentVersion). w.version < v.version + 1) vs (v ∷ [])
      (below_next v.version vs h.1) (omega arith, tt),
)

module _ (id org : ℕ) (s : Store) (d : Document)
    (found : find_first (owned id org) s.documents ≡ some d) where
  module _ (user : ℕ) (file : FileUpload) (now new_file new_version : ℕ)
      (succeeds : (upload_version id org user file now new_file new_version s).0 ≡ ok tt) where
    upload_version-versions :
        (upload_version id org user file now new_file new_version s).1.versions
        ≡ s.versions ++ old_version d new_version id d.uploaded_by_id ∷ []
    unfolding upload_version
    upload_version-versions = ground arith

    upload_version-document :
        DistinctIds s.documents
        → find_first
            (by_id id)
            (upload_version id org user file now new_file new_version s).1.documents
          ≡ some (point_to d new_file d)
    unfolding upload_version
    upload_version-document h = ground (
      arith,
      find_by_id-owned id org d s.documents h found,
      find_by_id-update id (point_to d new_file) (λ x. refl) id s.documents,
    )

    -- Where identifiers are distinct and the kept versions of the document are numbered in
    -- ascending order below its current version, a successful upload makes the document point to
    -- the new file under the next number, keeps the replaced file as the last version under the
    -- old number, and leaves the kept versions so numbered.
    pub upload_version-IsNumbered :
        DistinctIds s.documents
        → IsNumbered d.current_version (versions_of id s)
        → let t = (upload_version id org user file now new_file new_version s).1 in
          (find_first (by_id id) t.documents ≡ some (point_to d new_file d))
          × (versions_of id t
              ≡ versions_of id s ++ old_version d new_version id d.uploaded_by_id ∷ [])
          × IsNumbered (point_to d new_file d).current_version (versions_of id t)
    unfolding upload_version
    upload_version-IsNumbered h numbered =
        let old : DocumentVersion = old_version d new_version id d.uploaded_by_id in
        let mine : DocumentVersion → Bool = λ (v : DocumentVersion). v.document_id == id in
        let self : (id == id) ≡ true = (==_iff id id).1 refl in
        let kept : versions_of id (upload_version id org user file now new_file new_version s).1
            ≡ versions_of id s ++ old ∷ [] =
          ap (find_many mine) upload_version-versions
          ∙ find_many-append mine s.versions (old ∷ [])
          ∙ (rw self refl) in
        (
          upload_version-document h,
          kept,
          subst (IsNumbered (d.current_version + 1)) (sym kept)
              (IsNumbered-append (versions_of id s) old numbered),
        )

    upload_version-responses :
        d.status ≢ draft
        → responses_of id (upload_version id org user file now new_file new_version s).1 ≡ []
    unfolding upload_version
    upload_version-responses sent =
        let not_draft : is_draft d.status ≡ false = ground arith in
        ground (arith, find_many-delete (λ r. r.document_id == id) s.responses)

    -- If identifiers are distinct, uploading a version of a document that had been sent succeeds
    -- only by removing all responses to it, and leaves it pending and without a signed file.
    pub upload_version-resets :
        DistinctIds s.documents
        → d.status ≢ draft
        → let t = (upload_version id org user file now new_file new_version s).1 in
          (responses_of id t ≡ [])
          × (e : Document) × (find_first (by_id id) t.documents ≡ some e)
          × (e.status ≡ pending)
          × (e.signed_file_id ≡ none)
          × (e.file_id ≡ new_file)
    upload_version-resets h sent =
        let not_draft : is_draft d.status ≡ false = ground arith in
        (
          upload_version-responses sent,
          point_to d new_file d,
          upload_version-document h,
          ground arith,
          refl,
          refl,
        )
