-- ===== src/Documents/Verdict/Deciding.antt =====
-- What the status that `updateDocumentStatus` writes says of the responses.
use pexlo_portal.Prelude.{
  ℕ, ◌≡◌, ◌≢◌, ◌⊎◌, ◌≤◌, ◌↔◌, refl, inl, inr, true, false, some, List, [], ◌∷◌, arith, All, ◌==◌,
  find_many, find_first, find_first_sound, Bool-cases, any, every, length, any_sound, any_complete,
}
use mathlib.Core.List.{Memᴰ}
use pexlo_portal.Documents.State.{
  DocumentStatus, accepted, declined, signed, Document, DocumentResponse, SignatureField,
  ResponseAction, Store,
}
use pexlo_portal.Documents.Lookup.{by_id, status_of, find_by_id-update}
use pexlo_portal.Documents.Verdict.{
  verdict, verdict_of, apply_verdict, update_document_status, responses_of, fields_of, client_count,
  is_declined, signs, field_signed, set_status,
}

-- Somebody declined.
abbrev pub Declined : List DocumentResponse → Type 0
Declined rs = (r : DocumentResponse) × Memᴰ r rs × (r.action ≡ ResponseAction.declined)

-- Somebody signed the field.
abbrev pub SignedField : List DocumentResponse → SignatureField → Type 0
SignedField rs f =
    (r : DocumentResponse) × Memᴰ r rs
    × (r.action ≡ ResponseAction.signed)
    × (r.field_id ≡ some f.id)

Declined-iff : (rs : List DocumentResponse) → (any is_declined rs ≡ true) ↔ Declined rs
Declined-iff rs = (
  λ h. let (r, m, e) = any_sound is_declined rs h in (r, m, ground arith),
  λ d. any_complete is_declined d.1 (ground arith),
)

field_signed_iff :
    (rs : List DocumentResponse) (f : SignatureField)
    → (field_signed rs f ≡ true) ↔ SignedField rs f
field_signed_iff rs f = (
  λ h. let (r, m, e) = any_sound (signs f.id) rs h in (r, m, ground arith, ground arith),
  λ d. any_complete (signs f.id) d.1 (ground arith),
)

All-signed_iff :
    (rs : List DocumentResponse) (fs : List SignatureField)
    → (every (field_signed rs) fs ≡ true) ↔ All (SignedField rs) fs
All-signed_iff rs [] = (λ h. tt, λ h. refl)
All-signed_iff rs (f ∷ fs) = (
  λ h. ((field_signed_iff rs f).0 (ground arith), (All-signed_iff rs fs).0 (ground arith)),
  λ h.
      let here : field_signed rs f ≡ true = (field_signed_iff rs f).1 h.0 in
      let rest : every (field_signed rs) fs ≡ true = (All-signed_iff rs fs).1 h.1 in ground arith,
)

verdict-declined_test :
    (d : Document) (rs : List DocumentResponse) (fs : List SignatureField) (n : ℕ)
    → (verdict d rs fs n ≡ some declined) ↔ (any is_declined rs ≡ true)
unfolding verdict
verdict-declined_test d [] fs n = ground arith
verdict-declined_test d (r ∷ rs) fs n = ground arith

verdict-signed_test :
    (d : Document) (rs : List DocumentResponse) (fs : List SignatureField) (n : ℕ)
    → (verdict d rs fs n ≡ some signed) ↔ (
        (any is_declined rs ≡ false)
        × (rs ≢ [])
        × (d.requires_signature ≡ true)
        × (fs ≢ [])
        × (every (field_signed rs) fs ≡ true))
unfolding verdict
verdict-signed_test d [] fs n = ground arith
verdict-signed_test d (r ∷ rs) [] n = ground arith
verdict-signed_test d (r ∷ rs) (f ∷ fs) n = ground arith

verdict-accepted_test :
    (d : Document) (rs : List DocumentResponse) (fs : List SignatureField) (n : ℕ)
    → (verdict d rs fs n ≡ some accepted) ↔ (
        (any is_declined rs ≡ false)
        × (rs ≢ [])
        × ((d.requires_signature ≡ false) ⊎ (fs ≡ []))
        × (n ≤ length rs))
unfolding verdict
verdict-accepted_test d [] fs n = ground arith
verdict-accepted_test d (r ∷ rs) [] n = ground arith
verdict-accepted_test d (r ∷ rs) (f ∷ fs) n = ground arith

not-Declined : (rs : List DocumentResponse) → (any is_declined rs ≡ false) ↔ (¬ Declined rs)
not-Declined rs = (
  λ h x. let t : any is_declined rs ≡ true = (Declined-iff rs).1 x in cc,
  λ no. elim (Bool-cases (any is_declined rs)) [
    | inl t ↦ absurd (no ((Declined-iff rs).0 t))
    | inr f ↦ f
  ],
)

signed_somewhere :
    (rs : List DocumentResponse) (fs : List SignatureField)
    → fs ≢ []
    → All (SignedField rs) fs
    → rs ≢ []
signed_somewhere (r ∷ rs) fs some_field h = cc
signed_somewhere [] [] some_field h = absurd (some_field refl)
signed_somewhere [] (f ∷ fs) some_field (x, _) = absurd (elim x.1 [ ])

module _ (d : Document) (rs : List DocumentResponse) (fs : List SignatureField) (clients : ℕ) where
  -- `updateDocumentStatus` decides on "declined" exactly if some response declines.
  pub verdict-declined_iff : (verdict d rs fs clients ≡ some declined) ↔ Declined rs
  verdict-declined_iff = (
    λ h. (Declined-iff rs).0 ((verdict-declined_test d rs fs clients).0 h),
    λ h. (verdict-declined_test d rs fs clients).1 ((Declined-iff rs).1 h),
  )

  -- `updateDocumentStatus` decides on "signed" exactly if nobody declined, the document wants
  -- signatures, and it has fields, each of which somebody has signed.
  pub verdict-signed_iff :
      (verdict d rs fs clients ≡ some signed)
      ↔ ((¬ Declined rs) × (d.requires_signature ≡ true) × (fs ≢ []) × All (SignedField rs) fs)
  verdict-signed_iff = (
    λ h.
        let (undeclined, _, wants, fields, all) = (verdict-signed_test d rs fs clients).0 h in
        ((not-Declined rs).0 undeclined, wants, fields, (All-signed_iff rs fs).0 all),
    λ h. (verdict-signed_test d rs fs clients).1 (
      (not-Declined rs).1 h.0,
      signed_somewhere rs fs h.2 h.3,
      h.1,
      h.2,
      (All-signed_iff rs fs).1 h.3,
    ),
  )

  -- `updateDocumentStatus` decides on "accepted" exactly if nobody declined, the document wants no
  -- signature or has no field, and there are responses, at least as many as clients on the project,
  -- whoever gave them.
  pub verdict-accepted_iff : (verdict d rs fs clients ≡ some accepted) ↔ (
      (¬ Declined rs)
      × (rs ≢ [])
      × ((d.requires_signature ≡ false) ⊎ (fs ≡ []))
      × (clients ≤ length rs))
  verdict-accepted_iff = (
    λ h.
        let (undeclined, some_response, no_fields, enough) =
          (verdict-accepted_test d rs fs clients).0 h in
        ((not-Declined rs).0 undeclined, some_response, no_fields, enough),
    λ h. (verdict-accepted_test d rs fs clients).1 ((not-Declined rs).1 h.0, h.1, h.2, h.3),
  )

apply_verdict-status :
    (id : ℕ) (v : DocumentStatus) (s : Store) (d : Document)
    → find_first (by_id id) s.documents ≡ some d
    → status_of id (apply_verdict id (some v) s) ≡ some v
unfolding apply_verdict
apply_verdict-status id DocumentStatus.signed s d e =
    ground (arith, find_by_id-update id (set_status signed) (λ x. refl) id s.documents)
apply_verdict-status id v s d e =
    ground (arith, find_by_id-update id (set_status v) (λ x. refl) id s.documents)

update_document_status-overwrites :
    (id : ℕ) (v : DocumentStatus) (s : Store) (d : Document)
    → find_first (by_id id) s.documents ≡ some d
    → verdict_of d s ≡ some v
    → status_of id (update_document_status id s) ≡ some v
unfolding update_document_status
update_document_status-overwrites id v s d e decided =
    rw (e, update_document_status, decided) (apply_verdict-status id v s d e)

Mem-responses_of :
    (id : ℕ) (r : DocumentResponse) (rs : List DocumentResponse)
    → r.document_id ≡ id
    → Memᴰ r rs
    → Memᴰ r (find_many (λ (x : DocumentResponse). x.document_id == id) rs)
Mem-responses_of id r [] to_it m = elim m [ ]
Mem-responses_of id r (y ∷ rs) to_it (Memᴰ.head e) =
    let asked : (y.document_id == id) ≡ true = rw (← e) (ground arith) in rw asked (Memᴰ.head e)
Mem-responses_of id r (y ∷ rs) to_it (Memᴰ.tail m) =
    let rest = Mem-responses_of id r rs to_it m in
    elim (Bool-cases (y.document_id == id)) [
      | inl its ↦ rw its (Memᴰ.tail rest)
      | inr other ↦ rw other rest
    ]

-- If some response to a document declines, `updateDocumentStatus` makes the document's status
-- "declined", whatever it was, a final one too.
pub update_document_status-declines :
    (id : ℕ) (s : Store) (d : Document) (r : DocumentResponse)
    → find_first (by_id id) s.documents ≡ some d
    → Memᴰ r s.responses
    → r.document_id ≡ id
    → r.action ≡ ResponseAction.declined
    → status_of id (update_document_status id s) ≡ some declined
update_document_status-declines id s d r found given to_it declines =
    let same : d.id ≡ id = ground (arith, find_first_sound (by_id id) s.documents d found) in
    let among : Memᴰ r (responses_of d.id s) =
      Mem-responses_of d.id r s.responses (ground arith) given in
    let decided : verdict_of d s ≡ some declined =
      (verdict-declined_iff d (responses_of d.id s) (fields_of d.id s)
          (client_count d.project_id s)).1
        (r, among, declines) in
    update_document_status-overwrites id declined s d found decided
