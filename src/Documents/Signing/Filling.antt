-- ===== src/Documents/Signing/Filling.antt =====
-- What filling a field does to the store: one new response and one new signed file.
use pexlo_portal.Prelude.{
  ℕ, ◌≡◌, ◌⊎◌, refl, inl, inr, Option, none, some, List, [], ◌∷◌, ◌++◌, arith, update_where,
  Option-cases,
}
use Prim.Native.String.{String}
use pexlo_portal.Service.{ok, or_throw}
use pexlo_portal.Documents.Lifecycle.{or_null}
use pexlo_portal.Documents.State.{
  Document, SignatureField, Store, FieldType, date, text, select, signature_image, DocumentResponse,
  ResponseAction,
}
use pexlo_portal.Documents.Lookup.{by_id}
use pexlo_portal.Documents.Embedding.{
  Rendering, SignRequest, SignatureUpload, embed_text, embed_image, set_signed_file, put_blob,
  signed_response,
}
use pexlo_portal.Documents.Signing.{fill_field}
use pexlo_portal.Documents.Signing.Checks.{open_source-state}

module _ (lib : Rendering) (doc : Document) (field : SignatureField) where
  module _ (id user org : ℕ) (dto : SignRequest) (now new_file new_response : ℕ) (s : Store) where
    embed_text-documents :
        (value : String)
        → let docs =
            (embed_text lib doc field value id user org dto now new_file new_response
              s).1.documents in
          (docs ≡ s.documents)
          ⊎ (docs ≡ update_where (by_id id) (set_signed_file new_file) s.documents)
    unfolding embed_text
    embed_text-documents value = ground (arith, open_source-state lib doc field s)

    embed_image-documents :
        (file : Option SignatureUpload)
        → let docs =
            (embed_image lib doc field file id user org dto now new_file new_response
              s).1.documents in
          (docs ≡ s.documents)
          ⊎ (docs ≡ update_where (by_id id) (set_signed_file new_file) s.documents)
    unfolding embed_image
    embed_image-documents none = inl refl
    embed_image-documents (some image) =
        let s' : Store =
          put_blob (signature_image org doc.project_id id user dto.field_id) image.content s in
        ground (arith, open_source-state lib doc field s')

    -- The response that a signature leaves.
    abbrev pub Recorded : List DocumentResponse → Type 0
    Recorded responses =
        (r : DocumentResponse) × (responses ≡ s.responses ++ r ∷ [])
        × (r.document_id ≡ id)
        × (r.user_id ≡ user)
        × (r.action ≡ ResponseAction.signed)
        × (r.field_id ≡ some dto.field_id)

    embed_text-Recorded :
        (value : String)
        → (embed_text lib doc field value id user org dto now new_file new_response s).0 ≡ ok tt
        → Recorded
            (embed_text lib doc field value id user org dto now new_file new_response s).1.responses
    unfolding embed_text
    embed_text-Recorded value h = (
      signed_response new_response id user dto none (some value) now,
      ground (arith, open_source-state lib doc field s),
      refl,
      refl,
      refl,
      refl,
    )

    embed_image-Recorded :
        (file : Option SignatureUpload)
        → (embed_image lib doc field file id user org dto now new_file new_response s).0 ≡ ok tt
        → Recorded
            (embed_image lib doc field file id user org dto now new_file new_response s).1.responses
    unfolding embed_image
    embed_image-Recorded none h = cc
    embed_image-Recorded (some image) h =
        let key = signature_image org doc.project_id id user dto.field_id in
        let s' : Store = put_blob key image.content s in
        (
          signed_response new_response id user dto (some key) none now,
          ground (arith, open_source-state lib doc field s'),
          refl,
          refl,
          refl,
          refl,
        )

    pub fill_field-documents :
        (type : FieldType) (file : Option SignatureUpload)
        → let docs =
            (fill_field lib doc field type file id user org dto now new_file new_response
              s).1.documents in
          (docs ≡ s.documents)
          ⊎ (docs ≡ update_where (by_id id) (set_signed_file new_file) s.documents)
    unfolding fill_field
    fill_field-documents date file =
        elim (Option-cases (lib.format_date now (or_null dto.timezone))) [
          | inl e ↦ inl (ground arith)
          | inr (day, e) ↦ rw (e, or_throw) (embed_text-documents day)
        ]
    fill_field-documents text file = elim (Option-cases (or_null dto.text_value)) [
      | inl e ↦ inl (ground arith)
      | inr (value, e) ↦ rw (e, or_throw) (embed_text-documents value)
    ]
    fill_field-documents select file = elim (Option-cases (or_null dto.text_value)) [
      | inl e ↦ inl (ground arith)
      | inr (value, e) ↦ rw (e, or_throw) (embed_text-documents value)
    ]
    fill_field-documents _ file = embed_image-documents file

    pub fill_field-Recorded :
        (type : FieldType) (file : Option SignatureUpload)
        → (fill_field lib doc field type file id user org dto now new_file new_response s).0 ≡ ok tt
        → Recorded
            (fill_field lib doc field type file id user org dto now new_file new_response
              s).1.responses
    unfolding fill_field
    fill_field-Recorded date file h =
        elim (Option-cases (lib.format_date now (or_null dto.timezone))) [
          | inl e ↦ absurd (ground arith)
          | inr (day, e) ↦ rw (e, or_throw) (embed_text-Recorded day (rw (e, or_throw) at h))
        ]
    fill_field-Recorded text file h = elim (Option-cases (or_null dto.text_value)) [
      | inl e ↦ absurd (ground arith)
      | inr (value, e) ↦ rw (e, or_throw) (embed_text-Recorded value (rw (e, or_throw) at h))
    ]
    fill_field-Recorded select file h = elim (Option-cases (or_null dto.text_value)) [
      | inl e ↦ absurd (ground arith)
      | inr (value, e) ↦ rw (e, or_throw) (embed_text-Recorded value (rw (e, or_throw) at h))
    ]
    fill_field-Recorded _ file h = embed_image-Recorded file h
