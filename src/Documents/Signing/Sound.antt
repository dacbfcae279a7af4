-- ===== src/Documents/Signing/Sound.antt =====
-- The signing transaction, seen from outside.
use pexlo_portal.Prelude.{ℕ, ◌≡◌, ◌≢◌, true, Option, none, List, [], ◌∷◌, ◌++◌, arith, find_first}
use pexlo_portal.Service.{ok}
use pexlo_portal.Documents.State.{Document, DocumentResponse, SignatureField, Store, Role}
use pexlo_portal.Documents.Embedding.{Rendering, SignRequest, SignatureUpload}
use pexlo_portal.Documents.Signing.{sign_transaction, has_signed}
use pexlo_portal.Documents.Signing.Checks.{MaySign}
use pexlo_portal.Documents.Signing.Filling.{Recorded, fill_field-Recorded}
use pexlo_portal.Documents.Signing.Transaction.{sign_transaction-ok}

module _ (lib : Rendering) (id user org : ℕ) (role : Role) (dto : SignRequest)
    (file : Option SignatureUpload) (now new_file new_response : ℕ) (s : Store) where
  -- A signing transaction succeeds only if the document, the field and the signer pass every check
  -- of `MaySign`, and then it appends exactly one response, this signer's signature of this field.
  pub sign_transaction_sound :
      (sign_transaction lib id user org role dto file now new_file new_response s).0 ≡ ok tt
      → (d : Document) × (f : SignatureField) × MaySign id user org role dto.field_id now s d f
        × Recorded lib d f id user org dto now new_file new_response s
            (sign_transaction lib id user org role dto file now new_file new_response s).1.responses
  sign_transaction_sound h =
      let (d, f, may, filled, e) =
        sign_transaction-ok lib id user org role dto file now new_file new_response s h in
      (
        d,
        f,
        may,
        rw e (
            fill_field-Recorded lib d f id user org dto now new_file new_response s f.type file
              filled),
      )

has_signed_twice :
    (id user field : ℕ) (r : DocumentResponse) (rs : List DocumentResponse)
    → has_signed id user field r ≡ true
    → find_first (has_signed id user field) (rs ++ r ∷ []) ≢ none
has_signed_twice id user field r [] h = ground arith
has_signed_twice id user field r (x ∷ rs) h = ground (arith, has_signed_twice id user field r rs h)

-- After a signing transaction that succeeded, the same signer's next signing transaction on the
-- same field of the document does not succeed, whatever else it sends and whenever.
pub sign_transaction-once :
    (lib : Rendering) (id user org : ℕ) (role : Role) (dto : SignRequest)
    (file : Option SignatureUpload) (now new_file new_response : ℕ) (s : Store) (role' : Role)
    (dto' : SignRequest) (file' : Option SignatureUpload) (now' new_file' new_response' : ℕ)
    → (sign_transaction lib id user org role dto file now new_file new_response s).0 ≡ ok tt
    → dto'.field_id ≡ dto.field_id
    → (sign_transaction lib id user org role' dto' file' now' new_file' new_response'
        (sign_transaction lib id user org role dto file now new_file new_response s).1).0
      ≢ ok tt
sign_transaction-once lib id user org role dto file now new_file new_response s role' dto' file'
      now' new_file' new_response' h same again =
    let t : Store =
      (sign_transaction lib id user org role dto file now new_file new_response s).1 in
    let (d, f, _, (r, grown, of_id, of_user, _, of_field)) =
      sign_transaction_sound lib id user org role dto file now new_file new_response s h in
    let (_, _, may, _) =
      sign_transaction_sound lib id user org role' dto' file' now' new_file' new_response' t
        again in
    let mine : has_signed id user dto.field_id r ≡ true = ground arith in
    let before : find_first (has_signed id user dto.field_id) t.responses ≡ none =
      rw same at may.not_yet in
    has_signed_twice id user dto.field_id r s.responses mine (rw grown at before)
