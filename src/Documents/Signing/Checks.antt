-- ===== src/Documents/Signing/Checks.antt =====
-- What `sign` has established when it lets a signer through, and what reading the source file does.
use pexlo_portal.Prelude.{ℕ, ◌≡◌, ◌⊎◌, true, false, none, some, ◌==◌, arith, find_first}
use pexlo_portal.Service.{ok}
use pexlo_portal.Documents.State.{Document, SignatureField, Store, owned, Role, is_client}
use pexlo_portal.Documents.Verdict.{is_past, fields_of}
use pexlo_portal.Documents.Embedding.{open_source, Rendering}
use pexlo_portal.Documents.Signing.{
  check_document, check_field, sign_blocked, turn_reached, has_signed, assigned_elsewhere, is_admin,
}

-- Why a signer may fill a field now.
pub record MaySign (id user org : ℕ) (role : Role) (field_id now : ℕ) (s : Store) (d : Document)
    (f : SignatureField) : Type 0 where
  pub found : find_first (owned id org) s.documents ≡ some d
  pub wants_signature : d.requires_signature ≡ true
  pub not_blocked : sign_blocked d.status ≡ false
  pub in_time : is_past d.expires_at now ≡ false
  pub of_document : find_first (λ (g : SignatureField). g.id == field_id) (fields_of id s) ≡ some f
  pub on_project : (is_admin role ≡ true) ⊎ (is_client d.project_id user s ≡ true)
  pub not_yet : find_first (has_signed id user field_id) s.responses ≡ none
  pub in_turn : turn_reached d f s ≡ true
  pub assigned : assigned_elsewhere f.assigned_to user ≡ false

module _ (id org now : ℕ) (s : Store) where
  pub check_document-state : (check_document id org now s).1 ≡ s
  unfolding check_document
  check_document-state = ground arith

  pub check_document_sound :
      (d : Document)
      → (check_document id org now s).0 ≡ ok d
      → (find_first (owned id org) s.documents ≡ some d)
        × (d.requires_signature ≡ true)
        × (sign_blocked d.status ≡ false)
        × (is_past d.expires_at now ≡ false)
  unfolding check_document
  check_document_sound d h = ground arith

module _ (doc : Document) (id user : ℕ) (role : Role) (field_id : ℕ) (s : Store) where
  pub check_field-state : (check_field doc id user role field_id s).1 ≡ s
  unfolding check_field
  check_field-state = ground arith

  pub check_field_sound :
      (f : SignatureField)
      → (check_field doc id user role field_id s).0 ≡ ok f
      → (find_first (λ (g : SignatureField). g.id == field_id) (fields_of id s) ≡ some f)
        × ((is_admin role ≡ true) ⊎ (is_client doc.project_id user s ≡ true))
        × (find_first (has_signed id user field_id) s.responses ≡ none)
        × (turn_reached doc f s ≡ true)
        × (assigned_elsewhere f.assigned_to user ≡ false)
  unfolding check_field
  check_field_sound f h = ground arith

pub open_source-state :
    (lib : Rendering) (d : Document) (f : SignatureField) (s : Store)
    → (open_source lib d f s).1 ≡ s
unfolding open_source
open_source-state lib d f s = ground arith
