-- ===== src/Documents/Tokens/Links.antt =====
-- Signing links: whom a link lets in, and for how long.
use pexlo_portal.Prelude.{
  ℕ, ◌+◌, ◌≡◌, ◌≢◌, ◌≤◌, refl, inl, inr, Bool, true, false, Option, none, some, [], ◌∷◌, ◌++◌, ◌==◌,
  arith, find_first, find_first-update, find_first-append, Option-cases, ==_iff,
}
use pexlo_portal.Service.{ok}
use pexlo_portal.Documents.State.{Document, AccessToken, Store, owned, is_client}
use pexlo_portal.Documents.Lookup.{by_id, DistinctIds, find_by_id-owned}
use pexlo_portal.Documents.Tokens.{
  generate_access_token, validate_access_token, revoke_access_token, link_blocked, token_expiry,
}

module _ (hash : ℕ → ℕ) where
  abbrev pub with_hash : ℕ → AccessToken → Bool
  with_hash raw t = t.token == hash raw

  -- A link that lets a user in to a document has a row in the table that is for this user and this
  -- document, not revoked and not past its date, and the document is neither draft nor voided nor
  -- expired.
  pub validate_access_token_sound :
      (raw now user id : ℕ) (s : Store)
      → (validate_access_token hash raw now s).0 ≡ ok (user, id)
      → (t : AccessToken) × (d : Document) × (find_first (with_hash raw) s.tokens ≡ some t)
        × (find_first (by_id t.document_id) s.documents ≡ some d)
        × (t.user_id ≡ user)
        × (t.document_id ≡ id)
        × (t.revoked_at ≡ none)
        × (now ≤ t.expires_at)
        × (link_blocked d.status ≡ false)
  unfolding validate_access_token
  validate_access_token_sound raw now user id s h =
      elim (Option-cases (find_first (with_hash raw) s.tokens)) [
        | inl e ↦ absurd (ground arith)
        | inr (t, e) ↦ elim (Option-cases (find_first (by_id t.document_id) s.documents)) [
          | inl e' ↦ absurd (ground arith)
          | inr (d, e') ↦
              (t, d, e, e', ground arith, ground arith, ground arith, ground arith, ground arith)
        ]
      ]

  -- After the row that a link finds has been revoked with success, the link lets nobody in, at
  -- whatever time.
  pub validate-revoke :
      (raw now now' id token_id org : ℕ) (s : Store) (t : AccessToken) (who : ℕ × ℕ)
      → find_first (with_hash raw) s.tokens ≡ some t
      → t.id ≡ token_id
      → (revoke_access_token id token_id org now s).0 ≡ ok tt
      → (validate_access_token hash raw now' (revoke_access_token id token_id org now s).1).0
        ≢ ok who
  unfolding validate_access_token revoke_access_token
  validate-revoke raw now now' id token_id org s t who found same revoked again =
      elim (Option-cases (find_first (owned id org) s.documents)) [
        | inl e ↦ ground arith
        | inr (d, e) ↦ ground (
          arith,
          find_first-update (with_hash raw) (λ (r : AccessToken). r.id == token_id)
              (λ r. record r { revoked_at = some now }) s.tokens (λ x. refl),
        )
      ]

  -- A new link lets in the user that it was made for, to its document, up to its expiry date, if
  -- identifiers are distinct, the document is found and neither draft nor voided nor expired, the
  -- user is a client of the project, and no row had the hash of the link before.
  pub validate-generate :
      (id user org raw now now' new_id : ℕ) (s : Store) (d : Document)
      → DistinctIds s.documents
      → find_first (owned id org) s.documents ≡ some d
      → is_client d.project_id user s ≡ true
      → find_first (with_hash raw) s.tokens ≡ none
      → link_blocked d.status ≡ false
      → now' ≤ token_expiry d.expires_at now
      → (validate_access_token hash raw now'
          (generate_access_token hash id user org raw now new_id s).1).0
        ≡ ok (user, id)
  unfolding generate_access_token validate_access_token
  validate-generate id user org raw now now' new_id s d h found assigned fresh opened early =
      let row : AccessToken = record {
        id = new_id;
        document_id = id;
        user_id = user;
        token = hash raw;
        expires_at = token_expiry d.expires_at now;
        used_at = none;
        revoked_at = none;
      } in
      let known : find_first (with_hash raw) (s.tokens ++ row ∷ []) ≡ some row =
        find_first-append (with_hash raw) s.tokens row fresh
          ((==_iff (hash raw) (hash raw)).1 refl) in
      ground (arith, find_by_id-owned id org d s.documents h found)

-- A link never outlives its document's date, nor thirty days.
pub token_expiry-le :
    (expires : Option ℕ) (now : ℕ)
    → (token_expiry expires now ≤ now + 2592000000)
      × ((e : ℕ) → expires ≡ some e → token_expiry expires now ≤ e)
token_expiry-le none now = (omega arith, λ e h. cc)
token_expiry-le (some x) now = (omega arith, λ e h. ground arith)
