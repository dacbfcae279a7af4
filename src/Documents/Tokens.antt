-- ===== src/Documents/Tokens.antt =====
-- Access tokens: the links by which a client signs without logging in.
pub mod Links
use pexlo_portal.Prelude.{
  ℕ, ◌+◌, ◌*◌, Bool, true, false, not, Option, none, some, List, [], ◌∷◌, ◌++◌, ◌==◌, ◌&&◌,
  if◌then◌else◌, find_first, update_where, delete_where, is_some, ltb, min,
}
use pexlo_portal.Service.{
  Action, pure, throw_if, gets, or_throw, modify, not_found, bad_request, ◌>>=◌, ◌>>◌,
}
use pexlo_portal.Documents.State.{
  DocumentStatus, draft, voided, expired, Document, AccessToken, Store, find_document, is_client,
}
use pexlo_portal.Documents.Lifecycle.{day_ms}

abbrev pub token_expiry : Option ℕ → ℕ → ℕ
token_expiry none now = now + 30 * day_ms
token_expiry (some e) now = min e (now + 30 * day_ms)

abbrev pub link_blocked : DocumentStatus → Bool
link_blocked voided = true
link_blocked expired = true
link_blocked draft = true
link_blocked _ = false

abbrev pub mark_used : AccessToken → ℕ → List AccessToken → List AccessToken
mark_used t now tokens =
    if is_some t.used_at
    then tokens
    else update_where (λ (r : AccessToken). r.id == t.id) (λ r. record r { used_at = some now })
        tokens

-- `hash` is the SHA-256 of `hashToken`; raw tokens and hashes are numbers.
module _ (hash : ℕ → ℕ) where
  -- `raw` is what `randomBytes` gave; the table keeps only its hash.
  unfoldable pub generate_access_token : ℕ → ℕ → ℕ → ℕ → ℕ → ℕ → Action Store (ℕ × ℕ)
  unfolding find_document is_client
  generate_access_token id user org raw now new_id = do
    doc ← find_document id org
    assigned ← gets (is_client doc.project_id user)
    throw_if (not assigned) bad_request
    let row : AccessToken = record {
      id = new_id;
      document_id = id;
      user_id = user;
      token = hash raw;
      expires_at = token_expiry doc.expires_at now;
      used_at = none;
      revoked_at = none;
    }
    modify (λ s. record s { tokens = s.tokens ++ row ∷ [] })
    pure (raw, token_expiry doc.expires_at now)

  -- The user and the document that the link stands for.
  unfoldable pub validate_access_token : ℕ → ℕ → Action Store (ℕ × ℕ)
  validate_access_token raw now = do
    tokens ← gets (λ s. s.tokens)
    t ← or_throw (find_first (λ (r : AccessToken). r.token == hash raw) tokens) not_found
    documents ← gets (λ s. s.documents)
    doc ← or_throw (find_first (λ (d : Document). d.id == t.document_id) documents) not_found
    throw_if (is_some t.revoked_at) bad_request
    throw_if (ltb t.expires_at now) bad_request
    throw_if (link_blocked doc.status) bad_request
    modify (λ s. record s { tokens = mark_used t now s.tokens })
    pure (t.user_id, t.document_id)

unfoldable pub revoke_access_token : ℕ → ℕ → ℕ → ℕ → Action Store (Unit {0})
unfolding find_document
revoke_access_token id token_id org now = do
  find_document id org
  tokens ← gets (λ s. s.tokens)
  t ←
      or_throw (find_first (λ (r : AccessToken). r.id == token_id && r.document_id == id) tokens)
        not_found
  throw_if (is_some t.revoked_at) bad_request
  modify (λ s. record s {
    tokens =
        update_where (λ (r : AccessToken). r.id == token_id)
          (λ r. record r { revoked_at = some now }) s.tokens;
  })

-- The nightly task: tokens that expired more than thirty days ago are deleted.
unfoldable pub cleanup_expired_tokens : ℕ → Store → Store
cleanup_expired_tokens now s = record s {
  tokens = delete_where (λ (t : AccessToken). ltb (t.expires_at + 30 * day_ms) now) s.tokens;
}
