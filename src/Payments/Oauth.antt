-- ===== src/Payments/Oauth.antt =====
-- The signed state of the Stripe Connect authorisation.
pub mod Signed
use pexlo_portal.Prelude.{
  ℕ, Bool, true, false, not, Option, none, some, List, [], ◌∷◌, ◌++◌, ◌==◌, ◌&&◌, if◌then◌else◌,
}
use pexlo_portal.Service.{Action, pure, gets, throw_if, or_throw, modify, bad_request, ◌>>=◌, ◌>>◌}
use pexlo_portal.Ledger.{SystemSettings, Store, same_text}
use pexlo_portal.Payments.Settings.{upsert_settings}

-- A text is the list of its character codes.
abbrev pub Text : Type 0
Text = List ℕ

-- The keyed hash in base64url, base64url itself, the text of an organisation's identifier, the
-- origin of a URL, if it is one, and what Stripe answers for an authorisation code.
pub record OauthService : Type 0 where
  pub hmac : Text → Text
  pub encode : Text → Text
  pub decode : Text → Text
  pub id_text : ℕ → Text
  pub id_of : Text → ℕ
  pub origin : Text → Option Text
  pub token : Text → Option (Option ℕ × Bool)

abbrev pub dot : ℕ
dot = 46

abbrev pub colon : ℕ
colon = 58

-- `lastIndexOf` and the two slices around it.
abbrev pub split_last : ℕ → Text → Option (Text × Text)
split_last c [] = none
split_last c (x ∷ xs) = elim (split_last c xs) [
  | none ↦ if x == c then some ([], xs) else none
  | some (a, b) ↦ some (x ∷ a, b)
]

-- `indexOf` and the two slices around it.
abbrev pub split_first : ℕ → Text → Option (Text × Text)
split_first c [] = none
split_first c (x ∷ xs) =
    let rest = split_first c xs in
    if x == c then some ([], xs) else elim rest [ none ↦ none | some (a, b) ↦ some (x ∷ a, b) ]

module _ (lib : OauthService) where
  unfoldable pub sign_state : Text → Text
  sign_state payload = payload ++ dot ∷ lib.hmac payload

  unfoldable pub verify_state : Text → Option Text
  verify_state state = elim (split_last dot state) [
    | none ↦ none
    | some (payload, sig) ↦ if same_text sig (lib.hmac payload) then some payload else none
  ]

  -- `validateAppUrl`
  abbrev pub is_app_url : Text → Text → Bool
  is_app_url app url = elim (lib.origin url) [ none ↦ false | some o ↦ same_text o app ]

  -- The state of `getConnectAuthorizeUrl`; `app` is the origin of the web application.
  unfoldable pub connect_state : Text → ℕ → Text → Option Text
  unfolding sign_state
  connect_state app org return_url =
      if is_app_url app return_url
      then some (sign_state (lib.id_text org ++ colon ∷ lib.encode return_url))
      else none

  abbrev pub with_account : ℕ → Bool → SystemSettings → SystemSettings
  with_account account live r = record r {
    stripe_connect_account_id = some account;
    stripe_connect_enabled = true;
    stripe_connect_livemode = live;
    stripe_secret_key = none;
    stripe_webhook_secret = none;
  }

  -- The organisation and the return address that a state names.
  unfoldable pub read_state : Text → Text → Option (ℕ × Text)
  read_state app state = elim (verify_state state) [
    | none ↦ none
    | some payload ↦ elim (split_first colon payload) [
      | none ↦ none
      | some (org, url) ↦
          if is_app_url app (lib.decode url) then some (lib.id_of org, lib.decode url) else none
    ]
  ]

  -- `handleOAuthCallback`
  unfoldable pub handle_oauth_callback : Text → Text → Text → Action Store Text
  unfolding upsert_settings
  handle_oauth_callback app code state = do
    named ← or_throw (read_state app state) bad_request
    answer ← or_throw (lib.token code) bad_request
    account ← or_throw answer.0 bad_request
    modify (upsert_settings named.0 (with_account account answer.1))
    pure named.1
