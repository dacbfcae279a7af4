-- ===== src/Payments/Settings.antt =====
-- How an organisation takes payments: its own Stripe key, or a connected account.
use pexlo_portal.Prelude.{
  ℕ, Bool, true, false, not, Option, none, some, List, [], ◌∷◌, ◌++◌, ◌==◌, ◌&&◌, ◌||◌,
  if◌then◌else◌, find_first, find_many, update_where, any, is_some,
}
use pexlo_portal.Service.{Action, pure, gets, throw_if, or_throw, modify, bad_request, ◌>>=◌, ◌>>◌}
use pexlo_portal.Ledger.{
  SystemSettings, PaymentMethod, card, link, us_bank_account, sepa_debit, ideal, bacs_debit, klarna,
  afterpay_clearpay, affirm, cashapp, Store,
}

-- A key is the list of its character codes.
abbrev pub Key : Type 0
Key = List ℕ

-- The encryption of the settings service, and what Stripe answers for a key: whether it works, and
-- the secret of a webhook that is registered with it.
pub record KeyService : Type 0 where
  pub encrypt : Key → ℕ
  pub decrypt : ℕ → Option Key
  pub works : Key → Bool
  pub register_webhook : Key → ℕ → Option Key

abbrev pub of_org : ℕ → SystemSettings → Bool
of_org org r = r.organization_id == org

abbrev pub settings_of : ℕ → Store → Option SystemSettings
settings_of org s = find_first (of_org org) s.settings

-- The defaults of a row that is created.
abbrev pub default_settings : ℕ → SystemSettings
default_settings org = record {
  organization_id = org;
  stripe_secret_key = none;
  stripe_webhook_secret = none;
  stripe_connect_account_id = none;
  stripe_connect_enabled = false;
  stripe_connect_livemode = false;
  stripe_payment_methods = [];
}

-- `upsert`: the row is updated if there is one, and else created with the same columns.
unfoldable pub upsert_settings : ℕ → (SystemSettings → SystemSettings) → Store → Store
upsert_settings org f s = record s {
  settings =
      if any (of_org org) s.settings
      then update_where (of_org org) f s.settings
      else s.settings ++ f (default_settings org) ∷ [];
}

-- `PAYMENTS_CLEAR_DATA`
abbrev pub clear_payments : SystemSettings → SystemSettings
clear_payments r = record r {
  stripe_secret_key = none;
  stripe_webhook_secret = none;
  stripe_connect_account_id = none;
  stripe_connect_enabled = false;
  stripe_connect_livemode = false;
}

-- The platform's own instance acting for a connected account, or an instance with the
-- organisation's key.
pub data StripeConfig : Type 0 where
  connected : ℕ → StripeConfig
  direct : Key → StripeConfig

abbrev pub connect_account : SystemSettings → Option ℕ
connect_account r = if r.stripe_connect_enabled then r.stripe_connect_account_id else none

module _ (lib : KeyService) where
  abbrev pub direct_config : SystemSettings → Option StripeConfig
  direct_config r = elim r.stripe_secret_key [
    | none ↦ none
    | some k ↦ elim (lib.decrypt k) [ none ↦ none | some key ↦ some (direct key) ]
  ]

  abbrev pub config_in : SystemSettings → Option StripeConfig
  config_in r = elim (connect_account r) [ none ↦ direct_config r | some a ↦ some (connected a) ]

  -- `getStripeConfig`: every failure is a bad request.
  unfoldable pub get_stripe_config : ℕ → Action Store StripeConfig
  get_stripe_config org = do
    found ← gets (settings_of org)
    settings ← or_throw found bad_request
    or_throw (config_in settings) bad_request

abbrev pub starts_with : List ℕ → List ℕ → Bool
starts_with [] t = true
starts_with (c ∷ cs) [] = false
starts_with (c ∷ cs) (d ∷ ds) = c == d && starts_with cs ds

-- "sk_test_", "sk_live_", "rk_test_" and "rk_live_"
abbrev pub sk_test : List ℕ
sk_test = 115 ∷ 107 ∷ 95 ∷ 116 ∷ 101 ∷ 115 ∷ 116 ∷ 95 ∷ []

abbrev pub sk_live : List ℕ
sk_live = 115 ∷ 107 ∷ 95 ∷ 108 ∷ 105 ∷ 118 ∷ 101 ∷ 95 ∷ []

abbrev pub rk_test : List ℕ
rk_test = 114 ∷ 107 ∷ 95 ∷ 116 ∷ 101 ∷ 115 ∷ 116 ∷ 95 ∷ []

abbrev pub rk_live : List ℕ
rk_live = 114 ∷ 107 ∷ 95 ∷ 108 ∷ 105 ∷ 118 ∷ 101 ∷ 95 ∷ []

abbrev pub is_live : Key → Bool
is_live key = starts_with sk_live key || starts_with rk_live key

abbrev pub is_key : Key → Bool
is_key key = starts_with sk_test key || starts_with rk_test key || is_live key

abbrev pub with_keys : ℕ → ℕ → Bool → SystemSettings → SystemSettings
with_keys key secret live r = record r {
  stripe_secret_key = some key;
  stripe_webhook_secret = some secret;
  stripe_connect_enabled = true;
  stripe_connect_livemode = live;
  stripe_connect_account_id = none;
}

-- The removal of the webhook of an older key is best effort, and changes nothing here.
unfoldable pub save_direct_keys : KeyService → ℕ → Key → Action Store Bool
unfolding upsert_settings
save_direct_keys lib org key = do
  throw_if (not (is_key key)) bad_request
  throw_if (not (lib.works key)) bad_request
  secret ← or_throw (lib.register_webhook key org) bad_request
  modify (upsert_settings org (with_keys (lib.encrypt key) (lib.encrypt secret) (is_live key)))
  pure (is_live key)

unfoldable pub remove_direct_keys : ℕ → Action Store (Unit {0})
remove_direct_keys org = do
  found ← gets (settings_of org)
  settings ← or_throw found bad_request
  throw_if (not (is_some settings.stripe_secret_key)) bad_request
  modify (λ s. record s { settings = update_where (of_org org) clear_payments s.settings })

unfoldable pub disconnect_account : ℕ → Action Store (Unit {0})
disconnect_account org = do
  found ← gets (settings_of org)
  settings ← or_throw found bad_request
  throw_if (not (is_some settings.stripe_connect_account_id)) bad_request
  modify (λ s. record s { settings = update_where (of_org org) clear_payments s.settings })

abbrev pub method_code : PaymentMethod → ℕ
method_code card = 0
method_code link = 1
method_code us_bank_account = 2
method_code sepa_debit = 3
method_code ideal = 4
method_code bacs_debit = 5
method_code klarna = 6
method_code afterpay_clearpay = 7
method_code affirm = 8
method_code cashapp = 9

abbrev pub includes : List PaymentMethod → PaymentMethod → Bool
includes ms m = any (λ x. method_code x == method_code m) ms

-- `[...new Set(methods)]`: each method where it first comes.
abbrev pub dedup_onto : List PaymentMethod → List PaymentMethod → List PaymentMethod
dedup_onto seen [] = seen
dedup_onto seen (m ∷ ms) = dedup_onto (if includes seen m then seen else seen ++ m ∷ []) ms

abbrev pub with_card : List PaymentMethod → List PaymentMethod
with_card ms = if includes ms link && not (includes ms card) then ms ++ card ∷ [] else ms

abbrev pub is_us_bank : PaymentMethod → Bool
is_us_bank us_bank_account = true
is_us_bank _ = false

-- The list that `savePaymentMethods` stores; `usd` says that the currency is US dollars.
unfoldable pub accepted_methods : Bool → List PaymentMethod → List PaymentMethod
accepted_methods usd ms =
    let all = with_card (dedup_onto [] ms) in
    if usd then all else find_many (λ m. not (is_us_bank m)) all

unfoldable pub save_payment_methods :
    Bool → ℕ → List PaymentMethod → Action Store (List PaymentMethod)
unfolding upsert_settings
save_payment_methods usd org ms = do
  modify (upsert_settings org (λ r. record r { stripe_payment_methods = accepted_methods usd ms }))
  pure (accepted_methods usd ms)
