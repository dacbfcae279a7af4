-- ===== src/Payments/Oauth/Signed.antt =====
-- The state that comes back from Stripe is the one that was signed.
use pexlo_portal.Prelude.{
  ℕ, ◌≡◌, ◌≢◌, ◌↔◌, ◌∙◌, inl, inr, ap, refl, sym, true, Option, none, some, [], ◌∷◌, ◌++◌, ◌==◌,
  arith, Bool-cases, Option-cases, All,
}
use pexlo_portal.Ledger.{same_text}
use pexlo_portal.Payments.Oauth.{
  Text, OauthService, dot, colon, split_last, split_first, sign_state, verify_state, is_app_url,
  connect_state, read_state,
}

-- The text does not have the character `c`.
abbrev pub Lacks : ℕ → Text → Type 0
Lacks c t = All (λ (x : ℕ). x ≢ c) t

same_text_refl : (t : Text) → same_text t t ≡ true
same_text_refl [] = refl
same_text_refl (x ∷ t) = ground (arith, same_text_refl t)

same_text_sound : (t u : Text) → same_text t u ≡ true → t ≡ u
same_text_sound [] [] h = refl
same_text_sound [] (y ∷ u) h = absurd (ground arith)
same_text_sound (x ∷ t) [] h = absurd (ground arith)
same_text_sound (x ∷ t) (y ∷ u) h =
    let rest : t ≡ u = same_text_sound t u (ground arith) in let first : x ≡ y = ground arith in cc

split_last-none : (c : ℕ) (t : Text) → Lacks c t → split_last c t ≡ none
split_last-none c [] h = refl
split_last-none c (x ∷ t) h = ground (arith, split_last-none c t h.1)

split_last-append : (c : ℕ) (p t : Text) → Lacks c t → split_last c (p ++ c ∷ t) ≡ some (p, t)
split_last-append c [] t h = ground (arith, split_last-none c t h)
split_last-append c (x ∷ p) t h = rw (split_last-append c p t h) refl

fst_of : Option (Text × Text) → Text
fst_of none = []
fst_of (some p) = p.0

snd_of : Option (Text × Text) → Text
snd_of none = []
snd_of (some p) = p.1

split_last_sound : (c : ℕ) (t a b : Text) → split_last c t ≡ some (a, b) → t ≡ a ++ c ∷ b
unfolding fst_of snd_of
split_last_sound c [] a b h = cc
split_last_sound c (x ∷ t) a b h = elim (Option-cases (split_last c t)) [
  | inl e ↦ elim (Bool-cases (x == c)) [
    | inl here ↦
        let k : ◌≡◌ {A = Option (Text × Text)} (some ([], t)) (some (a, b)) =
          sym (rw (e, here) refl) ∙ h in
        let same : x ≡ c = ground arith in
        let front : [] ≡ a = ap fst_of k in let back : t ≡ b = ap snd_of k in cc
    | inr other ↦
        let k : ◌≡◌ {A = Option (Text × Text)} none (some (a, b)) = sym (rw (e, other) refl) ∙ h in
        absurd (ground arith)
  ]
  | inr ((a', b'), e) ↦
      let rest : t ≡ a' ++ c ∷ b' = split_last_sound c t a' b' e in
      let k : ◌≡◌ {A = Option (Text × Text)} (some (x ∷ a', b')) (some (a, b)) =
        sym (rw e refl) ∙ h in
      let front : x ∷ a' ≡ a = ap fst_of k in
      let back : b' ≡ b = ap snd_of k in
      ap (λ v. x ∷ v) rest ∙ ap (λ v. v ++ c ∷ b') front ∙ ap (λ v. a ++ c ∷ v) back
]

split_first-append : (c : ℕ) (p t : Text) → Lacks c p → split_first c (p ++ c ∷ t) ≡ some (p, t)
split_first-append c [] t h = ground arith
split_first-append c (x ∷ p) t h = ground (arith, split_first-append c p t h.1)

module _ (lib : OauthService) (hash_lacks_dot : (t : Text) → Lacks dot (lib.hmac t)) where
  -- Where no hash contains a dot, a state is accepted, with its payload, exactly when it is that
  -- payload as it was signed.
  pub verify_state_exact :
      (state payload : Text)
      → (verify_state lib state ≡ some payload) ↔ (state ≡ sign_state lib payload)
  unfolding verify_state sign_state
  verify_state_exact state payload = (forth, back)
    where
      forth : verify_state lib state ≡ some payload → state ≡ sign_state lib payload
      forth h = elim (Option-cases (split_last dot state)) [
        | inl e ↦ absurd (ground arith)
        | inr ((p, sig), e) ↦ elim (Bool-cases (same_text sig (lib.hmac p))) [
          | inr bad ↦ absurd (ground arith)
          | inl fine ↦
              let parts : state ≡ p ++ dot ∷ sig = split_last_sound dot state p sig e in
              let signed : sig ≡ lib.hmac p = same_text_sound sig (lib.hmac p) fine in
              let same : p ≡ payload = ground arith in cc
        ]
      ]

      back : state ≡ sign_state lib payload → verify_state lib state ≡ some payload
      back h =
          rw
            (
              h,
              verify_state,
              sign_state,
              split_last-append dot payload (lib.hmac payload) (hash_lacks_dot payload),
              same_text_refl (lib.hmac payload),
            )
            refl

  module _ (decode_encode : (t : Text) → lib.decode (lib.encode t) ≡ t)
      (id_of-id_text : (n : ℕ) → lib.id_of (lib.id_text n) ≡ n)
      (id_lacks_colon : (n : ℕ) → Lacks colon (lib.id_text n)) where
    -- The state of an authorisation that was begun gives back its organisation and its return
    -- address, where hashes have no dot, identifiers no colon, and base64url is decoded.
    pub read_state-connect_state :
        (app : Text) (org : ℕ) (url state : Text)
        → connect_state lib app org url ≡ some state
        → read_state lib app state ≡ some (org, url)
    unfolding connect_state read_state
    read_state-connect_state app org url state h =
        let payload : Text = lib.id_text org ++ colon ∷ lib.encode url in
        let allowed : is_app_url lib app url ≡ true = ground arith in
        let signed : state ≡ sign_state lib payload = ground arith in
        rw
          (
            read_state,
            (verify_state_exact state payload).1 signed,
            split_first-append colon (lib.id_text org) (lib.encode url) (id_lacks_colon org),
            decode_encode url,
            allowed,
            id_of-id_text org,
          )
          refl
