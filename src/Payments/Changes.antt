-- ===== src/Payments/Changes.antt =====
-- What one operation may do to the table of invoices, and that payments made through Stripe survive.
use pexlo_portal.Prelude.{
  ℕ, ◌≡◌, ◌≢◌, ◌∙◌, inl, inr, refl, Bool, true, none, some, List, [], ◌∷◌, ◌++◌, arith, find_first,
  find_first-update, find_first-append_old, update_where, delete_where, has_key, Keyed,
  Keyed-append, Keyed-update, Keyed-delete, find_by_key-delete, All, Bool-cases, ℕ_discrete,
  if◌then◌else◌,
}
use pexlo_portal.Ledger.{Invoice, paid, invoice_id}

-- The payment that `x` records is recorded in `y`.
pub record SamePayment (x y : Invoice) : Type 0 where
  pub still_paid : y.status ≡ paid
  pub same_intent : y.stripe_payment_intent_id ≡ x.stripe_payment_intent_id
  pub same_amount : y.paid_amount ≡ x.paid_amount
  pub same_time : y.paid_at ≡ x.paid_at

abbrev pub KeepsPayment : Invoice → Invoice → Type 0
KeepsPayment x y = x.status ≡ paid → SamePayment x y

SamePayment-trans : (x y z : Invoice) → SamePayment x y → SamePayment y z → SamePayment x z
SamePayment-trans x y z h k = record {
  still_paid = k.still_paid;
  same_intent = k.same_intent ∙ h.same_intent;
  same_amount = k.same_amount ∙ h.same_amount;
  same_time = k.same_time ∙ h.same_time;
}

pub data Change (is : List Invoice) : List Invoice → Type 0 where
  kept : Change is is
  added : (x : Invoice) → All (λ (y : Invoice). y.id ≢ x.id) is → Change is (is ++ x ∷ [])
  rewritten :
      (p : Invoice → Bool) (f : Invoice → Invoice)
      → ((x : Invoice) → (f x).id ≡ x.id)
      → ((i : ℕ) (x : Invoice)
          → find_first (has_key invoice_id i) is ≡ some x
          → p x ≡ true
          → KeepsPayment x (f x))
      → Change is (update_where p f is)
  removed :
      (id : ℕ)
      → ((x : Invoice)
          → find_first (has_key invoice_id id) is ≡ some x
          → x.stripe_payment_intent_id ≡ none)
      → Change is (delete_where (has_key invoice_id id) is)

pub Change-Keyed : {is js : List Invoice} → Change is js → Keyed invoice_id is → Keyed invoice_id js
Change-Keyed kept h = h
Change-Keyed {is} (added x fresh) h = Keyed-append invoice_id is x fresh h
Change-Keyed {is} (rewritten p f same keeps) h = Keyed-update invoice_id f same p is h
Change-Keyed {is} (removed id unpaid) h = Keyed-delete invoice_id (has_key invoice_id id) is h

-- The invoice `i`, with the payment that `x` records.
abbrev pub Holds : ℕ → Invoice → List Invoice → Type 0
Holds i x is = (y : Invoice) × (find_first (has_key invoice_id i) is ≡ some y) × SamePayment x y

pub Change-Holds :
    {is js : List Invoice} (i intent : ℕ) (x : Invoice)
    → Change is js
    → x.stripe_payment_intent_id ≡ some intent
    → Holds i x is
    → Holds i x js
Change-Holds i intent x kept by h = h
Change-Holds {is} i intent x (added z fresh) by (y, found, same) =
    (y, find_first-append_old (has_key invoice_id i) is (z ∷ []) y found, same)
Change-Holds {is} i intent x (rewritten p f same_id keeps) by (y, found, same) =
    let seen : find_first (has_key invoice_id i) (update_where p f is)
        ≡ some (if p y then f y else y) =
      find_first-update (has_key invoice_id i) p f is (λ z. ground (arith, same_id z))
      ∙ (rw found refl) in
    elim (Bool-cases (p y)) [
      | inl hit ↦ (
        f y,
        seen ∙ (rw hit refl),
        SamePayment-trans x y (f y) same (keeps i y found hit same.still_paid),
      )
      | inr miss ↦ (y, seen ∙ (rw miss refl), same)
    ]
Change-Holds {is} i intent x (removed id unpaid) by (y, found, same) = elim (ℕ_discrete i id) [
  | yes e ↦
      let none_there : y.stripe_payment_intent_id ≡ none = unpaid y (rw e at found) in
      let there : y.stripe_payment_intent_id ≡ some intent = same.same_intent ∙ by in cc
  | no other ↦ (y, find_by_key-delete invoice_id i id is other ∙ found, same)
]
