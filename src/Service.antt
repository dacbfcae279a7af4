-- ===== src/Service.antt =====
-- The services' methods as functions on explicit state: a method returns its result, or the
-- exception that it throws, with the state that it leaves behind.
use pexlo_portal.Prelude.{
  ◌≡◌, ◌⊎◌, inl, inr, refl, subst, ap, Bool, Option, none, some, if◌then◌else◌,
}

-- The NestJS exceptions that the services throw; the database's unique-constraint error; and the
-- failures of the object storage, of the PDF library and of date formatting.
pub data Error : Type 0 where
  not_found forbidden bad_request conflict unique_violation : Error
  storage_error pdf_error range_error : Error

pub data Result {ℓ} (A : Type ℓ) : Type ℓ where
  ok : A → Result A
  err : Error → Result A

abbrev pub Action : Type 0 → Type 0 → Type 0
Action S A = S → Result A × S

module _ {S : Type 0} where
  module _ {A : Type 0} where
    abbrev pub pure : A → Action S A
    pure a s = (ok a, s)

    abbrev pub throw : Error → Action S A
    throw e s = (err e, s)

    abbrev pub gets : (S → A) → Action S A
    gets f s = (ok (f s), s)

    -- `const row = ...; if (!row) throw e`
    abbrev pub or_throw : Option A → Error → Action S A
    or_throw none e = throw e
    or_throw (some a) e = pure a

  abbrev pub throw_if : Bool → Error → Action S (Unit {0})
  throw_if b e s = (if b then err e else ok tt, s)

  abbrev pub modify : (S → S) → Action S (Unit {0})
  modify f s = (ok tt, f s)

infixl 5 ◌>>=◌ ◌>>◌
abbrev pub ◌>>=◌ : {S A B : Type 0} → Action S A → (A → Action S B) → Action S B
◌>>=◌ m f s = let (r, s') = m s in elim r [ ok a ↦ f a s' | err e ↦ (err e, s') ]

abbrev pub ◌>>◌ : {S A B : Type 0} → Action S A → Action S B → Action S B
m >> k = m >>= λ _. k

-- `$transaction`: when the body throws, `rollback before after` is the state that is left.
abbrev pub transaction : {S A : Type 0} → (S → S → S) → Action S A → Action S A
transaction rollback m s =
    let (r, s') = m s in elim r [ ok a ↦ (ok a, s') | err e ↦ (err e, rollback s s') ]

-- The parts of a bind that succeeds, where its first action only reads.
pub >>=-eq-ok :
    {S A B : Type 0} (m : Action S A) (f : A → Action S B) (s : S) (b : B)
    → (m s).1 ≡ s
    → ((m >>= f) s).0 ≡ ok b
    → (a : A) × ((m s).0 ≡ ok a) × ((f a s).0 ≡ ok b) × ((m >>= f) s ≡ f a s)
>>=-eq-ok {S} {A} {B} m f s b reads h = go (m s) reads h
  where
    go :
        (p : Result A × S)
        → p.1 ≡ s
        → (elim p.0 as (λ r. Result B × S) [ ok a ↦ f a p.1 | err e ↦ (err e, p.1) ]).0 ≡ ok b
        → (a : A) × (p.0 ≡ ok a)
          × ((f a s).0 ≡ ok b)
          × (elim p.0 as (λ r. Result B × S) [ ok a ↦ f a p.1 | err e ↦ (err e, p.1) ] ≡ f a s)
    go (ok a, u) same e = (a, refl, subst (λ v. (f a v).0 ≡ ok b) same e, ap (f a) same)
    go (err x, u) same e = cc

-- The parts of any bind that succeeds.
pub >>=-ok :
    {S A B : Type 0} (m : Action S A) (f : A → Action S B) (s : S) (b : B)
    → ((m >>= f) s).0 ≡ ok b
    → (a : A) × ((m s).0 ≡ ok a) × ((f a (m s).1).0 ≡ ok b) × ((m >>= f) s ≡ f a (m s).1)
>>=-ok {S} {A} {B} m f s b h = go (m s) h
  where
    go :
        (p : Result A × S)
        → (elim p.0 as (λ r. Result B × S) [ ok a ↦ f a p.1 | err e ↦ (err e, p.1) ]).0 ≡ ok b
        → (a : A) × (p.0 ≡ ok a)
          × ((f a p.1).0 ≡ ok b)
          × (elim p.0 as (λ r. Result B × S) [ ok a ↦ f a p.1 | err e ↦ (err e, p.1) ] ≡ f a p.1)
    go (ok a, u) same = (a, refl, same, refl)
    go (err x, u) same = cc

-- A transaction that succeeds is its body.
pub transaction-ok :
    {S A : Type 0} (rollback : S → S → S) (m : Action S A) (s : S) (a : A)
    → (transaction rollback m s).0 ≡ ok a
    → ((m s).0 ≡ ok a) × (transaction rollback m s ≡ m s)
transaction-ok {S} {A} rollback m s a h = go (m s) h
  where
    go :
        (p : Result A × S)
        → (elim p.0 as (λ r. Result A × S) [
          | ok x ↦ (ok x, p.1)
          | err e ↦ (err e, rollback s p.1)
        ]).0
          ≡ ok a
        → (p.0 ≡ ok a)
          × (elim p.0 as (λ r. Result A × S) [
            | ok x ↦ (ok x, p.1)
            | err e ↦ (err e, rollback s p.1)
          ]
              ≡ p)
    go (ok x, u) e = (e, refl)
    go (err x, u) e = cc

-- One that fails leaves what the rollback leaves.
pub transaction-err :
    {S A : Type 0} (rollback : S → S → S) (m : Action S A) (s : S) (e : Error)
    → (transaction rollback m s).0 ≡ err e
    → (transaction rollback m s).1 ≡ rollback s (m s).1
transaction-err {S} {A} rollback m s e h = go (m s) h
  where
    go :
        (p : Result A × S)
        → (elim p.0 as (λ r. Result A × S) [
          | ok x ↦ (ok x, p.1)
          | err e ↦ (err e, rollback s p.1)
        ]).0
          ≡ err e
        → (elim p.0 as (λ r. Result A × S) [
          | ok x ↦ (ok x, p.1)
          | err e ↦ (err e, rollback s p.1)
        ]).1
          ≡ rollback s p.1
    go (ok x, u) e = cc
    go (err x, u) e = refl

pub Result_cases_of :
    {A : Type 0} (r : Result A) → ((a : A) × (r ≡ ok a)) ⊎ ((e : Error) × (r ≡ err e))
Result_cases_of (ok a) = inl (a, refl)
Result_cases_of (err e) = inr (e, refl)

pub Result-cases : (r : Result (Unit {0})) → (r ≡ ok tt) ⊎ ((e : Error) × (r ≡ err e))
Result-cases (ok a) = inl refl
Result-cases (err e) = inr (e, refl)

-- A bind stops at the exception of its first action, or goes on with its result.
pub >>=-cases :
    {S A B : Type 0} (m : Action S A) (f : A → Action S B) (s : S)
    → ((e : Error) × ((m >>= f) s ≡ (err e, (m s).1)))
      ⊎ ((a : A) × ((m s).0 ≡ ok a) × ((m >>= f) s ≡ f a (m s).1))
>>=-cases {S} {A} {B} m f s = go (m s)
  where
    go :
        (p : Result A × S)
        → ((e : Error) × (elim p.0 as (λ r. Result B × S) [ ok a ↦ f a p.1 | err e ↦ (err e, p.1) ]
              ≡ (err e, p.1)))
          ⊎ ((a : A) × (p.0 ≡ ok a)
              × (elim p.0 as (λ r. Result B × S) [ ok a ↦ f a p.1 | err e ↦ (err e, p.1) ]
                  ≡ f a p.1))
    go (ok a, u) = inr (a, refl, refl)
    go (err x, u) = inl (x, refl)
