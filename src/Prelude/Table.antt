-- ===== src/Prelude/Table.antt =====
-- A database table as the list of its rows, and the queries that the services make of it.
use Prim.Native.Nat.{ℕ, suc}
use mathlib.Core.Path.{◌≡◌, refl}
use mathlib.Core.Bool.{Bool, true, false}
use mathlib.Core.Option.{Option, none, some}
use mathlib.Core.List.{List, [], ◌∷◌, ◌++◌}
use native.Mathlib.Omega.{arith}
use pexlo_portal.Prelude.Tests.{if◌then◌else◌}
use pexlo_portal.Prelude.Lists.{length, All}

module _ {ℓ} {A : Type ℓ} where
  -- `findFirst({ where: p })`
  abbrev pub find_first : (A → Bool) → List A → Option A
  find_first p [] = none
  find_first p (x ∷ xs) = if p x then some x else find_first p xs

  -- `findMany({ where: p })`
  abbrev pub find_many : (A → Bool) → List A → List A
  find_many p [] = []
  find_many p (x ∷ xs) = if p x then x ∷ find_many p xs else find_many p xs

  -- `count({ where: p })`
  abbrev pub count : (A → Bool) → List A → ℕ
  count p [] = 0
  count p (x ∷ xs) = if p x then suc (count p xs) else count p xs

  -- `updateMany({ where: p, data: f })`; `update` where `p` holds of one row
  abbrev pub update_where : (A → Bool) → (A → A) → List A → List A
  update_where p f [] = []
  update_where p f (x ∷ xs) = (if p x then f x else x) ∷ update_where p f xs

  -- `deleteMany({ where: p })`
  abbrev pub delete_where : (A → Bool) → List A → List A
  delete_where p [] = []
  delete_where p (x ∷ xs) = if p x then delete_where p xs else x ∷ delete_where p xs

  pub find_first_sound :
      (p : A → Bool) (xs : List A) (a : A) → find_first p xs ≡ some a → p a ≡ true
  find_first_sound p [] a h = ground arith
  find_first_sound p (x ∷ xs) a h = ground (arith, find_first_sound p xs a)

  pub find_many-All : (p : A → Bool) (xs : List A) → All (λ x. p x ≡ true) (find_many p xs)
  find_many-All p [] = tt
  find_many-All p (x ∷ xs) = ground (arith, find_many-All p xs)

  pub delete_where-All : (p : A → Bool) (xs : List A) → All (λ x. p x ≡ false) (delete_where p xs)
  delete_where-All p [] = tt
  delete_where-All p (x ∷ xs) = ground (arith, delete_where-All p xs)

  pub length-find_many : (p : A → Bool) (xs : List A) → length (find_many p xs) ≡ count p xs
  length-find_many p [] = refl
  length-find_many p (x ∷ xs) = ground (arith, length-find_many p xs)

  -- An update that does not change what a query asks is seen through the query.
  pub find_first-update :
      (q p : A → Bool) (f : A → A) (xs : List A)
      → ((x : A) → q (f x) ≡ q x)
      → find_first q (update_where p f xs)
        ≡ elim (find_first q xs) [ none ↦ none | some x ↦ some (if p x then f x else x) ]
  find_first-update q p f [] keeps = refl
  find_first-update q p f (x ∷ xs) keeps = ground (arith, keeps x, find_first-update q p f xs keeps)

  pub find_first-append :
      (q : A → Bool) (xs : List A) (a : A)
      → find_first q xs ≡ none
      → q a ≡ true
      → find_first q (xs ++ a ∷ []) ≡ some a
  find_first-append q [] a e h = rw h
  find_first-append q (x ∷ xs) a e h = ground (arith, find_first-append q xs a)

  pub find_many-append :
      (q : A → Bool) (xs ys : List A) → find_many q (xs ++ ys) ≡ find_many q xs ++ find_many q ys
  find_many-append q [] ys = refl
  find_many-append q (x ∷ xs) ys = ground (arith, find_many-append q xs ys)

  pub find_many-delete : (q : A → Bool) (xs : List A) → find_many q (delete_where q xs) ≡ []
  find_many-delete q [] = refl
  find_many-delete q (x ∷ xs) = ground (arith, find_many-delete q xs)
