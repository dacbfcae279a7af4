-- ===== src/Prelude/Rows.antt =====
-- Rows under a primary key.
use Prim.Native.Nat.{ℕ}
use mathlib.Core.Path.{◌≡◌, refl, subst, sym}
use mathlib.Core.Logic.{◌≢◌}
use mathlib.Core.Bool.{Bool}
use mathlib.Core.Option.{none, some}
use mathlib.Core.List.{List, [], ◌∷◌, ◌++◌}
use native.Mathlib.Omega.{arith}
use pexlo_portal.Prelude.Tests.{◌==◌, if◌then◌else◌}
use pexlo_portal.Prelude.Lists.{All, All-append}
use pexlo_portal.Prelude.Table.{find_first, update_where, delete_where}

module _ {A : Type 0} (key : A → ℕ) where
  abbrev pub has_key : ℕ → A → Bool
  has_key i x = key x == i

  abbrev pub Keyed : List A → Type 0
  Keyed [] = Unit
  Keyed (x ∷ xs) = All (λ y. key y ≢ key x) xs × Keyed xs

  not_first :
      (p : A → Bool) (i : ℕ) (xs : List A) (r : A)
      → All (λ y. key y ≢ i) xs
      → find_first p xs ≡ some r
      → key r ≢ i
  not_first p i [] r h e = cc
  not_first p i (x ∷ xs) r h e = ground (arith, not_first p i xs r h.1)

  -- A row that a query finds is the row under its key.
  pub row_by_key :
      (p : A → Bool) (xs : List A) (r : A)
      → Keyed xs
      → find_first p xs ≡ some r
      → find_first (has_key (key r)) xs ≡ some r
  row_by_key p [] r h e = cc
  row_by_key p (x ∷ xs) r h e = ground (arith, row_by_key p xs r h.1, not_first p (key x) xs r h.0)

  module _ (f : A → A) (keeps : (x : A) → key (f x) ≡ key x) where
    pub find_by_key-update :
        (i j : ℕ) (xs : List A)
        → find_first (has_key i) (update_where (has_key j) f xs) ≡ (
            if i == j
            then elim (find_first (has_key i) xs) [ none ↦ none | some x ↦ some (f x) ]
            else find_first (has_key i) xs)
    find_by_key-update i j [] = ground arith
    find_by_key-update i j (x ∷ xs) = ground (arith, keeps x, find_by_key-update i j xs)

    pub All-keys_update :
        (k : ℕ) (p : A → Bool) (xs : List A)
        → All (λ y. key y ≢ k) xs
        → All (λ y. key y ≢ k) (update_where p f xs)
    All-keys_update k p [] h = tt
    All-keys_update k p (x ∷ xs) h = (ground (arith, keeps x), All-keys_update k p xs h.1)

    pub Keyed-update : (p : A → Bool) (xs : List A) → Keyed xs → Keyed (update_where p f xs)
    Keyed-update p [] h = tt
    Keyed-update p (x ∷ xs) h =
        let rest : All (λ y. key y ≢ key x) (update_where p f xs) =
          All-keys_update (key x) p xs h.0 in
        let same : key (if p x then f x else x) ≡ key x = ground (arith, keeps x) in
        (
          subst (λ k. All (λ y. key y ≢ k) (update_where p f xs)) (sym same) rest,
          Keyed-update p xs h.1,
        )

  pub Keyed-append :
      (xs : List A) (a : A) → All (λ y. key y ≢ key a) xs → Keyed xs → Keyed (xs ++ a ∷ [])
  Keyed-append [] a fresh h = (tt, tt)
  Keyed-append (x ∷ xs) a fresh h = (
    All-append (λ y. key y ≢ key x) xs (a ∷ []) h.0 ((λ e. fresh.0 (sym e)), tt),
    Keyed-append xs a fresh.1 h.1,
  )

  All-keys_delete :
      (k : ℕ) (p : A → Bool) (xs : List A)
      → All (λ y. key y ≢ k) xs
      → All (λ y. key y ≢ k) (delete_where p xs)
  All-keys_delete k p [] h = tt
  All-keys_delete k p (x ∷ xs) h = ground (arith, All-keys_delete k p xs h.1)

  pub Keyed-delete : (p : A → Bool) (xs : List A) → Keyed xs → Keyed (delete_where p xs)
  Keyed-delete p [] h = tt
  Keyed-delete p (x ∷ xs) h =
      ground (arith, Keyed-delete p xs h.1, All-keys_delete (key x) p xs h.0)

  pub find_by_key-delete :
      (i j : ℕ) (xs : List A)
      → i ≢ j
      → find_first (has_key i) (delete_where (has_key j) xs) ≡ find_first (has_key i) xs
  find_by_key-delete i j [] h = refl
  find_by_key-delete i j (x ∷ xs) h = ground (arith, find_by_key-delete i j xs h)

module _ {A : Type 0} where
  pub find_first-append_old :
      (p : A → Bool) (xs ys : List A) (r : A)
      → find_first p xs ≡ some r
      → find_first p (xs ++ ys) ≡ some r
  find_first-append_old p [] ys r e = cc
  find_first-append_old p (x ∷ xs) ys r e = ground (arith, find_first-append_old p xs ys r)
