-- ===== src/Prelude/Counts.antt =====
-- How many rows satisfy a test.
use Prim.Native.Nat.{◌+◌, ◌≤◌}
use mathlib.Core.Path.{◌≡◌, refl}
use mathlib.Core.Bool.{Bool, false}
use mathlib.Core.List.{List, [], ◌∷◌, ◌++◌}
use native.Mathlib.Omega.{arith}
use pexlo_portal.Prelude.Tests.{if◌then◌else◌}
use pexlo_portal.Prelude.Lists.{any}
use pexlo_portal.Prelude.Table.{count, delete_where}

module _ {ℓ} {A : Type ℓ} where
  pub count_none : (p : A → Bool) (xs : List A) → any p xs ≡ false → count p xs ≡ 0
  count_none p [] h = refl
  count_none p (x ∷ xs) h = ground (arith, count_none p xs)

  pub any_none : (p : A → Bool) (xs : List A) → count p xs ≡ 0 → any p xs ≡ false
  any_none p [] h = refl
  any_none p (x ∷ xs) h = ground (arith, any_none p xs)

  pub count-append :
      (p : A → Bool) (xs : List A) (a : A)
      → count p (xs ++ a ∷ []) ≡ (if p a then count p xs + 1 else count p xs)
  count-append p [] a = ground arith
  count-append p (x ∷ xs) a = ground (arith, count-append p xs a)

  pub count-delete : (p q : A → Bool) (xs : List A) → count p (delete_where q xs) ≤ count p xs
  count-delete p q [] = omega arith
  count-delete p q (x ∷ xs) = ground (arith, count-delete p q xs)
