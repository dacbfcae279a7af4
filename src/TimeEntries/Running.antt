-- ===== src/TimeEntries/Running.antt =====
-- At most one timer of a user runs in an organisation.
use pexlo_portal.Prelude.{
  ℕ, ◌≡◌, ◌≢◌, ◌≤◌, refl, inl, inr, Bool, true, some, List, [], ◌∷◌, arith, sym, subst, find_first,
  update_where, count, has_key, Keyed, Bool-cases, All, ℕ_discrete,
}
use pexlo_portal.Ledger.{TimeEntry, is_running, entry_id}

-- Of every user in every organisation, at most one entry runs.
abbrev pub OneRunning : List TimeEntry → Type 0
OneRunning es = (org user : ℕ) → count (is_running org user) es ≤ 1

count-absent_update :
    (p : TimeEntry → Bool) (j : ℕ) (f : TimeEntry → TimeEntry) (xs : List TimeEntry)
    → All (λ (y : TimeEntry). y.id ≢ j) xs
    → count p (update_where (has_key entry_id j) f xs) ≡ count p xs
count-absent_update p j f [] h = refl
count-absent_update p j f (x ∷ xs) h = ground (arith, count-absent_update p j f xs h.1)

-- The update of the row `r`, after which it counts only if it did before.
pub count-update :
    (p : TimeEntry → Bool) (r : TimeEntry) (f : TimeEntry → TimeEntry) (xs : List TimeEntry)
    → Keyed entry_id xs
    → find_first (has_key entry_id r.id) xs ≡ some r
    → (p (f r) ≡ true → p r ≡ true)
    → count p (update_where (has_key entry_id r.id) f xs) ≤ count p xs
count-update p r f [] h e c = omega arith
count-update p r f (x ∷ xs) h e c = elim (ℕ_discrete x.id r.id) [
  | yes same ↦
      let first : x ≡ r = ground arith in
      let rest =
        count-absent_update p r.id f xs
          (subst (λ k. All (λ (y : TimeEntry). y.id ≢ k) xs) same h.0) in
      let first' : p (f x) ≡ true → p x ≡ true =
        subst (λ z. p (f z) ≡ true → p z ≡ true) (sym first) c in
      elim (Bool-cases (p (f x))) [ inl y ↦ ground (arith, first' y) | inr n ↦ ground arith ]
  | no other ↦ ground (arith, count-update p r f xs h.1)
]
