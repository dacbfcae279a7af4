-- ===== src/TimeEntries/Timer/Starting.antt =====
-- Starting a timer where another one runs.
use pexlo_portal.Prelude.{
  any_none, ℕ, ◌≡◌, ◌≢◌, ◌≤◌, refl, inl, inr, Bool, false, Option, none, some, List, [], ◌∷◌, ◌++◌,
  arith, subst, find_first, update_where, count, any, has_key, Keyed, All, Option-cases, Bool-cases,
  find_first-append,
}
use pexlo_portal.Service.{ok}
use pexlo_portal.Ledger.{TimeEntry, Store, is_running, entry_id, insert_entry, update_entry}
use pexlo_portal.TimeEntries.Timer.{StartTimer, close, close_running, start_transaction, new_timer}
use pexlo_portal.TimeEntries.Changes.{IsSound}

any-absent_update :
    (p : TimeEntry → Bool) (j : ℕ) (f : TimeEntry → TimeEntry) (xs : List TimeEntry)
    → All (λ (y : TimeEntry). y.id ≢ j) xs
    → any p (update_where (has_key entry_id j) f xs) ≡ any p xs
any-absent_update p j f [] h = refl
any-absent_update p j f (x ∷ xs) h = ground (arith, any-absent_update p j f xs h.1)

tail_id :
    (p : TimeEntry → Bool) (i : ℕ) (xs : List TimeEntry) (r : TimeEntry)
    → All (λ (y : TimeEntry). y.id ≢ i) xs
    → find_first p xs ≡ some r
    → r.id ≢ i
tail_id p i [] r h e = cc
tail_id p i (x ∷ xs) r h e = ground (arith, tail_id p i xs r h.1)

-- Closing the only entry that counts leaves none.
none_after_update :
    (p : TimeEntry → Bool) (r : TimeEntry) (f : TimeEntry → TimeEntry) (xs : List TimeEntry)
    → Keyed entry_id xs
    → count p xs ≤ 1
    → find_first p xs ≡ some r
    → ((x : TimeEntry) → p (f x) ≡ false)
    → any p (update_where (has_key entry_id r.id) f xs) ≡ false
none_after_update p r f [] h c e stops = refl
none_after_update p r f (x ∷ xs) h c e stops = elim (Bool-cases (p x)) [
  | inl y ↦
      let first : x ≡ r = ground arith in
      let same : x.id ≡ r.id = ground arith in
      let nil : count p xs ≡ 0 = ground arith in
      let absent = subst (λ k. All (λ (z : TimeEntry). z.id ≢ k) xs) same h.0 in
      ground (arith, stops x, any-absent_update p r.id f xs absent, any_none p xs nil)
  | inr n ↦
      let later : find_first p xs ≡ some r = ground arith in
      let other : r.id ≢ x.id = tail_id p x.id xs r h.0 later in
      ground (arith, none_after_update p r f xs h.1 (ground arith) later stops)
]

find_of_any :
    (p : TimeEntry → Bool) (xs : List TimeEntry) → any p xs ≡ false → find_first p xs ≡ none
find_of_any p [] h = refl
find_of_any p (x ∷ xs) h = ground (arith, find_of_any p xs)

any_of_find :
    (p : TimeEntry → Bool) (xs : List TimeEntry) → find_first p xs ≡ none → any p xs ≡ false
any_of_find p [] h = refl
any_of_find p (x ∷ xs) h = ground (arith, any_of_find p xs)

module _ (user org : ℕ) (dto : StartTimer) (rate : Option ℕ) (now new_id : ℕ) (s : Store) where
  free_after_close :
      IsSound s.entries
      → any
          (is_running org user)
          (close_running (find_first (is_running org user) s.entries) now s).entries
        ≡ false
  unfolding update_entry
  free_after_close h = elim (Option-cases (find_first (is_running org user) s.entries)) [
    | inl e ↦ rw e (any_of_find (is_running org user) s.entries e)
    | inr (r, e) ↦ rw e (
        none_after_update (is_running org user) r (close r now) s.entries h.keyed
          (h.one_running org user) e (λ x. ground arith))
  ]

  start_transaction-free :
      any
          (is_running org user)
          (close_running (find_first (is_running org user) s.entries) now s).entries
        ≡ false
      → ((start_transaction user org dto rate now new_id s).0 ≡ ok tt)
        × ((start_transaction user org dto rate now new_id s).1.entries
            ≡ (close_running (find_first (is_running org user) s.entries) now s).entries
              ++ new_timer user org dto rate now new_id ∷ [])
  unfolding start_transaction insert_entry
  start_transaction-free h = ground arith

  -- On a sound table the transaction of `start` succeeds, whether or not a timer of the user runs,
  -- and the entry of the user that runs afterwards is the new one.
  pub start_transaction-runs :
      IsSound s.entries
      → let t = start_transaction user org dto rate now new_id s in
        (t.0 ≡ ok tt)
        × (find_first (is_running org user) t.1.entries
            ≡ some (new_timer user org dto rate now new_id))
  start_transaction-runs h =
      let free = free_after_close h in
      let (succeeds, e) = start_transaction-free free in
      let closed : List TimeEntry =
        (close_running (find_first (is_running org user) s.entries) now s).entries in
      (
        succeeds,
        rw e (
            find_first-append (is_running org user) closed (new_timer user org dto rate now new_id)
              (find_of_any (is_running org user) closed free) (ground arith)),
      )
