-- ===== src/TimeEntries/Changes.antt =====
-- What one operation may do to the table of entries, and what every such change keeps.
use pexlo_portal.Prelude.{
  count-append, count-delete, count_none, ℕ, ◌≡◌, ◌≢◌, ◌⊎◌, inl, inr, Bool, true, false, none, some,
  List, [], ◌∷◌, ◌++◌, ◌==◌, arith, sym, subst, find_first, update_where, delete_where, any,
  is_none, has_key, Keyed, Keyed-append, Keyed-update, Keyed-delete, Bool-cases, find_by_key-update,
  find_by_key-delete, find_first-append_old, All, All-append, ℕ_discrete,
}
use pexlo_portal.Ledger.{TimeEntry, is_running, entry_id, seconds_between}
use pexlo_portal.TimeEntries.Running.{OneRunning, count-update}

-- A running entry has no duration and is on no invoice; the duration of a finished one is the time
-- from its start to its end.
abbrev pub Timed : TimeEntry → Type 0
Timed e = elim e.ended_at as (λ o. Type 0) [
  | none ↦ (e.duration_sec ≡ none) × (e.invoice_line_item_id ≡ none)
  | some t ↦ e.duration_sec ≡ some (seconds_between e.started_at t)
]

-- What holds of the table at any time.
pub record IsSound (es : List TimeEntry) : Type 0 where
  pub keyed : Keyed entry_id es
  pub one_running : OneRunning es
  pub timed : All Timed es

-- A row that is on no invoice is rewritten, so that it runs only if it did and stays timed.
pub record MayRewrite (es : List TimeEntry) (r : TimeEntry) (f : TimeEntry → TimeEntry)
    : Type 0 where
  pub found : find_first (has_key entry_id r.id) es ≡ some r
  pub unlocked : r.invoice_line_item_id ≡ none
  pub same_id : (x : TimeEntry) → (f x).id ≡ x.id
  pub runs : (org user : ℕ) → is_running org user (f r) ≡ true → is_running org user r ≡ true
  pub times : Timed r → Timed (f r)

pub data Change (es : List TimeEntry) : List TimeEntry → Type 0 where
  kept : Change es es
  inserted :
      (e : TimeEntry)
      → (is_none e.ended_at ≡ false) ⊎ (any (is_running e.organization_id e.user_id) es ≡ false)
      → Timed e
      → All (λ (y : TimeEntry). y.id ≢ e.id) es
      → Change es (es ++ e ∷ [])
  rewritten :
      (r : TimeEntry) (f : TimeEntry → TimeEntry)
      → MayRewrite es r f
      → Change es (update_where (has_key entry_id r.id) f es)
  deleted :
      (r : TimeEntry)
      → find_first (has_key entry_id r.id) es ≡ some r
      → r.invoice_line_item_id ≡ none
      → Change es (delete_where (has_key entry_id r.id) es)

inserted-OneRunning :
    (es : List TimeEntry) (e : TimeEntry)
    → (is_none e.ended_at ≡ false) ⊎ (any (is_running e.organization_id e.user_id) es ≡ false)
    → OneRunning es
    → OneRunning (es ++ e ∷ [])
inserted-OneRunning es e free h org user = elim (Bool-cases (is_running org user e)) [
  | inl mine ↦
      let o : e.organization_id ≡ org = ground arith in
      let u : e.user_id ≡ user = ground arith in
      let runs : is_none e.ended_at ≡ true = ground arith in
      elim free [
        | inl ended ↦ cc
        | inr free_now ↦
            let free' : any (is_running org user) es ≡ false = rw (o, u) at free_now in
            ground (
              arith,
              count_none (is_running org user) es free',
              count-append (is_running org user) es e,
            )
      ]
  | inr other ↦ ground (arith, h org user, count-append (is_running org user) es e)
]

All-update :
    (r : TimeEntry) (f : TimeEntry → TimeEntry) (xs : List TimeEntry)
    → All Timed xs
    → Keyed entry_id xs
    → find_first (has_key entry_id r.id) xs ≡ some r
    → (Timed r → Timed (f r))
    → All Timed (update_where (has_key entry_id r.id) f xs)
All-update r f [] a h e c = tt
All-update r f (x ∷ xs) a h e c = elim (ℕ_discrete x.id r.id) [
  | yes same ↦
      let first : x ≡ r = ground arith in
      let hit : (x.id == r.id) ≡ true = ground arith in
      let absent = subst (λ k. All (λ (y : TimeEntry). y.id ≢ k) xs) same h.0 in
      rw hit (
        subst (λ z. Timed (f z)) (sym first) (c (subst Timed first a.0)),
        All_absent f r.id xs a.1 absent,
      )
  | no other ↦
      let missed : (x.id == r.id) ≡ false = ground arith in
      let rest : find_first (has_key entry_id r.id) xs ≡ some r = ground arith in
      rw missed (a.0, All-update r f xs a.1 h.1 rest c)
]
  where
    All_absent :
        (f : TimeEntry → TimeEntry) (j : ℕ) (xs : List TimeEntry)
        → All Timed xs
        → All (λ (y : TimeEntry). y.id ≢ j) xs
        → All Timed (update_where (has_key entry_id j) f xs)
    All_absent f j [] a h = tt
    All_absent f j (x ∷ xs) a h =
        let missed : (x.id == j) ≡ false = ground arith in
        rw missed (a.0, All_absent f j xs a.1 h.1)

All-delete :
    (p : TimeEntry → Bool) (xs : List TimeEntry) → All Timed xs → All Timed (delete_where p xs)
All-delete p [] a = tt
All-delete p (x ∷ xs) a = elim (Bool-cases (p x)) [
  | inl y ↦ rw y (All-delete p xs a.1)
  | inr n ↦ rw n (a.0, All-delete p xs a.1)
]

pub Change-IsSound : {es fs : List TimeEntry} → Change es fs → IsSound es → IsSound fs
Change-IsSound kept h = h
Change-IsSound {es} (inserted e free t fresh) h = record {
  keyed = Keyed-append entry_id es e fresh h.keyed;
  one_running = inserted-OneRunning es e free h.one_running;
  timed = All-append Timed es (e ∷ []) h.timed (t, tt);
}
Change-IsSound {es} (rewritten r f may) h = record {
  keyed = Keyed-update entry_id f may.same_id (has_key entry_id r.id) es h.keyed;
  one_running = λ org user.
      let fewer = count-update (is_running org user) r f es h.keyed may.found (may.runs org user) in
      let before = h.one_running org user in omega arith;
  timed = All-update r f es h.timed h.keyed may.found may.times;
}
Change-IsSound {es} (deleted r found unlocked) h = record {
  keyed = Keyed-delete entry_id (has_key entry_id r.id) es h.keyed;
  one_running = λ org user.
      let fewer = count-delete (is_running org user) (has_key entry_id r.id) es in
      let before = h.one_running org user in omega arith;
  timed = All-delete (has_key entry_id r.id) es h.timed;
}

-- An entry that is on an invoice stays the row that it is.
pub Change-locked :
    {es fs : List TimeEntry} (i line : ℕ) (e : TimeEntry)
    → Change es fs
    → find_first (has_key entry_id i) es ≡ some e
    → e.invoice_line_item_id ≡ some line
    → find_first (has_key entry_id i) fs ≡ some e
Change-locked i line e kept found locked = found
Change-locked {es} i line e (inserted new free t fresh) found locked =
    find_first-append_old (has_key entry_id i) es (new ∷ []) e found
Change-locked {es} i line e (rewritten r f may) found locked = elim (ℕ_discrete i r.id) [
  | yes same ↦
      let other : find_first (has_key entry_id i) es ≡ some r = rw same may.found in
      let unlocked = may.unlocked in absurd (ground arith)
  | no other ↦ ground (arith, find_by_key-update entry_id f may.same_id i r.id es)
]
Change-locked {es} i line e (deleted r found_r unlocked) found locked = elim (ℕ_discrete i r.id) [
  | yes same ↦
      let other : find_first (has_key entry_id i) es ≡ some r = rw same found_r in
      absurd (ground arith)
  | no other ↦ ground (arith, find_by_key-delete entry_id i r.id es other)
]
