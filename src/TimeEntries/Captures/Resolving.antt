-- ===== src/TimeEntries/Captures/Resolving.antt =====
-- A capture is resolved once.
use pexlo_portal.Prelude.{
  ℕ, ◌≡◌, ◌≢◌, ◌⊎◌, ◌∙◌, inl, inr, ap, refl, subst, false, Option, none, some, List, [], ◌∷◌, ◌++◌,
  ◌==◌, arith, Bool-cases, Option-cases, find_first, find_first-update, update_where, count,
  has_key, Keyed, All, ℕ_discrete,
}
use pexlo_portal.Service.{Error, ok, err, not_found, bad_request}
use pexlo_portal.Ledger.{TimeEntry, PendingTimeCapture, Store, insert_entry, resolve_rate}
use pexlo_portal.TimeEntries.Captures.{
  ResolvePendingTimeCapture, is_pending, claim, captured_entry, captured_log, capture_id, set_entry,
  title_of, resolve_transaction, resolve_pending_capture,
}

module _ (id user org : ℕ) (dto : ResolvePendingTimeCapture) (now new_id new_log : ℕ)
    (s : Store) where
  -- The tables with the new entry and its log, and the capture resolved by them.
  abbrev pub resolved : PendingTimeCapture → Store
  resolved c = record s {
    captures =
        update_where (has_key capture_id id) (set_entry new_id)
          (update_where (is_pending id org) (claim now) s.captures);
    entries =
        s.entries
        ++ captured_entry user org dto c (resolve_rate org user c.project_id s) new_id ∷ [];
    logs = s.logs ++ captured_log user org c (title_of c.task_id s) new_id new_log ∷ [];
  }

  resolve_transaction-one :
      (c : PendingTimeCapture) (rate : Option ℕ)
      → find_first (is_pending id org) s.captures ≡ some c
      → count (is_pending id org) s.captures ≡ 1
      → resolve_transaction id user org dto rate now new_id new_log s ≡ (
        ok (captured_entry user org dto c rate new_id),
        record s {
          captures =
              update_where
                (has_key capture_id id)
                (set_entry new_id)
                (update_where (is_pending id org) (claim now) s.captures);
          entries = s.entries ++ captured_entry user org dto c rate new_id ∷ [];
          logs = s.logs ++ captured_log user org c (title_of c.task_id s) new_id new_log ∷ [];
        },
      )
  unfolding resolve_transaction insert_entry
  resolve_transaction-one c rate found single = ground arith

pending_absent :
    (id org : ℕ) (cs : List PendingTimeCapture)
    → All (λ (c : PendingTimeCapture). c.id ≢ id) cs
    → count (is_pending id org) cs ≡ 0
pending_absent id org [] h = refl
pending_absent id org (c ∷ cs) h = ground (arith, pending_absent id org cs h.1)

count-pending :
    (id org : ℕ) (cs : List PendingTimeCapture) (c : PendingTimeCapture)
    → Keyed capture_id cs
    → find_first (is_pending id org) cs ≡ some c
    → count (is_pending id org) cs ≡ 1
count-pending id org [] c h found = absurd (ground arith)
count-pending id org (d ∷ cs) c h found = elim (Bool-cases (is_pending id org d)) [
  | inl hit ↦
      let here : d.id ≡ id = ground arith in
      let absent : count (is_pending id org) cs ≡ 0 =
        pending_absent id org cs
          (subst (λ k. All (λ (x : PendingTimeCapture). x.id ≢ k) cs) here h.0) in
      ground arith
  | inr miss ↦ ground (arith, count-pending id org cs c h.1)
]

-- After a claim nothing is pending, whatever is then written into the resolved columns.
claim-none :
    (id org now : ℕ) (cs : List PendingTimeCapture)
    → find_first (is_pending id org) (update_where (is_pending id org) (claim now) cs) ≡ none
claim-none id org now [] = refl
claim-none id org now (c ∷ cs) = elim (Bool-cases (is_pending id org c)) [
  | inl hit ↦ rw hit (ground (arith, claim-none id org now cs))
  | inr miss ↦ rw (miss, miss) (claim-none id org now cs)
]

claimed_away :
    (id org now entry : ℕ) (cs : List PendingTimeCapture)
    → find_first (is_pending id org) (
        update_where
          (has_key capture_id id)
          (set_entry entry)
          (update_where (is_pending id org) (claim now) cs))
      ≡ none
claimed_away id org now entry cs =
    find_first-update (is_pending id org) (has_key capture_id id) (set_entry entry)
      (update_where (is_pending id org) (claim now) cs) (λ c. refl)
    ∙ (rw (claim-none id org now cs) refl)

module _ (id org : ℕ) (s : Store) (keyed : Keyed capture_id s.captures) where
  -- Resolving a capture with at least one second of work throws "not found", and changes nothing,
  -- unless the capture is there and pending; then it is resolved by a new entry that ends when the
  -- task was completed and by its log, and no other table changes. It never finds it claimed already.
  pub resolve_pending_capture-exact :
      (user : ℕ) (dto : ResolvePendingTimeCapture) (now new_id new_log : ℕ)
      → dto.duration_sec ≢ 0
      → resolve_pending_capture id user org dto now new_id new_log s
        ≡ elim (find_first (is_pending id org) s.captures) [
          | none ↦ (err not_found, s)
          | some c ↦ (
            ok (captured_entry user org dto c (resolve_rate org user c.project_id s) new_id),
            resolved id user org dto now new_id new_log s c,
          )
        ]
  unfolding resolve_pending_capture
  resolve_pending_capture-exact user dto now new_id new_log some_time =
      let long : (dto.duration_sec == 0) ≡ false = ground arith in
      elim (Option-cases (find_first (is_pending id org) s.captures)) [
        | inl e ↦ ground arith
        | inr (c, e) ↦
            let rate = resolve_rate org user c.project_id s in
            ground (
              arith,
              resolve_transaction-one id user org dto now new_id new_log s c rate e
                  (count-pending id org s.captures c keyed e),
            )
      ]

  resolve_pending_capture-ok :
      (user : ℕ) (dto : ResolvePendingTimeCapture) (now new_id new_log : ℕ) (e : TimeEntry)
      → (resolve_pending_capture id user org dto now new_id new_log s).0 ≡ ok e
      → (c : PendingTimeCapture) × ((resolve_pending_capture id user org dto now new_id new_log s).1
          ≡ resolved id user org dto now new_id new_log s c)
  unfolding resolve_pending_capture
  resolve_pending_capture-ok user dto now new_id new_log e h =
      elim (ℕ_discrete dto.duration_sec 0) [
        | yes no_time ↦ absurd (ground arith)
        | no some_time ↦
            let exact = resolve_pending_capture-exact user dto now new_id new_log some_time in
            elim (Option-cases (find_first (is_pending id org) s.captures)) [
              | inl n ↦
                  let k : resolve_pending_capture id user org dto now new_id new_log s
                      ≡ (err not_found, s) =
                    exact ∙ (rw n refl) in
                  absurd (ground arith)
              | inr (c, n) ↦
                  let entry =
                    captured_entry user org dto c (resolve_rate org user c.project_id s) new_id in
                  let k : resolve_pending_capture id user org dto now new_id new_log s
                      ≡ (ok entry, resolved id user org dto now new_id new_log s c) =
                    exact ∙ (rw n refl) in
                  (c, ap (λ q. q.1) k)
            ]
      ]

refused_unless_pending :
    (id user org : ℕ) (dto : ResolvePendingTimeCapture) (now new_id new_log : ℕ) (t : Store)
    → find_first (is_pending id org) t.captures ≡ none
    → (e : Error) × (resolve_pending_capture id user org dto now new_id new_log t ≡ (err e, t))
unfolding resolve_pending_capture
refused_unless_pending id user org dto now new_id new_log t none_left =
    elim (Bool-cases (dto.duration_sec == 0)) [
      | inl no_time ↦ (bad_request, ground arith)
      | inr some_time ↦ (not_found, ground arith)
    ]

-- Once a capture has been resolved, resolving it again, by whichever member and with whatever time,
-- throws and changes nothing: its work is never entered twice.
pub resolve_pending_capture-once :
    (id org user user' : ℕ) (dto dto' : ResolvePendingTimeCapture)
    (now new_id new_log now' new_id' new_log' : ℕ) (s : Store) (e : TimeEntry)
    → Keyed capture_id s.captures
    → (resolve_pending_capture id user org dto now new_id new_log s).0 ≡ ok e
    → let t = (resolve_pending_capture id user org dto now new_id new_log s).1 in
      (x : Error) × (resolve_pending_capture id user' org dto' now' new_id' new_log' t ≡ (err x, t))
resolve_pending_capture-once id org user user' dto dto' now new_id new_log now' new_id' new_log' s e
      keyed h =
    let (c, end) = resolve_pending_capture-ok id org s keyed user dto now new_id new_log e h in
    let t : Store = (resolve_pending_capture id user org dto now new_id new_log s).1 in
    refused_unless_pending id user' org dto' now' new_id' new_log' t (
      ap (λ (u : Store). find_first (is_pending id org) u.captures) end
      ∙ claimed_away id org now new_id s.captures)

-- What resolving does to the table of entries.
pub resolve_pending_capture-entries :
    (id user org : ℕ) (dto : ResolvePendingTimeCapture) (now new_id new_log : ℕ) (s : Store)
    → ((resolve_pending_capture id user org dto now new_id new_log s).1.entries ≡ s.entries)
      ⊎ ((c : PendingTimeCapture) × (rate : Option ℕ) × (find_first (is_pending id org) s.captures
            ≡ some c)
          × ((resolve_pending_capture id user org dto now new_id new_log s).1.entries
              ≡ s.entries ++ captured_entry user org dto c rate new_id ∷ []))
unfolding resolve_pending_capture resolve_transaction insert_entry
resolve_pending_capture-entries id user org dto now new_id new_log s =
    elim (Bool-cases (dto.duration_sec == 0)) [
      | inl no_time ↦ inl (ground arith)
      | inr some_time ↦ elim (Option-cases (find_first (is_pending id org) s.captures)) [
        | inl n ↦ inl (ground arith)
        | inr (c, n) ↦ elim (ℕ_discrete (count (is_pending id org) s.captures) 1) [
          | no many ↦ inl (ground arith)
          | yes single ↦ inr (c, resolve_rate org user c.project_id s, n, ground arith)
        ]
      ]
    ]
