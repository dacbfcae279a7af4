-- ===== src/Invoices/Creating/Attempts.antt =====
-- The attempts of `create`: which of them counts, and when the call gives up.
use pexlo_portal.Prelude.{
  ℕ, zero, suc, ◌≡◌, ◌≤◌, ◌<◌, ◌⊎◌, refl, Bool, true, false, [], ◌∷◌, ◌++◌, map, arith, Bool-cases,
  inl, inr, if◌then◌else◌, sym, subst, ltb,
}
use pexlo_portal.Service.{Action, ok, err, unique_violation}
use pexlo_portal.Ledger.{Invoice, Store, insert_invoice, is_taken}
use pexlo_portal.TimeEntries.Number.{Text}
use pexlo_portal.Invoices.Creating.{
  CreateInvoice, create, create_once, check_project, itemized_invoice, number_after, with_retries,
  new_line,
}

-- What the database is before attempt `k`, counted from 0, if those before it left it alone: with
-- `n` retries left, `others n`, `others (n - 1)` and so on have run.
abbrev pub state_at : (ℕ → Store → Store) → (n k : ℕ) → Store → Store
state_at others n zero s = s
state_at others zero (suc k) s = s
state_at others (suc n) (suc k) s = state_at others n k (others n s)

module _ {A : Type 0} (m : Action Store A) (others : ℕ → Store → Store) where
  with_retries-first_ok :
      (n k : ℕ) (s : Store) (a : A) (t : Store)
      → k ≤ n
      → ((j : ℕ)
          → j < k
          → m (state_at others n j s) ≡ (err unique_violation, state_at others n j s))
      → m (state_at others n k s) ≡ (ok a, t)
      → with_retries n others m s ≡ (ok a, t)
  unfolding with_retries
  with_retries-first_ok zero zero s a t le refused h = h
  with_retries-first_ok zero (suc k) s a t le refused h = absurd (omega arith)
  with_retries-first_ok (suc n) zero s a t le refused h = rw h refl
  with_retries-first_ok (suc n) (suc k) s a t le refused h = rw (refused 0 (omega arith)) (
      with_retries-first_ok n k (others n s) a t (omega arith)
        (λ j p. refused (suc j) (omega arith)) h)

  pub with_retries-refused :
      (n : ℕ) (s : Store)
      → ((j : ℕ)
          → j ≤ n
          → m (state_at others n j s) ≡ (err unique_violation, state_at others n j s))
      → with_retries n others m s ≡ (err unique_violation, state_at others n n s)
  unfolding with_retries
  with_retries-refused zero s refused = refused 0 (omega arith)
  with_retries-refused (suc n) s refused =
      rw (refused 0 (omega arith))
        (with_retries-refused n (others n s) (λ j p. refused (suc j) (omega arith)))

module _ (before : Text → Text → Bool) (dto : CreateInvoice) (org new_id : ℕ) where
  abbrev pub IsPermitted : Store → Type 0
  IsPermitted t = (check_project dto.project_id org t).0 ≡ ok tt

  -- Another invoice of the organisation has the number that the next one would be given.
  abbrev pub clashes : Store → Bool
  clashes t = is_taken org (number_after before org t) t

  abbrev pub created : Store → Invoice
  created t = itemized_invoice dto org (number_after before org t) new_id

  -- The tables with the new invoice and its lines.
  abbrev pub with_created : Store → Store
  with_created t = record t {
    invoices = t.invoices ++ created t ∷ [];
    line_items = t.line_items ++ map (new_line new_id) dto.line_items;
  }

  pub create_once-taken :
      (t : Store)
      → IsPermitted t
      → clashes t ≡ true
      → create_once before dto org new_id t ≡ (err unique_violation, t)
  unfolding create_once check_project insert_invoice
  create_once-taken t permitted h = ground arith

  create_once-free :
      (t : Store)
      → IsPermitted t
      → clashes t ≡ false
      → create_once before dto org new_id t ≡ (ok (created t), with_created t)
  unfolding create_once check_project insert_invoice
  create_once-free t permitted h = ground arith

  module _ (others : ℕ → Store → Store) (s : Store) where
    all_taken :
        (k : ℕ)
        → k ≡ 3
        → ((j : ℕ) → j ≤ k → IsPermitted (state_at others 3 j s))
        → ((j : ℕ) → j < k → clashes (state_at others 3 j s) ≡ true)
        → clashes (state_at others 3 k s) ≡ true
        → (j : ℕ) → j ≤ 3
        → IsPermitted (state_at others 3 j s) × (clashes (state_at others 3 j s) ≡ true)
    all_taken k four permitted taken here j le = elim (Bool-cases (ltb j k)) [
      | inl y ↦ (permitted j (ground arith), taken j (ground arith))
      | inr n ↦
          let same : j ≡ k = ground arith in
          (
            permitted j (omega arith),
            subst (λ i. clashes (state_at others 3 i s) ≡ true) (sym same) here,
          )
    ]

    -- Creating an invoice makes up to four attempts, between which other calls may do anything. If
    -- the project is permitted at every attempt that is made, and at the first `k` attempts, at
    -- most three, another invoice has the next number, but not at the one after them, the call creates the invoice, with its lines,
    -- under the number that is the next one by then; if the number is taken at all four, it throws
    -- the unique-constraint error, and leaves what the other calls left.
    pub create-attempts :
        (k : ℕ)
        → k ≤ 3
        → ((j : ℕ) → j ≤ k → IsPermitted (state_at others 3 j s))
        → ((j : ℕ) → j < k → clashes (state_at others 3 j s) ≡ true)
        → (clashes (state_at others 3 k s) ≡ false) ⊎ (k ≡ 3)
        → let t = state_at others 3 k s in
          create before dto org new_id others s
          ≡ (if clashes t then (err unique_violation, t) else (ok (created t), with_created t))
    unfolding create
    create-attempts k le permitted taken last =
        let m : Action Store Invoice = create_once before dto org new_id in
        let t : Store = state_at others 3 k s in
        elim (Bool-cases (clashes t)) [
          | inl y ↦
              let four : k ≡ 3 = elim last [ inl n ↦ absurd (cc) | inr e ↦ e ] in
              rw y (
                subst
                  (λ i. with_retries 3 others m s ≡ (err unique_violation, state_at others 3 i s))
                  (sym four)
                  (with_retries-refused m others 3 s (λ j p.
                    let (may, clash) = all_taken k four permitted taken y j p in
                    create_once-taken (state_at others 3 j s) may clash)))
          | inr n ↦ rw n (
              with_retries-first_ok m others 3 k s (created t) (with_created t) le
                (λ j p.
                  create_once-taken (state_at others 3 j s) (permitted j (omega arith)) (taken j p))
                (create_once-free t (permitted k (omega arith)) n))
        ]
