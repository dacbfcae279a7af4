-- ===== src/Invoices/Reading/Mine.antt =====
-- The list of a client's invoices and the page of one of them.
use pexlo_portal.Prelude.{
  ℕ, ◌≡◌, refl, Bool, true, some, List, [], ◌∷◌, ◌&&◌, ◌==◌, arith, Bool-cases, Option-cases, inl,
  inr, find_first, any, is_some, same_option,
}
use pexlo_portal.Service.{ok}
use pexlo_portal.Ledger.{Invoice, ProjectClient, Project, Store}
use pexlo_portal.Invoices.Changing.{owned}
use pexlo_portal.Invoices.Reading.{is_mine, find_one_mine}

module _ (user org : ℕ) (s : Store) where
  abbrev assigned_to : ℕ → ProjectClient → Bool
  assigned_to project c = c.project_id == project && c.user_id == user

  abbrev reaches : Invoice → ProjectClient → Bool
  reaches i c =
      c.user_id == user
      && any (λ (p : Project). p.id == c.project_id && p.organization_id == org) s.projects
      && same_option i.project_id (some c.project_id)

  reaches-assigned :
      (i : Invoice) (cs : List ProjectClient)
      → any (reaches i) cs ≡ true
      → (project : ℕ) × (i.project_id ≡ some project)
        × (is_some (find_first (assigned_to project) cs) ≡ true)
  reaches-assigned i [] h = absurd (ground arith)
  reaches-assigned i (c ∷ cs) h = elim (Bool-cases (reaches i c)) [
    | inl r ↦ elim (Option-cases i.project_id) [
      | inl e ↦ absurd (ground arith)
      | inr (project, e) ↦
          let here : assigned_to project c ≡ true = ground arith in (project, e, rw here refl)
    ]
    | inr r ↦
        let (project, e, there) = reaches-assigned i cs (ground arith) in (project, e, ground arith)
  ]

  -- A client can open every invoice in the client's list.
  pub find_one_mine-listed :
      (id : ℕ) (x : Invoice)
      → find_first (owned id org) s.invoices ≡ some x
      → is_mine user org s x ≡ true
      → find_one_mine id user org s ≡ (ok x, s)
  unfolding find_one_mine
  find_one_mine-listed id x found mine =
      let listed : any (reaches x) s.clients ≡ true = ground arith in
      let (project, e, assigned) = reaches-assigned x s.clients listed in
      rw (found, e, assigned) refl
