-- ===== src/Tasks/Order.antt =====
-- The order of tasks after `reorder`.
use pexlo_portal.Prelude.{
  ℕ, suc, ◌≡◌, ◌∙◌, ap, refl, sym, true, false, Option, none, some, List, [], ◌∷◌, map, arith,
  find_first, find_first_sound, update_where, has_key, Bool-cases, Option-cases, inl, inr,
  if◌then◌else◌, ◌==◌,
}
use pexlo_portal.Ledger.{Task, Store}
use pexlo_portal.Tasks.Changing.{task_id, owned, put_at, reorder, reorder_from}
use pexlo_portal.Tasks.Changes.{Change, rewritten}

-- The last index of `i` in the list, counted from `n`.
abbrev pub last_index : ℕ → ℕ → List ℕ → Option ℕ
last_index n i [] = none
last_index n i (id ∷ ids) =
    let later = last_index (suc n) i ids in
    elim later [ none ↦ if id == i then some n else none | some k ↦ some k ]

-- The task of the organisation, put where its identifier stands in the list.
abbrev pub placed : ℕ → List ℕ → ℕ → Task → Task
placed n ids org x =
    if x.organization_id == org
    then elim (last_index n x.id ids) [ none ↦ x | some k ↦ put_at k x ]
    else x

placed-id : (n : ℕ) (ids : List ℕ) (org : ℕ) (x : Task) → (placed n ids org x).id ≡ x.id
placed-id n ids org x = elim (Bool-cases (x.organization_id == org)) [
  | inr other ↦ rw other refl
  | inl mine ↦ elim (Option-cases (last_index n x.id ids)) [
    | inl e ↦ rw (mine, e) refl
    | inr (k, e) ↦ rw (mine, e) refl
  ]
]

placed-closed :
    (n : ℕ) (ids : List ℕ) (org : ℕ) (x : Task) → (placed n ids org x).closed_at ≡ x.closed_at
placed-closed n ids org x = elim (Bool-cases (x.organization_id == org)) [
  | inr other ↦ rw other refl
  | inl mine ↦ elim (Option-cases (last_index n x.id ids)) [
    | inl e ↦ rw (mine, e) refl
    | inr (k, e) ↦ rw (mine, e) refl
  ]
]

placed-step :
    (n id : ℕ) (ids : List ℕ) (org : ℕ) (x : Task)
    → placed (suc n) ids org (if owned id org x then put_at n x else x) ≡ placed n (id ∷ ids) org x
placed-step n id ids org x = elim (Bool-cases (x.organization_id == org)) [
  | inr other ↦
      let not_owned : owned id org x ≡ false = ground arith in
      let same : (if owned id org x then put_at n x else x) ≡ x = rw not_owned refl in
      ap (placed (suc n) ids org) same ∙ (rw other refl)
  | inl mine ↦ elim (Bool-cases (id == x.id)) [
    | inl here ↦
        let is_owned : owned id org x ≡ true = ground arith in
        let moved : (if owned id org x then put_at n x else x) ≡ put_at n x = rw is_owned refl in
        elim (Option-cases (last_index (suc n) x.id ids)) [
          | inl e ↦ ap (placed (suc n) ids org) moved ∙ (rw (mine, e, here) refl)
          | inr (k, e) ↦ ap (placed (suc n) ids org) moved ∙ (rw (mine, e) refl)
        ]
    | inr there ↦
        let not_owned : owned id org x ≡ false = ground arith in
        let same : (if owned id org x then put_at n x else x) ≡ x = rw not_owned refl in
        elim (Option-cases (last_index (suc n) x.id ids)) [
          | inl e ↦ ap (placed (suc n) ids org) same ∙ (rw (mine, e, there) refl)
          | inr (k, e) ↦ ap (placed (suc n) ids org) same ∙ (rw (mine, e) refl)
        ]
  ]
]

map-placed_nil : (n org : ℕ) (ts : List Task) → map (placed n [] org) ts ≡ ts
map-placed_nil n org [] = refl
map-placed_nil n org (x ∷ ts) =
    let rest = map-placed_nil n org ts in
    elim (Bool-cases (x.organization_id == org)) [
      | inl e ↦ rw e (ap (λ v. x ∷ v) rest)
      | inr e ↦ rw e (ap (λ v. x ∷ v) rest)
    ]

map-placed_step :
    (n id : ℕ) (ids : List ℕ) (org : ℕ) (ts : List Task)
    → map (placed (suc n) ids org) (update_where (owned id org) (put_at n) ts)
      ≡ map (placed n (id ∷ ids) org) ts
map-placed_step n id ids org [] = refl
map-placed_step n id ids org (x ∷ ts) =
    let first = placed-step n id ids org x in
    let rest = map-placed_step n id ids org ts in
    ap (λ v. v ∷ map (placed (suc n) ids org) (update_where (owned id org) (put_at n) ts)) first
    ∙ ap (λ v. placed n (id ∷ ids) org x ∷ v) rest

reorder_from-map :
    (n : ℕ) (ids : List ℕ) (org : ℕ) (ts : List Task)
    → reorder_from n ids org ts ≡ map (placed n ids org) ts
unfolding reorder_from
reorder_from-map n [] org ts = sym (map-placed_nil n org ts)
reorder_from-map n (id ∷ ids) org ts =
    reorder_from-map (suc n) ids org (update_where (owned id org) (put_at n) ts)
    ∙ map-placed_step n id ids org ts

find_first-placed :
    (ids : List ℕ) (org i : ℕ) (ts : List Task)
    → find_first (has_key task_id i) (map (placed 0 ids org) ts)
      ≡ elim (find_first (has_key task_id i) ts) [
        | none ↦ none
        | some x ↦ some (placed 0 ids org x)
      ]
find_first-placed ids org i [] = refl
find_first-placed ids org i (x ∷ ts) =
    let rest = find_first-placed ids org i ts in
    elim (Bool-cases (x.id == i)) [
      | inl e ↦ rw (placed-id 0 ids org x, e) refl
      | inr e ↦ rw (placed-id 0 ids org x, e) rest
    ]

-- After a reordering each task of the organisation whose identifier is in the list has its index
-- there as order, the last one if it is listed more than once, and is otherwise as it was; all
-- other tasks are as they were.
pub reorder-exact :
    (ids : List ℕ) (org i : ℕ) (x : Task) (s : Store)
    → find_first (has_key task_id i) s.tasks ≡ some x
    → find_first (has_key task_id i) (reorder ids org s).tasks
      ≡ some (
          if x.organization_id == org
          then elim (last_index 0 i ids) [ none ↦ x | some k ↦ put_at k x ]
          else x)
unfolding reorder
reorder-exact ids org i x s found =
    let own : x.id ≡ i = ground (arith, find_first_sound (has_key task_id i) s.tasks x found) in
    ap (find_first (has_key task_id i)) (reorder_from-map 0 ids org s.tasks)
    ∙ find_first-placed ids org i s.tasks
    ∙ (rw (found, own) refl)

pub reorder-Change :
    {allowed : ℕ → Type 0} (ids : List ℕ) (org : ℕ) (s : Store)
    → Change allowed s (reorder ids org s)
unfolding reorder
reorder-Change ids org s =
    rewritten (placed 0 ids org) (reorder_from-map 0 ids org s.tasks) refl refl
      (placed-id 0 ids org) (λ i c x found shut. placed-closed 0 ids org x ∙ shut)
