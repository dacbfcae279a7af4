-- ===== src/Documents/Lookup.antt =====
-- The document under an identifier, and what the updates of a store do to it.
use pexlo_portal.Prelude.{
  ℕ, ◌≡◌, ◌≢◌, refl, Bool, Option, none, some, List, [], ◌∷◌, ◌==◌, arith, All, subst, sym, ◌++◌,
  All-append, ℕ_discrete, if◌then◌else◌, find_first, update_where,
}
use pexlo_portal.Documents.State.{DocumentStatus, Document, Store, owned}

abbrev pub by_id : ℕ → Document → Bool
by_id i d = d.id == i

-- The primary key.
abbrev pub DistinctIds : List Document → Type 0
DistinctIds [] = Unit
DistinctIds (d ∷ ds) = All (λ (e : Document). e.id ≢ d.id) ds × DistinctIds ds

abbrev pub status_in : ℕ → List Document → Option DocumentStatus
status_in i docs = elim (find_first (by_id i) docs) [ none ↦ none | some d ↦ some d.status ]

abbrev pub status_of : ℕ → Store → Option DocumentStatus
status_of i s = status_in i s.documents

absent_of_All :
    (i : ℕ) (xs : List Document)
    → All (λ (e : Document). e.id ≢ i) xs
    → find_first (by_id i) xs ≡ none
absent_of_All i [] h = refl
absent_of_All i (x ∷ xs) h = ground (arith, absent_of_All i xs h.1)

owned_absent :
    (id org : ℕ) (xs : List Document)
    → All (λ (e : Document). e.id ≢ id) xs
    → find_first (owned id org) xs ≡ none
owned_absent id org [] h = refl
owned_absent id org (x ∷ xs) h = ground (arith, owned_absent id org xs h.1)

-- The document of an organisation is the document of that identifier.
pub find_by_id-owned :
    (id org : ℕ) (d : Document) (xs : List Document)
    → DistinctIds xs
    → find_first (owned id org) xs ≡ some d
    → find_first (by_id id) xs ≡ some d
find_by_id-owned id org d [] h e = e
find_by_id-owned id org d (x ∷ xs) h e = elim (ℕ_discrete x.id id) [
  | yes p ↦
      ground
        (arith, owned_absent id org xs (subst (λ k. All (λ (o : Document). o.id ≢ k) xs) p h.0))
  | no p ↦ ground (arith, find_by_id-owned id org d xs h.1)
]

module _ (j : ℕ) (f : Document → Document) (keeps : (d : Document) → (f d).id ≡ d.id) where
  pub find_by_id-update :
      (i : ℕ) (xs : List Document)
      → find_first (by_id i) (update_where (by_id j) f xs) ≡ (
          if i == j
          then elim (find_first (by_id i) xs) [ none ↦ none | some d ↦ some (f d) ]
          else find_first (by_id i) xs)
  find_by_id-update i [] = ground arith
  find_by_id-update i (x ∷ xs) = ground (arith, keeps x, find_by_id-update i xs)

-- The identifiers of the rows, in order.
abbrev pub ids : List Document → List ℕ
ids [] = []
ids (d ∷ ds) = d.id ∷ ids ds

absent_transfer :
    (k : ℕ) (xs ys : List Document)
    → ids ys ≡ ids xs
    → All (λ (e : Document). e.id ≢ k) xs
    → All (λ (e : Document). e.id ≢ k) ys
absent_transfer k [] [] e h = tt
absent_transfer k [] (y ∷ ys) e h = cc
absent_transfer k (x ∷ xs) [] e h = tt
absent_transfer k (x ∷ xs) (y ∷ ys) e h = (ground arith, absent_transfer k xs ys (cc) h.1)

-- The primary key depends on the identifiers alone.
pub DistinctIds-transfer :
    (xs ys : List Document) → ids ys ≡ ids xs → DistinctIds xs → DistinctIds ys
DistinctIds-transfer [] [] e h = tt
DistinctIds-transfer [] (y ∷ ys) e h = cc
DistinctIds-transfer (x ∷ xs) [] e h = tt
DistinctIds-transfer (x ∷ xs) (y ∷ ys) e h =
    let same : x.id ≡ y.id = ground arith in
    let rest : ids ys ≡ ids xs = cc in
    (
      absent_transfer y.id xs ys rest (subst (λ k. All (λ (o : Document). o.id ≢ k) xs) same h.0),
      DistinctIds-transfer xs ys rest h.1,
    )

pub ids-update :
    (p : Document → Bool) (f : Document → Document) (xs : List Document)
    → ((d : Document) → (f d).id ≡ d.id)
    → ids (update_where p f xs) ≡ ids xs
ids-update p f [] keeps = refl
ids-update p f (x ∷ xs) keeps = ground (arith, keeps x, ids-update p f xs keeps)

pub DistinctIds-append :
    (xs : List Document) (d : Document)
    → All (λ (e : Document). e.id ≢ d.id) xs
    → DistinctIds xs
    → DistinctIds (xs ++ d ∷ [])
DistinctIds-append [] d fresh h = (tt, tt)
DistinctIds-append (x ∷ xs) d fresh h = (
  All-append (λ (e : Document). e.id ≢ x.id) xs (d ∷ []) h.0 ((λ e. fresh.0 (sym e)), tt),
  DistinctIds-append xs d fresh.1 h.1,
)
