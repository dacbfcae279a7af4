-- ===== src/Documents/Tasks/Expiry.antt =====
-- The hourly expiry task, document by document.
use pexlo_portal.Prelude.{
  ℕ, ◌≡◌, ◌≢◌, refl, inl, inr, Bool, true, false, none, some, List, [], ◌∷◌, arith, All, ap, ◌∙◌,
  subst, ℕ_discrete, find_first, find_many, update_where, Option-cases, Bool-cases, any,
  if◌then◌else◌,
}
use pexlo_portal.Documents.State.{Document, Store, log, AuditAction}
use pexlo_portal.Documents.Lookup.{by_id, DistinctIds, status_of}
use pexlo_portal.Documents.Transitions.{moves, moves_refl}
use pexlo_portal.Documents.Tasks.{is_expirable, mark_expired, log_expired, expire_documents}

none_named :
    (i : ℕ) (q : Document → Bool) (xs : List Document)
    → All (λ (e : Document). e.id ≢ i) xs
    → any (by_id i) (find_many q xs) ≡ false
none_named i q [] h = refl
none_named i q (x ∷ xs) h = ground (arith, none_named i q xs h.1)

-- Since identifiers are distinct, the rows that the task selects are the rows that it updates.
selected_iff :
    (i : ℕ) (q : Document → Bool) (d : Document) (xs : List Document)
    → DistinctIds xs
    → find_first (by_id i) xs ≡ some d
    → any (by_id i) (find_many q xs) ≡ q d
selected_iff i q d [] h e = cc
selected_iff i q d (x ∷ xs) h e = elim (ℕ_discrete x.id i) [
  | yes p ↦
      ground (arith, none_named i q xs (subst (λ k. All (λ (o : Document). o.id ≢ k) xs) p h.0))
  | no p ↦ ground (arith, selected_iff i q d xs h.1)
]

find_by_id-mark :
    (i : ℕ) (p : ℕ → Bool) (xs : List Document)
    → find_first (by_id i) (update_where (λ d. p d.id) mark_expired xs)
      ≡ elim (find_first (by_id i) xs) [
        | none ↦ none
        | some d ↦ some (if p i then mark_expired d else d)
      ]
find_by_id-mark i p [] = refl
find_by_id-mark i p (x ∷ xs) = elim (ℕ_discrete x.id i) [
  | yes e ↦ elim (Bool-cases (p i)) [
    | inl h ↦ let h' : p x.id ≡ true = rw e h in ground arith
    | inr h ↦ let h' : p x.id ≡ false = rw e h in ground arith
  ]
  | no e ↦ elim (Bool-cases (p x.id)) [
    | inl h ↦ ground (arith, find_by_id-mark i p xs)
    | inr h ↦ ground (arith, find_by_id-mark i p xs)
  ]
]

pub log_expired-documents :
    (ds : List Document) (s : Store) → (log_expired ds s).documents ≡ s.documents
unfolding log_expired
log_expired-documents [] s = refl
log_expired-documents (d ∷ ds) s = log_expired-documents ds (log d.id AuditAction.expired none s)

-- Where identifiers are distinct, the task marks a document expired exactly if it is pending and
-- past its date, and leaves every other document as it was.
pub expire_documents-exact :
    (now i : ℕ) (s : Store)
    → DistinctIds s.documents
    → find_first (by_id i) (expire_documents now s).documents
      ≡ elim (find_first (by_id i) s.documents) [
        | none ↦ none
        | some d ↦ some (if is_expirable now d then mark_expired d else d)
      ]
unfolding expire_documents
expire_documents-exact now i s h =
    let due : List Document = find_many (is_expirable now) s.documents in
    let listed : ℕ → Bool = λ k. any (by_id k) due in
    let marked : Store = record s {
      documents = update_where (λ (d : Document). listed d.id) mark_expired s.documents;
    } in
    let after : find_first (by_id i) (expire_documents now s).documents
        ≡ elim (find_first (by_id i) s.documents) [
          | none ↦ none
          | some d ↦ some (if listed i then mark_expired d else d)
        ] =
      ap (find_first (by_id i)) (log_expired-documents due marked)
      ∙ find_by_id-mark i listed s.documents in
    elim (Option-cases (find_first (by_id i) s.documents)) [
      | inl e ↦ after ∙ (rw e refl)
      | inr (d, e) ↦ after ∙ (rw (e, selected_iff i (is_expirable now) d s.documents h e) refl)
    ]

pub expire_documents-moves :
    (now i : ℕ) (s : Store)
    → DistinctIds s.documents
    → moves (status_of i s) (status_of i (expire_documents now s)) ≡ true
expire_documents-moves now i s h = elim (Option-cases (find_first (by_id i) s.documents)) [
  | inl e ↦ let e' = expire_documents-exact now i s h in ground arith
  | inr (d, e) ↦
      let e' = expire_documents-exact now i s h in
      elim (Bool-cases (is_expirable now d)) [
        | inl due ↦ ground arith
        | inr early ↦ ground (arith, moves_refl (some d.status))
      ]
]
