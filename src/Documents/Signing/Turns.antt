-- ===== src/Documents/Signing/Turns.antt =====
-- Signing order: the signer who is notified next is one whose turn it is.
use pexlo_portal.Prelude.{
  ◌≡◌, ◌≢◌, ◌≤◌, refl, inl, inr, Bool, true, false, List, [], ◌∷◌, arith, All, subst, find_many,
  find_many-All, Bool-cases, any, every, ltb, not, ◌&&◌,
}
use pexlo_portal.Documents.State.{Document, DocumentResponse, SignatureField, Store}
use pexlo_portal.Documents.Verdict.{signs, fields_of, responses_of}
use pexlo_portal.Documents.Signing.{
  insert_by_order, sort_by_order, next_fields, turn_reached, precedes,
}

module _ (P : SignatureField → Type 0) where
  insert-All :
      (f : SignatureField) (gs : List SignatureField)
      → P f
      → All P gs
      → All P (insert_by_order f gs)
  insert-All f [] p h = (p, tt)
  insert-All f (g ∷ gs) p h = elim (Bool-cases (ltb g.signer_order f.signer_order)) [
    | inl e ↦ rw e (h.0, insert-All f gs p h.1)
    | inr e ↦ rw e (p, h)
  ]

  sort-All : (fs : List SignatureField) → All P fs → All P (sort_by_order fs)
  sort-All [] h = tt
  sort-All (f ∷ fs) h = insert-All f (sort_by_order fs) h.0 (sort-All fs h.1)

insert-ne-nil : (f : SignatureField) (gs : List SignatureField) → insert_by_order f gs ≢ []
insert-ne-nil f [] = cc
insert-ne-nil f (g ∷ gs) = ground arith

abbrev NotBefore : SignatureField → SignatureField → Type 0
NotBefore f g = f.signer_order ≤ g.signer_order

NotBefore-trans :
    (f g : SignatureField) (hs : List SignatureField)
    → NotBefore f g
    → All (NotBefore g) hs
    → All (NotBefore f) hs
NotBefore-trans f g [] e h = tt
NotBefore-trans f g (x ∷ xs) e h = (omega arith, NotBefore-trans f g xs e h.1)

-- The head of the sorted list has the least order.
least_insert :
    (x f : SignatureField) (xs fs ys : List SignatureField)
    → sort_by_order xs ≡ ys
    → ((y : SignatureField) (zs : List SignatureField)
        → sort_by_order xs ≡ y ∷ zs
        → All (NotBefore y) xs)
    → insert_by_order x ys ≡ f ∷ fs
    → NotBefore f x × All (NotBefore f) xs
least_insert x f [] fs [] same ih e = let first : f ≡ x = ground arith in rw first (omega arith, tt)
least_insert x f (z ∷ zs) fs [] same ih e = absurd (insert-ne-nil z (sort_by_order zs) same)
least_insert x f xs fs (y ∷ ys) same ih e = elim (Bool-cases (ltb y.signer_order x.signer_order)) [
  | inl lt ↦ let first : f ≡ y = ground arith in rw first (ground arith, ih y ys same)
  | inr ge ↦
      let first : f ≡ x = ground arith in
      rw first (omega arith, NotBefore-trans x y xs (ground arith) (ih y ys same))
]

sort-least :
    (xs : List SignatureField) (f : SignatureField) (fs : List SignatureField)
    → sort_by_order xs ≡ f ∷ fs
    → All (NotBefore f) xs
sort-least [] f fs e = tt
sort-least (x ∷ xs) f fs e = least_insert x f xs fs (sort_by_order xs) refl (sort-least xs) e

earlier_signed :
    (rs : List DocumentResponse) (f : SignatureField) (xs : List SignatureField)
    → All
        (NotBefore f)
        (find_many (λ (g : SignatureField). ltb 0 g.signer_order && not (any (signs g.id) rs)) xs)
    → every (λ (g : SignatureField). any (signs g.id) rs) (find_many (precedes f) xs) ≡ true
earlier_signed rs f [] h = refl
earlier_signed rs f (x ∷ xs) h = ground (arith, earlier_signed rs f xs)

-- The first of the fields among which `notifyNextSigner` looks for the next signer is unsigned, and
-- its turn has come.
pub next_fields-turn :
    (d : Document) (s : Store) {f : SignatureField} {fs : List SignatureField}
    → next_fields d.id s ≡ f ∷ fs
    → (any (signs f.id) (responses_of d.id s) ≡ false) × (turn_reached d f s ≡ true)
unfolding next_fields
next_fields-turn d s {f} {fs} e =
    let rs : List DocumentResponse = responses_of d.id s in
    let open_field : SignatureField → Bool =
      λ (g : SignatureField). ltb 0 g.signer_order && not (any (signs g.id) rs) in
    let unsigned : List SignatureField = find_many open_field (fields_of d.id s) in
    let earlier = earlier_signed rs f (fields_of d.id s) (sort-least unsigned f fs e) in
    let all_open =
      sort-All (λ g. open_field g ≡ true) unsigned (find_many-All open_field (fields_of d.id s)) in
    let head_open : All (λ g. open_field g ≡ true) (f ∷ fs) =
      subst (All (λ g. open_field g ≡ true)) e all_open in
    (ground arith, ground arith)
