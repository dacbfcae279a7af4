-- ===== src/Documents/Transitions.antt =====
-- The statuses that a document goes through: how each single operation moves them.
pub mod Verdicts
pub mod Operations
pub mod History
pub mod Keys
pub mod Revisions
use pexlo_portal.Prelude.{
  ℕ, ◌≡◌, ◌≢◌, ◌⊎◌, refl, inl, inr, Bool, true, false, Option, none, some, List, [], ◌∷◌, ◌++◌,
  ◌==◌, arith, ℕ_discrete, ==_iff, find_first, update_where, delete_where, Option-cases, Bool-cases,
}
use Prim.Native.String.{String}
use pexlo_portal.Documents.State.{
  DocumentStatus, draft, pending, accepted, declined, acknowledged, signed, voided, expired,
  Document, Store, owned, update_document,
}
use pexlo_portal.Documents.Lookup.{
  by_id, DistinctIds, status_in, status_of, find_by_id-owned, find_by_id-update,
}
use pexlo_portal.Documents.Lifecycle.{
  send, void_document, track_view, create, CreateDocument, mark_sent, expiry, mark_voided,
}

-- The statuses that one operation may give a document, by its status before.
abbrev pub may_become : DocumentStatus → DocumentStatus → Bool
may_become draft draft = true
may_become draft pending = true
may_become draft voided = true
may_become pending draft = false
may_become pending acknowledged = false
may_become pending _ = true
may_become accepted accepted = true
may_become accepted declined = true
may_become accepted signed = true
may_become accepted pending = true
may_become declined accepted = true
may_become declined declined = true
may_become declined signed = true
may_become declined pending = true
may_become acknowledged accepted = true
may_become acknowledged declined = true
may_become acknowledged acknowledged = true
may_become acknowledged signed = true
may_become acknowledged pending = true
may_become signed signed = true
may_become signed pending = true
may_become voided voided = true
may_become expired expired = true
may_become _ _ = false

-- A document appears as a draft, and moves as above.
abbrev pub moves : Option DocumentStatus → Option DocumentStatus → Bool
moves none none = true
moves none (some draft) = true
moves none (some _) = false
moves (some a) none = false
moves (some a) (some b) = may_become a b

pub moves_refl : (o : Option DocumentStatus) → moves o o ≡ true
moves_refl none = refl
moves_refl (some draft) = refl
moves_refl (some pending) = refl
moves_refl (some accepted) = refl
moves_refl (some declined) = refl
moves_refl (some acknowledged) = refl
moves_refl (some signed) = refl
moves_refl (some voided) = refl
moves_refl (some expired) = refl

-- An update of the document under an identifier moves its status as the update says, and no
-- other status.
pub moves-update :
    (id i : ℕ) (f : Document → Document) (d : Document) (docs : List Document)
    → ((e : Document) → (f e).id ≡ e.id)
    → find_first (by_id id) docs ≡ some d
    → may_become d.status (f d).status ≡ true
    → moves (status_in i docs) (status_in i (update_where (by_id id) f docs)) ≡ true
moves-update id i f d docs keeps e fits = elim (ℕ_discrete i id) [
  | yes same ↦
      let e' : find_first (by_id i) docs ≡ some d = rw same e in
      let before : status_in i docs ≡ some d.status = ground arith in
      let after : status_in i (update_where (by_id id) f docs) ≡ some (f d).status =
        ground (arith, find_by_id-update id f keeps i docs) in
      rw (before, after) fits
  | no other ↦
      let stays : status_in i (update_where (by_id id) f docs) ≡ status_in i docs =
        ground (arith, find_by_id-update id f keeps i docs) in
      rw stays (moves_refl (status_in i docs))
]

-- An update that leaves identifiers and statuses alone leaves the status of every document.
pub status_in-update :
    (id i : ℕ) (f : Document → Document) (docs : List Document)
    → ((e : Document) → (f e).id ≡ e.id)
    → ((e : Document) → (f e).status ≡ e.status)
    → status_in i (update_where (by_id id) f docs) ≡ status_in i docs
status_in-update id i f docs keeps same = elim (Option-cases (find_first (by_id i) docs)) [
  | inl e ↦ ground (arith, find_by_id-update id f keeps i docs)
  | inr (d, e) ↦ ground (arith, find_by_id-update id f keeps i docs, same d)
]

-- The statuses that `updateDocumentStatus` gives.
abbrev pub is_verdict : Option DocumentStatus → Bool
is_verdict (some accepted) = true
is_verdict (some declined) = true
is_verdict (some signed) = true
is_verdict _ = false

-- The statuses in which a document can be responded to or signed.
abbrev pub is_open : DocumentStatus → Bool
is_open pending = true
is_open accepted = true
is_open declined = true
is_open acknowledged = true
is_open _ = false

-- One document may have been given a verdict, and the others are as they were.
abbrev pub Settles : ℕ → ℕ → Option DocumentStatus → Option DocumentStatus → Type 0
Settles id i before after = (after ≡ before) ⊎ ((i ≡ id) × (is_verdict after ≡ true))

verdict-moves :
    (a : DocumentStatus) (o : Option DocumentStatus)
    → is_open a ≡ true
    → is_verdict o ≡ true
    → moves (some a) o ≡ true
verdict-moves a o h k = ground arith

pub Settles-moves :
    (id i : ℕ) (d : Document) (docs : List Document) (after : Option DocumentStatus)
    → find_first (by_id id) docs ≡ some d
    → is_open d.status ≡ true
    → Settles id i (status_in i docs) after
    → moves (status_in i docs) after ≡ true
Settles-moves id i d docs after e opened (inl same) = rw same (moves_refl (status_in i docs))
Settles-moves id i d docs after e opened (inr (same, verdict)) =
    let e' : find_first (by_id i) docs ≡ some d = rw same e in
    let before : status_in i docs ≡ some d.status = ground arith in
    rw before (verdict-moves d.status after opened verdict)

-- An operation that leaves the documents alone, or has one effect on them.
pub moves-either :
    (i : ℕ) (before changed after : List Document)
    → (after ≡ before) ⊎ (after ≡ changed)
    → moves (status_in i before) (status_in i changed) ≡ true
    → moves (status_in i before) (status_in i after) ≡ true
moves-either i before changed after (inl e) h = rw e (moves_refl (status_in i before))
moves-either i before changed after (inr e) h = rw e h
