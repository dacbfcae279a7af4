-- ===== src/TimeEntries/Invoicing/Grouping.antt =====
-- The groups of `byRate`: one for each rate, with that rate's entries and their seconds.
use pexlo_portal.Prelude.{
  ℕ, ◌+◌, ◌≡◌, ◌≢◌, Bool, List, [], ◌∷◌, ◌++◌, ◌==◌, ◌&&◌, ◌||◌, arith, any, Keyed, All,
  if◌then◌else◌, Bool-cases, inl, inr, sym,
}
use pexlo_portal.Ledger.{TimeEntry}
use pexlo_portal.TimeEntries.Invoicing.{Group, rate_of, seconds_of, add_to_groups, group_by_rate}

abbrev pub group_rate : Group → ℕ
group_rate g = g.rate

abbrev pub group_seconds : ℕ → List Group → ℕ
group_seconds r [] = 0
group_seconds r (g ∷ gs) =
    if g.rate == r then g.total_sec + group_seconds r gs else group_seconds r gs

abbrev pub entry_seconds : ℕ → List TimeEntry → ℕ
entry_seconds r [] = 0
entry_seconds r (e ∷ es) =
    if rate_of e == r then seconds_of e + entry_seconds r es else entry_seconds r es

-- The entry is listed in a group of the rate.
abbrev pub is_grouped : ℕ → ℕ → List Group → Bool
is_grouped r i gs = any (λ (g : Group). g.rate == r && any (λ j. j == i) g.entry_ids) gs

abbrev pub is_at_rate : ℕ → ℕ → List TimeEntry → Bool
is_at_rate r i es = any (λ (e : TimeEntry). rate_of e == r && e.id == i) es

add_to_groups-seconds :
    (r : ℕ) (e : TimeEntry) (gs : List Group)
    → group_seconds r (add_to_groups e gs)
      ≡ (if rate_of e == r then group_seconds r gs + seconds_of e else group_seconds r gs)
add_to_groups-seconds r e [] = ground arith
add_to_groups-seconds r e (g ∷ gs) = ground (arith, add_to_groups-seconds r e gs)

any-append_one :
    (i k : ℕ) (xs : List ℕ) → any (λ j. j == i) (xs ++ k ∷ []) ≡ (any (λ j. j == i) xs || (k == i))
any-append_one i k [] = ground arith
any-append_one i k (x ∷ xs) = ground (arith, any-append_one i k xs)

add_to_groups-grouped :
    (r i : ℕ) (e : TimeEntry) (gs : List Group)
    → is_grouped r i (add_to_groups e gs) ≡ (is_grouped r i gs || (rate_of e == r && e.id == i))
add_to_groups-grouped r i e [] = ground arith
add_to_groups-grouped r i e (g ∷ gs) =
    ground (arith, add_to_groups-grouped r i e gs, any-append_one i e.id g.entry_ids)

add_to_groups-other :
    (r : ℕ) (e : TimeEntry) (gs : List Group)
    → r ≢ rate_of e
    → All (λ (g : Group). g.rate ≢ r) gs
    → All (λ (g : Group). g.rate ≢ r) (add_to_groups e gs)
add_to_groups-other r e [] ne h = (λ x. ne (sym x), tt)
add_to_groups-other r e (g ∷ gs) ne h = elim (Bool-cases (g.rate == rate_of e)) [
  | inl y ↦ rw y h
  | inr n ↦ rw n (h.0, add_to_groups-other r e gs ne h.1)
]

add_to_groups-Keyed :
    (e : TimeEntry) (gs : List Group) → Keyed group_rate gs → Keyed group_rate (add_to_groups e gs)
add_to_groups-Keyed e [] h = (tt, tt)
add_to_groups-Keyed e (g ∷ gs) h = elim (Bool-cases (g.rate == rate_of e)) [
  | inl y ↦ rw y h
  | inr n ↦ rw n (add_to_groups-other g.rate e gs (ground arith) h.0, add_to_groups-Keyed e gs h.1)
]

groups_lem :
    (r i : ℕ) (es : List TimeEntry) (gs : List Group)
    → (group_seconds r (group_by_rate es gs) ≡ group_seconds r gs + entry_seconds r es)
      × (is_grouped r i (group_by_rate es gs) ≡ (is_grouped r i gs || is_at_rate r i es))
unfolding group_by_rate
groups_lem r i [] gs = (omega arith, ground arith)
groups_lem r i (e ∷ es) gs =
    let (a, b) = groups_lem r i es (add_to_groups e gs) in
    (
      ground (arith, a, add_to_groups-seconds r e gs),
      ground (arith, b, add_to_groups-grouped r i e gs),
    )

group_by_rate-Keyed :
    (es : List TimeEntry) (gs : List Group)
    → Keyed group_rate gs
    → Keyed group_rate (group_by_rate es gs)
unfolding group_by_rate
group_by_rate-Keyed [] gs h = h
group_by_rate-Keyed (e ∷ es) gs h =
    group_by_rate-Keyed es (add_to_groups e gs) (add_to_groups-Keyed e gs h)

-- Merging makes at most one line for a rate; the line's seconds are those of the entries of that
-- rate, all together, and the line lists an entry exactly if it is one of them.
pub group_by_rate-exact :
    (es : List TimeEntry)
    → Keyed group_rate (group_by_rate es [])
      × ((r : ℕ) → group_seconds r (group_by_rate es []) ≡ entry_seconds r es)
      × ((r i : ℕ) → is_grouped r i (group_by_rate es []) ≡ is_at_rate r i es)
group_by_rate-exact es = (
  group_by_rate-Keyed es [] tt,
  λ r. omega (arith, (groups_lem r 0 es []).0),
  λ r i. (groups_lem r i es []).1,
)
