-- ===== src/TimeEntries/Double.antt =====
-- Natural numbers as JavaScript's numbers hold them: doubles, which have 53 significant bits.
use pexlo_portal.Prelude.{
  ℕ, zero, suc, ◌+◌, ◌-◌, ◌*◌, ◌/◌, ◌%◌, ◌^◌, ◌≤◌, ◌<◌, ◌≡◌, refl, true, false, not, ◌==◌, ◌&&◌,
  ◌||◌, if◌then◌else◌, leb, ltb, arith, Bool-cases, inl, inr,
}

-- `2 ** 53`; up to it, every natural number is a double.
abbrev pub safe : ℕ
safe = 9007199254740992

-- The multiple of the unit that is nearest to the number; of two, the even multiple.
abbrev pub round_to : ℕ → ℕ → ℕ
round_to unit n =
    let q = n / unit in
    let twice = 2 * (n - q * unit) in
    if ltb unit twice || (twice == unit && q % 2 == 1) then (q + 1) * unit else q * unit

-- The units are the powers of two, the smallest first that leaves at most 53 bits.
abbrev pub round_from : ℕ → ℕ → ℕ → ℕ
round_from zero unit n = n
round_from (suc fuel) unit n = elim (ltb (n / unit) safe) [
  | true ↦ round_to unit n
  | false ↦ round_from fuel (2 * unit) n
]

-- The double nearest to a number. The units of the finite doubles are 2 ** 0 to 2 ** 971.
unfoldable pub to_double : ℕ → ℕ
to_double n = round_from 972 1 n

-- The multiple of the unit below or above the number that reads back as it, if one does.
abbrev pub shorter : ℕ → ℕ → ℕ → ℕ
shorter unit n otherwise =
    let low = n / unit * unit in
    let high = low + unit in
    let fits_low = to_double low == n in
    let fits_high = to_double high == n in
    if fits_low && (not fits_high || leb (n - low) (high - n))
    then low
    else if fits_high
    then high
    else otherwise

-- The number with the fewest significant digits that reads back as this double, which has at most
-- `digits` digits.
unfoldable pub shortest : ℕ → ℕ → ℕ
shortest zero n = n
shortest (suc digits) n = let rest = shortest digits n in shorter (10 ^ digits) n rest

round_to-one : (n : ℕ) → round_to 1 n ≡ n
round_to-one n = ground arith

round_from-one : (fuel n : ℕ) → n < safe → round_from (suc fuel) 1 n ≡ n
round_from-one fuel n h =
    let here : ltb (n / 1) safe ≡ true = ground arith in rw (here, round_from) (round_to-one n)

-- Every number up to 2 ** 53 is a double.
pub to_double-exact : (n : ℕ) → n ≤ safe → to_double n ≡ n
unfolding to_double
to_double-exact n h = elim (Bool-cases (ltb n safe)) [
  | inl y ↦ round_from-one 971 n (ground arith)
  | inr m ↦ let last : n ≡ safe = ground arith in rw last refl
]
