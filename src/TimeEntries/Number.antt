-- ===== src/TimeEntries/Number.antt =====
-- Invoice numbers: the text "INV-" with at least four digits, and how the next one is found.
pub mod RoundTrip
use pexlo_portal.Prelude.{
  ℕ, zero, suc, ◌+◌, ◌-◌, ◌*◌, ◌/◌, ◌%◌, ◌^◌, Bool, true, false, not, Option, none, some, List, [],
  ◌∷◌, ◌++◌, ◌==◌, ◌&&◌, if◌then◌else◌, leb, ltb, length,
}
use pexlo_portal.TimeEntries.Double.{safe, to_double, shortest}

-- A text is the list of its character codes.
abbrev pub Text : Type 0
Text = List ℕ

-- The decimal digits, the last one first; each digit takes one unit of fuel.
unfoldable pub digits_from : ℕ → ℕ → Text
digits_from zero n = []
digits_from (suc fuel) n =
    let rest = digits_from fuel (n / 10) in if ltb n 10 then (48 + n) ∷ [] else (48 + n % 10) ∷ rest

abbrev pub reversed_onto : Text → Text → Text
reversed_onto [] acc = acc
reversed_onto (c ∷ cs) acc = reversed_onto cs (c ∷ acc)

-- One unit of fuel more than the number is enough.
abbrev pub decimal : ℕ → Text
decimal n = reversed_onto (digits_from (suc n) n) []

abbrev pub zeros : ℕ → Text
zeros zero = []
zeros (suc n) = 48 ∷ zeros n

-- `padStart(4, "0")`
abbrev pub pad_start : ℕ → Text → Text
pad_start width t = zeros (width - length t) ++ t

abbrev pub prefix : Text
prefix = 73 ∷ 78 ∷ 86 ∷ 45 ∷ []

abbrev pub drop_zeros : Text → Text
drop_zeros [] = []
drop_zeros (c ∷ cs) = let rest = drop_zeros cs in if c == 48 then rest else c ∷ cs

abbrev pub with_point : Text → Text
with_point [] = []
with_point (c ∷ []) = c ∷ []
with_point (c ∷ cs) = c ∷ 46 ∷ cs

-- One digit before the point, the others that are needed after it, and "e+" with the exponent.
abbrev pub exponential : ℕ → Text
exponential n =
    let digits = digits_from (suc n) n in
    with_point (reversed_onto (drop_zeros digits) []) ++ 101 ∷ 43 ∷ decimal (length digits - 1)

-- A double above 2 ** 53 is written with the fewest digits that read back as it, and from 10 ** 21
-- on with an exponent.
abbrev pub large_text : ℕ → Text
large_text n =
    let written = shortest (length (decimal n)) n in
    if ltb written (10 ^ 21) then decimal written else exponential written

-- `String(n)` of a double.
unfoldable pub number_text : ℕ → Text
number_text n = elim (leb n safe) [ true ↦ decimal n | false ↦ large_text n ]

unfoldable pub invoice_number : ℕ → Text
invoice_number next = prefix ++ pad_start 4 (number_text next)

abbrev pub is_digit : ℕ → Bool
is_digit c = leb 48 c && leb c 57

-- The number that the digits at the front stand for.
abbrev pub parse_digits : ℕ → Text → ℕ
parse_digits n [] = n
parse_digits n (c ∷ cs) =
    let rest = parse_digits (n * 10 + (c - 48)) cs in if is_digit c then rest else n

abbrev pub drop_prefix : Text → Text → Option Text
drop_prefix [] cs = some cs
drop_prefix (p ∷ ps) [] = none
drop_prefix (p ∷ ps) (c ∷ cs) = let rest = drop_prefix ps cs in if c == p then rest else none

-- `parseInt` of the digits `(\d+)`, of which there must be one, is the nearest double.
abbrev pub match_digits : Text → Option ℕ
match_digits [] = none
match_digits (c ∷ cs) = if is_digit c then some (to_double (parse_digits 0 (c ∷ cs))) else none

abbrev pub match_here : Text → Option ℕ
match_here t = elim (drop_prefix prefix t) [ none ↦ none | some rest ↦ match_digits rest ]

-- `match(/INV-(\d+)/)`: at the first place where it matches.
unfoldable pub match_number : Text → Option ℕ
match_number [] = none
match_number (c ∷ cs) =
    let later = match_number cs in elim (match_here (c ∷ cs)) [ none ↦ later | some n ↦ some n ]

-- The number after that of the last invoice, by the addition of doubles.
unfoldable pub next_number : Option Text → ℕ
next_number none = 1
next_number (some last) = elim (match_number last) [ none ↦ 1 | some n ↦ to_double (n + 1) ]
