-- ===== src/TimeEntries/Number/RoundTrip.antt =====
-- The number in the text of an invoice number is the number that was written.
use pexlo_portal.Prelude.{
  ℕ, zero, suc, ◌+◌, ◌-◌, ◌*◌, ◌/◌, ◌≡◌, ◌≤◌, ◌<◌, ◌∙◌, ap, refl, true, none, some, [], ◌∷◌, ◌++◌,
  arith, All, All-append, length, length-append, Bool-cases, inl, inr, ltb, leb,
}
use pexlo_portal.TimeEntries.Double.{safe, to_double, to_double-exact}
use pexlo_portal.TimeEntries.Number.{
  Text, digits_from, reversed_onto, decimal, zeros, pad_start, prefix, number_text, invoice_number,
  is_digit, parse_digits, match_digits, match_number,
}

abbrev IsDigits : Text → Type 0
IsDigits t = All (λ (c : ℕ). is_digit c ≡ true) t

-- The value of digits of which the last one comes first.
abbrev value : Text → ℕ
value [] = 0
value (c ∷ cs) = (c - 48) + 10 * value cs

digits_from-IsDigits : (fuel n : ℕ) → IsDigits (digits_from fuel n)
unfolding digits_from
digits_from-IsDigits zero n = tt
digits_from-IsDigits (suc fuel) n = elim (Bool-cases (ltb n 10)) [
  | inl small ↦ rw small (ground arith, tt)
  | inr large ↦ rw large (ground arith, digits_from-IsDigits fuel (n / 10))
]

value-digits_from : (fuel n : ℕ) → n < fuel → value (digits_from fuel n) ≡ n
unfolding digits_from
value-digits_from zero n h = omega arith
value-digits_from (suc fuel) n h = elim (Bool-cases (ltb n 10)) [
  | inl small ↦ rw small (ground arith)
  | inr large ↦
      let rest : value (digits_from fuel (n / 10)) ≡ n / 10 =
        value-digits_from fuel (n / 10) (ground arith) in
      rw large (rw rest (ground arith))
]

parse-reversed_onto :
    (cs acc : Text)
    → IsDigits cs
    → parse_digits 0 (reversed_onto cs acc) ≡ parse_digits (value cs) acc
parse-reversed_onto [] acc h = refl
parse-reversed_onto (c ∷ cs) acc h =
    let one : parse_digits (value cs) (c ∷ acc) ≡ parse_digits (value cs * 10 + (c - 48)) acc =
      rw h.0 refl in
    let same : value cs * 10 + (c - 48) ≡ (c - 48) + 10 * value cs = omega arith in
    parse-reversed_onto cs (c ∷ acc) h.1 ∙ one ∙ ap (λ v. parse_digits v acc) same

reversed_onto-IsDigits :
    (cs acc : Text) → IsDigits cs → IsDigits acc → IsDigits (reversed_onto cs acc)
reversed_onto-IsDigits [] acc h k = k
reversed_onto-IsDigits (c ∷ cs) acc h k = reversed_onto-IsDigits cs (c ∷ acc) h.1 (h.0, k)

length-reversed_onto : (cs acc : Text) → length (reversed_onto cs acc) ≡ length cs + length acc
length-reversed_onto [] acc = omega arith
length-reversed_onto (c ∷ cs) acc = omega (arith, length-reversed_onto cs (c ∷ acc))

digits_from-some : (fuel n : ℕ) → 1 ≤ length (digits_from (suc fuel) n)
unfolding digits_from
digits_from-some fuel n = elim (Bool-cases (ltb n 10)) [
  | inl small ↦ rw small (omega arith)
  | inr large ↦ rw large (omega arith)
]

zeros-IsDigits : (k : ℕ) → IsDigits (zeros k)
zeros-IsDigits zero = tt
zeros-IsDigits (suc k) = (refl, zeros-IsDigits k)

parse-zeros : (k : ℕ) (t : Text) → parse_digits 0 (zeros k ++ t) ≡ parse_digits 0 t
parse-zeros zero t = refl
parse-zeros (suc k) t = parse-zeros k t

match_digits_all :
    (t : Text) → IsDigits t → 1 ≤ length t → match_digits t ≡ some (to_double (parse_digits 0 t))
match_digits_all [] h k = absurd (ground arith)
match_digits_all (c ∷ cs) h k = rw h.0 refl

match-invoice_number :
    (t : Text)
    → match_number (prefix ++ t)
      ≡ (elim (match_digits t) [ none ↦ match_number (78 ∷ 86 ∷ 45 ∷ t) | some n ↦ some n ])
unfolding match_number
match-invoice_number t = refl

number_text-decimal : (n : ℕ) → n ≤ safe → number_text n ≡ decimal n
unfolding number_text
number_text-decimal n h =
    let small : leb n safe ≡ true = ground arith in rw (small, number_text) refl

-- Reading the number in an invoice number gives back the number that it was made from, up to
-- 2 ** 53; the numbers are JavaScript's doubles, which are exact that far.
pub match_number-invoice_number : (n : ℕ) → n ≤ safe → match_number (invoice_number n) ≡ some n
unfolding invoice_number
match_number-invoice_number n h =
    let ds : Text = digits_from (suc n) n in
    let k : ℕ = 4 - length (decimal n) in
    let digits : IsDigits ds = digits_from-IsDigits (suc n) n in
    let all : IsDigits (pad_start 4 (decimal n)) =
      All-append (λ (c : ℕ). is_digit c ≡ true) (zeros k) (decimal n) (zeros-IsDigits k)
        (reversed_onto-IsDigits ds [] digits tt) in
    let long : 1 ≤ length (pad_start 4 (decimal n)) = omega (
      arith,
      length-append (zeros k) (decimal n),
      length-reversed_onto ds [],
      digits_from-some n n,
    ) in
    let parsed : parse_digits 0 (pad_start 4 (decimal n)) ≡ n =
      parse-zeros k (decimal n)
      ∙ parse-reversed_onto ds [] digits
      ∙ value-digits_from (suc n) n (omega arith) in
    let exact : to_double n ≡ n = to_double-exact n h in
    rw (number_text-decimal n h) (
      match-invoice_number (pad_start 4 (decimal n))
      ∙ (rw (match_digits_all (pad_start 4 (decimal n)) all long, parsed, exact) refl))
