-- ===== src/Retrospective/Decimal.antt =====
-- fmt's `%d`, and its round trip through the digits that a regular expression reads.
use kubectl_hpa_status.Prelude.{
  ℕ, zero, suc, ◌+◌, ◌-◌, ◌*◌, ◌/◌, ◌%◌, ◌≤◌, ◌<◌, [], ◌∷◌, ◌++◌, ℤ, pos, negsuc, true, false, ltb,
  leb, some, All, if◌then◌else◌, ◌≡◌, refl, sym, ap, ◌∙◌, inl, inr, Bool-cases, arith,
}
use kubectl_hpa_status.Retrospective.Patterns.{Text, is_digit, span_digits, value, parse_int32}

-- Fuel above the number is enough: each digit leaves a tenth of it.
unfoldable pub digits_of : ℕ → ℕ → Text
digits_of zero n = []
digits_of (suc fuel) n =
    let front = digits_of fuel (n / 10) in
    if ltb n 10 then (b'0' + n) ∷ [] else front ++ ((b'0' + n % 10) ∷ [])

unfoldable pub format_int : ℤ → Text
unfolding digits_of
format_int (pos n) = digits_of (suc n) n
format_int (negsuc n) = b'-' ∷ digits_of (suc (suc n)) (suc n)

-- Digits, and at least one.
abbrev pub IsNumber : Text → Type 0
IsNumber [] = ⊥
IsNumber (c ∷ s) = (is_digit c ≡ true) × All (λ d. is_digit d ≡ true) s

All-last :
    (s : Text) (d : ℕ)
    → All (λ c. is_digit c ≡ true) s
    → is_digit d ≡ true
    → All (λ c. is_digit c ≡ true) (s ++ (d ∷ []))
All-last [] d h k = (k, tt)
All-last (c ∷ s) d (a, h) k = (a, All-last s d h k)

IsNumber-last : (s : Text) (d : ℕ) → IsNumber s → is_digit d ≡ true → IsNumber (s ++ (d ∷ []))
IsNumber-last [] d h k = elim h [ ]
IsNumber-last (c ∷ s) d (a, h) k = (a, All-last s d h k)

digits_of-IsNumber : (fuel n : ℕ) → n < fuel → IsNumber (digits_of fuel n)
unfolding digits_of
digits_of-IsNumber zero n h = absurd (omega arith)
digits_of-IsNumber (suc fuel) n h = elim (Bool-cases (ltb n 10)) [
  | inl p ↦ rw p (ground arith, tt)
  | inr p ↦ rw p (
      IsNumber-last (digits_of fuel (n / 10)) (b'0' + n % 10)
        (digits_of-IsNumber fuel (n / 10) (ground arith)) (ground arith))
]

value-last : (n d : ℕ) (s : Text) → value n (s ++ ((b'0' + d) ∷ [])) ≡ value n s * 10 + d
unfolding value
value-last n d [] = omega arith
value-last n d (c ∷ s) = value-last (n * 10 + (c - b'0')) d s

value-digits_of : (fuel n : ℕ) → n < fuel → value 0 (digits_of fuel n) ≡ n
unfolding digits_of value
value-digits_of zero n h = absurd (omega arith)
value-digits_of (suc fuel) n h = elim (Bool-cases (ltb n 10)) [
  | inl p ↦ rw p (omega arith)
  | inr p ↦
      let big : 10 ≤ n = ground arith in
      rw p (
        omega (
          arith,
          value-last 0 (n % 10) (digits_of fuel (n / 10)),
          value-digits_of fuel (n / 10) (omega arith),
        ))
]

-- Where a text stops being a number.
abbrev pub StopsDigits : Text → Type 0
StopsDigits [] = Unit
StopsDigits (c ∷ s) = is_digit c ≡ false

span_stop : (rest : Text) → StopsDigits rest → span_digits rest ≡ ([], rest)
unfolding span_digits
span_stop [] h = refl
span_stop (c ∷ rest) h = rw h refl

span_digits-append :
    (s rest : Text)
    → All (λ d. is_digit d ≡ true) s
    → StopsDigits rest
    → span_digits (s ++ rest) ≡ (s, rest)
unfolding span_digits
span_digits-append [] rest h k = span_stop rest k
span_digits-append (c ∷ s) rest (a, h) k = rw (a, span_digits-append s rest h k) refl

pub IsNumber-All : (s : Text) → IsNumber s → All (λ d. is_digit d ≡ true) s
IsNumber-All [] h = elim h [ ]
IsNumber-All (c ∷ s) h = h

pub span_digits-format_int :
    (n : ℕ) (rest : Text)
    → StopsDigits rest
    → IsNumber (format_int (pos n))
      × (span_digits (format_int (pos n) ++ rest) ≡ (format_int (pos n), rest))
unfolding format_int
span_digits-format_int n rest h =
    let number = digits_of-IsNumber (suc n) n (omega arith) in
    (number, span_digits-append (digits_of (suc n) n) rest (IsNumber-All _ number) h)

-- An int32 that is not negative is read back from its decimal digits.
pub parse_int32-format_int :
    (n : ℕ) → n ≤ 2147483647 → parse_int32 (format_int (pos n)) ≡ some (pos n)
unfolding parse_int32 format_int
parse_int32-format_int n h =
    let fits : leb n 2147483647 ≡ true = ground arith in
    rw (value-digits_of (suc n) n (omega arith), fits) refl

append_nil : (s : Text) → s ++ [] ≡ s
append_nil [] = refl
append_nil (c ∷ s) = ap (λ r. c ∷ r) (append_nil s)

pub span_digits-number : (n : ℕ) → span_digits (format_int (pos n)) ≡ (format_int (pos n), [])
span_digits-number n =
    ap (λ s. span_digits s) (sym (append_nil (format_int (pos n))))
    ∙ (span_digits-format_int n [] tt).1
