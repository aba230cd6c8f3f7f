-- ===== src/Retrospective/Patterns.antt =====
-- The regular expressions of pkg/hpa/retrospective and pkg/hpa/internal/event on code points. A matcher
-- gives the places where a match can end, in the order in which Go prefers them.
use kubectl_hpa_status.Prelude.{
  ℕ, zero, suc, ◌+◌, ◌*◌, ◌-◌, List, [], ◌∷◌, ◌++◌, ℤ, pos, Bool, false, ◌&&◌, ◌||◌, leb, ltb, ◌==◌,
  Option, none, some, codes, to_lower, if◌then◌else◌, trim_start, trim_end,
}

abbrev pub Text : Type 0
Text = List ℕ

abbrev pub is_digit : ℕ → Bool
is_digit c = leb b'0' c && leb c b'9'

-- `\s` of a regular expression.
abbrev pub is_blank : ℕ → Bool
is_blank c = c == 9 || c == 10 || c == 12 || c == 13 || c == 32

abbrev pub is_word : ℕ → Bool
is_word c = is_digit c || (leb b'A' c && leb c b'Z') || (leb b'a' c && leb c b'z') || c == b'_'

-- `(?i)` also takes the Kelvin sign for k and the long s for s.
unfoldable pub fold_case : ℕ → ℕ
fold_case c = if c == 8490 then b'k' else if c == 383 then b's' else to_lower c

-- strings.ToLower as far as it gives ASCII letters.
unfoldable pub lower_case : ℕ → ℕ
lower_case c = if c == 304 then b'i' else if c == 8490 then b'k' else to_lower c

unfoldable pub upper_case : ℕ → ℕ
upper_case c = if leb b'a' c && leb c b'z' then c - 32 else c

-- What follows a word, if the text starts with it; the letters are compared by `f`.
unfoldable pub strip : (ℕ → ℕ) → Text → Text → Option Text
strip f [] s = some s
strip f (w ∷ word) [] = none
strip f (w ∷ word) (c ∷ s) = let rest = strip f word s in if f c == w then rest else none

abbrev pub same : ℕ → ℕ
same c = c

-- The digits at the start of a text, and the rest.
unfoldable pub span_digits : Text → Text × Text
span_digits [] = ([], [])
span_digits (c ∷ s) =
    let rest = span_digits s in if is_digit c then (c ∷ rest.0, rest.1) else ([], c ∷ s)

unfoldable pub skip_blanks : Text → Text
skip_blanks [] = []
skip_blanks (c ∷ s) = let rest = skip_blanks s in if is_blank c then rest else c ∷ s

-- FindStringSubmatch: the match that starts first.
unfoldable pub leftmost : {A : Type 0} → (Text → Option A) → Text → Option A
leftmost f [] = f []
leftmost f (c ∷ s) = elim (f (c ∷ s)) [ some a ↦ some a | none ↦ leftmost f s ]

unfoldable pub value : ℕ → Text → ℕ
value n [] = n
value n (c ∷ s) = value (n * 10 + (c - b'0')) s

-- strconv.ParseInt(s, 10, 32) of one or more digits.
unfoldable pub parse_int32 : Text → Option ℤ
unfolding value
parse_int32 s = if leb (value 0 s) 2147483647 then some (pos (value 0 s)) else none

abbrev pub digits_at : Text × Text → Option (Text × Text)
digits_at ([], rest) = none
digits_at (d ∷ digits, rest) = some (d ∷ digits, rest)

infixl 5 ◌>>=◌
abbrev pub ◌>>=◌ {ℓ κ} : {A : Type ℓ} {B : Type κ} → Option A → (A → Option B) → Option B
none >>= f = none
some a >>= f = f a

-- `desired (\d+) -> (\d+)`
unfoldable pub desired_at : Text → Option (Text × Text)
unfolding strip span_digits
desired_at s = strip same (codes "desired ") s >>= λ rest. digits_at (span_digits rest) >>= λ from.
    strip same (codes " -> ") from.1 >>= λ behind.
    digits_at (span_digits behind) >>= λ to. some (from.0, to.0)

abbrev pub parse_pair : Text × Text → Option (ℤ × ℤ)
parse_pair (from, to) = parse_int32 from >>= λ a. parse_int32 to >>= λ b. some (a, b)

unfoldable pub parse_desired_range : Text → Option (ℤ × ℤ)
unfolding desired_at leftmost parse_int32
parse_desired_range message = leftmost desired_at message >>= parse_pair

-- `(?i)new size:\s*(\d+)`
unfoldable pub new_size_at : Text → Option Text
unfolding strip span_digits skip_blanks fold_case
new_size_at s = strip fold_case (codes "new size:") s >>= λ rest.
    digits_at (span_digits (skip_blanks rest)) >>= λ size. some size.0

unfoldable pub parse_new_size : Text → Option ℤ
unfolding new_size_at leftmost parse_int32
parse_new_size message = leftmost new_size_at message >>= parse_int32

abbrev has_newline : Text → Bool
has_newline [] = false
has_newline (c ∷ s) = c == 10 || has_newline s

abbrev one_line : Text → Option Text
one_line [] = none
one_line (c ∷ s) = if has_newline (c ∷ s) then none else some (c ∷ s)

-- `(?i)reason:\s*(.+)$`, but for a reason of blanks alone, which is trimmed away in any case.
unfoldable pub reason_at : Text → Option Text
unfolding strip skip_blanks fold_case
reason_at s = strip fold_case (codes "reason:") s >>= λ rest. one_line (skip_blanks rest)

-- The number of bytes of a code point in UTF-8.
abbrev utf8_size : ℕ → ℕ
utf8_size c = if ltb c 128 then 1 else if ltb c 2048 then 2 else if ltb c 65536 then 3 else 4

abbrev byte_length : Text → ℕ
byte_length [] = 0
byte_length (c ∷ s) = utf8_size c + byte_length s

abbrev broken_bytes : ℕ → Text
broken_bytes zero = []
broken_bytes (suc n) = 65533 ∷ broken_bytes n

-- The first `n` bytes; each byte of a character that is cut reads as U+FFFD.
abbrev byte_prefix : ℕ → Text → Text
byte_prefix n [] = []
byte_prefix n (c ∷ s) =
    let rest = byte_prefix (n - utf8_size c) s in
    if leb (utf8_size c) n then c ∷ rest else broken_bytes n

abbrev shortened : Text → Text
shortened reason =
    if ltb 50 (byte_length reason) then byte_prefix 47 reason ++ codes "..." else reason

unfoldable pub format_metric_context : Text → Text
unfolding reason_at leftmost codes
format_metric_context message = elim (leftmost reason_at message) [
  | none ↦ []
  | some reason ↦ shortened (trim_end (trim_start reason))
]
