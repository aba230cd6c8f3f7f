-- ===== src/Retrospective/RoundTrip.antt =====
-- The range in the message of a rescale entry, and its reading (pkg/hpa/retrospective).
use kubectl_hpa_status.Prelude.{
  ℕ, ◌≤◌, ◌==◌, ◌++◌, [], ◌∷◌, pos, false, codes, is_prefix, has_infix, Option, none, some, ◌≡◌,
  refl, ap, ◌∙◌, inl, inr, Bool-cases, arith,
}
use kubectl_hpa_status.Retrospective.Patterns.{
  Text, strip, desired_at, digits_at, leftmost, parse_desired_range, parse_pair, ◌>>=◌, same,
  format_metric_context,
}
use kubectl_hpa_status.Retrospective.Decimal.{
  format_int, span_digits-format_int, span_digits-number, parse_int32-format_int, IsNumber,
}
use kubectl_hpa_status.Retrospective.Timeline.{
  Event, desired_text, with_context, rescale_entry, entry_replica_range,
}

digits_at-number : (s rest : Text) → IsNumber s → digits_at (s, rest) ≡ some (s, rest)
digits_at-number [] rest h = elim h [ ]
digits_at-number (c ∷ s) rest h = refl

desired_at-desired_text :
    (from to : ℕ)
    → desired_at (desired_text (some (pos from)) (pos to))
      ≡ some (format_int (pos from), format_int (pos to))
unfolding desired_at desired_text strip codes
desired_at-desired_text from to =
    let a = format_int (pos from) in
    let b = format_int (pos to) in
    let (a_number, a_read) = span_digits-format_int from (codes " -> " ++ b) refl in
    let b_number = (span_digits-format_int to [] tt).0 in
    rw
      (
        a_read,
        digits_at-number a (codes " -> " ++ b) a_number,
        span_digits-number to,
        digits_at-number b [] b_number,
      )
      refl

leftmost_here :
    {A : Type 0} (f : Text → Option A) (s : Text) (a : A) → f s ≡ some a → leftmost f s ≡ some a
unfolding leftmost
leftmost_here f [] a h = h
leftmost_here f (c ∷ s) a h = rw (h, leftmost) refl

parse_pair-format_int :
    (from to : ℕ)
    → from ≤ 2147483647
    → to ≤ 2147483647
    → parse_pair (format_int (pos from), format_int (pos to)) ≡ some (pos from, pos to)
parse_pair-format_int from to h k =
    rw (parse_int32-format_int from h, parse_int32-format_int to k) refl

desired_text-read :
    (from to : ℕ)
    → from ≤ 2147483647
    → to ≤ 2147483647
    → parse_desired_range (desired_text (some (pos from)) (pos to)) ≡ some (pos from, pos to)
unfolding parse_desired_range
desired_text-read from to h k =
    ap (λ o. o >>= parse_pair)
      (leftmost_here desired_at (desired_text (some (pos from)) (pos to)) _
        (desired_at-desired_text from to))
    ∙ parse_pair-format_int from to h k

-- A word that a text does not start with is not there with more behind it either.
strip-append : (word more s : Text) → strip same word s ≡ none → strip same (word ++ more) s ≡ none
unfolding strip
strip-append [] more s h = cc h
strip-append (w ∷ word) more [] h = refl
strip-append (w ∷ word) more (c ∷ s) h = elim (Bool-cases (c == w)) [
  | inl e ↦ rw e (strip-append word more s (rw e at h))
  | inr e ↦ rw e refl
]

-- No letter of the word is a blank.
abbrev NoBlank : Text → Type 0
NoBlank [] = Unit
NoBlank (w ∷ word) = (32 == w ≡ false) × NoBlank word

-- A word without a blank does not reach over one.
strip-blank :
    (word s rest : Text)
    → NoBlank word
    → is_prefix word s ≡ false
    → strip same word (s ++ (32 ∷ rest)) ≡ none
unfolding strip
strip-blank [] s rest n h = cc h
strip-blank (w ∷ word) [] rest (n, ns) h = rw n refl
strip-blank (w ∷ word) (c ∷ s) rest (n, ns) h = elim (Bool-cases (c == w)) [
  | inl e ↦ rw e (strip-blank word s rest ns (ground (arith, e, h)))
  | inr e ↦ rw e refl
]

desired_at-none : (s : Text) → strip same (codes "desired") s ≡ none → desired_at s ≡ none
unfolding desired_at codes
desired_at-none s h = rw (strip-append (codes "desired") (codes " ") s h) refl

leftmost_skip :
    {A : Type 0} (f : Text → Option A) (c : ℕ) (s : Text)
    → f (c ∷ s) ≡ none
    → leftmost f (c ∷ s) ≡ leftmost f s
unfolding leftmost
leftmost_skip f c s h = rw (leftmost, h) refl

-- What stands before a blank is passed over, if it does not have the word "desired".
leftmost-context :
    (context rest : Text)
    → has_infix (codes "desired") context ≡ false
    → leftmost desired_at (context ++ (32 ∷ rest)) ≡ leftmost desired_at (32 ∷ rest)
unfolding has_infix codes
leftmost-context [] rest h = refl
leftmost-context (c ∷ context) rest h =
    let blanks : NoBlank (codes "desired") =
      (refl, (refl, (refl, (refl, (refl, (refl, (refl, tt))))))) in
    leftmost_skip desired_at c (context ++ (32 ∷ rest)) (
      desired_at-none (c ∷ (context ++ (32 ∷ rest)))
        (strip-blank (codes "desired") (c ∷ context) rest blanks (ground arith)))
    ∙ leftmost-context context rest (ground arith)

skip_blank : (s : Text) → leftmost desired_at (32 ∷ s) ≡ leftmost desired_at s
unfolding strip codes
skip_blank s = leftmost_skip desired_at 32 s (desired_at-none (32 ∷ s) refl)

with_context-read :
    (context message : Text)
    → has_infix (codes "desired") context ≡ false
    → leftmost desired_at (with_context context message) ≡ leftmost desired_at message
unfolding with_context codes
with_context-read [] message h = refl
with_context-read (c ∷ context) message h =
    leftmost-context (c ∷ context) (32 ∷ 32 ∷ 32 ∷ 32 ∷ message) h
    ∙ skip_blank (32 ∷ 32 ∷ 32 ∷ 32 ∷ message)
    ∙ skip_blank (32 ∷ 32 ∷ 32 ∷ message)
    ∙ skip_blank (32 ∷ 32 ∷ message)
    ∙ skip_blank (32 ∷ message)
    ∙ skip_blank message

-- For a rescale from one count to another, both between 0 and the largest int32, whose shown reason
-- does not have the word "desired": the message of the entry, `desired A -> B` behind the reason, is
-- read back as the two counts; and these are the counts that the replay takes for the entry, whether
-- it uses the recorded ones or those of the message.
pub parse_desired_range-desired_text :
    (event : Event) (from to : ℕ)
    → from ≤ 2147483647
    → to ≤ 2147483647
    → has_infix (codes "desired") (format_metric_context event.message) ≡ false
    → let entry = rescale_entry event (some (pos from)) (some (pos to)) in
      (parse_desired_range entry.message ≡ some (pos from, pos to))
      × (entry_replica_range entry ≡ some (pos from, pos to))
      × (entry_replica_range (record entry { parse_valid = false }) ≡ some (pos from, pos to))
unfolding parse_desired_range rescale_entry entry_replica_range
parse_desired_range-desired_text event from to h k free =
    let message = desired_text (some (pos from)) (pos to) in
    let context = format_metric_context event.message in
    let read : parse_desired_range (with_context context message) ≡ some (pos from, pos to) =
      ap (λ o. o >>= parse_pair) (with_context-read context message free)
      ∙ desired_text-read from to h k in
    (read, refl, read)
