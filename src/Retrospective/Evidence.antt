-- ===== src/Retrospective/Evidence.antt =====
-- The two regular expressions of pkg/hpa/retrospective/replay.go that look for recorded limits. A matcher
-- gives the positions where a match can end, in the order in which Go prefers them.
use kubectl_hpa_status.Prelude.{
  ℕ, List, [], ◌∷◌, ◌++◌, ℤ, Bool, false, not, ◌&&◌, ◌||◌, ◌==◌, Option, none, some, codes,
  if◌then◌else◌, has_infix, map, to_lower, ltb_ℤ,
}
use kubectl_hpa_status.Retrospective.Patterns.{
  Text, is_blank, is_word, fold_case, lower_case, span_digits, parse_int32,
}

-- A position knows the character before it; 0 stands before the text.
record Position : Type 0 where
  pub before : ℕ
  pub rest : Text

abbrev Matcher : Type 0
Matcher = Position → List Position

abbrev join_all : (Position → List Position) → List Position → List Position
join_all f [] = []
join_all f (p ∷ ps) = f p ++ join_all f ps

infixl 5 ◌then_match◌
abbrev ◌then_match◌ : Matcher → Matcher → Matcher
◌then_match◌ m k p = join_all k (m p)

abbrev maybe : Matcher → Matcher
maybe m p = m p ++ (p ∷ [])

abbrev either : Matcher → Matcher → Matcher
either m k p = m p ++ k p

abbrev word_from : Text → ℕ → Text → List Position
word_from [] before s = record { before = before; rest = s } ∷ []
word_from (w ∷ word) before [] = []
word_from (w ∷ word) before (c ∷ s) =
    let rest = word_from word c s in if fold_case c == w then rest else []

abbrev word : Text → Matcher
word w p = word_from w p.before p.rest

abbrev blanks_from : ℕ → Text → List Position
blanks_from before [] = record { before = before; rest = [] } ∷ []
blanks_from before (c ∷ s) =
    let more = blanks_from c s in
    (if is_blank c then more else []) ++ (record { before = before; rest = c ∷ s } ∷ [])

abbrev blanks : Matcher
blanks p = blanks_from p.before p.rest

abbrev a_blank : ℕ → Text → List Position
a_blank before [] = []
a_blank before (c ∷ s) = if is_blank c then record { before = c; rest = s } ∷ [] else []

abbrev some_blanks : Matcher
some_blanks = (λ p. a_blank p.before p.rest) then_match blanks

abbrev starts_word : Text → Bool
starts_word [] = false
starts_word (c ∷ s) = is_word c

abbrev boundary : Matcher
boundary p =
    if (is_word p.before && not (starts_word p.rest))
      || (not (is_word p.before) && starts_word p.rest)
    then p ∷ []
    else []

-- `(\d+)\b`: a shorter run of digits would end within a word.
abbrev number_of : Text × Text → Option Text
number_of ([], rest) = none
number_of (d ∷ digits, rest) = if starts_word rest then none else some (d ∷ digits)

abbrev first_number : List Position → Option Text
first_number [] = none
first_number (p ∷ ps) = elim (number_of (span_digits p.rest)) [
  | some n ↦ some n
  | none ↦ first_number ps
]

-- `\s*(?:=|:|is)?\s*` before the number.
abbrev assigned : Matcher
assigned =
    blanks
    then_match (maybe (either (word (codes "=")) (either (word (codes ":")) (word (codes "is")))))
    then_match blanks

abbrev replica_count : Matcher
replica_count = word (codes "replica") then_match some_blanks then_match word (codes "count")

abbrev replicas : Matcher
replicas = word (codes "replica") then_match maybe (word (codes "s"))

abbrev requested_pattern : Matcher
requested_pattern =
    boundary
    then_match word (codes "requested")
    then_match maybe (some_blanks then_match either replicas replica_count)
    then_match assigned

abbrev maximum_pattern : Matcher
maximum_pattern =
    boundary
    then_match word (codes "max")
    then_match maybe (word (codes "imum"))
    then_match maybe (either replicas (some_blanks then_match replica_count))
    then_match assigned

abbrev find_from : Matcher → ℕ → Text → Option Text
find_from m before [] = first_number (m (record { before = before; rest = [] }))
find_from m before (c ∷ s) = elim (first_number (m (record { before = before; rest = c ∷ s }))) [
  | some n ↦ some n
  | none ↦ find_from m c s
]

-- parseReplicaEvidence
abbrev parse_replica_evidence : Matcher → Text → Option ℤ
parse_replica_evidence m evidence = elim (find_from m 0 evidence) [
  | none ↦ none
  | some digits ↦ parse_int32 digits
]

abbrev exceeds : Option ℤ → Option ℤ → Bool
exceeds (some requested) (some maximum) = ltb_ℤ maximum requested
exceeds _ _ = false

abbrev any_phrase : List Text → Text → Bool
any_phrase [] s = false
any_phrase (p ∷ ps) s = has_infix p s || any_phrase ps s

abbrev phrases : List Text
phrases =
    codes "scalinglimited"
    ∷ codes "toomanyreplicas"
    ∷ codes "capped by max"
    ∷ codes "limited by max"
    ∷ codes "exceeds max"
    ∷ codes "greater than the maximum"
    ∷ codes "more than the maximum"
    ∷ []

-- hasRecordedMaxReplicasCapEvidence, of the entry's message and its metric context.
unfoldable pub has_recorded_max_replicas_cap_evidence : Text → Text → Bool
unfolding codes to_lower fold_case lower_case span_digits parse_int32 has_infix
has_recorded_max_replicas_cap_evidence message metric_context =
    let evidence = message ++ (32 ∷ metric_context) in
    any_phrase phrases (map lower_case evidence)
    || exceeds (parse_replica_evidence requested_pattern evidence)
        (parse_replica_evidence maximum_pattern evidence)
