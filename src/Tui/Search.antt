-- ===== src/Tui/Search.antt =====
-- The search of the list filter (containsIgnoreCase and findSubstring of
-- internal/tui/list_helpers.go), on bytes.
use kubectl_hpa_status.Prelude.{
  ℕ, zero, suc, ◌+◌, ◌-◌, ◌≤◌, ◌<◌, length-append, subst, [], ◌∷◌, ◌++◌, map, Bool, true, false,
  ◌&&◌, ◌||◌, ltb, leb, ◌==◌, none, some, length, get_elem?, drop, to_lower, if◌then◌else◌, ◌≡◌,
  ◌↔◌, inl, inr, refl, sym, ap, ◌∙◌, arith, Bool-cases, ==_iff,
}
use kubectl_hpa_status.Tui.State.{Bytes}

-- The inner loop: the bytes of `substr` against those of `s` from the index i on.
unfoldable pub matches_at : Bytes → ℕ → Bytes → Bool
matches_at s i [] = true
matches_at s i (b ∷ substr) = elim (get_elem? s i) [
  | none ↦ false
  | some c ↦ (to_lower c == to_lower b) && matches_at s (suc i) substr
]

-- The outer loop with `left` starts to try, from i on.
unfoldable pub scan_from : Bytes → Bytes → ℕ → ℕ → Bool
unfolding matches_at
scan_from s substr i zero = false
scan_from s substr i (suc left) = matches_at s i substr || scan_from s substr (suc i) left

unfoldable pub find_substring : Bytes → Bytes → Bool
unfolding scan_from
find_substring s substr =
    if ltb (length s) (length substr)
    then false
    else scan_from s substr 0 (suc (length s - length substr))

unfoldable pub contains_ignore_case : Bytes → Bytes → Bool
unfolding find_substring
contains_ignore_case s substr =
    (length substr == 0) || (leb (length substr) (length s) && find_substring s substr)

abbrev lowered : Bytes → Bytes
lowered = map to_lower

-- The text without its first i bytes starts with `substr`, but for the case of letters.
abbrev StartsAt : Bytes → ℕ → Bytes → Type 0
StartsAt s i substr = (post : Bytes) × (lowered (drop i s) ≡ lowered substr ++ post)

-- An occurrence but for the case of letters.
abbrev pub OccursIn : Bytes → Bytes → Type 0
OccursIn substr s = (pre post : Bytes) × (lowered s ≡ pre ++ (lowered substr ++ post))

matches_at-suc :
    (c : ℕ) (s substr : Bytes) (i : ℕ) → matches_at (c ∷ s) (suc i) substr ≡ matches_at s i substr
unfolding matches_at
matches_at-suc c s [] i = refl
matches_at-suc c s (b ∷ substr) i =
    ap (λ rest. elim (get_elem? s i) [ none ↦ false | some d ↦ (to_lower d == to_lower b) && rest ])
      (matches_at-suc c s substr (suc i))

matches_at-StartsAt :
    (s substr : Bytes) (i : ℕ) → matches_at s i substr ≡ true → StartsAt s i substr
unfolding matches_at
matches_at-StartsAt s [] i h = (lowered (drop i s), refl)
matches_at-StartsAt [] (b ∷ substr) i h = cc
matches_at-StartsAt (c ∷ s) (b ∷ substr) (suc i) h =
    matches_at-StartsAt s (b ∷ substr) i (sym (matches_at-suc c s (b ∷ substr) i) ∙ h)
matches_at-StartsAt (c ∷ s) (b ∷ substr) zero h = elim (Bool-cases (to_lower c == to_lower b)) [
  | inr p ↦ cc (rw p at h)
  | inl p ↦
      let (post, e) =
        matches_at-StartsAt s substr zero (sym (matches_at-suc c s substr zero) ∙ (rw p at h)) in
      (post, rw ((==_iff (to_lower c) (to_lower b)).0 p) (ap (λ rest. to_lower b ∷ rest) e))
]

cons_tail : {a b : ℕ} {xs ys : Bytes} → (a ∷ xs) ≡ (b ∷ ys) → xs ≡ ys
cons_tail h = ap (drop 1) h

StartsAt-matches_at :
    (s substr : Bytes) (i : ℕ) → StartsAt s i substr → matches_at s i substr ≡ true
unfolding matches_at
StartsAt-matches_at s [] i h = refl
StartsAt-matches_at [] (b ∷ substr) zero (post, h) = cc
StartsAt-matches_at [] (b ∷ substr) (suc i) (post, h) = cc
StartsAt-matches_at (c ∷ s) (b ∷ substr) (suc i) h =
    matches_at-suc c s (b ∷ substr) i ∙ StartsAt-matches_at s (b ∷ substr) i h
StartsAt-matches_at (c ∷ s) (b ∷ substr) zero (post, h) =
    let same : to_lower c ≡ to_lower b = cc in
    rw ((==_iff (to_lower c) (to_lower b)).1 same)
      (matches_at-suc c s substr zero ∙ StartsAt-matches_at s substr zero (post, cons_tail h))

scan_from-StartsAt :
    (s substr : Bytes) (i left : ℕ)
    → scan_from s substr i left ≡ true
    → (j : ℕ) × StartsAt s j substr
unfolding scan_from
scan_from-StartsAt s substr i zero h = cc
scan_from-StartsAt s substr i (suc left) h = elim (Bool-cases (matches_at s i substr)) [
  | inl p ↦ (i, matches_at-StartsAt s substr i p)
  | inr p ↦ scan_from-StartsAt s substr (suc i) left (rw p at h)
]

StartsAt-scan_from :
    (s substr : Bytes) (i left d : ℕ)
    → StartsAt s (d + i) substr
    → d < left
    → scan_from s substr i left ≡ true
unfolding scan_from
StartsAt-scan_from s substr i zero d h k = absurd (omega arith)
StartsAt-scan_from s substr i (suc left) zero h k =
    rw (StartsAt-matches_at s substr i (subst (λ j. StartsAt s j substr) (omega arith) h)) refl
StartsAt-scan_from s substr i (suc left) (suc d) h k =
    let next : scan_from s substr (suc i) left ≡ true =
      StartsAt-scan_from s substr (suc i) left d (subst (λ j. StartsAt s j substr) (omega arith) h)
        (omega arith) in
    elim (Bool-cases (matches_at s i substr)) [ inl p ↦ rw p refl | inr p ↦ rw p next ]

lowered-split : (s : Bytes) (j : ℕ) → (pre : Bytes) × (lowered s ≡ pre ++ lowered (drop j s))
lowered-split s zero = ([], refl)
lowered-split [] (suc j) = ([], refl)
lowered-split (c ∷ s) (suc j) =
    let (pre, e) = lowered-split s j in (to_lower c ∷ pre, ap (λ r. to_lower c ∷ r) e)

lowered-drop : (s pre rest : Bytes) → lowered s ≡ pre ++ rest → lowered (drop (length pre) s) ≡ rest
lowered-drop s [] rest h = h
lowered-drop [] (p ∷ pre) rest h = cc
lowered-drop (c ∷ s) (p ∷ pre) rest h = lowered-drop s pre rest (cons_tail h)

length-lowered : (s : Bytes) → length (lowered s) ≡ length s
length-lowered [] = refl
length-lowered (c ∷ s) = ap suc (length-lowered s)

OccursIn-length :
    (s substr pre post : Bytes)
    → lowered s ≡ pre ++ (lowered substr ++ post)
    → length pre + length substr ≤ length s
OccursIn-length s substr pre post h =
    let e : length (lowered s) ≡ length (pre ++ (lowered substr ++ post)) = ap length h in
    omega (
      arith,
      length-lowered s,
      length-lowered substr,
      length-append pre (lowered substr ++ post),
      length-append (lowered substr) post,
    )

length-zero : (s : Bytes) → length s ≡ 0 → s ≡ []
length-zero [] h = refl
length-zero (c ∷ s) h = cc

found : (s substr : Bytes) → contains_ignore_case s substr ≡ true → OccursIn substr s
unfolding contains_ignore_case find_substring
found s substr h = elim (Bool-cases (length substr == 0)) [
  | inl p ↦
      let e = length-zero substr ((==_iff (length substr) 0).0 p) in
      ([], lowered s, ap (λ x. lowered x ++ lowered s) (sym e))
  | inr p ↦
      let h1 = rw p at h in
      elim (Bool-cases (leb (length substr) (length s))) [
        | inr q ↦ cc (rw q at h1)
        | inl q ↦
            let no : ltb (length s) (length substr) ≡ false = ground arith in
            let (j, (post, e)) =
              scan_from-StartsAt s substr 0 (suc (length s - length substr)) (rw (q, no) at h1) in
            let (pre, d) = lowered-split s j in (pre, post, d ∙ ap (λ r. pre ++ r) e)
      ]
]

complete : (s substr : Bytes) → OccursIn substr s → contains_ignore_case s substr ≡ true
unfolding contains_ignore_case find_substring
complete s substr (pre, post, h) =
    let bound = OccursIn-length s substr pre post h in
    let fits : leb (length substr) (length s) ≡ true = ground arith in
    let no : ltb (length s) (length substr) ≡ false = ground arith in
    let scan =
      StartsAt-scan_from s substr 0 (suc (length s - length substr)) (length pre)
        (subst (λ j. StartsAt s j substr) (omega arith)
          (post, lowered-drop s pre (lowered substr ++ post) h))
        (omega arith) in
    elim (Bool-cases (length substr == 0)) [ inl p ↦ rw p refl | inr p ↦ rw (p, fits, no) scan ]

-- The search answers whether the text occurs, but for the case of ASCII letters.
pub contains_ignore_case_iff :
    (s substr : Bytes) → (contains_ignore_case s substr ≡ true) ↔ OccursIn substr s
contains_ignore_case_iff s substr = (found s substr, complete s substr)
