-- ===== src/Churn/Segment.antt =====
-- latestContinuousRescaleSegment (pkg/hpa/churn/churn.go).
use kubectl_hpa_status.Prelude.{
  ℕ, zero, suc, ◌-◌, ◌≤◌, ◌<◌, List, [], ◌∷◌, ℤ, pos, ◌-ℤ◌, ltb_ℤ, ltb, ◌==◌, ==_iff, subst, Bool,
  none, some, length, get_elem?, drop, if◌then◌else◌, ◌≡◌, ◌⊎◌, inl, inr, true, false, Bool-cases,
  if_rule, arith,
}
use kubectl_hpa_status.Events.Rescales.{RescaleData}

-- One hour, in nanoseconds.
abbrev pub max_churn_transition_gap : ℤ
max_churn_transition_gap = pos 3600000000000

abbrev pub time_at : List RescaleData → ℕ → ℤ
time_at rescales i = elim (get_elem? rescales i) [ none ↦ pos 0 | some r ↦ r.timestamp ]

abbrev pub last_time : List RescaleData → ℤ
last_time [] = pos 0
last_time (r ∷ []) = r.timestamp
last_time (r ∷ s ∷ rest) = last_time (s ∷ rest)

-- The gap before the element at `i + 1`.
abbrev pub gap_after : List RescaleData → ℕ → ℤ
gap_after rescales i = time_at rescales (suc i) -ℤ time_at rescales i

unfoldable pub is_long_gap : List RescaleData → ℕ → Bool
is_long_gap rescales i = ltb_ℤ max_churn_transition_gap (gap_after rescales i)

-- The loop: `start` moves down while the gap before it is short.
unfoldable pub segment_start : List RescaleData → ℕ → ℕ
unfolding is_long_gap
segment_start rescales zero = zero
segment_start rescales (suc i) =
    let rest = segment_start rescales i in if is_long_gap rescales i then suc i else rest

unfoldable pub latest_segment : List RescaleData → List RescaleData
unfolding segment_start
latest_segment rescales = drop (segment_start rescales (length rescales - 1)) rescales

-- No gap from `i` on is longer than an hour, up to `n`.
abbrev pub IsContinuous : List RescaleData → ℕ → ℕ → Type 0
IsContinuous rescales i n = (j : ℕ) → (j < i) ⊎ ((n ≤ j) ⊎ (is_long_gap rescales j ≡ false))

-- The segment starts at the first element or behind a gap of more than an hour.
abbrev pub IsMaximal : List RescaleData → ℕ → Type 0
IsMaximal rescales zero = Unit
IsMaximal rescales (suc i) = is_long_gap rescales i ≡ true

-- From any position the loop stops at the start of the longest burst that ends there: inside it no
-- gap is longer than an hour, and it starts at the first rescale or behind such a gap.
pub segment_start_lem :
    (rescales : List RescaleData) (n : ℕ)
    → (segment_start rescales n ≤ n)
      × IsContinuous rescales (segment_start rescales n) n
      × IsMaximal rescales (segment_start rescales n)
unfolding segment_start
segment_start_lem rescales zero = (omega arith, λ j. inr (inl (omega arith)), tt)
segment_start_lem rescales (suc i) =
    if_rule
      (λ start. (start ≤ suc i) × IsContinuous rescales start (suc i) × IsMaximal rescales start)
      (is_long_gap rescales i) (λ p. (omega arith, λ j. outside j, p))
      (λ p.
        let (low, short, first) = segment_start_lem rescales i in
        (omega arith, λ j. inside p j (short j), first))
  where
    outside : (j : ℕ) → (j < suc i) ⊎ ((suc i ≤ j) ⊎ (is_long_gap rescales j ≡ false))
    outside j = elim (Bool-cases (ltb j (suc i))) [
      | inl q ↦ inl (ground arith)
      | inr q ↦ inr (inl (ground arith))
    ]

    inside :
        {start : ℕ}
        → is_long_gap rescales i ≡ false
        → (j : ℕ) → (j < start) ⊎ ((i ≤ j) ⊎ (is_long_gap rescales j ≡ false))
        → (j < start) ⊎ ((suc i ≤ j) ⊎ (is_long_gap rescales j ≡ false))
    inside p j (inl h) = inl h
    inside p j (inr (inr h)) = inr (inr h)
    inside p j (inr (inl h)) = elim (Bool-cases (i == j)) [
      | inl q ↦ inr (inr (subst (λ k. is_long_gap rescales k ≡ false) ((==_iff i j).0 q) p))
      | inr q ↦ inr (inl (ground arith))
    ]
