-- ===== src/Churn/Laws.antt =====
-- What the churn analysis reports (pkg/hpa/churn/churn.go).
use kubectl_hpa_status.Prelude.{
  ℕ, suc, ◌+◌, ◌≤◌, ◌<◌, List, [], ◌∷◌, ◌++◌, ℤ, pos, ◌-ℤ◌, ◌≤ℤ◌, eqb_ℤ, int32, Bool, false, ltb,
  ◌==◌, Option, none, some, length, All, if◌then◌else◌, ◌≡◌, ◌⊎◌, inl, inr, refl, arith, Bool-cases,
  if_rule,
}
use kubectl_hpa_status.Api.{Hpa}
use kubectl_hpa_status.Scaling.Policy.{Float64}
use kubectl_hpa_status.Events.Rescales.{RescaleData, normalize_rescales, rescale_sizes}
use kubectl_hpa_status.Events.Direction.{
  direction, is_flip, flip_loop, flip_points, count_direction_flips,
}
use kubectl_hpa_status.Churn.Segment.{latest_segment, last_time, time_at}
use kubectl_hpa_status.Churn.Analysis.{
  ChurnAnalysis, DeltaCounts, count_delta, count_loop, count_sizes, churn_score, analyze_segment,
  build_churn_analysis,
}
use kubectl_hpa_status.Churn.Caution.{
  down_rules, IsCautious, churn_recommendations-IsCautious, IsLevel, level_from_score-IsLevel,
  IsGraded, churn_recommendations-IsGraded,
}

-- The changes that are not zero.
abbrev moves : ℤ → List ℤ → ℕ
moves prev [] = 0
moves prev (size ∷ sizes) =
    (if eqb_ℤ (direction (int32 (size -ℤ prev))) (pos 0) then 0 else 1) + moves size sizes

-- A flip is a change that is not zero, and the first such change is no flip.
flip_loop-moves :
    (i : ℕ) (prev_direction prev : ℤ) (sizes : List ℤ)
    → (length (flip_loop i prev_direction prev sizes) ≤ moves prev sizes)
      × ((eqb_ℤ prev_direction (pos 0) ≡ false)
          ⊎ ((moves prev sizes ≡ 0)
              ⊎ (length (flip_loop i prev_direction prev sizes) < moves prev sizes)))
unfolding flip_loop is_flip
flip_loop-moves i d prev [] = (omega arith, inr (inl refl))
flip_loop-moves i d prev (size ∷ sizes) =
    let turn = direction (int32 (size -ℤ prev)) in
    elim (Bool-cases (eqb_ℤ turn (pos 0))) [
      | inl z ↦
          let (all, strict) = flip_loop-moves (suc i) d size sizes in
          rw z (
            omega arith,
            elim strict [
              | inl started ↦ inl started
              | inr (inl still) ↦ inr (inl (omega arith))
              | inr (inr fewer) ↦ inr (inr (omega arith))
            ],
          )
      | inr z ↦
          let rest = flip_loop (suc i) turn size sizes in
          let all = (flip_loop-moves (suc i) turn size sizes).0 in
          elim (Bool-cases (eqb_ℤ d (pos 0))) [
            | inr started ↦ rw z (
              if_rule (λ flips. length (flips ++ rest) ≤ 1 + moves size sizes) (is_flip d turn)
                  (λ a. omega arith) (λ a. omega arith),
              inl started,
            )
            | inl first ↦ rw (z, first) (omega arith, inr (inr (omega arith)))
          ]
    ]

count_delta-moves :
    (float : Float64) (delta : ℤ) (c : DeltaCounts (Float64.Carrier float))
    → (count_delta float delta c).ups + (count_delta float delta c).downs
      ≡ (if eqb_ℤ (direction delta) (pos 0) then 0 else 1) + (c.ups + c.downs)
unfolding count_delta direction
count_delta-moves float delta c = ground arith

count_loop-moves :
    (float : Float64) (prev : ℤ) (sizes : List ℤ) (c : DeltaCounts (Float64.Carrier float))
    → (count_loop float prev sizes c).ups + (count_loop float prev sizes c).downs
      ≡ moves prev sizes + (c.ups + c.downs)
unfolding count_loop
count_loop-moves float prev [] c = omega arith
count_loop-moves float prev (size ∷ sizes) c = omega (
  arith,
  count_loop-moves float size sizes (count_delta float (int32 (size -ℤ prev)) c),
  count_delta-moves float (int32 (size -ℤ prev)) c,
)

-- The flips are fewer than the changes of the replica count, where there are any.
count_sizes-flips :
    (float : Float64) (sizes : List ℤ)
    → ((count_sizes float sizes).ups + (count_sizes float sizes).downs ≡ 0)
      ⊎ (count_direction_flips sizes
          < (count_sizes float sizes).ups + (count_sizes float sizes).downs)
unfolding count_sizes count_direction_flips flip_points
count_sizes-flips float [] = inl (omega arith)
count_sizes-flips float (size ∷ sizes) =
    let c : DeltaCounts (Float64.Carrier float) = record {
      ups = 0;
      downs = 0;
      total_delta = Float64.of_int float (pos 0);
      max_delta = pos 0;
    } in
    let total = count_loop-moves float size sizes c in
    elim ((flip_loop-moves 1 (pos 0) size sizes).1) [
      | inl started ↦ cc
      | inr (inl still) ↦ inl (omega arith)
      | inr (inr fewer) ↦ inr (omega arith)
    ]

module _ (float : Float64) (at_least : Float64.Carrier float → Float64.Carrier float → Bool)
    (hours : ℤ → Float64.Carrier float) (half : Float64.Carrier float) where
  abbrev pub IsSound : Option Hpa → Option (ChurnAnalysis (Float64.Carrier float)) → Type 0
  IsSound hpa none = Unit
  IsSound hpa (some a) =
      (a.score ≤ℤ pos 100)
      × IsLevel a.level a.score
      × (a.direction_flips < a.scale_up_count + a.scale_down_count)
      × All (IsCautious (down_rules hpa)) a.recommendations
      × IsGraded a.level a.recommendations

  churn_score_bound :
      (flips transitions : ℕ) (window : ℤ)
      → churn_score float at_least hours half flips transitions window ≤ℤ pos 100
  unfolding churn_score
  churn_score_bound flips transitions window = ground arith

  analyze_segment-IsSound :
      (rescales : List RescaleData) (hpa : Option Hpa)
      → IsSound hpa (analyze_segment float at_least hours half rescales hpa)
  unfolding analyze_segment
  analyze_segment-IsSound rescales hpa =
      let c = count_sizes float (rescale_sizes rescales) in
      let flips = count_direction_flips (rescale_sizes rescales) in
      let window = last_time rescales -ℤ time_at rescales 0 in
      if_rule (IsSound hpa) (c.ups + c.downs == 0) (λ e. tt)
        (λ e. (
          churn_score_bound flips (c.ups + c.downs) window,
          level_from_score-IsLevel
              (churn_score float at_least hours half flips (c.ups + c.downs) window),
          elim (count_sizes-flips float (rescale_sizes rescales)) [
            | inl none_moved ↦ absurd (ground arith)
            | inr fewer ↦ fewer
          ],
          churn_recommendations-IsCautious _ hpa,
          churn_recommendations-IsGraded _ hpa,
        ))

  -- An analysis of churn has a score of at most 100 and a level that fits it: low up to 25, medium up
  -- to 50, high up to 75, and critical above. It counts fewer flips than changes. It recommends nothing
  -- at the low level, at most one thing at the medium one, and at least one thing above. A recommended
  -- window climbs from the one in use, to an hour at most; a disabled scale-down and explicit
  -- scale-down policies are kept; and a new policy is recommended only where there is none.
  pub build_churn_analysis-IsSound :
      (rescales : List RescaleData) (hpa : Option Hpa)
      → IsSound hpa (build_churn_analysis float at_least hours half rescales hpa)
  unfolding build_churn_analysis
  build_churn_analysis-IsSound rescales hpa =
      let ordered = normalize_rescales rescales in
      if_rule (IsSound hpa) (ltb (length ordered) 3) (λ a. tt)
        (λ a.
          if_rule (IsSound hpa) (ltb (length (latest_segment ordered)) 3) (λ b. tt)
            (λ b. analyze_segment-IsSound (latest_segment ordered) hpa))
