-- ===== src/Simulate/Projected.antt =====
-- The trajectory of a simulation as a whole (pkg/hpa/simulate/simulate_projection.go).
use kubectl_hpa_status.Prelude.{
  ℕ, zero, suc, leb, negsuc, length, ◌∙◌, eqb_iff, Bool-cases, ◌<ℤ◌, ◌≤ℤ◌, if◌then◌else◌, ◌≤◌, ◌<◌,
  List, [], ◌∷◌, ltb, ltb→lt, map, All, Option, none, some, sym, subst, ap, eqb_ℤ, ltb_ℤ, ℤ, pos,
  ◌≡◌, ◌⊎◌, inl, inr, refl, arith, if_rule,
}
use kubectl_hpa_status.Simulate.Trajectory.{
  effective_duration, effective_step, point_count, trajectory_offsets, stabilization_delay,
  interpolate_replicas, rules_window, ProjectedState, Projection, nil_hpa, analysis_failed,
  too_many_points, projected, state_at, project_to, project_trajectory, max_projection_points,
}
use kubectl_hpa_status.Api.{Hpa, Behavior, ScalingRules}
use kubectl_hpa_status.Scaling.Policy.{Float64}
use kubectl_hpa_status.Simulate.Offsets.{
  Spans, trajectory_offsets-Spans, effective_step_bounds, IsPoints, IsPoints-unique,
  point_count-IsPoints, trajectory_offsets-IsPoints,
}

-- The seconds that are asked for, where that is a positive number, or else a default.
abbrev pub seconds_or : ℕ → ℤ → ℕ
seconds_or default (pos zero) = default
seconds_or default (pos (suc n)) = suc n
seconds_or default (negsuc n) = default

abbrev pub smaller : ℕ → ℕ → ℕ
smaller a b = if leb a b then a else b

effective_duration-seconds_or : (n : ℤ) → effective_duration n ≡ seconds_or 300 n
unfolding effective_duration
effective_duration-seconds_or (pos zero) = refl
effective_duration-seconds_or (pos (suc n)) = ground arith
effective_duration-seconds_or (negsuc n) = refl

effective_step-smaller :
    (n : ℤ) (duration : ℕ) → effective_step n duration ≡ smaller (seconds_or 30 n) duration
unfolding effective_step
effective_step-smaller (pos zero) duration = ground arith
effective_step-smaller (pos (suc n)) duration = ground arith
effective_step-smaller (negsuc n) duration = ground arith

-- The stabilization window of a direction's rules, and 0 where none is written.
abbrev pub IsWindow : Option ScalingRules → ℤ → Type 0
IsWindow none delay = delay ≡ pos 0
IsWindow (some rules) delay = elim rules.stabilization_window [
  | none ↦ delay ≡ pos 0
  | some window ↦ delay ≡ window
]

-- The delay of a change of the count: the window of scaleUp for a rise, and that of scaleDown else.
abbrev pub IsDelay : Option Behavior → ℤ → ℤ → ℤ → Type 0
IsDelay none first final delay = delay ≡ pos 0
IsDelay (some behavior) first final delay =
    ((first <ℤ final) × IsWindow behavior.scale_up delay)
    ⊎ ((final ≤ℤ first) × IsWindow behavior.scale_down delay)

rules_window-IsWindow : (o : Option ScalingRules) → IsWindow o (rules_window o)
unfolding rules_window
rules_window-IsWindow none = refl
rules_window-IsWindow (some rules) = of_window rules.stabilization_window
  where
    of_window : (w : Option ℤ) → elim w as (λ x. Type 0) [
      | none ↦ (elim w [ none ↦ pos 0 | some v ↦ v ]) ≡ pos 0
      | some window ↦ (elim w [ none ↦ pos 0 | some v ↦ v ]) ≡ window
    ]
    of_window none = refl
    of_window (some window) = refl

stabilization_delay-IsDelay :
    (o : Option Behavior) (first final : ℤ)
    → IsDelay o first final (stabilization_delay o first final)
unfolding stabilization_delay
stabilization_delay-IsDelay none first final = refl
stabilization_delay-IsDelay (some behavior) first final = elim (Bool-cases (ltb_ℤ first final)) [
  | inl e ↦ rw e (inl (ground arith, rules_window-IsWindow behavior.scale_up))
  | inr e ↦ rw e (inr (ground arith, rules_window-IsWindow behavior.scale_down))
]

module _ (float : Float64) (round : Float64.Carrier float → Float64.Carrier float) where
  -- A state before the delay has the first count, and a later one has the final count.
  abbrev pub Follows : ℤ → ℤ → ℤ → List (ProjectedState (Float64.Carrier float)) → Type 0
  Follows first final delay = All (λ s.
      ((pos s.time_offset <ℤ delay) × (s.projected_replicas ≡ first))
      ⊎ ((delay ≤ℤ pos s.time_offset) × (s.projected_replicas ≡ final)))

  -- What a projection promises for a duration and a step, from the original to the analysed count.
  abbrev pub IsTrajectory :
      Hpa → Hpa → Option ℤ → ℕ → ℕ → Projection (Float64.Carrier float) → Type 0
  IsTrajectory original modified analysed duration step nil_hpa = ⊥
  IsTrajectory original modified analysed duration step (too_many_points n) =
      IsPoints duration step n × (10000 < n)
  IsTrajectory original modified none duration step analysis_failed =
      (n : ℕ) × IsPoints duration step n × (n ≤ 10000)
  IsTrajectory original modified (some final) duration step analysis_failed = ⊥
  IsTrajectory original modified none duration step (projected states) = ⊥
  IsTrajectory original modified (some final) duration step (projected states) =
      IsPoints duration step (length states)
      × (length states ≤ 10000)
      × Spans duration (map (λ s. s.time_offset) states)
      × ((delay : ℤ) × IsDelay modified.behavior original.desired_replicas final delay
          × Follows original.desired_replicas final delay states)

  map-state_at :
      (first final delay : ℤ) (xs : List ℕ)
      → map (λ s. s.time_offset) (map (state_at float round first final delay) xs) ≡ xs
  unfolding state_at
  map-state_at first final delay [] = refl
  map-state_at first final delay (x ∷ xs) =
      ap (λ rest. x ∷ rest) (map-state_at first final delay xs)

  length-state_at :
      (first final delay : ℤ) (xs : List ℕ)
      → length (map (state_at float round first final delay) xs) ≡ length xs
  length-state_at first final delay [] = refl
  length-state_at first final delay (x ∷ xs) =
      ap (λ n. suc n) (length-state_at first final delay xs)

  interpolate_follows :
      (first final : ℤ) (offset : ℕ) (delay : ℤ)
      → ((pos offset <ℤ delay) × (interpolate_replicas first final offset delay ≡ first))
        ⊎ ((delay ≤ℤ pos offset) × (interpolate_replicas first final offset delay ≡ final))
  unfolding interpolate_replicas
  interpolate_follows first final offset delay = elim (Bool-cases (ltb_ℤ (pos offset) delay)) [
    | inl e ↦
        inl
          (ground arith, if_rule (λ r. r ≡ first) (eqb_ℤ first final) (λ a. refl) (λ a. rw e refl))
    | inr e ↦ inr (
      ground arith,
      if_rule (λ r. r ≡ final) (eqb_ℤ first final) (λ a. (eqb_iff first final).0 a)
          (λ a. rw e refl),
    )
  ]

  map-Follows :
      (first final delay : ℤ) (xs : List ℕ)
      → Follows first final delay (map (state_at float round first final delay) xs)
  unfolding state_at
  map-Follows first final delay [] = tt
  map-Follows first final delay (x ∷ xs) =
      (interpolate_follows first final x delay, map-Follows first final delay xs)

  project_to-IsTrajectory :
      (original modified : Hpa) (duration step : ℕ) (analysed : Option ℤ)
      → 1 ≤ step
      → point_count duration step ≤ 10000
      → IsTrajectory original modified analysed duration step
          (project_to float round original modified duration step analysed)
  unfolding project_to
  project_to-IsTrajectory original modified duration step none h k =
      (point_count duration step, point_count-IsPoints duration step h, k)
  project_to-IsTrajectory original modified duration step (some final) h k =
      let first = original.desired_replicas in
      let delay = stabilization_delay modified.behavior first final in
      let offsets = trajectory_offsets duration step in
      let points = trajectory_offsets-IsPoints duration step h in
      let counted =
        IsPoints-unique duration step (length offsets) (point_count duration step) points
          (point_count-IsPoints duration step h) in
      let many = length-state_at first final delay offsets in
      (
        subst (IsPoints duration step) (sym many) points,
        subst (λ n. n ≤ 10000) (sym (many ∙ counted)) k,
        subst (Spans duration) (sym (map-state_at first final delay offsets))
            (trajectory_offsets-Spans duration step h),
        (
          delay,
          stabilization_delay-IsDelay modified.behavior first final,
          map-Follows first final delay offsets,
        ),
      )

  project_trajectory_lem :
      (analyze : Hpa → Option ℤ) (original modified : Hpa) (duration_seconds step_seconds : ℤ)
      → let duration = effective_duration duration_seconds in
        IsTrajectory original modified
          (analyze modified)
          duration
          (effective_step step_seconds duration)
          (project_trajectory float round analyze
            (some original)
            (some modified)
            duration_seconds
            step_seconds)
  unfolding project_trajectory
  project_trajectory_lem analyze original modified duration_seconds step_seconds =
      let duration = effective_duration duration_seconds in
      let step = effective_step step_seconds duration in
      let positive = (effective_step_bounds step_seconds duration_seconds).0 in
      if_rule (IsTrajectory original modified (analyze modified) duration step)
        (ltb max_projection_points (point_count duration step))
        (λ a. (
          point_count-IsPoints duration step positive,
          ltb→lt max_projection_points (point_count duration step) a,
        ))
        (λ a.
          project_to-IsTrajectory original modified duration step (analyze modified) positive
            (ground arith))

  -- For two objects, with 300 and 30 seconds for a duration and a step that are not positive and the
  -- step cut to the duration: the states are one for the start and one for each step of the duration,
  -- the last step perhaps cut short. A projection is refused exactly if these are more than 10000, and
  -- otherwise fails exactly with the analysis. Its states climb from 0 seconds to the duration; before
  -- the stabilization window of the change's direction they have the original's count, and from there
  -- on the analysed one.
  pub project_trajectory-IsTrajectory :
      (analyze : Hpa → Option ℤ) (original modified : Hpa) (duration_seconds step_seconds : ℤ)
      → let duration = seconds_or 300 duration_seconds in
        IsTrajectory original modified
          (analyze modified)
          duration
          (smaller (seconds_or 30 step_seconds) duration)
          (project_trajectory float round analyze
            (some original)
            (some modified)
            duration_seconds
            step_seconds)
  project_trajectory-IsTrajectory analyze original modified duration_seconds step_seconds =
      let result =
        project_trajectory float round analyze (some original) (some modified) duration_seconds
          step_seconds in
      subst
        (λ d.
          IsTrajectory original modified (analyze modified) d
            (smaller (seconds_or 30 step_seconds) d) result)
        (effective_duration-seconds_or duration_seconds)
        (subst
          (λ step.
            IsTrajectory original modified (analyze modified) (effective_duration duration_seconds)
              step result)
          (effective_step-smaller step_seconds (effective_duration duration_seconds))
          (project_trajectory_lem analyze original modified duration_seconds step_seconds))
