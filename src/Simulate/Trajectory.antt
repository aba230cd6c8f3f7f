-- ===== src/Simulate/Trajectory.antt =====
-- pkg/hpa/simulate/simulate_projection.go: the replica trajectory of a simulation. The analysis of the
-- modified object (AnalysisFuncInvoker), float64 and math.Round are arguments. Durations and offsets
-- are seconds.
use kubectl_hpa_status.Prelude.{
  ℕ, zero, suc, ◌+◌, ◌-◌, ◌/◌, List, [], ◌∷◌, ◌++◌, map, ℤ, pos, negsuc, ltb_ℤ, leb_ℤ, eqb_ℤ, Bool,
  ltb, leb, ◌==◌, Option, none, some, if◌then◌else◌, ◌||◌,
}
use kubectl_hpa_status.Api.{Hpa, Behavior, ScalingRules}
use kubectl_hpa_status.Scaling.Policy.{Float64}

abbrev pub max_projection_points : ℕ
max_projection_points = 10000

-- The defaults for a duration or a step that is not positive.
unfoldable pub effective_duration : ℤ → ℕ
effective_duration (pos n) = if n == 0 then 300 else n
effective_duration (negsuc n) = 300

unfoldable pub effective_step : ℤ → ℕ → ℕ
effective_step (pos n) duration =
    let step = if n == 0 then 30 else n in if ltb duration step then duration else step
effective_step (negsuc n) duration = if ltb duration 30 then duration else 30

unfoldable pub point_count : ℕ → ℕ → ℕ
point_count duration step = (duration + step - 1) / step + 1

-- The offsets of the loop, on fuel.
unfoldable pub offsets_from : ℕ → ℕ → ℕ → ℕ → List ℕ
offsets_from duration step zero elapsed = []
offsets_from duration step (suc fuel) elapsed =
    let rest = offsets_from duration step fuel (elapsed + step) in
    if ltb duration elapsed then [] else elapsed ∷ rest

abbrev pub last_offset : List ℕ → ℕ
last_offset [] = 0
last_offset (x ∷ []) = x
last_offset (x ∷ y ∷ xs) = last_offset (y ∷ xs)

abbrev pub no_offsets : List ℕ → Bool
no_offsets [] = Bool.true
no_offsets (x ∷ xs) = Bool.false

-- The offsets of all states: the loop's, and the final one.
unfoldable pub trajectory_offsets : ℕ → ℕ → List ℕ
unfolding offsets_from point_count
trajectory_offsets duration step =
    let offsets = offsets_from duration step (point_count duration step) 0 in
    if no_offsets offsets || leb duration (last_offset offsets)
    then offsets
    else offsets ++ (duration ∷ [])

-- computeStabilizationDelay.
unfoldable pub rules_window : Option ScalingRules → ℤ
rules_window none = pos 0
rules_window (some rules) = elim rules.stabilization_window [ none ↦ pos 0 | some window ↦ window ]

unfoldable pub stabilization_delay : Option Behavior → ℤ → ℤ → ℤ
unfolding rules_window
stabilization_delay none start_replicas end_replicas = pos 0
stabilization_delay (some behavior) start_replicas end_replicas =
    rules_window
      (if ltb_ℤ start_replicas end_replicas then behavior.scale_up else behavior.scale_down)

-- interpolateReplicas: the last two branches both return the final count.
unfoldable pub interpolate_replicas : ℤ → ℤ → ℕ → ℤ → ℤ
interpolate_replicas start_replicas end_replicas offset delay =
    if eqb_ℤ start_replicas end_replicas
    then start_replicas
    else if ltb_ℤ (pos offset) delay
    then start_replicas
    else end_replicas

pub record ProjectedState (F : Type 0) : Type 0 where
  pub time_offset : ℕ
  pub projected_replicas : ℤ
  pub projected_metric_ratio : F

pub data Projection (F : Type 0) : Type 0 where
  nil_hpa analysis_failed : Projection F
  too_many_points : ℕ → Projection F
  projected : List (ProjectedState F) → Projection F

module _ (float : Float64) (round : Float64.Carrier float → Float64.Carrier float) where
  abbrev F : Type 0
  F = Float64.Carrier float

  -- computeMetricRatio.
  unfoldable pub metric_ratio : ℤ → ℤ → F
  metric_ratio start_replicas current_replicas =
      if leb_ℤ start_replicas (pos 0) || leb_ℤ current_replicas (pos 0)
      then Float64.of_int float (pos 0)
      else let ratio =
          Float64.div float (Float64.of_int float start_replicas)
            (Float64.of_int float current_replicas) in
        let hundred = Float64.of_int float (pos 100) in
        Float64.div float (round (Float64.mul float ratio hundred)) hundred

  unfoldable pub state_at : ℤ → ℤ → ℤ → ℕ → ProjectedState F
  unfolding interpolate_replicas metric_ratio
  state_at start_replicas end_replicas delay offset =
      let replicas = interpolate_replicas start_replicas end_replicas offset delay in
      record {
        time_offset = offset;
        projected_replicas = replicas;
        projected_metric_ratio = metric_ratio start_replicas replicas;
      }

  unfoldable pub project_to : Hpa → Hpa → ℕ → ℕ → Option ℤ → Projection F
  unfolding stabilization_delay trajectory_offsets state_at
  project_to original modified duration step none = analysis_failed
  project_to original modified duration step (some end_replicas) =
      let start_replicas = original.desired_replicas in
      let delay = stabilization_delay modified.behavior start_replicas end_replicas in
      projected
        (map (state_at start_replicas end_replicas delay) (trajectory_offsets duration step))

  -- ProjectReplicaTrajectory.
  unfoldable pub project_trajectory :
      (Hpa → Option ℤ) → Option Hpa → Option Hpa → ℤ → ℤ → Projection F
  unfolding effective_duration effective_step point_count project_to
  project_trajectory analyze none modified duration_seconds step_seconds = nil_hpa
  project_trajectory analyze (some original) none duration_seconds step_seconds = nil_hpa
  project_trajectory analyze (some original) (some modified) duration_seconds step_seconds =
      let duration = effective_duration duration_seconds in
      let step = effective_step step_seconds duration in
      if ltb max_projection_points (point_count duration step)
      then too_many_points (point_count duration step)
      else project_to original modified duration step (analyze modified)
