-- ===== src/Churn/Analysis.antt =====
-- The churn analysis (pkg/hpa/churn/churn.go). float64 is the interface of the scaling policies, with
-- the comparison `at_least`, time.Duration's Hours and the constant 0.5 as arguments. Patches and
-- texts are constructors with the values shown.
use kubectl_hpa_status.Prelude.{
  ℕ, suc, ◌+◌, List, [], ◌∷◌, ℤ, pos, negsuc, ◌-ℤ◌, ◌*ℤ◌, ltb_ℤ, leb_ℤ, eqb_ℤ, int32, Bool, true,
  false, ltb, ◌==◌, Option, none, some, ◌++◌, length, if◌then◌else◌,
}
use kubectl_hpa_status.Api.{
  Hpa, Behavior, ScalingRules, ScalingPolicy, PolicySelect, max_change, disabled,
}
use kubectl_hpa_status.Scaling.Policy.{Float64}
use kubectl_hpa_status.Events.Rescales.{RescaleData, normalize_rescales, rescale_sizes}
use kubectl_hpa_status.Events.Direction.{direction, count_direction_flips}
use kubectl_hpa_status.Conditions.{effective_scale_down_window, next_scale_down_window}
use kubectl_hpa_status.Health.Dynamic.{ChurnLevel, low, medium, high, critical}
use kubectl_hpa_status.Churn.Segment.{latest_segment, time_at, last_time}

-- ChurnRecommendation: what is recommended, and whether a patch comes with it.
pub data ChurnRecommendation : Type 0 where
  -- The window in use and the one to patch.
  raise_window : ℤ → ℤ → ChurnRecommendation
  keep_disabled : ChurnRecommendation
  keep_policies : PolicySelect → List ScalingPolicy → ChurnRecommendation
  limit_scale_down : ChurnRecommendation

pub record ChurnAnalysis (F : Type 0) : Type 0 where
  pub score : ℤ
  pub level : ChurnLevel
  pub scale_up_count : ℕ
  pub scale_down_count : ℕ
  pub direction_flips : ℕ
  pub avg_replica_delta : F
  pub max_replica_delta : ℤ
  pub time_window : ℤ
  pub recommendations : List ChurnRecommendation

-- churnLevelFromScore.
unfoldable pub level_from_score : ℤ → ChurnLevel
level_from_score score =
    if leb_ℤ score (pos 25)
    then low
    else if leb_ℤ score (pos 50)
    then medium
    else if leb_ℤ score (pos 75)
    then high
    else critical

-- stabilizationWindowRecommendation.
unfoldable pub window_advice : ℤ → Option ℤ → List ChurnRecommendation
window_advice current none = []
window_advice current (some recommended) = raise_window current recommended ∷ []

unfoldable pub window_recommendation : Option Hpa → List ChurnRecommendation
unfolding window_advice
window_recommendation hpa =
    let current = effective_scale_down_window hpa in
    window_advice current (next_scale_down_window current)

-- scaleDownRules.
unfoldable pub rules_of_behavior : Option Behavior → Option ScalingRules
rules_of_behavior none = none
rules_of_behavior (some behavior) = behavior.scale_down

unfoldable pub scale_down_rules : Option Hpa → Option ScalingRules
unfolding rules_of_behavior
scale_down_rules none = none
scale_down_rules (some hpa) = rules_of_behavior hpa.behavior

abbrev pub is_disabled : Option PolicySelect → Bool
is_disabled (some disabled) = true
is_disabled select = false

abbrev pub select_of : Option PolicySelect → PolicySelect
select_of none = max_change
select_of (some select) = select

abbrev pub policies_of : Option (List ScalingPolicy) → List ScalingPolicy
policies_of none = []
policies_of (some policies) = policies

-- behaviorPolicyRecommendation.
unfoldable pub policies_advice : Option PolicySelect → List ScalingPolicy → ChurnRecommendation
policies_advice select [] = limit_scale_down
policies_advice select (p ∷ policies) = keep_policies (select_of select) (p ∷ policies)

unfoldable pub rules_recommendation : Option ScalingRules → ChurnRecommendation
unfolding policies_advice
rules_recommendation none = limit_scale_down
rules_recommendation (some rules) =
    if is_disabled rules.select_policy
    then keep_disabled
    else policies_advice rules.select_policy (policies_of rules.policies)

unfoldable pub policy_recommendation : Option Hpa → ChurnRecommendation
unfolding scale_down_rules rules_recommendation
policy_recommendation hpa = rules_recommendation (scale_down_rules hpa)

-- generateChurnRecommendations.
unfoldable pub churn_recommendations : ChurnLevel → Option Hpa → List ChurnRecommendation
unfolding window_recommendation policy_recommendation
churn_recommendations low hpa = []
churn_recommendations medium hpa = window_recommendation hpa
churn_recommendations high hpa = window_recommendation hpa ++ (policy_recommendation hpa ∷ [])
churn_recommendations critical hpa = window_recommendation hpa ++ (policy_recommendation hpa ∷ [])

-- The counts of the loop over the rescales.
pub record DeltaCounts (F : Type 0) : Type 0 where
  pub ups : ℕ
  pub downs : ℕ
  pub total_delta : F
  pub max_delta : ℤ

module _ (float : Float64) where
  abbrev F : Type 0
  F = Float64.Carrier float

  -- The loop's body for a change of the replica count, an int32.
  unfoldable pub count_delta : ℤ → DeltaCounts F → DeltaCounts F
  unfolding direction
  count_delta delta c =
      let size = if ltb_ℤ delta (pos 0) then int32 (pos 0 -ℤ delta) else delta in
      record {
        ups = if eqb_ℤ (direction delta) (pos 1) then suc c.ups else c.ups;
        downs = if eqb_ℤ (direction delta) (negsuc 0) then suc c.downs else c.downs;
        total_delta = Float64.add float c.total_delta (Float64.of_int float size);
        max_delta = if ltb_ℤ c.max_delta size then size else c.max_delta;
      }

  unfoldable pub count_loop : ℤ → List ℤ → DeltaCounts F → DeltaCounts F
  unfolding count_delta
  count_loop prev [] c = c
  count_loop prev (size ∷ sizes) c = count_loop size sizes (count_delta (int32 (size -ℤ prev)) c)

  unfoldable pub count_sizes : List ℤ → DeltaCounts F
  unfolding count_loop
  count_sizes [] = record {
    ups = 0;
    downs = 0;
    total_delta = Float64.of_int float (pos 0);
    max_delta = pos 0;
  }
  count_sizes (size ∷ sizes) =
      count_loop size sizes (record {
        ups = 0;
        downs = 0;
        total_delta = Float64.of_int float (pos 0);
        max_delta = pos 0;
      })

  module _ (at_least : F → F → Bool) (hours : ℤ → F) (half : F) where
    -- churnActivityFactor.
    unfoldable pub activity_factor : ℕ → ℤ → F
    activity_factor transitions window =
        if transitions == 0
        then Float64.of_int float (pos 0)
        else if leb_ℤ window (pos 0)
        then Float64.of_int float (pos 1)
        else let rate = Float64.div float (Float64.of_int float (pos transitions)) (hours window) in
          let full = Float64.of_int float (pos 4) in
          if at_least rate full then Float64.of_int float (pos 1) else Float64.div float rate full

    unfoldable pub churn_score : ℕ → ℕ → ℤ → ℤ
    unfolding activity_factor
    churn_score flips transitions window =
        let of_ℕ : ℕ → F = λ n. Float64.of_int float (pos n) in
        let rate = Float64.div float (of_ℕ flips) (of_ℕ transitions) in
        let base =
          Float64.add float (Float64.of_int float (pos flips *ℤ pos 15))
            (Float64.mul float rate (of_ℕ 40)) in
        let scaled = Float64.mul float base (activity_factor transitions window) in
        let score = Float64.to_int64 float (Float64.add float scaled half) in
        if ltb_ℤ (pos 100) score then pos 100 else score

    unfoldable pub analyze_segment : List RescaleData → Option Hpa → Option (ChurnAnalysis F)
    unfolding count_sizes churn_score level_from_score churn_recommendations
    analyze_segment rescales hpa =
        let c = count_sizes (rescale_sizes rescales) in
        let flips = count_direction_flips (rescale_sizes rescales) in
        let total = c.ups + c.downs in
        let window = last_time rescales -ℤ time_at rescales 0 in
        let score = churn_score flips total window in
        if total == 0
        then none
        else some (record {
          score = score;
          level = level_from_score score;
          scale_up_count = c.ups;
          scale_down_count = c.downs;
          direction_flips = flips;
          avg_replica_delta = Float64.div float c.total_delta (Float64.of_int float (pos total));
          max_replica_delta = c.max_delta;
          time_window = window;
          recommendations = churn_recommendations (level_from_score score) hpa;
        })

    -- buildChurnAnalysis.
    unfoldable pub build_churn_analysis : List RescaleData → Option Hpa → Option (ChurnAnalysis F)
    unfolding analyze_segment latest_segment
    build_churn_analysis rescales hpa =
        let ordered = normalize_rescales rescales in
        let segment = latest_segment ordered in
        if ltb (length ordered) 3
        then none
        else if ltb (length segment) 3
        then none
        else analyze_segment segment hpa
