-- ===== src/Health/Score.antt =====
-- pkg/hpa/health.go and pkg/hpa/health_state.go: the accumulator and HealthWithWeights. The test
-- whether a current metric lies above its target needs the metric values; it is the argument
-- `above_target`.
use kubectl_hpa_status.Prelude.{
  List, [], ◌∷◌, ◌++◌, ℤ, pos, Bool, true, false, not, ◌&&◌, ◌||◌, eqb_ℤ, ltb_ℤ, ◌-ℤ◌, int64,
  String, str_eq, Option, none, some, if◌then◌else◌,
}
use kubectl_hpa_status.Api.{Condition, Hpa}
use kubectl_hpa_status.Health.Weights.{
  HealthWeights, ResolvedWeights, resolve_weights, health_score_max,
}

-- HealthState is a string; `unrecognised` is any value but the five constants.
pub data HealthState : Type 0 where
  ok warning error limited stabilized : HealthState
  unrecognised : String → HealthState

unfoldable pub is_ok : HealthState → Bool
is_ok ok = true
is_ok _ = false

unfoldable pub is_error : HealthState → Bool
is_error error = true
is_error _ = false

pub record HealthSignal : Type 0 where
  pub reason : String
  pub penalty : ℤ
  pub severity : HealthState

pub record HealthResult : Type 0 where
  pub state : HealthState
  pub score : ℤ
  pub signals : List HealthSignal

-- The accumulator's result before SetState: the state is the zero value, the empty string.
unfoldable pub new_accumulator : ℤ → HealthResult
new_accumulator base_score = record { state = unrecognised ""; score = base_score; signals = [] }

unfoldable pub add_penalty : HealthResult → String → ℤ → HealthState → HealthResult
add_penalty acc reason penalty severity = record {
  state = acc.state;
  score = int64 (acc.score -ℤ penalty);
  signals = acc.signals ++ record { reason = reason; penalty = penalty; severity = severity } ∷ [];
}

unfoldable pub set_state : HealthResult → HealthState → HealthResult
set_state acc state = record acc { state = state }

unfoldable pub has_condition : List Condition → String → String → Bool
has_condition [] kind status = false
has_condition (c ∷ cs) kind status =
    (str_eq c.kind kind && str_eq c.status status) || has_condition cs kind status

-- Which case of the `switch` a condition falls in.
pub data ConditionCase : Type 0 where
  scaling_inactive unable_to_scale scaling_limited scale_down_stabilized harmless : ConditionCase

unfoldable pub condition_case : Condition → ConditionCase
condition_case c =
    if str_eq c.kind "ScalingActive" && not (str_eq c.status "True")
    then scaling_inactive
    else if str_eq c.kind "AbleToScale" && not (str_eq c.status "True")
    then unable_to_scale
    else if str_eq c.kind "ScalingLimited" && str_eq c.status "True"
    then scaling_limited
    else if str_eq c.kind "AbleToScale" && str_eq c.reason "ScaleDownStabilized"
    then scale_down_stabilized
    else harmless

-- The `switch` of healthStateFromSignals: an ERROR signal ends the loop, and `continue` is the rest
-- of it.
abbrev pub by_severity : HealthState → HealthState → (HealthState → HealthState) → HealthState
by_severity error state continue = error
by_severity limited state continue = continue (if is_error state then state else limited)
by_severity stabilized state continue = continue (if is_ok state then stabilized else state)
by_severity _ state continue = continue state

unfoldable pub signals_state : HealthState → List HealthSignal → HealthState
signals_state state [] = state
signals_state state (signal ∷ rest) =
    by_severity signal.severity state (λ next. signals_state next rest)

unfoldable pub health_state_from_signals : List HealthSignal → HealthState
health_state_from_signals signals = signals_state ok signals

-- The body of that case: the penalty, and the new worst state.
unfoldable pub apply_case :
    ResolvedWeights → ConditionCase → HealthResult × HealthState → HealthResult × HealthState
apply_case w scaling_inactive (acc, health) =
    (add_penalty acc "ScalingActive is not True" w.scaling_inactive error, error)
apply_case w unable_to_scale (acc, health) =
    (add_penalty acc "AbleToScale is not True" w.unable_to_scale error, error)
apply_case w scaling_limited (acc, health) = (
  add_penalty acc "ScalingLimited is True" w.scaling_limited limited,
  if is_error health then health else limited,
)
apply_case w scale_down_stabilized (acc, health) = (
  add_penalty acc "ScaleDownStabilized" w.scale_down_stabilized stabilized,
  if is_ok health then stabilized else health,
)
apply_case w harmless s = s

unfoldable pub apply_condition_penalties :
    ResolvedWeights → List Condition → HealthResult × HealthState → HealthResult × HealthState
apply_condition_penalties w [] s = s
apply_condition_penalties w (c ∷ cs) s =
    apply_condition_penalties w cs (apply_case w (condition_case c) s)

unfoldable pub clamp_score : HealthResult → HealthResult
clamp_score result = record result {
  score = if ltb_ℤ result.score (pos 0) then pos 0 else result.score;
}

-- The penalty at the lower bound has the state reached so far as its severity.
unfoldable pub apply_minimum_penalty :
    ResolvedWeights → Hpa → ℤ → HealthResult × HealthState → HealthResult × HealthState
apply_minimum_penalty w hpa min_replicas (acc, health) =
    if eqb_ℤ hpa.desired_replicas min_replicas
      && has_condition hpa.conditions "ScalingLimited" "True"
    then (
      add_penalty acc "At minimum replicas with ScalingLimited" w.at_minimum_replicas health,
      health,
    )
    else (acc, health)

module _ (above_target : Hpa → Bool) where
  unfoldable pub apply_max_replicas_ceiling_penalty :
      ResolvedWeights → Hpa → HealthResult × HealthState → HealthResult × HealthState
  apply_max_replicas_ceiling_penalty w hpa (acc, health) =
      if not (eqb_ℤ hpa.desired_replicas hpa.max_replicas)
      then (acc, health)
      else if has_condition hpa.conditions "ScalingLimited" "True" || not (above_target hpa)
      then (acc, health)
      else (
        add_penalty acc "Implicit maxReplicas ceiling (desired==max with pressure)"
            w.implicit_max_replicas limited,
        if is_ok health then limited else health,
      )

  -- The accumulator and the state before the score is clamped.
  unfoldable pub accumulate : ResolvedWeights → Hpa → ℤ → HealthResult × HealthState
  accumulate w hpa min_replicas = apply_minimum_penalty w hpa min_replicas (
      apply_max_replicas_ceiling_penalty w hpa
        (apply_condition_penalties w hpa.conditions (new_accumulator health_score_max, ok)))

  -- A nil HPA is `none`.
  unfoldable pub health_with_weights : Option Hpa → ℤ → HealthWeights → HealthResult
  health_with_weights none min_replicas weights = record {
    state = error;
    score = pos 0;
    signals = [];
  }
  health_with_weights (some hpa) min_replicas weights =
      let (acc, health) = accumulate (resolve_weights weights) hpa min_replicas in
      clamp_score (set_state acc health)
