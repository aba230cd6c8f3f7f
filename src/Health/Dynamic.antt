-- ===== src/Health/Dynamic.antt =====
-- pkg/hpa/health.go: the penalties that depend on enrichment data, over a retained baseline.
use kubectl_hpa_status.Prelude.{
  List, [], ◌∷◌, ◌++◌, ℤ, Bool, true, false, not, ◌&&◌, ◌||◌, ltb_ℤ, ◌+ℤ◌, int64, String, str_eq,
  any, equal_fold, Option, none, some, if◌then◌else◌,
}
use kubectl_hpa_status.Health.Weights.{
  HealthWeights, ResolvedWeights, resolve_weights, health_score_max,
}
use kubectl_hpa_status.Health.Score.{
  HealthState, limited, is_error, HealthSignal, HealthResult, new_accumulator, add_penalty,
  set_state, clamp_score, health_state_from_signals,
}

pub record Baseline : Type 0 where
  pub score : ℤ
  pub state : HealthState
  pub signals : List HealthSignal

-- pkg/hpa/churn's ChurnLevel
pub data ChurnLevel : Type 0 where
  low medium high critical : ChurnLevel

-- The KEDA statuses of the metrics and of the triggers.
pub record KedaInfo : Type 0 where
  pub health_statuses : List String
  pub trigger_statuses : List String

-- The fields of Analysis that the reconciliation reads and writes.
pub record Analysis : Type 0 where
  pub health_score : ℤ
  pub health : HealthState
  pub health_result : Option HealthResult
  pub baseline : Option Baseline
  pub keda_info : Option KedaInfo
  pub vpa_conflict : Bool
  pub churn_level : Option ChurnLevel

unfoldable pub is_dynamic_health_signal : String → Bool
is_dynamic_health_signal reason =
    str_eq reason "KEDA metric health failing"
    || (str_eq reason "VPA conflict detected"
        || str_eq reason "High replica churn (thrashing) detected")

-- The loop over the recorded signals: the score, whether a signal was removed, and the signals kept.
pub record Recovered : Type 0 where
  pub score : ℤ
  pub removed : Bool
  pub signals : List HealthSignal

unfoldable pub recover_baseline : Recovered → List HealthSignal → Recovered
recover_baseline r [] = r
recover_baseline r (signal ∷ rest) =
    recover_baseline
      (if is_dynamic_health_signal signal.reason
        then record {
          score = int64 (r.score +ℤ signal.penalty);
          removed = true;
          signals = r.signals;
        }
        else record { score = r.score; removed = r.removed; signals = r.signals ++ signal ∷ [] })
      rest

abbrev pub recorded_signals : Option HealthResult → List HealthSignal
recorded_signals none = []
recorded_signals (some result) = result.signals

-- The baseline that is computed when none is retained.
unfoldable pub fresh_baseline : Analysis → Baseline
fresh_baseline a =
    let r =
      recover_baseline (record { score = a.health_score; removed = false; signals = [] })
        (recorded_signals a.health_result) in
    record {
      score = if ltb_ℤ health_score_max r.score then health_score_max else r.score;
      state = if r.removed then health_state_from_signals r.signals else a.health;
      signals = r.signals;
    }

abbrev pub or_fresh : Option Baseline → Baseline → Baseline
or_fresh none fresh = fresh
or_fresh (some baseline) fresh = baseline

-- The baseline; the caller stores it in the analysis.
unfoldable pub ensure_dynamic_health_baseline : Analysis → Baseline
ensure_dynamic_health_baseline a = or_fresh a.baseline (fresh_baseline a)

abbrev failing : String → Bool
failing status = equal_fold status "Failing"

abbrev keda_failing : Option KedaInfo → Bool
keda_failing none = false
keda_failing (some info) = any failing info.health_statuses || any failing info.trigger_statuses

unfoldable pub has_failing_keda_metric : Analysis → Bool
has_failing_keda_metric a = keda_failing a.keda_info

abbrev is_high_churn : Option ChurnLevel → Bool
is_high_churn (some high) = true
is_high_churn (some critical) = true
is_high_churn _ = false

unfoldable pub has_high_churn : Analysis → Bool
has_high_churn a = is_high_churn a.churn_level

unfoldable pub add_if : Bool → HealthResult → String → ℤ → HealthResult
add_if active acc reason penalty = if active then add_penalty acc reason penalty limited else acc

-- The result for a baseline and the three dynamic signals.
unfoldable pub dynamic_result : ResolvedWeights → Baseline → Bool → Bool → Bool → HealthResult
dynamic_result w baseline keda vpa churn =
    let acc = record (new_accumulator baseline.score) { signals = baseline.signals } in
    let acc1 = add_if keda acc "KEDA metric health failing" w.keda_inactive_trigger in
    let acc2 = add_if vpa acc1 "VPA conflict detected" w.vpa_conflict in
    let acc3 = add_if churn acc2 "High replica churn (thrashing) detected" w.churn in
    clamp_score (
      set_state acc3 (
        if (keda || (vpa || churn)) && not (is_error baseline.state)
        then limited
        else baseline.state))

unfoldable pub reconcile_dynamic_health_penalties : Analysis → HealthWeights → Analysis
reconcile_dynamic_health_penalties a weights =
    let baseline = ensure_dynamic_health_baseline a in
    let result =
      dynamic_result (resolve_weights weights) baseline (has_failing_keda_metric a) a.vpa_conflict
        (has_high_churn a) in
    record a {
      health_score = result.score;
      health = result.state;
      health_result = some result;
      baseline = some baseline;
    }

unfoldable pub apply_enrichment_penalties : Analysis → HealthWeights → Analysis
apply_enrichment_penalties a weights = reconcile_dynamic_health_penalties a weights

unfoldable pub apply_churn_penalty : Analysis → HealthWeights → Analysis
apply_churn_penalty a weights = reconcile_dynamic_health_penalties a weights
