-- ===== src/Health/Reconcile.antt =====
-- Reconciliation is a function of the baseline and of the newest enrichment data.
use kubectl_hpa_status.Prelude.{
  pos, ◌≤ℤ◌, Bool, true, false, not, ◌&&◌, ◌||◌, Option, arith, ◌≡◌, refl, if◌then◌else◌,
}
use kubectl_hpa_status.Health.Weights.{HealthWeights, ResolvedWeights, resolve_weights}
use kubectl_hpa_status.Health.Score.{
  HealthState, HealthResult, limited, is_error, clamp_score, set_state,
}
use kubectl_hpa_status.Health.Dynamic.{
  Analysis, KedaInfo, ChurnLevel, Baseline, fresh_baseline, ensure_dynamic_health_baseline,
  has_failing_keda_metric, has_high_churn, dynamic_result, reconcile_dynamic_health_penalties,
  apply_enrichment_penalties, apply_churn_penalty,
}

-- New enrichment data arrive.
abbrev pub with_enrichment : Analysis → Option KedaInfo → Bool → Option ChurnLevel → Analysis
with_enrichment a keda vpa churn = record a {
  keda_info = keda;
  vpa_conflict = vpa;
  churn_level = churn;
}

-- After any reconciliation, reconciling once more with other enrichment data and other weights
-- gives what reconciling the original analysis with those alone gives: penalties never add up over
-- calls, and a signal that is gone leaves no trace.
pub reconcile_forgets :
    (a : Analysis) (weights later : HealthWeights) (keda : Option KedaInfo) (vpa : Bool)
    (churn : Option ChurnLevel)
    → apply_churn_penalty
        (with_enrichment (apply_enrichment_penalties a weights) keda vpa churn)
        later
      ≡ apply_churn_penalty (with_enrichment a keda vpa churn) later
unfolding apply_churn_penalty apply_enrichment_penalties reconcile_dynamic_health_penalties
    ensure_dynamic_health_baseline fresh_baseline has_failing_keda_metric has_high_churn
reconcile_forgets a weights later keda vpa churn = refl

pick_state :
    (active broken : Bool) (s : HealthState)
    → (if active && not broken then limited else s)
      ≡ (if active then (if broken then s else limited) else s)
pick_state true true s = refl
pick_state true false s = refl
pick_state false broken s = refl

clamp_score_nonneg : (r : HealthResult) → pos 0 ≤ℤ (clamp_score r).score
unfolding clamp_score
clamp_score_nonneg r = ground arith

module _ (w : ResolvedWeights) (b : Baseline) (keda vpa churn : Bool) where
  dynamic_result_state : (dynamic_result w b keda vpa churn).state ≡ (
      if keda || (vpa || churn) then (if is_error b.state then b.state else limited) else b.state)
  unfolding dynamic_result clamp_score set_state
  dynamic_result_state = pick_state (keda || (vpa || churn)) (is_error b.state) b.state

  dynamic_result_nonneg : pos 0 ≤ℤ (dynamic_result w b keda vpa churn).score
  unfolding dynamic_result
  dynamic_result_nonneg = clamp_score_nonneg _

-- Without a dynamic signal the reconciled state is the baseline's. With one it is ERROR if the
-- baseline's is, and else LIMITED. The score is never negative.
pub reconcile_state :
    (a : Analysis) (weights : HealthWeights)
    → let b = ensure_dynamic_health_baseline a in
      let r = reconcile_dynamic_health_penalties a weights in
      let active = has_failing_keda_metric a || (a.vpa_conflict || has_high_churn a) in
      (r.health ≡ (if active then (if is_error b.state then b.state else limited) else b.state))
      × (pos 0 ≤ℤ r.health_score)
unfolding reconcile_dynamic_health_penalties
reconcile_state a weights =
    let w = resolve_weights weights in
    let b = ensure_dynamic_health_baseline a in
    let keda = has_failing_keda_metric a in
    let churn = has_high_churn a in
    (
      dynamic_result_state w b keda a.vpa_conflict churn,
      dynamic_result_nonneg w b keda a.vpa_conflict churn,
    )
