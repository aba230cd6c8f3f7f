-- ===== src/Health/Weights.antt =====
-- pkg/hpa/model/health.go, resolveWeights of pkg/hpa/health.go and the defaults of pkg/hpa/types.go.
use kubectl_hpa_status.Prelude.{ℤ, pos, Option, none, some}

-- A nil pointer is `none`.
pub record HealthWeights : Type 0 where
  pub scaling_inactive : Option ℤ
  pub unable_to_scale : Option ℤ
  pub scaling_limited : Option ℤ
  pub implicit_max_replicas : Option ℤ
  pub scale_down_stabilized : Option ℤ
  pub at_minimum_replicas : Option ℤ
  pub keda_inactive_trigger : Option ℤ
  pub vpa_conflict : Option ℤ
  pub churn : Option ℤ

pub record ResolvedWeights : Type 0 where
  pub scaling_inactive : ℤ
  pub unable_to_scale : ℤ
  pub scaling_limited : ℤ
  pub implicit_max_replicas : ℤ
  pub scale_down_stabilized : ℤ
  pub at_minimum_replicas : ℤ
  pub keda_inactive_trigger : ℤ
  pub vpa_conflict : ℤ
  pub churn : ℤ

abbrev pub health_score_max : ℤ
health_score_max = pos 100

unfoldable pub weight_or : Option ℤ → ℤ → ℤ
weight_or none default_val = default_val
weight_or (some w) default_val = w

unfoldable pub resolve_weights : HealthWeights → ResolvedWeights
resolve_weights w = record {
  scaling_inactive = weight_or w.scaling_inactive (pos 45);
  unable_to_scale = weight_or w.unable_to_scale (pos 35);
  scaling_limited = weight_or w.scaling_limited (pos 25);
  implicit_max_replicas = weight_or w.implicit_max_replicas (pos 20);
  scale_down_stabilized = weight_or w.scale_down_stabilized (pos 10);
  at_minimum_replicas = weight_or w.at_minimum_replicas (pos 5);
  keda_inactive_trigger = weight_or w.keda_inactive_trigger (pos 15);
  vpa_conflict = weight_or w.vpa_conflict (pos 20);
  churn = weight_or w.churn (pos 15);
}
