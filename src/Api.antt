-- ===== src/Api.antt =====
-- The fields of the Kubernetes autoscaling/v2 types that the analysis reads.
-- A nil pointer or a nil slice is `none`. int32 fields are integers.
use kubectl_hpa_status.Prelude.{List, ℤ, Option, String}

-- autoscalingv2.HPAScalingPolicyType; `other` is any value that the API does not define.
pub data PolicyType : Type 0 where
  pods percent other : PolicyType

-- autoscalingv2.HPAScalingPolicy
pub record ScalingPolicy : Type 0 where
  pub kind : PolicyType
  pub value : ℤ
  pub period_seconds : ℤ

-- autoscalingv2.ScalingPolicySelect
pub data PolicySelect : Type 0 where
  max_change min_change disabled : PolicySelect

-- autoscalingv2.HPAScalingRules; a nil pointer or a nil slice is `none`.
pub record ScalingRules : Type 0 where
  pub select_policy : Option PolicySelect
  pub policies : Option (List ScalingPolicy)
  pub stabilization_window : Option ℤ

-- autoscalingv2.HorizontalPodAutoscalerBehavior
pub record Behavior : Type 0 where
  pub scale_up : Option ScalingRules
  pub scale_down : Option ScalingRules

-- autoscalingv2.MetricSourceType
pub data MetricSource : Type 0 where
  resource_metric pods_metric object_metric external_metric container_metric : MetricSource

-- autoscalingv2.HorizontalPodAutoscalerCondition
pub record Condition : Type 0 where
  pub kind : String
  pub status : String
  pub reason : String

-- autoscalingv2.HorizontalPodAutoscaler, its metadata, spec and status in one record.
pub record Hpa : Type 0 where
  pub namespace : String
  pub name : String
  pub target_kind : String
  pub target_name : String
  pub min_replicas : Option ℤ
  pub max_replicas : ℤ
  pub metrics : List MetricSource
  pub behavior : Option Behavior
  pub current_replicas : ℤ
  pub desired_replicas : ℤ
  pub conditions : List Condition
