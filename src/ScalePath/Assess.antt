-- ===== src/ScalePath/Assess.antt =====
-- addScalePathAssessment of pkg/hpa/scalepath.go.
use kubectl_hpa_status.Prelude.{
  List, [], ◌∷◌, ◌++◌, ℤ, pos, Bool, true, false, not, ◌&&◌, ◌||◌, ltb_ℤ, leb_ℤ, ◌-ℤ◌, int32,
  String, str_eq, if◌then◌else◌,
}
use kubectl_hpa_status.Api.{Hpa}
use kubectl_hpa_status.ScalePath.Path.{
  ScalePathInput, BlockingPoint, cannot_place, still_pending, only_ready, capped_by_max,
  none_visible, Evidence, pods_pending, unschedulable_reason, recent_event, max_not_blocker,
  pods_not_ready, desired_equals_max, no_blocker_exposed, ScalePath, ScalePathPodCounts,
  first_unschedulable_reason, first_scheduling_event,
}

abbrev pub when {ℓ} : {A : Type ℓ} → Bool → A → List A
when true a = a ∷ []
when false a = []

-- The evidence of the first `if`, for the counts that have a pending pod.
unfoldable pub pending_evidence : Hpa → String → String → ℤ → ℤ → List Evidence
pending_evidence hpa reason scheduling_event pending desired =
    pods_pending pending ∷ when (not (str_eq reason "")) (unschedulable_reason reason)
    ++ when (not (str_eq scheduling_event "")) (recent_event scheduling_event)
    ++ when (leb_ℤ hpa.max_replicas desired) max_not_blocker

-- One case of the switch: the blocking point, and what it appends.
pub record Assessment : Type 0 where
  pub point : BlockingPoint
  pub found : List Evidence
  pub actions : List String

unfoldable pub assess : Hpa → ScalePathPodCounts → String → ℤ → Assessment
assess hpa counts scheduling_event desired =
    if ltb_ℤ (pos 0) counts.unschedulable
      || (ltb_ℤ (pos 0) counts.pending && not (str_eq scheduling_event ""))
    then record {
      point = cannot_place counts.pending;
      found = [];
      actions =
          "Check node capacity or Cluster Autoscaler/Karpenter"
          ∷ "Check pod requests, node selectors, affinity, taints, and namespace quotas"
          ∷ when (leb_ℤ hpa.max_replicas desired)
              "Consider raising node group limit before raising maxReplicas";
    }
    else if ltb_ℤ (pos 0) counts.pending
    then record {
      point = still_pending counts.pending;
      found = [];
      actions =
          "Describe pending pods and inspect scheduling, image pull, and admission events"
          ∷ "Check rollout status for the scale target" ∷ [];
    }
    else if ltb_ℤ (pos 0) counts.total && ltb_ℤ counts.ready desired
    then record {
      point = only_ready counts.ready desired;
      found = pods_not_ready (int32 (desired -ℤ counts.ready)) ∷ [];
      actions =
          "Check pod readiness probes, container restarts, and application startup latency"
          ∷ "Inspect recent pod events for readiness or image pull failures" ∷ [];
    }
    else if leb_ℤ hpa.max_replicas hpa.desired_replicas
        && leb_ℤ hpa.max_replicas hpa.current_replicas
    then record {
      point = capped_by_max;
      found = desired_equals_max hpa.max_replicas ∷ [];
      actions = "Review whether maxReplicas should be raised after capacity is confirmed" ∷ [];
    }
    else record {
      point = none_visible;
      found = no_blocker_exposed ∷ [];
      actions =
          "Check workload logs and metrics if user-visible capacity is still insufficient" ∷ [];
    }

unfoldable pub add_scale_path_assessment :
    ScalePath → Hpa → ScalePathInput → ScalePathPodCounts → ℤ → ScalePath
add_scale_path_assessment path hpa input counts desired =
    let scheduling_event = first_scheduling_event input.events in
    let reason = first_unschedulable_reason input.pods in
    let found =
      if ltb_ℤ (pos 0) counts.pending
      then pending_evidence hpa reason scheduling_event counts.pending desired
      else [] in
    let a = assess hpa counts scheduling_event desired in
    record path {
      blocking_point = a.point;
      evidence = path.evidence ++ found ++ a.found;
      next_actions = path.next_actions ++ a.actions;
    }
