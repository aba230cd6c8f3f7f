-- ===== src/ScalePath/Analyze.antt =====
-- AnalyzeScalePath and the analyses it calls, of pkg/hpa/scalepath.go. A nil HPA is `none`.
use kubectl_hpa_status.Prelude.{
  List, [], ◌∷◌, ◌++◌, ℤ, pos, not, ◌&&◌, ◌||◌, ltb, ltb_ℤ, leb_ℤ, eqb_ℤ, ◌+ℤ◌, ◌-ℤ◌, ◌*ℤ◌, max_ℤ,
  int32, String, str_eq, equal_fold, length, map, Option, none, some, if◌then◌else◌,
}
use kubectl_hpa_status.Api.{Hpa}
use kubectl_hpa_status.ScalePath.Path.{
  ScalePathTarget, ScalePathPod, ProbeInfo, ScalePathPodTemplate, ScalePathQuotaCheck,
  ScalePathInput, ScalePathSchedulerInfo, ScalePathStep, hpa_wants, target_desired,
  replica_set_created, pods_ready, pending_pods, unset, Evidence, quota_may_block, autoscaler_says,
  running_not_ready, ProbeWarning, readiness_delay, startup_delay, ScalePath, ScalePathPodCounts,
  ready_or_target, count_scale_path_pods, sum_scale_path_replica_sets, counts_have_unschedulable,
}
use kubectl_hpa_status.ScalePath.Assess.{when, add_scale_path_assessment}

abbrev readiness_warning : Option ProbeInfo → List ProbeWarning
readiness_warning none = []
readiness_warning (some p) =
    let period = if leb_ℤ p.period_seconds (pos 0) then pos 10 else p.period_seconds in
    let intervals = int32 (period *ℤ max_ℤ (pos 0) (int32 (p.success_threshold -ℤ pos 1))) in
    let total_delay = int32 (p.initial_delay_seconds +ℤ intervals) in
    when (ltb_ℤ (pos 120) total_delay) (readiness_delay total_delay intervals)

abbrev startup_warning : Option ProbeInfo → List ProbeWarning
startup_warning none = []
startup_warning (some p) =
    let total_delay =
      int32 (p.initial_delay_seconds +ℤ int32 (p.period_seconds *ℤ p.failure_threshold)) in
    when (ltb_ℤ (pos 180) total_delay) (startup_delay total_delay)

abbrev probe_warnings_of : Option ScalePathPodTemplate → ScalePathPodCounts → ℤ → List ProbeWarning
probe_warnings_of none counts desired = []
probe_warnings_of (some tpl) counts desired =
    if eqb_ℤ counts.total (pos 0) || leb_ℤ desired counts.ready
    then []
    else readiness_warning tpl.readiness_probe ++ startup_warning tpl.startup_probe

unfoldable pub analyze_probe_configuration :
    ScalePath → ScalePathInput → ScalePathPodCounts → ℤ → ScalePath
analyze_probe_configuration path input counts desired = record path {
  probe_warnings = path.probe_warnings ++ probe_warnings_of input.pod_template counts desired;
}

abbrev scheduler_info_of :
    ScalePathPodTemplate
    → List ScalePathPod
    → Option ScalePathSchedulerInfo
    → Option ScalePathSchedulerInfo
scheduler_info_of tpl pods before =
    let labels = length tpl.node_selector in
    let affinity = when (not (str_eq tpl.affinity_summary "")) tpl.affinity_summary in
    let info : ScalePathSchedulerInfo = record {
      node_selector_labels = labels;
      affinity_constraints = affinity;
      topology_spread_constraints = tpl.topology_spread;
      warning =
          if counts_have_unschedulable pods
          then "Scheduling constraints may contribute to Unschedulable pods"
          else "";
    } in
    if ltb 0 labels || ltb 0 (length affinity) || ltb 0 (length tpl.topology_spread)
    then some info
    else before

abbrev scheduler_constraints :
    Option ScalePathPodTemplate
    → List ScalePathPod
    → Option ScalePathSchedulerInfo
    → Option ScalePathSchedulerInfo
scheduler_constraints none pods before = before
scheduler_constraints (some tpl) pods before = scheduler_info_of tpl pods before

unfoldable pub analyze_scheduler_constraints : ScalePath → ScalePathInput → ScalePath
analyze_scheduler_constraints path input = record path {
  scheduler_info = scheduler_constraints input.pod_template input.pods path.scheduler_info;
}

abbrev blocking_quotas : List ScalePathQuotaCheck → List ScalePathQuotaCheck
blocking_quotas [] = []
blocking_quotas (q ∷ qs) = when q.blocking q ++ blocking_quotas qs

unfoldable pub analyze_quota_blocking : ScalePath → ScalePathInput → ScalePath
analyze_quota_blocking path input =
    let found = blocking_quotas input.resource_quotas in
    let checks = path.quota_checks ++ found in
    record path {
      quota_checks = checks;
      evidence = path.evidence ++ map quota_may_block found;
      next_actions =
          path.next_actions
          ++ when (ltb 0 (length checks))
              "Check kubectl describe quota -n <namespace> for remaining capacity";
    }

unfoldable pub detect_autoscaler_events : ScalePath → ScalePathInput → ScalePath
detect_autoscaler_events path input =
    let messages = path.autoscaler_events ++ input.autoscaler_events in
    record path {
      autoscaler_events = messages;
      evidence = path.evidence ++ map autoscaler_says input.autoscaler_events;
      next_actions =
          path.next_actions
          ++ when (ltb 0 (length messages))
              "Node provisioning in progress — monitor node readiness";
    }

abbrev running_pods : List ScalePathPod → List Evidence
running_pods [] = []
running_pods (pod ∷ pods) =
    when (equal_fold pod.phase "Running" && not pod.ready) (running_not_ready pod.name)
    ++ running_pods pods

unfoldable pub analyze_not_ready_pods : ScalePath → ScalePathInput → ScalePath
analyze_not_ready_pods path input = record path {
  evidence = path.evidence ++ running_pods input.not_ready_pods;
}

-- The five variables about the target.
pub record TargetView : Type 0 where
  pub kind : String
  pub name : String
  pub desired : ℤ
  pub current : ℤ
  pub ready : ℤ

unfoldable pub target_view : Hpa → Option ScalePathTarget → TargetView
target_view hpa none = record {
  kind = hpa.target_kind;
  name = hpa.target_name;
  desired = hpa.desired_replicas;
  current = hpa.current_replicas;
  ready = pos 0;
}
target_view hpa (some target) = record {
  kind = if not (str_eq target.kind "") then target.kind else hpa.target_kind;
  name = if not (str_eq target.name "") then target.name else hpa.target_name;
  desired =
      if ltb_ℤ (pos 0) target.desired_replicas
      then target.desired_replicas
      else hpa.desired_replicas;
  current = target.current_replicas;
  ready = target.ready_replicas;
}

unfoldable pub initial_steps :
    Hpa → ScalePathInput → ScalePathPodCounts → TargetView → List ScalePathStep
initial_steps hpa input counts view =
    let (rs_desired, rs_sum) = sum_scale_path_replica_sets input.replica_sets in
    let rs_current = if eqb_ℤ rs_sum (pos 0) then view.current else rs_sum in
    hpa_wants hpa.desired_replicas
    ∷ target_desired view.kind view.name view.desired
    ∷ replica_set_created rs_current
    ∷ pods_ready (ready_or_target counts view.ready) view.desired
    ∷ when (ltb_ℤ (pos 0) counts.pending) (pending_pods counts.pending)

abbrev with_steps : List ScalePathStep → ScalePath
with_steps steps = record {
  steps = steps;
  blocking_point = unset;
  evidence = [];
  next_actions = [];
  probe_warnings = [];
  scheduler_info = none;
  quota_checks = [];
  autoscaler_events = [];
}

unfoldable pub analyze_present : Hpa → ScalePathInput → ScalePath
analyze_present hpa input =
    let view = target_view hpa input.target in
    let counts = count_scale_path_pods input.pods in
    let path1 = with_steps (initial_steps hpa input counts view) in
    let path2 = add_scale_path_assessment path1 hpa input counts view.desired in
    let path3 = analyze_probe_configuration path2 input counts view.desired in
    let path4 = analyze_scheduler_constraints path3 input in
    let path5 = analyze_quota_blocking path4 input in
    let path6 = detect_autoscaler_events path5 input in analyze_not_ready_pods path6 input

unfoldable pub analyze_scale_path : Option Hpa → ScalePathInput → Option ScalePath
analyze_scale_path none input = none
analyze_scale_path (some hpa) input = some (analyze_present hpa input)
