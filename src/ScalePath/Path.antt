-- ===== src/ScalePath/Path.antt =====
-- The types of pkg/hpa/scalepath_types.go and the counters of pkg/hpa/scalepath.go. A text that the
-- source formats is a constructor with the values it shows.
use kubectl_hpa_status.Prelude.{
  List, [], ◌∷◌, ℕ, ◌==◌, ℤ, pos, Bool, true, false, not, ◌||◌, ltb_ℤ, ◌+ℤ◌, int32, String, str_eq,
  Option, equal_fold, codes, has_infix, all_space, to_lower, map, if◌then◌else◌,
}
use kubectl_hpa_status.Events.Rescales.{Event}

pub record ScalePathTarget : Type 0 where
  pub kind : String
  pub name : String
  pub desired_replicas : ℤ
  pub current_replicas : ℤ
  pub ready_replicas : ℤ

pub record ScalePathReplicaSet : Type 0 where
  pub desired_replicas : ℤ
  pub current_replicas : ℤ

pub record ScalePathPod : Type 0 where
  pub name : String
  pub phase : String
  pub ready : Bool
  pub unschedulable : Bool
  pub reasons : List String

pub record ProbeInfo : Type 0 where
  pub initial_delay_seconds : ℤ
  pub period_seconds : ℤ
  pub failure_threshold : ℤ
  pub success_threshold : ℤ

pub record ScalePathPodTemplate : Type 0 where
  pub readiness_probe : Option ProbeInfo
  pub startup_probe : Option ProbeInfo
  pub node_selector : List (String × String)
  pub affinity_summary : String
  pub topology_spread : List String

pub record ScalePathQuotaCheck : Type 0 where
  pub name : String
  pub resource : String
  pub used : String
  pub hard : String
  pub blocking : Bool

pub record ScalePathInput : Type 0 where
  pub target : Option ScalePathTarget
  pub replica_sets : List ScalePathReplicaSet
  pub pods : List ScalePathPod
  pub events : List Event
  pub pod_template : Option ScalePathPodTemplate
  pub resource_quotas : List ScalePathQuotaCheck
  pub autoscaler_events : List String
  pub not_ready_pods : List ScalePathPod

pub record ScalePathSchedulerInfo : Type 0 where
  pub node_selector_labels : ℕ
  pub affinity_constraints : List String
  pub topology_spread_constraints : List String
  pub warning : String

-- A step's name and summary.
pub data ScalePathStep : Type 0 where
  hpa_wants : ℤ → ScalePathStep
  target_desired : String → String → ℤ → ScalePathStep
  replica_set_created : ℤ → ScalePathStep
  pods_ready : ℤ → ℤ → ScalePathStep
  pending_pods : ℤ → ScalePathStep

pub data BlockingPoint : Type 0 where
  unset : BlockingPoint
  cannot_place : ℤ → BlockingPoint
  still_pending : ℤ → BlockingPoint
  only_ready : ℤ → ℤ → BlockingPoint
  capped_by_max : BlockingPoint
  none_visible : BlockingPoint

pub data Evidence : Type 0 where
  pods_pending : ℤ → Evidence
  unschedulable_reason : String → Evidence
  recent_event : String → Evidence
  max_not_blocker : Evidence
  pods_not_ready : ℤ → Evidence
  desired_equals_max : ℤ → Evidence
  no_blocker_exposed : Evidence
  quota_may_block : ScalePathQuotaCheck → Evidence
  autoscaler_says : String → Evidence
  running_not_ready : String → Evidence

pub data ProbeWarning : Type 0 where
  readiness_delay : ℤ → ℤ → ProbeWarning
  startup_delay : ℤ → ProbeWarning

pub record ScalePath : Type 0 where
  pub steps : List ScalePathStep
  pub blocking_point : BlockingPoint
  pub evidence : List Evidence
  pub next_actions : List String
  pub probe_warnings : List ProbeWarning
  pub scheduler_info : Option ScalePathSchedulerInfo
  pub quota_checks : List ScalePathQuotaCheck
  pub autoscaler_events : List String

pub record ScalePathPodCounts : Type 0 where
  pub total : ℤ
  pub ready : ℤ
  pub pending : ℤ
  pub unschedulable : ℤ

unfoldable pub ready_or_target : ScalePathPodCounts → ℤ → ℤ
ready_or_target c target_ready = if ltb_ℤ (pos 0) c.total then c.ready else target_ready

abbrev pub bump : Bool → ℤ → ℤ
bump test n = if test then int32 (n +ℤ pos 1) else n

-- The body of the loop of countScalePathPods.
unfoldable pub count_pod : ScalePathPodCounts → ScalePathPod → ScalePathPodCounts
count_pod counts pod =
    let is_pending = equal_fold pod.phase "Pending" in
    record {
      total = bump true counts.total;
      ready = bump pod.ready counts.ready;
      pending = bump is_pending counts.pending;
      unschedulable =
          if is_pending then bump pod.unschedulable counts.unschedulable else counts.unschedulable;
    }

unfoldable pub count_pods_from : ScalePathPodCounts → List ScalePathPod → ScalePathPodCounts
count_pods_from counts [] = counts
count_pods_from counts (pod ∷ pods) = count_pods_from (count_pod counts pod) pods

abbrev pub no_pods : ScalePathPodCounts
no_pods = record { total = pos 0; ready = pos 0; pending = pos 0; unschedulable = pos 0 }

unfoldable pub count_scale_path_pods : List ScalePathPod → ScalePathPodCounts
count_scale_path_pods pods = count_pods_from no_pods pods

abbrev sum_from : ℤ → ℤ → List ScalePathReplicaSet → ℤ × ℤ
sum_from desired current [] = (desired, current)
sum_from desired current (rs ∷ sets) =
    sum_from (int32 (desired +ℤ rs.desired_replicas)) (int32 (current +ℤ rs.current_replicas)) sets

unfoldable pub sum_scale_path_replica_sets : List ScalePathReplicaSet → ℤ × ℤ
sum_scale_path_replica_sets sets = sum_from (pos 0) (pos 0) sets

-- The first reason that is not blank.
abbrev first_reason : List String → String
first_reason [] = ""
first_reason (r ∷ rs) = let rest = first_reason rs in if not (all_space (codes r)) then r else rest

unfoldable pub first_unschedulable_reason : List ScalePathPod → String
first_unschedulable_reason [] = ""
first_unschedulable_reason (pod ∷ pods) =
    let rest = first_unschedulable_reason pods in
    let reason = if pod.unschedulable then first_reason pod.reasons else "" in
    if not (str_eq reason "") then reason else rest

-- strings.ToLower as far as an ASCII letter comes out of it: two letters outside ASCII have one.
abbrev lower_rune : ℕ → ℕ
lower_rune c = if c == 304 then 105 else if c == 8490 then 107 else to_lower c

unfoldable pub first_scheduling_event : List Event → String
first_scheduling_event [] = ""
first_scheduling_event (e ∷ es) =
    let rest = first_scheduling_event es in
    if str_eq e.reason "FailedScheduling"
      || has_infix (codes "nodes available") (map lower_rune (codes e.message))
    then e.message
    else rest

unfoldable pub counts_have_unschedulable : List ScalePathPod → Bool
counts_have_unschedulable [] = false
counts_have_unschedulable (pod ∷ pods) = pod.unschedulable || counts_have_unschedulable pods
