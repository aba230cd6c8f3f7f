-- ===== src/Tests/Scale.antt =====
-- The scaling policies, the simulation, the capacity plan, the fleet report and the scale path.
use kubectl_hpa_status.Prelude.{
  ◌*ℤ◌, int32, int64, ℕ, ◌<◌, ◌≤◌, List, [], ◌∷◌, pos, Bool, true, false, none, some, String, ◌≡◌,
  ◌⊎◌, ◌↔◌, refl, arith, ◌≤ℤ◌, ◌-ℤ◌, ◌+ℤ◌, max_int32, min_ℤ, max_ℤ, All,
}
use kubectl_hpa_status.Api.{Hpa, max_change, pods, ScalingPolicy}
use kubectl_hpa_status.Scaling.Policy.{
  percent_candidate, period_baseline, candidate_of, toward, keep_selected, limit_loop,
  default_policies, limit, replica_limit, policy_candidate,
}
use kubectl_hpa_status.Scaling.Bounds.{TowardOption, limit-Toward}
use kubectl_hpa_status.Scaling.Selection.{limit-IsBest, IsBest, wants_max}
use kubectl_hpa_status.Simulate.Policy.{policy_replica_limit, normalize_desired}
use kubectl_hpa_status.Simulate.PolicyBounds.{normalize_desired_between}
use kubectl_hpa_status.Capacity.Fit.{bisect, fits, pods_fit_in_resources}
use kubectl_hpa_status.Capacity.FitSearch.{pods_fit_in_resources-IsLast}
use kubectl_hpa_status.Capacity.Decision.{
  is_fail, has_node_capacity_shortfall, capacity_unknown_blocks_decision, capacity_status,
  count_check, tally, CapacityCheckResult, build_recommendation,
}
use kubectl_hpa_status.Capacity.Safety.{Supports, build_recommendation-safe}
use kubectl_hpa_status.Capacity.Target.{
  IsProposal, compute_target_max, compute_target_max-IsProposal,
}
use kubectl_hpa_status.Fleet.Report.{RiskItem, build_report, effective_current}
use kubectl_hpa_status.Fleet.Totals.{total, peak, HasCounts, build_report-totals}
use kubectl_hpa_status.ScalePath.Path.{ScalePathPod, ScalePathInput, ScalePath, none_visible}
use kubectl_hpa_status.ScalePath.Analyze.{analyze_scale_path}
use kubectl_hpa_status.ScalePath.Blocking.{NoBlocker, wanted, analyze_scale_path-NoBlocker}
use kubectl_hpa_status.Tests.Samples.{exact, web, gentle}

limit-Toward_example :
    TowardOption true
      (pos 10)
      (limit exact (pos 10) true max_change (default_policies true) (pos 0) [])
limit-Toward_example =
    limit-Toward exact (pos 10) true max_change (default_policies true) (pos 0) []

-- Ten pods may become 20.
limit_twenty :
    limit exact (pos 10) true max_change (default_policies true) (pos 0) [] ≡ some (pos 20)
unfolding limit limit_loop default_policies keep_selected policy_candidate toward replica_limit
    candidate_of max_ℤ int64 ◌+ℤ◌ int32 min_ℤ period_baseline percent_candidate ◌*ℤ◌
limit_twenty = refl

limit-IsBest_example :
    IsBest
      (wants_max true max_change)
      (policy_candidate exact (pos 10) true (pos 0) [])
      (default_policies true)
      (some (pos 20))
limit-IsBest_example =
    limit-IsBest exact (pos 10) true max_change (pos 0) [] (default_policies true) (some (pos 20))
      (λ h. cc) limit_twenty

abbrev two_pods : ScalingPolicy
two_pods = record { kind = pods; value = pos 2; period_seconds = pos 60 }

replica_limit_eight : replica_limit exact (pos 10) false two_pods ≡ some (pos 8)
unfolding replica_limit candidate_of int64 ◌-ℤ◌
replica_limit_eight = refl

normalize_desired_between_example :
    let n = normalize_desired exact (some gentle) (pos 10) (pos 3) (pos 2) (pos 20) in
    (pos 2 ≤ℤ n.desired)
    × (n.desired ≤ℤ pos 20)
    × (((pos 10 ≤ℤ n.desired) × (n.desired ≤ℤ pos 3))
        ⊎ ((pos 3 ≤ℤ n.desired) × (n.desired ≤ℤ pos 10)))
normalize_desired_between_example =
    normalize_desired_between exact gentle (pos 10) (pos 3) (pos 2) (pos 20) (omega arith)
      (omega arith)

-- Thirty per cent of ten pods are three.
normalize_seven :
    (normalize_desired exact (some gentle) (pos 10) (pos 3) (pos 2) (pos 20)).desired ≡ pos 7
unfolding normalize_desired policy_replica_limit limit limit_loop keep_selected policy_candidate
    toward replica_limit candidate_of min_ℤ percent_candidate ◌*ℤ◌ int32 max_ℤ period_baseline ◌-ℤ◌
normalize_seven = refl

-- A node with 4000 millicores and 8192 units of memory, for pods of 500 and 2048.
pods_fit_in_resources-IsLast_example :
    (r : ℕ) × (pods_fit_in_resources (pos 4000) (pos 8192) (pos 500) (pos 2048) ≡ pos r)
    × (r < 2147483648)
    × ((r ≡ 0) ⊎ (fits (pos 4000) (pos 8192) (pos 500) (pos 2048) r ≡ true))
    × ((n : ℕ)
        → (n ≤ r) ⊎ (2147483648 ≤ n) ⊎ (fits (pos 4000) (pos 8192) (pos 500) (pos 2048) n ≡ false))
pods_fit_in_resources-IsLast_example =
    pods_fit_in_resources-IsLast (pos 4000) (pos 8192) 500 2048 (λ h. absurd (omega (arith, h.0)))

four_pods : pods_fit_in_resources (pos 4000) (pos 8192) (pos 500) (pos 2048) ≡ pos 4
unfolding pods_fit_in_resources bisect fits ◌*ℤ◌
four_pods = refl

abbrev checks : List CapacityCheckResult
checks =
    record {
      check_id = "node-cpu";
      status = "pass";
      observation_domain = "";
      pass = true;
      unknown = false;
    }
    ∷ record {
      check_id = "observation";
      status = "unknown";
      observation_domain = "cluster-autoscaler";
      pass = false;
      unknown = true;
    }
    ∷ []

build_recommendation-safe_example :
    ((build_recommendation checks true).safe ≡ true) ↔ All Supports checks
build_recommendation-safe_example = build_recommendation-safe checks true

checks_safe : (build_recommendation checks true).safe ≡ true
unfolding build_recommendation tally count_check capacity_status capacity_unknown_blocks_decision
    has_node_capacity_shortfall is_fail
checks_safe = refl

compute_target_max-IsProposal_example :
    IsProposal (pos 120) (pos 90) (compute_target_max (pos 120) (pos 90))
compute_target_max-IsProposal_example =
    compute_target_max-IsProposal (pos 120) (pos 90) (omega arith, omega arith)
      (omega arith, omega arith) (omega arith)

abbrev fleet : List Hpa
fleet = web [] (pos 4) (pos 6) ∷ web [] (pos 0) (pos 3) ∷ []

abbrev as_given : (RiskItem → RiskItem → Bool) → List RiskItem → List RiskItem
as_given less items = items

abbrev never_less : String → String → Bool
never_less a b = false

fleet_counts : All HasCounts fleet
unfolding effective_current
fleet_counts = ((omega arith, omega arith), ((omega arith, omega arith), tt))

fleet_room : total peak fleet ≤ℤ max_int32
unfolding effective_current max_ℤ ◌+ℤ◌
fleet_room = omega arith

build_report-totals_example :
    ((build_report as_given never_less fleet "balanced").current_pods
      ≡ total effective_current fleet)
    × ((build_report as_given never_less fleet "balanced").worst_case_pods ≡ total peak fleet)
    × ((build_report as_given never_less fleet "balanced").additional_pods
        ≡ total peak fleet -ℤ total effective_current fleet)
build_report-totals_example =
    build_report-totals as_given never_less fleet "balanced" fleet_counts fleet_room

abbrev pending_pod : ScalePathPod
pending_pod = record {
  name = "web-1";
  phase = "Pending";
  ready = false;
  unschedulable = true;
  reasons = "0/3 nodes are available" ∷ [];
}

abbrev observed : ScalePathInput
observed = record {
  target = none;
  replica_sets = [];
  pods = pending_pod ∷ [];
  events = [];
  pod_template = none;
  resource_quotas = [];
  autoscaler_events = [];
  not_ready_pods = [];
}

analyze_scale_path-NoBlocker_example :
    (path : ScalePath) × (analyze_scale_path (some (web [] (pos 4) (pos 6))) observed ≡ some path)
    × ((path.blocking_point ≡ none_visible)
        ↔ NoBlocker (web [] (pos 4) (pos 6)) observed.pods (wanted (web [] (pos 4) (pos 6)) none))
analyze_scale_path-NoBlocker_example =
    analyze_scale_path-NoBlocker (web [] (pos 4) (pos 6)) observed (omega arith)
