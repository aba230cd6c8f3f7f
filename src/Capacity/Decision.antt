-- ===== src/Capacity/Decision.antt =====
-- pkg/hpa/capacityplan/capacity_plan_recommendation.go with the types of capacity_types.go and
-- the status helpers of capacity_plan_checks.go. Identifiers, statuses and domains are strings, as
-- in the source; a check's message is left out. A recommendation's text is a constructor.
use kubectl_hpa_status.Prelude.{
  ℕ, suc, List, [], ◌∷◌, Bool, true, false, ◌&&◌, ◌||◌, not, ◌==◌, String, str_eq, if◌then◌else◌,
}

pub data CheckStatus : Type 0 where
  check_pass : CheckStatus
  check_fail : CheckStatus
  check_unknown : CheckStatus

pub record CapacityCheckResult : Type 0 where
  pub check_id : String
  pub status : String
  pub observation_domain : String
  pub pass : Bool
  pub unknown : Bool

abbrev legacy_status : Bool → Bool → CheckStatus
legacy_status unknown pass =
    if unknown then check_unknown else if pass then check_pass else check_fail

unfoldable pub capacity_status : CapacityCheckResult → CheckStatus
capacity_status c =
    if str_eq c.status "pass"
    then check_pass
    else if str_eq c.status "fail"
    then check_fail
    else if str_eq c.status "unknown"
    then check_unknown
    else if str_eq c.status ""
    then legacy_status c.unknown c.pass
    else check_unknown

unfoldable pub is_fail : CheckStatus → Bool
is_fail check_fail = true
is_fail check_pass = false
is_fail check_unknown = false

unfoldable pub is_node_check : String → Bool
is_node_check id =
    str_eq id "node-cpu"
    || str_eq id "node-memory"
    || str_eq id "node-pods"
    || str_eq id "node-schedulable"

unfoldable pub has_node_capacity_shortfall : List CapacityCheckResult → Bool
has_node_capacity_shortfall [] = false
has_node_capacity_shortfall (c ∷ cs) =
    let rest = has_node_capacity_shortfall cs in
    if is_fail (capacity_status c) && is_node_check c.check_id then true else rest

abbrev pub pdbs : String
pdbs = "pod-disruption-budgets"

abbrev pub cluster_autoscaler : String
cluster_autoscaler = "cluster-autoscaler"

unfoldable pub capacity_unknown_blocks_decision :
    List CapacityCheckResult → CapacityCheckResult → Bool
capacity_unknown_blocks_decision checks check =
    if str_eq check.observation_domain pdbs
    then false
    else if str_eq check.observation_domain cluster_autoscaler
    then has_node_capacity_shortfall checks
    else true

pub record Tally : Type 0 where
  pub failed_checks : ℕ
  pub unknown_checks : ℕ

unfoldable pub count_check :
    List CapacityCheckResult → CapacityCheckResult → CheckStatus → Tally → Tally
count_check checks c check_pass t = t
count_check checks c check_fail t = record t { failed_checks = suc t.failed_checks }
count_check checks c check_unknown t =
    if capacity_unknown_blocks_decision checks c
    then record t { unknown_checks = suc t.unknown_checks }
    else t

-- The loop of buildRecommendation; the counts do not depend on the order.
unfoldable pub tally : List CapacityCheckResult → List CapacityCheckResult → Tally
tally checks [] = record { failed_checks = 0; unknown_checks = 0 }
tally checks (c ∷ cs) = count_check checks c (capacity_status c) (tally checks cs)

abbrev contains : List String → String → Bool
contains [] id = false
contains (x ∷ xs) id = str_eq x id || contains xs id

unfoldable pub count_failing_checks : List CapacityCheckResult → List String → ℕ
count_failing_checks [] ids = 0
count_failing_checks (c ∷ cs) ids =
    let rest = count_failing_checks cs ids in
    if is_fail (capacity_status c) && contains ids c.check_id then suc rest else rest

abbrev remediations : List (String × String)
remediations =
    ("quota-cpu", "Increase namespace CPU quota or reduce pod CPU requests")
    ∷ ("quota-memory", "Increase namespace memory quota or reduce pod memory requests")
    ∷ ("quota-pods", "Increase namespace Pod quota or lower the proposed maxReplicas")
    ∷ ("quota-limit-cpu", "Increase namespace CPU limit quota or reduce pod CPU limits")
    ∷ ("quota-limit-memory", "Increase namespace memory limit quota or reduce pod memory limits")
    ∷ ("limit-range-maximum", "Adjust pod requests or LimitRange constraints")
    ∷ ("limit-range-minimum", "Raise container requests to meet LimitRange minimums")
    ∷ ("node-schedulable", "Add nodes or remove blocking taints")
    ∷ ("node-pods", "Add nodes or reduce the number of Pods scheduled per node")
    ∷ ("pending-pods", "Resolve pending pod scheduling issues before scaling")
    ∷ []

abbrev action_of : List (String × String) → String → List String
action_of [] id = []
action_of ((key, action) ∷ rest) id = if str_eq key id then action ∷ [] else action_of rest id

abbrev append : {A : Type 0} → List A → List A → List A
append [] ys = ys
append (x ∷ xs) ys = x ∷ append xs ys

unfoldable pub capacity_remediation_actions : List CapacityCheckResult → List String
capacity_remediation_actions [] = []
capacity_remediation_actions (c ∷ cs) =
    let rest = capacity_remediation_actions cs in
    if is_fail (capacity_status c) then append (action_of remediations c.check_id) rest else rest

pub data Reason : Type 0 where
  observations_unknown : ℕ → Reason
  safe_to_raise : Reason
  provisioning_not_verified : Reason
  do_not_raise : Reason

pub record Recommendation : Type 0 where
  pub safe : Bool
  pub reason : Reason
  pub next_actions : List String

abbrev or_review : List String → List String
or_review [] = "Review capacity constraints before raising maxReplicas" ∷ []
or_review (action ∷ actions) = action ∷ actions

abbrev node_checks : List String
node_checks = "node-cpu" ∷ "node-memory" ∷ "node-pods" ∷ "node-schedulable" ∷ []

unfoldable pub build_recommendation : List CapacityCheckResult → Bool → Recommendation
build_recommendation checks autoscaler_present =
    let t = tally checks checks in
    if not (t.unknown_checks == 0)
    then record {
      safe = false;
      reason = observations_unknown t.unknown_checks;
      next_actions =
          "Collect the missing capacity observations (use --capacity-deep for node capacity) and rerun the plan"
          ∷ [];
    }
    else if t.failed_checks == 0
    then record { safe = true; reason = safe_to_raise; next_actions = [] }
    else if autoscaler_present && t.failed_checks == count_failing_checks checks node_checks
    then record {
      safe = false;
      reason = provisioning_not_verified;
      next_actions =
          "Monitor node provisioning after raising maxReplicas"
          ∷ "Watch for Pending pods with kubectl get pods -w" ∷ [];
    }
    else record {
      safe = false;
      reason = do_not_raise;
      next_actions = or_review (capacity_remediation_actions checks);
    }
