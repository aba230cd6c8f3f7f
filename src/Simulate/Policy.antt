-- ===== src/Simulate/Policy.antt =====
-- pkg/hpa/simulate/simulate_policy.go: a desired count under the bounds and the scaling-rate policies.
use kubectl_hpa_status.Prelude.{
  List, [], ℤ, pos, Bool, true, false, ltb_ℤ, max_ℤ, ◌*ℤ◌, int64, max_int32, Option, none, some,
  if◌then◌else◌,
}
use kubectl_hpa_status.Api.{
  ScalingPolicy, PolicySelect, max_change, disabled, ScalingRules, Behavior,
}
use kubectl_hpa_status.Scaling.Policy.{Float64, default_policies, limit}

pub data LimitReason : Type 0 where
  too_few_replicas too_many_replicas scale_up_limit scale_down_limit desired_within_range :
      LimitReason

-- The three results: the replica count, whether it was limited, and the condition's reason.
pub record Normalized : Type 0 where
  pub desired : ℤ
  pub limited : Bool
  pub reason : LimitReason

unfoldable pub legacy_scale_up_limit : ℤ → ℤ
legacy_scale_up_limit current =
    let doubled = max_ℤ (int64 (current *ℤ pos 2)) (pos 4) in
    if ltb_ℤ max_int32 doubled then max_int32 else doubled

abbrev pub rules_select : Option ScalingRules → PolicySelect
rules_select none = max_change
rules_select (some rules) = elim rules.select_policy [ none ↦ max_change | some select ↦ select ]

abbrev pub rules_policies : Bool → Option ScalingRules → List ScalingPolicy
rules_policies scale_up none = default_policies scale_up
rules_policies scale_up (some rules) = elim rules.policies [
  | none ↦ default_policies scale_up
  | some policies ↦ policies
]

abbrev pub or_current : ℤ → Option ℤ → ℤ
or_current current none = current
or_current current (some bound) = bound

-- The early return for the selection Disabled; `limit` is asked otherwise.
unfoldable pub select_limit : Float64 → ℤ → Bool → List ScalingPolicy → PolicySelect → ℤ
select_limit F current scale_up policies disabled = current
select_limit F current scale_up policies select =
    or_current current (limit F current scale_up select policies (pos 0) [])

unfoldable pub policy_replica_limit : Float64 → ℤ → Bool → Option ScalingRules → ℤ
unfolding select_limit
policy_replica_limit F current scale_up rules =
    select_limit F current scale_up (rules_policies scale_up rules) (rules_select rules)

abbrev pub limited_up : ℤ → ℤ → ℤ → Normalized
limited_up bound max_replicas desired =
    let maximum = if ltb_ℤ bound max_replicas then bound else max_replicas in
    let why = if ltb_ℤ bound max_replicas then scale_up_limit else too_many_replicas in
    if ltb_ℤ maximum desired
    then record { desired = maximum; limited = true; reason = why }
    else record { desired = desired; limited = false; reason = desired_within_range }

-- hpa.Spec.Behavior == nil
unfoldable pub normalize_legacy : ℤ → ℤ → ℤ → ℤ → Normalized
normalize_legacy current desired min_replicas max_replicas =
    if ltb_ℤ desired min_replicas
    then record { desired = min_replicas; limited = true; reason = too_few_replicas }
    else limited_up (legacy_scale_up_limit current) max_replicas desired

-- desired > current
unfoldable pub normalize_up : Float64 → Behavior → ℤ → ℤ → ℤ → Normalized
normalize_up F behavior current desired max_replicas =
    let allowed = policy_replica_limit F current true behavior.scale_up in
    let bound = if ltb_ℤ allowed current then current else allowed in
    limited_up bound max_replicas desired

-- desired < current
unfoldable pub normalize_down : Float64 → Behavior → ℤ → ℤ → ℤ → Normalized
normalize_down F behavior current desired min_replicas =
    let allowed = policy_replica_limit F current false behavior.scale_down in
    let bound = if ltb_ℤ current allowed then current else allowed in
    let minimum = if ltb_ℤ min_replicas bound then bound else min_replicas in
    let why = if ltb_ℤ min_replicas bound then scale_down_limit else too_few_replicas in
    if ltb_ℤ desired minimum
    then record { desired = minimum; limited = true; reason = why }
    else record { desired = desired; limited = false; reason = desired_within_range }

unfoldable pub normalize_desired : Float64 → Option Behavior → ℤ → ℤ → ℤ → ℤ → Normalized
unfolding normalize_legacy normalize_up normalize_down
normalize_desired F none current desired min_replicas max_replicas =
    normalize_legacy current desired min_replicas max_replicas
normalize_desired F (some behavior) current desired min_replicas max_replicas =
    if ltb_ℤ current desired
    then normalize_up F behavior current desired max_replicas
    else if ltb_ℤ desired current
    then normalize_down F behavior current desired min_replicas
    else record { desired = desired; limited = false; reason = desired_within_range }
