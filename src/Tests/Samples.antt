-- ===== src/Tests/Samples.antt =====
-- Sample values: exact rationals for float64, an autoscaler, a server's errors and JSON texts.
use kubectl_hpa_status.Prelude.{
  ℕ, zero, suc, ◌+◌, ◌-◌, ◌*◌, ◌/◌, ◌==◌, List, [], ◌∷◌, ℤ, pos, negsuc, false, ◌+ℤ◌, ◌-ℤ◌, ◌*ℤ◌,
  Option, none, some, String, str_eq, if◌then◌else◌,
}
use kubectl_hpa_status.Api.{Hpa, Condition, percent, pods, Behavior}
use kubectl_hpa_status.Scaling.Policy.{Float64}
use kubectl_hpa_status.Health.Weights.{HealthWeights}
use kubectl_hpa_status.Kube.Retry.{ApiErrors}
use kubectl_hpa_status.Patch.Json.{scalar, object, Fields, empty, field}

abbrev sign : ℤ → ℤ
sign (pos n) = pos 1
sign (negsuc n) = negsuc 0

abbrev size : ℤ → ℕ
size (pos n) = n
size (negsuc n) = suc n

abbrev negated : ℕ → ℤ
negated zero = pos 0
negated (suc n) = negsuc n

abbrev rounded_up : ℤ → ℕ → ℤ
rounded_up (pos n) m = pos ((n + (m - 1)) / m)
rounded_up (negsuc n) m = negated ((n + 1) / m)

-- A fraction is its numerator and its denominator; no rounding takes place.
abbrev pub exact : Float64
exact = record {
  Carrier = ℤ × ℕ;
  of_int = λ a. (a, 1);
  add = λ x y. (x.0 *ℤ pos y.1 +ℤ y.0 *ℤ pos x.1, x.1 * y.1);
  sub = λ x y. (x.0 *ℤ pos y.1 -ℤ y.0 *ℤ pos x.1, x.1 * y.1);
  mul = λ x y. (x.0 *ℤ y.0, x.1 * y.1);
  div = λ x y. (x.0 *ℤ pos y.1 *ℤ sign y.0, x.1 * size y.0);
  ceil = λ x. (rounded_up x.0 x.1, 1);
  to_int64 = λ x. x.0;
}

abbrev pub condition : String → String → String → Condition
condition kind status reason = record { kind = kind; status = status; reason = reason }

abbrev pub web : List Condition → ℤ → ℤ → Hpa
web conditions current desired = record {
  namespace = "shop";
  name = "web";
  target_kind = "Deployment";
  target_name = "web";
  min_replicas = some (pos 2);
  max_replicas = pos 10;
  metrics = [];
  behavior = none;
  current_replicas = current;
  desired_replicas = desired;
  conditions = conditions;
}

-- An autoscaler at its maximum that the stabilization window holds back.
abbrev pub held_back : Hpa
held_back = web (condition "AbleToScale" "True" "ScaleDownStabilized" ∷ []) (pos 10) (pos 10)

abbrev pub default_weights : HealthWeights
default_weights = record {
  scaling_inactive = none;
  unable_to_scale = none;
  scaling_limited = none;
  implicit_max_replicas = none;
  scale_down_stabilized = none;
  at_minimum_replicas = none;
  keda_inactive_trigger = none;
  vpa_conflict = none;
  churn = none;
}

-- At most 30% fewer or two more pods in a minute.
abbrev pub gentle : Behavior
gentle = record {
  scale_up = some (record {
    select_policy = none;
    policies = some (record { kind = pods; value = pos 2; period_seconds = pos 60 } ∷ []);
    stabilization_window = none;
  });
  scale_down = some (record {
    select_policy = none;
    policies = some (record { kind = percent; value = pos 30; period_seconds = pos 60 } ∷ []);
    stabilization_window = none;
  });
}

-- An error is its HTTP status.
abbrev pub by_status : ApiErrors ℕ
by_status = record {
  is_too_many_requests = λ e. e == 429;
  is_internal_error = λ e. e == 500;
  is_service_unavailable = λ e. e == 503;
  is_server_timeout = λ e. e == 504;
  is_timeout = λ e. e == 408;
  is_net_timeout = λ e. false;
  retry_after_seconds = λ e. if e == 429 then 2 else 0;
}

abbrev pub replicas : String → Fields
replicas n = field "spec" (object (field "maxReplicas" (scalar n) empty)) empty

abbrev pub parse_sample : String → Option Fields
parse_sample s =
    if str_eq s "a" then some (replicas "5") else if str_eq s "b" then some (replicas "9") else none

abbrev pub print_sample : Fields → Option String
print_sample m = some "printed"
