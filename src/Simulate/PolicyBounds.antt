-- ===== src/Simulate/PolicyBounds.antt =====
-- What the normalisation of a desired count keeps.
use kubectl_hpa_status.Prelude.{ℤ, false, ◌≤ℤ◌, Option, none, some, arith, ◌≡◌, ◌↔◌, ◌⊎◌}
use kubectl_hpa_status.Api.{Behavior}
use kubectl_hpa_status.Scaling.Policy.{Float64}
use kubectl_hpa_status.Simulate.Policy.{normalize_desired, desired_within_range}

-- The simulated count is reported as limited exactly when it differs from the desired count, and
-- the reason is DesiredWithinRange exactly when it does not.
pub normalize_desired-limited :
    (F : Float64) (behavior : Option Behavior) (current desired min_replicas max_replicas : ℤ)
    → let n = normalize_desired F behavior current desired min_replicas max_replicas in
      ((n.limited ≡ false) ↔ (n.desired ≡ desired))
      × ((n.limited ≡ false) ↔ (n.reason ≡ desired_within_range))
unfolding normalize_desired
normalize_desired-limited F none current desired min_replicas max_replicas =
    ((λ h. ground arith, λ h. ground arith), (λ h. ground arith, λ h. ground arith))
normalize_desired-limited F (some behavior) current desired min_replicas max_replicas =
    ((λ h. ground arith, λ h. ground arith), (λ h. ground arith, λ h. ground arith))

-- With a behavior, and with a current count within the bounds, the simulated count lies within the
-- bounds, and it lies between the current count and the desired one.
pub normalize_desired_between :
    (F : Float64) (behavior : Behavior) (current desired min_replicas max_replicas : ℤ)
    → min_replicas ≤ℤ current
    → current ≤ℤ max_replicas
    → let n = normalize_desired F (some behavior) current desired min_replicas max_replicas in
      (min_replicas ≤ℤ n.desired)
      × (n.desired ≤ℤ max_replicas)
      × (((current ≤ℤ n.desired) × (n.desired ≤ℤ desired))
          ⊎ ((desired ≤ℤ n.desired) × (n.desired ≤ℤ current)))
unfolding normalize_desired
normalize_desired_between F behavior current desired min_replicas max_replicas h k =
    (ground arith, ground arith, ground arith)
