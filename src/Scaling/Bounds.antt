-- ===== src/Scaling/Bounds.antt =====
-- What the policies guarantee, whatever the float64 arithmetic of the percentage rule rounds to.
use kubectl_hpa_status.Prelude.{
  List, [], ◌∷◌, ℤ, pos, Bool, true, false, max_ℤ, min_ℤ, max_int32, ◌≤ℤ◌, arith, ◌≡◌, ◌↔◌, ◌⊎◌,
  Option, none, some,
}
use kubectl_hpa_status.Api.{ScalingPolicy, other, PolicySelect, disabled}
use kubectl_hpa_status.Scaling.Policy.{
  Float64, Event, clamp_candidate, candidate_of, clamp_option, replica_limit, policy_candidate,
  toward, keep_selected, limit_loop, limit,
}

-- Between the current count and no further than the direction allows.
abbrev pub Toward : Bool → ℤ → ℤ → Type 0
Toward true current result = current ≤ℤ result
Toward false current result = result ≤ℤ current

abbrev pub TowardOption : Bool → ℤ → Option ℤ → Type 0
TowardOption scale_up current none = Unit
TowardOption scale_up current (some result) = Toward scale_up current result

toward-Toward :
    (current : ℤ) (scale_up : Bool) (o : Option ℤ)
    → TowardOption scale_up current (toward current scale_up o)
unfolding toward max_ℤ min_ℤ
toward-Toward current true none = tt
toward-Toward current false none = tt
toward-Toward current true (some c) = ground arith
toward-Toward current false (some c) = ground arith

keep_selected-Toward :
    (scale_up : Bool) (select : PolicySelect) (current : ℤ) (selected candidate : Option ℤ)
    → TowardOption scale_up current selected
    → TowardOption scale_up current candidate
    → TowardOption scale_up current (keep_selected scale_up select selected candidate)
unfolding keep_selected max_ℤ min_ℤ
keep_selected-Toward scale_up select current selected none h k = h
keep_selected-Toward scale_up select current none (some c) h k = k
keep_selected-Toward true select current (some b) (some c) h k = ground arith
keep_selected-Toward false select current (some b) (some c) h k = ground arith

clamp_candidate_bounds : (c : ℤ) → (pos 0 ≤ℤ clamp_candidate c) × (clamp_candidate c ≤ℤ max_int32)
unfolding clamp_candidate
clamp_candidate_bounds c = ground arith

clamp_option_bounds :
    (o : Option ℤ) (r : ℤ) → clamp_option o ≡ some r → (pos 0 ≤ℤ r) × (r ≤ℤ max_int32)
clamp_option_bounds none r h = cc
clamp_option_bounds (some c) r h = ground (arith, clamp_candidate_bounds c)

module _ (F : Float64) where
  policy_candidate-Toward :
      (current : ℤ) (scale_up : Bool) (now : ℤ) (history : List Event) (policy : ScalingPolicy)
      → TowardOption scale_up current (policy_candidate F current scale_up now history policy)
  unfolding policy_candidate
  policy_candidate-Toward current scale_up now history policy = toward-Toward current scale_up _

  limit_loop-Toward :
      (current : ℤ) (scale_up : Bool) (select : PolicySelect) (now : ℤ) (history : List Event)
      (selected : Option ℤ) (policies : List ScalingPolicy)
      → TowardOption scale_up current selected
      → TowardOption scale_up current
          (limit_loop F current scale_up select now history selected policies)
  unfolding limit_loop
  limit_loop-Toward current scale_up select now history selected [] h = h
  limit_loop-Toward current scale_up select now history selected (policy ∷ policies) h =
      limit_loop-Toward current scale_up select now history
        (keep_selected scale_up select selected
          (policy_candidate F current scale_up now history policy))
        policies
        (keep_selected-Toward scale_up select current selected _ h
          (policy_candidate-Toward current scale_up now history policy))

  -- Whatever the policies, the selection rule and the history, and whatever the float64
  -- arithmetic of the percentage rule returns, a limit for scaling up is never below the current
  -- count, and a limit for scaling down is never above it.
  pub limit-Toward :
      (current : ℤ) (scale_up : Bool) (select : PolicySelect) (policies : List ScalingPolicy)
      (now : ℤ) (history : List Event)
      → TowardOption scale_up current (limit F current scale_up select policies now history)
  unfolding limit
  limit-Toward current true disabled policies now history = omega arith
  limit-Toward current false disabled policies now history = omega arith
  limit-Toward current scale_up select policies now history =
      limit_loop-Toward current scale_up select now history none policies tt

  -- A policy gives no replica count exactly when its value is not positive or its type is unknown.
  pub replica_limit-eq-none :
      (current : ℤ) (scale_up : Bool) (policy : ScalingPolicy)
      → (replica_limit F current scale_up policy ≡ none)
        ↔ ((policy.value ≤ℤ pos 0) ⊎ (policy.kind ≡ other))
  unfolding replica_limit candidate_of
  replica_limit-eq-none current scale_up policy = (λ h. ground arith, λ h. ground arith)

  -- A replica count that a policy gives is an int32 that is not negative: neither the int64 sum nor
  -- the conversion of the float64 product is passed on out of range.
  pub replica_limit_bounds :
      (current : ℤ) (scale_up : Bool) (policy : ScalingPolicy) (r : ℤ)
      → replica_limit F current scale_up policy ≡ some r
      → (pos 0 ≤ℤ r) × (r ≤ℤ max_int32)
  unfolding replica_limit
  replica_limit_bounds current scale_up policy r h =
      clamp_option_bounds (candidate_of F current scale_up policy policy.kind) r (ground arith)
