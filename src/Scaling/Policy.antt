-- ===== src/Scaling/Policy.antt =====
-- pkg/hpa/scaling/policy.go. Replica counts are int32, and times are int64.
-- Go's float64 enters as the interface `Float64`, by the operations that the percentage rule calls.
use kubectl_hpa_status.Prelude.{
  List, [], ◌∷◌, ℤ, pos, Bool, true, false, ◌&&◌, ltb_ℤ, leb_ℤ, ◌+ℤ◌, ◌-ℤ◌, max_ℤ, min_ℤ, max_int32,
  int32, int64, Option, none, some, if◌then◌else◌, not,
}
use kubectl_hpa_status.Api.{
  PolicyType, pods, percent, other, ScalingPolicy, PolicySelect, min_change, disabled,
}

pub record Float64 : Type 1 where
  pub Carrier : Type 0
  pub of_int : ℤ → Carrier
  pub add : Carrier → Carrier → Carrier
  pub sub : Carrier → Carrier → Carrier
  pub mul : Carrier → Carrier → Carrier
  pub div : Carrier → Carrier → Carrier
  pub ceil : Carrier → Carrier
  -- the conversion int64(x)
  pub to_int64 : Carrier → ℤ

unfoldable pub default_policies : Bool → List ScalingPolicy
default_policies false = record { kind = percent; value = pos 100; period_seconds = pos 15 } ∷ []
default_policies true =
    record { kind = pods; value = pos 4; period_seconds = pos 15 }
    ∷ record { kind = percent; value = pos 100; period_seconds = pos 15 }
    ∷ []

-- The last step of ReplicaLimit: candidate > MaxInt32, candidate < 0.
unfoldable pub clamp_candidate : ℤ → ℤ
clamp_candidate candidate =
    let capped = if ltb_ℤ max_int32 candidate then max_int32 else candidate in
    if ltb_ℤ capped (pos 0) then pos 0 else capped

abbrev pub clamp_option : Option ℤ → Option ℤ
clamp_option none = none
clamp_option (some candidate) = some (clamp_candidate candidate)

-- A projected replica change.
pub record Event : Type 0 where
  pub time_seconds : ℤ
  pub change : ℤ

abbrev pub is_min_change : PolicySelect → Bool
is_min_change min_change = true
is_min_change _ = false

abbrev pub bool_eq : Bool → Bool → Bool
bool_eq true b = b
bool_eq false b = not b

unfoldable pub toward : ℤ → Bool → Option ℤ → Option ℤ
toward current scale_up none = none
toward current scale_up (some candidate) =
    some (if scale_up then max_ℤ current candidate else min_ℤ current candidate)

-- The end of the loop's body: the first candidate is taken, a later one by the selection rule.
unfoldable pub keep_selected : Bool → PolicySelect → Option ℤ → Option ℤ → Option ℤ
keep_selected scale_up select selected none = selected
keep_selected scale_up select none (some candidate) = some candidate
keep_selected scale_up select (some best) (some candidate) = some (
    if bool_eq scale_up (not (is_min_change select))
    then max_ℤ best candidate
    else min_ℤ best candidate)

module _ (F : Float64) where
  open F use {Carrier, of_int, add, sub, mul, div, ceil, to_int64}

  -- int64(math.Ceil(float64(current) * multiplier))
  unfoldable pub percent_candidate : ℤ → Bool → ℤ → ℤ
  percent_candidate current scale_up value =
      let share = div (of_int value) (of_int (pos 100)) in
      let multiplier =
        if scale_up then add (of_int (pos 1)) share else sub (of_int (pos 1)) share in
      to_int64 (ceil (mul (of_int current) multiplier))

  -- The `switch` on the policy's type.
  unfoldable pub candidate_of : ℤ → Bool → ScalingPolicy → PolicyType → Option ℤ
  candidate_of current scale_up policy pods =
      some (int64 (if scale_up then current +ℤ policy.value else current -ℤ policy.value))
  candidate_of current scale_up policy percent =
      some (percent_candidate current scale_up policy.value)
  candidate_of current scale_up policy other = none

  unfoldable pub replica_limit : ℤ → Bool → ScalingPolicy → Option ℤ
  unfolding clamp_candidate
  replica_limit current scale_up policy =
      if leb_ℤ policy.value (pos 0)
      then none
      else clamp_option (candidate_of current scale_up policy policy.kind)

  -- event.TimeSeconds > now-int64(policy.PeriodSeconds) && event.TimeSeconds <= now
  unfoldable pub in_period : ℤ → ℤ → Event → Bool
  in_period now period event =
      ltb_ℤ (int64 (now -ℤ period)) event.time_seconds && leb_ℤ event.time_seconds now

  unfoldable pub period_baseline : ℤ → ℤ → ℤ → List Event → ℤ
  unfolding in_period
  period_baseline baseline now period [] = baseline
  period_baseline baseline now period (event ∷ history) =
      period_baseline
        (if in_period now period event then int64 (baseline -ℤ event.change) else baseline) now
        period history

  -- One policy's candidate, kept on the side of `current` that the direction allows.
  unfoldable pub policy_candidate : ℤ → Bool → ℤ → List Event → ScalingPolicy → Option ℤ
  policy_candidate current scale_up now history policy =
      let baseline =
        max_ℤ (pos 0)
          (min_ℤ (period_baseline current now policy.period_seconds history) max_int32) in
      toward current scale_up (replica_limit (int32 baseline) scale_up policy)

  -- The loop over the policies. `selected` is `none` while Go's `found` is false.
  unfoldable pub limit_loop :
      ℤ → Bool → PolicySelect → ℤ → List Event → Option ℤ → List ScalingPolicy → Option ℤ
  limit_loop current scale_up select now history selected [] = selected
  limit_loop current scale_up select now history selected (policy ∷ policies) =
      limit_loop current scale_up select now history
        (keep_selected scale_up select selected
          (policy_candidate current scale_up now history policy))
        policies

  unfoldable pub limit : ℤ → Bool → PolicySelect → List ScalingPolicy → ℤ → List Event → Option ℤ
  limit current scale_up disabled policies now history = some current
  limit current scale_up select policies now history =
      limit_loop current scale_up select now history none policies
