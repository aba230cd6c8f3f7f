-- ===== src/Health/Conservation.antt =====
-- The score accounts for the recorded signals.
use kubectl_hpa_status.Prelude.{
  List, [], ◌∷◌, ◌++◌, ℤ, pos, negsuc, Bool, not, ◌&&◌, ◌||◌, eqb_ℤ, ltb_ℤ, ◌+ℤ◌, ◌-ℤ◌, int64,
  String, some, arith, int_laws, ◌≡◌, inl, inr, refl, ap, Bool-cases, if◌then◌else◌,
}
use kubectl_hpa_status.Api.{Condition, Hpa}
use kubectl_hpa_status.Health.Weights.{
  HealthWeights, ResolvedWeights, resolve_weights, health_score_max,
}
use kubectl_hpa_status.Health.Score.{
  HealthState, ok, HealthSignal, HealthResult, new_accumulator, add_penalty, set_state,
  has_condition, ConditionCase, scaling_inactive, unable_to_scale, scaling_limited,
  scale_down_stabilized, harmless, condition_case, apply_case, apply_condition_penalties,
  apply_max_replicas_ceiling_penalty, apply_minimum_penalty, accumulate, clamp_score,
  health_with_weights,
}

pub total : List HealthSignal → ℤ
total [] = pos 0
total (s ∷ rest) = s.penalty +ℤ total rest

int64_sub : (a b : ℤ) → int64 (int64 a -ℤ b) ≡ int64 (a -ℤ b)
unfolding int64 ◌-ℤ◌
int64_sub (pos a) (pos b) = ground arith
int64_sub (pos a) (negsuc b) = ground arith
int64_sub (negsuc a) (pos b) = ground arith
int64_sub (negsuc a) (negsuc b) = ground arith

total-append :
    (xs : List HealthSignal) (s : HealthSignal) → total (xs ++ s ∷ []) ≡ total xs +ℤ s.penalty
unfolding total
total-append [] s = omega int_laws
total-append (x ∷ xs) s = rw (total-append xs s) (omega int_laws)

sub_sub : (a b c : ℤ) → a -ℤ b -ℤ c ≡ a -ℤ (b +ℤ c)
sub_sub a b c = omega int_laws

-- The score is what 100 less the penalties of the recorded signals leaves in an int.
abbrev Accounts : HealthResult → Type 0
Accounts acc = acc.score ≡ int64 (health_score_max -ℤ total acc.signals)

add_penalty-Accounts :
    (acc : HealthResult) (reason : String) (penalty : ℤ) (severity : HealthState)
    → Accounts acc
    → Accounts (add_penalty acc reason penalty severity)
unfolding add_penalty
add_penalty-Accounts acc reason penalty severity h = rw (h, total-append, int64_sub, sub_sub)

apply_case-Accounts :
    (w : ResolvedWeights) (c : ConditionCase) (s : HealthResult × HealthState)
    → Accounts s.0
    → Accounts (apply_case w c s).0
unfolding apply_case
apply_case-Accounts w scaling_inactive (acc, health) h = add_penalty-Accounts acc _ _ _ h
apply_case-Accounts w unable_to_scale (acc, health) h = add_penalty-Accounts acc _ _ _ h
apply_case-Accounts w scaling_limited (acc, health) h = add_penalty-Accounts acc _ _ _ h
apply_case-Accounts w scale_down_stabilized (acc, health) h = add_penalty-Accounts acc _ _ _ h
apply_case-Accounts w harmless (acc, health) h = h

apply_condition_penalties-Accounts :
    (w : ResolvedWeights) (cs : List Condition) (s : HealthResult × HealthState)
    → Accounts s.0
    → Accounts (apply_condition_penalties w cs s).0
unfolding apply_condition_penalties
apply_condition_penalties-Accounts w [] s h = h
apply_condition_penalties-Accounts w (c ∷ cs) s h =
    apply_condition_penalties-Accounts w cs (apply_case w (condition_case c) s)
      (apply_case-Accounts w (condition_case c) s h)

module _ (above_target : Hpa → Bool) (w : ResolvedWeights) (hpa : Hpa) where
  ceiling-Accounts :
      (s : HealthResult × HealthState)
      → Accounts s.0
      → Accounts (apply_max_replicas_ceiling_penalty above_target w hpa s).0
  unfolding apply_max_replicas_ceiling_penalty
  ceiling-Accounts (acc, health) h =
      elim (Bool-cases (eqb_ℤ hpa.desired_replicas hpa.max_replicas)) [
        | inl e ↦
            elim (Bool-cases
              (has_condition hpa.conditions "ScalingLimited" "True" || not (above_target hpa))) [
                | inl f ↦ rw (e, f) h
                | inr f ↦ rw (e, f) (add_penalty-Accounts acc _ _ _ h)
              ]
        | inr e ↦ rw e h
      ]

  minimum-Accounts :
      (min_replicas : ℤ) (s : HealthResult × HealthState)
      → Accounts s.0
      → Accounts (apply_minimum_penalty w hpa min_replicas s).0
  unfolding apply_minimum_penalty
  minimum-Accounts min_replicas (acc, health) h =
      elim (Bool-cases (
        eqb_ℤ hpa.desired_replicas min_replicas
        && has_condition hpa.conditions "ScalingLimited" "True")) [
          | inl e ↦ rw e (add_penalty-Accounts acc _ _ _ h)
          | inr e ↦ rw e h
        ]

  accumulate-Accounts : (min_replicas : ℤ) → Accounts (accumulate above_target w hpa min_replicas).0
  unfolding accumulate
  accumulate-Accounts min_replicas = minimum-Accounts min_replicas _ (
      ceiling-Accounts _ (
        apply_condition_penalties-Accounts w hpa.conditions (new_accumulator health_score_max, ok)
          (unfold new_accumulator total int64 ◌-ℤ◌ in refl)))

-- The score of an HPA is 100 less the penalties of the signals that are reported with it, as an
-- int, and 0 where that is negative.
pub score_accounts_signals :
    (above_target : Hpa → Bool) (hpa : Hpa) (min_replicas : ℤ) (weights : HealthWeights)
    → let r = health_with_weights above_target (some hpa) min_replicas weights in
      let left = int64 (health_score_max -ℤ total r.signals) in
      r.score ≡ (if ltb_ℤ left (pos 0) then pos 0 else left)
unfolding health_with_weights clamp_score set_state
score_accounts_signals above_target hpa min_replicas weights =
    ap (λ score. if ltb_ℤ score (pos 0) then pos 0 else score)
      (accumulate-Accounts above_target (resolve_weights weights) hpa min_replicas)
