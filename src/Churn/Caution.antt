-- ===== src/Churn/Caution.antt =====
-- What a level of churn recommends (pkg/hpa/churn/churn.go).
use kubectl_hpa_status.Prelude.{
  ◌≤◌, List, [], ◌∷◌, ◌++◌, ℤ, pos, ◌≤ℤ◌, ◌<ℤ◌, false, Option, none, some, length, All, true, leb_ℤ,
  ap, ◌≡◌, ◌≢◌, ◌⊎◌, inl, inr, refl, sym, subst, arith, if_rule,
}
use kubectl_hpa_status.Api.{
  Hpa, Behavior, ScalingRules, ScalingPolicy, PolicySelect, max_change, min_change, disabled,
}
use kubectl_hpa_status.Conditions.{
  effective_scale_down_window, next_scale_down_window, scale_down_window, or_default,
  window_of_behavior,
}
use kubectl_hpa_status.Conditions.Ladder.{next_window_climbs}
use kubectl_hpa_status.Health.Dynamic.{ChurnLevel, low, medium, high, critical}
use kubectl_hpa_status.Churn.Analysis.{
  ChurnRecommendation, raise_window, keep_disabled, keep_policies, limit_scale_down, window_advice,
  window_recommendation, policies_advice, scale_down_rules, is_disabled, policies_of, select_of,
  rules_of_behavior, rules_recommendation, policy_recommendation, churn_recommendations,
  level_from_score,
}

-- The rules behavior.scaleDown, where they are written.
abbrev pub down_rules : Option Hpa → Option ScalingRules
down_rules none = none
down_rules (some hpa) = elim hpa.behavior [ none ↦ none | some behavior ↦ behavior.scale_down ]

abbrev pub NoPolicies : Option (List ScalingPolicy) → Type 0
NoPolicies none = Unit
NoPolicies (some []) = Unit
NoPolicies (some (p ∷ ps)) = ⊥

-- There is no explicit policy that a new one could loosen.
abbrev pub HasNoPolicy : Option ScalingRules → Type 0
HasNoPolicy none = Unit
HasNoPolicy (some rules) = (rules.select_policy ≢ some disabled) × NoPolicies rules.policies

-- Scaling down is disabled.
abbrev pub IsDisabled : Option ScalingRules → Type 0
IsDisabled none = ⊥
IsDisabled (some rules) = rules.select_policy ≡ some disabled

-- The policies are the explicit ones, and the selection is theirs, or Max where none is written.
abbrev pub Has : PolicySelect → List ScalingPolicy → Option ScalingRules → Type 0
Has select policies none = ⊥
Has select policies (some rules) =
    (rules.policies ≡ some policies)
    × ((rules.select_policy ≡ some select) ⊎ ((rules.select_policy ≡ none) × (select ≡ max_change)))

-- The window in use: that of the rules, or else 300 seconds.
abbrev pub down_window : Option ScalingRules → ℤ
down_window none = pos 300
down_window (some rules) = elim rules.stabilization_window [ none ↦ pos 300 | some window ↦ window ]

-- A window only climbs from the one in use, to one hour at most; explicit policies and a disabled
-- scale-down are kept; and a policy is only recommended where there is none.
abbrev pub IsCautious : Option ScalingRules → ChurnRecommendation → Type 0
IsCautious rules (raise_window current recommended) =
    (current ≡ down_window rules) × (current <ℤ recommended) × (recommended ≤ℤ pos 3600)
IsCautious rules limit_scale_down = HasNoPolicy rules
IsCautious rules keep_disabled = IsDisabled rules
IsCautious rules (keep_policies select policies) = Has select policies rules

effective_window-down_window :
    (hpa : Option Hpa) → effective_scale_down_window hpa ≡ down_window (down_rules hpa)
unfolding effective_scale_down_window scale_down_window
effective_window-down_window none = refl
effective_window-down_window (some hpa) = of_behavior hpa.behavior
  where
    of_rules :
        (o : Option ScalingRules)
        → or_default (elim o [ none ↦ none | some rules ↦ rules.stabilization_window ])
          ≡ down_window o
    of_rules none = refl
    of_rules (some rules) =
        elim rules.stabilization_window
          as (λ w. or_default w ≡ (elim w as (λ x. ℤ) [ none ↦ pos 300 | some window ↦ window ])) [
            | none ↦ refl
            | some window ↦ refl
          ]

    of_behavior :
        (o : Option Behavior)
        → or_default (window_of_behavior o)
          ≡ down_window (elim o [ none ↦ none | some behavior ↦ behavior.scale_down ])
    of_behavior none = refl
    of_behavior (some behavior) = of_rules behavior.scale_down

scale_down_rules-down_rules : (hpa : Option Hpa) → scale_down_rules hpa ≡ down_rules hpa
unfolding scale_down_rules rules_of_behavior
scale_down_rules-down_rules none = refl
scale_down_rules-down_rules (some hpa) =
    elim hpa.behavior
      as (λ o. rules_of_behavior o ≡ (elim o as (λ x. Option ScalingRules) [
        | none ↦ none
        | some behavior ↦ behavior.scale_down
      ])) [ none ↦ refl | some behavior ↦ refl ]

disabled-is : (o : Option PolicySelect) → is_disabled o ≡ true → o ≡ some disabled
disabled-is none h = cc
disabled-is (some max_change) h = cc
disabled-is (some min_change) h = cc
disabled-is (some disabled) h = refl

enabled-not : (o : Option PolicySelect) → is_disabled o ≡ false → o ≢ some disabled
enabled-not o h e = cc (h, ap is_disabled e)

policies_advice-IsCautious :
    (rules : ScalingRules) (o : Option (List ScalingPolicy))
    → is_disabled rules.select_policy ≡ false
    → rules.policies ≡ o
    → IsCautious (some rules) (policies_advice rules.select_policy (policies_of o))
unfolding policies_advice
policies_advice-IsCautious rules none d p =
    (enabled-not rules.select_policy d, subst NoPolicies (sym p) tt)
policies_advice-IsCautious rules (some []) d p =
    (enabled-not rules.select_policy d, subst NoPolicies (sym p) tt)
policies_advice-IsCautious rules (some (q ∷ policies)) d p = (p, selected rules.select_policy)
  where
    selected :
        (o : Option PolicySelect)
        → (o ≡ some (select_of o)) ⊎ ((o ≡ none) × (select_of o ≡ max_change))
    selected none = inr (refl, refl)
    selected (some select) = inl refl

rules_recommendation-IsCautious :
    (rules : Option ScalingRules) → IsCautious rules (rules_recommendation rules)
unfolding rules_recommendation
rules_recommendation-IsCautious none = tt
rules_recommendation-IsCautious (some rules) =
    if_rule (IsCautious (some rules)) (is_disabled rules.select_policy)
      (λ d. disabled-is rules.select_policy d)
      (λ d. policies_advice-IsCautious rules rules.policies d refl)

window_advice-IsCautious :
    (rules : Option ScalingRules) (current : ℤ) (o : Option ℤ)
    → current ≡ down_window rules
    → next_scale_down_window current ≡ o
    → All (IsCautious rules) (window_advice current o)
unfolding window_advice
window_advice-IsCautious rules current none w e = tt
window_advice-IsCautious rules current (some v) w e =
    let (up, top) = next_window_climbs current v e in ((w, up, top), tt)

All-snoc :
    {A : Type 0} (P : A → Type 0) (xs : List A) (x : A) → All P xs → P x → All P (xs ++ (x ∷ []))
All-snoc P [] x h k = (k, tt)
All-snoc P (y ∷ xs) x h k = (h.0, All-snoc P xs x h.1 k)

policy-IsCautious :
    (hpa : Option Hpa) → IsCautious (down_rules hpa) (rules_recommendation (scale_down_rules hpa))
policy-IsCautious hpa =
    subst (λ r. IsCautious r (rules_recommendation (scale_down_rules hpa)))
      (scale_down_rules-down_rules hpa) (rules_recommendation-IsCautious (scale_down_rules hpa))

window-IsCautious :
    (hpa : Option Hpa) → All (IsCautious (down_rules hpa)) (window_recommendation hpa)
unfolding window_recommendation
window-IsCautious hpa =
    window_advice-IsCautious (down_rules hpa) (effective_scale_down_window hpa) _
      (effective_window-down_window hpa) refl

-- Every recommendation is cautious.
pub churn_recommendations-IsCautious :
    (level : ChurnLevel) (hpa : Option Hpa)
    → All (IsCautious (down_rules hpa)) (churn_recommendations level hpa)
unfolding churn_recommendations policy_recommendation
churn_recommendations-IsCautious low hpa = tt
churn_recommendations-IsCautious medium hpa = window-IsCautious hpa
churn_recommendations-IsCautious high hpa =
    All-snoc (IsCautious (down_rules hpa)) _ _ (window-IsCautious hpa) (policy-IsCautious hpa)
churn_recommendations-IsCautious critical hpa =
    All-snoc (IsCautious (down_rules hpa)) _ _ (window-IsCautious hpa) (policy-IsCautious hpa)

-- The scores of a level.
abbrev pub IsLevel : ChurnLevel → ℤ → Type 0
IsLevel low score = score ≤ℤ pos 25
IsLevel medium score = (pos 25 <ℤ score) × (score ≤ℤ pos 50)
IsLevel high score = (pos 50 <ℤ score) × (score ≤ℤ pos 75)
IsLevel critical score = pos 75 <ℤ score

pub level_from_score-IsLevel : (score : ℤ) → IsLevel (level_from_score score) score
unfolding level_from_score
level_from_score-IsLevel score =
    if_rule (λ l. IsLevel l score) (leb_ℤ score (pos 25)) (λ a. ground arith)
      (λ a.
        if_rule (λ l. IsLevel l score) (leb_ℤ score (pos 50)) (λ b. (ground arith, ground arith))
          (λ b.
            if_rule (λ l. IsLevel l score) (leb_ℤ score (pos 75))
              (λ c. (ground arith, ground arith)) (λ c. ground arith)))

-- How much a level recommends.
abbrev pub IsGraded : ChurnLevel → List ChurnRecommendation → Type 0
IsGraded low rs = rs ≡ []
IsGraded medium rs = length rs ≤ 1
IsGraded high rs = 1 ≤ length rs
IsGraded critical rs = 1 ≤ length rs

advice-short : (current : ℤ) (o : Option ℤ) → length (window_advice current o) ≤ 1
unfolding window_advice
advice-short current none = omega arith
advice-short current (some v) = omega arith

snoc-long : {A : Type 0} (xs : List A) (x : A) → 1 ≤ length (xs ++ (x ∷ []))
snoc-long [] x = omega arith
snoc-long (y ∷ xs) x = omega arith

pub churn_recommendations-IsGraded :
    (level : ChurnLevel) (hpa : Option Hpa) → IsGraded level (churn_recommendations level hpa)
unfolding churn_recommendations window_recommendation
churn_recommendations-IsGraded low hpa = refl
churn_recommendations-IsGraded medium hpa = advice-short _ _
churn_recommendations-IsGraded high hpa = snoc-long _ _
churn_recommendations-IsGraded critical hpa = snoc-long _ _
