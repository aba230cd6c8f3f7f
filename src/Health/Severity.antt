-- ===== src/Health/Severity.antt =====
-- The health state against the severities of the recorded signals and against the conditions.
use kubectl_hpa_status.Prelude.{
  List, [], ◌∷◌, ◌++◌, ℤ, Bool, true, false, not, ◌&&◌, ◌||◌, eqb_ℤ, String, some, arith, ◌≡◌, ◌⊎◌,
  inl, inr, refl, ◌∙◌, ap, Bool-cases, any, if◌then◌else◌,
}
use kubectl_hpa_status.Api.{Condition, Hpa}
use kubectl_hpa_status.Health.Weights.{
  HealthWeights, ResolvedWeights, resolve_weights, health_score_max,
}
use kubectl_hpa_status.Health.Score.{
  HealthState, ok, warning, unrecognised, error, limited, stabilized, is_ok, is_error, HealthSignal,
  HealthResult, new_accumulator, add_penalty, set_state, has_condition, ConditionCase,
  scaling_inactive, unable_to_scale, scaling_limited, scale_down_stabilized, harmless,
  condition_case, apply_case, apply_condition_penalties, apply_max_replicas_ceiling_penalty,
  apply_minimum_penalty, accumulate, clamp_score, health_with_weights, by_severity, signals_state,
  health_state_from_signals,
}

-- How one more signal changes the state that the signals give.
abbrev combine : HealthState → HealthState → HealthState
combine state error = error
combine state limited = if is_error state then state else limited
combine state stabilized = if is_ok state then stabilized else state
combine state _ = state

error-combine : (severity : HealthState) → error ≡ combine error severity
unfolding is_error is_ok
error-combine limited = refl
error-combine _ = refl

by_severity-combine :
    (severity state last : HealthState) (f g : HealthState → HealthState)
    → ((next : HealthState) → f next ≡ combine (g next) last)
    → by_severity severity state f ≡ combine (by_severity severity state g) last
by_severity-combine error state last f g h = error-combine last
by_severity-combine _ state last f g h = h _

signals_state-append :
    (state : HealthState) (xs : List HealthSignal) (s : HealthSignal)
    → signals_state state (xs ++ s ∷ []) ≡ combine (signals_state state xs) s.severity
unfolding signals_state
signals_state-append state [] s = one s.severity
  where
    one :
        (severity : HealthState)
        → by_severity severity state (λ next. next) ≡ combine state severity
    one limited = refl
    one _ = refl
signals_state-append state (x ∷ xs) s =
    by_severity-combine x.severity state s.severity (λ next. signals_state next (xs ++ s ∷ []))
      (λ next. signals_state next xs) (λ next. signals_state-append next xs s)

-- The state reached so far is the one that the recorded signals give.
abbrev Agrees : HealthResult × HealthState → Type 0
Agrees s = health_state_from_signals s.0.signals ≡ s.1

add_penalty-combine :
    (acc : HealthResult) (reason : String) (penalty : ℤ) (severity : HealthState)
    → health_state_from_signals (add_penalty acc reason penalty severity).signals
      ≡ combine (health_state_from_signals acc.signals) severity
unfolding add_penalty health_state_from_signals
add_penalty-combine acc reason penalty severity = signals_state-append ok acc.signals _

add_penalty-state :
    (acc : HealthResult) (health : HealthState) (reason : String) (penalty : ℤ)
    (severity : HealthState)
    → Agrees (acc, health)
    → health_state_from_signals (add_penalty acc reason penalty severity).signals
      ≡ combine health severity
add_penalty-state acc health reason penalty severity h =
    add_penalty-combine acc reason penalty severity ∙ ap (λ s. combine s severity) h

stay_limited :
    {s health : HealthState} → health ≡ stabilized → s ≡ limited → combine s health ≡ limited
unfolding is_ok
stay_limited e f = rw (e, f)

apply_case-Agrees :
    (w : ResolvedWeights) (c : ConditionCase) (acc : HealthResult) (health : HealthState)
    → Agrees (acc, health)
    → Agrees (apply_case w c (acc, health))
unfolding apply_case
apply_case-Agrees w harmless acc health h = h
apply_case-Agrees w _ acc health h = add_penalty-state acc health _ _ _ h

apply_condition_penalties-Agrees :
    (w : ResolvedWeights) (cs : List Condition) (s : HealthResult × HealthState)
    → Agrees s
    → Agrees (apply_condition_penalties w cs s)
unfolding apply_condition_penalties
apply_condition_penalties-Agrees w [] s h = h
apply_condition_penalties-Agrees w (c ∷ cs) (acc, health) h =
    apply_condition_penalties-Agrees w cs (apply_case w (condition_case c) (acc, health))
      (apply_case-Agrees w (condition_case c) acc health h)

-- The states that HealthWithWeights computes.
abbrev IsComputed : HealthState → Type 0
IsComputed warning = ⊥
IsComputed (unrecognised s) = ⊥
IsComputed _ = Unit

IsComputed-if :
    (b : Bool) (x y : HealthState) → IsComputed x → IsComputed y → IsComputed (if b then x else y)
IsComputed-if true x y h k = h
IsComputed-if false x y h k = k

apply_case-IsComputed :
    (w : ResolvedWeights) (c : ConditionCase) (s : HealthResult × HealthState)
    → IsComputed s.1
    → IsComputed (apply_case w c s).1
unfolding apply_case
apply_case-IsComputed w scaling_inactive (acc, health) h = tt
apply_case-IsComputed w unable_to_scale (acc, health) h = tt
apply_case-IsComputed w scaling_limited (acc, health) h =
    IsComputed-if (is_error health) health limited h tt
apply_case-IsComputed w scale_down_stabilized (acc, health) h =
    IsComputed-if (is_ok health) stabilized health tt h
apply_case-IsComputed w harmless (acc, health) h = h

apply_condition_penalties-IsComputed :
    (w : ResolvedWeights) (cs : List Condition) (s : HealthResult × HealthState)
    → IsComputed s.1
    → IsComputed (apply_condition_penalties w cs s).1
unfolding apply_condition_penalties
apply_condition_penalties-IsComputed w [] s h = h
apply_condition_penalties-IsComputed w (c ∷ cs) s h =
    apply_condition_penalties-IsComputed w cs (apply_case w (condition_case c) s)
      (apply_case-IsComputed w (condition_case c) s h)

combine_self : (health : HealthState) → combine health health ≡ health
unfolding is_error is_ok
combine_self limited = refl
combine_self _ = refl

ceiling_case :
    (health : HealthState) {x : HealthState}
    → x ≡ combine health limited
    → IsComputed health
    → (x ≡ (if is_ok health then limited else health))
      ⊎ ((true ≡ true) × ((if is_ok health then limited else health) ≡ stabilized) × (x ≡ limited))
unfolding is_ok is_error
ceiling_case ok e c = inl e
ceiling_case error e c = inl e
ceiling_case limited e c = inl e
ceiling_case stabilized e c = inr (refl, refl, e)
ceiling_case warning e c = absurd c
ceiling_case (unrecognised s) e c = absurd c

module _ (above_target : Hpa → Bool) (w : ResolvedWeights) (hpa : Hpa) where
  -- The ceiling penalty applies: capped at maxReplicas under pressure, with no condition saying so.
  abbrev pub at_ceiling : Bool
  at_ceiling =
      eqb_ℤ hpa.desired_replicas hpa.max_replicas
      && not (has_condition hpa.conditions "ScalingLimited" "True" || not (above_target hpa))

  -- A stabilized HPA at the ceiling keeps its state, and the ceiling's signal says LIMITED.
  abbrev AgreesBut : HealthResult × HealthState → Type 0
  AgreesBut s =
      Agrees s
      ⊎ ((at_ceiling ≡ true)
          × (s.1 ≡ stabilized)
          × (health_state_from_signals s.0.signals ≡ limited))

  ceiling-AgreesBut :
      (s : HealthResult × HealthState)
      → Agrees s
      → IsComputed s.1
      → AgreesBut (apply_max_replicas_ceiling_penalty above_target w hpa s)
  unfolding apply_max_replicas_ceiling_penalty
  ceiling-AgreesBut (acc, health) h c =
      elim (Bool-cases (eqb_ℤ hpa.desired_replicas hpa.max_replicas)) [
        | inl e ↦
            elim (Bool-cases
              (has_condition hpa.conditions "ScalingLimited" "True" || not (above_target hpa))) [
                | inl f ↦ rw (e, f) (inl h)
                | inr f ↦
                    rw (e, f) (ceiling_case health (add_penalty-state acc health _ _ limited h) c)
              ]
        | inr e ↦ rw e (inl h)
      ]

  minimum-AgreesBut :
      (min_replicas : ℤ) (s : HealthResult × HealthState)
      → AgreesBut s
      → AgreesBut (apply_minimum_penalty w hpa min_replicas s)
  unfolding apply_minimum_penalty
  minimum-AgreesBut min_replicas (acc, health) h =
      elim (Bool-cases (
        eqb_ℤ hpa.desired_replicas min_replicas
        && has_condition hpa.conditions "ScalingLimited" "True")) [
          | inl e ↦ rw e (at_minimum h)
          | inr e ↦ rw e h
        ]
    where
      at_minimum :
          AgreesBut (acc, health)
          → AgreesBut (
            add_penalty acc "At minimum replicas with ScalingLimited" w.at_minimum_replicas health,
            health,
          )
      at_minimum (inl a) = inl (add_penalty-state acc health _ _ health a ∙ combine_self health)
      at_minimum (inr b) = inr (b.0, b.1, add_penalty-combine acc _ _ health ∙ stay_limited b.1 b.2)

  accumulate-AgreesBut : (min_replicas : ℤ) → AgreesBut (accumulate above_target w hpa min_replicas)
  unfolding accumulate
  accumulate-AgreesBut min_replicas = minimum-AgreesBut min_replicas _ (
      ceiling-AgreesBut _ (apply_condition_penalties-Agrees w hpa.conditions _ start)
        (apply_condition_penalties-IsComputed w hpa.conditions _ tt))
    where
      start : Agrees (new_accumulator health_score_max, ok)
      start = unfold new_accumulator health_state_from_signals signals_state in refl

-- The reported state is the one that the reported signals give, but for one case: an HPA that is
-- capped at maxReplicas under pressure, without the condition ScalingLimited, and that the
-- stabilization window holds back, stays STABILIZED while its signals give LIMITED.
pub health_state_agrees :
    (above_target : Hpa → Bool) (hpa : Hpa) (min_replicas : ℤ) (weights : HealthWeights)
    → let r = health_with_weights above_target (some hpa) min_replicas weights in
      (health_state_from_signals r.signals ≡ r.state)
      ⊎ ((at_ceiling above_target (resolve_weights weights) hpa ≡ true)
          × (r.state ≡ stabilized)
          × (health_state_from_signals r.signals ≡ limited))
unfolding health_with_weights clamp_score set_state
health_state_agrees above_target hpa min_replicas weights =
    accumulate-AgreesBut above_target (resolve_weights weights) hpa min_replicas

-- Some condition is one that makes the HPA an error.
abbrev pub breaks : ConditionCase → Bool
breaks scaling_inactive = true
breaks unable_to_scale = true
breaks _ = false

apply_case_error :
    (w : ResolvedWeights) (c : ConditionCase) (s : HealthResult × HealthState)
    → is_error (apply_case w c s).1 ≡ (is_error s.1 || breaks c)
unfolding apply_case is_error is_ok
apply_case_error w c (acc, health) = ground arith

apply_condition_penalties_error :
    (w : ResolvedWeights) (cs : List Condition) (s : HealthResult × HealthState)
    → is_error (apply_condition_penalties w cs s).1
      ≡ (is_error s.1 || any (λ c. breaks (condition_case c)) cs)
unfolding apply_condition_penalties
apply_condition_penalties_error w [] s = ground arith
apply_condition_penalties_error w (c ∷ cs) s = ground (
  arith,
  apply_condition_penalties_error w cs (apply_case w (condition_case c) s),
  apply_case_error w (condition_case c) s,
)

ceiling_error :
    (above_target : Hpa → Bool) (w : ResolvedWeights) (hpa : Hpa) (s : HealthResult × HealthState)
    → is_error (apply_max_replicas_ceiling_penalty above_target w hpa s).1 ≡ is_error s.1
unfolding apply_max_replicas_ceiling_penalty is_error is_ok
ceiling_error above_target w hpa (acc, health) = ground arith

minimum_error :
    (w : ResolvedWeights) (hpa : Hpa) (min_replicas : ℤ) (s : HealthResult × HealthState)
    → is_error (apply_minimum_penalty w hpa min_replicas s).1 ≡ is_error s.1
unfolding apply_minimum_penalty
minimum_error w hpa min_replicas (acc, health) =
    elim (Bool-cases (
      eqb_ℤ hpa.desired_replicas min_replicas
      && has_condition hpa.conditions "ScalingLimited" "True")) [ inl e ↦ rw e | inr e ↦ rw e ]

-- An HPA is reported as ERROR exactly when one of its conditions says that ScalingActive or
-- AbleToScale is not True, whatever the order of the conditions and the weights.
pub health_error_iff :
    (above_target : Hpa → Bool) (hpa : Hpa) (min_replicas : ℤ) (weights : HealthWeights)
    → is_error (health_with_weights above_target (some hpa) min_replicas weights).state
      ≡ any (λ c. breaks (condition_case c)) hpa.conditions
unfolding health_with_weights clamp_score set_state accumulate
health_error_iff above_target hpa min_replicas weights =
    let w = resolve_weights weights in
    let s = apply_condition_penalties w hpa.conditions (new_accumulator health_score_max, ok) in
    minimum_error w hpa min_replicas (apply_max_replicas_ceiling_penalty above_target w hpa s)
    ∙ ceiling_error above_target w hpa s
    ∙ (unfold is_error in
        apply_condition_penalties_error w hpa.conditions (new_accumulator health_score_max, ok))
