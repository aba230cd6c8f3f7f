-- ===== src/Tests/Watch.antt =====
-- The events, the flapping, the conditions and the health score.
use mathlib.Core.List.{Perm, Permᴰ}
use kubectl_hpa_status.Prelude.{
  int_laws, arith, ◌*ℤ◌, int32, List, [], ◌∷◌, ℤ, pos, Bool, true, false, none, some, ◌≡◌, ◌⊎◌, ◌↔◌,
  refl, ◌-ℤ◌, ltb_ℤ, int64, if◌then◌else◌,
}
use kubectl_hpa_status.Conditions.{next_scale_down_window}
use kubectl_hpa_status.Api.{Hpa}
use kubectl_hpa_status.Events.Rescales.{
  groups, rescale_less, insert, sort, normalize_sorted, RescaleData, normalize_rescales,
}
use kubectl_hpa_status.Events.Groups.{In, Agree, Ascending}
use kubectl_hpa_status.Events.Normalized.{normalize_rescales-In}
use kubectl_hpa_status.Events.Permutation.{normalize_rescales-perm}
use kubectl_hpa_status.Events.Direction.{count_direction_flips}
use kubectl_hpa_status.Events.Flips.{turns, rises_of, count_direction_flips-eq-changes}
use kubectl_hpa_status.Health.Weights.{health_score_max, resolve_weights}
use kubectl_hpa_status.Health.Score.{
  new_accumulator, add_penalty, signals_state, apply_case, apply_condition_penalties, is_ok,
  has_condition, apply_max_replicas_ceiling_penalty, apply_minimum_penalty, accumulate, set_state,
  clamp_score, limited, stabilized, is_error, condition_case, health_state_from_signals,
  health_with_weights,
}
use kubectl_hpa_status.Health.Conservation.{total, score_accounts_signals}
use kubectl_hpa_status.Health.Severity.{at_ceiling, health_state_agrees}
use kubectl_hpa_status.Health.Dynamic.{
  Analysis, KedaInfo, high, apply_enrichment_penalties, apply_churn_penalty,
}
use kubectl_hpa_status.Health.Reconcile.{with_enrichment, reconcile_forgets}
use kubectl_hpa_status.Tests.Samples.{held_back, default_weights}

abbrev at : ℤ → ℤ → RescaleData
at timestamp new_size = record { timestamp = timestamp; new_size = new_size }

-- A duplicate at time 20, and two sizes at time 30.
abbrev observed : List RescaleData
observed =
    at (pos 20) (pos 5)
    ∷ at (pos 30) (pos 4)
    ∷ at (pos 10) (pos 3)
    ∷ at (pos 20) (pos 5)
    ∷ at (pos 30) (pos 6)
    ∷ []

normalize_observed : normalize_rescales observed ≡ at (pos 10) (pos 3) ∷ at (pos 20) (pos 5) ∷ []
unfolding normalize_rescales normalize_sorted sort insert rescale_less groups
normalize_observed = refl

normalize_rescales-In_example :
    (In (at (pos 20) (pos 5)) (normalize_rescales observed)
      ↔ (In (at (pos 20) (pos 5)) observed × Agree (at (pos 20) (pos 5)) observed))
    × Ascending (normalize_rescales observed)
normalize_rescales-In_example = normalize_rescales-In (at (pos 20) (pos 5)) observed

swapped_pair :
    Perm
      (at (pos 1) (pos 2) ∷ at (pos 3) (pos 4) ∷ [])
      (at (pos 3) (pos 4) ∷ at (pos 1) (pos 2) ∷ [])
swapped_pair = ∣ Permᴰ.swap refl refl ∣₁

normalize_rescales-perm_example :
    normalize_rescales (at (pos 1) (pos 2) ∷ at (pos 3) (pos 4) ∷ [])
    ≡ normalize_rescales (at (pos 3) (pos 4) ∷ at (pos 1) (pos 2) ∷ [])
normalize_rescales-perm_example =
    normalize_rescales-perm (at (pos 1) (pos 2) ∷ at (pos 3) (pos 4) ∷ [])
      (at (pos 3) (pos 4) ∷ at (pos 1) (pos 2) ∷ []) swapped_pair

abbrev sizes : List ℤ
sizes = pos 2 ∷ pos 5 ∷ pos 5 ∷ pos 3 ∷ pos 8 ∷ []

count_direction_flips-eq-changes_example : count_direction_flips sizes ≡ turns (rises_of sizes)
count_direction_flips-eq-changes_example = count_direction_flips-eq-changes sizes (
  (omega arith, omega int_laws),
  (
    (omega arith, omega int_laws),
    (
      (omega arith, omega int_laws),
      ((omega arith, omega int_laws), ((omega arith, omega int_laws), tt)),
    ),
  ),
)

next_window_six_hundred : next_scale_down_window (pos 300) ≡ some (pos 600)
unfolding next_scale_down_window int32 ◌*ℤ◌
next_window_six_hundred = refl

abbrev under_pressure : Hpa → Bool
under_pressure hpa = true

score_accounts_signals_example :
    let r = health_with_weights under_pressure (some held_back) (pos 2) default_weights in
    let left = int64 (health_score_max -ℤ total r.signals) in
    r.score ≡ (if ltb_ℤ left (pos 0) then pos 0 else left)
score_accounts_signals_example =
    score_accounts_signals under_pressure held_back (pos 2) default_weights

health_state_agrees_example :
    let r = health_with_weights under_pressure (some held_back) (pos 2) default_weights in
    (health_state_from_signals r.signals ≡ r.state)
    ⊎ ((at_ceiling under_pressure (resolve_weights default_weights) held_back ≡ true)
        × (r.state ≡ stabilized)
        × (health_state_from_signals r.signals ≡ limited))
health_state_agrees_example = health_state_agrees under_pressure held_back (pos 2) default_weights

-- The second case of the theorem occurs.
held_back_stabilized :
    (health_with_weights under_pressure (some held_back) (pos 2) default_weights).state ≡ stabilized
unfolding health_with_weights clamp_score set_state accumulate apply_minimum_penalty
    apply_max_replicas_ceiling_penalty has_condition is_ok apply_condition_penalties apply_case
    condition_case
held_back_stabilized = refl

held_back_limited :
    health_state_from_signals
      (health_with_weights under_pressure (some held_back) (pos 2) default_weights).signals
    ≡ limited
unfolding health_with_weights health_state_from_signals signals_state clamp_score set_state
    accumulate apply_minimum_penalty apply_max_replicas_ceiling_penalty has_condition add_penalty
    apply_condition_penalties apply_case condition_case new_accumulator is_error is_ok
held_back_limited = refl

abbrev keda_down : KedaInfo
keda_down = record { health_statuses = "failing" ∷ []; trigger_statuses = [] }

abbrev analysis : Analysis
analysis = record {
  health_score = pos 90;
  health = stabilized;
  health_result = none;
  baseline = none;
  keda_info = some keda_down;
  vpa_conflict = true;
  churn_level = none;
}

reconcile_forgets_example :
    apply_churn_penalty
      (with_enrichment (apply_enrichment_penalties analysis default_weights) none false (some high))
      default_weights
    ≡ apply_churn_penalty (with_enrichment analysis none false (some high)) default_weights
reconcile_forgets_example =
    reconcile_forgets analysis default_weights default_weights none false (some high)
