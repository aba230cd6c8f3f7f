-- ===== src/Conditions.antt =====
-- pkg/hpa/internal/conditions/conditions.go: condition lookup and the stabilization-window ladder.
pub mod Ladder
use kubectl_hpa_status.Prelude.{
  List, [], ◌∷◌, ℤ, pos, ◌||◌, ltb_ℤ, leb_ℤ, ◌*ℤ◌, int32, Option, none, some, String, str_eq,
  if◌then◌else◌,
}
use kubectl_hpa_status.Api.{Condition, Hpa, Behavior}

abbrev pub default_scale_down_window : ℤ
default_scale_down_window = pos 300

abbrev pub maximum_window : ℤ
maximum_window = pos 3600

unfoldable pub find_in : String → List Condition → Option Condition
find_in kind [] = none
find_in kind (c ∷ cs) = if str_eq c.kind kind then some c else find_in kind cs

-- A nil HPA is `none`.
unfoldable pub find : Option Hpa → String → Option Condition
find none kind = none
find (some hpa) kind = find_in kind hpa.conditions

abbrev pub window_of_behavior : Option Behavior → Option ℤ
window_of_behavior none = none
window_of_behavior (some behavior) = elim behavior.scale_down [
  | none ↦ none
  | some rules ↦ rules.stabilization_window
]

unfoldable pub scale_down_window : Hpa → Option ℤ
scale_down_window hpa = window_of_behavior hpa.behavior

abbrev pub or_default : Option ℤ → ℤ
or_default none = default_scale_down_window
or_default (some window) = window

unfoldable pub effective_scale_down_window : Option Hpa → ℤ
effective_scale_down_window none = default_scale_down_window
effective_scale_down_window (some hpa) = or_default (scale_down_window hpa)

unfoldable pub next_scale_down_window : ℤ → Option ℤ
next_scale_down_window current =
    if leb_ℤ maximum_window current
    then none
    else if leb_ℤ current (pos 0)
    then some default_scale_down_window
    else let next = int32 (current *ℤ pos 2) in
      some (if ltb_ℤ maximum_window next || leb_ℤ next current then maximum_window else next)
