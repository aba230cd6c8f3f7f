-- ===== src/Enrichment/Mode.antt =====
-- The modes of an enricher (internal/enrichment/mode.go). A text is its code points.
use kubectl_hpa_status.Prelude.{
  ℕ, List, map, trim_start, trim_end, Bool, true, false, ◌||◌, if◌then◌else◌, codes, to_lower,
  codes_eq,
}

pub data Mode : Type 0 where
  mode_off mode_auto mode_on : Mode

-- strings.ToLower(strings.TrimSpace(value)), as far as comparisons with ASCII words that have
-- neither k nor i depend on it.
unfoldable pub normal_form : List ℕ → List ℕ
normal_form value = map to_lower (trim_end (trim_start value))

unfoldable pub parse_mode : List ℕ → Mode
unfolding normal_form
parse_mode value =
    let word = normal_form value in
    if codes_eq word (codes "on") || codes_eq word (codes "true") || codes_eq word (codes "1")
    then mode_on
    else if codes_eq word (codes "auto")
    then mode_auto
    else mode_off

unfoldable pub requested : Mode → Bool
requested mode_off = false
requested mode_auto = true
requested mode_on = true

unfoldable pub enabled_for : Bool → Mode → Bool
enabled_for crd_present mode_off = false
enabled_for crd_present mode_auto = crd_present
enabled_for crd_present mode_on = true
