-- ===== src/Flapping.antt =====
-- pkg/hpa/flapping/flapping.go: direction flips of the observed rescales and their severity.
pub mod Severity
use kubectl_hpa_status.Prelude.{
  ℕ, zero, suc, ◌<◌, List, [], ◌∷◌, ℤ, pos, Bool, ltb, leb, ltb_ℤ, leb_ℤ, ◌&&◌, ◌||◌, ◌-ℤ◌, int32,
  Option, none, some, get_elem?, length, if◌then◌else◌,
}
use kubectl_hpa_status.Conditions.{default_scale_down_window}
use kubectl_hpa_status.Events.Rescales.{RescaleData, rescale_sizes}
use kubectl_hpa_status.Events.Direction.{direction, flip_points}

pub record DirectionFlip : Type 0 where
  pub timestamp : ℤ
  pub from : ℤ
  pub to : ℤ
  pub direction : ℤ

-- The loop's body, from rescales[i] and rescales[i-1]: `none` is an index out of range.
unfoldable pub flip_of : Option RescaleData → Option RescaleData → Option DirectionFlip
flip_of none previous = none
flip_of (some current) none = none
flip_of (some current) (some previous) = some (record {
  timestamp = current.timestamp;
  from = previous.new_size;
  to = current.new_size;
  direction = direction (int32 (current.new_size -ℤ previous.new_size));
})

unfoldable pub flip_at : List RescaleData → ℕ → Option DirectionFlip
flip_at rescales zero = none
flip_at rescales (suc j) = flip_of (get_elem? rescales (suc j)) (get_elem? rescales j)

abbrev pub add_flip :
    Option DirectionFlip → Option (List DirectionFlip) → Option (List DirectionFlip)
add_flip none rest = none
add_flip (some flip) none = none
add_flip (some flip) (some flips) = some (flip ∷ flips)

-- The loop over the flip points; it panics, `none`, if an index is out of range.
unfoldable pub flips_at : List RescaleData → List ℕ → Option (List DirectionFlip)
flips_at rescales [] = some []
flips_at rescales (i ∷ is) = add_flip (flip_at rescales i) (flips_at rescales is)

unfoldable pub detect_direction_flips : List RescaleData → Option (List DirectionFlip)
detect_direction_flips rescales = flips_at rescales (flip_points (rescale_sizes rescales))

pub data FlapSeverity : Type 0 where
  critical high medium low : FlapSeverity

unfoldable pub flapping_severity : ℕ → ℤ → FlapSeverity
flapping_severity flip_count window_seconds =
    if leb 6 flip_count
      || (leb 3 flip_count
          && (ltb_ℤ (pos 0) window_seconds && ltb_ℤ window_seconds default_scale_down_window))
    then critical
    else if leb 3 flip_count
        || (leb 2 flip_count && (ltb_ℤ (pos 0) window_seconds && ltb_ℤ window_seconds (pos 600)))
    then high
    else if leb 2 flip_count
    then medium
    else low
