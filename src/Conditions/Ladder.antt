-- ===== src/Conditions/Ladder.antt =====
-- The stabilization-window ladder climbs to one hour and ends there.
use kubectl_hpa_status.Prelude.{
  ℤ, pos, negsuc, ◌*ℤ◌, ◌≤ℤ◌, ◌<ℤ◌, int32, int32_of_IsInt32, none, some, arith, ◌≡◌, ◌↔◌,
}
use kubectl_hpa_status.Conditions.{next_scale_down_window, maximum_window}

-- Below one hour the doubled window is an int32, so the product does not wrap around.
double_IsInt32 : (w : ℤ) → pos 0 <ℤ w → w <ℤ maximum_window → int32 (w *ℤ pos 2) ≡ w *ℤ pos 2
unfolding ◌*ℤ◌
double_IsInt32 (pos n) h k = int32_of_IsInt32 _ (ground arith)
double_IsInt32 (negsuc n) h k = absurd (omega arith)

-- There is a next window exactly from a window below one hour.
pub next_window-eq-none : (w : ℤ) → (next_scale_down_window w ≡ none) ↔ (maximum_window ≤ℤ w)
unfolding next_scale_down_window ◌*ℤ◌
next_window-eq-none w = (λ h. ground arith, λ h. ground arith)

-- The next window of the ladder, where there is one, is larger than the window that it starts from
-- and at most one hour.
pub next_window_climbs :
    (w v : ℤ) → next_scale_down_window w ≡ some v → (w <ℤ v) × (v ≤ℤ maximum_window)
unfolding next_scale_down_window ◌*ℤ◌
next_window_climbs w v h = (ground (arith, double_IsInt32 w), ground (arith, double_IsInt32 w))
