-- ===== src/Tui/Scroll.antt =====
-- The windows over long lists (internal/tui/scroll.go), and the clamp of cursors.
use kubectl_hpa_status.Prelude.{
  ℕ, ◌≡◌, ◌⊎◌, ℤ, pos, ◌+ℤ◌, ◌-ℤ◌, ◌≤ℤ◌, ◌<ℤ◌, ltb_ℤ, leb_ℤ, max_ℤ, min_ℤ, if◌then◌else◌, int_laws,
}

unfoldable pub scroll_window : ℤ → ℤ → ℤ → ℤ × ℤ
unfolding max_ℤ min_ℤ
scroll_window scroll_pos total visible_height =
    let start = min_ℤ (max_ℤ scroll_pos (pos 0)) (max_ℤ (total -ℤ visible_height) (pos 0)) in
    (start, min_ℤ (start +ℤ visible_height) total)

unfoldable pub cursor_scroll_window : ℤ → ℤ → ℤ → ℤ × ℤ
unfolding min_ℤ
cursor_scroll_window cursor total visible_height =
    let start =
      if leb_ℤ visible_height cursor then (cursor -ℤ visible_height) +ℤ pos 1 else pos 0 in
    (start, min_ℤ (start +ℤ visible_height) total)

unfoldable pub clamp_cursor : ℤ → ℤ → ℤ
clamp_cursor v hi =
    if ltb_ℤ v (pos 0)
    then pos 0
    else if ltb_ℤ hi (pos 0)
    then pos 0
    else if ltb_ℤ hi v
    then hi
    else v

-- A window lies in the list and is as high as the screen or the list allows, wherever the scroll
-- position stands.
pub scroll_window_full :
    (scroll_pos : ℤ) (total visible_height : ℕ)
    → let (start, end) = scroll_window scroll_pos (pos total) (pos visible_height) in
      (pos 0 ≤ℤ start)
      × (end ≤ℤ pos total)
      × (((end ≡ start +ℤ pos visible_height)) ⊎ ((start ≡ pos 0) × (end ≡ pos total)))
unfolding scroll_window max_ℤ min_ℤ
scroll_window_full scroll_pos total visible_height =
    (grind int_laws, grind int_laws, grind int_laws)

-- A clamped cursor is an index of the list unless the list is empty, and an index is kept.
pub clamp_cursor_bounds :
    (v : ℤ) (n : ℕ)
    → (pos 0 ≤ℤ clamp_cursor v (pos n -ℤ pos 1))
      × ((n ≡ 0) ⊎ (clamp_cursor v (pos n -ℤ pos 1) <ℤ pos n))
      × ((clamp_cursor v (pos n -ℤ pos 1) ≡ v) ⊎ ((v <ℤ pos 0) ⊎ (pos n ≤ℤ v)))
unfolding clamp_cursor
clamp_cursor_bounds v n = grind int_laws
