-- ===== src/Events/Direction.antt =====
-- pkg/hpa/internal/event/direction.go. The direction 1, -1 or 0 of a replica change, and the points
-- at which it flips. The slice index `i` is the position behind the element read before.
use kubectl_hpa_status.Prelude.{
  ℕ, suc, List, [], ◌∷◌, ◌++◌, ℤ, pos, negsuc, Bool, ◌&&◌, ltb_ℤ, eqb_ℤ, ◌-ℤ◌, int32, not, length,
  if◌then◌else◌,
}

unfoldable pub direction : ℤ → ℤ
direction delta =
    if ltb_ℤ (pos 0) delta then pos 1 else if ltb_ℤ delta (pos 0) then negsuc 0 else pos 0

-- prevDirection != 0 && direction != prevDirection
unfoldable pub is_flip : ℤ → ℤ → Bool
is_flip prev_direction d = not (eqb_ℤ prev_direction (pos 0)) && not (eqb_ℤ d prev_direction)

-- The loop at index `i`, where `prev` is sizes[i-1].
unfoldable pub flip_loop : ℕ → ℤ → ℤ → List ℤ → List ℕ
flip_loop i prev_direction prev [] = []
flip_loop i prev_direction prev (size ∷ sizes) =
    let d = direction (int32 (size -ℤ prev)) in
    let is_zero = eqb_ℤ d (pos 0) in
    (if is_zero then [] else if is_flip prev_direction d then i ∷ [] else [])
    ++ flip_loop (suc i) (if is_zero then prev_direction else d) size sizes

unfoldable pub flip_points : List ℤ → List ℕ
flip_points [] = []
flip_points (size ∷ sizes) = flip_loop 1 (pos 0) size sizes

unfoldable pub count_direction_flips : List ℤ → ℕ
count_direction_flips sizes = length (flip_points sizes)
