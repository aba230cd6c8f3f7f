-- ===== src/Flapping/Severity.antt =====
-- The order of the severities, and the safety of the indexing.
use kubectl_hpa_status.Prelude.{
  ℕ, zero, suc, ◌≤◌, ◌<◌, List, [], ◌∷◌, ℤ, pos, ◌≤ℤ◌, ◌<ℤ◌, arith, ◌≡◌, ◌↔◌, refl, Option, none,
  some, get_elem?, length, subst,
}
use kubectl_hpa_status.Events.Rescales.{RescaleData, rescale_sizes}
use kubectl_hpa_status.Events.Direction.{flip_points, count_direction_flips}
use kubectl_hpa_status.Events.Flips.{Indices, flip_points-Indices}
use kubectl_hpa_status.Flapping.{
  DirectionFlip, flip_of, flip_at, add_flip, flips_at, detect_direction_flips, FlapSeverity,
  critical, high, medium, low, flapping_severity,
}

abbrev pub rank : FlapSeverity → ℕ
rank critical = 3
rank high = 2
rank medium = 1
rank low = 0

-- More flips in the same span, or as many in a shorter span that is not empty, are never less
-- severe; and the severity is LOW exactly below two flips.
pub flapping_severity_mono :
    (flips more : ℕ) (span longer : ℤ)
    → flips ≤ more
    → pos 0 <ℤ span
    → span ≤ℤ longer
    → (rank (flapping_severity flips longer) ≤ rank (flapping_severity more span))
      × ((flapping_severity flips span ≡ low) ↔ (flips < 2))
unfolding flapping_severity
flapping_severity_mono flips more span longer h k l =
    (ground arith, (λ e. ground arith, λ e. ground arith))

get_elem?_total :
    {A : Type 0} (xs : List A) (i : ℕ) → i < length xs → (a : A) × (get_elem? xs i ≡ some a)
get_elem?_total [] i h = absurd (omega arith)
get_elem?_total (x ∷ xs) zero h = (x, refl)
get_elem?_total (x ∷ xs) (suc i) h = get_elem?_total xs i (omega arith)

flip_of_total :
    (a b : Option RescaleData) {x y : RescaleData}
    → a ≡ some x
    → b ≡ some y
    → (f : DirectionFlip) × (flip_of a b ≡ some f)
unfolding flip_of
flip_of_total none b e f = cc
flip_of_total (some x) none e f = cc
flip_of_total (some x) (some y) e f = (_, refl)

flip_at_total :
    (rescales : List RescaleData) (i : ℕ)
    → 1 ≤ i
    → i < length rescales
    → (f : DirectionFlip) × (flip_at rescales i ≡ some f)
unfolding flip_at
flip_at_total rescales zero h k = absurd (omega arith)
flip_at_total rescales (suc j) h k =
    flip_of_total _ _ (get_elem?_total rescales (suc j) k).1
      (get_elem?_total rescales j (omega arith)).1

add_flip_total :
    (o : Option DirectionFlip) (r : Option (List DirectionFlip)) {f : DirectionFlip}
    {fs : List DirectionFlip}
    → o ≡ some f
    → r ≡ some fs
    → add_flip o r ≡ some (f ∷ fs)
add_flip_total o r e h = rw (e, h)

flips_at_total :
    (rescales : List RescaleData) (lo : ℕ) (is : List ℕ)
    → 1 ≤ lo
    → Indices lo (length rescales) is
    → (flips : List DirectionFlip) × (flips_at rescales is ≡ some flips)
      × (length flips ≡ length is)
unfolding flips_at
flips_at_total rescales lo [] h k = ([], refl, refl)
flips_at_total rescales lo (i ∷ is) h k =
    let (f, e) = flip_at_total rescales i (omega arith) k.1 in
    let (fs, es, n) = flips_at_total rescales (suc i) is (omega arith) k.2 in
    (f ∷ fs, add_flip_total (flip_at rescales i) (flips_at rescales is) e es, omega arith)

length-rescale_sizes :
    (rescales : List RescaleData) → length (rescale_sizes rescales) ≡ length rescales
unfolding rescale_sizes
length-rescale_sizes [] = refl
length-rescale_sizes (r ∷ rs) = omega (arith, length-rescale_sizes rs)

-- Whatever the rescales, the detection indexes no slice out of range, and it reports one flip for
-- each flip point of the sizes.
pub detect_direction_flips_total :
    (rescales : List RescaleData)
    → (flips : List DirectionFlip) × (detect_direction_flips rescales ≡ some flips)
      × (length flips ≡ count_direction_flips (rescale_sizes rescales))
unfolding detect_direction_flips count_direction_flips
detect_direction_flips_total rescales =
    flips_at_total rescales 1 (flip_points (rescale_sizes rescales)) (omega arith) (
      subst (λ n. Indices 1 n (flip_points (rescale_sizes rescales)))
        (length-rescale_sizes rescales) (flip_points-Indices (rescale_sizes rescales)))
