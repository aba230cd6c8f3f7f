-- ===== src/Simulate/Offsets.antt =====
-- The offsets of a trajectory (ProjectReplicaTrajectory of pkg/hpa/simulate/simulate_projection.go).
use native.Mathlib.Nat.{div-add-mod', mod-lt}
use kubectl_hpa_status.Prelude.{
  ℕ, zero, suc, ◌+◌, ◌-◌, ◌*◌, ◌/◌, ◌≤◌, ◌<◌, List, [], ◌∷◌, ◌++◌, false, ltb, leb, ltb→lt, lt→ltb,
  ◌||◌, ℤ, pos, negsuc, ◌≡◌, inl, inr, refl, arith, Bool-cases, if_rule, length, length-append, sym,
  subst, ◌∙◌,
}
use kubectl_hpa_status.Simulate.Trajectory.{
  effective_duration, effective_step, point_count, offsets_from, last_offset, no_offsets,
  trajectory_offsets,
}

-- From `low` on, each offset is larger than the one before.
abbrev pub Ascends : ℕ → List ℕ → Type 0
Ascends low [] = Unit
Ascends low (x ∷ xs) = (low ≤ x) × Ascends (suc x) xs

abbrev pub StartsWith : ℕ → List ℕ → Type 0
StartsWith n [] = ⊥
StartsWith n (x ∷ xs) = x ≡ n

suc_times : (fuel step : ℕ) → suc fuel * step ≡ step + fuel * step
suc_times fuel step = omega arith

add_times : (k l step : ℕ) → (k + l) * step ≡ k * step + l * step
add_times zero l step = omega arith
add_times (suc k) l step =
    let e : suc k + l ≡ suc (k + l) = omega arith in
    rw e (omega (arith, suc_times (k + l) step, suc_times k step, add_times k l step))

-- The rounds of the loop reach past the duration.
point_count_enough : (duration step : ℕ) → 1 ≤ step → duration < point_count duration step * step
unfolding point_count
point_count_enough duration step h =
    let whole = div-add-mod' (duration + step - 1) step in
    let rest = mod-lt (duration + step - 1) {m = step} (omega arith) in
    omega (arith, suc_times ((duration + step - 1) / step) step)

-- What the loop leaves before the last offset is added.
abbrev IsRun : ℕ → ℕ → ℕ → List ℕ → Type 0
IsRun duration step elapsed xs =
    StartsWith elapsed xs
    × Ascends elapsed xs
    × (last_offset xs ≤ duration)
    × (duration < last_offset xs + step)

offsets_from_past :
    (duration step fuel elapsed : ℕ)
    → duration < elapsed
    → offsets_from duration step fuel elapsed ≡ []
unfolding offsets_from
offsets_from_past duration step zero elapsed h = refl
offsets_from_past duration step (suc fuel) elapsed h = rw (lt→ltb duration elapsed h) refl

Ascends-weaken : (low high : ℕ) (xs : List ℕ) → low ≤ high → Ascends high xs → Ascends low xs
Ascends-weaken low high [] h k = tt
Ascends-weaken low high (x ∷ xs) h k = (omega arith, k.1)

last_offset-cons : (x n : ℕ) (xs : List ℕ) → StartsWith n xs → last_offset (x ∷ xs) ≡ last_offset xs
last_offset-cons x n [] h = absurd h
last_offset-cons x n (y ∷ xs) h = refl

IsRun-cons :
    (duration step elapsed : ℕ) (xs : List ℕ)
    → 1 ≤ step
    → IsRun duration step (elapsed + step) xs
    → IsRun duration step elapsed (elapsed ∷ xs)
IsRun-cons duration step elapsed xs h (first, up, low, high) =
    let e = last_offset-cons elapsed (elapsed + step) xs first in
    (
      refl,
      (omega arith, Ascends-weaken (suc elapsed) (elapsed + step) xs (omega arith) up),
      omega arith,
      omega arith,
    )

offsets_from-IsRun :
    (duration step fuel elapsed : ℕ)
    → 1 ≤ step
    → elapsed ≤ duration
    → duration < elapsed + fuel * step
    → IsRun duration step elapsed (offsets_from duration step fuel elapsed)
unfolding offsets_from
offsets_from-IsRun duration step zero elapsed h k l = absurd (omega arith)
offsets_from-IsRun duration step (suc fuel) elapsed h k l =
    let goes_on : ltb duration elapsed ≡ false = ground arith in
    rw goes_on (elim (Bool-cases (ltb duration (elapsed + step))) [
      | inl p ↦
          rw (offsets_from_past duration step fuel (elapsed + step) (ltb→lt _ _ p))
            (refl, (omega arith, tt), k, ltb→lt duration (elapsed + step) p)
      | inr p ↦
          IsRun-cons duration step elapsed (offsets_from duration step fuel (elapsed + step)) h (
            offsets_from-IsRun duration step fuel (elapsed + step) h (ground arith)
              (omega (arith, suc_times fuel step)))
    ])

-- From 0 to the duration, in steps that climb.
abbrev pub Spans : ℕ → List ℕ → Type 0
Spans duration xs = StartsWith 0 xs × Ascends 0 xs × (last_offset xs ≡ duration)

StartsWith-no_offsets : (n : ℕ) (xs : List ℕ) → StartsWith n xs → no_offsets xs ≡ false
StartsWith-no_offsets n [] h = absurd h
StartsWith-no_offsets n (x ∷ xs) h = refl

Spans-snoc :
    (n low duration : ℕ) (xs : List ℕ)
    → StartsWith n xs
    → Ascends low xs
    → last_offset xs < duration
    → StartsWith n (xs ++ (duration ∷ []))
      × Ascends low (xs ++ (duration ∷ []))
      × (last_offset (xs ++ (duration ∷ [])) ≡ duration)
Spans-snoc n low duration [] h k l = absurd h
Spans-snoc n low duration (x ∷ []) h k l = (h, (k.0, (omega arith, tt)), refl)
Spans-snoc n low duration (x ∷ y ∷ xs) h k l =
    let (first, up, end) = Spans-snoc y (suc x) duration (y ∷ xs) refl k.1 l in (h, (k.0, up), end)

-- With a positive step, the offsets of a trajectory start at zero, climb, and end at the duration:
-- the rounds of the loop are enough, and the final state is always there.
pub trajectory_offsets-Spans :
    (duration step : ℕ) → 1 ≤ step → Spans duration (trajectory_offsets duration step)
unfolding trajectory_offsets
trajectory_offsets-Spans duration step h =
    let xs = offsets_from duration step (point_count duration step) 0 in
    let (first, up, low, high) =
      offsets_from-IsRun duration step (point_count duration step) 0 h (omega arith)
        (omega (arith, point_count_enough duration step h)) in
    if_rule (Spans duration) (no_offsets xs || leb duration (last_offset xs))
      (λ p. (
        first,
        up,
        elim (Bool-cases (leb duration (last_offset xs))) [
          | inl q ↦ ground arith
          | inr q ↦ cc (StartsWith-no_offsets 0 xs first, rw q at p)
        ],
      ))
      (λ p. Spans-snoc 0 0 duration xs first up (ground arith))

-- The effective step is positive and at most the duration.
pub effective_step_bounds :
    (step_seconds duration_seconds : ℤ)
    → let duration = effective_duration duration_seconds in
      (1 ≤ effective_step step_seconds duration) × (effective_step step_seconds duration ≤ duration)
unfolding effective_step effective_duration
effective_step_bounds (pos n) (pos d) = (ground arith, ground arith)
effective_step_bounds (pos n) (negsuc d) = (ground arith, ground arith)
effective_step_bounds (negsuc n) (pos d) = (ground arith, ground arith)
effective_step_bounds (negsuc n) (negsuc d) = (ground arith, ground arith)

-- The number of states of a trajectory: as many as there are steps in the duration, the last one
-- perhaps cut short, and one for the start.
abbrev pub IsPoints : ℕ → ℕ → ℕ → Type 0
IsPoints duration step n =
    (k : ℕ) × (n ≡ suc k) × (duration ≤ k * step) × (k * step < duration + step)

pub point_count-IsPoints :
    (duration step : ℕ) → 1 ≤ step → IsPoints duration step (point_count duration step)
unfolding point_count
point_count-IsPoints duration step h =
    let whole = div-add-mod' (duration + step - 1) step in
    let rest = mod-lt (duration + step - 1) {m = step} (omega arith) in
    ((duration + step - 1) / step, omega arith, omega arith, omega arith)

fewer_steps : (k l step : ℕ) → k < l → k * step + step ≤ l * step
fewer_steps k l step h =
    let e : l ≡ suc k + (l - suc k) = omega arith in
    subst (λ x. k * step + step ≤ x * step) (sym e) (more (l - suc k))
  where
    more : (j : ℕ) → k * step + step ≤ (suc k + j) * step
    more j = omega (arith, add_times (suc k) j step, suc_times k step)

pub IsPoints-unique :
    (duration step m n : ℕ) → IsPoints duration step m → IsPoints duration step n → m ≡ n
IsPoints-unique duration step m n (k, p, a, b) (l, q, c, d) = elim (Bool-cases (ltb k l)) [
  | inl u ↦ let less : k < l = ground arith in absurd (omega (arith, fewer_steps k l step less))
  | inr u ↦ elim (Bool-cases (ltb l k)) [
    | inl v ↦ let less : l < k = ground arith in absurd (omega (arith, fewer_steps l k step less))
    | inr v ↦ let same : k ≡ l = ground arith in omega arith
  ]
]

-- The offsets of the loop are a step apart.
last_offset-offsets_from :
    (duration step fuel elapsed : ℕ)
    → 1 ≤ step
    → elapsed ≤ duration
    → duration < elapsed + fuel * step
    → last_offset (offsets_from duration step fuel elapsed) + step
      ≡ elapsed + length (offsets_from duration step fuel elapsed) * step
unfolding offsets_from
last_offset-offsets_from duration step zero elapsed h k l = absurd (omega arith)
last_offset-offsets_from duration step (suc fuel) elapsed h k l =
    let goes_on : ltb duration elapsed ≡ false = ground arith in
    let rest = offsets_from duration step fuel (elapsed + step) in
    rw goes_on (elim (Bool-cases (ltb duration (elapsed + step))) [
      | inl p ↦
          rw (offsets_from_past duration step fuel (elapsed + step) (ltb→lt _ _ p)) (omega arith)
      | inr p ↦
          let inside : elapsed + step ≤ duration = ground arith in
          let room : duration < elapsed + step + fuel * step = omega (arith, suc_times fuel step) in
          let run = offsets_from-IsRun duration step fuel (elapsed + step) h inside room in
          let e = last_offset-cons elapsed (elapsed + step) rest run.0 in
          let ih = last_offset-offsets_from duration step fuel (elapsed + step) h inside room in
          rw e (omega (arith, suc_times (length rest) step))
    ])

-- A trajectory has as many offsets as it should.
pub trajectory_offsets-IsPoints :
    (duration step : ℕ)
    → 1 ≤ step
    → IsPoints duration step (length (trajectory_offsets duration step))
unfolding trajectory_offsets
trajectory_offsets-IsPoints duration step h =
    let n = point_count duration step in
    let xs = offsets_from duration step n 0 in
    let room : duration < 0 + n * step = omega (arith, point_count_enough duration step h) in
    let (first, up, low, high) = offsets_from-IsRun duration step n 0 h (omega arith) room in
    let spaced = last_offset-offsets_from duration step n 0 h (omega arith) room in
    let some = length-StartsWith 0 xs first in
    if_rule (λ (ys : List ℕ). IsPoints duration step (length ys))
      (no_offsets xs || leb duration (last_offset xs))
      (λ p.
        let full : last_offset xs ≡ duration = elim (Bool-cases (leb duration (last_offset xs))) [
          | inl q ↦ ground arith
          | inr q ↦ cc (StartsWith-no_offsets 0 xs first, rw q at p)
        ] in
        let split = suc_times (length xs - 1) step in
        let whole : suc (length xs - 1) ≡ length xs = omega arith in
        let spaced' : last_offset xs + step ≡ 0 + suc (length xs - 1) * step = rw whole spaced in
        (length xs - 1, sym whole, omega arith, omega arith))
      (λ p.
        let short : last_offset xs < duration = ground arith in
        (length xs, length-append xs (duration ∷ []) ∙ omega arith, omega arith, omega arith))
  where
    length-StartsWith : (n : ℕ) (ys : List ℕ) → StartsWith n ys → 1 ≤ length ys
    length-StartsWith n [] h = absurd h
    length-StartsWith n (y ∷ ys) h = omega arith
