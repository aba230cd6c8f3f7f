-- ===== src/Events/Flips.antt =====
-- The flips that FlipPoints finds are the sign changes of the replica changes that are not zero.
use kubectl_hpa_status.Prelude.{
  ℕ, suc, ◌+◌, ◌≤◌, ◌<◌, List, [], ◌∷◌, ◌++◌, ℤ, pos, Bool, true, false, eqb_ℤ, ◌-ℤ◌, int32, length,
  arith, ◌≡◌, refl, Bool-cases, inl, inr, if◌then◌else◌, ltb_ℤ, negsuc, ◌≤ℤ◌, ◌<ℤ◌, max_int32,
  int32_of_IsInt32, int_laws, map, All, ap, ◌∙◌,
}
use kubectl_hpa_status.Events.Direction.{
  direction, is_flip, flip_loop, flip_points, count_direction_flips,
}

-- The directions of the steps between neighbours, without the steps that change nothing.
directions : ℤ → List ℤ → List ℤ
directions prev [] = []
directions prev (size ∷ sizes) =
    let d = direction (int32 (size -ℤ prev)) in
    (if eqb_ℤ d (pos 0) then [] else d ∷ []) ++ directions size sizes

abbrev directions_of : List ℤ → List ℤ
directions_of [] = []
directions_of (size ∷ sizes) = directions size sizes

-- How often neighbours in a list differ.
changes_from : ℤ → List ℤ → ℕ
changes_from d [] = 0
changes_from d (e ∷ es) = (if eqb_ℤ e d then 0 else 1) + changes_from e es

abbrev changes : List ℤ → ℕ
changes [] = 0
changes (d ∷ ds) = changes_from d ds

-- Before the first change there is no direction to compare with.
abbrev changes_after : ℤ → List ℤ → ℕ
changes_after d ds = if eqb_ℤ d (pos 0) then changes ds else changes_from d ds

flip_step :
    (i : ℕ) (p d : ℤ) (rest : List ℕ) (ds : List ℤ)
    → eqb_ℤ d (pos 0) ≡ false
    → length rest ≡ changes_after d ds
    → length ((if is_flip p d then i ∷ [] else []) ++ rest) ≡ changes_after p (d ∷ ds)
unfolding is_flip changes_from
flip_step i p d rest ds e h = ground arith

length-flip_loop :
    (i : ℕ) (prev_direction prev : ℤ) (sizes : List ℤ)
    → length (flip_loop i prev_direction prev sizes)
      ≡ changes_after prev_direction (directions prev sizes)
unfolding flip_loop directions
length-flip_loop i p prev [] = elim (Bool-cases (eqb_ℤ p (pos 0))) [
  | inl e ↦ rw e
  | inr e ↦ rw e (unfold changes_from in refl)
]
length-flip_loop i p prev (size ∷ sizes) =
    elim (Bool-cases (eqb_ℤ (direction (int32 (size -ℤ prev))) (pos 0))) [
      | inl e ↦ rw e (length-flip_loop (suc i) p size sizes)
      | inr e ↦
          let d = direction (int32 (size -ℤ prev)) in
          rw e (
            flip_step i p d (flip_loop (suc i) d size sizes) (directions size sizes) e
              (length-flip_loop (suc i) d size sizes))
    ]

count_direction_flips-changes :
    (sizes : List ℤ) → count_direction_flips sizes ≡ changes (directions_of sizes)
unfolding count_direction_flips flip_points
count_direction_flips-changes [] = refl
count_direction_flips-changes (size ∷ sizes) = length-flip_loop 1 (pos 0) size sizes

-- Whether each step that changes the size is one upwards.
abbrev pub rises : ℤ → List ℤ → List Bool
rises prev [] = []
rises prev (size ∷ sizes) =
    (if ltb_ℤ prev size then true ∷ [] else if ltb_ℤ size prev then false ∷ [] else [])
    ++ rises size sizes

abbrev pub rises_of : List ℤ → List Bool
rises_of [] = []
rises_of (size ∷ sizes) = rises size sizes

-- How often an upward step and a downward one are neighbours.
abbrev pub turns_from : Bool → List Bool → ℕ
turns_from true [] = 0
turns_from false [] = 0
turns_from true (true ∷ bs) = turns_from true bs
turns_from true (false ∷ bs) = suc (turns_from false bs)
turns_from false (true ∷ bs) = suc (turns_from true bs)
turns_from false (false ∷ bs) = turns_from false bs

abbrev pub turns : List Bool → ℕ
turns [] = 0
turns (b ∷ bs) = turns_from b bs

-- A number of replicas.
abbrev pub IsCount : ℤ → Type 0
IsCount n = (pos 0 ≤ℤ n) × (n ≤ℤ max_int32)

abbrev sign : Bool → ℤ
sign true = pos 1
sign false = negsuc 0

int32_step : (prev size : ℤ) → IsCount prev → IsCount size → int32 (size -ℤ prev) ≡ size -ℤ prev
int32_step prev size h k = int32_of_IsInt32 (size -ℤ prev) (omega int_laws, omega int_laws)

direction_up : (d : ℤ) → pos 0 <ℤ d → direction d ≡ pos 1
unfolding direction
direction_up d h = ground arith

direction_down : (d : ℤ) → d <ℤ pos 0 → direction d ≡ negsuc 0
unfolding direction
direction_down d h = ground arith

direction_still : (d : ℤ) → d ≤ℤ pos 0 → pos 0 ≤ℤ d → direction d ≡ pos 0
unfolding direction
direction_still d h k = ground arith

step_direction :
    (prev size : ℤ) (ds : List ℤ) (bs : List Bool)
    → IsCount prev
    → IsCount size
    → ds ≡ map sign bs
    → (if eqb_ℤ (direction (int32 (size -ℤ prev))) (pos 0)
          then []
          else direction (int32 (size -ℤ prev)) ∷ [])
        ++ ds
      ≡ map sign (
          (if ltb_ℤ prev size then true ∷ [] else if ltb_ℤ size prev then false ∷ [] else []) ++ bs)
step_direction prev size ds bs h k e =
    rw (int32_step prev size h k) (elim (Bool-cases (ltb_ℤ prev size)) [
      | inl p ↦
          let lt : prev <ℤ size = ground arith in
          rw (p, direction_up (size -ℤ prev) (omega int_laws)) (ap (λ r. pos 1 ∷ r) e)
      | inr p ↦
          let ge : size ≤ℤ prev = ground arith in
          elim (Bool-cases (ltb_ℤ size prev)) [
            | inl q ↦
                let lt : size <ℤ prev = ground arith in
                rw (p, q, direction_down (size -ℤ prev) (omega int_laws)) (ap (λ r. negsuc 0 ∷ r) e)
            | inr q ↦
                let le : prev ≤ℤ size = ground arith in
                rw (p, q, direction_still (size -ℤ prev) (omega int_laws) (omega int_laws)) e
          ]
    ])

directions-rises :
    (prev : ℤ) (sizes : List ℤ)
    → IsCount prev
    → All IsCount sizes
    → directions prev sizes ≡ map sign (rises prev sizes)
unfolding directions
directions-rises prev [] h k = refl
directions-rises prev (size ∷ sizes) h (a, k) =
    step_direction prev size (directions size sizes) (rises size sizes) h a
      (directions-rises size sizes a k)

changes_from-turns :
    (b : Bool) (bs : List Bool) → changes_from (sign b) (map sign bs) ≡ turns_from b bs
unfolding changes_from
changes_from-turns true [] = refl
changes_from-turns false [] = refl
changes_from-turns true (true ∷ bs) = omega (arith, changes_from-turns true bs)
changes_from-turns true (false ∷ bs) = omega (arith, changes_from-turns false bs)
changes_from-turns false (true ∷ bs) = omega (arith, changes_from-turns true bs)
changes_from-turns false (false ∷ bs) = omega (arith, changes_from-turns false bs)

changes-turns : (bs : List Bool) → changes (map sign bs) ≡ turns bs
changes-turns [] = refl
changes-turns (b ∷ bs) = changes_from-turns b bs

-- For replica counts between 0 and the largest int32, the number of direction flips is how often an
-- upward step and a downward one are neighbours, once the steps that leave the size as it is are struck
-- out.
pub count_direction_flips-eq-changes :
    (sizes : List ℤ) → All IsCount sizes → count_direction_flips sizes ≡ turns (rises_of sizes)
unfolding directions
count_direction_flips-eq-changes [] h = count_direction_flips-changes []
count_direction_flips-eq-changes (size ∷ sizes) (a, h) =
    count_direction_flips-changes (size ∷ sizes)
    ∙ ap changes (directions-rises size sizes a h)
    ∙ changes-turns (rises size sizes)

-- Indices between `lo` and `hi`, ascending.
abbrev pub Indices : ℕ → ℕ → List ℕ → Type 0
Indices lo hi [] = Unit
Indices lo hi (i ∷ is) = (lo ≤ i) × (i < hi) × Indices (suc i) hi is

Indices-weaken : (lo hi : ℕ) (is : List ℕ) → Indices (suc lo) hi is → Indices lo hi is
Indices-weaken lo hi [] h = tt
Indices-weaken lo hi (i ∷ is) h = (omega arith, h.1, h.2)

flip_loop-Indices :
    (i : ℕ) (prev_direction prev : ℤ) (sizes : List ℤ)
    → Indices i (i + length sizes) (flip_loop i prev_direction prev sizes)
unfolding flip_loop
flip_loop-Indices i p prev [] = tt
flip_loop-Indices i p prev (size ∷ sizes) =
    add_index (eqb_ℤ d (pos 0)) (is_flip p d)
      (flip_loop (suc i) (if eqb_ℤ d (pos 0) then p else d) size sizes)
      (rw bound (flip_loop-Indices (suc i) (if eqb_ℤ d (pos 0) then p else d) size sizes))
  where
    d : ℤ
    d = direction (int32 (size -ℤ prev))

    bound : i + length (size ∷ sizes) ≡ suc i + length sizes
    bound = omega arith

    add_index :
        (z f : Bool) (is : List ℕ)
        → Indices (suc i) (i + length (size ∷ sizes)) is
        → Indices i (i + length (size ∷ sizes)) ((if z then [] else if f then i ∷ [] else []) ++ is)
    add_index true f is h = Indices-weaken i _ is h
    add_index false true is h = (omega arith, omega arith, h)
    add_index false false is h = Indices-weaken i _ is h

-- Every flip point is the index of an element that has a predecessor, and the points ascend.
pub flip_points-Indices : (sizes : List ℤ) → Indices 1 (length sizes) (flip_points sizes)
unfolding flip_points
flip_points-Indices [] = tt
flip_points-Indices (size ∷ sizes) = rw (← add_one) (flip_loop-Indices 1 (pos 0) size sizes)
  where
    add_one : 1 + length sizes ≡ suc (length sizes)
    add_one = omega arith
