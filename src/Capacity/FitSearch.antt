-- ===== src/Capacity/FitSearch.antt =====
-- The bisection finds the largest number of pods that fits.
use kubectl_hpa_status.Prelude.{
  ℕ, zero, suc, ◌+◌, ◌-◌, ◌*◌, ◌/◌, ◌≤◌, ◌<◌, ℤ, pos, Bool, true, false, ltb, leb, ◌*ℤ◌, ◌≤ℤ◌,
  arith, ◌≡◌, ◌⊎◌, inl, inr, refl, Bool-cases,
}
use kubectl_hpa_status.Capacity.Fit.{multiply, fits, bisect, rounds, pods_fit_in_resources}

-- The width of an interval that a number of rounds halves to one.
abbrev span : ℕ → ℕ
span zero = 1
span (suc fuel) = 2 * span fuel

-- A test that fails at a number fails above it.
abbrev Antitone : (ℕ → Bool) → Type 0
Antitone test = (n m : ℕ) → n ≤ m → test n ≡ false → test m ≡ false

-- `r` is the last number below `high` that passes, or the start if none does.
abbrev IsLast : (ℕ → Bool) → ℕ → ℕ → ℕ → Type 0
IsLast test low high r =
    (low ≤ r)
    × (r < high)
    × ((r ≡ low) ⊎ (test r ≡ true))
    × ((n : ℕ) → r < n → n < high → test n ≡ false)

-- Starting at a number that passes, the result passes.
started-at :
    (test : ℕ → Bool) (low mid r : ℕ)
    → test mid ≡ true
    → (r ≡ mid) ⊎ (test r ≡ true)
    → (r ≡ low) ⊎ (test r ≡ true)
started-at test low mid r up (inl e) = inr (rw e up)
started-at test low mid r up (inr p) = inr p

bisect-IsLast :
    (fuel : ℕ) (test : ℕ → Bool) (low high : ℕ)
    → Antitone test
    → low < high
    → high - low ≤ span fuel
    → IsLast test low high (bisect fuel test low high)
unfolding bisect
bisect-IsLast zero test low high anti h k =
    (omega arith, omega arith, inl refl, λ n p q. absurd (omega arith))
bisect-IsLast (suc fuel) test low high anti h k = elim (Bool-cases (ltb (low + 1) high)) [
  | inr done ↦ rw done (omega arith, omega arith, inl refl, λ n p q. absurd (ground arith))
  | inl more ↦ elim (Bool-cases (test (low + (high - low) / 2))) [
    | inl up ↦
        let mid = low + (high - low) / 2 in
        let ih = bisect-IsLast fuel test mid high anti (ground arith) (ground arith) in
        rw (more, up)
          (
            omega (arith, ih.0),
            ih.1,
            started-at test low mid (bisect fuel test mid high) up ih.2,
            ih.3,
          )
    | inr down ↦
        let mid = low + (high - low) / 2 in
        let ih = bisect-IsLast fuel test low mid anti (ground arith) (ground arith) in
        rw (more, down)
          (
            ih.0,
            omega (arith, ih.1),
            ih.2,
            λ n p q. elim (Bool-cases (ltb n mid)) [
              | inl below ↦ ih.3 n p (ground arith)
              | inr above ↦ anti mid n (ground arith) down
            ],
          )
  ]
]

multiply_pos : (a n : ℕ) → multiply (pos a) (pos n) ≡ pos (a * n)
unfolding multiply ◌*ℤ◌
multiply_pos a n = ground arith

mul_mono_right : (a n m : ℕ) → n ≤ m → a * n ≤ a * m
mul_mono_right zero n m h = omega arith
mul_mono_right (suc a) n m h = let ih = mul_mono_right a n m h in omega arith

multiply_mono : (a n m : ℕ) → n ≤ m → multiply (pos a) (pos n) ≤ℤ multiply (pos a) (pos m)
multiply_mono a n m h =
    rw (multiply_pos a n, multiply_pos a m) (omega (arith, mul_mono_right a n m h))

fits-Antitone :
    (available_cpu available_memory : ℤ) (cpu memory : ℕ)
    → Antitone (fits available_cpu available_memory (pos cpu) (pos memory))
unfolding fits
fits-Antitone available_cpu available_memory cpu memory n m h =
    let c = multiply_mono cpu n m h in let d = multiply_mono memory n m h in ground arith

-- With requests that are not negative and not both zero, the answer is a number of pods below 2^31
-- that is 0 or for which the node's resources suffice, and they suffice for no larger number below
-- 2^31.
pub pods_fit_in_resources-IsLast :
    (available_cpu available_memory : ℤ) (cpu memory : ℕ)
    → ¬ ((cpu ≡ 0) × (memory ≡ 0))
    → (r : ℕ) × (pods_fit_in_resources available_cpu available_memory (pos cpu) (pos memory)
        ≡ pos r)
      × (r < 2147483648)
      × ((r ≡ 0) ⊎ (fits available_cpu available_memory (pos cpu) (pos memory) r ≡ true))
      × ((n : ℕ)
          → (n ≤ r)
            ⊎ (2147483648 ≤ n)
            ⊎ (fits available_cpu available_memory (pos cpu) (pos memory) n ≡ false))
unfolding pods_fit_in_resources
pods_fit_in_resources-IsLast available_cpu available_memory cpu memory h =
    let test = fits available_cpu available_memory (pos cpu) (pos memory) in
    let last =
      bisect-IsLast rounds test 0 2147483648
        (fits-Antitone available_cpu available_memory cpu memory) (omega arith) (omega arith) in
    (bisect rounds test 0 2147483648, ground arith, last.1, last.2, λ n. beyond n last.3)
  where
    beyond :
        (n : ℕ) {r : ℕ}
        → ((m : ℕ)
            → r < m
            → m < 2147483648
            → fits available_cpu available_memory (pos cpu) (pos memory) m ≡ false)
        → (n ≤ r)
          ⊎ (2147483648 ≤ n)
          ⊎ (fits available_cpu available_memory (pos cpu) (pos memory) n ≡ false)
    beyond n {r} all = elim (Bool-cases (leb n r)) [
      | inl p ↦ inl (ground arith)
      | inr p ↦ elim (Bool-cases (ltb n 2147483648)) [
        | inl q ↦ inr (inr (all n (ground arith) (ground arith)))
        | inr q ↦ inr (inl (ground arith))
      ]
    ]
