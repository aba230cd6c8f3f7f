-- ===== src/Capacity/Target.antt =====
-- pkg/hpa/capacityplan/capacity_plan.go: the proposed maxReplicas and the pods it adds.
use kubectl_hpa_status.Prelude.{
  ℕ, ◌+◌, ◌*◌, ◌<◌, ◌≤◌, Bool-cases, inl, inr, min_ℤ, max_ℤ, negsuc, int32_of_IsInt32, ℤ, pos, ◌&&◌,
  ltb_ℤ, leb_ℤ, eqb_ℤ, ◌+ℤ◌, ◌-ℤ◌, ◌*ℤ◌, ◌≤ℤ◌, ◌<ℤ◌, ◌≡◌, ◌⊎◌, int32, int64, IsInt32, max_int32,
  arith, if◌then◌else◌,
}

abbrev pub max_replicas_cap : ℤ
max_replicas_cap = pos 200

abbrev target_steps : ℤ → ℤ → ℤ → ℤ
target_steps current_max desired doubled =
    let next1 = if ltb_ℤ doubled desired then desired else doubled in
    let next2 = if leb_ℤ next1 current_max then int64 (current_max +ℤ pos 1) else next1 in
    let next3 =
      if ltb_ℤ current_max max_replicas_cap && ltb_ℤ max_replicas_cap next2
      then max_replicas_cap
      else next2 in
    if ltb_ℤ max_int32 next3 then max_int32 else next3

unfoldable pub compute_target_max : ℤ → ℤ → ℤ
compute_target_max current_max desired =
    if eqb_ℤ current_max max_int32
    then max_int32
    else int32 (target_steps current_max desired (int64 (current_max *ℤ pos 2)))

unfoldable pub compute_additional_pods : ℤ → ℤ → ℤ
compute_additional_pods target_max current_replicas =
    let additional1 = int64 (target_max -ℤ current_replicas) in
    let additional2 = if ltb_ℤ additional1 (pos 0) then pos 0 else additional1 in
    let additional3 = if ltb_ℤ max_int32 additional2 then max_int32 else additional2 in
    int32 additional3

double_ℤ : (n : ℕ) → n ≤ 2147483647 → int64 (pos n *ℤ pos 2) ≡ pos (2 * n)
unfolding int64 ◌*ℤ◌
double_ℤ n h = ground arith

next_ℤ : (n : ℕ) → n ≤ 2147483647 → int64 (pos n +ℤ pos 1) ≡ pos (n + 1)
unfolding int64 ◌+ℤ◌
next_ℤ n h = ground arith

-- What the proposal `r` owes to the current maximum and the desired count.
abbrev pub IsProposal : ℤ → ℤ → ℤ → Type 0
IsProposal current_max desired r =
    (r ≤ℤ max_int32)
    × ((current_max ≡ max_int32) ⊎ (current_max <ℤ r))
    × ((max_replicas_cap ≤ℤ current_max) ⊎ (r ≤ℤ max_replicas_cap))
    × ((current_max <ℤ max_replicas_cap) ⊎ (desired ≤ℤ r))

target_steps-IsProposal :
    (n : ℕ) (desired : ℤ)
    → n < 2147483647
    → IsInt32 desired
    → IsProposal (pos n) desired (target_steps (pos n) desired (pos (2 * n)))
target_steps-IsProposal n desired h q = rw (next_ℤ n (omega arith)) (ground arith)

target_steps-IsInt32 :
    (n : ℕ) (desired : ℤ)
    → n < 2147483647
    → IsInt32 desired
    → IsInt32 (target_steps (pos n) desired (pos (2 * n)))
target_steps-IsInt32 n desired h q = rw (next_ℤ n (omega arith)) (ground arith)

-- For a current maximum that is an int32 and not negative and a desired count that is an int32, the
-- proposed maximum is at most the largest int32; it exceeds the current maximum unless that is the
-- largest int32; it is at most 200 unless the current maximum is 200 or more; and it is at least
-- the desired count unless the current maximum is below 200.
pub compute_target_max-IsProposal :
    (current_max desired : ℤ)
    → IsInt32 current_max
    → IsInt32 desired
    → pos 0 ≤ℤ current_max
    → IsProposal current_max desired (compute_target_max current_max desired)
unfolding compute_target_max
compute_target_max-IsProposal (negsuc n) desired p q h = absurd (omega arith)
compute_target_max-IsProposal (pos n) desired p q h = elim (Bool-cases (eqb_ℤ (pos n) max_int32)) [
  | inl e ↦ rw e (ground arith)
  | inr e ↦
      rw
        (
          e,
          double_ℤ n (omega arith),
          int32_of_IsInt32 (target_steps (pos n) desired (pos (2 * n)))
              (target_steps-IsInt32 n desired (ground arith) q),
        )
        (target_steps-IsProposal n desired (ground arith) q)
]

difference_ℤ : (a b : ℤ) → IsInt32 a → IsInt32 b → int64 (a -ℤ b) ≡ a -ℤ b
unfolding int64 ◌-ℤ◌
difference_ℤ a b p q = ground arith

abbrev clamped : ℤ → ℤ
clamped additional1 =
    let additional2 = if ltb_ℤ additional1 (pos 0) then pos 0 else additional1 in
    if ltb_ℤ max_int32 additional2 then max_int32 else additional2

int32-clamped : (d : ℤ) → int32 (clamped d) ≡ min_ℤ max_int32 (max_ℤ (pos 0) d)
unfolding int32 min_ℤ max_ℤ
int32-clamped (pos n) = ground arith
int32-clamped (negsuc n) = ground arith

-- The additional pods of two int32 counts are their difference, moved into the range from 0 to the
-- largest int32.
pub compute_additional_pods_lem :
    (target_max current_replicas : ℤ)
    → IsInt32 target_max
    → IsInt32 current_replicas
    → compute_additional_pods target_max current_replicas
      ≡ min_ℤ max_int32 (max_ℤ (pos 0) (target_max -ℤ current_replicas))
unfolding compute_additional_pods
compute_additional_pods_lem target_max current_replicas p q =
    rw (difference_ℤ target_max current_replicas p q)
      (int32-clamped (target_max -ℤ current_replicas))
