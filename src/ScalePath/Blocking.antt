-- ===== src/ScalePath/Blocking.antt =====
-- What the blocking point of a scale path says (pkg/hpa/scalepath.go).
use kubectl_hpa_status.Prelude.{
  List, ℤ, pos, ◌+ℤ◌, ◌≤ℤ◌, ◌<ℤ◌, max_int32, int_laws, arith, length, Option, none, some, inl, inr,
  ℕ, zero, suc, negsuc, ltb_ℤ, All, ◌≡◌, ◌⊎◌, ◌↔◌, refl, if◌then◌else◌, String,
}
use kubectl_hpa_status.Api.{Hpa}
use kubectl_hpa_status.ScalePath.Path.{
  ScalePathTarget, ScalePathPod, ScalePathInput, none_visible, ScalePath, ScalePathPodCounts,
  no_pods, count_scale_path_pods, first_scheduling_event,
}
use kubectl_hpa_status.ScalePath.Assess.{assess, add_scale_path_assessment}
use kubectl_hpa_status.ScalePath.Analyze.{
  target_view, analyze_probe_configuration, analyze_scheduler_constraints, analyze_quota_blocking,
  detect_autoscaler_events, analyze_not_ready_pods, analyze_present, analyze_scale_path,
}
use kubectl_hpa_status.ScalePath.Counts.{
  IsCount, count_pods_from-IsCount, count_scale_path_pods-IsCount, ready_pods, IsSettled,
  count_pods_from-ready, count_pods_from-IsSettled,
}

-- The blocking point is the one of the switch: the analyses after it keep it.
blocking_point-assess :
    (hpa : Hpa) (input : ScalePathInput)
    → (analyze_present hpa input).blocking_point
      ≡ (assess hpa
          (count_scale_path_pods input.pods)
          (first_scheduling_event input.events)
          (target_view hpa input.target).desired).point
unfolding analyze_present add_scale_path_assessment analyze_probe_configuration
    analyze_scheduler_constraints analyze_quota_blocking detect_autoscaler_events
    analyze_not_ready_pods
blocking_point-assess hpa input = refl

-- Nothing is named as blocking: no pod's phase is Pending, there is no pod or enough of them are ready,
-- and the HPA is not at its maximum.
abbrev pub NoBlocker : Hpa → List ScalePathPod → ℤ → Type 0
NoBlocker hpa pods desired =
    All IsSettled pods
    × ((length pods ≡ 0) ⊎ (desired ≤ℤ pos (ready_pods pods)))
    × ((hpa.desired_replicas <ℤ hpa.max_replicas) ⊎ (hpa.current_replicas <ℤ hpa.max_replicas))

-- The condition of the switch's default, on the counts.
abbrev Unblocked : Hpa → ScalePathPodCounts → ℤ → Type 0
Unblocked hpa counts desired =
    (counts.pending ≤ℤ pos 0)
    × ((counts.total ≤ℤ pos 0) ⊎ (desired ≤ℤ counts.ready))
    × ((hpa.desired_replicas <ℤ hpa.max_replicas) ⊎ (hpa.current_replicas <ℤ hpa.max_replicas))

assess-NoBlocker :
    (hpa : Hpa) (counts : ScalePathPodCounts) (event : String) (desired : ℤ)
    → IsCount counts
    → ((assess hpa counts event desired).point ≡ none_visible) ↔ Unblocked hpa counts desired
unfolding assess
assess-NoBlocker hpa counts event desired h = ground arith

Unblocked-NoBlocker :
    (hpa : Hpa) (pods : List ScalePathPod) (desired : ℤ)
    → pos (length pods) ≤ℤ max_int32
    → Unblocked hpa (count_scale_path_pods pods) desired ↔ NoBlocker hpa pods desired
unfolding count_scale_path_pods
Unblocked-NoBlocker hpa pods desired k =
    let start : IsCount no_pods =
      (omega arith, omega arith, omega arith, omega arith, omega arith) in
    let settled = count_pods_from-IsSettled no_pods pods start (omega int_laws) in
    let ready = count_pods_from-ready no_pods pods start (omega int_laws) in
    let total = (count_pods_from-IsCount no_pods pods start (omega int_laws)).1 in
    (
      λ h. (
        (settled.0 h.0).1,
        elim h.1 [
          | inl a ↦ inl (none_there (rw total at a))
          | inr b ↦ inr (plain _ _ (rw ready at b))
        ],
        h.2,
      ),
      λ h. (
        settled.1 (omega arith, h.0),
        elim h.1 [ inl a ↦ inl (rw total (none_here a)) | inr b ↦ inr (rw ready (back _ _ b)) ],
        h.2,
      ),
    )
  where
    none_there : {n : ℕ} → pos 0 +ℤ pos n ≤ℤ pos 0 → n ≡ 0
    none_there h = omega int_laws

    none_here : {n : ℕ} → n ≡ 0 → pos 0 +ℤ pos n ≤ℤ pos 0
    none_here h = omega int_laws

    plain : (d : ℤ) (n : ℕ) → d ≤ℤ pos 0 +ℤ pos n → d ≤ℤ pos n
    plain d n h = omega int_laws

    back : (d : ℤ) (n : ℕ) → d ≤ℤ pos n → d ≤ℤ pos 0 +ℤ pos n
    back d n h = omega int_laws

-- The first number where it is positive, or else the second.
abbrev pub positive_or : ℤ → ℤ → ℤ
positive_or (pos zero) other = other
positive_or (pos (suc n)) other = pos (suc n)
positive_or (negsuc n) other = other

-- What the target desires: its own positive count, or else that of the HPA.
abbrev pub wanted : Hpa → Option ScalePathTarget → ℤ
wanted hpa none = hpa.desired_replicas
wanted hpa (some target) = positive_or target.desired_replicas hpa.desired_replicas

target_view-wanted :
    (hpa : Hpa) (target : Option ScalePathTarget)
    → (target_view hpa target).desired ≡ wanted hpa target
unfolding target_view
target_view-wanted hpa none = refl
target_view-wanted hpa (some target) = positive target.desired_replicas
  where
    positive :
        (n : ℤ)
        → (if ltb_ℤ (pos 0) n then n else hpa.desired_replicas) ≡ positive_or n hpa.desired_replicas
    positive (pos zero) = refl
    positive (pos (suc n)) = ground arith
    positive (negsuc n) = ground arith

-- For at most 2^31 - 1 pods, the analysis of an HPA returns a path, and its blocking point is
-- "no blocking point visible" exactly when no pod's phase is Pending, there is no pod or as many pods
-- as the target desires are ready, and the HPA's desired or its current count is below maxReplicas.
pub analyze_scale_path-NoBlocker :
    (hpa : Hpa) (input : ScalePathInput)
    → pos (length input.pods) ≤ℤ max_int32
    → (path : ScalePath) × (analyze_scale_path (some hpa) input ≡ some path)
      × ((path.blocking_point ≡ none_visible) ↔ NoBlocker hpa input.pods (wanted hpa input.target))
unfolding analyze_scale_path
analyze_scale_path-NoBlocker hpa input k =
    let counts = count_scale_path_pods input.pods in
    let event = first_scheduling_event input.events in
    let desired = (target_view hpa input.target).desired in
    let visible =
      assess-NoBlocker hpa counts event desired (count_scale_path_pods-IsCount input.pods k).0 in
    let meant = Unblocked-NoBlocker hpa input.pods desired k in
    (
      analyze_present hpa input,
      refl,
      rw (← target_view-wanted hpa input.target, blocking_point-assess hpa input)
          (λ h. meant.0 (visible.0 h), λ h. visible.1 (meant.1 h)),
    )
