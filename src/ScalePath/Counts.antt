-- ===== src/ScalePath/Counts.antt =====
-- What the counts of pods count (pkg/hpa/scalepath.go).
use kubectl_hpa_status.Prelude.{
  List, [], ◌∷◌, ℤ, pos, Bool, true, false, ◌+ℤ◌, ◌≤ℤ◌, ◌<ℤ◌, int32_of_IsInt32, max_int32, int_laws,
  arith, length, equal_fold, ℕ, suc, All, eq_of_parts, ◌∙◌, ◌≡◌, ◌↔◌, refl, if◌then◌else◌,
}
use kubectl_hpa_status.ScalePath.Path.{
  ScalePathPod, ScalePathPodCounts, bump, count_pod, count_pods_from, no_pods,
  count_scale_path_pods,
}

abbrev pub IsCount : ScalePathPodCounts → Type 0
IsCount c =
    (pos 0 ≤ℤ c.ready)
    × (c.ready ≤ℤ c.total)
    × (pos 0 ≤ℤ c.unschedulable)
    × (c.unschedulable ≤ℤ c.pending)
    × (c.pending ≤ℤ c.total)

bump-true : (n : ℤ) → pos 0 ≤ℤ n → n <ℤ max_int32 → bump true n ≡ n +ℤ pos 1
bump-true n p q = int32_of_IsInt32 (n +ℤ pos 1) (omega int_laws, omega int_laws)

-- A count stays behind one that always grows.
bump_behind :
    (test : Bool) (m n : ℤ)
    → pos 0 ≤ℤ m
    → m ≤ℤ n
    → n <ℤ max_int32
    → (pos 0 ≤ℤ bump test m) × (bump test m ≤ℤ bump true n)
bump_behind true m n p q r =
    rw (bump-true m p (omega arith), bump-true n (omega arith) r) (omega int_laws, omega int_laws)
bump_behind false m n p q r = rw (bump-true n (omega arith) r) (p, omega int_laws)

-- The two counts of pending pods.
bump_pending :
    (test pending : Bool) (u m n : ℤ)
    → pos 0 ≤ℤ u
    → u ≤ℤ m
    → m ≤ℤ n
    → n <ℤ max_int32
    → (pos 0 ≤ℤ (if pending then bump test u else u))
      × ((if pending then bump test u else u) ≤ℤ bump pending m)
      × (bump pending m ≤ℤ bump true n)
bump_pending test true u m n p q r k =
    let (a, b) = bump_behind test u m p q (omega arith) in
    (a, b, (bump_behind true m n (omega arith) r k).1)
bump_pending test false u m n p q r k = (p, q, (bump_behind false m n (omega arith) r k).1)

count_pod-IsCount :
    (c : ScalePathPodCounts) (pod : ScalePathPod)
    → IsCount c
    → c.total <ℤ max_int32
    → IsCount (count_pod c pod)
unfolding count_pod
count_pod-IsCount c pod (p, q, r, s, t) k =
    let (a, b) = bump_behind pod.ready c.ready c.total p q k in
    let (d, e, f) =
      bump_pending pod.unschedulable (equal_fold pod.phase "Pending") c.unschedulable c.pending
        c.total r s t k in
    (a, b, d, e, f)

count_pod-total :
    (c : ScalePathPodCounts) (pod : ScalePathPod)
    → IsCount c
    → c.total <ℤ max_int32
    → (count_pod c pod).total ≡ c.total +ℤ pos 1
unfolding count_pod
count_pod-total c pod (p, q, r, s, t) k = bump-true c.total (omega arith) k

pub count_pods_from-IsCount :
    (c : ScalePathPodCounts) (pods : List ScalePathPod)
    → IsCount c
    → c.total +ℤ pos (length pods) ≤ℤ max_int32
    → IsCount (count_pods_from c pods)
      × ((count_pods_from c pods).total ≡ c.total +ℤ pos (length pods))
unfolding count_pods_from
count_pods_from-IsCount c [] h k = (h, eq_of_parts _ _ (omega int_laws))
count_pods_from-IsCount c (pod ∷ pods) h k =
    let room : c.total <ℤ max_int32 = omega int_laws in
    let e = count_pod-total c pod h room in
    let (a, b) =
      count_pods_from-IsCount (count_pod c pod) pods (count_pod-IsCount c pod h room)
        (rw e (omega int_laws)) in
    (a, b ∙ rw e (eq_of_parts _ _ (omega int_laws)))

-- For at most 2^31 - 1 pods, the total is their number, the ready pods and the pending pods are at
-- most the total, the unschedulable pods are at most the pending pods, and no count is negative.
pub count_scale_path_pods-IsCount :
    (pods : List ScalePathPod)
    → pos (length pods) ≤ℤ max_int32
    → IsCount (count_scale_path_pods pods)
      × ((count_scale_path_pods pods).total ≡ pos (length pods))
unfolding count_scale_path_pods
count_scale_path_pods-IsCount pods k =
    let (a, b) =
      count_pods_from-IsCount no_pods pods
        (omega arith, omega arith, omega arith, omega arith, omega arith) (omega int_laws) in
    (a, b ∙ eq_of_parts _ _ (omega int_laws))

-- How many pods are ready.
abbrev pub ready_pods : List ScalePathPod → ℕ
ready_pods [] = 0
ready_pods (pod ∷ pods) = elim pod.ready [ true ↦ suc (ready_pods pods) | false ↦ ready_pods pods ]

abbrev pub IsSettled : ScalePathPod → Type 0
IsSettled pod = equal_fold pod.phase "Pending" ≡ false

pub count_pods_from-ready :
    (c : ScalePathPodCounts) (pods : List ScalePathPod)
    → IsCount c
    → c.total +ℤ pos (length pods) ≤ℤ max_int32
    → (count_pods_from c pods).ready ≡ c.ready +ℤ pos (ready_pods pods)
unfolding count_pods_from count_pod
count_pods_from-ready c [] h k = eq_of_parts _ _ (omega int_laws)
count_pods_from-ready c (pod ∷ pods) h k =
    let room : c.total <ℤ max_int32 = omega int_laws in
    let e = count_pod-total c pod h room in
    count_pods_from-ready (count_pod c pod) pods (count_pod-IsCount c pod h room)
      (rw e (omega int_laws))
    ∙ one_more pod.ready (ready_pods pods) room
  where
    one_more :
        (b : Bool) (n : ℕ)
        → c.total <ℤ max_int32
        → bump b c.ready +ℤ pos n ≡ c.ready +ℤ pos (elim b [ true ↦ suc n | false ↦ n ])
    one_more true n room =
        rw (bump-true c.ready (omega arith) (omega int_laws)) (eq_of_parts _ _ (omega int_laws))
    one_more false n room = refl

-- A pending pod is counted, and nothing else.
bump_grows :
    (b : Bool) (n : ℤ)
    → pos 0 ≤ℤ n
    → n <ℤ max_int32
    → (n ≤ℤ bump b n) × ((bump b n ≤ℤ pos 0) ↔ ((n ≤ℤ pos 0) × (b ≡ false)))
bump_grows true n h k =
    rw (bump-true n h k) (omega int_laws, ((λ a. absurd (omega int_laws)), λ a. absurd (cc a.1)))
bump_grows false n h k = (omega arith, ((λ a. (a, refl)), λ a. a.0))

pub count_pods_from-IsSettled :
    (c : ScalePathPodCounts) (pods : List ScalePathPod)
    → IsCount c
    → c.total +ℤ pos (length pods) ≤ℤ max_int32
    → ((count_pods_from c pods).pending ≤ℤ pos 0) ↔ ((c.pending ≤ℤ pos 0) × All IsSettled pods)
unfolding count_pods_from count_pod
count_pods_from-IsSettled c [] h k = (λ a. (a, tt), λ a. a.0)
count_pods_from-IsSettled c (pod ∷ pods) h k =
    let room : c.total <ℤ max_int32 = omega int_laws in
    let e = count_pod-total c pod h room in
    let rest =
      count_pods_from-IsSettled (count_pod c pod) pods (count_pod-IsCount c pod h room)
        (rw e (omega int_laws)) in
    let here =
      (bump_grows (equal_fold pod.phase "Pending") c.pending (omega arith) (omega arith)).1 in
    (
      λ a. let (p, q) = rest.0 a in let (x, y) = here.0 p in (x, (y, q)),
      λ a. rest.1 (here.1 (a.0, a.1.0), a.1.1),
    )
