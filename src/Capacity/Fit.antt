-- ===== src/Capacity/Fit.antt =====
-- pkg/hpa/capacityplan/capacity_plan_math.go and pkg/hpa/resourceutil/quantity.go.
-- A resource.Quantity is an exact decimal; here it is the integer number of its smallest units.
-- resource.ParseQuantity is the argument `parse`, with `none` for its error.
use kubectl_hpa_status.Prelude.{
  ℕ, zero, suc, ◌+◌, ◌-◌, ◌/◌, List, [], ◌∷◌, ℤ, pos, Bool, false, ◌&&◌, ◌||◌, not, ltb, ltb_ℤ,
  leb_ℤ, eqb_ℤ, ◌+ℤ◌, ◌-ℤ◌, ◌*ℤ◌, int64, max_int32, min_ℤ, String, str_eq, Option, none, some,
  if◌then◌else◌,
}

unfoldable pub multiply : ℤ → ℤ → ℤ
multiply q factor = if leb_ℤ factor (pos 0) || eqb_ℤ q (pos 0) then pos 0 else q *ℤ factor

-- The closure `fits` of podsFitInResources.
unfoldable pub fits : ℤ → ℤ → ℤ → ℤ → ℕ → Bool
unfolding multiply
fits available_cpu available_memory per_pod_cpu per_pod_memory count =
    if not (eqb_ℤ per_pod_cpu (pos 0)) && ltb_ℤ available_cpu (multiply per_pod_cpu (pos count))
    then false
    else eqb_ℤ per_pod_memory (pos 0)
      || leb_ℤ (multiply per_pod_memory (pos count)) available_memory

-- The bisection; one unit of fuel for each round.
unfoldable pub bisect : ℕ → (ℕ → Bool) → ℕ → ℕ → ℕ
bisect zero test low high = low
bisect (suc fuel) test low high =
    let mid = low + (high - low) / 2 in
    let round = bisect fuel test (if test mid then mid else low) (if test mid then high else mid) in
    if ltb (low + 1) high then round else low

-- 31 rounds halve the initial interval of 2^31 numbers to one.
abbrev pub rounds : ℕ
rounds = 31

unfoldable pub pods_fit_in_resources : ℤ → ℤ → ℤ → ℤ → ℤ
pods_fit_in_resources available_cpu available_memory per_pod_cpu per_pod_memory =
    if eqb_ℤ per_pod_cpu (pos 0) && eqb_ℤ per_pod_memory (pos 0)
    then max_int32
    else pos (
        bisect rounds (fits available_cpu available_memory per_pod_cpu per_pod_memory) 0 2147483648)

pub record NodeHeadroom : Type 0 where
  pub available_cpu : String
  pub available_memory : String
  pub pod_capacity_known : Bool
  pub available_pods : ℤ

pub record NodeCapacitySummary : Type 0 where
  pub total_nodes : ℤ
  pub node_headrooms : List NodeHeadroom
  pub available_cpu : String
  pub available_memory : String
  pub alloc_cpu : String
  pub alloc_memory : String
  pub pod_capacity_known : Bool
  pub available_pods : ℤ

-- A container's requests and limits.
pub record ContainerResources : Type 0 where
  pub cpu : String
  pub memory : String
  pub limit_cpu : String
  pub limit_memory : String

module _ (parse : String → Option ℤ) where
  abbrev or_zero : Option ℤ → ℤ
  or_zero none = pos 0
  or_zero (some q) = q

  unfoldable pub parse_quantity_or_zero : String → ℤ
  parse_quantity_or_zero s = or_zero (parse s)

  -- One addend of sumContainerResources.
  abbrev requested : String → ℤ
  requested s = if not (str_eq s "") && not (str_eq s "0") then parse_quantity_or_zero s else pos 0

  unfoldable pub sum_container_resources : List ContainerResources → ℤ × ℤ
  sum_container_resources [] = (pos 0, pos 0)
  sum_container_resources (c ∷ cs) =
      let (cpu, memory) = sum_container_resources cs in
      (requested c.cpu +ℤ cpu, requested c.memory +ℤ memory)

  unfoldable pub effective_per_pod_resources : List ContainerResources → String → String → ℤ × ℤ
  effective_per_pod_resources containers pod_request_cpu pod_request_memory =
      let (cpu, memory) = sum_container_resources containers in
      (
        if str_eq pod_request_cpu "" then cpu else parse_quantity_or_zero pod_request_cpu,
        if str_eq pod_request_memory "" then memory else parse_quantity_or_zero pod_request_memory,
      )

  -- One addend of effectivePerPodLimits.
  abbrev limit_of : String → ℤ
  limit_of s = if str_eq s "" then pos 0 else parse_quantity_or_zero s

  unfoldable pub sum_container_limits : List ContainerResources → ℤ × ℤ
  sum_container_limits [] = (pos 0, pos 0)
  sum_container_limits (c ∷ cs) =
      let (cpu, memory) = sum_container_limits cs in
      (limit_of c.limit_cpu +ℤ cpu, limit_of c.limit_memory +ℤ memory)

  unfoldable pub effective_per_pod_limits : List ContainerResources → String → String → ℤ × ℤ
  effective_per_pod_limits containers pod_limit_cpu pod_limit_memory =
      let (cpu, memory) = sum_container_limits containers in
      (
        if str_eq pod_limit_cpu "" then cpu else parse_quantity_or_zero pod_limit_cpu,
        if str_eq pod_limit_memory "" then memory else parse_quantity_or_zero pod_limit_memory,
      )

  -- What one node adds: its fit, capped by its free pod slots, if that is positive.
  unfoldable pub node_fit : ℤ → ℤ → NodeHeadroom → ℤ
  node_fit per_pod_cpu per_pod_memory node =
      let fit =
        pods_fit_in_resources (parse_quantity_or_zero node.available_cpu)
          (parse_quantity_or_zero node.available_memory) per_pod_cpu per_pod_memory in
      let capped =
        if node.pod_capacity_known && ltb_ℤ node.available_pods fit
        then node.available_pods
        else fit in
      if ltb_ℤ (pos 0) capped then capped else pos 0

  -- The loop over the nodes returns early at MaxInt32.
  unfoldable pub sum_nodes : ℤ → ℤ → ℤ → List NodeHeadroom → ℤ
  sum_nodes per_pod_cpu per_pod_memory total [] = total
  sum_nodes per_pod_cpu per_pod_memory total (node ∷ nodes) =
      let next = int64 (total +ℤ node_fit per_pod_cpu per_pod_memory node) in
      let rest = sum_nodes per_pod_cpu per_pod_memory next nodes in
      if leb_ℤ max_int32 next then max_int32 else rest

  -- The aggregate branch, from the remaining resources.
  unfoldable pub cap_by_pods : NodeCapacitySummary → ℤ → ℤ
  cap_by_pods nc fit =
      if nc.pod_capacity_known && ltb_ℤ nc.available_pods fit
      then (if leb_ℤ nc.available_pods (pos 0) then pos 0 else min_ℤ nc.available_pods max_int32)
      else fit

  abbrev remaining : String → String → Bool → ℤ → ℤ → ℤ
  remaining available alloc observed per_pod ready_pods =
      if observed
      then parse_quantity_or_zero available
      else parse_quantity_or_zero alloc -ℤ multiply per_pod ready_pods

  unfoldable pub schedulable_on : NodeCapacitySummary → ℤ → ℤ → ℤ → List NodeHeadroom → ℤ
  schedulable_on nc per_pod_cpu per_pod_memory ready_pods [] =
      let observed = not (str_eq nc.available_cpu "") || not (str_eq nc.available_memory "") in
      cap_by_pods nc (
        pods_fit_in_resources
          (remaining nc.available_cpu nc.alloc_cpu observed per_pod_cpu ready_pods)
          (remaining nc.available_memory nc.alloc_memory observed per_pod_memory ready_pods)
          per_pod_cpu per_pod_memory)
  schedulable_on nc per_pod_cpu per_pod_memory ready_pods (node ∷ nodes) =
      sum_nodes per_pod_cpu per_pod_memory (pos 0) (node ∷ nodes)

  unfoldable pub compute_schedulable_now : Option NodeCapacitySummary → ℤ → ℤ → ℤ → ℤ
  compute_schedulable_now none per_pod_cpu per_pod_memory ready_pods = pos 0
  compute_schedulable_now (some nc) per_pod_cpu per_pod_memory ready_pods =
      if eqb_ℤ nc.total_nodes (pos 0)
      then pos 0
      else schedulable_on nc per_pod_cpu per_pod_memory ready_pods nc.node_headrooms
