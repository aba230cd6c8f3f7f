-- ===== src/Capacity/Safety.antt =====
-- A plan is recommended exactly when its checks support it.
use kubectl_hpa_status.Prelude.{
  List, [], ◌∷◌, Bool, true, false, String, str_eq, ◌≡◌, ◌⊎◌, ◌↔◌, refl, arith, All,
}
use kubectl_hpa_status.Capacity.Decision.{
  CheckStatus, check_pass, check_fail, check_unknown, CapacityCheckResult, capacity_status, is_fail,
  has_node_capacity_shortfall, pdbs, cluster_autoscaler, capacity_unknown_blocks_decision, Tally,
  count_check, tally, build_recommendation,
}

-- A status that lets the plan pass, in a domain: pass, or unknown in a domain that only advises.
abbrev pub SupportsAs : CheckStatus → String → Type 0
SupportsAs check_pass domain = Unit
SupportsAs check_fail domain = ⊥
SupportsAs check_unknown domain =
    (str_eq domain pdbs ≡ true) ⊎ (str_eq domain cluster_autoscaler ≡ true)

unfoldable pub Supports : CapacityCheckResult → Type 0
Supports c = SupportsAs (capacity_status c) c.observation_domain

abbrev IsClear : Tally → Type 0
IsClear t = (t.failed_checks ≡ 0) × (t.unknown_checks ≡ 0)

IsClear-count_check :
    (checks : List CapacityCheckResult) (c : CapacityCheckResult) (s : CheckStatus) (t : Tally)
    → has_node_capacity_shortfall checks ≡ false
    → IsClear (count_check checks c s t)
    → SupportsAs s c.observation_domain × IsClear t
unfolding count_check capacity_unknown_blocks_decision
IsClear-count_check checks c check_pass t h p = (tt, p)
IsClear-count_check checks c check_fail t h p = absurd (ground arith)
IsClear-count_check checks c check_unknown t h p = ground arith

count_check-IsClear :
    (checks : List CapacityCheckResult) (c : CapacityCheckResult) (s : CheckStatus) (t : Tally)
    → has_node_capacity_shortfall checks ≡ false
    → SupportsAs s c.observation_domain
    → IsClear t
    → IsClear (count_check checks c s t)
unfolding count_check capacity_unknown_blocks_decision
count_check-IsClear checks c check_pass t h q p = p
count_check-IsClear checks c check_fail t h q p = absurd q
count_check-IsClear checks c check_unknown t h q p = ground arith

-- Without a failing check there is no shortfall.
clear-failed :
    (checks : List CapacityCheckResult) (c : CapacityCheckResult) (s : CheckStatus) (t : Tally)
    → (count_check checks c s t).failed_checks ≡ 0
    → (is_fail s ≡ false) × (t.failed_checks ≡ 0)
unfolding count_check is_fail
clear-failed checks c check_pass t p = (refl, p)
clear-failed checks c check_fail t p = absurd (ground arith)
clear-failed checks c check_unknown t p = ground arith

no_failed-shortfall :
    (checks cs : List CapacityCheckResult)
    → (tally checks cs).failed_checks ≡ 0
    → has_node_capacity_shortfall cs ≡ false
unfolding tally has_node_capacity_shortfall
no_failed-shortfall checks [] p = refl
no_failed-shortfall checks (c ∷ cs) p =
    let (a, b) = clear-failed checks c (capacity_status c) (tally checks cs) p in
    rw a (no_failed-shortfall checks cs b)

is_fail-SupportsAs : (s : CheckStatus) (domain : String) → SupportsAs s domain → is_fail s ≡ false
unfolding is_fail
is_fail-SupportsAs check_pass domain q = refl
is_fail-SupportsAs check_fail domain q = absurd q
is_fail-SupportsAs check_unknown domain q = refl

shortfall-Supports :
    (cs : List CapacityCheckResult) → All Supports cs → has_node_capacity_shortfall cs ≡ false
unfolding has_node_capacity_shortfall Supports
shortfall-Supports [] h = refl
shortfall-Supports (c ∷ cs) (q, h) =
    rw (is_fail-SupportsAs (capacity_status c) c.observation_domain q) (shortfall-Supports cs h)

tally-Supports :
    (checks cs : List CapacityCheckResult)
    → has_node_capacity_shortfall checks ≡ false
    → IsClear (tally checks cs)
    → All Supports cs
unfolding tally Supports
tally-Supports checks [] h p = tt
tally-Supports checks (c ∷ cs) h p =
    let (q, rest) = IsClear-count_check checks c (capacity_status c) (tally checks cs) h p in
    (q, tally-Supports checks cs h rest)

Supports-tally :
    (checks cs : List CapacityCheckResult)
    → has_node_capacity_shortfall checks ≡ false
    → All Supports cs
    → IsClear (tally checks cs)
unfolding tally Supports
Supports-tally checks [] h p = (refl, refl)
Supports-tally checks (c ∷ cs) h (q, p) =
    count_check-IsClear checks c (capacity_status c) (tally checks cs) h q
      (Supports-tally checks cs h p)

safe-tally :
    (checks : List CapacityCheckResult) (autoscaler_present : Bool)
    → ((build_recommendation checks autoscaler_present).safe ≡ true) ↔ IsClear (tally checks checks)
unfolding build_recommendation
safe-tally checks autoscaler_present = ground arith

-- A plan is recommended as safe exactly when each of its checks has the status pass, or has the
-- status unknown for the pod disruption budgets or the cluster autoscaler: no failing check and no
-- other unknown check is ever passed over, whether or not an autoscaler is present.
pub build_recommendation-safe :
    (checks : List CapacityCheckResult) (autoscaler_present : Bool)
    → ((build_recommendation checks autoscaler_present).safe ≡ true) ↔ All Supports checks
build_recommendation-safe checks autoscaler_present =
    let (to, from) = safe-tally checks autoscaler_present in
    (
      λ p. tally-Supports checks checks (no_failed-shortfall checks checks (to p).0) (to p),
      λ h. from (Supports-tally checks checks (shortfall-Supports checks h) h),
    )
