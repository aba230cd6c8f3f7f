-- ===== src/Fleet/Totals.antt =====
-- The totals of a fleet report.
use kubectl_hpa_status.Prelude.{
  List, [], ◌∷◌, ℤ, pos, Bool, ◌+ℤ◌, ◌-ℤ◌, ◌≤ℤ◌, int32, int32_of_IsInt32, max_int32, max_ℤ, length,
  All, ◌≡◌, pos_part, neg_part, ◌+◌, eq_of_parts, int_laws, arith, String,
}
use kubectl_hpa_status.Api.{Hpa}
use kubectl_hpa_status.Fleet.Report.{
  RiskItem, Report, effective_current, additional_of, add_hpa, add_hpas, empty_report, build_report,
}

-- The sum of a measure over the fleet.
abbrev pub total : (Hpa → ℤ) → List Hpa → ℤ
total f [] = pos 0
total f (h ∷ hs) = f h +ℤ total f hs

-- The pods of an autoscaler at its ceiling, or now, if it is beyond it.
abbrev pub peak : Hpa → ℤ
peak h = max_ℤ (effective_current h) h.max_replicas

abbrev pub HasCounts : Hpa → Type 0
HasCounts h = (pos 0 ≤ℤ effective_current h) × (pos 0 ≤ℤ h.max_replicas)

gap-int32 :
    (m e : ℤ) → pos 0 ≤ℤ e → pos 0 ≤ℤ m → e ≤ℤ max_int32 → m ≤ℤ max_int32 → int32 (m -ℤ e) ≡ m -ℤ e
gap-int32 m e a b c d = int32_of_IsInt32 (m -ℤ e) (omega int_laws, omega int_laws)

additional-peak :
    (h : Hpa) → HasCounts h → peak h ≤ℤ max_int32 → additional_of h ≡ peak h -ℤ effective_current h
unfolding additional_of max_ℤ
additional-peak h (a, b) p =
    rw (gap-int32 h.max_replicas (effective_current h) a b (ground arith) (ground arith))
      (grind int_laws)

-- Two integers are equal, in the form that `omega` reads.
abbrev ◌≈◌ : ℤ → ℤ → Type 0
a ≈ b = pos_part a + neg_part b ≡ pos_part b + neg_part a

infix 50 ◌≈◌
-- The report `r` counts on from the report `t` over the fleet `hs`.
abbrev Counts : Report → List Hpa → Report → Type 0
Counts t hs r =
    (r.current_pods ≈ t.current_pods +ℤ total effective_current hs)
    × (r.worst_case_pods ≈ t.worst_case_pods +ℤ total peak hs)
    × (r.additional_pods ≈ t.additional_pods +ℤ (total peak hs -ℤ total effective_current hs))

-- The counts of a report, none of which has passed the worst case.
abbrev IsSound : Report → Type 0
IsSound t =
    (pos 0 ≤ℤ t.current_pods)
    × (pos 0 ≤ℤ t.additional_pods)
    × (t.worst_case_pods ≈ t.current_pods +ℤ t.additional_pods)

effective-peak : (h : Hpa) → HasCounts h → (effective_current h ≤ℤ peak h) × (pos 0 ≤ℤ peak h)
unfolding max_ℤ
effective-peak h (a, b) = ground arith

peak-nonneg : (hs : List Hpa) → All HasCounts hs → pos 0 ≤ℤ total peak hs
peak-nonneg [] h = omega arith
peak-nonneg (x ∷ hs) (c, h) =
    let (a, b) = effective-peak x c in let ih = peak-nonneg hs h in omega int_laws

kept : (a : ℤ) → pos 0 ≤ℤ a → a ≤ℤ max_int32 → int32 a ≡ a
kept a p q = int32_of_IsInt32 a (omega arith, q)

add_hpa-Counts :
    (t : Report) (h : Hpa)
    → IsSound t
    → HasCounts h
    → t.worst_case_pods +ℤ peak h ≤ℤ max_int32
    → ((add_hpa t h).current_pods ≈ t.current_pods +ℤ effective_current h)
      × ((add_hpa t h).worst_case_pods ≈ t.worst_case_pods +ℤ peak h)
      × ((add_hpa t h).additional_pods ≈ t.additional_pods +ℤ (peak h -ℤ effective_current h))
unfolding add_hpa
add_hpa-Counts t h (p, q, s) c k =
    let (n, m) = effective-peak h c in
    let (e, f) = c in
    rw
      (
        additional-peak h c (omega int_laws),
        kept (t.current_pods +ℤ effective_current h) (omega int_laws) (omega int_laws),
        kept (effective_current h +ℤ (peak h -ℤ effective_current h)) (omega int_laws)
            (omega int_laws),
        kept (t.worst_case_pods +ℤ (effective_current h +ℤ (peak h -ℤ effective_current h)))
            (omega int_laws) (omega int_laws),
        kept (t.additional_pods +ℤ (peak h -ℤ effective_current h)) (omega int_laws)
            (omega int_laws),
      )
      (omega arith, omega int_laws, omega arith)

add_hpas-Counts :
    (t : Report) (hs : List Hpa)
    → IsSound t
    → All HasCounts hs
    → t.worst_case_pods +ℤ total peak hs ≤ℤ max_int32
    → Counts t hs (add_hpas t hs)
unfolding add_hpas
add_hpas-Counts t [] s c k = (omega int_laws, omega int_laws, omega int_laws)
add_hpas-Counts t (h ∷ hs) (p, q, s) (c, cs) k =
    let (e, f) = c in
    let (n, m) = effective-peak h c in
    let rest = peak-nonneg hs cs in
    let one = add_hpa-Counts t h (p, q, s) c (omega int_laws) in
    let ih =
      add_hpas-Counts (add_hpa t h) hs (omega int_laws, omega int_laws, omega int_laws) cs
        (omega int_laws) in
    (omega int_laws, omega int_laws, omega int_laws)

-- For a fleet whose effective counts and maximums are not negative, and whose worst case fits an
-- int32, the report's current pods are the sum of the effective counts, its worst case is the sum
-- over the fleet of the larger of the effective count and maxReplicas, and its additional pods are
-- the difference of the two.
pub build_report-totals :
    (sort_slice : (RiskItem → RiskItem → Bool) → List RiskItem → List RiskItem)
    (str_less : String → String → Bool) (hpas : List Hpa) (risk : String)
    → All HasCounts hpas
    → total peak hpas ≤ℤ max_int32
    → ((build_report sort_slice str_less hpas risk).current_pods ≡ total effective_current hpas)
      × ((build_report sort_slice str_less hpas risk).worst_case_pods ≡ total peak hpas)
      × ((build_report sort_slice str_less hpas risk).additional_pods
          ≡ total peak hpas -ℤ total effective_current hpas)
unfolding build_report
build_report-totals sort_slice str_less hpas risk h k =
    let start = empty_report risk (length hpas) in
    let r =
      add_hpas-Counts start hpas (omega arith, omega arith, omega int_laws) h (omega int_laws) in
    (
      eq_of_parts _ _ (omega (int_laws, r.0)),
      eq_of_parts _ _ (omega (int_laws, r.1)),
      eq_of_parts _ _ (omega (int_laws, r.2)),
    )
