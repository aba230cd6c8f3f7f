-- ===== src/Fleet/Report.antt =====
-- pkg/hpa/fleet/fleet.go. The slice's order is that of sort.Slice, the argument `sort_slice`, which
-- takes the `less` function; Go's comparison of strings is the argument `str_less`. The count
-- fields, of type int, are natural numbers. The text of a risk item is left out.
use kubectl_hpa_status.Prelude.{
  ℕ, suc, List, [], ◌∷◌, ◌++◌, ℤ, pos, Bool, true, false, not, ltb_ℤ, leb_ℤ, eqb_ℤ, ◌+ℤ◌, ◌-ℤ◌,
  int32, length, take, ltb, String, str_eq, append_text, if◌then◌else◌,
}
use kubectl_hpa_status.Api.{Hpa, MetricSource}

pub record RiskItem : Type 0 where
  pub namespace : String
  pub name : String
  pub target : String
  pub current : ℤ
  pub max : ℤ
  pub additional_pods : ℤ

pub record Report : Type 0 where
  pub risk : String
  pub hpas : ℕ
  pub current_pods : ℤ
  pub worst_case_pods : ℤ
  pub additional_pods : ℤ
  pub at_max_replicas : ℕ
  pub without_configured_metric : ℕ
  pub top_risks : List RiskItem

abbrev pub top_risks_limit : ℕ
top_risks_limit = 10

unfoldable pub effective_current : Hpa → ℤ
effective_current hpa =
    if eqb_ℤ hpa.current_replicas (pos 0) then hpa.desired_replicas else hpa.current_replicas

unfoldable pub additional_of : Hpa → ℤ
additional_of hpa =
    let additional = int32 (hpa.max_replicas -ℤ effective_current hpa) in
    if ltb_ℤ additional (pos 0) then pos 0 else additional

abbrev no_metrics : List MetricSource → Bool
no_metrics [] = true
no_metrics (m ∷ ms) = false

unfoldable pub risk_item : Hpa → RiskItem
risk_item hpa = record {
  namespace = hpa.namespace;
  name = hpa.name;
  target = append_text hpa.target_kind (append_text "/" hpa.target_name);
  current = effective_current hpa;
  max = hpa.max_replicas;
  additional_pods = additional_of hpa;
}

-- The body of the loop.
unfoldable pub add_hpa : Report → Hpa → Report
add_hpa report hpa = record report {
  current_pods = int32 (report.current_pods +ℤ effective_current hpa);
  worst_case_pods =
      int32 (report.worst_case_pods +ℤ int32 (effective_current hpa +ℤ additional_of hpa));
  additional_pods = int32 (report.additional_pods +ℤ additional_of hpa);
  at_max_replicas =
      if leb_ℤ hpa.max_replicas (effective_current hpa)
      then suc report.at_max_replicas
      else report.at_max_replicas;
  without_configured_metric =
      if no_metrics hpa.metrics
      then suc report.without_configured_metric
      else report.without_configured_metric;
  top_risks =
      if ltb_ℤ (pos 0) (additional_of hpa)
      then report.top_risks ++ risk_item hpa ∷ []
      else report.top_risks;
}

unfoldable pub add_hpas : Report → List Hpa → Report
add_hpas report [] = report
add_hpas report (hpa ∷ hpas) = add_hpas (add_hpa report hpa) hpas

module _ (str_less : String → String → Bool) where
  -- The `less` function of sort.Slice.
  unfoldable pub risk_less : RiskItem → RiskItem → Bool
  risk_less a b =
      if not (eqb_ℤ a.additional_pods b.additional_pods)
      then ltb_ℤ b.additional_pods a.additional_pods
      else if not (str_eq a.namespace b.namespace)
      then str_less a.namespace b.namespace
      else str_less a.name b.name

abbrev pub empty_report : String → ℕ → Report
empty_report risk hpas = record {
  risk = risk;
  hpas = hpas;
  current_pods = pos 0;
  worst_case_pods = pos 0;
  additional_pods = pos 0;
  at_max_replicas = 0;
  without_configured_metric = 0;
  top_risks = [];
}

unfoldable pub build_report :
    ((RiskItem → RiskItem → Bool) → List RiskItem → List RiskItem)
    → (String → String → Bool)
    → List Hpa
    → String
    → Report
build_report sort_slice str_less hpas risk =
    let report = add_hpas (empty_report risk (length hpas)) hpas in
    let sorted = sort_slice (risk_less str_less) report.top_risks in
    record report {
      top_risks =
          if ltb top_risks_limit (length sorted) then take top_risks_limit sorted else sorted;
    }
