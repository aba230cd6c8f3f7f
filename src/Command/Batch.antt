-- ===== src/Command/Batch.antt =====
-- cmd/status_batch.go: the results for several HPAs. A report of any type R has a health, a name and a
-- namespace.
use kubectl_hpa_status.Prelude.{
  ℕ, suc, List, [], ◌∷◌, Bool, true, false, not, ◌&&◌, ◌||◌, Option, none, some, String, length,
  if◌then◌else◌,
}
use kubectl_hpa_status.Health.Score.{HealthState}
use kubectl_hpa_status.Command.ExitCode.{
  CommandError, exit_code_error, could_not_report, exit_error, health_is_warning, warning_exit_code,
}

-- pkg/hpa/status_batch.go
pub data BatchStatus : Type 0 where
  status_ok status_warning status_error : BatchStatus

pub record Reports (R : Type 0) : Type 0 where
  pub health_of : R → HealthState
  pub name_of : R → String
  pub namespace_of : R → String

-- A report, or the error that prevented it.
pub data Built (R : Type 0) : Type 0 where
  report : R → Built R
  failure : CommandError → Built R

pub record ReportResult (R : Type 0) : Type 0 where
  pub name : String
  pub namespace : String
  pub built : Built R

pub record StatusBatchItem (R : Type 0) : Type 0 where
  pub namespace : String
  pub name : String
  pub status : BatchStatus
  pub item_error : Option CommandError
  pub item_report : Option R

module _ {R : Type 0} where
  abbrev pub has_report : Built R → Bool
  has_report (report r) = true
  has_report (failure e) = false

  abbrev report_of : Built R → Option R
  report_of (report r) = some r
  report_of (failure e) = none

  abbrev error_of : Built R → Option CommandError
  error_of (report r) = none
  error_of (failure e) = some e

  unfoldable pub count_failed : List (ReportResult R) → ℕ
  count_failed [] = 0
  count_failed (r ∷ results) =
      let n = count_failed results in if has_report r.built then n else suc n

  abbrev reports_from : Built R → List R → List R
  reports_from (report r) rest = r ∷ rest
  reports_from (failure e) rest = rest

  unfoldable pub success_reports : List (ReportResult R) → List R
  success_reports [] = []
  success_reports (r ∷ results) = reports_from r.built (success_reports results)

  module _ (reports : Reports R) where
    open reports use {health_of, name_of, namespace_of}

    abbrev pub status_of : Built R → BatchStatus
    status_of (failure e) = status_error
    status_of (report r) = if health_is_warning (health_of r) then status_warning else status_ok

    -- reportResult.batchStatus
    unfoldable pub batch_status : ReportResult R → BatchStatus
    batch_status r = status_of r.built

    unfoldable pub build_status_batch : List (ReportResult R) → List (StatusBatchItem R)
    unfolding batch_status
    build_status_batch [] = []
    build_status_batch (r ∷ results) =
        record {
          namespace = r.namespace;
          name = r.name;
          status = batch_status r;
          item_error = error_of r.built;
          item_report = report_of r.built;
        }
        ∷ build_status_batch results

    abbrev pub warns : Built R → Bool
    warns (report r) = health_is_warning (health_of r)
    warns (failure e) = false

    -- The first loop: whether there is an error, and whether a warning stands before it.
    unfoldable pub scan_results : Bool → List (ReportResult R) → Bool × Bool
    scan_results has_warning [] = (false, has_warning)
    scan_results has_warning (r ∷ results) =
        let rest = scan_results (has_warning || warns r.built) results in
        if has_report r.built then rest else (true, has_warning)

    -- For a result without a report the second loop would read the zero report, but it runs only if
    -- there is none.
    abbrev pub exit_of : Built R → Option CommandError
    exit_of (report r) = warning_exit_code (health_of r) (name_of r) (namespace_of r) false
    exit_of (failure e) = none

    abbrev pub or_error : Option CommandError → Option CommandError → Option CommandError
    or_error none e = e
    or_error (some d) e = some d

    unfoldable pub first_warning : List (ReportResult R) → Option CommandError
    first_warning [] = none
    first_warning (r ∷ results) = or_error (exit_of r.built) (first_warning results)

    unfoldable pub aggregate_batch_exit_code : Bool → List (ReportResult R) → Option CommandError
    unfolding scan_results first_warning count_failed
    aggregate_batch_exit_code watch_mode results =
        let (has_error, has_warning) = scan_results false results in
        if has_error
        then some
            (exit_code_error exit_error (could_not_report (count_failed results) (length results)))
        else if has_warning && not watch_mode
        then first_warning results
        else none
