-- ===== src/Tests/Outcomes.antt =====
-- The exit codes of a batch of three.
use kubectl_hpa_status.Prelude.{[], ◌∷◌, List, pos, false, some, ◌≡◌, refl}
use kubectl_hpa_status.Health.Score.{HealthState, ok, limited}
use kubectl_hpa_status.Command.ExitCode.{hpa_not_found, other, wrapped, joined, exit_code_for_main}
use kubectl_hpa_status.Command.Batch.{
  Reports, ReportResult, Built, report, failure, build_status_batch, aggregate_batch_exit_code,
}
use kubectl_hpa_status.Command.Outcome.{expected_code, exit_code_for_main-aggregate}

abbrev in_shop : Reports HealthState
in_shop = record { health_of = λ h. h; name_of = λ h. "web"; namespace_of = λ h. "shop" }

abbrev result_of : Built HealthState → ReportResult HealthState
result_of built = record { name = "web"; namespace = "shop"; built = built }

abbrev mixed : List (ReportResult HealthState)
mixed =
    result_of (report ok) ∷ result_of (report limited) ∷ result_of (failure (other "timeout")) ∷ []

exit_code_for_main-aggregate_example :
    exit_code_for_main (aggregate_batch_exit_code in_shop false mixed)
    ≡ expected_code false (build_status_batch in_shop mixed)
exit_code_for_main-aggregate_example = exit_code_for_main-aggregate in_shop false mixed

failed_batch : exit_code_for_main (aggregate_batch_exit_code in_shop false mixed) ≡ pos 1
unfolding exit_code_for_main aggregate_batch_exit_code
failed_batch = refl

missing_hpa : exit_code_for_main (some (wrapped (joined hpa_not_found (other "404")))) ≡ pos 3
unfolding exit_code_for_main
missing_hpa = refl
