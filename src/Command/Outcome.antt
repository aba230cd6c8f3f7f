-- ===== src/Command/Outcome.antt =====
-- The exit code of a batch follows from the statuses that its output shows.
use kubectl_hpa_status.Prelude.{
  List, [], ◌∷◌, ℤ, Bool, true, false, not, ◌&&◌, ◌||◌, Option, none, if◌then◌else◌, ◌≡◌, refl, ◌∙◌,
  inl, inr, Bool-cases,
}
use kubectl_hpa_status.Command.ExitCode.{
  CommandError, exit_code_for_main, exit_success, exit_error, exit_warning, health_is_warning,
  warning_exit_code,
}
use kubectl_hpa_status.Command.Batch.{
  BatchStatus, status_warning, status_error, Reports, ReportResult, Built, report, failure,
  StatusBatchItem, build_status_batch, aggregate_batch_exit_code, scan_results, first_warning,
  warns, has_report, status_of, exit_of, or_error,
}

abbrev pub is_error_status : BatchStatus → Bool
is_error_status status_error = true
is_error_status _ = false

abbrev pub is_warning_status : BatchStatus → Bool
is_warning_status status_warning = true
is_warning_status _ = false

abbrev pub some_item : {R : Type 0} → (BatchStatus → Bool) → List (StatusBatchItem R) → Bool
some_item test [] = false
some_item test (item ∷ items) = test item.status || some_item test items

-- The code for what the items of an envelope show.
abbrev pub expected_code : {R : Type 0} → Bool → List (StatusBatchItem R) → ℤ
expected_code watch_mode items =
    if some_item is_error_status items
    then exit_error
    else if some_item is_warning_status items && not watch_mode
    then exit_warning
    else exit_success

or_assoc : (a b c : Bool) → ((a || b) || c) ≡ (a || (b || c))
or_assoc true b c = refl
or_assoc false b c = refl

module _ {R : Type 0} (reports : Reports R) where
  abbrev Scans : Bool → Bool × Bool → Bool → Bool → Type 0
  Scans w s has_errors has_warnings = (s.0 ≡ has_errors) × (s.0 ≡ false → s.1 ≡ (w || has_warnings))

  scan_step :
      (b : Built R) (w : Bool) (s : Bool → Bool × Bool) (has_errors has_warnings : Bool)
      → ((v : Bool) → Scans v (s v) has_errors has_warnings)
      → Scans w
          (if has_report b then s (w || warns reports b) else (true, w))
          (is_error_status (status_of reports b) || has_errors)
          (is_warning_status (status_of reports b) || has_warnings)
  scan_step (failure e) w s has_errors has_warnings h = (refl, λ e'. cc e')
  scan_step (report r) w s has_errors has_warnings h =
      elim (Bool-cases (health_is_warning (reports.health_of r))) [
        | inl p ↦ rw p ((h (w || true)).0, λ e. (h (w || true)).1 e ∙ or_assoc w true has_warnings)
        | inr p ↦
            rw p ((h (w || false)).0, λ e. (h (w || false)).1 e ∙ or_assoc w false has_warnings)
      ]

  scan_lem :
      (w : Bool) (results : List (ReportResult R))
      → Scans w
          (scan_results reports w results)
          (some_item is_error_status (build_status_batch reports results))
          (some_item is_warning_status (build_status_batch reports results))
  unfolding scan_results build_status_batch
  scan_lem w [] = (refl, λ e. or_false w)
    where
      or_false : (a : Bool) → a ≡ (a || false)
      or_false true = refl
      or_false false = refl
  scan_lem w (r ∷ results) =
      scan_step r.built w (λ v. scan_results reports v results)
        (some_item is_error_status (build_status_batch reports results))
        (some_item is_warning_status (build_status_batch reports results)) (λ v. scan_lem v results)

  warning_step :
      (b : Built R) (later : Option CommandError) (has_errors has_warnings : Bool)
      → (is_error_status (status_of reports b) || has_errors) ≡ false
      → (is_warning_status (status_of reports b) || has_warnings) ≡ true
      → (has_errors ≡ false → has_warnings ≡ true → exit_code_for_main later ≡ exit_warning)
      → exit_code_for_main (or_error reports (exit_of reports b) later) ≡ exit_warning
  unfolding exit_code_for_main warning_exit_code
  warning_step (failure e) later has_errors has_warnings h k rest = cc h
  warning_step (report r) later has_errors has_warnings h k rest =
      elim (Bool-cases (health_is_warning (reports.health_of r))) [
        | inl p ↦ rw p refl
        | inr p ↦ rw p (rest (rw p at h) (rw p at k))
      ]

  first_warning_lem :
      (results : List (ReportResult R))
      → some_item is_error_status (build_status_batch reports results) ≡ false
      → some_item is_warning_status (build_status_batch reports results) ≡ true
      → exit_code_for_main (first_warning reports results) ≡ exit_warning
  unfolding first_warning build_status_batch
  first_warning_lem [] h k = cc k
  first_warning_lem (r ∷ results) h k =
      warning_step r.built (first_warning reports results) _ _ h k (first_warning_lem results)

  of_watch :
      (watch_mode : Bool) (results : List (ReportResult R))
      → some_item is_error_status (build_status_batch reports results) ≡ false
      → some_item is_warning_status (build_status_batch reports results) ≡ true
      → exit_code_for_main (if not watch_mode then first_warning reports results else none)
        ≡ (if not watch_mode then exit_warning else exit_success)
  unfolding exit_code_for_main
  of_watch true results p k = refl
  of_watch false results p k = first_warning_lem results p k

  -- The exit code of a batch and the statuses of the items in its output agree: it is 1 exactly if
  -- some item has the status error, else 2 if some item has the status warning and the command does not
  -- watch, and else 0.
  pub exit_code_for_main-aggregate :
      (watch_mode : Bool) (results : List (ReportResult R))
      → exit_code_for_main (aggregate_batch_exit_code reports watch_mode results)
        ≡ expected_code watch_mode (build_status_batch reports results)
  unfolding aggregate_batch_exit_code exit_code_for_main
  exit_code_for_main-aggregate watch_mode results =
      let items = build_status_batch reports results in
      let (errors, warnings) = scan_lem false results in
      elim (Bool-cases (some_item is_error_status items)) [
        | inl p ↦ rw (errors, p) refl
        | inr p ↦ elim (Bool-cases (some_item is_warning_status items)) [
          | inl k ↦ rw (errors ∙ p, p, warnings (errors ∙ p), k) (of_watch watch_mode results p k)
          | inr k ↦ rw (errors ∙ p, p, warnings (errors ∙ p), k) refl
        ]
      ]
