-- ===== src/Tests/Anomalies.antt =====
-- Series of health scores.
use kubectl_hpa_status.Prelude.{
  ℕ, zero, suc, List, [], ◌∷◌, ◌++◌, pos, true, false, length, All, ◌≡◌, refl, ◌*◌, ◌-ℤ◌,
}
use kubectl_hpa_status.HealthTrend.Anomaly.{
  HealthSnapshot, Variances, detect_anomalies, detect_stuck_state,
}
use kubectl_hpa_status.HealthTrend.Stuck.{FindsRuns, detect_stuck_state-FindsRuns}
use kubectl_hpa_status.HealthTrend.Laws.{IsSound, detect_anomalies-IsSound}

-- The score at a minute.
abbrev score_at : ℕ → ℕ → HealthSnapshot
score_at minute score = record {
  timestamp = pos (minute * 60000000000);
  health_score = pos score;
  health_state = "OK";
}

abbrev steady : ℕ → List HealthSnapshot
steady zero = []
steady (suc n) = score_at n 90 ∷ steady n

abbrev falling : List HealthSnapshot
falling =
    score_at 0 90
    ∷ score_at 1 60
    ∷ score_at 2 60
    ∷ score_at 3 61
    ∷ score_at 4 10
    ∷ score_at 60 90
    ∷ []

-- Arithmetic that knows no escalation.
abbrev flat : Variances
flat = record {
  Float = ℕ;
  variance = λ scores. zero;
  is_zero = λ x. true;
  is_positive = λ x. false;
  escalates = λ x y. false;
}

detect_stuck_state-FindsRuns_example : FindsRuns (steady 25) (detect_stuck_state (steady 25))
detect_stuck_state-FindsRuns_example = detect_stuck_state-FindsRuns (steady 25)

one_plateau : length (detect_stuck_state (falling ++ steady 25)) ≡ 1
unfolding detect_stuck_state ◌-ℤ◌
one_plateau = refl

detect_anomalies-IsSound_example : All (λ a. IsSound a a.kind) (detect_anomalies flat falling)
detect_anomalies-IsSound_example = detect_anomalies-IsSound flat falling

two_drops : length (detect_anomalies flat falling) ≡ 2
unfolding detect_anomalies ◌-ℤ◌
two_drops = refl
