-- ===== src/HealthTrend/Laws.antt =====
-- What an anomaly says is so, when a series counts as flapping, and the range of the scores.
use kubectl_hpa_status.Prelude.{
  ◌≤◌, List, [], ◌∷◌, ◌++◌, ℤ, pos, ◌-ℤ◌, ◌≤ℤ◌, ◌<ℤ◌, Bool, true, false, ltb, leb, ltb_ℤ, leb_ℤ,
  pos_part, neg_part, negsuc, ◌+◌, ◌*◌, length, All, if◌then◌else◌, ◌≡◌, ◌↔◌, refl, if_rule,
  -ℤ_parts, arith,
}
use kubectl_hpa_status.HealthTrend.Anomaly.{
  HealthSnapshot, Anomaly, AnomalyType, sudden_degradation, stuck_state, oscillation_escalation,
  critical, warning, info, is_sudden, sudden_anomaly, sudden_from, detect_sudden_degradation, Run,
  run_of, extend, report_run, is_near, stuck_from, stuck_runs, detect_stuck_state, Variances,
  detect_oscillation_escalation, build_oscillation_anomaly, detect_anomalies,
  sudden_degradation_max_window, sudden_degradation_threshold,
  sudden_degradation_critical_threshold, abs_int, stuck_state_min_consecutive,
  anomaly_min_snapshots, escalated, latest_window, oscillation_window,
}

-- What each type of anomaly claims of the scores, the time between them and the severity.
abbrev pub IsSound : Anomaly → AnomalyType → Type 0
IsSound a sudden_degradation =
    (sudden_degradation_threshold <ℤ a.score_before -ℤ a.score_after)
    × (a.duration ≤ℤ sudden_degradation_max_window)
    × ((a.severity ≡ critical)
        ↔ (sudden_degradation_critical_threshold <ℤ a.score_before -ℤ a.score_after))
IsSound a stuck_state =
    (a.severity ≡ info)
    × (a.score_after -ℤ a.score_before ≤ℤ pos 2)
    × (a.score_before -ℤ a.score_after ≤ℤ pos 2)
IsSound a oscillation_escalation = a.severity ≡ warning

abbrev AllSound : List Anomaly → Type 0
AllSound anomalies = All (λ a. IsSound a a.kind) anomalies

All-append {ℓ} :
    {A : Type 0} (P : A → Type ℓ) (xs ys : List A) → All P xs → All P ys → All P (xs ++ ys)
All-append P [] ys h k = k
All-append P (x ∷ xs) ys (a, h) k = (a, All-append P xs ys h k)

severity_iff : (b : Bool) → ((if b then critical else warning) ≡ critical) ↔ (b ≡ true)
severity_iff true = (λ h. refl, λ h. refl)
severity_iff false = (λ h. cc, λ h. cc)

lt_iff : (a b : ℤ) → (ltb_ℤ a b ≡ true) ↔ (a <ℤ b)
lt_iff a b = (λ h. ground arith, λ h. ground arith)

le_of : (a b : ℤ) → leb_ℤ a b ≡ true → a ≤ℤ b
le_of a b h = ground arith

sudden_from-AllSound :
    (prev : HealthSnapshot) (rest : List HealthSnapshot) → AllSound (sudden_from prev rest)
unfolding sudden_from is_sudden sudden_anomaly
sudden_from-AllSound prev [] = tt
sudden_from-AllSound prev (curr ∷ rest) =
    if_rule AllSound (is_sudden prev curr) (λ p. (sound p, sudden_from-AllSound curr rest))
      (λ _. sudden_from-AllSound curr rest)
  where
    drop_of : ℤ
    drop_of = prev.health_score -ℤ curr.health_score

    critical_iff :
        (ltb_ℤ sudden_degradation_critical_threshold drop_of ≡ true)
        ↔ (sudden_degradation_critical_threshold <ℤ drop_of)
    critical_iff = lt_iff sudden_degradation_critical_threshold drop_of

    sound : is_sudden prev curr ≡ true → IsSound (sudden_anomaly prev curr) sudden_degradation
    sound p = (
      (lt_iff sudden_degradation_threshold drop_of).0 (ground arith),
      le_of (curr.timestamp -ℤ prev.timestamp) sudden_degradation_max_window (ground arith),
      (
        λ h.
            critical_iff.0
              ((severity_iff (ltb_ℤ sudden_degradation_critical_threshold drop_of)).0 h),
        λ h.
            (severity_iff (ltb_ℤ sudden_degradation_critical_threshold drop_of)).1
              (critical_iff.1 h),
      ),
    )

detect_sudden_degradation-AllSound :
    (snapshots : List HealthSnapshot) → AllSound (detect_sudden_degradation snapshots)
unfolding detect_sudden_degradation
detect_sudden_degradation-AllSound [] = tt
detect_sudden_degradation-AllSound (s ∷ rest) = sudden_from-AllSound s rest

abs_bounds :
    (d : ℤ) → leb_ℤ (abs_int d) (pos 2) ≡ true → (d ≤ℤ pos 2) × (neg_part d ≤ pos_part d + 2)
unfolding abs_int
abs_bounds (pos n) h = ground arith
abs_bounds (negsuc n) h = ground arith

near_bounds :
    (a b : ℤ) → leb_ℤ (abs_int (b -ℤ a)) (pos 2) ≡ true → (b -ℤ a ≤ℤ pos 2) × (a -ℤ b ≤ℤ pos 2)
near_bounds a b h =
    let (up, down) = abs_bounds (b -ℤ a) h in (up, omega (arith, -ℤ_parts a b, -ℤ_parts b a))

report_run-AllSound : (run : Run) → is_near run.first run.last ≡ true → AllSound (report_run run)
unfolding report_run is_near
report_run-AllSound run h =
    let (up, down) = near_bounds run.first.health_score run.last.health_score h in
    if_rule AllSound (leb stuck_state_min_consecutive run.count) (λ _. ((refl, up, down), tt))
      (λ _. tt)

near_self : (s : HealthSnapshot) → is_near s s ≡ true
unfolding is_near abs_int
near_self s =
    self (s.health_score -ℤ s.health_score) (omega (arith, -ℤ_parts s.health_score s.health_score))
  where
    self : (d : ℤ) → pos_part d ≡ neg_part d → leb_ℤ (abs_int d) (pos 2) ≡ true
    self (pos n) h = ground arith
    self (negsuc n) h = absurd (omega arith)

stuck_from-AllSound :
    (run : Run) (rest : List HealthSnapshot)
    → is_near run.first run.last ≡ true
    → AllSound (stuck_from run rest)
unfolding stuck_from
stuck_from-AllSound run [] h = report_run-AllSound run h
stuck_from-AllSound run (s ∷ rest) h =
    if_rule AllSound (is_near run.first s) (λ p. stuck_from-AllSound (extend run s) rest p)
      (λ _.
        All-append (λ a. IsSound a a.kind) (report_run run) (stuck_from (run_of s) rest)
          (report_run-AllSound run h) (stuck_from-AllSound (run_of s) rest (near_self s)))

detect_stuck_state-AllSound :
    (snapshots : List HealthSnapshot) → AllSound (detect_stuck_state snapshots)
unfolding detect_stuck_state
detect_stuck_state-AllSound snapshots =
    if_rule AllSound (ltb (length snapshots) stuck_state_min_consecutive) (λ _. tt)
      (λ _. runs snapshots)
  where
    runs : (snapshots : List HealthSnapshot) → AllSound (stuck_runs snapshots)
    runs [] = tt
    runs (s ∷ rest) = stuck_from-AllSound (run_of s) rest (near_self s)

build-AllSound : (snapshots : List HealthSnapshot) → AllSound (build_oscillation_anomaly snapshots)
unfolding build_oscillation_anomaly
build-AllSound [] = tt
build-AllSound (s ∷ rest) = (refl, tt)

detect_oscillation-AllSound :
    (v : Variances) (snapshots : List HealthSnapshot)
    → AllSound (detect_oscillation_escalation v snapshots)
unfolding detect_oscillation_escalation
detect_oscillation-AllSound v snapshots =
    let found = build_oscillation_anomaly (latest_window snapshots) in
    if_rule {x = []} {y = if escalated v snapshots then found else []} AllSound
      (ltb (length snapshots) (oscillation_window * 2)) (λ _. tt)
      (λ _.
        if_rule {x = found} {y = []} AllSound (escalated v snapshots)
          (λ _. build-AllSound (latest_window snapshots)) (λ _. tt))

-- Whatever the snapshots and the float64 arithmetic: a sudden degradation is a drop of more than 20
-- points within ten minutes, and it is critical exactly if the drop exceeds 40; a stuck state starts
-- and ends with scores at most 2 apart and only informs; an escalation of the oscillation warns.
pub detect_anomalies-IsSound :
    (v : Variances) (snapshots : List HealthSnapshot)
    → All (λ a. IsSound a a.kind) (detect_anomalies v snapshots)
unfolding detect_anomalies
detect_anomalies-IsSound v snapshots =
    if_rule AllSound (ltb (length snapshots) anomaly_min_snapshots) (λ _. tt)
      (λ _.
        All-append (λ a. IsSound a a.kind)
          (detect_sudden_degradation snapshots ++ detect_stuck_state snapshots)
          (detect_oscillation_escalation v snapshots)
          (All-append (λ a. IsSound a a.kind) (detect_sudden_degradation snapshots)
            (detect_stuck_state snapshots) (detect_sudden_degradation-AllSound snapshots)
            (detect_stuck_state-AllSound snapshots))
          (detect_oscillation-AllSound v snapshots))
