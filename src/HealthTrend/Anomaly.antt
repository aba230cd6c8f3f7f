-- ===== src/HealthTrend/Anomaly.antt =====
-- pkg/hpa/healthtrend/anomaly.go and the detection of flapping in healthtrend.go. A health score is an
-- int, whose differences do not come near its limits. The mean and the variance are float64, which is an
-- argument: `variance` of a list of scores, and the tests of detectOscillationEscalation on two of them.
-- The texts of an anomaly follow from its type and are left out.
use kubectl_hpa_status.Prelude.{
  ℕ, suc, ◌-◌, ◌*◌, List, [], ◌∷◌, ◌++◌, ℤ, pos, negsuc, ◌-ℤ◌, Bool, ◌&&◌, ltb, leb, ltb_ℤ, leb_ℤ,
  length, take, drop, map, Option, none, some, String, str_eq, if◌then◌else◌,
}

pub record HealthSnapshot : Type 0 where
  pub timestamp : ℤ
  pub health_score : ℤ
  pub health_state : String

pub data AnomalyType : Type 0 where
  sudden_degradation stuck_state oscillation_escalation : AnomalyType

pub data Severity : Type 0 where
  critical warning info : Severity

pub record Anomaly : Type 0 where
  pub timestamp : ℤ
  pub kind : AnomalyType
  pub severity : Severity
  pub score_before : ℤ
  pub score_after : ℤ
  pub duration : ℤ

abbrev pub anomaly_min_snapshots : ℕ
anomaly_min_snapshots = 5

abbrev pub sudden_degradation_threshold : ℤ
sudden_degradation_threshold = pos 20

abbrev pub sudden_degradation_critical_threshold : ℤ
sudden_degradation_critical_threshold = pos 40

-- Ten minutes, in nanoseconds.
abbrev pub sudden_degradation_max_window : ℤ
sudden_degradation_max_window = pos 600000000000

abbrev pub stuck_state_threshold : ℤ
stuck_state_threshold = pos 2

abbrev pub stuck_state_min_consecutive : ℕ
stuck_state_min_consecutive = 20

abbrev pub oscillation_window : ℕ
oscillation_window = 10

unfoldable pub is_sudden : HealthSnapshot → HealthSnapshot → Bool
is_sudden prev curr =
    ltb_ℤ sudden_degradation_threshold (prev.health_score -ℤ curr.health_score)
    && leb_ℤ (curr.timestamp -ℤ prev.timestamp) sudden_degradation_max_window

unfoldable pub sudden_anomaly : HealthSnapshot → HealthSnapshot → Anomaly
sudden_anomaly prev curr = record {
  timestamp = curr.timestamp;
  kind = sudden_degradation;
  severity =
      if ltb_ℤ sudden_degradation_critical_threshold (prev.health_score -ℤ curr.health_score)
      then critical
      else warning;
  score_before = prev.health_score;
  score_after = curr.health_score;
  duration = curr.timestamp -ℤ prev.timestamp;
}

unfoldable pub sudden_from : HealthSnapshot → List HealthSnapshot → List Anomaly
unfolding is_sudden sudden_anomaly
sudden_from prev [] = []
sudden_from prev (curr ∷ rest) =
    let later = sudden_from curr rest in
    if is_sudden prev curr then sudden_anomaly prev curr ∷ later else later

unfoldable pub detect_sudden_degradation : List HealthSnapshot → List Anomaly
unfolding sudden_from
detect_sudden_degradation [] = []
detect_sudden_degradation (first ∷ rest) = sudden_from first rest

unfoldable pub abs_int : ℤ → ℤ
abs_int (pos n) = pos n
abs_int (negsuc n) = pos (suc n)

unfoldable pub is_near : HealthSnapshot → HealthSnapshot → Bool
unfolding abs_int
is_near first s = leb_ℤ (abs_int (s.health_score -ℤ first.health_score)) stuck_state_threshold

-- A run of snapshots: its first one, its last one and how many it has.
pub record Run : Type 0 where
  pub first : HealthSnapshot
  pub last : HealthSnapshot
  pub count : ℕ

abbrev pub stuck_anomaly : Run → Anomaly
stuck_anomaly run = record {
  timestamp = run.last.timestamp;
  kind = stuck_state;
  severity = info;
  score_before = run.first.health_score;
  score_after = run.last.health_score;
  duration = run.last.timestamp -ℤ run.first.timestamp;
}

-- What the end of a run reports.
unfoldable pub report_run : Run → List Anomaly
report_run run = if leb stuck_state_min_consecutive run.count then stuck_anomaly run ∷ [] else []

abbrev pub run_of : HealthSnapshot → Run
run_of s = record { first = s; last = s; count = 1 }

abbrev pub extend : Run → HealthSnapshot → Run
extend run s = record run { last = s; count = suc run.count }

-- The loop, in the run that started at `runStart`.
unfoldable pub stuck_from : Run → List HealthSnapshot → List Anomaly
unfolding is_near report_run
stuck_from run [] = report_run run
stuck_from run (s ∷ rest) =
    let longer = stuck_from (extend run s) rest in
    let ended = report_run run ++ stuck_from (run_of s) rest in
    if is_near run.first s then longer else ended

abbrev pub stuck_runs : List HealthSnapshot → List Anomaly
stuck_runs [] = []
stuck_runs (s ∷ rest) = stuck_from (run_of s) rest

unfoldable pub detect_stuck_state : List HealthSnapshot → List Anomaly
unfolding stuck_from
detect_stuck_state snapshots =
    if ltb (length snapshots) stuck_state_min_consecutive then [] else stuck_runs snapshots

-- What the code does with float64: the variance of a list of scores around its mean, whether it is zero
-- or positive, and whether the second exceeds the first one times oscillationEscalationFactor.
pub record Variances : Type 1 where
  pub Float : Type 0
  pub variance : List ℤ → Float
  pub is_zero : Float → Bool
  pub is_positive : Float → Bool
  pub escalates : Float → Float → Bool

unfoldable pub extract_scores : List HealthSnapshot → List ℤ
extract_scores snapshots = map (λ s. s.health_score) snapshots

abbrev pub last_of : HealthSnapshot → List HealthSnapshot → HealthSnapshot
last_of s [] = s
last_of s (t ∷ rest) = last_of t rest

unfoldable pub build_oscillation_anomaly : List HealthSnapshot → List Anomaly
build_oscillation_anomaly [] = []
build_oscillation_anomaly (first ∷ rest) =
    let last = last_of first rest in
    record {
      timestamp = last.timestamp;
      kind = oscillation_escalation;
      severity = warning;
      score_before = first.health_score;
      score_after = last.health_score;
      duration = last.timestamp -ℤ first.timestamp;
    }
    ∷ []

abbrev pub latest_window : List HealthSnapshot → List HealthSnapshot
latest_window snapshots = drop (length snapshots - oscillation_window) snapshots

abbrev pub previous_window : List HealthSnapshot → List HealthSnapshot
previous_window snapshots =
    take oscillation_window (drop (length snapshots - oscillation_window * 2) snapshots)

module _ (v : Variances) where
  open v use {Float, variance, is_zero, is_positive, escalates}

  unfoldable pub is_escalation : Float → Float → Bool
  is_escalation prev recent = if is_zero prev then is_positive recent else escalates prev recent

  unfoldable pub escalated : List HealthSnapshot → Bool
  unfolding is_escalation extract_scores
  escalated snapshots =
      is_escalation (variance (extract_scores (previous_window snapshots)))
        (variance (extract_scores (latest_window snapshots)))

  unfoldable pub detect_oscillation_escalation : List HealthSnapshot → List Anomaly
  unfolding escalated build_oscillation_anomaly
  detect_oscillation_escalation snapshots =
      if ltb (length snapshots) (oscillation_window * 2)
      then []
      else if escalated snapshots
      then build_oscillation_anomaly (latest_window snapshots)
      else []

  unfoldable pub detect_anomalies : List HealthSnapshot → List Anomaly
  unfolding detect_sudden_degradation detect_stuck_state detect_oscillation_escalation
  detect_anomalies snapshots =
      if ltb (length snapshots) anomaly_min_snapshots
      then []
      else (detect_sudden_degradation snapshots ++ detect_stuck_state snapshots)
        ++ detect_oscillation_escalation snapshots

pub data FlapSeverity : Type 0 where
  critical_flapping high_flapping medium_flapping : FlapSeverity

abbrev pub flapping_min_transitions : ℕ
flapping_min_transitions = 4

unfoldable pub transitions_from : HealthSnapshot → List HealthSnapshot → ℕ
transitions_from prev [] = 0
transitions_from prev (curr ∷ rest) =
    let later = transitions_from curr rest in
    if str_eq prev.health_state curr.health_state then later else suc later

abbrev pub transitions : List HealthSnapshot → ℕ
transitions [] = 0
transitions (s ∷ rest) = transitions_from s rest

-- The float64 comparisons of the share of transitions with 0.7 and 0.5 are arguments.
unfoldable pub detect_flapping :
    (ℕ → ℕ → Bool) → (ℕ → ℕ → Bool) → List HealthSnapshot → Option FlapSeverity
unfolding transitions_from
detect_flapping above_critical above_high snapshots =
    let count = transitions snapshots in
    let steps = length snapshots - 1 in
    if ltb (length snapshots) 3
    then none
    else if ltb count flapping_min_transitions
    then none
    else if above_critical count steps
    then some critical_flapping
    else if above_high count steps
    then some high_flapping
    else some medium_flapping

-- minMax
abbrev pub min_max_from : ℤ → ℤ → List ℤ → ℤ × ℤ
min_max_from low high [] = (low, high)
min_max_from low high (v ∷ values) =
    min_max_from (if ltb_ℤ v low then v else low) (if ltb_ℤ high v then v else high) values

unfoldable pub min_max : List ℤ → ℤ × ℤ
min_max [] = (pos 0, pos 0)
min_max (v ∷ values) = min_max_from v v values
