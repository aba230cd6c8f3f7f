-- ===== src/Retrospective/Replay.antt =====
-- pkg/hpa/retrospective/replay.go. AnalyzeReplay's loop passes its analysis and its three variables along
-- as Progress. The zero time is 0. The list of tolerance effects always stays empty and is left out.
use kubectl_hpa_status.Prelude.{
  ℕ, List, [], ◌∷◌, ◌++◌, ℤ, pos, ◌-ℤ◌, Bool, true, false, not, ◌&&◌, ltb_ℤ, eqb_ℤ, Option, none,
  some, codes, map, length, if◌then◌else◌, has_infix, trim_start, trim_end,
}
use kubectl_hpa_status.Retrospective.Patterns.{Text, strip, lower_case, upper_case}
use kubectl_hpa_status.Retrospective.Evidence.{has_recorded_max_replicas_cap_evidence}
use kubectl_hpa_status.Retrospective.Decimal.{format_int}
use kubectl_hpa_status.Retrospective.Timeline.{
  Category, rescale, metrics_unavailable, scaling_limited, stabilized, metric_change, Entry,
  Timeline, entry_replica_range,
}

pub data BottleneckType : Type 0 where
  of_metrics of_policy of_rescale : BottleneckType

pub data Severity : Type 0 where
  severe moderate : Severity

pub record BottleneckMarker : Type 0 where
  pub timestamp : ℤ
  pub kind : BottleneckType
  pub message : Text
  pub severity : Severity
  pub duration : ℤ

pub data Decision : Type 0 where
  no_change scale_up scale_down capped : Decision

pub data MetricDriver : Type 0 where
  unknown cpu memory : MetricDriver

pub record ControlCycle : Type 0 where
  pub start : ℤ
  pub end : ℤ
  pub input_replicas : ℤ
  pub output_replicas : ℤ
  pub decision : Decision
  pub metric_driver : MetricDriver

-- SuppressedScaleDown is always nil.
pub record StabilizationWindow : Type 0 where
  pub start : ℤ
  pub end : ℤ
  pub duration : ℤ

pub record ReplayAnalysis : Type 0 where
  pub bottlenecks : List BottleneckMarker
  pub control_cycles : List ControlCycle
  pub stabilization_windows : List StabilizationWindow

pub record Progress : Type 0 where
  pub analysis : ReplayAnalysis
  pub last_rescale_time : ℤ
  pub last_rescale_to : ℤ
  pub stabilization_start : ℤ

pub data Summary : Type 0 where
  no_entries : Summary
  detected : ℕ → ℕ → ℕ → Summary

abbrev pub next_time : ℤ → List Entry → ℤ
next_time until [] = until
next_time until (e ∷ rest) = e.timestamp

-- The rest is what follows the entry in the timeline.
unfoldable pub bottleneck_until_next :
    ℤ → List Entry → Entry → BottleneckType → Text → Severity → BottleneckMarker
bottleneck_until_next until rest entry kind message severity =
    let duration = next_time until rest -ℤ entry.timestamp in
    record {
      timestamp = entry.timestamp;
      kind = kind;
      message = message;
      severity = severity;
      duration = if ltb_ℤ duration (pos 0) then pos 0 else duration;
    }

unfoldable pub add_bottleneck : BottleneckMarker → Progress → Progress
add_bottleneck b p = record p {
  analysis = record p.analysis { bottlenecks = p.analysis.bottlenecks ++ (b ∷ []) };
}

abbrev driver_of : Text → MetricDriver
driver_of upper =
    if has_infix (codes "CPU") upper
    then cpu
    else if has_infix (codes "MEMORY") upper
    then memory
    else unknown

abbrev context_or : Text → Text → Text
context_or [] message = message
context_or (c ∷ context) message = c ∷ context

-- classifyRescaleDecision, whose argument `valid` is true at its only call.
unfoldable pub classify_rescale_decision : Entry → ℤ → ℤ → Decision × MetricDriver
unfolding codes has_infix upper_case
classify_rescale_decision entry from to = (
  if ltb_ℤ from to then scale_up else if ltb_ℤ to from then scale_down else no_change,
  driver_of (map upper_case (context_or entry.metric_context entry.message)),
)

unfoldable pub build_rescale_control_cycle :
    Entry → ℤ → ℤ → ℤ → ℤ → Decision → MetricDriver → ControlCycle
build_rescale_control_cycle entry since last_rescale_time from to decision driver = record {
  start = if eqb_ℤ last_rescale_time (pos 0) then since else last_rescale_time;
  end = entry.timestamp;
  input_replicas = from;
  output_replicas = to;
  decision = decision;
  metric_driver = driver;
}

abbrev is_scale_up : Decision → Bool
is_scale_up scale_up = true
is_scale_up _ = false

abbrev cap_marker : Entry → ℤ → BottleneckMarker
cap_marker entry to = record {
  timestamp = entry.timestamp;
  kind = of_policy;
  message =
      codes "recorded maxReplicas evidence capped scale-up at "
      ++ (format_int to ++ codes " replicas");
  severity = moderate;
  duration = pos 0;
}

unfoldable pub is_capped : Entry → Decision → Bool
is_capped entry decision =
    is_scale_up decision
    && has_recorded_max_replicas_cap_evidence entry.message entry.metric_context

-- The branch of an entry with a range.
unfoldable pub add_cycle : ℤ → Entry → ℤ → ℤ → Progress → Progress
unfolding classify_rescale_decision build_rescale_control_cycle is_capped
add_cycle since entry from to p =
    let (decision, driver) = classify_rescale_decision entry from to in
    let is_cap = is_capped entry decision in
    let cycle =
      build_rescale_control_cycle entry since p.last_rescale_time from to
        (if is_cap then capped else decision) driver in
    record p {
      analysis = record p.analysis {
        bottlenecks =
            if is_cap
            then p.analysis.bottlenecks ++ (cap_marker entry to ∷ [])
            else p.analysis.bottlenecks;
        control_cycles = p.analysis.control_cycles ++ (cycle ∷ []);
      };
      last_rescale_time = entry.timestamp;
      last_rescale_to = to;
    }

abbrev is_failure : Option Text → Bool
is_failure none = false
is_failure (some rest) = true

unfoldable pub failed_rescale : Text → Bool
unfolding codes strip lower_case
failed_rescale message = is_failure (strip lower_case (codes "failed to rescale:") message)

unfoldable pub add_failure : ℤ → List Entry → Entry → Progress → Progress
unfolding failed_rescale bottleneck_until_next add_bottleneck
add_failure until rest entry p =
    if failed_rescale entry.message
    then add_bottleneck (bottleneck_until_next until rest entry of_rescale entry.message severe) p
    else add_bottleneck
        (bottleneck_until_next until rest entry of_rescale
          (codes "Rescale event could not be reconstructed: " ++ entry.message) moderate)
        p

-- The first rescale event is commonly destination-only.
abbrev pub without_range : ℤ → List Entry → Entry → Option ℤ → Option ℤ → Progress → Progress
without_range until rest entry none (some to) p = record p {
  last_rescale_time = entry.timestamp;
  last_rescale_to = to;
}
without_range until rest entry _ _ p = add_failure until rest entry p

abbrev pub by_range : ℤ → ℤ → List Entry → Entry → Option (ℤ × ℤ) → Progress → Progress
by_range since until rest entry (some (from, to)) p = add_cycle since entry from to p
by_range since until rest entry none p =
    without_range until rest entry entry.from_replicas entry.to_replicas p

unfoldable pub analyze_rescale_entry : ℤ → ℤ → List Entry → Entry → Progress → Progress
unfolding entry_replica_range add_cycle add_failure
analyze_rescale_entry since until rest entry p =
    by_range since until rest entry (entry_replica_range entry) p

abbrev is_stabilized : Category → Bool
is_stabilized stabilized = true
is_stabilized _ = false

-- Whether the next entry closes the window, or there is none.
abbrev pub closes : List Entry → Bool
closes [] = true
closes (e ∷ rest) = not (is_stabilized e.category)

abbrev pub window_end : ℤ → Entry → List Entry → ℤ
window_end until entry [] =
    if not (eqb_ℤ until (pos 0)) && ltb_ℤ entry.timestamp until then until else entry.timestamp
window_end until entry (e ∷ rest) = e.timestamp

abbrev pub window_start : ℤ → Entry → ℤ
window_start start entry = if eqb_ℤ start (pos 0) then entry.timestamp else start

unfoldable pub close_window : ℤ → ℤ → Progress → Progress
close_window start end p = record p {
  analysis = record p.analysis {
    stabilization_windows =
        p.analysis.stabilization_windows
        ++ (record { start = start; end = end; duration = end -ℤ start } ∷ []);
  };
  stabilization_start = pos 0;
}

unfoldable pub analyze_stabilized_entry : ℤ → List Entry → Entry → Progress → Progress
unfolding close_window
analyze_stabilized_entry until rest entry p =
    let start = window_start p.stabilization_start entry in
    if closes rest
    then close_window start (window_end until entry rest) p
    else record p { stabilization_start = start }

abbrev limit_message : Text → Text
limit_message [] = codes "Scaling constraint recorded; exact historical limit unavailable"
limit_message (c ∷ s) = c ∷ s

unfoldable pub analyze_entry : ℤ → ℤ → List Entry → Entry → Category → Progress → Progress
unfolding codes bottleneck_until_next add_bottleneck
analyze_entry since until rest entry rescale p = analyze_rescale_entry since until rest entry p
analyze_entry since until rest entry metrics_unavailable p =
    add_bottleneck
      (bottleneck_until_next until rest entry of_metrics
        (codes "Metrics unavailable - HPA cannot compute desired replicas") severe)
      p
analyze_entry since until rest entry scaling_limited p =
    add_bottleneck
      (bottleneck_until_next until rest entry of_policy
        (limit_message (trim_end (trim_start entry.message))) moderate)
      p
analyze_entry since until rest entry stabilized p = analyze_stabilized_entry until rest entry p
analyze_entry since until rest entry metric_change p = p

unfoldable pub analyze_entries : ℤ → ℤ → List Entry → Progress → Progress
analyze_entries since until [] p = p
analyze_entries since until (entry ∷ rest) p =
    analyze_entries since until rest (analyze_entry since until rest entry entry.category p)

abbrev pub nothing_yet : Progress
nothing_yet = record {
  analysis = record { bottlenecks = []; control_cycles = []; stabilization_windows = [] };
  last_rescale_time = pos 0;
  last_rescale_to = pos 0;
  stabilization_start = pos 0;
}

unfoldable pub analyze_replay : Timeline → ReplayAnalysis
unfolding analyze_entries
analyze_replay timeline =
    (analyze_entries timeline.since timeline.until timeline.entries nothing_yet).analysis

unfoldable pub replay_summary : Timeline → Summary
unfolding analyze_replay
replay_summary timeline = elim timeline.entries [
  | [] ↦ no_entries
  | e ∷ rest ↦
      detected (length (analyze_replay timeline).bottlenecks)
        (length (analyze_replay timeline).stabilization_windows)
        (length (analyze_replay timeline).control_cycles)
]
