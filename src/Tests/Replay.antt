-- ===== src/Tests/Replay.antt =====
-- A timeline of three rescales and a suppressed scale-down, and its replay.
use kubectl_hpa_status.Prelude.{
  ℕ, List, [], ◌∷◌, ℤ, pos, true, false, String, some, codes, length, ◌≡◌, refl, is_space, to_lower,
  arith, has_infix, false,
}
use kubectl_hpa_status.Conditions.{effective_scale_down_window, scale_down_window}
use kubectl_hpa_status.Retrospective.Patterns.{
  Text, parse_desired_range, parse_new_size, format_metric_context,
}
use kubectl_hpa_status.Retrospective.Evidence.{has_recorded_max_replicas_cap_evidence}
use kubectl_hpa_status.Retrospective.Decimal.{format_int}
use kubectl_hpa_status.Retrospective.Timeline.{
  Ansi, Event, entry_replica_range, desired_text, build_timeline, classify_event, next_desired,
  is_rescale, rescale_entry, other_entry, read_other, with_context,
}
use kubectl_hpa_status.Retrospective.Replay.{
  analyze_replay, analyze_entry, analyze_rescale_entry, analyze_stabilized_entry,
}
use kubectl_hpa_status.Retrospective.RoundTrip.{parse_desired_range-desired_text}
use kubectl_hpa_status.Retrospective.Cycles.{IsJoined, IsReadable, analyze_replay-IsJoined}
use kubectl_hpa_status.Retrospective.Windows.{IsOrdered, IsChronological, analyze_replay-IsOrdered}
use kubectl_hpa_status.Tests.Samples.{held_back}

abbrev width : Text → ℤ
width s = pos (length s)

abbrev terminal : Ansi
terminal = record { string_width = width; cut = λ s n tail. s }

abbrev event_at : ℕ → String → String → Event
event_at n reason message = record {
  reason = codes reason;
  message = codes message;
  timestamp = pos n;
}

abbrev past_events : List Event
past_events =
    event_at 10 "SuccessfulRescale" "New size: 3; reason: cpu above target"
    ∷ event_at 20 "SuccessfulRescale" "New size: 6"
    ∷ event_at 30 "ScaleDownStabilized" ""
    ∷ event_at 50 "SuccessfulRescale" "New size: 2"
    ∷ []

abbrev grown : Event
grown = event_at 10 "SuccessfulRescale" "New size: 12; reason: cpu above target"

grown_free : has_infix (codes "desired") (format_metric_context grown.message) ≡ false
unfolding format_metric_context codes has_infix to_lower is_space
grown_free = refl

parse_desired_range-desired_text_example :
    let entry = rescale_entry grown (some (pos 3)) (some (pos 12)) in
    (parse_desired_range entry.message ≡ some (pos 3, pos 12))
    × (entry_replica_range entry ≡ some (pos 3, pos 12))
    × (entry_replica_range (record entry { parse_valid = false }) ≡ some (pos 3, pos 12))
parse_desired_range-desired_text_example =
    parse_desired_range-desired_text grown 3 12 (omega arith) (omega arith) grown_free

past-IsReadable :
    IsReadable (build_timeline terminal past_events held_back (pos 5) (pos 60)).entries
unfolding build_timeline classify_event next_desired is_rescale rescale_entry other_entry read_other
    parse_new_size parse_desired_range format_metric_context desired_text with_context format_int
    codes to_lower is_space effective_scale_down_window scale_down_window
past-IsReadable = (
  ((λ h. ground arith), λ h. refl),
  (
    ((λ h. ground arith), λ h. cc h),
    (((λ h. ground arith), λ h. refl), (((λ h. ground arith), λ h. cc h), tt)),
  ),
)

analyze_replay-IsJoined_example :
    IsJoined
      (analyze_replay
        (build_timeline terminal past_events held_back (pos 5) (pos 60))).control_cycles
analyze_replay-IsJoined_example =
    analyze_replay-IsJoined terminal past_events held_back (pos 5) (pos 60) past-IsReadable

past-IsChronological :
    IsChronological (pos 5) (build_timeline terminal past_events held_back (pos 5) (pos 60)).entries
unfolding build_timeline classify_event next_desired is_rescale rescale_entry other_entry read_other
    parse_new_size parse_desired_range format_metric_context desired_text with_context format_int
    codes to_lower
past-IsChronological = omega arith

analyze_replay-IsOrdered_example :
    IsOrdered
      (analyze_replay
        (build_timeline terminal past_events held_back (pos 5) (pos 60))).stabilization_windows
analyze_replay-IsOrdered_example =
    analyze_replay-IsOrdered (pos 5)
      (build_timeline terminal past_events held_back (pos 5) (pos 60)) past-IsChronological

-- Two cycles come out, behind the first size, and one window.
replayed :
    (length
        (analyze_replay
          (build_timeline terminal past_events held_back (pos 5) (pos 60))).control_cycles
      ≡ 2)
    × (length
          (analyze_replay
            (build_timeline terminal past_events held_back (pos 5) (pos 60))).stabilization_windows
        ≡ 1)
unfolding build_timeline classify_event next_desired is_rescale rescale_entry other_entry read_other
    parse_new_size parse_desired_range format_metric_context desired_text with_context format_int
    codes to_lower is_space effective_scale_down_window scale_down_window analyze_replay
    analyze_entry analyze_rescale_entry analyze_stabilized_entry
replayed = (refl, refl)

recorded_numbers :
    has_recorded_max_replicas_cap_evidence
      (codes "Requested replica count: 12")
      (codes "maxReplicas=10")
    ≡ true
unfolding has_recorded_max_replicas_cap_evidence to_lower
recorded_numbers = refl

not_above :
    has_recorded_max_replicas_cap_evidence (codes "requested 8, maximum replica count is 10") []
    ≡ false
unfolding has_recorded_max_replicas_cap_evidence to_lower
not_above = refl

context_of_reason :
    format_metric_context (codes "New size: 3; Reason:  cpu above target ")
    ≡ codes "cpu above target"
unfolding format_metric_context to_lower is_space
context_of_reason = refl
