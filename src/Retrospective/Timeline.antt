-- ===== src/Retrospective/Timeline.antt =====
-- pkg/hpa/retrospective/retrospective.go and types.go. An entry's source is always "event" and is left
-- out, and so is the disclaimer. The width of a text on a terminal and the cut to a width are the
-- library's (charmbracelet/x/ansi).
use kubectl_hpa_status.Prelude.{
  List, [], ◌∷◌, ◌++◌, ℤ, pos, Bool, true, false, ◌||◌, leb_ℤ, Option, none, some, codes, codes_eq,
  if◌then◌else◌, trim_start, trim_end,
}
use kubectl_hpa_status.Api.{Hpa}
use kubectl_hpa_status.Conditions.{effective_scale_down_window}
use kubectl_hpa_status.Retrospective.Patterns.{
  Text, parse_new_size, parse_desired_range, format_metric_context,
}
use kubectl_hpa_status.Retrospective.Decimal.{format_int}

pub data Category : Type 0 where
  rescale metrics_unavailable scaling_limited stabilized metric_change : Category

pub data Confidence : Type 0 where
  high medium low : Confidence

pub record Event : Type 0 where
  pub reason : Text
  pub message : Text
  pub timestamp : ℤ

pub record Entry : Type 0 where
  pub timestamp : ℤ
  pub category : Category
  pub message : Text
  pub confidence : Confidence
  pub from_replicas : Option ℤ
  pub to_replicas : Option ℤ
  pub parse_valid : Bool
  pub metric_context : Text

pub record Timeline : Type 0 where
  pub since : ℤ
  pub until : ℤ
  pub entries : List Entry
  -- The warning that there are no events since a time.
  pub no_events_since : Option ℤ

-- ansi.StringWidth and ansi.Truncate.
pub record Ansi : Type 0 where
  pub string_width : Text → ℤ
  pub cut : Text → ℤ → Text → Text

unfoldable pub truncate_display_width : Ansi → Text → ℤ → Text → Text
truncate_display_width ansi text max_width tail =
    if leb_ℤ max_width (pos 0)
    then []
    else if leb_ℤ (ansi.string_width text) max_width
    then text
    else ansi.cut text max_width (if leb_ℤ max_width (ansi.string_width tail) then [] else tail)

abbrev unknown_or : Option ℤ → Text
unknown_or none = codes "<unknown>"
unknown_or (some from) = format_int from

-- "desired A -> B"
unfoldable pub desired_text : Option ℤ → ℤ → Text
desired_text from to = codes "desired " ++ (unknown_or from ++ (codes " -> " ++ format_int to))

unfoldable pub with_context : Text → Text → Text
with_context [] message = message
with_context (c ∷ context) message = (c ∷ context) ++ (codes "     " ++ message)

-- What is left when an entry has no sizes: its category, its message and the confidence.
abbrev pub Reading : Type 0
Reading = Category × Text × Confidence

abbrev pub plain : Event → Reading → Entry
plain event (category, message, confidence) = record {
  timestamp = event.timestamp;
  category = category;
  message = message;
  confidence = confidence;
  from_replicas = none;
  to_replicas = none;
  parse_valid = false;
  metric_context = [];
}

abbrev pub is_some : {A : Type 0} → Option A → Bool
is_some none = false
is_some (some a) = true

abbrev rescale_confidence : Option ℤ → Confidence
rescale_confidence none = low
rescale_confidence (some from) = high

unfoldable pub rescale_entry : Event → Option ℤ → Option ℤ → Entry
unfolding desired_text with_context
rescale_entry event prev_desired none = plain event (rescale, event.message, low)
rescale_entry event prev_desired (some new_size) =
    let context = format_metric_context event.message in
    record {
      timestamp = event.timestamp;
      category = rescale;
      message = with_context context (desired_text prev_desired new_size);
      confidence = rescale_confidence prev_desired;
      from_replicas = prev_desired;
      to_replicas = some new_size;
      parse_valid = is_some prev_desired;
      metric_context = context;
    }

abbrev limited_message : Ansi → Text → Bool → Text
limited_message ansi message true =
    codes "ScalingLimited      scaling constraint recorded; exact historical limit unavailable"
limited_message ansi message false =
    codes "ScalingLimited      " ++ truncate_display_width ansi message (pos 80) (codes "...")

abbrev is_no_text : Text → Bool
is_no_text [] = true
is_no_text (c ∷ s) = false

unfoldable pub stabilized_message : Hpa → Text
stabilized_message hpa =
    codes "ScaleDownStabilized      suppression recorded; current effective window="
    ++ (format_int (effective_scale_down_window (some hpa))
        ++ codes "s; historical duration unavailable")

unfoldable pub is_rescale : Event → Bool
unfolding codes codes_eq
is_rescale event = codes_eq event.reason (codes "SuccessfulRescale")

abbrev is_metric_failure : Text → Bool
is_metric_failure reason =
    codes_eq reason (codes "FailedGetResourceMetric")
    || codes_eq reason (codes "FailedGetExternalMetric")
    || codes_eq reason (codes "FailedGetObjectMetric")

-- classifyEvent never returns nil. This is its switch behind the case of a rescale.
unfoldable pub read_other : Ansi → Hpa → Event → Reading
unfolding codes codes_eq truncate_display_width stabilized_message
read_other ansi hpa event =
    if codes_eq event.reason (codes "FailedRescale")
    then (
      rescale,
      codes "failed to rescale: "
          ++ truncate_display_width ansi event.message (pos 80) (codes "..."),
      high,
    )
    else if is_metric_failure event.reason
    then (metrics_unavailable, event.reason ++ codes "  metrics unavailable", high)
    else if codes_eq event.reason (codes "ScalingLimited")
    then (
      scaling_limited,
      limited_message ansi event.message (is_no_text (trim_end (trim_start event.message))),
      medium,
    )
    else if codes_eq event.reason (codes "TooManyReplicas")
    then (
      scaling_limited,
      codes "TooManyReplicas      constrained by maxReplicas; historical value unavailable",
      medium,
    )
    else if codes_eq event.reason (codes "TooFewReplicas")
    then (
      scaling_limited,
      codes "TooFewReplicas      constrained by minReplicas; historical value unavailable",
      medium,
    )
    else if codes_eq event.reason (codes "ScaleDownStabilized")
    then (stabilized, stabilized_message hpa, medium)
    else (
      metric_change,
      truncate_display_width ansi (event.reason ++ (codes ": " ++ event.message)) (pos 80)
          (codes "..."),
      medium,
    )

unfoldable pub other_entry : Ansi → Hpa → Event → Entry
other_entry ansi hpa event = plain event (read_other ansi hpa event)

unfoldable pub classify_event : Ansi → Hpa → Event → Option ℤ → Entry
classify_event ansi hpa event prev_desired =
    if is_rescale event
    then rescale_entry event prev_desired (parse_new_size event.message)
    else other_entry ansi hpa event

abbrev pub or_else : Option ℤ → Option ℤ → Option ℤ
or_else none other = other
or_else (some n) other = some n

unfoldable pub next_desired : Event → Option ℤ → Option ℤ
next_desired event prev_desired =
    if is_rescale event then or_else (parse_new_size event.message) prev_desired else prev_desired

unfoldable pub classify_events : Ansi → Hpa → Option ℤ → List Event → List Entry
unfolding classify_event next_desired
classify_events ansi hpa prev_desired [] = []
classify_events ansi hpa prev_desired (event ∷ events) =
    classify_event ansi hpa event prev_desired
    ∷ classify_events ansi hpa (next_desired event prev_desired) events

abbrev warn_if_empty : List Event → ℤ → Option ℤ
warn_if_empty [] since = some since
warn_if_empty (event ∷ events) since = none

-- The current time is an argument.
unfoldable pub build_timeline : Ansi → List Event → Hpa → ℤ → ℤ → Timeline
unfolding classify_events
build_timeline ansi events hpa since now = record {
  since = since;
  until = now;
  entries = classify_events ansi hpa none events;
  no_events_since = warn_if_empty events since;
}

-- entryReplicaRange
abbrev pub recorded_range : Bool → Option ℤ → Option ℤ → Option (ℤ × ℤ)
recorded_range true (some from) (some to) = some (from, to)
recorded_range _ _ _ = none

abbrev pub or_range : Option (ℤ × ℤ) → Option (ℤ × ℤ) → Option (ℤ × ℤ)
or_range none other = other
or_range (some r) other = some r

unfoldable pub entry_replica_range : Entry → Option (ℤ × ℤ)
entry_replica_range entry =
    or_range (recorded_range entry.parse_valid entry.from_replicas entry.to_replicas)
      (parse_desired_range entry.message)
