-- ===== src/Lib.antt =====
-- kubectl-hpa-status: a kubectl plugin that reads HorizontalPodAutoscalers, explains their state, scores
-- their health, simulates their scaling and plans the capacity for more pods. The commands (cmd/) read
-- objects from the API server (internal/kube), hand them to the analyses (pkg/hpa) and print the
-- results. The development models the analyses and the parts below them that compute.
--
-- Parts, files and sources:
-- Api: the fields of autoscaling/v2 that the analyses read.
-- Scaling/Policy: pkg/hpa/scaling/policy.go. DefaultPolicies, ReplicaLimit and Limit are
--   default_policies, replica_limit and limit; the loop over the policies is limit_loop.
-- Simulate/Policy: pkg/hpa/simulate/simulate_policy.go. normalizeSimulatedDesired is
--   normalize_desired, with a function for each of its branches; it calls limit.
-- Simulate/Trajectory: pkg/hpa/simulate/simulate_projection.go. ProjectReplicaTrajectory is
--   project_trajectory; Offsets and Projected prove what it covers.
-- Churn: pkg/hpa/churn/churn.go. Segment is the latest burst of rescales; buildChurnAnalysis is
--   build_churn_analysis; Caution and Laws prove what it recommends and reports.
-- Conditions: pkg/hpa/internal/conditions/conditions.go, the lookup and the ladder of windows.
-- Events: pkg/hpa/internal/event/event.go and direction.go. NormalizeRescales is
--   normalize_rescales; FlipPoints is flip_points.
-- Flapping: pkg/hpa/flapping/flapping.go, the flips of the observed rescales and their severity.
-- Health: pkg/hpa/health.go, health_state.go, model/health.go. Score is HealthWithWeights with its
--   accumulator as explicit state; Dynamic is the reconciliation of the KEDA, VPA and churn penalties
--   over a retained baseline.
-- Patch: internal/patch/merge.go. A map is an association list; DeepMerge is deep_merge, and
--   MergePatches is merge_patches. Lookup is about one key, Leaves about paths of keys.
-- Kube: internal/kube/retry.go and pagination.go. The server, the clock and the context act on a state
--   that is passed along; retryTransient is retry_transient, visitListPages is visit_list_pages.
-- Capacity: pkg/hpa/capacityplan. Fit is capacity_plan_math.go with
--   pkg/hpa/resourceutil/quantity.go; Decision is capacity_plan_recommendation.go with the status
--   helpers of capacity_plan_checks.go; Target is the proposed maximum of capacity_plan.go.
-- Fleet: pkg/hpa/fleet/fleet.go. BuildReport is build_report, its loop add_hpas.
-- ScalePath: pkg/hpa/scalepath.go. AnalyzeScalePath is analyze_scale_path; Assess is the switch that
--   names the blocking point; Counts and Blocking prove what the counts and the point say.
-- History: internal/history/scan_cache.go. load, save and removeLocked are load, save and remove on the
--   cache's state; the eviction loop of save is evict. Store is store.go: RecordAndLoad, LoadAt, PruneAt
--   and Append act on a Stream, which is the stream's file and the cache; Sorted and Search are its sorts
--   and binary searches, Scan, Window, Coherent, Written and Transparent its proofs. FileName is filename.go.
-- Retrospective: pkg/hpa/retrospective. Patterns and Evidence are the regular expressions, Timeline is
--   retrospective.go (BuildTimeline is build_timeline), Replay is replay.go (AnalyzeReplay is
--   analyze_replay, its loop analyze_entries); Linked, Cycles and Windows prove what comes out.
-- HealthTrend: pkg/hpa/healthtrend. DetectAnomalies is detect_anomalies; a run of the loop of
--   detectStuckState is a Run.
-- Command: cmd/exitcode.go and cmd/status_batch.go. ExitCodeForMain is exit_code_for_main, and
--   aggregateBatchExitCode is aggregate_batch_exit_code.
-- Parallel: cmd/parallel.go. A goroutine of mapPerHPA is a slot of Pool, and a run is a list of actions
--   of the scheduler and the user; collectPerHPA is collect.
-- Enrichment: internal/enrichment/pipeline.go and mode.go. RunPipeline is run_pipeline, and each task
--   acts on a state that also says whether the context is cancelled.
-- Tui: internal/tui, the dashboard as a state machine. Model is Model, Update is update, a message or a
--   key is a constructor of Message or Key, and what is asked of the runtime is a Cmd. Lists is
--   list_helpers.go with the list's keys, Fix the wizard, Batch the batch apply, Refresh the result of a
--   fetch. Invariant, Fetched and Valid prove the invariant, Approved what may be sent, Armed,
--   Confirmed and Runs how it was confirmed.
-- Prelude: library names, Boolean tests, integers and texts. Tests: concrete inputs.
--
-- Integers of Go are integers with their wrap-around written out (int32, int64); a time is a number of
-- nanoseconds. float64 is an interface, of which the theorems use no law. A quantity is the number of its
-- smallest units. Errors and nil pointers are values. Texts that are formatted for output are
-- constructors with the values shown, or are left out.
--
-- Fuel: the bisection of Capacity/Fit runs for 31 rounds, which halve its interval of 2^31 numbers to
-- one. The page walk of Kube/Pages uses one unit for each page; as many units as the server has
-- tokens, and one more, are enough. The eviction of History/Cache uses one unit for each entry, and the
-- searches in sorted snapshots one for each snapshot. The digits of Retrospective/Decimal use one more
-- unit than the number. The loop of Simulate/Trajectory runs for as many rounds
-- as the source counts points, which reaches past the duration.
--
-- The dashboard's counters, cursors and request numbers are unbounded, since none comes near the limits
-- of an int. Its sorts are arguments.
--
-- A line of a history file is what json.Unmarshal makes of it, and the outcome of a write comes from the
-- file system, which may also leave any file behind when it breaks off. The lock between processes makes
-- an operation one step. The size limit of a line counts as a failure of the scanner. Texts on which a
-- regular expression works are lists of code points; the width of a text on a terminal is an argument.
--
-- Not modelled: the commands but for their exit codes, the drawing of the dashboard and its views for simulation, replay, history,
-- hints and audits, rendering and translation, and the access to the cluster and to files, which are
-- input and output; and the analyses of pkg/hpa beyond those
-- above. The argument above_target of Health/Score stands for hasMetricAboveTarget, which reads
-- metric values.
mod Prelude
pub mod Api
pub mod Conditions
pub mod Events
pub mod Flapping
pub mod Health
pub mod Patch
pub mod Kube
pub mod Capacity
pub mod Scaling
pub mod Simulate
pub mod Fleet
pub mod ScalePath
pub mod History
pub mod Parallel
pub mod Enrichment
pub mod Tui
pub mod Churn
pub mod Retrospective
pub mod HealthTrend
pub mod Command
mod Tests
