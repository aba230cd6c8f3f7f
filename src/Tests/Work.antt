-- ===== src/Tests/Work.antt =====
-- The parallel collection and the enrichment pipeline.
use kubectl_hpa_status.Prelude.{
  ℕ, suc, ◌≤◌, List, [], ◌∷◌, ◌++◌, map, Bool, true, false, Option, none, some, String, str_eq, ◌≡◌,
  ◌⊎◌, refl, arith, if◌then◌else◌,
}
use kubectl_hpa_status.Kube.Retry.{Outcome, ok, failed}
use kubectl_hpa_status.Parallel.Pool.{
  spawn_first, update_at, act, Action, spawn, check, return_at, start, active, run, results,
  collect, sequential,
}
use kubectl_hpa_status.Parallel.Order.{Uncancelled, run-eq-sequential}
use kubectl_hpa_status.Parallel.Progress.{Finished, active-run, run-Finishes}
use kubectl_hpa_status.Enrichment.Pipeline.{
  PipelineTask, run_pipeline, SomeAborts, run_pipeline_error, run_pipeline_disabled,
}

-- The work for "b" fails.
abbrev build_sample : Bool → String → Outcome ℕ ℕ
build_sample cancelled name = if str_eq name "b" then failed 404 else ok 7

abbrev two_names : List String
two_names = "a" ∷ "b" ∷ []

-- The second goroutine finishes first.
abbrev crossed : List Action
crossed = spawn ∷ spawn ∷ check 1 ∷ check 0 ∷ return_at 1 ∷ return_at 0 ∷ []

abbrev two_results : List (String × Outcome ℕ ℕ)
two_results = ("a", ok 7) ∷ ("b", failed 404) ∷ []

run-crossed : results (run build_sample 499 2 (start two_names) crossed).slots ≡ some two_results
unfolding run results act update_at active start spawn_first
run-crossed = refl

run-eq-sequential_example :
    (two_results ≡ map (λ name. (name, build_sample false name)) two_names)
    × (collect two_results ≡ sequential build_sample 499 two_names)
run-eq-sequential_example =
    run-eq-sequential build_sample 499 2 two_names crossed two_results
      (tt, (tt, (tt, (tt, (tt, (tt, tt)))))) run-crossed

active-run_example : active (run build_sample 499 1 (start two_names) crossed).slots ≤ 1
active-run_example = active-run build_sample 499 1 two_names crossed

run-Finishes_example :
    (more : List Action) × Uncancelled more
    × Finished build_sample 499
        (run build_sample 499 1 (run build_sample 499 1 (start two_names) crossed) more)
run-Finishes_example = run-Finishes build_sample 499 1 two_names crossed (omega arith)

-- A counter of the tasks that ran; the second task fails.
abbrev uncancelled : ℕ → Option String
uncancelled s = none

abbrev no_runner : String → String
no_runner name = "no runner"

abbrev counting : Bool → Bool → Option String → PipelineTask String ℕ
counting enabled abort error = record {
  name = "task";
  enabled = enabled;
  abort_on_error = abort;
  runner = some (λ s. (error, suc s));
}

abbrev tasks : List (PipelineTask String ℕ)
tasks =
    counting true true none
    ∷ counting true false (some "lost")
    ∷ counting true true (some "bad")
    ∷ []

tasks_end : (run_pipeline uncancelled no_runner none tasks 0).0 ≡ some "bad"
unfolding run_pipeline
tasks_end = refl

run_pipeline_error_example :
    (uncancelled (run_pipeline uncancelled no_runner none tasks 0).1 ≡ some "bad")
    ⊎ SomeAborts uncancelled no_runner none "bad" tasks
run_pipeline_error_example = run_pipeline_error uncancelled no_runner none tasks 0 "bad" tasks_end

run_pipeline_disabled_example :
    run_pipeline uncancelled no_runner none (tasks ++ (counting false true none ∷ tasks)) 0
    ≡ run_pipeline uncancelled no_runner none (tasks ++ tasks) 0
run_pipeline_disabled_example =
    run_pipeline_disabled uncancelled no_runner none tasks tasks (counting false true none) 0 refl
