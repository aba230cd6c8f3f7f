-- ===== src/Enrichment/Pipeline.antt =====
-- RunPipeline (internal/enrichment/pipeline.go). A task's runner and the report of an error act on a
-- state of type S, which also says whether the context is cancelled, and with what error.
use kubectl_hpa_status.Prelude.{
  List, [], ◌∷◌, ◌++◌, Bool, true, false, Option, none, some, String, if◌then◌else◌, ◌≡◌, ◌⊎◌, inl,
  inr, refl, sym, ap, subst, fun_ext, some_inj, Bool-cases, Option-cases, ◌∙◌,
}

pub record PipelineTask (E S : Type 0) : Type 0 where
  pub name : String
  pub enabled : Bool
  pub abort_on_error : Bool
  pub runner : Option (S → Option E × S)

module _ {E S : Type 0} (context_error : S → Option E) (no_runner : String → E)
    (on_error : Option (String → E → S → S)) where
  unfoldable pub report : String → E → S → S
  report name e s = elim on_error [ none ↦ s | some handler ↦ handler name e s ]

  -- A task's own outcome: the error of its runner, or that it has none.
  unfoldable pub attempt : PipelineTask E S → S → Option E × S
  attempt task s = elim task.runner [ none ↦ (some (no_runner task.name), s) | some run ↦ run s ]

  -- What follows an attempt: a reported error ends the pipeline if the task says so.
  unfoldable pub after_attempt : PipelineTask E S → (S → Option E × S) → Option E × S → Option E × S
  unfolding report
  after_attempt task rest (none, s) = rest s
  after_attempt task rest (some e, s) =
      let s' = report task.name e s in if task.abort_on_error then (some e, s') else rest s'

  unfoldable pub run_task : PipelineTask E S → (S → Option E × S) → S → Option E × S
  unfolding attempt after_attempt
  run_task task rest s = elim (context_error s) [
    | some e ↦ (some e, s)
    | none ↦ if task.enabled then after_attempt task rest (attempt task s) else rest s
  ]

  unfoldable pub run_pipeline : List (PipelineTask E S) → S → Option E × S
  unfolding run_task
  run_pipeline [] s = (context_error s, s)
  run_pipeline (task ∷ tasks) s = run_task task (run_pipeline tasks) s

  abbrev pub and_then : Option E × S → (S → Option E × S) → Option E × S
  and_then (some e, s) rest = (some e, s)
  and_then (none, s) rest = rest s

  run_task_cancelled :
      (task : PipelineTask E S) (rest : S → Option E × S) (s : S) (e : E)
      → context_error s ≡ some e
      → run_task task rest s ≡ (some e, s)
  unfolding run_task
  run_task_cancelled task rest s e h = rw (run_task, h) refl

  run_task_enabled :
      (task : PipelineTask E S) (rest : S → Option E × S) (s : S)
      → context_error s ≡ none
      → task.enabled ≡ true
      → run_task task rest s ≡ after_attempt task rest (attempt task s)
  unfolding run_task
  run_task_enabled task rest s h q = rw (run_task, h, q) refl

  run_task_disabled :
      (task : PipelineTask E S) (rest : S → Option E × S) (s : S)
      → context_error s ≡ none
      → task.enabled ≡ false
      → run_task task rest s ≡ rest s
  unfolding run_task
  run_task_disabled task rest s h q = rw (run_task, h, q) refl

  cancelled_pipeline :
      (tasks : List (PipelineTask E S)) (s : S) (e : E)
      → context_error s ≡ some e
      → run_pipeline tasks s ≡ (some e, s)
  unfolding run_pipeline
  cancelled_pipeline [] s e h = rw h refl
  cancelled_pipeline (task ∷ tasks) s e h = run_task_cancelled task (run_pipeline tasks) s e h

  after_attempt-and_then :
      (task : PipelineTask E S) (f g rest : S → Option E × S)
      → ((s : S) → f s ≡ and_then (g s) rest)
      → (o : Option E × S) → after_attempt task f o ≡ and_then (after_attempt task g o) rest
  unfolding after_attempt
  after_attempt-and_then task f g rest h (none, s) = h s
  after_attempt-and_then task f g rest h (some e, s) = elim (Bool-cases task.abort_on_error) [
    | inl p ↦ rw p refl
    | inr p ↦ rw p (h (report task.name e s))
  ]

  run_task-and_then :
      (task : PipelineTask E S) (f g rest : S → Option E × S)
      → ((s : S) → f s ≡ and_then (g s) rest)
      → (s : S) → run_task task f s ≡ and_then (run_task task g s) rest
  run_task-and_then task f g rest h s = elim (Option-cases (context_error s)) [
    | inr (e, p) ↦ simp (run_task_cancelled task f s e p, run_task_cancelled task g s e p)
    | inl p ↦ elim (Bool-cases task.enabled) [
      | inl q ↦
          simp (run_task_enabled task f s p q, run_task_enabled task g s p q)
            (after_attempt-and_then task f g rest h (attempt task s))
      | inr q ↦ simp (run_task_disabled task f s p q, run_task_disabled task g s p q) (h s)
    ]
  ]

  -- A pipeline in two parts is the second part run after the first, unless the first ends with an
  -- error.
  pub run_pipeline-append :
      (xs ys : List (PipelineTask E S)) (s : S)
      → run_pipeline (xs ++ ys) s ≡ and_then (run_pipeline xs s) (run_pipeline ys)
  unfolding run_pipeline
  run_pipeline-append [] ys s = elim (Option-cases (context_error s)) [
    | inl p ↦ rw p refl
    | inr (e, p) ↦ rw p (cancelled_pipeline ys s e p)
  ]
  run_pipeline-append (task ∷ xs) ys s =
      run_task-and_then task (run_pipeline (xs ++ ys)) (run_pipeline xs) (run_pipeline ys)
        (λ t. run_pipeline-append xs ys t) s

  -- A task that is enabled and ends the pipeline with an error e of its own.
  abbrev pub Aborts : E → PipelineTask E S → Type 0
  Aborts e task =
      (task.enabled ≡ true)
      × (task.abort_on_error ≡ true)
      × ((s : S) × ((attempt task s).0 ≡ some e))

  abbrev pub SomeAborts : E → List (PipelineTask E S) → Type 0
  SomeAborts e [] = ⊥
  SomeAborts e (task ∷ tasks) = Aborts e task ⊎ SomeAborts e tasks

  -- A task ends the pipeline, at its own error, or leaves the rest to run.
  abbrev Ends : PipelineTask E S → (S → Option E × S) → Option E × S → Type 0
  Ends task rest r =
      ((e : E) × (r.0 ≡ some e) × ((context_error r.1 ≡ some e) ⊎ Aborts e task))
      ⊎ ((t : S) × (r ≡ rest t))

  after_attempt-Ends :
      (task : PipelineTask E S) (rest : S → Option E × S) (s : S)
      → task.enabled ≡ true
      → (o : Option E × S) → attempt task s ≡ o
      → Ends task rest (after_attempt task rest o)
  unfolding after_attempt
  after_attempt-Ends task rest s on (none, t) h = inr (t, refl)
  after_attempt-Ends task rest s on (some e, t) h = elim (Bool-cases task.abort_on_error) [
    | inl p ↦ simp p (inl (e, refl, inr (on, refl, (s, ap (λ o. o.0) h))))
    | inr p ↦ rw p (inr (report task.name e t, refl))
  ]

  run_task-Ends :
      (task : PipelineTask E S) (rest : S → Option E × S) (s : S)
      → Ends task rest (run_task task rest s)
  run_task-Ends task rest s = elim (Option-cases (context_error s)) [
    | inr (e, p) ↦ simp (run_task_cancelled task rest s e p) (inl (e, refl, inl p))
    | inl p ↦ elim (Bool-cases task.enabled) [
      | inl q ↦
          simp (run_task_enabled task rest s p q)
            (after_attempt-Ends task rest s q (attempt task s) refl)
      | inr q ↦ inr (s, run_task_disabled task rest s p q)
    ]
  ]

  -- The pipeline's error is the context's at the end, or one of an enabled task that ends the
  -- pipeline on an error: a failure of any other task is never returned.
  pub run_pipeline_error :
      (tasks : List (PipelineTask E S)) (s : S) (e : E)
      → (run_pipeline tasks s).0 ≡ some e
      → (context_error (run_pipeline tasks s).1 ≡ some e) ⊎ SomeAborts e tasks
  unfolding run_pipeline
  run_pipeline_error [] s e h = inl h
  run_pipeline_error (task ∷ tasks) s e h =
      go (run_task task (run_pipeline tasks) s) h (run_task-Ends task (run_pipeline tasks) s)
        (λ t k. run_pipeline_error tasks t e k)
    where
      go :
          (r : Option E × S)
          → r.0 ≡ some e
          → Ends task (run_pipeline tasks) r
          → ((t : S)
              → (run_pipeline tasks t).0 ≡ some e
              → (context_error (run_pipeline tasks t).1 ≡ some e) ⊎ SomeAborts e tasks)
          → (context_error r.1 ≡ some e) ⊎ SomeAborts e (task ∷ tasks)
      go r h (inl (e', k, inl c)) ih = inl (c ∙ sym k ∙ h)
      go r h (inl (e', k, inr a)) ih =
          inr (inl (subst (λ o. Aborts o task) (some_inj (sym k ∙ h)) a))
      go r h (inr (t, k)) ih = elim (ih t (sym (ap (λ o. o.0) k) ∙ h)) [
        | inl c ↦ inl (ap (λ o. context_error o.1) k ∙ c)
        | inr a ↦ inr (inr a)
      ]

  abbrev enabled_tasks : List (PipelineTask E S) → List (PipelineTask E S)
  enabled_tasks [] = []
  enabled_tasks (task ∷ tasks) =
      if task.enabled then task ∷ enabled_tasks tasks else enabled_tasks tasks

  -- A task that is not enabled leaves no trace: the pipeline without it runs the same way.
  pub run_pipeline_disabled :
      (xs ys : List (PipelineTask E S)) (task : PipelineTask E S) (s : S)
      → task.enabled ≡ false
      → run_pipeline (xs ++ (task ∷ ys)) s ≡ run_pipeline (xs ++ ys) s
  unfolding run_pipeline
  run_pipeline_disabled [] ys task s h = elim (Option-cases (context_error s)) [
    | inl p ↦ run_task_disabled task (run_pipeline ys) s p h
    | inr (e, p) ↦
        run_task_cancelled task (run_pipeline ys) s e p ∙ sym (cancelled_pipeline ys s e p)
  ]
  run_pipeline_disabled (x ∷ xs) ys task s h =
      ap (λ rest. run_task x rest s) (fun_ext (λ t. run_pipeline_disabled xs ys task t h))
