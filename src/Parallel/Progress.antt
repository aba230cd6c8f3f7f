-- ===== src/Parallel/Progress.antt =====
-- mapPerHPA (cmd/parallel.go): the limit on the goroutines at work, and that they can always finish.
use kubectl_hpa_status.Prelude.{
  ℕ, zero, suc, ◌+◌, ◌≤◌, ◌<◌, List, [], ◌∷◌, Bool, true, false, ltb, lt→ltb, ◌⊎◌, some, String,
  ◌≡◌, refl, arith, Bool-cases, inl, inr,
}
use kubectl_hpa_status.Kube.Retry.{Outcome}
use kubectl_hpa_status.Parallel.Pool.{
  Slot, waiting, spawned, building, finished, Pool, Action, spawn, check, return_at, cancel, start,
  active, spawn_first, update_at, checked, returned, act, run, results,
}
use kubectl_hpa_status.Parallel.Order.{NoCancel, Uncancelled}

module _ {E A : Type 0} (build : Bool → String → Outcome E A) (context_error : E) where
  active-start : (names : List String) → active (start {E = E} {A = A} names).slots ≡ 0
  unfolding start active
  active-start [] = refl
  active-start (name ∷ names) = active-start names

  active-spawn_first :
      (slots : List (String × Slot E A)) → active (spawn_first slots) ≤ suc (active slots)
  unfolding spawn_first active
  active-spawn_first [] = omega arith
  active-spawn_first ((name, waiting) ∷ slots) = omega arith
  active-spawn_first ((name, spawned) ∷ slots) = omega (arith, active-spawn_first slots)
  active-spawn_first ((name, building) ∷ slots) = omega (arith, active-spawn_first slots)
  active-spawn_first ((name, finished o) ∷ slots) = active-spawn_first slots

  check_active :
      (c : Bool) (i : ℕ) (slots : List (String × Slot E A))
      → active (update_at (checked build context_error c) i slots) ≤ active slots
  unfolding update_at active
  check_active c i [] = omega arith
  check_active c zero ((name, waiting) ∷ slots) = omega arith
  check_active true zero ((name, spawned) ∷ slots) = omega arith
  check_active false zero ((name, spawned) ∷ slots) = omega arith
  check_active c zero ((name, building) ∷ slots) = omega arith
  check_active c zero ((name, finished o) ∷ slots) = omega arith
  check_active c (suc i) ((name, waiting) ∷ slots) = check_active c i slots
  check_active c (suc i) ((name, spawned) ∷ slots) = omega (arith, check_active c i slots)
  check_active c (suc i) ((name, building) ∷ slots) = omega (arith, check_active c i slots)
  check_active c (suc i) ((name, finished o) ∷ slots) = check_active c i slots

  return_active :
      (c : Bool) (i : ℕ) (slots : List (String × Slot E A))
      → active (update_at (returned build context_error c) i slots) ≤ active slots
  unfolding update_at active
  return_active c i [] = omega arith
  return_active c zero ((name, waiting) ∷ slots) = omega arith
  return_active c zero ((name, spawned) ∷ slots) = omega arith
  return_active c zero ((name, building) ∷ slots) = omega arith
  return_active c zero ((name, finished o) ∷ slots) = omega arith
  return_active c (suc i) ((name, waiting) ∷ slots) = return_active c i slots
  return_active c (suc i) ((name, spawned) ∷ slots) = omega (arith, return_active c i slots)
  return_active c (suc i) ((name, building) ∷ slots) = omega (arith, return_active c i slots)
  return_active c (suc i) ((name, finished o) ∷ slots) = return_active c i slots

  active-act :
      (limit : ℕ) (pool : Pool E A) (a : Action)
      → active pool.slots ≤ limit
      → active (act build context_error limit pool a).slots ≤ limit
  unfolding act
  active-act limit pool spawn h = elim (Bool-cases (ltb (active pool.slots) limit)) [
    | inl p ↦ rw p (ground (arith, active-spawn_first pool.slots))
    | inr p ↦ rw p h
  ]
  active-act limit pool (check i) h = omega (arith, check_active pool.cancelled i pool.slots)
  active-act limit pool (return_at i) h = omega (arith, return_active pool.cancelled i pool.slots)
  active-act limit pool cancel h = h

  from_active_lem :
      (limit : ℕ) (pool : Pool E A) (actions : List Action)
      → active pool.slots ≤ limit
      → active (run build context_error limit pool actions).slots ≤ limit
  unfolding run
  from_active_lem limit pool [] h = h
  from_active_lem limit pool (a ∷ actions) h =
      from_active_lem limit (act build context_error limit pool a) actions
        (active-act limit pool a h)

  -- Whatever the scheduler and the user do, no more than `limit` goroutines are at work.
  pub active-run :
      (limit : ℕ) (names : List String) (actions : List Action)
      → active (run build context_error limit (start names) actions).slots ≤ limit
  active-run limit names actions =
      from_active_lem limit (start names) actions (omega (arith, active-start names))

  -- Steps left before every goroutine has finished.
  abbrev work : List (String × Slot E A) → ℕ
  work [] = 0
  work ((name, waiting) ∷ slots) = 3 + work slots
  work ((name, spawned) ∷ slots) = 2 + work slots
  work ((name, building) ∷ slots) = 1 + work slots
  work ((name, finished o) ∷ slots) = work slots

  -- A goroutine at work can take a step.
  step_busy :
      (c : Bool) (slots : List (String × Slot E A))
      → (active slots ≡ 0)
        ⊎ ((i : ℕ) × ((work (update_at (checked build context_error c) i slots) < work slots)
              ⊎ (work (update_at (returned build context_error c) i slots) < work slots)))
  unfolding active update_at
  step_busy c [] = inl refl
  step_busy c ((name, waiting) ∷ slots) = elim (step_busy c slots) [
    | inl none_active ↦ inl none_active
    | inr (i, inl h) ↦ inr (suc i, inl (omega arith))
    | inr (i, inr h) ↦ inr (suc i, inr (omega arith))
  ]
  step_busy true ((name, spawned) ∷ slots) = inr (0, inl (omega arith))
  step_busy false ((name, spawned) ∷ slots) = inr (0, inl (omega arith))
  step_busy c ((name, building) ∷ slots) = inr (0, inr (omega arith))
  step_busy c ((name, finished o) ∷ slots) = elim (step_busy c slots) [
    | inl none_active ↦ inl none_active
    | inr (i, inl h) ↦ inr (suc i, inl h)
    | inr (i, inr h) ↦ inr (suc i, inr h)
  ]

  -- With nobody at work, one more can be started or all have finished.
  step_idle :
      (slots : List (String × Slot E A))
      → active slots ≡ 0
      → ((rs : List (String × Outcome E A)) × (results slots ≡ some rs))
        ⊎ (work (spawn_first slots) < work slots)
  unfolding active spawn_first results
  step_idle [] h = inl ([], refl)
  step_idle ((name, waiting) ∷ slots) h = inr (omega arith)
  step_idle ((name, spawned) ∷ slots) h = cc
  step_idle ((name, building) ∷ slots) h = cc
  step_idle ((name, finished o) ∷ slots) h = elim (step_idle slots h) [
    | inl (rs, k) ↦ inl ((name, o) ∷ rs, rw k refl)
    | inr k ↦ inr k
  ]

  abbrev pub Finished : Pool E A → Type 0
  Finished pool = (rs : List (String × Outcome E A)) × (results pool.slots ≡ some rs)

  step_pool :
      (limit : ℕ) (pool : Pool E A)
      → 1 ≤ limit
      → Finished pool
        ⊎ ((a : Action) × NoCancel a
            × (work (act build context_error limit pool a).slots < work pool.slots))
  unfolding act
  step_pool limit pool h = elim (step_busy pool.cancelled pool.slots) [
    | inr (i, inl k) ↦ inr (check i, tt, k)
    | inr (i, inr k) ↦ inr (return_at i, tt, k)
    | inl idle ↦ elim (step_idle pool.slots idle) [
      | inl all ↦ inl all
      | inr k ↦ inr (spawn, tt, rw (lt→ltb (active pool.slots) limit (omega arith)) k)
    ]
  ]

  finish :
      (n limit : ℕ) (pool : Pool E A)
      → 1 ≤ limit
      → work pool.slots < n
      → (more : List Action) × Uncancelled more × Finished (run build context_error limit pool more)
  unfolding run
  finish zero limit pool h k = absurd (omega arith)
  finish (suc n) limit pool h k = elim (step_pool limit pool h) [
    | inl all ↦ ([], tt, all)
    | inr (a, u, l) ↦
        let (more, us, all) =
          finish n limit (act build context_error limit pool a) h (omega arith) in
        (a ∷ more, (u, us), all)
  ]

  -- Whatever has happened, if the limit is at least one, some further actions without a
  -- cancellation let every goroutine finish: the pool never blocks.
  pub run-Finishes :
      (limit : ℕ) (names : List String) (actions : List Action)
      → 1 ≤ limit
      → (more : List Action) × Uncancelled more
        × Finished (
            run build context_error limit
              (run build context_error limit (start names) actions)
              more)
  run-Finishes limit names actions h =
      let pool = run build context_error limit (start names) actions in
      finish (suc (work pool.slots)) limit pool h (omega arith)
