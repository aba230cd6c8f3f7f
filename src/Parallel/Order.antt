-- ===== src/Parallel/Order.antt =====
-- mapPerHPA and collectPerHPA (cmd/parallel.go): what is collected does not depend on the order in
-- which the goroutines run.
use kubectl_hpa_status.Prelude.{
  ℕ, zero, suc, List, [], ◌∷◌, Bool, false, ltb, some, map, String, ◌≡◌, refl, ap, ◌∙◌, All,
  Bool-cases, Option-cases, inl, inr,
}
use kubectl_hpa_status.Kube.Retry.{Outcome, ok, failed}
use kubectl_hpa_status.Parallel.Pool.{
  Slot, waiting, spawned, building, finished, Pool, Action, spawn, check, return_at, cancel, start,
  active, spawn_first, update_at, checked, returned, act, run, sequential, results, collect,
}

abbrev pub NoCancel : Action → Type 0
NoCancel cancel = ⊥
NoCancel spawn = Unit
NoCancel (check i) = Unit
NoCancel (return_at i) = Unit

-- The user does not cancel the command.
abbrev pub Uncancelled : List Action → Type 0
Uncancelled = All NoCancel

module _ {E A : Type 0} (build : Bool → String → Outcome E A) (context_error : E) where
  abbrev Right : String × Slot E A → Type 0
  Right (name, finished o) = o ≡ build false name
  Right (name, waiting) = Unit
  Right (name, spawned) = Unit
  Right (name, building) = Unit

  abbrev names_of : List (String × Slot E A) → List String
  names_of = map (λ s. s.0)

  start_Right : (names : List String) → All Right (map (λ name. (name, waiting)) names)
  start_Right [] = tt
  start_Right (name ∷ names) = (tt, start_Right names)

  start_names : (names : List String) → names_of (map (λ name. (name, waiting)) names) ≡ names
  start_names [] = refl
  start_names (name ∷ names) = ap (λ ns. name ∷ ns) (start_names names)

  spawn_first-Right :
      (slots : List (String × Slot E A)) → All Right slots → All Right (spawn_first slots)
  unfolding spawn_first
  spawn_first-Right [] h = tt
  spawn_first-Right ((name, waiting) ∷ slots) h = (tt, h.1)
  spawn_first-Right ((name, spawned) ∷ slots) h = (tt, spawn_first-Right slots h.1)
  spawn_first-Right ((name, building) ∷ slots) h = (tt, spawn_first-Right slots h.1)
  spawn_first-Right ((name, finished o) ∷ slots) h = (h.0, spawn_first-Right slots h.1)

  spawn_first_names :
      (slots : List (String × Slot E A)) → names_of (spawn_first slots) ≡ names_of slots
  unfolding spawn_first
  spawn_first_names [] = refl
  spawn_first_names ((name, waiting) ∷ slots) = refl
  spawn_first_names ((name, spawned) ∷ slots) = ap (λ ns. name ∷ ns) (spawn_first_names slots)
  spawn_first_names ((name, building) ∷ slots) = ap (λ ns. name ∷ ns) (spawn_first_names slots)
  spawn_first_names ((name, finished o) ∷ slots) = ap (λ ns. name ∷ ns) (spawn_first_names slots)

  update_at-Right :
      (f : String → Slot E A → Slot E A)
      → ((name : String) (slot : Slot E A) → Right (name, slot) → Right (name, f name slot))
      → (i : ℕ) (slots : List (String × Slot E A)) → All Right slots
      → All Right (update_at f i slots)
  unfolding update_at
  update_at-Right f k i [] h = tt
  update_at-Right f k zero ((name, slot) ∷ slots) h = (k name slot h.0, h.1)
  update_at-Right f k (suc i) (s ∷ slots) h = (h.0, update_at-Right f k i slots h.1)

  update_at_names :
      (f : String → Slot E A → Slot E A) (i : ℕ) (slots : List (String × Slot E A))
      → names_of (update_at f i slots) ≡ names_of slots
  unfolding update_at
  update_at_names f i [] = refl
  update_at_names f zero ((name, slot) ∷ slots) = refl
  update_at_names f (suc i) (s ∷ slots) = ap (λ ns. s.0 ∷ ns) (update_at_names f i slots)

  checked-Right :
      (name : String) (slot : Slot E A)
      → Right (name, slot)
      → Right (name, checked build context_error false name slot)
  checked-Right name waiting h = tt
  checked-Right name spawned h = tt
  checked-Right name building h = tt
  checked-Right name (finished o) h = h

  returned-Right :
      (name : String) (slot : Slot E A)
      → Right (name, slot)
      → Right (name, returned build context_error false name slot)
  returned-Right name waiting h = tt
  returned-Right name spawned h = tt
  returned-Right name building h = refl
  returned-Right name (finished o) h = h

  -- The names keep their places, and what has finished holds what `build` returns.
  abbrev Agrees : List String → Pool E A → Type 0
  Agrees names pool =
      (pool.cancelled ≡ false) × (names_of pool.slots ≡ names) × All Right pool.slots

  act-Agrees :
      (limit : ℕ) (names : List String) (pool : Pool E A) (a : Action)
      → NoCancel a
      → Agrees names pool
      → Agrees names (act build context_error limit pool a)
  unfolding act
  act-Agrees limit names pool spawn n (c, k, h) =
      elim (Bool-cases (ltb (active pool.slots) limit)) [
        | inl p ↦ rw p (c, spawn_first_names pool.slots ∙ k, spawn_first-Right pool.slots h)
        | inr p ↦ rw p (c, k, h)
      ]
  act-Agrees limit names pool (check i) n (c, k, h) = (
    c,
    update_at_names _ i pool.slots ∙ k,
    rw c (update_at-Right (checked build context_error false) checked-Right i pool.slots h),
  )
  act-Agrees limit names pool (return_at i) n (c, k, h) = (
    c,
    update_at_names _ i pool.slots ∙ k,
    rw c (update_at-Right (returned build context_error false) returned-Right i pool.slots h),
  )
  act-Agrees limit names pool cancel n h = absurd n

  run-Agrees :
      (limit : ℕ) (names : List String) (pool : Pool E A) (actions : List Action)
      → Uncancelled actions
      → Agrees names pool
      → Agrees names (run build context_error limit pool actions)
  unfolding run
  run-Agrees limit names pool [] n h = h
  run-Agrees limit names pool (a ∷ actions) n h =
      run-Agrees limit names (act build context_error limit pool a) actions n.1
        (act-Agrees limit names pool a n.0 h)

  -- What the goroutines of finished slots have left behind.
  results-Right :
      (slots : List (String × Slot E A)) (rs : List (String × Outcome E A))
      → All Right slots
      → results slots ≡ some rs
      → rs ≡ map (λ name. (name, build false name)) (names_of slots)
  unfolding results
  results-Right [] rs h k = cc
  results-Right ((name, waiting) ∷ slots) rs h k = cc
  results-Right ((name, spawned) ∷ slots) rs h k = cc
  results-Right ((name, building) ∷ slots) rs h k = cc
  results-Right ((name, finished o) ∷ slots) rs h k = elim (Option-cases (results slots)) [
    | inl p ↦ cc (rw p at k)
    | inr (rest, p) ↦ cc (rw p at k, results-Right slots rest h.1 p, h.0)
  ]

  collect-eq-sequential :
      (names : List String)
      → collect (map (λ name. (name, build false name)) names)
        ≡ sequential build context_error names
  unfolding collect sequential
  collect-eq-sequential [] = refl
  collect-eq-sequential (name ∷ names) = step (build false name) (collect-eq-sequential names)
    where
      step :
          (o : Outcome E A)
          → collect (map (λ n. (n, build false n)) names) ≡ sequential build context_error names
          → collect ((name, o) ∷ map (λ n. (n, build false n)) names) ≡ elim o [
            | failed e ↦ failed e
            | ok value ↦ elim (sequential build context_error names) [
              | failed e ↦ failed e
              | ok values ↦ ok (value ∷ values)
            ]
          ]
      step (failed e) ih = refl
      step (ok value) ih = rw (collect, ih) refl

  -- However the goroutines interleave, as long as the command is not cancelled: once all have
  -- finished there is one result for each name in the order of the names, the one that `build`
  -- returns for it, and the collected outcome is that of the sequential loop.
  pub run-eq-sequential :
      (limit : ℕ) (names : List String) (actions : List Action) (rs : List (String × Outcome E A))
      → Uncancelled actions
      → results (run build context_error limit (start names) actions).slots ≡ some rs
      → (rs ≡ map (λ name. (name, build false name)) names)
        × (collect rs ≡ sequential build context_error names)
  unfolding start
  run-eq-sequential limit names actions rs n k =
      let (c, e, h) =
        run-Agrees limit names (start names) actions n
          (refl, start_names names, start_Right names) in
      let q = results-Right _ rs h k ∙ ap (map (λ name. (name, build false name))) e in
      (q, ap collect q ∙ collect-eq-sequential names)
