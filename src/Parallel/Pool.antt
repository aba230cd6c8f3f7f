-- ===== src/Parallel/Pool.antt =====
-- mapPerHPA and collectPerHPA of cmd/parallel.go. A goroutine's life is a slot: it waits to be
-- started, is spawned, builds, and has finished. What the scheduler and the user do is a list of
-- actions: the next goroutine starts, the goroutine at an index looks at the context or returns from
-- `build`, the context is cancelled. An action that is not possible changes nothing.
-- `build` is given whether the context is cancelled when it returns.
use kubectl_hpa_status.Prelude.{
  ℕ, zero, suc, List, [], ◌∷◌, ℤ, pos, Bool, true, false, ltb, Option, none, some, map, String,
  if◌then◌else◌,
}
use kubectl_hpa_status.Kube.Retry.{Outcome, ok, failed}

pub data Slot (E A : Type 0) : Type 0 where
  waiting spawned building : Slot E A
  finished : Outcome E A → Slot E A

pub record Pool (E A : Type 0) : Type 0 where
  pub slots : List (String × Slot E A)
  pub cancelled : Bool

pub data Action : Type 0 where
  spawn : Action
  check : ℕ → Action
  return_at : ℕ → Action
  cancel : Action

-- perHPAConcurrency and the guard of mapPerHPA: below one, the default counts.
unfoldable pub effective_limit : ℕ → ℤ → ℕ
effective_limit default_concurrency (pos n) = if ltb n 1 then default_concurrency else n
effective_limit default_concurrency _ = default_concurrency

module _ {E A : Type 0} where
  unfoldable pub start : List String → Pool E A
  start names = record { slots = map (λ name. (name, waiting)) names; cancelled = false }

  unfoldable pub active : List (String × Slot E A) → ℕ
  active [] = 0
  active ((name, spawned) ∷ slots) = suc (active slots)
  active ((name, building) ∷ slots) = suc (active slots)
  active ((name, waiting) ∷ slots) = active slots
  active ((name, finished o) ∷ slots) = active slots

  -- g.Go starts the goroutines in the order of the names.
  unfoldable pub spawn_first : List (String × Slot E A) → List (String × Slot E A)
  spawn_first [] = []
  spawn_first ((name, waiting) ∷ slots) = (name, spawned) ∷ slots
  spawn_first ((name, spawned) ∷ slots) = (name, spawned) ∷ spawn_first slots
  spawn_first ((name, building) ∷ slots) = (name, building) ∷ spawn_first slots
  spawn_first ((name, finished o) ∷ slots) = (name, finished o) ∷ spawn_first slots

  unfoldable pub update_at :
      (String → Slot E A → Slot E A) → ℕ → List (String × Slot E A) → List (String × Slot E A)
  update_at f i [] = []
  update_at f zero ((name, slot) ∷ slots) = (name, f name slot) ∷ slots
  update_at f (suc i) (s ∷ slots) = s ∷ update_at f i slots

  module _ (build : Bool → String → Outcome E A) (context_error : E) where
    abbrev pub checked : Bool → String → Slot E A → Slot E A
    checked cancelled name spawned = if cancelled then finished (failed context_error) else building
    checked cancelled name slot = slot

    abbrev pub returned : Bool → String → Slot E A → Slot E A
    returned cancelled name building = finished (build cancelled name)
    returned cancelled name slot = slot

    unfoldable pub act : ℕ → Pool E A → Action → Pool E A
    act limit pool spawn =
        if ltb (active pool.slots) limit
        then record pool { slots = spawn_first pool.slots }
        else pool
    act limit pool (check i) = record pool {
      slots = update_at (checked pool.cancelled) i pool.slots;
    }
    act limit pool (return_at i) = record pool {
      slots = update_at (returned pool.cancelled) i pool.slots;
    }
    act limit pool cancel = record pool { cancelled = true }

    unfoldable pub run : ℕ → Pool E A → List Action → Pool E A
    run limit pool [] = pool
    run limit pool (a ∷ actions) = run limit (act limit pool a) actions

    -- The loop that the commands had before: it stops at the first error.
    unfoldable pub sequential : List String → Outcome E (List A)
    sequential [] = ok []
    sequential (name ∷ names) = elim (build false name) [
      | failed e ↦ failed e
      | ok value ↦ elim (sequential names) [ failed e ↦ failed e | ok values ↦ ok (value ∷ values) ]
    ]

  -- g.Wait(): the results, once every goroutine has finished.
  unfoldable pub results : List (String × Slot E A) → Option (List (String × Outcome E A))
  results [] = some []
  results ((name, finished o) ∷ slots) = elim (results slots) [
    | none ↦ none
    | some rest ↦ some ((name, o) ∷ rest)
  ]
  results ((name, waiting) ∷ slots) = none
  results ((name, spawned) ∷ slots) = none
  results ((name, building) ∷ slots) = none

  -- The loop of collectPerHPA over the results.
  unfoldable pub collect : List (String × Outcome E A) → Outcome E (List A)
  collect [] = ok []
  collect ((name, failed e) ∷ rest) = failed e
  collect ((name, ok value) ∷ rest) = elim (collect rest) [
    | failed e ↦ failed e
    | ok values ↦ ok (value ∷ values)
  ]
