-- ===== src/Events/Rescales.antt =====
-- pkg/hpa/internal/event/event.go. A time.Time is the integer number of nanoseconds since Go's zero
-- time, so that IsZero, Equal and Before are tests of integers.
use kubectl_hpa_status.Prelude.{
  List, [], ◌∷◌, ◌++◌, ℤ, pos, Bool, true, false, ◌||◌, ltb_ℤ, eqb_ℤ, not, map, if◌then◌else◌,
  String,
}

pub record Event : Type 0 where
  pub reason : String
  pub message : String
  pub timestamp : ℤ

-- The two time fields of corev1.Event.
unfoldable pub timestamp : ℤ → ℤ → ℤ
timestamp last_timestamp event_time =
    if not (eqb_ℤ last_timestamp (pos 0))
    then last_timestamp
    else if not (eqb_ℤ event_time (pos 0))
    then event_time
    else pos 0

pub record RescaleData : Type 0 where
  pub timestamp : ℤ
  pub new_size : ℤ

-- The `less` function of sort.Slice: by time, and by size at one time.
unfoldable pub rescale_less : RescaleData → RescaleData → Bool
rescale_less a b =
    if eqb_ℤ a.timestamp b.timestamp
    then ltb_ℤ a.new_size b.new_size
    else ltb_ℤ a.timestamp b.timestamp

-- sort.Slice leaves the order of equal elements open. `rescale_less` orders any two elements that
-- differ, so the sorted slice is unique, and an insertion sort returns it.
unfoldable pub insert : RescaleData → List RescaleData → List RescaleData
insert a [] = a ∷ []
insert a (b ∷ rest) = if rescale_less b a then b ∷ insert a rest else a ∷ b ∷ rest

unfoldable pub sort : List RescaleData → List RescaleData
sort [] = []
sort (a ∷ rest) = insert a (sort rest)

-- The two loops over the sorted slice. `first` is `ordered[start]`, and the rest is read from `end`.
abbrev pub emit : RescaleData → Bool → List RescaleData
emit first true = []
emit first false = first ∷ []

unfoldable pub groups : RescaleData → Bool → List RescaleData → List RescaleData
groups first ambiguous [] = emit first ambiguous
groups first ambiguous (next ∷ rest) =
    let same = eqb_ℤ next.timestamp first.timestamp in
    (if same then [] else emit first ambiguous)
    ++ groups (if same then first else next)
        (if same then ambiguous || not (eqb_ℤ next.new_size first.new_size) else false) rest

unfoldable pub normalize_sorted : List RescaleData → List RescaleData
normalize_sorted [] = []
normalize_sorted (first ∷ rest) = groups first false rest

unfoldable pub normalize_rescales : List RescaleData → List RescaleData
normalize_rescales rescales = normalize_sorted (sort rescales)

unfoldable pub rescale_sizes : List RescaleData → List ℤ
rescale_sizes rescales = map (λ r. r.new_size) rescales
