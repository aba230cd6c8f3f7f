-- ===== src/Retrospective/Linked.antt =====
-- The rescales that a timeline reconstructs follow on from one another.
use kubectl_hpa_status.Prelude.{
  List, [], ◌∷◌, ℤ, Option, none, some, ◌≡◌, refl, inl, inr, Bool-cases,
}
use kubectl_hpa_status.Api.{Hpa}
use kubectl_hpa_status.Retrospective.Patterns.{parse_new_size}
use kubectl_hpa_status.Retrospective.Timeline.{
  rescale, Entry, Event, Ansi, is_some, is_rescale, rescale_entry, other_entry, classify_event,
  next_desired, or_else, classify_events, build_timeline,
}

-- How an entry follows on from the size that the entries before it have set.
abbrev pub Follows : Option ℤ → Entry → Option ℤ → Type 0
Follows prev e none = e.from_replicas ≡ none
Follows prev e (some to) =
    (e.from_replicas ≡ prev) × (e.parse_valid ≡ is_some prev) × (e.category ≡ rescale)

abbrev pub IsLinked : Option ℤ → List Entry → Type 0
IsLinked prev [] = Unit
IsLinked prev (e ∷ rest) = Follows prev e e.to_replicas × IsLinked (or_else e.to_replicas prev) rest

-- What an event does to the size, and what its entry says about it.
abbrev Agrees : Option ℤ → Option ℤ → Entry → Type 0
Agrees prev next e = Follows prev e e.to_replicas × (or_else e.to_replicas prev ≡ next)

rescale_entry-Agrees :
    (event : Event) (prev size : Option ℤ)
    → Agrees prev (or_else size prev) (rescale_entry event prev size)
unfolding rescale_entry
rescale_entry-Agrees event prev none = (refl, refl)
rescale_entry-Agrees event prev (some n) = ((refl, refl, refl), refl)

other_entry-Agrees :
    (ansi : Ansi) (hpa : Hpa) (event : Event) (prev : Option ℤ)
    → Agrees prev prev (other_entry ansi hpa event)
unfolding other_entry
other_entry-Agrees ansi hpa event prev = (refl, refl)

classify_event-Agrees :
    (ansi : Ansi) (hpa : Hpa) (event : Event) (prev : Option ℤ)
    → Agrees prev (next_desired event prev) (classify_event ansi hpa event prev)
unfolding classify_event next_desired
classify_event-Agrees ansi hpa event prev = elim (Bool-cases (is_rescale event)) [
  | inl p ↦ rw p (rescale_entry-Agrees event prev (parse_new_size event.message))
  | inr p ↦ rw p (other_entry-Agrees ansi hpa event prev)
]

classify_events-IsLinked :
    (ansi : Ansi) (hpa : Hpa) (prev : Option ℤ) (events : List Event)
    → IsLinked prev (classify_events ansi hpa prev events)
unfolding classify_events
classify_events-IsLinked ansi hpa prev [] = tt
classify_events-IsLinked ansi hpa prev (event ∷ events) =
    let (follows, next) = classify_event-Agrees ansi hpa event prev in
    (follows, rw next (classify_events-IsLinked ansi hpa (next_desired event prev) events))

-- In the timeline of any events, an entry that records a rescale to a size starts from the size of the
-- last one before it that records a size, and from an unknown size if there is none; its range is
-- marked as valid exactly if that size is known, and no other entry records a size.
pub build_timeline-IsLinked :
    (ansi : Ansi) (events : List Event) (hpa : Hpa) (since now : ℤ)
    → IsLinked none (build_timeline ansi events hpa since now).entries
unfolding build_timeline
build_timeline-IsLinked ansi events hpa since now = classify_events-IsLinked ansi hpa none events
