-- ===== src/Retrospective/Cycles.antt =====
-- The control cycles of a replayed timeline join: each starts when and where the one before it ended.
use kubectl_hpa_status.Prelude.{
  List, [], ◌∷◌, ◌++◌, ℤ, pos, Bool, true, false, eqb_ℤ, Option, none, some, All, if◌then◌else◌,
  ◌≡◌, ◌≢◌, refl, sym, ap, subst, ◌∙◌, inl, inr, Bool-cases, if_rule, eqb_iff,
}
use kubectl_hpa_status.Api.{Hpa}
use kubectl_hpa_status.Retrospective.Patterns.{parse_desired_range}
use kubectl_hpa_status.Retrospective.Timeline.{
  Category, rescale, metrics_unavailable, scaling_limited, stabilized, metric_change, Entry, Event,
  Ansi, is_some, or_else, build_timeline, entry_replica_range, recorded_range, or_range,
}
use kubectl_hpa_status.Retrospective.Replay.{
  ControlCycle, Progress, add_bottleneck, add_cycle, add_failure, analyze_rescale_entry, by_range,
  without_range, analyze_stabilized_entry, close_window, analyze_entry, analyze_entries,
  analyze_replay, nothing_yet, build_rescale_control_cycle, failed_rescale, closes,
}
use kubectl_hpa_status.Retrospective.Linked.{Follows, IsLinked, build_timeline-IsLinked}

-- Neighbouring cycles share their boundary in time and their replica count.
abbrev pub IsJoined : List ControlCycle → Type 0
IsJoined [] = Unit
IsJoined (c ∷ []) = Unit
IsJoined (c ∷ d ∷ cs) =
    (d.start ≡ c.end) × (d.input_replicas ≡ c.output_replicas) × IsJoined (d ∷ cs)

abbrev EndsAt : ℤ → ℤ → List ControlCycle → Type 0
EndsAt time size [] = Unit
EndsAt time size (c ∷ []) = (c.end ≡ time) × (c.output_replicas ≡ size)
EndsAt time size (c ∷ d ∷ cs) = EndsAt time size (d ∷ cs)

IsJoined-last :
    (time size : ℤ) (cs : List ControlCycle) (d : ControlCycle)
    → IsJoined cs
    → EndsAt time size cs
    → d.start ≡ time
    → d.input_replicas ≡ size
    → IsJoined (cs ++ (d ∷ []))
IsJoined-last time size [] d j e p q = tt
IsJoined-last time size (c ∷ []) d j (a, b) p q = (p ∙ sym a, q ∙ sym b, tt)
IsJoined-last time size (c ∷ c' ∷ cs) d (a, b, j) e p q =
    (a, b, IsJoined-last time size (c' ∷ cs) d j e p q)

EndsAt-last :
    (cs : List ControlCycle) (d : ControlCycle) → EndsAt d.end d.output_replicas (cs ++ (d ∷ []))
EndsAt-last [] d = (refl, refl)
EndsAt-last (c ∷ []) d = (refl, refl)
EndsAt-last (c ∷ c' ∷ cs) d = EndsAt-last (c' ∷ cs) d

-- What the loop knows when the entries so far have set the size `prev`.
abbrev Knows : Option ℤ → Progress → Type 0
Knows none p = (p.analysis.control_cycles ≡ [])
Knows (some size) p =
    (p.last_rescale_time ≢ pos 0)
    × (p.last_rescale_to ≡ size)
    × IsJoined p.analysis.control_cycles
    × EndsAt p.last_rescale_time size p.analysis.control_cycles

-- Whether a step leaves the cycles and their variables alone.
abbrev SameCycles : Progress → Progress → Type 0
SameCycles p q =
    (q.analysis.control_cycles ≡ p.analysis.control_cycles)
    × (q.last_rescale_time ≡ p.last_rescale_time)
    × (q.last_rescale_to ≡ p.last_rescale_to)

Knows-same : (prev : Option ℤ) (p q : Progress) → SameCycles p q → Knows prev p → Knows prev q
Knows-same none p q (cycles, time, size) k = cycles ∙ k
Knows-same (some a) p q (cycles, time, size) (set, last, j, e) = (
  λ h. set (sym time ∙ h),
  size ∙ last,
  subst (λ cs. IsJoined cs) (sym cycles) j,
  subst (λ cs. EndsAt q.last_rescale_time a cs) (sym cycles)
      (subst (λ t. EndsAt t a p.analysis.control_cycles) (sym time) e),
)

add_failure-SameCycles :
    (until : ℤ) (rest : List Entry) (entry : Entry) (p : Progress)
    → SameCycles p (add_failure until rest entry p)
unfolding add_failure add_bottleneck
add_failure-SameCycles until rest entry p =
    if_rule (λ q. SameCycles p q) (failed_rescale entry.message) (λ _. (refl, refl, refl))
      (λ _. (refl, refl, refl))

stabilized-SameCycles :
    (until : ℤ) (rest : List Entry) (entry : Entry) (p : Progress)
    → SameCycles p (analyze_stabilized_entry until rest entry p)
unfolding analyze_stabilized_entry close_window
stabilized-SameCycles until rest entry p =
    if_rule (λ q. SameCycles p q) (closes rest) (λ _. (refl, refl, refl)) (λ _. (refl, refl, refl))

started : (since last : ℤ) → last ≢ pos 0 → (if eqb_ℤ last (pos 0) then since else last) ≡ last
started since last h = elim (Bool-cases (eqb_ℤ last (pos 0))) [
  | inl p ↦ absurd (h ((eqb_iff last (pos 0)).0 p))
  | inr p ↦ rw p refl
]

add_cycle-Knows :
    (since : ℤ) (entry : Entry) (from to : ℤ) (p : Progress)
    → entry.timestamp ≢ pos 0
    → Knows (some from) p
    → Knows (some to) (add_cycle since entry from to p)
unfolding add_cycle build_rescale_control_cycle
add_cycle-Knows since entry from to p now (set, last, j, e) = (
  now,
  refl,
  IsJoined-last p.last_rescale_time from p.analysis.control_cycles _ j e
      (started since p.last_rescale_time set) refl,
  EndsAt-last p.analysis.control_cycles _,
)

recorded_none : (valid : Bool) (to : Option ℤ) → recorded_range valid none to ≡ none
recorded_none true to = refl
recorded_none false to = refl

-- An entry whose message has no range of its own, if it starts from no known size.
abbrev pub IsQuiet : Entry → Type 0
IsQuiet e = e.from_replicas ≡ none → parse_desired_range e.message ≡ none

no_range : (e : Entry) → e.from_replicas ≡ none → IsQuiet e → entry_replica_range e ≡ none
unfolding entry_replica_range
no_range e from quiet =
    ap
      (λ f. or_range (recorded_range e.parse_valid f e.to_replicas) (parse_desired_range e.message))
      from
    ∙ ap (λ r. or_range r (parse_desired_range e.message))
        (recorded_none e.parse_valid e.to_replicas)
    ∙ quiet from

known_range :
    (e : Entry) (from to : ℤ)
    → e.from_replicas ≡ some from
    → e.to_replicas ≡ some to
    → e.parse_valid ≡ true
    → entry_replica_range e ≡ some (from, to)
unfolding entry_replica_range
known_range e from to f t v =
    λ i. or_range (recorded_range (v i) (f i) (t i)) (parse_desired_range e.message)

unranged :
    (since until : ℤ) (rest : List Entry) (e : Entry) (p : Progress) (o next : Option ℤ)
    → e.from_replicas ≡ none
    → IsQuiet e
    → e.to_replicas ≡ o
    → Knows next (without_range until rest e none o p)
    → Knows next (analyze_rescale_entry since until rest e p)
unfolding analyze_rescale_entry
unranged since until rest e p o next from quiet to k =
    subst (λ r. Knows next (by_range since until rest e r p)) (sym (no_range e from quiet))
      (subst (λ f. Knows next (without_range until rest e f e.to_replicas p)) (sym from)
        (subst (λ t. Knows next (without_range until rest e none t p)) (sym to) k))

rescaled :
    (since until : ℤ) (rest : List Entry) (e : Entry) (p : Progress) (prev : Option ℤ) (to : ℤ)
    → e.to_replicas ≡ some to
    → e.from_replicas ≡ prev
    → e.parse_valid ≡ is_some prev
    → IsQuiet e
    → e.timestamp ≢ pos 0
    → Knows prev p
    → Knows (some to) (analyze_rescale_entry since until rest e p)
unfolding analyze_rescale_entry
rescaled since until rest e p none to t f v quiet now k =
    unranged since until rest e p (some to) (some to) f quiet t (
      now,
      refl,
      subst (λ cs. IsJoined cs) (sym k) tt,
      subst (λ cs. EndsAt e.timestamp to cs) (sym k) tt,
    )
rescaled since until rest e p (some from) to t f v quiet now k =
    subst (λ r. Knows (some to) (by_range since until rest e r p))
      (sym (known_range e from to f t v)) (add_cycle-Knows since e from to p now k)

other :
    (since until : ℤ) (rest : List Entry) (e : Entry) (p : Progress) (prev : Option ℤ)
    (c : Category)
    → e.to_replicas ≡ none
    → e.from_replicas ≡ none
    → IsQuiet e
    → Knows prev p
    → Knows prev (analyze_entry since until rest e c p)
unfolding analyze_entry add_bottleneck
other since until rest e p prev rescale t f quiet k =
    unranged since until rest e p none prev f quiet t
      (Knows-same prev p _ (add_failure-SameCycles until rest e p) k)
other since until rest e p prev metrics_unavailable t f quiet k =
    Knows-same prev p (analyze_entry since until rest e metrics_unavailable p) (refl, refl, refl) k
other since until rest e p prev scaling_limited t f quiet k =
    Knows-same prev p (analyze_entry since until rest e scaling_limited p) (refl, refl, refl) k
other since until rest e p prev stabilized t f quiet k =
    Knows-same prev p _ (stabilized-SameCycles until rest e p) k
other since until rest e p prev metric_change t f quiet k = k

step :
    (since until : ℤ) (rest : List Entry) (e : Entry) (p : Progress) (prev o : Option ℤ)
    → e.to_replicas ≡ o
    → Follows prev e o
    → IsQuiet e
    → e.timestamp ≢ pos 0
    → Knows prev p
    → Knows (or_else o prev) (analyze_entry since until rest e e.category p)
unfolding analyze_entry
step since until rest e p prev none t f quiet now k =
    other since until rest e p prev e.category t f quiet k
step since until rest e p prev (some to) t (f, v, c) quiet now k =
    subst (λ category. Knows (some to) (analyze_entry since until rest e category p)) (sym c)
      (rescaled since until rest e p prev to t f v quiet now k)

abbrev joined_cycles :
    (prev : Option ℤ) (p : Progress) → Knows prev p → IsJoined p.analysis.control_cycles
joined_cycles none p k = subst (λ cs. IsJoined cs) (sym k) tt
joined_cycles (some a) p (set, last, j, e) = j

-- The timeline's entries have a time and are quiet.
abbrev pub IsReadable : List Entry → Type 0
IsReadable entries = All (λ e. (e.timestamp ≢ pos 0) × IsQuiet e) entries

analyze_entries-IsJoined :
    (since until : ℤ) (entries : List Entry) (p : Progress) (prev : Option ℤ)
    → IsLinked prev entries
    → IsReadable entries
    → Knows prev p
    → IsJoined (analyze_entries since until entries p).analysis.control_cycles
unfolding analyze_entries
analyze_entries-IsJoined since until [] p prev l r k = joined_cycles prev p k
analyze_entries-IsJoined since until (e ∷ rest) p prev (f, l) ((now, quiet), r) k =
    analyze_entries-IsJoined since until rest (analyze_entry since until rest e e.category p)
      (or_else e.to_replicas prev) l r
      (step since until rest e p prev e.to_replicas refl f quiet now k)

-- The control cycles that the replay reconstructs from the timeline of any events join: each starts at
-- the time at which the one before it ended, from the replica count that the one before it reached. The
-- events have times, and only the entries of rescales from a known size have a range in their message.
pub analyze_replay-IsJoined :
    (ansi : Ansi) (events : List Event) (hpa : Hpa) (since now : ℤ)
    → IsReadable (build_timeline ansi events hpa since now).entries
    → IsJoined (analyze_replay (build_timeline ansi events hpa since now)).control_cycles
unfolding analyze_replay
analyze_replay-IsJoined ansi events hpa since now r =
    let timeline = build_timeline ansi events hpa since now in
    analyze_entries-IsJoined timeline.since timeline.until timeline.entries nothing_yet none
      (build_timeline-IsLinked ansi events hpa since now) r refl
