-- ===== src/HealthTrend/Stuck.antt =====
-- The stuck states are the long runs of a partition of the snapshots.
use kubectl_hpa_status.Prelude.{
  ℕ, suc, ◌+◌, ◌<◌, List, [], ◌∷◌, ◌++◌, true, false, ltb, leb, length, All, if◌then◌else◌, ◌≡◌,
  refl, sym, ap, subst, ◌∙◌, inl, inr, Bool-cases, length-append, arith, ◌⊎◌, ℤ, pos, negsuc, ◌-ℤ◌,
  ◌≤ℤ◌, ◌<ℤ◌, ◌≤◌, leb_ℤ, int_laws,
}
use kubectl_hpa_status.HealthTrend.Anomaly.{
  HealthSnapshot, Anomaly, Run, report_run, is_near, stuck_from, stuck_runs, detect_stuck_state,
  last_of, stuck_state_min_consecutive, abs_int, stuck_state, info,
}

-- A first snapshot and those that follow it in its run.
abbrev pub Segment : Type 0
Segment = HealthSnapshot × List HealthSnapshot

abbrev pub flatten : List Segment → List HealthSnapshot
flatten [] = []
flatten ((first, others) ∷ segments) = first ∷ (others ++ flatten segments)

-- The two scores are at most 2 apart.
abbrev pub Near : HealthSnapshot → HealthSnapshot → Type 0
Near first s =
    (s.health_score -ℤ first.health_score ≤ℤ pos 2)
    × (first.health_score -ℤ s.health_score ≤ℤ pos 2)

-- The two scores are more than 2 apart.
abbrev pub Far : HealthSnapshot → HealthSnapshot → Type 0
Far first s =
    (pos 2 <ℤ s.health_score -ℤ first.health_score)
    ⊎ (pos 2 <ℤ first.health_score -ℤ s.health_score)

abs_bound : (d : ℤ) → leb_ℤ (abs_int d) (pos 2) ≡ true → (d ≤ℤ pos 2) × (pos 0 -ℤ d ≤ℤ pos 2)
unfolding abs_int
abs_bound (pos n) h = (ground arith, omega int_laws)
abs_bound (negsuc n) h = let small : suc n ≤ 2 = ground arith in (omega int_laws, omega int_laws)

abs_beyond : (d : ℤ) → leb_ℤ (abs_int d) (pos 2) ≡ false → (pos 2 <ℤ d) ⊎ (pos 2 <ℤ pos 0 -ℤ d)
unfolding abs_int
abs_beyond (pos n) h = inl (ground arith)
abs_beyond (negsuc n) h = let large : 2 < suc n = ground arith in inr (omega int_laws)

is_near-Near : (first s : HealthSnapshot) → is_near first s ≡ true → Near first s
unfolding is_near
is_near-Near first s h =
    let (a, b) = abs_bound (s.health_score -ℤ first.health_score) h in (a, omega int_laws)

not_near-Far : (first s : HealthSnapshot) → is_near first s ≡ false → Far first s
unfolding is_near
not_near-Far first s h = elim (abs_beyond (s.health_score -ℤ first.health_score) h) [
  | inl a ↦ inl a
  | inr b ↦ inr (omega int_laws)
]

-- The next run, if there is one, starts too far from the score at which this one started.
abbrev pub Leaves : HealthSnapshot → List Segment → Type 0
Leaves first [] = Unit
Leaves first ((next, others) ∷ segments) = Far first next

abbrev pub IsPartition : List Segment → Type 0
IsPartition [] = Unit
IsPartition ((first, others) ∷ segments) =
    All (Near first) others × Leaves first segments × IsPartition segments

abbrev pub run_from : HealthSnapshot → List HealthSnapshot → Run
run_from first others = record {
  first = first;
  last = last_of first others;
  count = suc (length others);
}

-- The stuck state of a run, from its first and its last snapshot.
abbrev pub plateau : HealthSnapshot → HealthSnapshot → Anomaly
plateau first last = record {
  timestamp = last.timestamp;
  kind = stuck_state;
  severity = info;
  score_before = first.health_score;
  score_after = last.health_score;
  duration = last.timestamp -ℤ first.timestamp;
}

-- The anomalies of the segments of at least twenty snapshots.
abbrev pub stuck_segments : List Segment → List Anomaly
stuck_segments [] = []
stuck_segments ((first, others) ∷ segments) =
    (if leb 20 (suc (length others)) then plateau first (last_of first others) ∷ [] else [])
    ++ stuck_segments segments

append_assoc : {A : Type 0} (xs ys zs : List A) → (xs ++ ys) ++ zs ≡ xs ++ (ys ++ zs)
append_assoc [] ys zs = refl
append_assoc (x ∷ xs) ys zs = ap (λ r. x ∷ r) (append_assoc xs ys zs)

append_nil : {A : Type 0} (xs : List A) → xs ++ [] ≡ xs
append_nil [] = refl
append_nil (x ∷ xs) = ap (λ r. x ∷ r) (append_nil xs)

last_of-append : (s t : HealthSnapshot) (xs : List HealthSnapshot) → last_of s (xs ++ (t ∷ [])) ≡ t
last_of-append s t [] = refl
last_of-append s t (x ∷ xs) = last_of-append x t xs

length-last :
    (t : HealthSnapshot) (xs : List HealthSnapshot) → length (xs ++ (t ∷ [])) ≡ suc (length xs)
length-last t [] = omega arith
length-last t (x ∷ xs) = omega (arith, length-last t xs)

run_from-last :
    (first s : HealthSnapshot) (others : List HealthSnapshot)
    → run_from first (others ++ (s ∷ []))
      ≡ record { first = first; last = s; count = suc (suc (length others)) }
run_from-last first s others = λ i. record {
  first = first;
  last = last_of-append first s others i;
  count = suc (length-last s others i);
}

-- What is still to come of the run that has `others` so far, and of the runs behind it.
abbrev Splits : HealthSnapshot → List HealthSnapshot → List HealthSnapshot → Type 0
Splits first others rest =
    (more : List HealthSnapshot) × (segments : List Segment) × (more ++ flatten segments ≡ rest)
    × All (Near first) more
    × Leaves first segments
    × IsPartition segments
    × (stuck_from (run_from first others) rest
        ≡ report_run (run_from first (others ++ more)) ++ stuck_segments segments)

stuck_from-Splits :
    (first : HealthSnapshot) (others rest : List HealthSnapshot) → Splits first others rest
unfolding stuck_from report_run
stuck_from-Splits first others [] = (
  [],
  [],
  refl,
  tt,
  tt,
  tt,
  ap (λ o. report_run (run_from first o)) (sym (append_nil others))
      ∙ sym (append_nil (report_run (run_from first (others ++ [])))),
)
stuck_from-Splits first others (s ∷ rest) = elim (Bool-cases (is_near first s)) [
  | inl p ↦
      let (more, segments, e, near, leaves, parts, reports) =
        stuck_from-Splits first (others ++ (s ∷ [])) rest in
      (
        s ∷ more,
        segments,
        ap (λ r. s ∷ r) e,
        (is_near-Near first s p, near),
        leaves,
        parts,
        rw p (
            ap (λ r. stuck_from r rest) (sym (run_from-last first s others))
            ∙ reports
            ∙ ap (λ o. report_run (run_from first o) ++ stuck_segments segments)
                (append_assoc others (s ∷ []) more)),
      )
  | inr p ↦
      let (more, segments, e, near, leaves, parts, reports) = stuck_from-Splits s [] rest in
      (
        [],
        (s, more) ∷ segments,
        ap (λ r. s ∷ r) e,
        tt,
        not_near-Far first s p,
        (near, leaves, parts),
        rw p (
            ap (λ r. report_run (run_from first others) ++ r) reports
            ∙ ap (λ o. report_run (run_from first o) ++ stuck_segments ((s, more) ∷ segments))
                (sym (append_nil others))),
      )
]

none_long :
    (segments : List Segment)
    → length (flatten segments) < stuck_state_min_consecutive
    → stuck_segments segments ≡ []
none_long [] h = refl
none_long ((first, others) ∷ segments) h =
    let total : length (others ++ flatten segments) ≡ length others + length (flatten segments) =
      length-append others (flatten segments) in
    let short : leb stuck_state_min_consecutive (suc (length others)) ≡ false =
      too_short (suc (length others)) (omega arith) in
    rw (short, none_long segments (omega arith)) refl
  where
    too_short :
        (n : ℕ) → n < stuck_state_min_consecutive → leb stuck_state_min_consecutive n ≡ false
    too_short n lt = ground arith

-- What detectStuckState should find: the anomalies of the long runs of a partition.
abbrev pub FindsRuns : List HealthSnapshot → List Anomaly → Type 0
FindsRuns snapshots anomalies =
    (segments : List Segment) × (flatten segments ≡ snapshots)
    × IsPartition segments
    × (anomalies ≡ stuck_segments segments)

stuck_runs-FindsRuns :
    (snapshots : List HealthSnapshot) → FindsRuns snapshots (stuck_runs snapshots)
unfolding report_run
stuck_runs-FindsRuns [] = ([], refl, tt, refl)
stuck_runs-FindsRuns (s ∷ rest) =
    let (more, segments, e, near, leaves, parts, reports) = stuck_from-Splits s [] rest in
    ((s, more) ∷ segments, ap (λ r. s ∷ r) e, (near, leaves, parts), reports)

-- The snapshots are cut, in their order, into runs: every snapshot of a run has a score within 2 of the
-- run's first one, and the next run starts with one that has not. The stuck states are those of the
-- runs of at least twenty snapshots, one for each, with its first and its last score and the time
-- between them.
pub detect_stuck_state-FindsRuns :
    (snapshots : List HealthSnapshot) → FindsRuns snapshots (detect_stuck_state snapshots)
unfolding detect_stuck_state
detect_stuck_state-FindsRuns snapshots =
    let (segments, e, parts, found) = stuck_runs-FindsRuns snapshots in
    elim (Bool-cases (ltb (length snapshots) stuck_state_min_consecutive)) [
      | inl p ↦
          let few : length snapshots < stuck_state_min_consecutive = ground arith in
          (
            segments,
            e,
            parts,
            rw p (
                sym (
                  none_long segments
                    (subst (λ r. length r < stuck_state_min_consecutive) (sym e) few))),
          )
      | inr p ↦ (segments, e, parts, rw p found)
    ]
