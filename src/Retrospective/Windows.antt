-- ===== src/Retrospective/Windows.antt =====
-- The stabilization windows of a replay are in order and do not overlap.
use kubectl_hpa_status.Prelude.{
  List, [], ◌∷◌, ◌++◌, ℤ, pos, ◌≤ℤ◌, ◌-ℤ◌, false, eqb_ℤ, eqb_iff, All, ◌≡◌, refl, sym, subst, ◌⊎◌,
  inl, inr, Bool-cases, if_rule, Option, none, some, arith,
}
use kubectl_hpa_status.Retrospective.Timeline.{
  Category, rescale, metrics_unavailable, scaling_limited, stabilized, metric_change, Entry,
  Timeline, entry_replica_range,
}
use kubectl_hpa_status.Retrospective.Replay.{
  StabilizationWindow, Progress, add_bottleneck, add_cycle, add_failure, analyze_rescale_entry,
  by_range, without_range, analyze_stabilized_entry, close_window, analyze_entry, analyze_entries,
  analyze_replay, nothing_yet, closes, window_end, window_start, failed_rescale,
}

-- Each window runs forward, as long as it says, and ends before the later ones start.
abbrev pub IsOrdered : List StabilizationWindow → Type 0
IsOrdered [] = Unit
IsOrdered (w ∷ ws) =
    (w.start ≤ℤ w.end)
    × (w.duration ≡ w.end -ℤ w.start)
    × All (λ v. w.end ≤ℤ v.start) ws
    × IsOrdered ws

abbrev EndBy : ℤ → List StabilizationWindow → Type 0
EndBy t ws = All (λ v. v.end ≤ℤ t) ws

All-last {ℓ} :
    {A : Type 0} (P : A → Type ℓ) (xs : List A) (x : A) → All P xs → P x → All P (xs ++ (x ∷ []))
All-last P [] x h k = (k, tt)
All-last P (y ∷ xs) x (a, h) k = (a, All-last P xs x h k)

IsOrdered-last :
    (ws : List StabilizationWindow) (w : StabilizationWindow)
    → IsOrdered ws
    → EndBy w.start ws
    → w.start ≤ℤ w.end
    → w.duration ≡ w.end -ℤ w.start
    → IsOrdered (ws ++ (w ∷ []))
IsOrdered-last [] w h e r d = (r, d, tt, tt)
IsOrdered-last (v ∷ ws) w (a, b, c, h) (e, es) r d =
    (a, b, All-last (λ u. v.end ≤ℤ u.start) ws w c e, IsOrdered-last ws w h es r d)

EndBy-later : (t u : ℤ) (ws : List StabilizationWindow) → t ≤ℤ u → EndBy t ws → EndBy u ws
EndBy-later t u [] h e = tt
EndBy-later t u (w ∷ ws) h (a, e) = (omega arith, EndBy-later t u ws h e)

-- The entries are in the order of time, from `t` on.
abbrev pub IsChronological : ℤ → List Entry → Type 0
IsChronological t [] = Unit
IsChronological t (e ∷ rest) = (t ≤ℤ e.timestamp) × IsChronological e.timestamp rest

-- Before an entry at the time `t` or later: the windows so far, and the start of the open one.
abbrev Good : ℤ → List StabilizationWindow → ℤ → Type 0
Good t ws start = IsOrdered ws × EndBy t ws × ((start ≡ pos 0) ⊎ ((start ≤ℤ t) × EndBy start ws))

abbrev IsGood : ℤ → Progress → Type 0
IsGood t p = Good t p.analysis.stabilization_windows p.stabilization_start

abbrev SameWindows : Progress → Progress → Type 0
SameWindows p q =
    (q.analysis.stabilization_windows ≡ p.analysis.stabilization_windows)
    × (q.stabilization_start ≡ p.stabilization_start)

Good-later :
    (t u : ℤ) (ws : List StabilizationWindow) (start : ℤ)
    → t ≤ℤ u
    → Good t ws start
    → Good u ws start
Good-later t u ws start h (o, e, inl z) = (o, EndBy-later t u ws h e, inl z)
Good-later t u ws start h (o, e, inr (l, b)) = (o, EndBy-later t u ws h e, inr (omega arith, b))

IsGood-same : (t u : ℤ) (p q : Progress) → t ≤ℤ u → SameWindows p q → IsGood t p → IsGood u q
IsGood-same t u p q h (w, s) g =
    subst (λ ws. Good u ws q.stabilization_start) (sym w)
      (subst (λ start. Good u p.analysis.stabilization_windows start) (sym s)
        (Good-later t u p.analysis.stabilization_windows p.stabilization_start h g))

-- The steps of the other categories leave the windows alone.
add_failure-SameWindows :
    (until : ℤ) (rest : List Entry) (e : Entry) (p : Progress)
    → SameWindows p (add_failure until rest e p)
unfolding add_failure add_bottleneck
add_failure-SameWindows until rest e p =
    if_rule (λ q. SameWindows p q) (failed_rescale e.message) (λ _. (refl, refl))
      (λ _. (refl, refl))

without_range-SameWindows :
    (until : ℤ) (rest : List Entry) (e : Entry) (from to : Option ℤ) (p : Progress)
    → SameWindows p (without_range until rest e from to p)
without_range-SameWindows until rest e none (some to) p = (refl, refl)
without_range-SameWindows until rest e none none p = add_failure-SameWindows until rest e p
without_range-SameWindows until rest e (some from) none p = add_failure-SameWindows until rest e p
without_range-SameWindows until rest e (some from) (some to) p =
    add_failure-SameWindows until rest e p

by_range-SameWindows :
    (since until : ℤ) (rest : List Entry) (e : Entry) (range : Option (ℤ × ℤ)) (p : Progress)
    → SameWindows p (by_range since until rest e range p)
unfolding add_cycle
by_range-SameWindows since until rest e (some (from, to)) p = (refl, refl)
by_range-SameWindows since until rest e none p =
    without_range-SameWindows until rest e e.from_replicas e.to_replicas p

pub rescale-SameWindows :
    (since until : ℤ) (rest : List Entry) (e : Entry) (p : Progress)
    → SameWindows p (analyze_rescale_entry since until rest e p)
unfolding analyze_rescale_entry
rescale-SameWindows since until rest e p =
    by_range-SameWindows since until rest e (entry_replica_range e) p

end_lem :
    (until : ℤ) (e : Entry) (rest : List Entry)
    → IsChronological e.timestamp rest
    → (e.timestamp ≤ℤ window_end until e rest) × IsChronological (window_end until e rest) rest
end_lem until e [] h = (ground arith, tt)
end_lem until e (next ∷ rest) (a, h) = (a, (omega arith, h))

start_lem :
    (t : ℤ) (e : Entry) (ws : List StabilizationWindow) (start : ℤ)
    → t ≤ℤ e.timestamp
    → Good t ws start
    → (window_start start e ≤ℤ e.timestamp) × EndBy (window_start start e) ws
start_lem t e ws start h (o, b, c) = elim (Bool-cases (eqb_ℤ start (pos 0))) [
  | inl z ↦ rw z (omega arith, EndBy-later t e.timestamp ws h b)
  | inr z ↦ rw z (still z c)
]
  where
    still :
        eqb_ℤ start (pos 0) ≡ false
        → (start ≡ pos 0) ⊎ ((start ≤ℤ t) × EndBy start ws)
        → (start ≤ℤ e.timestamp) × EndBy start ws
    still z (inl u) = cc (z, (eqb_iff start (pos 0)).1 u)
    still z (inr (l, k)) = (omega arith, k)

stabilized-Good :
    (t until : ℤ) (rest : List Entry) (e : Entry) (p : Progress)
    → t ≤ℤ e.timestamp
    → IsChronological e.timestamp rest
    → IsGood t p
    → IsGood (window_end until e rest) (analyze_stabilized_entry until rest e p)
unfolding analyze_stabilized_entry close_window
stabilized-Good t until rest e p h chronological (o, b, c) =
    let ws = p.analysis.stabilization_windows in
    let start = window_start p.stabilization_start e in
    let end = window_end until e rest in
    let (low, ended) = start_lem t e ws p.stabilization_start h (o, b, c) in
    let high = (end_lem until e rest chronological).0 in
    let run : start ≤ℤ end = omega arith in
    let past : t ≤ℤ end = omega arith in
    let end_self : end ≤ℤ end = omega arith in
    if_rule (λ q. IsGood end q) (closes rest)
      (λ _. (
        IsOrdered-last ws (record { start = start; end = end; duration = end -ℤ start }) o ended run
            refl,
        All-last (λ v. v.end ≤ℤ end) ws _ (EndBy-later t end ws past b) end_self,
        inl refl,
      ))
      (λ _. (o, EndBy-later t end ws past b, inr (run, ended)))

entry-Good :
    (t since until : ℤ) (rest : List Entry) (e : Entry) (p : Progress) (c : Category)
    → t ≤ℤ e.timestamp
    → IsChronological e.timestamp rest
    → IsGood t p
    → IsGood (window_end until e rest) (analyze_entry since until rest e c p)
unfolding analyze_entry add_bottleneck
entry-Good t since until rest e p stabilized h k g = stabilized-Good t until rest e p h k g
entry-Good t since until rest e p rescale h k g =
    IsGood-same t (window_end until e rest) p (analyze_entry since until rest e rescale p)
      (omega (arith, (end_lem until e rest k).0)) (rescale-SameWindows since until rest e p) g
entry-Good t since until rest e p metrics_unavailable h k g =
    IsGood-same t (window_end until e rest) p
      (analyze_entry since until rest e metrics_unavailable p)
      (omega (arith, (end_lem until e rest k).0)) (refl, refl) g
entry-Good t since until rest e p scaling_limited h k g =
    IsGood-same t (window_end until e rest) p (analyze_entry since until rest e scaling_limited p)
      (omega (arith, (end_lem until e rest k).0)) (refl, refl) g
entry-Good t since until rest e p metric_change h k g =
    IsGood-same t (window_end until e rest) p (analyze_entry since until rest e metric_change p)
      (omega (arith, (end_lem until e rest k).0)) (refl, refl) g

entries-Good :
    (t since until : ℤ) (entries : List Entry) (p : Progress)
    → IsChronological t entries
    → IsGood t p
    → IsOrdered (analyze_entries since until entries p).analysis.stabilization_windows
unfolding analyze_entries
entries-Good t since until [] p h (o, b, c) = o
entries-Good t since until (e ∷ rest) p (a, h) g =
    entries-Good (window_end until e rest) since until rest
      (analyze_entry since until rest e e.category p) (end_lem until e rest h).1
      (entry-Good t since until rest e p e.category a h g)

-- In the replay of a timeline whose entries are in the order of time, the observed stabilization windows
-- run forward, have the duration from their start to their end, and each ends before the later ones
-- start.
pub analyze_replay-IsOrdered :
    (t : ℤ) (timeline : Timeline)
    → IsChronological t timeline.entries
    → IsOrdered (analyze_replay timeline).stabilization_windows
unfolding analyze_replay
analyze_replay-IsOrdered t timeline h =
    entries-Good t timeline.since timeline.until timeline.entries nothing_yet h (tt, tt, inl refl)
