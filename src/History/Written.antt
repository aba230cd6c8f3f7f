-- ===== src/History/Written.antt =====
-- What a record writes is what it keeps in the cache: a scan of the written file finds the same.
use kubectl_hpa_status.Prelude.{
  ℕ, suc, List, [], ◌∷◌, ◌++◌, ℤ, ◌<ℤ◌, Bool, true, false, length, take, drop, map, Option, none,
  if◌then◌else◌, ◌≡◌, refl, sym, ap, subst, ◌∙◌, inl, inr, Bool-cases, arith,
}
use kubectl_hpa_status.History.Cache.{FileInfo, HistoryScan}
use kubectl_hpa_status.History.Sorted.{
  after, insert, insert_all, sort_stable, sort_if_needed, keep_after, sort_if_needed-eq, is_sorted,
  insert_all-IsSorted, insert-IsSorted, IsSorted, keep_after-insert_all, keep_after-insert,
}
use kubectl_hpa_status.History.Search.{search-first, insert_at_first}
use kubectl_hpa_status.History.Store.{
  Line, blank, corrupt, entry, FileRead, missing, unreadable, contents, Disk, written, StoreError,
  no_scan, scan_history_file, written_scan, write, place_of, insert_at, append_to, append_line,
  replace_snapshots,
}
use kubectl_hpa_status.History.Scan.{
  entries_of, corrupt_from, described, dropped, scan_eq, scan_history_file-described,
  keep_after-keep_after, dropped-keep_after,
}

module _ {S : Type 0} where
  entries_of-map : (xs : List S) → entries_of (map entry xs) ≡ xs
  entries_of-map [] = refl
  entries_of-map (x ∷ xs) = ap (λ r. x ∷ r) (entries_of-map xs)

  no_corrupt : (n : ℕ) (xs : List S) → corrupt_from n (map entry xs) ≡ []
  no_corrupt n [] = refl
  no_corrupt n (x ∷ xs) = no_corrupt (suc n) xs

  entries_of-append :
      (ls : List (Line S)) (s : S) → entries_of (ls ++ (entry s ∷ [])) ≡ entries_of ls ++ (s ∷ [])
  entries_of-append [] s = refl
  entries_of-append (blank ∷ ls) s = entries_of-append ls s
  entries_of-append (corrupt ∷ ls) s = entries_of-append ls s
  entries_of-append (entry x ∷ ls) s = ap (λ r. x ∷ r) (entries_of-append ls s)

  corrupt_from-append :
      (n : ℕ) (ls : List (Line S)) (s : S)
      → corrupt_from n (ls ++ (entry s ∷ [])) ≡ corrupt_from n ls
  corrupt_from-append n [] s = refl
  corrupt_from-append n (blank ∷ ls) s = corrupt_from-append (suc n) ls s
  corrupt_from-append n (corrupt ∷ ls) s = ap (λ r. suc n ∷ r) (corrupt_from-append (suc n) ls s)
  corrupt_from-append n (entry x ∷ ls) s = corrupt_from-append (suc n) ls s

module _ {S : Type 0} (timestamp : S → ℤ) where
  is_sorted_of : (xs : List S) → IsSorted timestamp xs → is_sorted timestamp xs ≡ true
  unfolding is_sorted
  is_sorted_of [] h = refl
  is_sorted_of (x ∷ []) h = refl
  is_sorted_of (x ∷ y ∷ xs) ((a, b), h) = ground (arith, is_sorted_of (y ∷ xs) h)

  sort-sorted : (xs : List S) → IsSorted timestamp xs → sort_stable timestamp xs ≡ xs
  unfolding sort_if_needed
  sort-sorted xs h =
      sym (sort_if_needed-eq timestamp xs)
      ∙ ap (λ b. if b then xs else sort_stable timestamp xs) (is_sorted_of xs h)

  -- Snapshots in the order of time, all after the cutoff.
  abbrev pub IsFresh : ℤ → List S → Type 0
  IsFresh cutoff xs = IsSorted timestamp xs × (keep_after timestamp cutoff xs ≡ xs)

  pub found-IsFresh :
      (cutoff : ℤ) (read : FileRead S) (scan : HistoryScan S)
      → scan_history_file timestamp cutoff read ≡ (scan, none)
      → IsFresh cutoff scan.retained
  unfolding scan_history_file keep_after insert_all
  found-IsFresh cutoff missing scan e =
      let nothing : no_scan ≡ scan = ap (λ (p : HistoryScan S × Option StoreError). p.0) e in
      subst (λ (x : HistoryScan S). IsFresh cutoff x.retained) nothing (tt, refl)
  found-IsFresh cutoff unreadable scan e = cc e
  found-IsFresh cutoff (contents ls true) scan e = cc e
  found-IsFresh cutoff (contents ls false) scan e =
      let found : described timestamp cutoff ls ≡ scan =
        ap (λ (p : HistoryScan S × Option StoreError). p.0)
          (sym (scan_history_file-described timestamp cutoff ls) ∙ e) in
      let kept = keep_after timestamp cutoff (entries_of ls) in
      let sorted = insert_all-IsSorted timestamp [] kept tt in
      let all_kept : keep_after timestamp cutoff (sort_stable timestamp kept)
          ≡ sort_stable timestamp kept =
        keep_after-insert_all timestamp cutoff [] kept
        ∙ ap (λ x. sort_stable timestamp x)
            (keep_after-keep_after timestamp cutoff cutoff (entries_of ls) (omega arith)) in
      subst (λ (x : HistoryScan S). IsFresh cutoff x.retained) found (sorted, all_kept)

  pub insert-IsFresh :
      (cutoff : ℤ) (s : S) (xs : List S)
      → cutoff <ℤ timestamp s
      → IsFresh cutoff xs
      → IsFresh cutoff (insert timestamp s xs)
  insert-IsFresh cutoff s xs h (sorted, kept) =
      let later : after timestamp cutoff s ≡ true = ground arith in
      (
        insert-IsSorted timestamp s xs sorted,
        keep_after-insert timestamp cutoff s xs ∙ rw (later, kept) refl,
      )

  -- A rewritten file holds the snapshots and nothing else.
  pub scan-replaced :
      (cutoff : ℤ) (xs : List S) (scan : HistoryScan S)
      → IsFresh cutoff xs
      → scan_history_file timestamp cutoff (contents (map entry xs) false)
        ≡ (written_scan timestamp true scan xs, none)
  unfolding written_scan
  scan-replaced cutoff xs scan (sorted, kept) =
      let all : entries_of (map entry xs) ≡ xs = entries_of-map xs in
      let none_dropped : dropped timestamp cutoff xs ≡ 0 =
        omega (arith, dropped-keep_after timestamp cutoff xs, ap (λ x. length x) kept) in
      let same : described timestamp cutoff (map entry xs) ≡ written_scan timestamp true scan xs =
        scan_eq
          (ap (λ x. sort_stable timestamp (keep_after timestamp cutoff x)) all
            ∙ ap (λ x. sort_stable timestamp x) kept
            ∙ sort-sorted xs sorted)
          (no_corrupt 0 xs) (ap (λ x. dropped timestamp cutoff x) all ∙ none_dropped)
          (ap (λ x. length x) all) in
      scan_history_file-described timestamp cutoff (map entry xs) ∙ ap (λ x. (x, none)) same

  keep_after-last :
      (cutoff : ℤ) (s : S) (xs : List S)
      → after timestamp cutoff s ≡ true
      → keep_after timestamp cutoff (xs ++ (s ∷ [])) ≡ keep_after timestamp cutoff xs ++ (s ∷ [])
  unfolding keep_after
  keep_after-last cutoff s [] h = rw h refl
  keep_after-last cutoff s (x ∷ xs) h = elim (Bool-cases (after timestamp cutoff x)) [
    | inl p ↦ rw (p, keep_after-last cutoff s xs h) refl
    | inr p ↦ rw p (keep_after-last cutoff s xs h)
  ]

  dropped-last :
      (cutoff : ℤ) (s : S) (xs : List S)
      → after timestamp cutoff s ≡ true
      → dropped timestamp cutoff (xs ++ (s ∷ [])) ≡ dropped timestamp cutoff xs
  dropped-last cutoff s [] h = rw h refl
  dropped-last cutoff s (x ∷ xs) h = ground (arith, dropped-last cutoff s xs h)

  insert_all-last :
      (done : List S) (s : S) (xs : List S)
      → insert_all timestamp done (xs ++ (s ∷ []))
        ≡ insert timestamp s (insert_all timestamp done xs)
  unfolding insert_all
  insert_all-last done s [] = refl
  insert_all-last done s (x ∷ xs) = insert_all-last (insert timestamp x done) s xs

  length-last : (s : S) (xs : List S) → length (xs ++ (s ∷ [])) ≡ suc (length xs)
  length-last s [] = omega arith
  length-last s (x ∷ xs) = omega (arith, length-last s xs)

  -- A record at the end of the file is found among the others.
  described-last :
      (cutoff : ℤ) (s : S) (ls : List (Line S))
      → cutoff <ℤ timestamp s
      → described timestamp cutoff (ls ++ (entry s ∷ []))
        ≡ written_scan timestamp false
            (described timestamp cutoff ls)
            (insert timestamp s (described timestamp cutoff ls).retained)
  unfolding written_scan
  described-last cutoff s ls h =
      let later : after timestamp cutoff s ≡ true = ground arith in
      let es = entries_of ls in
      let all = entries_of-append ls s in
      scan_eq
        (ap (λ x. sort_stable timestamp (keep_after timestamp cutoff x)) all
          ∙ ap (λ x. sort_stable timestamp x) (keep_after-last cutoff s es later)
          ∙ insert_all-last [] s (keep_after timestamp cutoff es))
        (corrupt_from-append 0 ls s)
        (ap (λ x. dropped timestamp cutoff x) all ∙ dropped-last cutoff s es later)
        (ap (λ x. length x) all ∙ length-last s es)

  scan-appended :
      (cutoff : ℤ) (s : S) (read : FileRead S) (scan : HistoryScan S)
      → cutoff <ℤ timestamp s
      → scan_history_file timestamp cutoff read ≡ (scan, none)
      → scan_history_file timestamp cutoff (append_to read true s)
        ≡ (written_scan timestamp false scan (insert timestamp s scan.retained), none)
  unfolding append_to scan_history_file keep_after insert_all
  scan-appended cutoff s missing scan h e =
      let nothing : no_scan ≡ scan = ap (λ (p : HistoryScan S × Option StoreError). p.0) e in
      scan_history_file-described timestamp cutoff (entry s ∷ [])
      ∙ ap (λ x. (x, none)) (described-last cutoff s [] h)
      ∙ ap
          (λ (x : HistoryScan S).
            (written_scan timestamp false x (insert timestamp s x.retained), none))
          nothing
  scan-appended cutoff s unreadable scan h e = cc e
  scan-appended cutoff s (contents ls true) scan h e = cc e
  scan-appended cutoff s (contents ls false) scan h e =
      let found : described timestamp cutoff ls ≡ scan =
        ap (λ (p : HistoryScan S × Option StoreError). p.0)
          (sym (scan_history_file-described timestamp cutoff ls) ∙ e) in
      scan_history_file-described timestamp cutoff (ls ++ (entry s ∷ []))
      ∙ ap (λ x. (x, none)) (described-last cutoff s ls h)
      ∙ ap
          (λ (x : HistoryScan S).
            (written_scan timestamp false x (insert timestamp s x.retained), none))
          found

  -- Whether a record is appended or the file rewritten, a scan of the new file is the scan that the
  -- cache keeps.
  pub scan-written :
      (cutoff : ℤ) (compact : Bool) (info : Option FileInfo) (disk : Disk S) (s : S)
      (scan : HistoryScan S)
      → disk.ended ≡ true
      → cutoff <ℤ timestamp s
      → scan_history_file timestamp cutoff disk.read ≡ (scan, none)
      → scan_history_file timestamp cutoff
          (write timestamp compact (written info) disk s (insert timestamp s scan.retained)).read
        ≡ (written_scan timestamp compact scan (insert timestamp s scan.retained), none)
  unfolding write replace_snapshots append_line
  scan-written cutoff true info disk s scan ended h e =
      scan-replaced cutoff (insert timestamp s scan.retained) scan
        (insert-IsFresh cutoff s scan.retained h (found-IsFresh cutoff disk.read scan e))
  scan-written cutoff false info disk s scan ended h e =
      rw ended (scan-appended cutoff s disk.read scan h e)

  -- The place that the binary search finds is behind the snapshots that are not later.
  pub insert_at-place_of :
      (cutoff : ℤ) (s : S) (xs : List S)
      → IsFresh cutoff xs
      → insert_at timestamp (place_of timestamp s xs) s xs ≡ insert timestamp s xs
  unfolding insert_at place_of
  insert_at-place_of cutoff s xs (sorted, kept) =
      ap (λ n. take n xs ++ (s ∷ drop n xs)) (search-first timestamp (timestamp s) xs sorted)
      ∙ insert_at_first timestamp s xs
