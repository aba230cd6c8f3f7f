-- ===== src/History/Scan.antt =====
-- What a scan of a history file finds: the file's records after the cutoff, in the order of time.
use kubectl_hpa_status.Prelude.{
  ℕ, suc, ◌+◌, List, [], ◌∷◌, ◌++◌, ℤ, ◌≤ℤ◌, false, length, drop, none, if◌then◌else◌, ◌≡◌, refl,
  sym, ap, ◌∙◌, inl, inr, Bool-cases, arith,
}
use kubectl_hpa_status.History.Cache.{HistoryScan, trimmed}
use kubectl_hpa_status.History.Sorted.{
  after, insert, insert_all, sort_stable, sort_if_needed, keep_after, sort_if_needed-eq,
  insert_all-IsSorted, IsSorted, keep_after-insert_all,
}
use kubectl_hpa_status.History.Search.{
  first_after, search-first, drop-first_after, length-keep_after,
}
use kubectl_hpa_status.History.Store.{
  Line, blank, corrupt, entry, contents, no_scan, scan_lines, scan_history_file,
}

abbrev pub entries_of : {S : Type 0} → List (Line S) → List S
entries_of [] = []
entries_of (blank ∷ ls) = entries_of ls
entries_of (corrupt ∷ ls) = entries_of ls
entries_of (entry s ∷ ls) = s ∷ entries_of ls

abbrev pub corrupt_from : {S : Type 0} → ℕ → List (Line S) → List ℕ
corrupt_from n [] = []
corrupt_from n (blank ∷ ls) = corrupt_from (suc n) ls
corrupt_from n (corrupt ∷ ls) = suc n ∷ corrupt_from (suc n) ls
corrupt_from n (entry s ∷ ls) = corrupt_from (suc n) ls

append_assoc : {A : Type 0} (xs ys zs : List A) → (xs ++ ys) ++ zs ≡ xs ++ (ys ++ zs)
append_assoc [] ys zs = refl
append_assoc (x ∷ xs) ys zs = ap (λ r. x ∷ r) (append_assoc xs ys zs)

append_nil : {A : Type 0} (xs : List A) → xs ++ [] ≡ xs
append_nil [] = refl
append_nil (x ∷ xs) = ap (λ r. x ∷ r) (append_nil xs)

pub scan_eq :
    {S : Type 0} {a b : HistoryScan S}
    → a.retained ≡ b.retained
    → a.corrupt_lines ≡ b.corrupt_lines
    → a.expired ≡ b.expired
    → a.total ≡ b.total
    → a ≡ b
scan_eq p q r s = λ i. record { retained = p i; corrupt_lines = q i; expired = r i; total = s i }

module _ {S : Type 0} (timestamp : S → ℤ) where
  -- The number of snapshots that are not after the cutoff.
  abbrev pub dropped : ℤ → List S → ℕ
  dropped cutoff [] = 0
  dropped cutoff (x ∷ xs) =
      if after timestamp cutoff x then dropped cutoff xs else suc (dropped cutoff xs)

  abbrev extended : ℤ → ℕ → HistoryScan S → List (Line S) → HistoryScan S
  extended cutoff n scan ls = record {
    retained = scan.retained ++ keep_after timestamp cutoff (entries_of ls);
    corrupt_lines = scan.corrupt_lines ++ corrupt_from n ls;
    expired = scan.expired + dropped cutoff (entries_of ls);
    total = scan.total + length (entries_of ls);
  }

  scan_lines-extended :
      (cutoff : ℤ) (n : ℕ) (scan : HistoryScan S) (ls : List (Line S))
      → scan_lines timestamp cutoff n scan ls ≡ extended cutoff n scan ls
  unfolding scan_lines keep_after
  scan_lines-extended cutoff n scan [] =
      scan_eq (sym (append_nil scan.retained)) (sym (append_nil scan.corrupt_lines)) (omega arith)
        (omega arith)
  scan_lines-extended cutoff n scan (blank ∷ ls) = scan_lines-extended cutoff (suc n) scan ls
  scan_lines-extended cutoff n scan (corrupt ∷ ls) =
      scan_lines-extended cutoff (suc n)
        (record scan { corrupt_lines = scan.corrupt_lines ++ (suc n ∷ []) }) ls
      ∙ scan_eq refl (append_assoc scan.corrupt_lines (suc n ∷ []) (corrupt_from (suc n) ls)) refl
          refl
  scan_lines-extended cutoff n scan (entry s ∷ ls) = elim (Bool-cases (after timestamp cutoff s)) [
    | inl p ↦ rw p (
        scan_lines-extended cutoff (suc n)
          (record scan { total = suc scan.total; retained = scan.retained ++ (s ∷ []) }) ls
        ∙ scan_eq
            (append_assoc scan.retained (s ∷ []) (keep_after timestamp cutoff (entries_of ls))) refl
            refl (omega arith))
    | inr p ↦ rw p (
        scan_lines-extended cutoff (suc n)
          (record scan { total = suc scan.total; expired = suc scan.expired }) ls
        ∙ scan_eq refl refl (omega arith) (omega arith))
  ]

  -- The scan that the lines describe.
  abbrev pub described : ℤ → List (Line S) → HistoryScan S
  described cutoff ls = record {
    retained = sort_stable timestamp (keep_after timestamp cutoff (entries_of ls));
    corrupt_lines = corrupt_from 0 ls;
    expired = dropped cutoff (entries_of ls);
    total = length (entries_of ls);
  }

  pub scan_history_file-described :
      (cutoff : ℤ) (ls : List (Line S))
      → scan_history_file timestamp cutoff (contents ls false) ≡ (described cutoff ls, none)
  unfolding scan_history_file
  scan_history_file-described cutoff ls =
      let scanned = scan_lines-extended cutoff 0 no_scan ls in
      let same : record (scan_lines timestamp cutoff 0 no_scan ls) {
        retained = sort_if_needed timestamp (scan_lines timestamp cutoff 0 no_scan ls).retained;
      }
          ≡ described cutoff ls =
        scan_eq
          (sort_if_needed-eq timestamp (scan_lines timestamp cutoff 0 no_scan ls).retained
            ∙ ap (λ x. sort_stable timestamp x.retained) scanned)
          (ap (λ x. x.corrupt_lines) scanned) (ap (λ x. x.expired) scanned ∙ omega arith)
          (ap (λ x. x.total) scanned ∙ omega arith) in
      ap (λ x. (x, none)) same

  pub keep_after-keep_after :
      (early late : ℤ) (xs : List S)
      → early ≤ℤ late
      → keep_after timestamp late (keep_after timestamp early xs) ≡ keep_after timestamp late xs
  unfolding keep_after
  keep_after-keep_after early late [] h = refl
  keep_after-keep_after early late (x ∷ xs) h =
      ground (arith, keep_after-keep_after early late xs h)

  pub dropped-keep_after :
      (cutoff : ℤ) (xs : List S)
      → dropped cutoff xs + length (keep_after timestamp cutoff xs) ≡ length xs
  unfolding keep_after
  dropped-keep_after cutoff [] = omega arith
  dropped-keep_after cutoff (x ∷ xs) = ground (arith, dropped-keep_after cutoff xs)

  length-insert : (s : S) (xs : List S) → length (insert timestamp s xs) ≡ suc (length xs)
  unfolding insert
  length-insert s [] = omega arith
  length-insert s (x ∷ xs) = ground (arith, length-insert s xs)

  length-insert_all :
      (done xs : List S) → length (insert_all timestamp done xs) ≡ length done + length xs
  unfolding insert_all
  length-insert_all done [] = omega arith
  length-insert_all done (x ∷ xs) =
      omega (arith, length-insert_all (insert timestamp x done) xs, length-insert x done)

  -- Trimming the scan of an earlier cutoff gives the scan of a later one.
  pub trimmed-described :
      (early late : ℤ) (ls : List (Line S))
      → early ≤ℤ late
      → trimmed timestamp late (described early ls) ≡ described late ls
  unfolding trimmed insert_all keep_after
  trimmed-described early late ls h =
      let es = entries_of ls in
      let kept = keep_after timestamp early es in
      let sorted = sort_stable timestamp kept in
      let in_order : IsSorted timestamp sorted = insert_all-IsSorted timestamp [] kept tt in
      let start = search-first timestamp late sorted in_order in
      let rest : keep_after timestamp late sorted
          ≡ sort_stable timestamp (keep_after timestamp late es) =
        keep_after-insert_all timestamp late [] kept
        ∙ ap (λ x. sort_stable timestamp x) (keep_after-keep_after early late es h) in
      let cut : drop (first_after timestamp late sorted) sorted ≡ keep_after timestamp late sorted =
        drop-first_after timestamp late sorted in_order in
      let count : dropped early es + first_after timestamp late sorted ≡ dropped late es = omega (
        arith,
        length-keep_after timestamp late sorted in_order,
        length-insert_all [] kept,
        ap (λ x. length x) rest,
        length-insert_all [] (keep_after timestamp late es),
        dropped-keep_after early es,
        dropped-keep_after late es,
      ) in
      scan_eq (ap (λ n. drop n sorted) start ∙ cut ∙ rest) refl
        (ap (λ n. dropped early es + n) start ∙ count) refl
