-- ===== src/History/Coherent.antt =====
-- The cache of scanned files tells what a scan of the file would.
use kubectl_hpa_status.Prelude.{
  List, [], ◌∷◌, ℤ, pos, ◌≤ℤ◌, ltb_ℤ, true, false, not, ◌||◌, String, str_eq_iff, Option, none,
  some, ◌≡◌, refl, sym, ap, ◌∙◌, if_rule, some_inj, subst, arith,
}
use kubectl_hpa_status.History.Cache.{
  FileInfo, HistoryScan, CachedScan, ScanCache, find_entry, set_entry, save, remove, same_info,
  trimmed, load_entry, removed, search, count_of, max_cached_history_records,
}
use kubectl_hpa_status.History.Entries.{find-delete_self}
use kubectl_hpa_status.History.Store.{
  FileRead, missing, unreadable, contents, Disk, StoreError, no_scan, scan_history_file,
}
use kubectl_hpa_status.History.Scan.{described, scan_history_file-described, trimmed-described}

find-set_self :
    {A : Type 0} (path : String) (e : A) (es : List (String × A))
    → find_entry path (set_entry path e es) ≡ some e
unfolding find_entry set_entry
find-set_self path e [] = ground (arith, str_eq_iff path path)
find-set_self path e ((k, old) ∷ es) = ground (arith, str_eq_iff path path, find-set_self path e es)

module _ {S : Type 0} where
  pub find-remove :
      (path : String) (c : ScanCache S) → find_entry path (remove c path).entries ≡ none
  unfolding remove
  find-remove path c = gone (find_entry path c.entries) refl
    where
      gone :
          (o : Option (CachedScan S))
          → find_entry path c.entries ≡ o
          → find_entry path (removed c path o).entries ≡ none
      gone none e = e
      gone (some entry) e = find-delete_self path c.entries

module _ {S : Type 0} (timestamp : S → ℤ) where
  -- What the cache holds for a file that is unchanged is the scan of the file.
  abbrev pub Tells : Disk S → Option (CachedScan S) → Type 0
  Tells disk none = Unit
  Tells disk (some e) =
      (info : FileInfo)
      → disk.info ≡ some info
      → same_info info e.info ≡ true
      → scan_history_file timestamp e.cutoff disk.read ≡ (e.scan, none)

  abbrev pub IsCoherent : String → Disk S → ScanCache S → Type 0
  IsCoherent path disk cache = Tells disk (find_entry path cache.entries)

  pub scan-trimmed :
      (early late : ℤ) (read : FileRead S) (scan : HistoryScan S)
      → early ≤ℤ late
      → scan_history_file timestamp early read ≡ (scan, none)
      → scan_history_file timestamp late read ≡ (trimmed timestamp late scan, none)
  unfolding scan_history_file trimmed search
  scan-trimmed early late unreadable scan h e = cc e
  scan-trimmed early late (contents ls true) scan h e = cc e
  scan-trimmed early late missing scan h e =
      let nothing : no_scan ≡ scan = ap (λ (p : HistoryScan S × Option StoreError). p.0) e in
      let same : no_scan ≡ trimmed timestamp late scan =
        ap (λ x. trimmed timestamp late x) nothing in
      ap (λ x. (x, none)) same
  scan-trimmed early late (contents ls false) scan h e =
      let found : described timestamp early ls ≡ scan =
        ap (λ (p : HistoryScan S × Option StoreError). p.0)
          (sym (scan_history_file-described timestamp early ls) ∙ e) in
      scan_history_file-described timestamp late ls
      ∙ ap (λ x. (x, none))
          (sym (trimmed-described timestamp early late ls h)
            ∙ ap (λ x. trimmed timestamp late x) found)

  pub remove-IsCoherent :
      (path : String) (disk : Disk S) (cache : ScanCache S)
      → IsCoherent path disk (remove cache path)
  remove-IsCoherent path disk cache = subst (λ o. Tells disk o) (sym (find-remove path cache)) tt

  -- Saving the scan of the file leaves the cache coherent.
  pub save-IsCoherent :
      (path : String) (cutoff : ℤ) (disk : Disk S) (scan : HistoryScan S) (cache : ScanCache S)
      → scan_history_file timestamp cutoff disk.read ≡ (scan, none)
      → (info : Option FileInfo) → IsCoherent path disk (save info path cutoff scan cache)
  unfolding save
  save-IsCoherent path cutoff disk scan cache h none = remove-IsCoherent path disk cache
  save-IsCoherent path cutoff disk scan cache h (some info) =
      if_rule (λ c. IsCoherent path disk c) (ltb_ℤ max_cached_history_records (pos (count_of scan)))
        (λ big. remove-IsCoherent path disk cache)
        (λ small. subst (λ o. Tells disk o) (sym (find-set_self path _ _)) (λ i here same. h))

  pub load-IsCoherent :
      (path : String) (cutoff : ℤ) (disk : Disk S) (cache : ScanCache S) (info : FileInfo)
      (o : Option (CachedScan S))
      → find_entry path cache.entries ≡ o
      → Tells disk o
      → disk.info ≡ some info
      → IsCoherent path disk (load_entry timestamp info path cutoff cache o).1
        × ((scan : HistoryScan S)
            → (load_entry timestamp info path cutoff cache o).0 ≡ some scan
            → scan_history_file timestamp cutoff disk.read ≡ (scan, none))
  load-IsCoherent path cutoff disk cache info none e t here =
      (subst (λ o. Tells disk o) (sym e) tt, λ scan h. cc h)
  load-IsCoherent path cutoff disk cache info (some cached) e t here =
      if_rule
        (λ (r : Option (HistoryScan S) × ScanCache S).
          IsCoherent path disk r.1
          × ((scan : HistoryScan S)
              → r.0 ≡ some scan
              → scan_history_file timestamp cutoff disk.read ≡ (scan, none)))
        (ltb_ℤ cutoff cached.cutoff || not (same_info info cached.info))
        (λ stale. (remove-IsCoherent path disk cache, λ scan h. cc h))
        (λ valid.
          let unchanged : same_info info cached.info ≡ true = ground arith in
          let wider : cached.cutoff ≤ℤ cutoff = ground arith in
          let known = t info here unchanged in
          (
            subst (λ o. Tells disk o) (sym (find-set_self path _ _))
                (λ i there same. t i there same),
            λ scan h.
                scan-trimmed cached.cutoff cutoff disk.read cached.scan wider known
                ∙ ap (λ x. (x, none)) (some_inj h),
          ))
