-- ===== src/History/Bounds.antt =====
-- The cache keeps its bounds, whatever is saved, loaded and removed.
use kubectl_hpa_status.Prelude.{
  ℕ, zero, suc, ◌+◌, ◌≤◌, ◌<◌, List, [], ◌∷◌, ℤ, pos, false, not, ◌||◌, ltb_ℤ, ◌+ℤ◌, ◌-ℤ◌, ◌≤ℤ◌,
  int_laws, length, String, Option, none, some, arith, ◌≡◌, ◌≢◌, inl, inr, eq_of_parts, ltb, refl,
  Bool-cases, Option-cases,
}
use kubectl_hpa_status.History.Cache.{
  FileInfo, HistoryScan, CachedScan, ScanCache, count_of, find_entry, remove, oldest_from, is_full,
  evict, save, insert_scan, load_entry, load, same_info, max_cached_history_streams,
  max_cached_history_records, next_sequence,
}
use kubectl_hpa_status.History.Entries.{
  IsMap, sum_records, delete-IsMap, find-delete, find-delete_self, delete_present, oldest_present,
  set_absent, set_present, set_entry-IsMap,
}

records_left : (r : ℤ) (k s d : ℕ) → r ≡ pos s → s ≡ k + d → r -ℤ pos k ≡ pos d
records_left r k s d p q = rw p (eq_of_parts _ _ (omega int_laws))

records_more : (r : ℤ) (k s d : ℕ) → r ≡ pos s → d ≡ s + k → r +ℤ pos k ≡ pos d
records_more r k s d p q = rw p (eq_of_parts _ _ (omega int_laws))

module _ {S : Type 0} where
  -- A key has one entry, and `records` is the number of cached records.
  abbrev IsCounted : ScanCache S → Type 0
  IsCounted c = IsMap c.entries × (c.records ≡ pos (sum_records c.entries))

  abbrev pub IsBounded : ScanCache S → Type 0
  IsBounded c =
      IsMap c.entries
      × (c.records ≡ pos (sum_records c.entries))
      × (length c.entries ≤ max_cached_history_streams)
      × (pos (sum_records c.entries) ≤ℤ max_cached_history_records)

  -- What a removal leaves.
  abbrev Removes : ScanCache S → String → ScanCache S → Type 0
  Removes c path r =
      IsCounted r
      × (find_entry path r.entries ≡ none)
      × (length r.entries ≤ length c.entries)
      × (sum_records r.entries ≤ sum_records c.entries)

  remove-Removes : (c : ScanCache S) (path : String) → IsCounted c → Removes c path (remove c path)
  unfolding remove
  remove-Removes c path (m, n) = elim (Option-cases (find_entry path c.entries)) [
    | inl e ↦ rw e ((m, n), e, omega arith, omega arith)
    | inr s ↦
        let (entry, e) = s in
        let (sum, len) = delete_present path c.entries entry m e in
        rw e (
          (
            delete-IsMap path c.entries m,
            records_left c.records (count_of entry.scan) (sum_records c.entries) _ n sum,
          ),
          find-delete_self path c.entries,
          omega (arith, len),
          omega (arith, sum),
        )
  ]

  oldest_found :
      (es : List (String × CachedScan S))
      → 0 < length es
      → find_entry (oldest_from "" 0 es) es ≢ none
  oldest_found [] k = absurd (omega arith)
  oldest_found ((key, e) ∷ es) k = oldest_present key e es

  -- Evicting the oldest entry of a map with an entry takes one off.
  remove_oldest :
      (c : ScanCache S)
      → IsCounted c
      → 0 < length c.entries
      → length (remove c (oldest_from "" 0 c.entries)).entries < length c.entries
  unfolding remove
  remove_oldest c (m, n) k =
      let path = oldest_from "" 0 c.entries in
      elim (Option-cases (find_entry path c.entries)) [
        | inl e ↦ absurd (oldest_found c.entries k e)
        | inr s ↦ rw s.1 (omega (arith, (delete_present path c.entries s.0 m s.1).1))
      ]

  remove_absent :
      (c : ScanCache S) (path key : String)
      → find_entry key c.entries ≡ none
      → find_entry key (remove c path).entries ≡ none
  unfolding remove
  remove_absent c path key h = elim (Option-cases (find_entry path c.entries)) [
    | inl e ↦ rw e h
    | inr s ↦ rw s.1 (find-delete path key c.entries h)
  ]

  sum_empty : (es : List (String × CachedScan S)) → length es ≡ 0 → sum_records es ≡ 0
  unfolding sum_records
  sum_empty [] h = refl
  sum_empty (e ∷ es) h = absurd (omega arith)

  -- An empty cache has room for any scan that may be cached.
  empty_not_full :
      (c : ScanCache S) (count : ℕ)
      → IsCounted c
      → length c.entries ≡ 0
      → pos count ≤ℤ max_cached_history_records
      → is_full c count ≡ false
  unfolding is_full ◌+ℤ◌
  empty_not_full c count (m, n) l k = rw (n, sum_empty c.entries l, l) (ground arith)

  -- What the eviction leaves: a cache with room.
  evict_lem :
      (fuel count : ℕ) (path : String) (c : ScanCache S)
      → IsCounted c
      → length c.entries ≤ fuel
      → pos count ≤ℤ max_cached_history_records
      → find_entry path c.entries ≡ none
      → IsCounted (evict fuel count c)
        × (is_full (evict fuel count c) count ≡ false)
        × (find_entry path (evict fuel count c).entries ≡ none)
  unfolding evict
  evict_lem zero count path c h l k a = (h, empty_not_full c count h (omega arith) k, a)
  evict_lem (suc fuel) count path c h l k a = elim (Bool-cases (is_full c count)) [
    | inr q ↦ rw q (h, q, a)
    | inl q ↦ elim (Bool-cases (ltb 0 (length c.entries))) [
      | inr z ↦ cc (q, empty_not_full c count h (ground arith) k)
      | inl z ↦
          let oldest = oldest_from "" 0 c.entries in
          let shorter = remove_oldest c h (ground arith) in
          rw q (
            evict_lem fuel count path (remove c oldest) (remove-Removes c oldest h).0 (omega arith)
              k (remove_absent c oldest path a))
    ]
  ]

  -- Room for a scan, as bounds.
  room :
      (c : ScanCache S) (count : ℕ)
      → IsCounted c
      → is_full c count ≡ false
      → (length c.entries < max_cached_history_streams) × (sum_records c.entries + count ≤ 100000)
  unfolding is_full ◌+ℤ◌
  room c count (m, n) q = let r = rw n at q in (ground arith, ground arith)

  inserted_lem :
      (info : FileInfo) (path : String) (cutoff : ℤ) (scan : HistoryScan S) (c : ScanCache S)
      → IsCounted c
      → find_entry path c.entries ≡ none
      → length c.entries < max_cached_history_streams
      → sum_records c.entries + count_of scan ≤ 100000
      → IsBounded (insert_scan info path cutoff scan c)
        × (find_entry path (insert_scan info path cutoff scan c).entries
            ≡ some (record {
              info = info;
              cutoff = cutoff;
              scan = scan;
              used = next_sequence c.sequence;
            }))
  inserted_lem info path cutoff scan c (m, n) a l k =
      let used = next_sequence c.sequence in
      let entry : CachedScan S = record {
        info = info;
        cutoff = cutoff;
        scan = scan;
        used = used;
      } in
      let (sum, len, found) = set_absent path entry c.entries a in
      (
        (
          set_entry-IsMap path entry c.entries m,
          records_more c.records (count_of scan) (sum_records c.entries) _ n sum,
          omega (arith, len),
          omega (arith, sum),
        ),
        found,
      )

  cleared_lem : (c : ScanCache S) (path : String) → IsBounded c → IsBounded (remove c path)
  cleared_lem c path (m, n, l, k) =
      let (counted, a, l', k') = remove-Removes c path (m, n) in
      (counted.0, counted.1, omega (arith, l'), omega (arith, k'))

  -- Evicting from the cleared cache makes room, and leaves the path free.
  saved_lem :
      (info : FileInfo) (path : String) (cutoff : ℤ) (scan : HistoryScan S) (c : ScanCache S)
      → IsBounded c
      → pos (count_of scan) ≤ℤ max_cached_history_records
      → let cleared = remove c path in
        let made = evict (length cleared.entries) (count_of scan) cleared in
        IsBounded (insert_scan info path cutoff scan made)
        × (find_entry path (insert_scan info path cutoff scan made).entries
            ≡ some (record {
              info = info;
              cutoff = cutoff;
              scan = scan;
              used = next_sequence made.sequence;
            }))
  saved_lem info path cutoff scan c (m, n, l, k) small =
      let cleared = remove c path in
      let (counted, a, l', k') = remove-Removes c path (m, n) in
      let (h, free, absent) =
        evict_lem (length cleared.entries) (count_of scan) path cleared counted (omega arith) small
          a in
      let made = evict (length cleared.entries) (count_of scan) cleared in
      let (few, fit) = room made (count_of scan) h free in
      inserted_lem info path cutoff scan made h absent few fit

  -- A cache within its bounds stays within them when a scan is saved: at most 128 streams and at
  -- most 100000 records, each path once, and the counter `records` is the number of cached records.
  pub save-IsBounded :
      (stat : Option FileInfo) (path : String) (cutoff : ℤ) (scan : HistoryScan S) (c : ScanCache S)
      → IsBounded c
      → IsBounded (save stat path cutoff scan c)
  unfolding save
  save-IsBounded none path cutoff scan c b = cleared_lem c path b
  save-IsBounded (some info) path cutoff scan c b =
      elim (Bool-cases (ltb_ℤ max_cached_history_records (pos (count_of scan)))) [
        | inl q ↦ rw q (cleared_lem c path b)
        | inr q ↦ rw q (saved_lem info path cutoff scan c b (ground arith)).0
      ]

  -- The entry `o` holds the scan with its file's data and its cutoff.
  abbrev pub Holds : FileInfo → ℤ → HistoryScan S → Option (CachedScan S) → Type 0
  Holds info cutoff scan none = ⊥
  Holds info cutoff scan (some e) = (e.info ≡ info) × (e.cutoff ≡ cutoff) × (e.scan ≡ scan)

  -- In a cache within its bounds, a scan of at most 100000 records is found under its path after it
  -- is saved: the eviction ends, and it does not evict the scan itself.
  pub save-Holds :
      (info : FileInfo) (path : String) (cutoff : ℤ) (scan : HistoryScan S) (c : ScanCache S)
      → IsBounded c
      → pos (count_of scan) ≤ℤ max_cached_history_records
      → Holds info cutoff scan (find_entry path (save (some info) path cutoff scan c).entries)
  unfolding save
  save-Holds info path cutoff scan c b small =
      let fits : ltb_ℤ max_cached_history_records (pos (count_of scan)) ≡ false = ground arith in
      rw fits (rw (saved_lem info path cutoff scan c b small).1 (refl, refl, refl))

  loaded_lem :
      (timestamp : S → ℤ) (info : FileInfo) (path : String) (cutoff : ℤ) (c : ScanCache S)
      (o : Option (CachedScan S))
      → find_entry path c.entries ≡ o
      → IsBounded c
      → IsBounded (load_entry timestamp info path cutoff c o).1
  loaded_lem timestamp info path cutoff c none e b = b
  loaded_lem timestamp info path cutoff c (some cached) e (m, n, l, k) =
      elim (Bool-cases (ltb_ℤ cutoff cached.cutoff || not (same_info info cached.info))) [
        | inl q ↦ rw q (cleared_lem c path (m, n, l, k))
        | inr q ↦
            let entry : CachedScan S = record cached { used = next_sequence c.sequence } in
            let (sum, len) = set_present path entry cached c.entries e refl in
            rw q (
              set_entry-IsMap path entry c.entries m,
              rw sum n,
              omega (arith, len),
              omega (arith, sum),
            )
      ]

  -- A cache within its bounds stays within them when a scan is loaded or refused.
  pub load-IsBounded :
      (timestamp : S → ℤ) (stat : Option FileInfo) (path : String) (cutoff : ℤ) (c : ScanCache S)
      → IsBounded c
      → IsBounded (load timestamp stat path cutoff c).1
  unfolding load
  load-IsBounded timestamp none path cutoff c b = cleared_lem c path b
  load-IsBounded timestamp (some info) path cutoff c b =
      loaded_lem timestamp info path cutoff c (find_entry path c.entries) refl b
