-- ===== src/History/Store.antt =====
-- internal/history/store.go for one stream. A line of the file is what json.Unmarshal makes of it. What
-- the file system holds for the stream's path is a Disk; a write's outcome comes from the file system.
-- A line that reaches the end of the file without a newline takes the next record on itself.
-- The inter-process lock makes an operation one step; whether it is got is an argument.
use kubectl_hpa_status.Prelude.{
  ℕ, suc, ◌*◌, List, [], ◌∷◌, ◌++◌, ℤ, ◌-ℤ◌, Bool, true, false, not, ◌||◌, leb, ltb_ℤ, ◌==◌, map,
  length, take, drop, get_elem?, String, str_eq, Option, none, some, if◌then◌else◌,
}
use kubectl_hpa_status.History.Cache.{
  FileInfo, HistoryScan, ScanCache, is_after, load, save, remove, search,
}
use kubectl_hpa_status.History.Sorted.{after, sort_if_needed}

-- key.go
pub record SnapshotKey : Type 0 where
  pub cluster : String
  pub namespace : String
  pub name : String
  pub uid : String

unfoldable pub validate : SnapshotKey → Bool
validate key = not (str_eq key.namespace "" || str_eq key.name "")

pub data StoreError : Type 0 where
  invalid_key no_lock opening reading writing : StoreError
  corrupt_lines_in : List ℕ → StoreError

pub data Line (S : Type 0) : Type 0 where
  blank corrupt : Line S
  entry : S → Line S

-- The flag of `contents` says that the scanner fails behind the lines.
pub data FileRead (S : Type 0) : Type 0 where
  missing unreadable : FileRead S
  contents : List (Line S) → Bool → FileRead S

-- `ended` says that the file ends with a newline, or is empty.
pub record Disk (S : Type 0) : Type 0 where
  pub info : Option FileInfo
  pub read : FileRead S
  pub ended : Bool

pub data WriteOutcome (S : Type 0) : Type 0 where
  written : Option FileInfo → WriteOutcome S
  broken : Disk S → WriteOutcome S

pub record Stream (S : Type 0) : Type 0 where
  pub disk : Disk S
  pub cache : ScanCache S

-- What an operation returns: snapshots, which come with an error where lines are corrupt.
pub data Answer (S : Type 0) : Type 0 where
  snapshots : List S → Answer S
  partial : List S → StoreError → Answer S
  failed : StoreError → Answer S

abbrev pub compaction_min_expired : ℕ
compaction_min_expired = 64

unfoldable pub should_compact : ℕ → ℕ → Bool
should_compact total expired =
    if expired == 0 then false else leb compaction_min_expired expired || leb total (expired * 2)

unfoldable pub with_warning : {S : Type 0} → List S → List ℕ → Answer S
with_warning window [] = snapshots window
with_warning window (n ∷ ns) = partial window (corrupt_lines_in (n ∷ ns))

abbrev pub no_scan : {S : Type 0} → HistoryScan S
no_scan = record { retained = []; corrupt_lines = []; expired = 0; total = 0 }

-- A record that is added to a file which does not end with a newline joins its last line.
unfoldable pub joined : {S : Type 0} → Line S → S → Line S
joined blank s = entry s
joined corrupt s = corrupt
joined (entry t) s = corrupt

unfoldable pub join_last : {S : Type 0} → List (Line S) → S → List (Line S)
unfolding joined
join_last [] s = entry s ∷ []
join_last (l ∷ []) s = joined l s ∷ []
join_last (l ∷ k ∷ ls) s = l ∷ join_last (k ∷ ls) s

unfoldable pub append_to : {S : Type 0} → FileRead S → Bool → S → FileRead S
unfolding join_last
append_to missing ended s = contents (entry s ∷ []) false
append_to unreadable ended s = unreadable
append_to (contents ls true) ended s = contents ls true
append_to (contents ls false) ended s =
    contents (if ended then ls ++ (entry s ∷ []) else join_last ls s) false

unfoldable pub append_line : {S : Type 0} → WriteOutcome S → Disk S → S → Disk S
unfolding append_to
append_line (written info) disk s = record {
  info = info;
  read = append_to disk.read disk.ended s;
  ended = true;
}
append_line (broken left) disk s = left

unfoldable pub replace_snapshots : {S : Type 0} → WriteOutcome S → List S → Disk S
replace_snapshots (written info) retained = record {
  info = info;
  read = contents (map entry retained) false;
  ended = true;
}
replace_snapshots (broken left) retained = left

module _ {S : Type 0} (timestamp : S → ℤ) where
  unfoldable pub scan_lines : ℤ → ℕ → HistoryScan S → List (Line S) → HistoryScan S
  scan_lines cutoff line_num scan [] = scan
  scan_lines cutoff line_num scan (blank ∷ ls) = scan_lines cutoff (suc line_num) scan ls
  scan_lines cutoff line_num scan (corrupt ∷ ls) =
      scan_lines cutoff (suc line_num)
        (record scan { corrupt_lines = scan.corrupt_lines ++ (suc line_num ∷ []) }) ls
  scan_lines cutoff line_num scan (entry s ∷ ls) =
      let fresh = after timestamp cutoff s in
      scan_lines cutoff (suc line_num)
        (record scan {
          total = suc scan.total;
          retained = if fresh then scan.retained ++ (s ∷ []) else scan.retained;
          expired = if fresh then scan.expired else suc scan.expired;
        })
        ls

  -- scanHistoryFile: the scan, and its error.
  unfoldable pub scan_history_file : ℤ → FileRead S → HistoryScan S × Option StoreError
  unfolding scan_lines sort_if_needed
  scan_history_file cutoff missing = (no_scan, none)
  scan_history_file cutoff unreadable = (no_scan, some opening)
  scan_history_file cutoff (contents ls true) = (scan_lines cutoff 0 no_scan ls, some reading)
  scan_history_file cutoff (contents ls false) =
      let scan = scan_lines cutoff 0 no_scan ls in
      (record scan { retained = sort_if_needed timestamp scan.retained }, none)

  abbrev pub saved_scan :
      String
      → ℤ
      → Disk S
      → ScanCache S
      → HistoryScan S × Option StoreError
      → (HistoryScan S × Option StoreError) × ScanCache S
  saved_scan path cutoff disk cache (scan, some e) = ((scan, some e), cache)
  saved_scan path cutoff disk cache (scan, none) =
      ((scan, none), save disk.info path cutoff scan cache)

  abbrev pub cached_or :
      String
      → ℤ
      → Disk S
      → Option (HistoryScan S) × ScanCache S
      → (HistoryScan S × Option StoreError) × ScanCache S
  cached_or path cutoff disk (some scan, cache) = ((scan, none), cache)
  cached_or path cutoff disk (none, cache) =
      saved_scan path cutoff disk cache (scan_history_file cutoff disk.read)

  unfoldable pub cached_history_scan :
      String → ℤ → Disk S → ScanCache S → (HistoryScan S × Option StoreError) × ScanCache S
  cached_history_scan path cutoff disk cache =
      cached_or path cutoff disk (load timestamp disk.info path cutoff cache)

  abbrev pub loaded : HistoryScan S × Option StoreError → Answer S
  loaded (scan, some e) = partial scan.retained e
  loaded (scan, none) = with_warning scan.retained scan.corrupt_lines

  -- LoadAt
  unfoldable pub load_at : Bool → String → ℤ → ℤ → Stream S → Answer S × Stream S
  load_at false path since now st = (failed no_lock, st)
  load_at true path since now st =
      let scanned = cached_history_scan path (now -ℤ since) st.disk st.cache in
      (loaded scanned.0, record st { cache = scanned.1 })

  -- Both the search for the place of a snapshot and the one for the start of a window.
  unfoldable pub place_of : S → List S → ℕ
  place_of s retained =
      let n = length retained in
      search n (λ i. is_after timestamp (timestamp s) (get_elem? retained i)) 0 n

  unfoldable pub insert_at : ℕ → S → List S → List S
  insert_at index s retained = take index retained ++ (s ∷ drop index retained)

  abbrev pub not_before : ℤ → Option S → Bool
  not_before cutoff none = false
  not_before cutoff (some s) = not (ltb_ℤ (timestamp s) cutoff)

  unfoldable pub window_from : ℤ → List S → List S
  window_from cutoff retained =
      let n = length retained in
      drop (search n (λ i. not_before cutoff (get_elem? retained i)) 0 n) retained

  abbrev pub outcome_error : WriteOutcome S → Option StoreError
  outcome_error (written info) = none
  outcome_error (broken left) = some writing

  -- The scan that the cache keeps of the written file.
  unfoldable pub written_scan : Bool → HistoryScan S → List S → HistoryScan S
  written_scan true scan retained = record {
    retained = retained;
    corrupt_lines = [];
    expired = 0;
    total = length retained;
  }
  written_scan false scan retained = record scan { retained = retained; total = suc scan.total }

  unfoldable pub write : Bool → WriteOutcome S → Disk S → S → List S → Disk S
  write true outcome disk s retained = replace_snapshots outcome retained
  write false outcome disk s retained = append_line outcome disk s

  abbrev pub recorded :
      WriteOutcome S
      → String
      → ℤ
      → ℤ
      → S
      → Stream S
      → (HistoryScan S × Option StoreError) × ScanCache S
      → Answer S × Stream S
  recorded outcome path cutoff since_cutoff s st ((scan, some e), cache) =
      (failed e, record st { cache = cache })
  recorded (broken left) path cutoff since_cutoff s st ((scan, none), cache) =
      (failed writing, record { disk = left; cache = remove cache path })
  recorded (written info) path cutoff since_cutoff s st ((scan, none), cache) =
      let retained = insert_at (place_of s scan.retained) s scan.retained in
      let compact = should_compact scan.total scan.expired in
      let disk = write compact (written info) st.disk s retained in
      (
        with_warning (window_from since_cutoff retained) scan.corrupt_lines,
        record {
          disk = disk;
          cache = save info path cutoff (written_scan compact scan retained) (remove cache path);
        },
      )

  -- RecordAndLoad
  unfoldable pub record_and_load :
      SnapshotKey → Bool → WriteOutcome S → String → S → ℤ → ℤ → ℤ → Stream S → Answer S × Stream S
  unfolding validate cached_history_scan place_of insert_at should_compact write written_scan
  record_and_load key lock outcome path s retention since now st =
      let cutoff = now -ℤ retention in
      let done =
        recorded outcome path cutoff (now -ℤ since) s st
          (cached_history_scan path cutoff st.disk st.cache) in
      if not (validate key)
      then (failed invalid_key, st)
      else if not lock
      then (failed no_lock, st)
      else done

  -- Append: the state after it, and its error.
  abbrev appended : WriteOutcome S → String → S → Stream S → Option StoreError × Stream S
  appended outcome path s st = (
    outcome_error outcome,
    record { disk = append_line outcome st.disk s; cache = remove st.cache path },
  )

  unfoldable pub append_snapshot :
      SnapshotKey → Bool → WriteOutcome S → String → S → Stream S → Option StoreError × Stream S
  append_snapshot key lock outcome path s st =
      if not (validate key)
      then (some invalid_key, st)
      else if not lock
      then (some no_lock, st)
      else appended outcome path s st

  abbrev warning_of : List ℕ → Option StoreError
  warning_of [] = none
  warning_of (n ∷ ns) = some (corrupt_lines_in (n ∷ ns))

  abbrev pruned :
      WriteOutcome S
      → String
      → Stream S
      → (HistoryScan S × Option StoreError) × ScanCache S
      → Option StoreError × Stream S
  pruned outcome path st ((scan, some e), cache) = (some e, record st { cache = cache })
  pruned (broken left) path st ((scan, none), cache) =
      (some writing, record { disk = left; cache = remove cache path })
  pruned (written info) path st ((scan, none), cache) = (
    warning_of scan.corrupt_lines,
    record { disk = replace_snapshots (written info) scan.retained; cache = remove cache path },
  )

  -- PruneAt
  unfoldable pub prune_at :
      Bool → WriteOutcome S → String → ℤ → ℤ → Stream S → Option StoreError × Stream S
  prune_at false outcome path retention now st = (some no_lock, st)
  prune_at true outcome path retention now st =
      pruned outcome path st (cached_history_scan path (now -ℤ retention) st.disk st.cache)
