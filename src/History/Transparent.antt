-- ===== src/History/Transparent.antt =====
-- The operations of the store answer as if there were no cache, and keep it coherent.
use kubectl_hpa_status.Prelude.{
  ℕ, [], ◌∷◌, ℤ, ◌<ℤ◌, ◌-ℤ◌, Bool, true, false, String, List, Option, none, some, ◌≡◌, refl, sym,
  ap, subst, ◌∙◌,
}
use kubectl_hpa_status.History.Cache.{FileInfo, HistoryScan, ScanCache, load, find_entry, remove}
use kubectl_hpa_status.History.Sorted.{insert, IsSorted}
use kubectl_hpa_status.History.Window.{recent, window_from-recent}
use kubectl_hpa_status.History.Store.{
  Disk, written, StoreError, corrupt_lines_in, Stream, Answer, snapshots, partial, SnapshotKey,
  validate, scan_history_file, cached_history_scan, saved_scan, cached_or, record_and_load,
  recorded, written_scan, write, should_compact, insert_at, place_of, with_warning, window_from,
  append_line, replace_snapshots,
}
use kubectl_hpa_status.History.Coherent.{
  IsCoherent, save-IsCoherent, remove-IsCoherent, load-IsCoherent,
}
use kubectl_hpa_status.History.Written.{
  scan-written, found-IsFresh, insert-IsFresh, insert_at-place_of,
}

module _ {S : Type 0} (timestamp : S → ℤ) where
  abbrev Answers : String → ℤ → Disk S → (HistoryScan S × Option StoreError) × ScanCache S → Type 0
  Answers path cutoff disk r =
      (r.0 ≡ scan_history_file timestamp cutoff disk.read) × IsCoherent timestamp path disk r.1

  saved_scan-Answers :
      (path : String) (cutoff : ℤ) (disk : Disk S) (cache : ScanCache S)
      (r : HistoryScan S × Option StoreError)
      → scan_history_file timestamp cutoff disk.read ≡ r
      → IsCoherent timestamp path disk cache
      → Answers path cutoff disk (saved_scan timestamp path cutoff disk cache r)
  saved_scan-Answers path cutoff disk cache (scan, some e) h c = (sym h, c)
  saved_scan-Answers path cutoff disk cache (scan, none) h c =
      (sym h, save-IsCoherent timestamp path cutoff disk scan cache h disk.info)

  cached_or-Answers :
      (path : String) (cutoff : ℤ) (disk : Disk S) (r : Option (HistoryScan S) × ScanCache S)
      → IsCoherent timestamp path disk r.1
      → ((scan : HistoryScan S)
          → r.0 ≡ some scan
          → scan_history_file timestamp cutoff disk.read ≡ (scan, none))
      → Answers path cutoff disk (cached_or timestamp path cutoff disk r)
  cached_or-Answers path cutoff disk (some scan, cache) c known = (sym (known scan refl), c)
  cached_or-Answers path cutoff disk (none, cache) c known =
      saved_scan-Answers path cutoff disk cache (scan_history_file timestamp cutoff disk.read) refl
        c

  loaded-Answers :
      (path : String) (cutoff : ℤ) (disk : Disk S) (cache : ScanCache S) (o : Option FileInfo)
      → disk.info ≡ o
      → IsCoherent timestamp path disk cache
      → Answers path cutoff disk
          (cached_or timestamp path cutoff disk (load timestamp o path cutoff cache))
  unfolding load
  loaded-Answers path cutoff disk cache none here c =
      cached_or-Answers path cutoff disk (none, remove cache path)
        (remove-IsCoherent timestamp path disk cache) (λ scan h. cc h)
  loaded-Answers path cutoff disk cache (some info) here c =
      let (kept, known) =
        load-IsCoherent timestamp path cutoff disk cache info (find_entry path cache.entries) refl c
          here in
      cached_or-Answers path cutoff disk _ kept known

  -- Over a cache that is coherent with the file, the cached scan is a scan of the file, its error
  -- included, whatever the cache holds and evicts; the cache stays coherent.
  pub cached_history_scan-eq-scan :
      (path : String) (cutoff : ℤ) (disk : Disk S) (cache : ScanCache S)
      → IsCoherent timestamp path disk cache
      → ((cached_history_scan timestamp path cutoff disk cache).0
          ≡ scan_history_file timestamp cutoff disk.read)
        × IsCoherent timestamp path disk (cached_history_scan timestamp path cutoff disk cache).1
  unfolding cached_history_scan
  cached_history_scan-eq-scan path cutoff disk cache c =
      loaded-Answers path cutoff disk cache disk.info refl c

  abbrev pub KeepsCoherent : String → Answer S × Stream S → Type 0
  KeepsCoherent path r = IsCoherent timestamp path r.1.disk r.1.cache

  abbrev KeepsAll : ℤ → ℤ → S → Stream S → HistoryScan S → Answer S × Stream S → Type 0
  KeepsAll cutoff since_cutoff s st before r =
      let retained = insert timestamp s before.retained in
      let compact = should_compact before.total before.expired in
      (r.0 ≡ with_warning (window_from timestamp since_cutoff retained) before.corrupt_lines)
      × (scan_history_file timestamp cutoff r.1.disk.read
          ≡ (written_scan timestamp compact before retained, none))
      × (r.1.disk.ended ≡ true)

  -- An answer of snapshots, which names the corrupt lines where there are any.
  abbrev pub Reports : List ℕ → List S → Answer S → Type 0
  Reports [] xs answer = answer ≡ snapshots xs
  Reports (n ∷ ns) xs answer = answer ≡ partial xs (corrupt_lines_in (n ∷ ns))

  -- What a record should do: the answer comes from the snapshots of the file and the new one, and the
  -- new file has them all.
  abbrev pub Persists : ℤ → ℤ → S → HistoryScan S → Answer S × Stream S → Type 0
  Persists cutoff since_cutoff s before r =
      let retained = insert timestamp s before.retained in
      IsSorted timestamp retained
      × Reports before.corrupt_lines (recent timestamp since_cutoff retained) r.0
      × ((after : HistoryScan S) × (scan_history_file timestamp cutoff r.1.disk.read
            ≡ (after, none))
          × (after.retained ≡ retained))
      × (r.1.disk.ended ≡ true)

  with_warning-Reports : (xs : List S) (ns : List ℕ) → Reports ns xs (with_warning xs ns)
  unfolding with_warning
  with_warning-Reports xs [] = refl
  with_warning-Reports xs (n ∷ ns) = refl

  KeepsAll-Persists :
      (cutoff since_cutoff : ℤ) (s : S) (st : Stream S) (before : HistoryScan S)
      (r : Answer S × Stream S)
      → cutoff <ℤ timestamp s
      → scan_history_file timestamp cutoff st.disk.read ≡ (before, none)
      → KeepsAll cutoff since_cutoff s st before r
      → Persists cutoff since_cutoff s before r
  unfolding written_scan
  KeepsAll-Persists cutoff since_cutoff s st before r h found (answer, scanned, ended) =
      let retained = insert timestamp s before.retained in
      let compact = should_compact before.total before.expired in
      let sorted =
        (insert-IsFresh timestamp cutoff s before.retained h
          (found-IsFresh timestamp cutoff st.disk.read before found)).0 in
      let shown =
        answer
        ∙ ap (λ xs. with_warning xs before.corrupt_lines)
            (window_from-recent timestamp since_cutoff retained sorted) in
      (
        sorted,
        subst (Reports before.corrupt_lines (recent timestamp since_cutoff retained)) (sym shown)
            (with_warning-Reports (recent timestamp since_cutoff retained) before.corrupt_lines),
        (written_scan timestamp compact before retained, scanned, written-retained compact),
        ended,
      )
    where
      written-retained :
          (b : Bool)
          → (written_scan timestamp b before (insert timestamp s before.retained)).retained
            ≡ insert timestamp s before.retained
      written-retained true = refl
      written-retained false = refl

  write_ended :
      (compact : Bool) (info : Option FileInfo) (disk : Disk S) (s : S) (xs : List S)
      → (write timestamp compact (written info) disk s xs).ended ≡ true
  unfolding write append_line replace_snapshots
  write_ended true info disk s xs = refl
  write_ended false info disk s xs = refl

  recorded-KeepsAll :
      (info : Option FileInfo) (path : String) (cutoff since_cutoff : ℤ) (s : S) (st : Stream S)
      (before : HistoryScan S) (r : (HistoryScan S × Option StoreError) × ScanCache S)
      → st.disk.ended ≡ true
      → cutoff <ℤ timestamp s
      → scan_history_file timestamp cutoff st.disk.read ≡ (before, none)
      → r.0 ≡ (before, none)
      → KeepsAll cutoff since_cutoff s st before
          (recorded timestamp (written info) path cutoff since_cutoff s st r)
  recorded-KeepsAll info path cutoff since_cutoff s st before ((scan, some e), cache) ended h found
        eq =
      cc eq
  recorded-KeepsAll info path cutoff since_cutoff s st before ((scan, none), cache) ended h found
        eq =
      let same : before ≡ scan = ap (λ (p : HistoryScan S × Option StoreError). p.0) (sym eq) in
      let compact = should_compact scan.total scan.expired in
      let scanned = found ∙ ap (λ x. (x, none)) same in
      let place : insert_at timestamp (place_of timestamp s scan.retained) s scan.retained
          ≡ insert timestamp s scan.retained =
        insert_at-place_of timestamp cutoff s scan.retained
          (found-IsFresh timestamp cutoff st.disk.read scan scanned) in
      subst
        (λ b.
          KeepsAll cutoff since_cutoff s st b
            (recorded timestamp (written info) path cutoff since_cutoff s st ((scan, none), cache)))
        (sym same)
        (
          ap (λ xs. with_warning (window_from timestamp since_cutoff xs) scan.corrupt_lines) place,
          ap
                (λ xs.
                  scan_history_file timestamp cutoff
                    (write timestamp compact (written info) st.disk s xs).read)
                place
              ∙ scan-written timestamp cutoff compact info st.disk s scan ended h scanned,
          write_ended compact info st.disk s
              (insert_at timestamp (place_of timestamp s scan.retained) s scan.retained),
        )

  -- A record with a complete key that gets the lock and is written, of a snapshot within the retention,
  -- over a cache that is coherent with a file that can be scanned and ends with a newline (or is
  -- empty): the file's snapshots and the new one, sorted by time, are what a scan of the new file
  -- finds, so that no snapshot within the retention is lost, whether the file is appended to or
  -- compacted; the answer is those of them that are not before the window's start, with the corrupt
  -- lines if there are any; and the file ends with a newline again.
  pub record_and_load-Persists :
      (key : SnapshotKey) (info : Option FileInfo) (path : String) (s : S) (retention since now : ℤ)
      (st : Stream S) (before : HistoryScan S)
      → validate key ≡ true
      → IsCoherent timestamp path st.disk st.cache
      → st.disk.ended ≡ true
      → now -ℤ retention <ℤ timestamp s
      → scan_history_file timestamp (now -ℤ retention) st.disk.read ≡ (before, none)
      → Persists
          (now -ℤ retention)
          (now -ℤ since)
          s
          before
          (record_and_load timestamp key true (written info) path s retention since now st)
  unfolding record_and_load
  record_and_load-Persists key info path s retention since now st before valid c ended h found =
      let cutoff = now -ℤ retention in
      let scanned = cached_history_scan-eq-scan path cutoff st.disk st.cache c in
      rw valid (
        KeepsAll-Persists cutoff (now -ℤ since) s st before
          (recorded timestamp (written info) path cutoff (now -ℤ since) s st
            (cached_history_scan timestamp path cutoff st.disk st.cache))
          h found
          (recorded-KeepsAll info path cutoff (now -ℤ since) s st before
            (cached_history_scan timestamp path cutoff st.disk st.cache) ended h found
            (scanned.0 ∙ found)))
