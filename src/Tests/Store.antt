-- ===== src/Tests/Store.antt =====
-- The history store: a file with a corrupt line and records out of order.
use kubectl_hpa_status.Prelude.{
  [], ◌∷◌, ℤ, pos, ◌-ℤ◌, ◌<ℤ◌, true, false, codes, some, none, All, length, ◌≤◌, ◌≡◌, refl, arith,
}
use kubectl_hpa_status.History.Cache.{FileInfo, ScanCache, HistoryScan, find_entry, load, search}
use kubectl_hpa_status.History.Store.{
  blank, corrupt, entry, contents, Disk, Stream, SnapshotKey, validate, written, scan_history_file,
  cached_history_scan, record_and_load, partial, corrupt_lines_in, with_warning, window_from,
}
use kubectl_hpa_status.History.Sorted.{insert}
use kubectl_hpa_status.History.Coherent.{IsCoherent}
use kubectl_hpa_status.History.Transparent.{
  Persists, cached_history_scan-eq-scan, record_and_load-Persists,
}
use kubectl_hpa_status.History.FileName.{
  file_name, is_relative, IsPlain, max_history_filename_length, file_name-IsContained,
}

abbrev seconds : ℤ → ℤ
seconds t = t

abbrev stored : Disk ℤ
stored = record {
  info = some (record { identity = 1; size = pos 200; mod_time = pos 41 });
  read = contents (entry (pos 10) ∷ corrupt ∷ entry (pos 40) ∷ blank ∷ entry (pos 20) ∷ []) false;
  ended = true;
}

abbrev empty_cache : ScanCache ℤ
empty_cache = record { entries = []; records = pos 0; sequence = 0 }

abbrev stream : Stream ℤ
stream = record { disk = stored; cache = empty_cache }

abbrev key : SnapshotKey
key = record { cluster = "dev"; namespace = "shop"; name = "web"; uid = "7" }

abbrev rewritten : FileInfo
rewritten = record { identity = 1; size = pos 250; mod_time = pos 90 }

abbrev before : HistoryScan ℤ
before = record { retained = pos 20 ∷ pos 40 ∷ []; corrupt_lines = 2 ∷ []; expired = 1; total = 3 }

empty-IsCoherent : IsCoherent seconds "web.jsonl" stored empty_cache
unfolding find_entry
empty-IsCoherent = tt

scanned : scan_history_file seconds (pos 100 -ℤ pos 85) stored.read ≡ (before, none)
unfolding scan_history_file ◌-ℤ◌ insert
scanned = refl

cached_history_scan-eq-scan_example :
    ((cached_history_scan seconds "web.jsonl" (pos 15) stored empty_cache).0
      ≡ scan_history_file seconds (pos 15) stored.read)
    × IsCoherent seconds "web.jsonl" stored
        (cached_history_scan seconds "web.jsonl" (pos 15) stored empty_cache).1
cached_history_scan-eq-scan_example =
    cached_history_scan-eq-scan seconds "web.jsonl" (pos 15) stored empty_cache empty-IsCoherent

recent : pos 100 -ℤ pos 85 <ℤ pos 30
unfolding ◌-ℤ◌
recent = omega arith

key_valid : validate key ≡ true
unfolding validate
key_valid = refl

record_and_load-Persists_example :
    Persists seconds (pos 100 -ℤ pos 85) (pos 100 -ℤ pos 60) (pos 30) before (
      record_and_load seconds key true
        (written (some rewritten))
        "web.jsonl"
        (pos 30)
        (pos 85)
        (pos 60)
        (pos 100)
        stream)
record_and_load-Persists_example =
    record_and_load-Persists seconds key (some rewritten) "web.jsonl" (pos 30) (pos 85) (pos 60)
      (pos 100) stream before key_valid empty-IsCoherent refl recent scanned

-- The window starts sixty seconds ago, and the corrupt line is reported.
recorded_window :
    (record_and_load seconds key true
      (written (some rewritten))
      "web.jsonl"
      (pos 30)
      (pos 85)
      (pos 70)
      (pos 100)
      stream).0
    ≡ partial (pos 30 ∷ pos 40 ∷ []) (corrupt_lines_in (2 ∷ []))
unfolding record_and_load load find_entry scan_history_file with_warning window_from search ◌-ℤ◌
    insert
recorded_window = refl

file_name-IsContained_example :
    All IsPlain (file_name (codes "dev/eu") (codes "..") (codes "web") (codes "0a1b"))
    × (is_relative (file_name (codes "dev/eu") (codes "..") (codes "web") (codes "0a1b")) ≡ false)
    × (length (file_name (codes "dev/eu") (codes "..") (codes "web") (codes "0a1b"))
        ≤ max_history_filename_length)
unfolding codes
file_name-IsContained_example =
    file_name-IsContained (codes "dev/eu") (codes "..") (codes "web") (codes "0a1b") digits
      (omega arith)
  where
    digits : All IsPlain (codes "0a1b")
    digits = omega arith

escaped :
    file_name (codes "dev/eu") (codes "..") (codes "web") (codes "0a")
    ≡ codes "dev_eu__.._web_0a.jsonl"
unfolding file_name codes
escaped = refl
